-- ===== src/Log/LogFile/Examples.antt =====
-- A log file of base/log/LogFile.cc that is rolled behind its second line.
use naive_net.Common.{ℕ, ◌≤◌, ◌≡◌, refl, ◌⊎◌, List, [], ◌∷◌, ◌++◌, take, length, false, arith}
use naive_net.Common.Int.{pos}
use naive_net.File.{Stdio}
use naive_net.Log.LogFile.{LogFile, append_unlocked, period_of}
use naive_net.Log.LogFile.Rolling.{all_text, append_unlocked-text}
use naive_net.Log.LogFile.Period.{IsLogFile, append_unlocked-size, append_unlocked-IsLogFile}

-- A file is its contents.
abbrev pub whole : Stdio (List ℕ)
whole = record {
  fopen = λ name. [];
  fwrite = λ w bytes. (length bytes, w ++ take (length bytes) bytes);
  fflush = λ w. w;
  ferror = λ w. false;
  contents = λ w. w;
  fwrite_le = λ w bytes. omega arith;
  contents_fwrite = λ w bytes. refl;
  contents_fflush = λ w. refl;
}

abbrev pub no_text : ℕ → List ℕ
no_text t = []

abbrev log_file : LogFile (List ℕ)
log_file = record {
  basename = b'l' ∷ [];
  roll_size = 3;
  flush_interval = 3;
  check_every_n = 1024;
  count = 7;
  start_of_period = 86400;
  last_roll = 90000;
  last_flush = 90000;
  file = record { fp = 1 ∷ 2 ∷ []; written_bytes = 2; reports = 0 };
  closed = [];
}

abbrev after_line : LogFile (List ℕ)
after_line = append_unlocked whole no_text [] (pos 1) log_file (3 ∷ 4 ∷ []) 90001 90002

append_unlocked-text_example : all_text whole after_line ≡ all_text whole log_file ++ 3 ∷ 4 ∷ []
append_unlocked-text_example =
    append_unlocked-text whole no_text [] (pos 1) (λ name. refl) (λ w bytes. refl) log_file
      (3 ∷ 4 ∷ []) 90001 90002

append_unlocked-size_example : (after_line.file.written_bytes ≤ 3) ⊎ (90002 ≤ 90000)
append_unlocked-size_example =
    append_unlocked-size whole no_text [] (pos 1) log_file (3 ∷ 4 ∷ []) 90001 90002

log_file-IsLogFile : IsLogFile whole no_text [] (pos 1) log_file
unfolding period_of
log_file-IsLogFile = record { counted = omega arith; period = refl; flushed = omega arith }

append_unlocked-IsLogFile_example :
    IsLogFile whole no_text [] (pos 1) after_line × (after_line.last_flush ≤ 90002)
append_unlocked-IsLogFile_example =
    append_unlocked-IsLogFile whole no_text [] (pos 1) log_file (3 ∷ 4 ∷ []) 90001 90002
      (omega arith) (omega arith) log_file-IsLogFile
