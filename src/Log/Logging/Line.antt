-- ===== src/Log/Logging/Line.antt =====
-- What a line of base/log/Logging.cc looks like.
use naive_net.Common.{
  ℕ, ◌<◌, ◌≡◌, refl, sym, ap, ◌∙◌, List, [], ◌∷◌, ◌++◌, append_assoc, length, arith,
}
use naive_net.Common.Int.{ℤ, pos}
use naive_net.Common.Printf.{signed}
use naive_net.Log.Buffer.{create, avail, as_string}
use naive_net.Log.Stream.{Item}
use naive_net.Log.Stream.Items.{texts_of, text_of, room_for_all, AreItems}
use naive_net.Log.Stream.Laws.{as_string-put_all}
use naive_net.Log.Logging.{
  LogLevel, Effect, log_level_name, source_file, header_items, finish_items, log_line,
}

module _ {D : Type 0} (print_g12 : D → List ℕ) (strerror_tl : ℤ → List ℕ)
    (memory tid_string : List ℕ) where
  texts-append :
      (is js : List (Item D))
      → texts_of print_g12 (is ++ js) ≡ texts_of print_g12 is ++ texts_of print_g12 js
  unfolding texts_of
  texts-append [] js = refl
  texts-append (i ∷ is) js =
      ap (λ l. text_of print_g12 i ++ l) (texts-append is js)
      ∙ sym (append_assoc (text_of print_g12 i) (texts_of print_g12 is) (texts_of print_g12 js))

  line_texts :
      (date us : List ℕ) (level : LogLevel) (items : List (Item D)) (filename : List ℕ) (line : ℤ)
      → texts_of print_g12 (
          header_items strerror_tl tid_string date us level (pos 0)
          ++ (items ++ finish_items filename line))
        ≡ date
          ++ (us
              ++ (tid_string
                  ++ (log_level_name level
                      ++ (texts_of print_g12 items
                          ++ (b' ' ∷ b'-' ∷ b' ' ∷ source_file filename
                              ++ (b':' ∷ (signed line ++ 10 ∷ [])))))))
  unfolding texts_of text_of header_items finish_items
  line_texts date us level items filename line =
      ap (λ l. date ++ (us ++ (tid_string ++ (log_level_name level ++ l))))
        (texts-append items (finish_items filename line))

  -- Where its items have the room that they want together, a line is handed to the output function once:
  -- the date, the microseconds, the thread, the level, the text of the user, and the file with the line.
  -- Only a fatal line is followed by a flush and an abort.
  pub log_line-text :
      (date us : List ℕ) (level : LogLevel) (items : List (Item D)) (filename : List ℕ) (line : ℤ)
      → AreItems print_g12 (
          header_items strerror_tl tid_string date us level (pos 0)
          ++ (items ++ finish_items filename line))
      → room_for_all print_g12 (
          header_items strerror_tl tid_string date us level (pos 0)
          ++ (items ++ finish_items filename line))
        < length memory
      → log_line print_g12 strerror_tl memory tid_string date us level (pos 0) items filename line
        ≡ Effect.output (
            date
            ++ (us
                ++ (tid_string
                    ++ (log_level_name level
                        ++ (texts_of print_g12 items
                            ++ (b' ' ∷ b'-' ∷ b' ' ∷ source_file filename
                                ++ (b':' ∷ (signed line ++ 10 ∷ []))))))))
          ∷ elim level [ LogLevel.fatal ↦ Effect.flush ∷ Effect.abort ∷ [] | _ ↦ [] ]
  unfolding log_line create as_string avail
  log_line-text date us level items filename line w h =
      ap
        (λ text.
          Effect.output text
          ∷ elim level [ LogLevel.fatal ↦ Effect.flush ∷ Effect.abort ∷ [] | _ ↦ [] ])
        (as_string-put_all print_g12 (record { buffer = create memory }) _
            (record { sized = refl; room = omega arith }) w (omega arith)
          ∙ line_texts date us level items filename line)
