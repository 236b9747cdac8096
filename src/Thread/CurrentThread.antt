-- ===== src/Thread/CurrentThread.antt =====
-- The variables of one thread in base/CurrentThread.h and base/Thread.cc: its number, kept with its text,
-- and its name. A text is the list of its bytes.
pub mod Text
use naive_net.Common.{
  ℕ, ◌+◌, ◌*◌, ◌≡◌, List, [], ◌∷◌, ◌++◌, Bool, true, false, if◌then◌else◌, length, take, replicate,
}
use naive_net.Common.Int.{ℤ, pos, ◌==ℤ◌, ◌*ℤ◌, quot, rem}
use naive_net.Common.Printf.{blank_padded}

pub record CurrentThread : Type 0 where
  pub cached_tid : ℤ
  pub tid_string : List ℕ
  pub tid_string_length : ℕ
  pub thread_name : List ℕ

abbrev pub unknown_name : List ℕ
unknown_name = b'u' ∷ b'n' ∷ b'k' ∷ b'n' ∷ b'o' ∷ b'w' ∷ b'n' ∷ []

abbrev pub main_name : List ℕ
main_name = b'm' ∷ b'a' ∷ b'i' ∷ b'n' ∷ []

-- The variables of a new thread.
unfoldable pub new_thread : CurrentThread
new_thread = record {
  cached_tid = pos 0;
  tid_string = [];
  tid_string_length = 6;
  thread_name = unknown_name;
}

-- `cacheTid`, where the system gives `gettid`: `snprintf` into 32 bytes, and its length.
unfoldable pub cache_tid : ℤ → CurrentThread → CurrentThread
cache_tid gettid t =
    let text = blank_padded 5 gettid ++ b' ' ∷ [] in
    if t.cached_tid ==ℤ pos 0
    then (record t {
      cached_tid = gettid;
      tid_string = take 31 text;
      tid_string_length = length text;
    })
    else t

-- `tid`, with the variables afterwards.
unfoldable pub tid : ℤ → CurrentThread → ℤ × CurrentThread
unfolding cache_tid
tid gettid t =
    let t' = if t.cached_tid ==ℤ pos 0 then cache_tid gettid t else t in (t'.cached_tid, t')

-- `afterFork`, and the first of `ThreadNameInitializer`.
unfoldable pub after_fork : ℤ → CurrentThread → CurrentThread
unfolding tid
after_fork gettid t = (tid gettid (record t { cached_tid = pos 0; thread_name = main_name })).1

unfoldable pub name_initializer : ℤ → CurrentThread → CurrentThread
unfolding tid
name_initializer gettid t = (tid gettid (record t { thread_name = main_name })).1

-- `isMainThread`, where the process has the number `getpid`.
unfoldable pub is_main_thread : ℤ → ℤ → CurrentThread → Bool × CurrentThread
unfolding tid
is_main_thread getpid gettid t = ((tid gettid t).0 ==ℤ getpid, (tid gettid t).1)

-- The seconds and nanoseconds that `sleepUsec` sleeps.
unfoldable pub sleep_usec : ℤ → ℤ × ℤ
sleep_usec usec = (quot usec 1000000, 1000 *ℤ rem usec 1000000)
