-- ===== src/Thread/Local.antt =====
-- Objects that are made at their first use: base/Singleton.h for the process, and for each thread
-- base/ThreadLocal.h and base/ThreadLocalSingleton.h. An object is a number, in the order of the calls of
-- `new`; a thread is an index.
pub mod Owners
pub mod Ends
mod Examples
use naive_net.Common.{
  ℕ, suc, ◌≡◌, List, [], ◌∷◌, ◌++◌, Option, none, some, ◌>>=◌, Bool, true, false, not, ◌==◌,
  if◌then◌else◌, set, replicate, get_or,
}

-- `Singleton`: `once` is whether `pthread_once` has called `init`, and `at_exit` how often `destroy` has
-- been handed to `atexit`.
pub record Singleton : Type 0 where
  pub once : Bool
  pub value : Option ℕ
  pub made : ℕ
  pub at_exit : ℕ

-- `init`, for a type with or without `no_destroy`.
unfoldable pub init : Bool → Singleton → Singleton
init no_destroy s = record s {
  value = some s.made;
  made = suc s.made;
  at_exit = if not no_destroy then suc s.at_exit else s.at_exit;
}

-- `instance`, with the object; `none` would be a null pointer.
unfoldable pub singleton_instance : Bool → Singleton → Option ℕ × Singleton
unfolding init
singleton_instance no_destroy s =
    let s' = if s.once then s else record (init no_destroy s) { once = true } in (s'.value, s')

-- `ThreadLocal`: what `pthread_getspecific` gives in each thread.
pub record ThreadLocal : Type 0 where
  pub specific : List (Option ℕ)
  pub made : ℕ
  pub deleted : List ℕ

unfoldable pub value_of : ℕ → ThreadLocal → Option ℕ → ℕ × ThreadLocal
value_of i s none =
    (s.made, record s { specific = set s.specific i (some s.made); made = suc s.made })
value_of i s (some obj) = (obj, s)

-- `value` in thread `i`, and `destructor` at its end, which pthread calls where there is an object.
unfoldable pub value : ℕ → ThreadLocal → ℕ × ThreadLocal
unfolding value_of
value i s = value_of i s (get_or s.specific i none)

unfoldable pub destructor_of : ℕ → ThreadLocal → Option ℕ → ThreadLocal
destructor_of i s none = s
destructor_of i s (some obj) = record s {
  specific = set s.specific i none;
  deleted = s.deleted ++ obj ∷ [];
}

unfoldable pub destructor : ℕ → ThreadLocal → ThreadLocal
unfolding destructor_of
destructor i s = destructor_of i s (get_or s.specific i none)

-- `ThreadLocalSingleton`: `t_value_` of each thread beside what `pthread_getspecific` gives.
pub record ThreadLocalSingleton : Type 0 where
  pub t_value : List (Option ℕ)
  pub specific : List (Option ℕ)
  pub made : ℕ
  pub deleted : List ℕ

unfoldable pub new_local : ℕ → ThreadLocalSingleton
new_local n = record {
  t_value = replicate n none;
  specific = replicate n none;
  made = 0;
  deleted = [];
}

-- `Deleter::set`: `none` is its assertion failing.
unfoldable pub set_deleter : ℕ → ℕ → ThreadLocalSingleton → Option ℕ → Option ThreadLocalSingleton
set_deleter i obj s none = some (record s { specific = set s.specific i (some obj) })
set_deleter i obj s (some other) = none

-- `instance` in thread `i`.
unfoldable pub instance_of : ℕ → ThreadLocalSingleton → Option ℕ → Option ThreadLocalSingleton
unfolding set_deleter
instance_of i s none =
    set_deleter i s.made (record s { t_value = set s.t_value i (some s.made); made = suc s.made })
      (get_or s.specific i none)
instance_of i s (some obj) = some s

-- The key's destructor at the end of thread `i`: pthread takes the object out, and calls `destructor`
-- with it, whose assertion compares it with `t_value_`.
unfoldable pub end_of : ℕ → ThreadLocalSingleton → Option ℕ → Option ℕ → Option ThreadLocalSingleton
end_of i s none t = some s
end_of i s (some obj) none = none
end_of i s (some obj) (some t) =
    if obj == t
    then some (record s {
      t_value = set s.t_value i none;
      specific = set s.specific i none;
      deleted = s.deleted ++ t ∷ [];
    })
    else none

pub data Use : Type 0 where
  instance_in end_in : ℕ → Use

unfoldable pub use_local : ThreadLocalSingleton → Use → Option ThreadLocalSingleton
unfolding instance_of end_of
use_local s (instance_in i) = instance_of i s (get_or s.t_value i none)
use_local s (end_in i) = end_of i s (get_or s.specific i none) (get_or s.t_value i none)

-- A schedule of uses in threads; `none` is an assertion that fails.
unfoldable pub use_all : ThreadLocalSingleton → List Use → Option ThreadLocalSingleton
unfolding use_local
use_all s [] = some s
use_all s (u ∷ us) = use_local s u >>= λ s'. use_all s' us
