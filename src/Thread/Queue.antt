-- ===== src/Thread/Queue.antt =====
-- `BlockingQueue` of base/BlockingQueue.h: those that call `put` and `take`, one step for each critical
-- section.
pub mod Wakeup
pub mod Statements
pub mod Locking
mod Examples
use naive_net.Common.{
  ℕ, ◌≡◌, List, [], ◌∷◌, ◌++◌, Option, some, Bool, true, false, length, get_elem?, set, replicate,
}
use naive_net.Thread.Wait.{Sleeper, Notified}

-- Where a thread that takes is: outside, in `take` with the mutex to get, or in `notEmpty_.wait()`.
pub data Taker : Type 0 where
  outside taking waiting : Taker

-- `accepted` and `taken` note what was ever put and taken.
pub record BlockingQueue (T : Type 0) : Type 0 where
  pub queue : List T
  pub takers : List Taker
  pub accepted : List T
  pub taken : List T

abbrev pub taker_sleeper : Sleeper Taker
taker_sleeper = record {
  asleep = λ t. elim t [ waiting ↦ true | _ ↦ false ];
  wake = λ t. elim t [ waiting ↦ taking | outside ↦ outside | taking ↦ taking ];
}

module _ {T : Type 0} where
  unfoldable pub new_queue : ℕ → BlockingQueue T
  new_queue n = record { queue = []; takers = replicate n outside; accepted = []; taken = [] }

  unfoldable pub size : BlockingQueue T → ℕ
  size s = length s.queue

  pub data QueueStep (s : BlockingQueue T) : BlockingQueue T → Type 0 where
    put :
        (x : T) {ts : List Taker}
        → Notified taker_sleeper s.takers ts
        → QueueStep s
            (record s { queue = s.queue ++ x ∷ []; takers = ts; accepted = s.accepted ++ x ∷ [] })
    enter :
        (i : ℕ)
        → get_elem? s.takers i ≡ some outside
        → QueueStep s (record s { takers = set s.takers i taking })
    wait :
        (i : ℕ)
        → get_elem? s.takers i ≡ some taking
        → s.queue ≡ []
        → QueueStep s (record s { takers = set s.takers i waiting })
    take_front :
        (i : ℕ) (x : T) (q : List T)
        → get_elem? s.takers i ≡ some taking
        → s.queue ≡ x ∷ q
        → QueueStep s
            (record s { queue = q; takers = set s.takers i outside; taken = s.taken ++ x ∷ [] })
    -- A wait may end with no `notify`.
    wake_up :
        (i : ℕ)
        → get_elem? s.takers i ≡ some waiting
        → QueueStep s (record s { takers = set s.takers i taking })

  pub data QueueSteps (s : BlockingQueue T) : BlockingQueue T → Type 0 where
    done : QueueSteps s s
    next : {t u : BlockingQueue T} → QueueSteps s t → QueueStep t u → QueueSteps s u
