-- ===== src/BlockQueue.antt =====
-- include/BlockQueue.h: a bounded queue that several threads share. An operation holds `mutex_`
-- but for the time that it waits, so it is one step of the queue, except that `wait_for` lets
-- other threads change the queue in between: they are the functions of the list `others`, one for
-- each wake-up before the time is over.
pub mod Bounds
pub mod Order
pub mod Waiting
mod Tests
use p_rpc.Base.{
  ℕ, suc, ◌+◌, ◌-◌, List, [], ◌∷◌, ◌++◌, Bool, true, false, Option, none, some, ltb, ◌==◌,
  if◌then◌else◌, length,
}

-- `std::condition_variable::wait_for(lock, time, pred)`: the test is made at once and after each
-- wake-up; the result is the test's when it holds or the time is over.
unfoldable pub wait_for {ℓ} : {S : Type ℓ} → (S → Bool) → List (S → S) → S → S × Bool
wait_for pred [] s = (s, pred s)
wait_for pred (other ∷ others) s =
    let rest = wait_for pred others (other s) in if pred s then (s, true) else rest

-- The condition variables count the calls of their `notify_one`.
pub record BlockQueue {ℓ} (A : Type ℓ) : Type ℓ where
  pub max_size : ℕ
  pub queue : List A
  pub cond_is_empty : ℕ
  pub cond_is_full : ℕ

module _ {ℓ} {A : Type ℓ} where
  unfoldable pub new_queue : ℕ → BlockQueue A
  new_queue capacity = record {
    max_size = capacity;
    queue = [];
    cond_is_empty = 0;
    cond_is_full = 0;
  }

  unfoldable pub size : BlockQueue A → ℕ
  size q = length q.queue

  abbrev pub is_empty : List A → Bool
  is_empty [] = true
  is_empty (x ∷ xs) = false

  abbrev pub has_room : BlockQueue A → Bool
  has_room q = ltb (length q.queue) q.max_size

  abbrev pub has_work : BlockQueue A → Bool
  has_work q = ltb 0 (length q.queue)

  -- The part of `try_push` after the wait, with the mutex held.
  unfoldable pub push_value : BlockQueue A → A → Bool → BlockQueue A
  push_value q val back = record q {
    queue = if back then q.queue ++ val ∷ [] else val ∷ q.queue;
    cond_is_empty = if is_empty q.queue then q.cond_is_empty + 1 else q.cond_is_empty;
  }

  abbrev finish_push : BlockQueue A × Bool → A → Bool → BlockQueue A × Bool
  finish_push (q, woken) val back = if woken then (push_value q val back, true) else (q, false)

  unfoldable pub try_push :
      List (BlockQueue A → BlockQueue A) → BlockQueue A → A → Bool → BlockQueue A × Bool
  try_push others q val back = finish_push (wait_for has_room others q) val back

  -- `push` and `push_front`: `try_push` until it succeeds, with a sleep after each failure. A round
  -- is what the others do while it waits and while it sleeps; `none` means that the rounds ran out.
  push_rounds :
      List (List (BlockQueue A → BlockQueue A) × (BlockQueue A → BlockQueue A))
      → BlockQueue A
      → A
      → Bool
      → Option (BlockQueue A)
  push_rounds [] q val back = none
  push_rounds ((others, sleep) ∷ rounds) q val back =
      let (q', pushed) = try_push others q val back in
      let rest = push_rounds rounds (sleep q') val back in if pushed then some q' else rest

  unfoldable pub push :
      List (List (BlockQueue A → BlockQueue A) × (BlockQueue A → BlockQueue A))
      → BlockQueue A
      → A
      → Option (BlockQueue A)
  unfolding push_rounds
  push rounds q val = push_rounds rounds q val true

  unfoldable pub push_front :
      List (List (BlockQueue A → BlockQueue A) × (BlockQueue A → BlockQueue A))
      → BlockQueue A
      → A
      → Option (BlockQueue A)
  unfolding push_rounds
  push_front rounds q val = push_rounds rounds q val false

  -- The part of `_pop` and `pop` after the wait: the front, and the signal to a producer. The test
  -- `size() == max_size - 1` is made on unsigned numbers, where 0 - 1 is no size.
  abbrev take_front : BlockQueue A → List A → Option A × BlockQueue A
  take_front q [] = (none, q)
  take_front q (x ∷ xs) = (
    some x,
    record q {
      queue = xs;
      cond_is_full = if length xs + 1 == q.max_size then q.cond_is_full + 1 else q.cond_is_full;
    },
  )

  unfoldable pub pop_value : BlockQueue A → Option A × BlockQueue A
  pop_value q = take_front q q.queue

  abbrev finish_pop : BlockQueue A × Bool → Option A × BlockQueue A
  finish_pop (q, woken) = if woken then pop_value q else (none, q)

  -- `_pop` and `try_pop`; `none` is the result false.
  unfoldable pub try_pop :
      List (BlockQueue A → BlockQueue A) → BlockQueue A → Option A × BlockQueue A
  try_pop others q = finish_pop (wait_for has_work others q)

  -- `pop` waits again until there is an entry; `none` means that the rounds ran out.
  unfoldable pub pop :
      List (List (BlockQueue A → BlockQueue A)) → BlockQueue A → Option A × BlockQueue A
  pop [] q = (none, q)
  pop (others ∷ rounds) q =
      let (q', woken) = wait_for has_work others q in
      let rest = pop rounds q' in if woken then pop_value q' else rest
