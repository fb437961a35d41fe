-- ===== src/BlockQueue/Waiting.antt =====
-- When a wait ends, and when the loops of `push` and `pop` do.
use p_rpc.Base.{◌≡◌, refl, List, [], ◌∷◌, Bool, false, arith, Bool-cases, inl, inr, ◌↔◌, none, true}
use p_rpc.BlockQueue.{
  BlockQueue, wait_for, has_room, try_push, has_work, pop, push_rounds, push, pop_value, push_front,
}

-- No check of the wait finds the condition.
abbrev pub Never {ℓ} : {S : Type ℓ} → (S → Bool) → List (S → S) → S → Type 0
Never pred [] s = pred s ≡ false
Never pred (other ∷ others) s = (pred s ≡ false) × Never pred others (other s)

-- What the other threads make of the queue when the condition never holds.
abbrev pub after_all {ℓ} : {S : Type ℓ} → List (S → S) → S → S
after_all [] s = s
after_all (other ∷ others) s = after_all others (other s)

module _ {ℓ} {S : Type ℓ} (pred : S → Bool) where
  pub wait_for-now :
      (others : List (S → S)) (s : S) → pred s ≡ true → wait_for pred others s ≡ (s, true)
  unfolding wait_for
  wait_for-now [] s h = rw h refl
  wait_for-now (other ∷ others) s h = rw h refl

  -- The result of a wait is the condition in the state that it ends in.
  pub wait_for-pred :
      (others : List (S → S)) (s : S) → (wait_for pred others s).1 ≡ pred (wait_for pred others s).0
  unfolding wait_for
  wait_for-pred [] s = refl
  wait_for-pred (other ∷ others) s = elim (Bool-cases (pred s)) [
    | inl e ↦ rw e (rw e)
    | inr e ↦ rw e (wait_for-pred others (other s))
  ]

  pub wait_for-Never :
      (others : List (S → S)) (s : S)
      → (wait_for pred others s).1 ≡ false
      → Never pred others s × ((wait_for pred others s).0 ≡ after_all others s)
  unfolding wait_for
  wait_for-Never [] s h = (h, refl)
  wait_for-Never (other ∷ others) s h = elim (Bool-cases (pred s)) [
    | inl e ↦ cc e
    | inr e ↦ let (n, a) = wait_for-Never others (other s) (ground arith) in (((e, n)), rw e a)
  ]

  pub Never-wait_for :
      (others : List (S → S)) (s : S)
      → Never pred others s
      → wait_for pred others s ≡ (after_all others s, false)
  unfolding wait_for
  Never-wait_for [] s h = rw h
  Never-wait_for (other ∷ others) s h = rw h.0 (Never-wait_for others (other s) h.1)

module _ {ℓ} {A : Type ℓ} where
  -- `try_push` gives up exactly when the queue is full at the start of its wait and at each wake-up
  -- before the time is over; the queue is then as the other threads left it.
  try_push_fails :
      (others : List (BlockQueue A → BlockQueue A)) (q : BlockQueue A) (val : A) (back : Bool)
      → (try_push others q val back ≡ (after_all others q, false)) ↔ Never has_room others q
  unfolding try_push
  try_push_fails others q val back = (gives_up, λ n. rw (Never-wait_for has_room others q n))
    where
      gives_up : try_push others q val back ≡ (after_all others q, false) → Never has_room others q
      gives_up h = elim (Bool-cases (wait_for has_room others q).1) [
        | inl e ↦ absurd (ground arith)
        | inr e ↦ (wait_for-Never has_room others q e).0
      ]

  -- Every check of every round of `push` finds the queue full.
  abbrev pub AllFull :
      List (List (BlockQueue A → BlockQueue A) × (BlockQueue A → BlockQueue A))
      → BlockQueue A
      → Type 0
  AllFull [] q = Unit
  AllFull ((others, sleep) ∷ rounds) q =
      Never has_room others q × AllFull rounds (sleep (after_all others q))

  -- Every check of every round of `pop` finds the queue empty.
  abbrev pub AllEmpty : List (List (BlockQueue A → BlockQueue A)) → BlockQueue A → Type 0
  AllEmpty [] q = Unit
  AllEmpty (others ∷ rounds) q = Never has_work others q × AllEmpty rounds (after_all others q)

  push_rounds-none :
      (rounds : List (List (BlockQueue A → BlockQueue A) × (BlockQueue A → BlockQueue A)))
      (q : BlockQueue A) (val : A) (back : Bool)
      → push_rounds rounds q val back ≡ none
      → AllFull rounds q
  unfolding push_rounds try_push
  push_rounds-none [] q val back h = tt
  push_rounds-none ((others, sleep) ∷ rounds) q val back h =
      elim (Bool-cases (wait_for has_room others q).1) [
        | inl e ↦ absurd (ground arith)
        | inr e ↦
            let (n, a) = wait_for-Never has_room others q e in
            (n, push_rounds-none rounds (sleep (after_all others q)) val back (ground arith))
      ]

  push_rounds-AllFull :
      (rounds : List (List (BlockQueue A → BlockQueue A) × (BlockQueue A → BlockQueue A)))
      (q : BlockQueue A) (val : A) (back : Bool)
      → AllFull rounds q
      → push_rounds rounds q val back ≡ none
  unfolding push_rounds try_push
  push_rounds-AllFull [] q val back h = refl
  push_rounds-AllFull ((others, sleep) ∷ rounds) q val back h =
      rw (Never-wait_for has_room others q h.0)
        (push_rounds-AllFull rounds (sleep (after_all others q)) val back h.1)

  pop-none :
      (rounds : List (List (BlockQueue A → BlockQueue A))) (q : BlockQueue A)
      → (pop rounds q).0 ≡ none
      → AllEmpty rounds q
  unfolding pop pop_value
  pop-none [] q h = tt
  pop-none (others ∷ rounds) q h = elim (Bool-cases (wait_for has_work others q).1) [
    | inl e ↦ absurd (ground (arith, wait_for-pred has_work others q))
    | inr e ↦
        let (n, a) = wait_for-Never has_work others q e in
        (n, pop-none rounds (after_all others q) (ground arith))
  ]

  pop-AllEmpty :
      (rounds : List (List (BlockQueue A → BlockQueue A))) (q : BlockQueue A)
      → AllEmpty rounds q
      → (pop rounds q).0 ≡ none
  unfolding pop
  pop-AllEmpty [] q h = refl
  pop-AllEmpty (others ∷ rounds) q h =
      rw (Never-wait_for has_work others q h.0) (pop-AllEmpty rounds (after_all others q) h.1)

  -- The loops of `push`, `push_front` and `pop` end as soon as one check finds room, or an entry:
  -- they are still running after some rounds exactly when every check of these rounds failed.
  pub loops_end :
      (rounds : List (List (BlockQueue A → BlockQueue A) × (BlockQueue A → BlockQueue A)))
      (waits : List (List (BlockQueue A → BlockQueue A))) (q : BlockQueue A) (val : A)
      → ((push rounds q val ≡ none) ↔ AllFull rounds q)
        × ((push_front rounds q val ≡ none) ↔ AllFull rounds q)
        × (((pop waits q).0 ≡ none) ↔ AllEmpty waits q)
  unfolding push push_front
  loops_end rounds waits q val = (
    (push_rounds-none rounds q val true, push_rounds-AllFull rounds q val true),
    (push_rounds-none rounds q val false, push_rounds-AllFull rounds q val false),
    (pop-none waits q, pop-AllEmpty waits q),
  )
