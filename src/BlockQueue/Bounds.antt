-- ===== src/BlockQueue/Bounds.antt =====
-- The bound of the queue.
use p_rpc.Base.{
  ltb→lt, ◌≡◌, arith, true, false, length-append, sym, ◌∙◌, ◌≤◌, List, [], ◌∷◌, Bool, length,
  Bool-cases, All, inl, inr, arith, sym, ◌≡◌, true, length-append, ltb→lt,
}
use p_rpc.BlockQueue.Waiting.{wait_for-pred}
use p_rpc.BlockQueue.{
  BlockQueue, wait_for, try_push, pop_value, push_value, try_pop, has_room, has_work,
}

module _ {ℓ} {A : Type ℓ} where
  abbrev pub IsBounded : BlockQueue A → Type 0
  IsBounded q = length q.queue ≤ q.max_size

  -- What the other threads do keeps the bound.
  abbrev pub KeepsBound : (BlockQueue A → BlockQueue A) → Type ℓ
  KeepsBound other = (q : BlockQueue A) → IsBounded q → IsBounded (other q)

  pub wait_for-IsBounded :
      (pred : BlockQueue A → Bool) (others : List (BlockQueue A → BlockQueue A)) (q : BlockQueue A)
      → All KeepsBound others
      → IsBounded q
      → IsBounded (wait_for pred others q).0
  unfolding wait_for
  wait_for-IsBounded pred [] q hs h = h
  wait_for-IsBounded pred (other ∷ others) q hs h = elim (Bool-cases (pred q)) [
    | inl e ↦ rw e h
    | inr e ↦ rw e (wait_for-IsBounded pred others (other q) hs.1 (hs.0 q h))
  ]

  push_value-IsBounded :
      (q : BlockQueue A) (val : A) (back : Bool)
      → has_room q ≡ true
      → IsBounded (push_value q val back)
  unfolding push_value
  push_value-IsBounded q val true h = omega (arith, length-append q.queue (val ∷ []), ltb→lt _ _ h)
  push_value-IsBounded q val false h = omega (arith, ltb→lt _ _ h)

  pop_value-IsBounded : (q : BlockQueue A) → IsBounded q → IsBounded (pop_value q).1
  unfolding pop_value
  pop_value-IsBounded q h = ground arith

  -- A thread that pushes at either end or pops, with other threads at work on the queue while it
  -- waits, leaves at most `max_size` entries if there were no more before and the others keep this.
  pub ops-IsBounded :
      (others : List (BlockQueue A → BlockQueue A)) (q : BlockQueue A) (val : A) (back : Bool)
      → All KeepsBound others
      → IsBounded q
      → IsBounded (try_push others q val back).0 × IsBounded (try_pop others q).1
  unfolding try_push try_pop
  ops-IsBounded others q val back hs h = (pushed, popped)
    where
      pushed : IsBounded (try_push others q val back).0
      pushed = elim (Bool-cases (wait_for has_room others q).1) [
        | inl e ↦ rw e (
            push_value-IsBounded (wait_for has_room others q).0 val back
              (sym (wait_for-pred has_room others q) ∙ e))
        | inr e ↦ rw e (wait_for-IsBounded has_room others q hs h)
      ]

      popped : IsBounded (try_pop others q).1
      popped = elim (Bool-cases (wait_for has_work others q).1) [
        | inl e ↦ rw e (pop_value-IsBounded _ (wait_for-IsBounded has_work others q hs h))
        | inr e ↦ rw e (wait_for-IsBounded has_work others q hs h)
      ]
