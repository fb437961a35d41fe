-- ===== src/BlockQueue/Order.antt =====
-- The order of the entries, over any interleaving of the steps of the threads.
use p_rpc.Base.{
  ◌≡◌, refl, List, [], ◌∷◌, ◌++◌, Bool, true, false, Option, none, some, arith, if◌then◌else◌,
  append_assoc, append-nil, Bool-cases, inl, inr, ◌∙◌, length, ◌+◌, ◌==◌,
}
use p_rpc.BlockQueue.{BlockQueue, wait_for, has_room, push_value, try_push, pop_value, try_pop}

-- One step of some thread: it tries to push at the back, or to pop, and does not wait.
pub data Op {ℓ} (A : Type ℓ) : Type ℓ where
  pushes : A → Op A
  pops : Op A

-- The values that went in and those that came out, each in the order of time.
pub record History {ℓ} (A : Type ℓ) : Type ℓ where
  pub accepted : List A
  pub popped : List A
  pub left : BlockQueue A

module _ {ℓ} {A : Type ℓ} where
  abbrev pub note_push : A → Bool → List A → List A
  note_push val pushed vals = if pushed then val ∷ vals else vals

  abbrev pub note_pop : Option A → List A → List A
  note_pop none vals = vals
  note_pop (some val) vals = val ∷ vals

  pub run : List (Op A) → BlockQueue A → History A
  run [] q = record { accepted = []; popped = []; left = q }
  run (pushes val ∷ ops) q =
      let (q', pushed) = try_push [] q val true in
      let h = run ops q' in
      record { accepted = note_push val pushed h.accepted; popped = h.popped; left = h.left }
  run (pops ∷ ops) q =
      let (front, q') = try_pop [] q in
      let h = run ops q' in
      record { accepted = h.accepted; popped = note_pop front h.popped; left = h.left }

  pop_fifo :
      (ops : List (Op A)) (q : BlockQueue A) (entries : List A)
      → q.queue ≡ entries
      → (let q' = (try_pop [] q).1 in
          (run ops q').popped ++ (run ops q').left.queue ≡ q'.queue ++ (run ops q').accepted)
      → (run (pops ∷ ops) q).popped ++ (run (pops ∷ ops) q).left.queue
        ≡ q.queue ++ (run (pops ∷ ops) q).accepted
  unfolding run try_pop wait_for pop_value
  pop_fifo ops q [] e ih = ground (arith, ih)
  pop_fifo ops q (x ∷ xs) e ih = ground (arith, ih)

  -- First in, first out: in whatever order threads try to push at the back and to pop, the values
  -- popped and those still queued are, in order, the ones queued before and then the ones
  -- accepted.
  pub run_fifo :
      (ops : List (Op A)) (q : BlockQueue A)
      → (run ops q).popped ++ (run ops q).left.queue ≡ q.queue ++ (run ops q).accepted
  unfolding run try_push try_pop wait_for push_value pop_value
  run_fifo [] q = rw append-nil
  run_fifo (pushes val ∷ ops) q = elim (Bool-cases (has_room q)) [
    | inl e ↦ rw e (
        run_fifo ops (push_value q val true)
        ∙ append_assoc q.queue (val ∷ []) (run ops (push_value q val true)).accepted)
    | inr e ↦ rw e (run_fifo ops q)
  ]
  run_fifo (pops ∷ ops) q = pop_fifo ops q q.queue refl (run_fifo ops (try_pop [] q).1)

  -- If the queue has room and no other thread is at work on it, a value pushed at the front is the
  -- next one to be popped, and the entries are then as they were.
  pub try_pop-push_front :
      (q : BlockQueue A) (val : A)
      → has_room q ≡ true
      → ((try_pop [] (try_push [] q val false).0).0 ≡ some val)
        × ((try_pop [] (try_push [] q val false).0).1.queue ≡ q.queue)
  unfolding try_push try_pop wait_for push_value pop_value
  try_pop-push_front q val h = ground arith

  -- With nobody else at work, a pop takes the front.
  pub try_pop-cons :
      (q : BlockQueue A) (x : A) (xs : List A)
      → q.queue ≡ x ∷ xs
      → (q' : BlockQueue A) × (try_pop [] q ≡ (some x, q'))
        × (q'.queue ≡ xs)
        × (q'.max_size ≡ q.max_size)
  unfolding try_pop wait_for pop_value
  try_pop-cons q x xs h = (
    record q {
      queue = xs;
      cond_is_full = if length xs + 1 == q.max_size then q.cond_is_full + 1 else q.cond_is_full;
    },
    ground arith,
    refl,
    refl,
  )

  pub try_pop-nil : (q : BlockQueue A) → q.queue ≡ [] → try_pop [] q ≡ (none, q)
  unfolding try_pop wait_for
  try_pop-nil q h = ground arith

  -- And a push that finds room adds its value.
  pub try_push-room :
      (q : BlockQueue A) (val : A) (back : Bool)
      → has_room q ≡ true
      → try_push [] q val back ≡ (push_value q val back, true)
  unfolding try_push wait_for
  try_push-room q val back h = ground arith

  pub try_push-full :
      (q : BlockQueue A) (val : A) (back : Bool)
      → has_room q ≡ false
      → try_push [] q val back ≡ (q, false)
  unfolding try_push wait_for
  try_push-full q val back h = ground arith
