-- ===== src/Server/Listener/Robin.antt =====
-- The round robin over the readers.
use p_rpc.Base.{
  ℕ, ◌+◌, ◌%◌, ◌≡◌, ◌≢◌, ◌⊎◌, inl, inr, refl, sym, ◌∙◌, ap, true, false, int_mod, [], Bool-cases,
  ◌==◌, ==_refl, ==_iff, suc, arith,
}
use p_rpc.BlockQueue.{BlockQueue, has_room, push_value}
use p_rpc.BlockQueue.Order.{try_push-room, try_push-full}
use p_rpc.Server.State.{update}
use p_rpc.Server.Listener.{
  Listener, add_to_reader, add_tries, next_reader, num_readers, new_listener,
}

-- The reader whose turn it is, and the other one.
abbrev pub first : Listener → ℕ
first l = (l.last_reader_index + 1) % int_mod % num_readers

abbrev pub second : Listener → ℕ
second l = (first l + 1) % int_mod % num_readers

-- The index wraps from -1: the first connection of a new listener is for the reader 0.
first-new_listener : first new_listener ≡ 0
unfolding new_listener
first-new_listener = omega arith

-- The connection `c` is at the end of the queue of reader `r`, and the other queues are as before.
pub record Placed (l : Listener) (c r : ℕ) (l' : Listener) : Type 0 where
  pub had_room : has_room (l.readers r) ≡ true
  pub there : l'.readers r ≡ push_value (l.readers r) c true
  pub elsewhere : (j : ℕ) → r ≢ j → l'.readers j ≡ l.readers j
  pub last : l'.last_reader_index ≡ r
  pub watched_kept : l'.watched ≡ l.watched

-- Both queues are as before.
pub record Refused (l l' : Listener) : Type 0 where
  pub full_first : has_room (l.readers (first l)) ≡ false
  pub full_second : has_room (l.readers (second l)) ≡ false
  pub kept : (j : ℕ) → l'.readers j ≡ l.readers j

update_same : (f : ℕ → BlockQueue ℕ) (i j : ℕ) → update f i (f i) j ≡ f j
update_same f i j = elim (Bool-cases (i == j)) [
  | inl e ↦ rw e (ap f ((==_iff i j).0 e))
  | inr e ↦ rw e refl
]

update_other : (f : ℕ → BlockQueue ℕ) (i j : ℕ) (q : BlockQueue ℕ) → i ≢ j → update f i q j ≡ f j
update_other f i j q h = elim (Bool-cases (i == j)) [
  | inl e ↦ absurd (h ((==_iff i j).0 e))
  | inr e ↦ rw e refl
]

-- The queues after a try that found the reader's queue full.
abbrev retried : Listener → Listener
retried l = record l {
  readers = update l.readers l.last_reader_index (l.readers l.last_reader_index);
}

abbrev placed : ℕ → Listener → Listener
placed c l = record l {
  readers =
      update l.readers l.last_reader_index (push_value (l.readers l.last_reader_index) c true);
}

add_tries-room :
    (n c : ℕ) (l : Listener)
    → has_room (l.readers l.last_reader_index) ≡ true
    → add_tries (suc n) (λ _. []) c l ≡ (true, placed c l)
unfolding add_tries
add_tries-room n c l h = rw (try_push-room (l.readers l.last_reader_index) c true h) refl

add_tries-full :
    (n c : ℕ) (l : Listener)
    → has_room (l.readers l.last_reader_index) ≡ false
    → add_tries (suc n) (λ _. []) c l ≡ add_tries n (λ _. []) c (next_reader (retried l))
unfolding add_tries
add_tries-full n c l h = rw (try_push-full (l.readers l.last_reader_index) c true h) refl

add_tries-zero : (c : ℕ) (l : Listener) → add_tries 0 (λ _. []) c l ≡ (false, l)
unfolding add_tries
add_tries-zero c l = refl

placed-Placed :
    (c : ℕ) (l m : Listener)
    → has_room (m.readers m.last_reader_index) ≡ true
    → ((j : ℕ) → m.readers j ≡ l.readers j)
    → m.watched ≡ l.watched
    → Placed l c m.last_reader_index (placed c m)
placed-Placed c l m h same w = record {
  had_room = rw (← same m.last_reader_index) h;
  there =
      rw (==_refl m.last_reader_index) (ap (λ q. push_value q c true) (same m.last_reader_index));
  elsewhere = λ j k. update_other m.readers m.last_reader_index j _ k ∙ same j;
  last = refl;
  watched_kept = w;
}

-- Let no other thread be at work on the queues of the readers. `addToReader` puts the connection
-- at the end of the queue of the reader whose turn it is, or, if that is full, of the next one,
-- notes this reader as the last one used, and leaves the other queue as it is; or, exactly if both
-- are full, it fails and leaves both as they are.
pub add_to_reader_cases :
    (c : ℕ) (l : Listener)
    → ((r : ℕ) × (l' : Listener) × (add_to_reader (λ _. []) c l ≡ (true, l'))
        × ((r ≡ first l) ⊎ ((has_room (l.readers (first l)) ≡ false) × (r ≡ second l)))
        × Placed l c r l')
      ⊎ ((l' : Listener) × (add_to_reader (λ _. []) c l ≡ (false, l')) × Refused l l')
unfolding add_to_reader
add_to_reader_cases c l =
    let one = next_reader l in
    let two = next_reader (retried one) in
    let same : (j : ℕ) → two.readers j ≡ l.readers j = update_same l.readers (first l) in
    let three = next_reader (retried two) in
    elim (Bool-cases (has_room (l.readers (first l)))) [
      | inl has ↦ inl (
        first l,
        placed c one,
        add_tries-room 1 c one has,
        inl refl,
        placed-Placed c l one has (λ j. refl) refl,
      )
      | inr full ↦ elim (Bool-cases (has_room (two.readers (second l)))) [
        | inl has ↦ inl (
          second l,
          placed c two,
          add_tries-full 1 c one full ∙ add_tries-room 0 c two has,
          inr (full, refl),
          placed-Placed c l two has same refl,
        )
        | inr full_too ↦ inr (
          three,
          add_tries-full 1 c one full ∙ add_tries-full 0 c two full_too ∙ add_tries-zero c three,
          record {
            full_first = full;
            full_second = ap has_room (sym (same (second l))) ∙ full_too;
            kept = λ j. update_same two.readers (second l) j ∙ same j;
          },
        )
      ]
    ]
