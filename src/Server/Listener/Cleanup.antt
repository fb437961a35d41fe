-- ===== src/Server/Listener/Cleanup.antt =====
-- `cleanup_connections` of src/Listener.cpp, which nothing calls: a random number of connections is
-- looked at, in the order of the map, and those without contact for long are closed.
use p_rpc.Base.{
  [], ◌∷◌, zero, suc, ℕ, if◌then◌else◌, List, ◌≡◌, suc, is_negative, int_mod, ◌%◌, ◌==◌, ◌-◌, refl,
  ◌||◌, ltb, inl, inr, arith, ◌≤◌, true, ◌⊎◌, ◌<◌, length, ◌+◌, false, All, take, lt→ltb, le→ltb,
}
use native.Mathlib.Decide.{dec_lt, dec_le, ℕ_discrete}
use p_rpc.Socket.{◌>>=◌, Asio, Eff, Result, pure, ok, fail, throws, undefined_behaviour, crash}
use p_rpc.Server.Connection.{time_out, max_idle_duration}
use p_rpc.Server.State.{State}
use p_rpc.Server.Listener.{close_connection}

abbrev pub conn_cleanup_interval : ℕ
conn_cleanup_interval = 400

-- The absolute value of an `int`: `rand() % n` is the same for both signs.
abbrev magnitude : ℕ → ℕ
magnitude n = if is_negative n then int_mod - n else n

-- The iterator of the loop: at the entries from its own on, or at one that was erased.
pub data Iterator : Type 0 where
  at_entries : List (ℕ × ℕ) → Iterator
  erased : Iterator

module _ ⦃net : Asio⦄ where
  -- What the loop does with an entry that it has read.
  abbrev pub clean_entry : ℕ → ℕ → ℕ → List (ℕ × ℕ) → State → Iterator × State
  clean_entry now ep c entries st =
      if time_out now (st.objects c)
      then (erased, close_connection c ep st)
      else (at_entries ((ep, c) ∷ entries), st)

  -- The body of the loop before `iter++`; the iterator at the end, or at an erased entry, must not be
  -- read.
  abbrev pub clean_one : ℕ → Iterator → Eff State Iterator
  clean_one now erased = fail undefined_behaviour
  clean_one now (at_entries []) = fail undefined_behaviour
  clean_one now (at_entries ((ep, c) ∷ entries)) =
      λ st. let (iter, st') = clean_entry now ep c entries st in (ok iter, st')

  -- `iter++`, which is undefined at the end, and when the entry is gone.
  abbrev pub advance : Iterator → Eff State Iterator
  advance erased = fail undefined_behaviour
  advance (at_entries []) = fail undefined_behaviour
  advance (at_entries (entry ∷ entries)) = pure (at_entries entries)

  -- The loop, with the rounds left.
  unfoldable pub clean_entries : ℕ → ℕ → Iterator → Eff State (Unit {0})
  clean_entries now zero iter = pure tt
  clean_entries now (suc n) iter = clean_one now iter >>= advance >>= clean_entries now n

  abbrev cleaned : ℕ → Result (Unit {0}) × State → Result (Unit {0}) × (ℕ × State)
  cleaned now (ok u, st) = (ok tt, (now, st))
  cleaned now (throws e, st) = (throws e, (now, st))
  cleaned now (crash e, st) = (crash e, (now, st))

  -- `cleanup_connections` at the time `now`, with what `rand` gives; `last` is `last_cleanup_time`. A
  -- clock that was set back counts as no time.
  unfoldable pub cleanup_connections : ℕ → ℕ → Eff (ℕ × State) (Unit {0})
  cleanup_connections now random (last, st) =
      let work = cleaned now (
        clean_entries now (suc (random % magnitude st.num_connections)) (at_entries st.connections)
          st) in
      if st.num_connections == 0 || ltb (now - last) conn_cleanup_interval
      then (ok tt, (last, st))
      else work

  -- The connection had contact in the last `max_idle_duration`.
  abbrev pub IsYoung : ℕ → State → ℕ × ℕ → Type 0
  IsYoung now st (ep, c) = now ≤ (st.objects c).last_contact + max_idle_duration

  young-time_out :
      (now c : ℕ) (st : State)
      → now ≤ (st.objects c).last_contact + max_idle_duration
      → time_out now (st.objects c) ≡ false
  unfolding time_out
  young-time_out now c st h = le→ltb _ _ (omega arith)

  old-time_out :
      (now c : ℕ) (st : State)
      → ¬ (now ≤ (st.objects c).last_contact + max_idle_duration)
      → time_out now (st.objects c) ≡ true
  unfolding time_out
  old-time_out now c st h = lt→ltb _ _ (omega arith)

  -- The loop can go on for `n` entries: they are there, and their connections are young.
  abbrev pub AllYoung : ℕ → State → ℕ → List (ℕ × ℕ) → Type 0
  AllYoung now st n entries = (n ≤ length entries) × All (IsYoung now st) (take n entries)

  clean_entries-young :
      (now n : ℕ) (entries : List (ℕ × ℕ)) (st : State)
      → AllYoung now st n entries
      → clean_entries now n (at_entries entries) st ≡ (ok tt, st)
  unfolding clean_entries
  clean_entries-young now zero entries st h = refl
  clean_entries-young now (suc n) [] st h = absurd (omega (arith, h.0))
  clean_entries-young now (suc n) ((ep, c) ∷ entries) st (long, (young, others)) =
      rw (young-time_out now c st young)
        (clean_entries-young now n entries st (omega (arith, long), others))

  clean_entries-fails :
      (now n : ℕ) (entries : List (ℕ × ℕ)) (st : State)
      → ¬ AllYoung now st n entries
      → (clean_entries now n (at_entries entries) st).0 ≡ crash undefined_behaviour
  unfolding clean_entries
  clean_entries-fails now zero entries st h = absurd (h (omega arith, tt))
  clean_entries-fails now (suc n) [] st h = refl
  clean_entries-fails now (suc n) ((ep, c) ∷ entries) st h =
      elim (dec_le now ((st.objects c).last_contact + max_idle_duration)) [
        | yes young ↦
            rw (young-time_out now c st young)
              (clean_entries-fails now n entries st (λ k. h (omega (arith, k.0), (young, k.1))))
        | no old ↦ rw (old-time_out now c st old) refl
      ]

  -- There is nothing to do, or the last time is not long ago.
  abbrev pub IsEarly : ℕ → ℕ → State → Type 0
  IsEarly now last st = (st.num_connections ≡ 0) ⊎ (now - last < conn_cleanup_interval)

  -- How many connections are looked at.
  abbrev pub looked_at : ℕ → State → ℕ
  looked_at random st = suc (random % magnitude st.num_connections)

  IsEarly-cases :
      (now last : ℕ) (st : State)
      → (IsEarly now last st
          × ((st.num_connections == 0 || ltb (now - last) conn_cleanup_interval) ≡ true))
        ⊎ ((¬ IsEarly now last st)
            × ((st.num_connections == 0 || ltb (now - last) conn_cleanup_interval) ≡ false))
  IsEarly-cases now last st = elim (ℕ_discrete st.num_connections 0) [
    | yes none_there ↦ inl (inl none_there, rw none_there refl)
    | no some_there ↦ elim (dec_lt (now - last) conn_cleanup_interval) [
      | yes recent ↦ inl (inr recent, ground arith)
      | no long_ago ↦ inr (λ h. elim h [ inl x ↦ some_there x | inr x ↦ long_ago x ], ground arith)
    ]
  ]

  -- The connections that are looked at are there and young, or none is looked at.
  abbrev pub CanEnd : ℕ → ℕ → ℕ → State → Type 0
  CanEnd now random last st =
      IsEarly now last st ⊎ AllYoung now st (looked_at random st) st.connections

  cleaned-crash :
      (now : ℕ) (r : Result (Unit {0}) × State)
      → r.0 ≡ crash undefined_behaviour
      → (cleaned now r).0 ≡ crash undefined_behaviour
  cleaned-crash now (ok u, s) h = absurd (let same = h in cc same)
  cleaned-crash now (throws e, s) h = absurd (let same = h in cc same)
  cleaned-crash now (crash e, s) h = h

  -- `cleanup_connections` ends exactly if there is no connection, or the last time is less than 400 ms
  -- ago, or as many connections as the random number says are in the map from its beginning on and
  -- each of them had contact in the last `max_idle_duration`; then no connection is closed, and
  -- nothing of the server's state changes. Else it runs into undefined behaviour, as it does whenever
  -- a connection that it looks at has timed out: it goes on with an iterator whose entry is gone.
  pub cleanup_connections-ends_iff :
      (now random last : ℕ) (st : State)
      → (CanEnd now random last st
          → ((cleanup_connections now random (last, st)).0 ≡ ok tt)
            × ((cleanup_connections now random (last, st)).1.1 ≡ st))
        × (¬ CanEnd now random last st
            → (cleanup_connections now random (last, st)).0 ≡ crash undefined_behaviour)
  unfolding cleanup_connections
  cleanup_connections-ends_iff now random last st = elim (IsEarly-cases now last st) [
    | inl (early, test) ↦ ((λ h. rw test (refl, refl)), (λ h. absurd (h (inl early))))
    | inr (late, test) ↦ (
      (λ h. elim h [
        | inl early ↦ absurd (late early)
        | inr young ↦
            rw (test, clean_entries-young now (looked_at random st) st.connections st young)
              (refl, refl)
      ]),
      (λ h. rw test (
          cleaned-crash now _
            (clean_entries-fails now (looked_at random st) st.connections st (λ k. h (inr k))))),
    )
  ]
