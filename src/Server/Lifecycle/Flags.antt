-- ===== src/Server/Lifecycle/Flags.antt =====
-- The stop flags of the threads, and steps that set them.
use p_rpc.Base.{
  Bool, ◌≡◌, ℕ, List, ◌≤◌, All, true, ap, ◌<◌, sym, ◌+◌, arith, refl, suc, zero, ◌∷◌, Bool-cases,
  inl, inr, [], ◌==◌, false, ==_iff,
}
use p_rpc.Socket.{Asio, Eff, ok, Result, ◌>>◌, continue, throws, crash}
use p_rpc.Server.Lifecycle.{Threads, each_from, poll, finished}
use mathlib.Core.Path.{subst}

module _ ⦃net : Asio⦄ where
  -- The stop flags that are set stay set.
  pub record Later (s s' : Threads) : Type 0 where
    pub listener : s.listener.should_stop ≡ true → s'.listener.should_stop ≡ true
    pub readers : (i : ℕ) → s.reader_stops i ≡ true → s'.reader_stops i ≡ true
    pub handlers : (i : ℕ) → s.handler_stops i ≡ true → s'.handler_stops i ≡ true
    pub responder : s.responder_stops ≡ true → s'.responder_stops ≡ true

  pub Later-refl : (s : Threads) → Later s s
  Later-refl s = record {
    listener = λ h. h;
    readers = λ i h. h;
    handlers = λ i h. h;
    responder = λ h. h;
  }

  pub Later-trans : (s t u : Threads) → Later s t → Later t u → Later s u
  Later-trans s t u h k = record {
    listener = λ x. k.listener (h.listener x);
    readers = λ i x. k.readers i (h.readers i x);
    handlers = λ i x. k.handlers i (h.handlers i x);
    responder = λ x. k.responder (h.responder x);
  }

  -- The other threads do not take a stop back.
  abbrev pub KeepStops : List (Threads → Threads) → Type 0
  KeepStops fs = All (λ f. (s : Threads) → Later s (f s)) fs

  pub poll-Later :
      (empty : Threads → Bool) (fs : List (Threads → Threads)) (s : Threads)
      → KeepStops fs
      → Later s (poll empty fs s).1
  unfolding poll
  poll-Later empty [] s h = Later-refl s
  poll-Later empty (f ∷ fs) s h = elim (Bool-cases (empty s)) [
    | inl e ↦ rw e (Later-refl s)
    | inr e ↦ rw e (Later-trans s (f s) _ (h.0 s) (poll-Later empty fs (f s) h.1))
  ]

  -- A step that ends well only goes on, and sets the flag `P`.
  abbrev pub Sets : Eff Threads (Unit {0}) → (Threads → Type 0) → Type 0
  Sets m P = (s s' : Threads) → m s ≡ (ok tt, s') → Later s s' × P s'

  then-ends :
      (k : Eff Threads (Unit {0})) (p : Result (Unit {0}) × Threads) (s' : Threads)
      → continue p (λ u. k) ≡ (ok tt, s')
      → (p.0 ≡ ok tt) × (k p.1 ≡ (ok tt, s'))
  then-ends k (ok u, s) s' h = (refl, h)
  then-ends k (throws x, s) s' h = cc h
  then-ends k (crash x, s) s' h = cc h

  pub Sets-then :
      (m k : Eff Threads (Unit {0})) (P Q : Threads → Type 0)
      → Sets m P
      → Sets k Q
      → ((s s' : Threads) → Later s s' → P s → P s')
      → Sets (m >> k) (λ s. P s × Q s)
  Sets-then m k P Q hm hk keep s s' e =
      let (first, second) = then-ends k (m s) s' e in
      let (l, p) = hm s (m s).1 (ap (λ (r : Result (Unit {0})). (r, (m s).1)) first) in
      let (l', q) = hk (m s).1 s' second in
      (Later-trans s (m s).1 s' l l', (keep (m s).1 s' l' p, q))

  abbrev pub Below : (Threads → ℕ → Bool) → ℕ → ℕ → Threads → Type 0
  Below flag i n s = (j : ℕ) → i ≤ j → j < i + n → flag s j ≡ true

  pub Sets-each :
      (body : ℕ → Eff Threads (Unit {0})) (flag : Threads → ℕ → Bool)
      → ((i : ℕ) → Sets (body i) (λ s. flag s i ≡ true))
      → ((s s' : Threads) (i : ℕ) → Later s s' → flag s i ≡ true → flag s' i ≡ true)
      → (n i : ℕ) → Sets (each_from body n i) (Below flag i n)
  unfolding each_from
  Sets-each body flag h keep zero i s s' e = (
    rw (ap (λ (p : Result (Unit {0}) × Threads). p.1) (sym e)) (Later-refl s),
    λ j a b. absurd (omega arith),
  )
  Sets-each body flag h keep (suc n) i s s' e =
      let (l, both) =
        Sets-then (body i) (each_from body n (i + 1)) (λ x. flag x i ≡ true) (Below flag (i + 1) n)
          (h i) (Sets-each body flag h keep n (i + 1)) (λ x y. keep x y i) s s' e in
      (
        l,
        λ j a b. elim (Bool-cases (i == j)) [
          | inl same ↦ subst (λ x. flag s' x ≡ true) ((==_iff i j).0 same) both.0
          | inr apart ↦ both.1 j (ground arith) (omega arith)
        ],
      )

  finished-ends :
      (set_stop : Threads → Threads) (p : Bool × Threads) (s' : Threads)
      → finished set_stop p ≡ (ok tt, s')
      → s' ≡ set_stop p.1
  finished-ends set_stop (true, s) s' h = sym (ap (λ (p : Result (Unit {0}) × Threads). p.1) h)
  finished-ends set_stop (false, s) s' h = cc h

  pub Sets-finished :
      (set_stop : Threads → Threads) (empty : Threads → Bool) (fs : List (Threads → Threads))
      (P : Threads → Type 0)
      → KeepStops fs
      → ((s : Threads) → Later s (set_stop s))
      → ((s : Threads) → P (set_stop s))
      → Sets (λ s. finished set_stop (poll empty fs s)) P
  Sets-finished set_stop empty fs P keeps goes_on sets s s' e =
      let end = finished-ends set_stop (poll empty fs s) s' e in
      (
        subst (Later s) (sym end) (Later-trans s _ _ (poll-Later empty fs s keeps) (goes_on _)),
        subst P (sym end) (sets _),
      )
