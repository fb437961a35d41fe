-- ===== src/MethodWritable/Lasting.antt =====
-- Computations that do not run out of fuel while a measure of the state is below the fuel, and that
-- do not raise the measure.
use mathlib.Core.Path.{subst}
use p_rpc.Base.{suc, ap, ℕ, suc, ◌≤◌, ◌<◌, ◌≡◌, refl, arith, if◌then◌else◌, true, false, Bool, ◌≢◌}
use p_rpc.Socket.{
  Error, fail, Eff, Result, ok, throws, crash, null_pointer, out_of_range, undefined_behaviour,
  aborted, out_of_fuel, pure, ◌>>=◌, continue, raise, handle,
}

-- The computation did not run out of fuel.
abbrev pub Fueled : {A : Type 0} → Result A → Type 0
Fueled (ok a) = Unit
Fueled (throws e) = Unit
Fueled (crash null_pointer) = Unit
Fueled (crash out_of_range) = Unit
Fueled (crash undefined_behaviour) = Unit
Fueled (crash aborted) = Unit
Fueled (crash out_of_fuel) = ⊥

-- From a state of a measure below `f` the fuel suffices, and the measure does not grow.
pub record Lasts {S A : Type 0} (μ : S → ℕ) (f : ℕ) (m : Eff S A) : Type 0 where
  pub run : (s : S) → μ s < f → Fueled (m s).0 × (μ (m s).1 ≤ μ s)

-- Where it returns, the measure has fallen.
pub record Takes {S A : Type 0} (μ : S → ℕ) (m : Eff S A) : Type 0 where
  pub run : (s : S) (a : A) (s' : S) → m s ≡ (ok a, s') → μ s' < μ s

pub continue-Fueled :
    {S A B : Type 0} (μ : S → ℕ) (r : Result A × S) (k : A → Eff S B) (n : ℕ)
    → Fueled r.0
    → μ r.1 ≤ n
    → ((a : A) → r.0 ≡ ok a → Fueled (k a r.1).0 × (μ (k a r.1).1 ≤ μ r.1))
    → Fueled (continue r k).0 × (μ (continue r k).1 ≤ n)
continue-Fueled μ (ok a, s) k n h l next = let (g, m) = next a refl in (g, omega arith)
continue-Fueled μ (throws e, s) k n h l next = (tt, l)
continue-Fueled μ (crash null_pointer, s) k n h l next = (tt, l)
continue-Fueled μ (crash out_of_range, s) k n h l next = (tt, l)
continue-Fueled μ (crash undefined_behaviour, s) k n h l next = (tt, l)
continue-Fueled μ (crash aborted, s) k n h l next = (tt, l)
continue-Fueled μ (crash out_of_fuel, s) k n h l next = absurd h

module _ {S : Type 0} {μ : S → ℕ} where
  pub Lasts-pure : {A : Type 0} {f : ℕ} (a : A) → Lasts μ f (pure a)
  Lasts-pure a = record { run = λ s h. (tt, omega arith) }

  pub Lasts-bind :
      {A B : Type 0} {f : ℕ} (m : Eff S A) (k : A → Eff S B)
      → Lasts μ f m
      → ((a : A) → Lasts μ f (k a))
      → Lasts μ f (m >>= k)
  Lasts-bind m k p q = record {
    run = λ s h.
        let (g, l) = p.run s h in
        continue-Fueled μ (m s) k (μ s) g l (λ a e. (q a).run (m s).1 (omega arith));
  }

  -- After a step that takes something, less fuel will do.
  pub Lasts-bind-Takes :
      {A B : Type 0} {f : ℕ} (m : Eff S A) (k : A → Eff S B)
      → Lasts μ (suc f) m
      → Takes μ m
      → ((a : A) → Lasts μ f (k a))
      → Lasts μ (suc f) (m >>= k)
  Lasts-bind-Takes m k p t q = record {
    run = λ s h.
        let (g, l) = p.run s h in
        continue-Fueled μ (m s) k (μ s) g l
          (λ a e. (q a).run (m s).1 (omega (arith, t.run s a (m s).1 (λ i. (e i, (m s).1)))));
  }

  pub Lasts-weaken : {A : Type 0} {f : ℕ} (m : Eff S A) → Lasts μ (suc f) m → Lasts μ f m
  Lasts-weaken m p = record { run = λ s h. p.run s (omega arith) }

  pub Lasts-if :
      {A : Type 0} {f : ℕ} (b : Bool) (m k : Eff S A)
      → Lasts μ f m
      → Lasts μ f k
      → Lasts μ f (if b then m else k)
  Lasts-if true m k p q = p
  Lasts-if false m k p q = q

  pub Lasts-raise : {A : Type 0} {f : ℕ} (e : Error) → Lasts μ f (raise {A = A} e)
  Lasts-raise e = record { run = λ s h. (tt, omega arith) }

  pub Lasts-undefined : {A : Type 0} {f : ℕ} → Lasts μ f (fail {A = A} undefined_behaviour)
  Lasts-undefined = record { run = λ s h. (tt, omega arith) }

pub handle-Fueled :
    {S A : Type 0} (μ : S → ℕ) (r : Result A × S) (a : A)
    → Fueled r.0
    → Fueled (handle r (pure a)).0 × (μ (handle r (pure a)).1 ≤ μ r.1)
handle-Fueled μ (ok a, s) b g = (tt, omega arith)
handle-Fueled μ (throws e, s) b g = (tt, omega arith)
handle-Fueled μ (crash null_pointer, s) b g = (tt, omega arith)
handle-Fueled μ (crash out_of_range, s) b g = (tt, omega arith)
handle-Fueled μ (crash undefined_behaviour, s) b g = (tt, omega arith)
handle-Fueled μ (crash aborted, s) b g = (tt, omega arith)
handle-Fueled μ (crash out_of_fuel, s) b g = absurd g

pub not-out_of_fuel : {A : Type 0} (r : Result A) → Fueled r → r ≢ crash out_of_fuel
not-out_of_fuel {A} r g e = subst (Fueled {A = A}) e g

pub Takes-continue :
    {S A B : Type 0} (μ : S → ℕ) (r : Result A × S) (k : A → Eff S B) (n : ℕ)
    → ((a : A) → r.0 ≡ ok a → μ r.1 < n)
    → ((a : A) → μ (k a r.1).1 ≤ μ r.1)
    → (b : B) (s' : S) → continue r k ≡ (ok b, s')
    → μ s' < n
Takes-continue {S} {B = B} μ (ok a, s) k n h l b s' e =
    omega (arith, h a refl, l a, ap (λ (q : Result B × S). μ q.1) e)
Takes-continue μ (throws x, s) k n h l b s' e = cc
Takes-continue μ (crash x, s) k n h l b s' e = cc
