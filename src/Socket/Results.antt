-- ===== src/Socket/Results.antt =====
-- How a computation ended.
use p_rpc.Base.{◌≡◌, ◌≢◌, ◌⊎◌, inl, inr, refl, ap}
use p_rpc.Socket.{Result, ok, throws, crash, continue}

pub ok_injective : {A : Type 0} {x y : A} → ok x ≡ ok y → x ≡ y
ok_injective e = cc

pub Result-cases : {A : Type 0} (r : Result A) → ((a : A) × (r ≡ ok a)) ⊎ (((a : A) → r ≢ ok a))
Result-cases (ok a) = inl (a, refl)
Result-cases (throws e) = inr (λ a h. cc h)
Result-cases (crash e) = inr (λ a h. cc h)

pub continue-ok :
    {S A B : Type 0} (p : Result A × S) (f : A → S → Result B × S) (a : A)
    → p.0 ≡ ok a
    → continue p f ≡ f a p.1
continue-ok (ok x, s) f a e = ap (λ y. f y s) (ok_injective e)
continue-ok (throws x, s) f a e = cc e
continue-ok (crash x, s) f a e = cc e

pub continue-not_ok :
    {S A B : Type 0} (p : Result A × S) (f : A → S → Result B × S) (b : B)
    → ((a : A) → p.0 ≢ ok a)
    → (continue p f).0 ≢ ok b
continue-not_ok (ok x, s) f b n = absurd (n x refl)
continue-not_ok (throws x, s) f b n = λ h. cc h
continue-not_ok (crash x, s) f b n = λ h. cc h
