-- ===== src/Base/Maps.antt =====
-- `std::map` with a number for a key, as a list of entries.
use Prim.Native.Nat.{ℕ, ◌≤◌, ◌<◌}
use mathlib.Core.Path.{◌≡◌, refl}
use mathlib.Core.Option.{Option, none, some}
use mathlib.Core.List.{List, [], ◌∷◌}
use native.Mathlib.Omega.{arith}
use Prim.Native.Nat.{◌+◌}
use p_rpc.Base.Lists.{length}
use p_rpc.Base.Tests.{◌==◌, if◌then◌else◌, Bool-cases}
use mathlib.Core.Logic.{inl, inr}

module _ {ℓ} {V : Type ℓ} where
  unfoldable pub find : ℕ → List (ℕ × V) → Option V
  find k [] = none
  find k ((j, v) ∷ m) = if j == k then some v else find k m

  -- `insert` does not replace a value that is there.
  unfoldable pub insert : ℕ → V → List (ℕ × V) → List (ℕ × V)
  insert k v [] = (k, v) ∷ []
  insert k v ((j, w) ∷ m) = if j == k then (j, w) ∷ m else (j, w) ∷ insert k v m

  unfoldable pub erase : ℕ → List (ℕ × V) → List (ℕ × V)
  erase k [] = []
  erase k ((j, v) ∷ m) = if j == k then m else (j, v) ∷ erase k m

  -- A change of the object that a key leads to.
  unfoldable pub modify_at : ℕ → (V → V) → List (ℕ × V) → List (ℕ × V)
  modify_at k f [] = []
  modify_at k f ((j, v) ∷ m) = if j == k then (j, f v) ∷ m else (j, v) ∷ modify_at k f m

  abbrev pub or_else : Option V → V → Option V
  or_else none v = some v
  or_else (some w) v = some w

  pub find-insert :
      (k j : ℕ) (v : V) (m : List (ℕ × V))
      → find j (insert k v m) ≡ (if k == j then or_else (find k m) v else find j m)
  unfolding find insert
  find-insert k j v [] = ground arith
  find-insert k j v ((i, w) ∷ m) = ground (arith, find-insert k j v m)

  abbrev pub map_some : (V → V) → Option V → Option V
  map_some f none = none
  map_some f (some v) = some (f v)

  pub find-modify_at :
      (k j : ℕ) (f : V → V) (m : List (ℕ × V))
      → find j (modify_at k f m) ≡ (if k == j then map_some f (find j m) else find j m)
  unfolding find modify_at
  find-modify_at k j f [] = ground arith
  find-modify_at k j f ((i, w) ∷ m) = ground (arith, find-modify_at k j f m)

  -- Every key is below `n`.
  abbrev pub Below : ℕ → List (ℕ × V) → Type 0
  Below n [] = Unit
  Below n ((k, v) ∷ m) = (k < n) × Below n m

  pub find-Below : (n : ℕ) (m : List (ℕ × V)) → Below n m → (k : ℕ) → n ≤ k → find k m ≡ none
  unfolding find
  find-Below n [] b k h = refl
  find-Below n ((j, v) ∷ m) b k h = ground (arith, find-Below n m b.1 k h)

  -- No key stands twice.
  abbrev pub Unique : List (ℕ × V) → Type ℓ
  Unique [] = Unit
  Unique ((k, v) ∷ m) = (find k m ≡ none) × Unique m

  pub find-erase :
      (k j : ℕ) (m : List (ℕ × V))
      → Unique m
      → find j (erase k m) ≡ (if k == j then none else find j m)
  unfolding find erase
  find-erase k j [] u = ground arith
  find-erase k j ((i, w) ∷ m) u = ground (arith, find-erase k j m u.1, u.0)

  pub Unique-insert : (k : ℕ) (v : V) (m : List (ℕ × V)) → Unique m → Unique (insert k v m)
  unfolding find insert
  Unique-insert k v [] u = (refl, tt)
  Unique-insert k v ((i, w) ∷ m) u = elim (Bool-cases (i == k)) [
    | inl e ↦ rw e u
    | inr e ↦ rw e (ground (arith, find-insert k i v m, u.0), Unique-insert k v m u.1)
  ]

  pub Unique-erase : (k : ℕ) (m : List (ℕ × V)) → Unique m → Unique (erase k m)
  unfolding find erase
  Unique-erase k [] u = tt
  Unique-erase k ((i, w) ∷ m) u = elim (Bool-cases (i == k)) [
    | inl e ↦ rw e u.1
    | inr e ↦ rw e (ground (arith, find-erase k i m u.1, u.0), Unique-erase k m u.1)
  ]

  pub length-insert :
      (k : ℕ) (v : V) (m : List (ℕ × V)) → find k m ≡ none → length (insert k v m) ≡ length m + 1
  unfolding find insert
  length-insert k v [] h = refl
  length-insert k v ((i, w) ∷ m) h = ground (arith, length-insert k v m)

  pub length-erase :
      (k : ℕ) (v : V) (m : List (ℕ × V)) → find k m ≡ some v → length (erase k m) + 1 ≡ length m
  unfolding find erase
  length-erase k v [] h = cc
  length-erase k v ((i, w) ∷ m) h = ground (arith, length-erase k v m)
