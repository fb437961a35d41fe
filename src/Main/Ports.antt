-- ===== src/Main/Ports.antt =====
-- Numbers on the command line.
use p_rpc.Base.{
  ℕ, List, ◌<◌, suc, ◌/◌, ◌≡◌, ◌%◌, arith, Bool-cases, ◌+◌, ◌∷◌, ltb, if◌then◌else◌, inl, inr, zero,
  ◌∙◌, ◌^◌, refl, ◌*◌, ap, true, [], ◌-◌, false, int_mod, ◌==◌,
}
use p_rpc.Main.{is_digit, skip_spaces, digits_value, atoi, is_space, min}

-- The decimal digits of a number, before `rest`; the fuel bounds how many.
unfoldable pub decimal : ℕ → ℕ → List ℕ → List ℕ
decimal zero n rest = rest
decimal (suc fuel) n rest =
    let more = decimal fuel (n / 10) ((n % 10 + b'0') ∷ rest) in
    if ltb n 10 then (n + b'0') ∷ rest else more

one_digit :
    (value d : ℕ) (rest : List ℕ)
    → d < 10
    → digits_value value ((d + b'0') ∷ rest) ≡ digits_value (value * 10 + d) rest
unfolding digits_value
one_digit value d rest h =
    let digit : is_digit (d + b'0') ≡ true = ground arith in
    let back : d + b'0' - b'0' ≡ d = omega arith in rw digit (rw back refl)

pub digits_value-decimal :
    (fuel n : ℕ) (rest : List ℕ)
    → n < fuel
    → digits_value 0 (decimal fuel n rest) ≡ digits_value n rest
unfolding decimal
digits_value-decimal zero n rest h = absurd (omega arith)
digits_value-decimal (suc fuel) n rest h = elim (Bool-cases (ltb n 10)) [
  | inl last ↦
      let same : 0 * 10 + n ≡ n = omega arith in
      rw last (one_digit 0 n rest (ground arith) ∙ ap (λ x. digits_value x rest) same)
  | inr more ↦
      let same : n / 10 * 10 + n % 10 ≡ n = omega arith in
      rw more (
        digits_value-decimal fuel (n / 10) _ (ground arith)
        ∙ one_digit (n / 10) (n % 10) rest (omega arith)
        ∙ ap (λ x. digits_value x rest) same)
]

-- A text that begins with a digit.
abbrev Begins : List ℕ → Type 0
Begins bs = (d : ℕ) × (tail : List ℕ) × (bs ≡ (d + b'0') ∷ tail) × (d < 10)

decimal-Begins : (fuel n : ℕ) (rest : List ℕ) → n < fuel → Begins (decimal fuel n rest)
unfolding decimal
decimal-Begins zero n rest h = absurd (omega arith)
decimal-Begins (suc fuel) n rest h = elim (Bool-cases (ltb n 10)) [
  | inl last ↦ rw last (n, rest, refl, ground arith)
  | inr more ↦ rw more (decimal-Begins fuel (n / 10) _ (ground arith))
]

cut : (value : ℕ) → value < 2 ^ 31 → min value (2 ^ 63 - 1) % int_mod ≡ value
cut value h = ground arith

atoi-Begins : (bs : List ℕ) → Begins bs → digits_value 0 bs < 2 ^ 31 → atoi bs ≡ digits_value 0 bs
unfolding atoi skip_spaces
atoi-Begins bs (d, tail, e, h) small =
    let word : is_space (d + b'0') ≡ false = ground arith in
    let plain : ((d + b'0') == b'-') ≡ false = ground arith in
    let no_plus : ((d + b'0') == b'+') ≡ false = ground arith in
    rw e (rw word (rw plain (rw no_plus (cut _ (rw e at small)))))

-- A number below 2 ^ 31 that is written in decimal, as the port is given, is read by `atoi` as that
-- number. One digit of fuel more than the number is enough to write it.
pub atoi-decimal : (n : ℕ) → n < 2 ^ 31 → atoi (decimal (n + 1) n []) ≡ n
unfolding digits_value
atoi-decimal n h =
    let same = digits_value-decimal (n + 1) n [] (omega arith) in
    atoi-Begins _ (decimal-Begins (n + 1) n [] (omega arith)) (omega (arith, same, h)) ∙ same
