-- ===== src/Texts/Keys.antt =====
-- Which endpoints share a key in the client's `_connections`.
use mathlib.Core.Path.{subst}
use p_rpc.Base.{
  [], ◌∷◌, List, ℕ, ◌≤◌, ◌≡◌, All, suc, ◌<◌, ◌++◌, ◌↔◌, sym, All-split, ◌+◌, Bool-cases, refl,
  arith, ltb, ◌∙◌, inl, inr, ap, ◌/◌, zero,
}
use p_rpc.Texts.{key_text, decimal_text}
use p_rpc.Main.{digits_value}
use p_rpc.Main.Ports.{decimal, digits_value-decimal}

-- A character that may stand in a port.
abbrev IsDigit : ℕ → Type 0
IsDigit d = (b'0' ≤ d) × (d < b':')

decimal-IsDigit :
    (fuel n : ℕ) (rest : List ℕ) → All IsDigit rest → All IsDigit (decimal fuel n rest)
unfolding decimal
decimal-IsDigit zero n rest h = h
decimal-IsDigit (suc fuel) n rest h = elim (Bool-cases (ltb n 10)) [
  | inl last ↦ rw last (ground arith, h)
  | inr more ↦ rw more (decimal-IsDigit fuel (n / 10) _ (omega arith, h))
]

-- A text ends at its last colon.
split_last :
    (bs bs' ds ds' : List ℕ)
    → All IsDigit ds
    → All IsDigit ds'
    → bs ++ b':' ∷ ds ≡ bs' ++ b':' ∷ ds'
    → (bs ≡ bs') × (ds ≡ ds')
split_last [] [] ds ds' h h' e = (refl, cc)
split_last [] (x ∷ xs) ds ds' h h' e =
    let tail : ds ≡ xs ++ b':' ∷ ds' = cc in
    let (_, rest) = All-split IsDigit xs (b':' ∷ ds') (subst (All IsDigit) tail h) in
    absurd (omega (arith, rest.0))
split_last (x ∷ xs) [] ds ds' h h' e =
    let tail : ds' ≡ xs ++ b':' ∷ ds = cc in
    let (_, rest) = All-split IsDigit xs (b':' ∷ ds) (subst (All IsDigit) tail h') in
    absurd (omega (arith, rest.0))
split_last (x ∷ xs) (y ∷ ys) ds ds' h h' e =
    let head : x ≡ y = cc in
    let tail : xs ++ b':' ∷ ds ≡ ys ++ b':' ∷ ds' = cc in
    let (same, same') = split_last xs ys ds ds' h h' tail in (cc, same')

decimal_text_injective : (n n' : ℕ) → decimal_text n ≡ decimal_text n' → n ≡ n'
unfolding digits_value
decimal_text_injective n n' e =
    sym (digits_value-decimal (n + 1) n [] (omega arith))
    ∙ ap (digits_value 0) e
    ∙ digits_value-decimal (n' + 1) n' [] (omega arith)

-- Two endpoints have the same key in the client's map of connections exactly if they have the same
-- address and the same port, whatever the text of an address looks like.
pub key_text-eq_iff :
    (address address' : List ℕ) (port port' : ℕ)
    → (key_text address port ≡ key_text address' port') ↔ ((address ≡ address') × (port ≡ port'))
unfolding key_text
key_text-eq_iff address address' port port' = (
  (λ e.
      let (same, same') =
        split_last address address' (decimal_text port) (decimal_text port')
          (decimal-IsDigit (port + 1) port [] tt) (decimal-IsDigit (port' + 1) port' [] tt) e in
      (same, decimal_text_injective port port' same')),
  (λ h. rw (h.0, h.1) refl),
)
