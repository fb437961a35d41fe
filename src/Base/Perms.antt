-- ===== src/Base/Perms.antt =====
-- Lists up to the order of their entries.
use mathlib.Core.Path.{subst, ◌≡◌, sym, ap, ◌∙◌}
use mathlib.Core.List.{List, ◌++◌, Perm, append_assoc, perm_append_comm}
use mathlib.Core.List.Perm
use mathlib.Core.List.{Permᴰ}
use mathlib.Core.Logic.{∥∥₁_map}
use p_rpc.Base.Lists.{All}

module _ {ℓ} {A : Type ℓ} where
  pub eq-perm : {xs ys : List A} → xs ≡ ys → Perm xs ys
  eq-perm {xs} e = subst (λ zs. Perm xs zs) e (Perm.refl xs)

  -- A part in the middle moves behind the others.
  perm_aside : (bs hs cs xs : List A) → Perm ((bs ++ (hs ++ cs)) ++ xs) ((bs ++ cs) ++ (hs ++ xs))
  perm_aside bs hs cs xs =
      Perm.trans
        (Perm.append_right xs (
          Perm.trans (Perm.append_left bs (perm_append_comm hs cs))
            (eq-perm (sym (append_assoc bs cs hs)))))
        (eq-perm (append_assoc (bs ++ cs) hs xs))

  perm_ahead : (ss ms ys : List A) → Perm (ms ++ (ss ++ ys)) (ss ++ (ms ++ ys))
  perm_ahead ss ms ys =
      Perm.trans (eq-perm (sym (append_assoc ms ss ys))) (
        Perm.trans (Perm.append_right ys (perm_append_comm ms ss))
          (eq-perm (append_assoc ss ms ys)))

  -- What one thread exchanges with a queue, among the others.
  pub perm_exchange :
      (bs cs hs hs' qs qs' ps ss : List A)
      → hs ++ (qs ++ ps) ≡ ss ++ (hs' ++ qs')
      → Perm ((bs ++ (hs ++ cs)) ++ (qs ++ ps)) (ss ++ ((bs ++ (hs' ++ cs)) ++ qs'))
  perm_exchange bs cs hs hs' qs qs' ps ss e = Perm.trans (perm_aside bs hs cs (qs ++ ps)) (
      Perm.trans (eq-perm (ap (◌++◌ (bs ++ cs)) e)) (
        Perm.trans (perm_ahead ss (bs ++ cs) (hs' ++ qs'))
          (Perm.append_left ss (Perm.symm (perm_aside bs hs' cs qs')))))

  pub perm_then :
      (xs qs ps xs' qs' ss ps' ss' zs : List A)
      → Perm (xs ++ (qs ++ ps)) (ss ++ (xs' ++ qs'))
      → Perm (xs' ++ (qs' ++ ps')) (ss' ++ zs)
      → Perm (xs ++ (qs ++ (ps ++ ps'))) ((ss ++ ss') ++ zs)
  perm_then xs qs ps xs' qs' ss ps' ss' zs h k =
      Perm.trans
        (eq-perm
          (ap (◌++◌ xs) (sym (append_assoc qs ps ps')) ∙ sym (append_assoc xs (qs ++ ps) ps')))
        (Perm.trans (Perm.append_right ps' h) (
          Perm.trans
            (eq-perm (append_assoc ss (xs' ++ qs') ps' ∙ ap (◌++◌ ss) (append_assoc xs' qs' ps')))
            (Perm.trans (Perm.append_left ss k) (eq-perm (sym (append_assoc ss ss' zs))))))

  pub perm_onward :
      (rs ps ss xs ys : List A)
      → Perm rs (ps ++ ys)
      → Perm ps (ss ++ xs)
      → Perm rs (ss ++ (xs ++ ys))
  perm_onward rs ps ss xs ys h k =
      Perm.trans h (Perm.trans (Perm.append_right ys k) (eq-perm (append_assoc ss xs ys)))

module _ {ℓ κ} {A : Type ℓ} (P : A → Type κ) where
  permuted-All : {xs ys : List A} → Permᴰ xs ys → All P xs → All P ys
  permuted-All Permᴰ.nil h = h
  permuted-All (Permᴰ.cons e d) h = (subst P e h.0, permuted-All d h.1)
  permuted-All (Permᴰ.swap e f) h = (subst P f h.1.0, (subst P e h.0, h.1.1))
  permuted-All (Permᴰ.trans d d') h = permuted-All d' (permuted-All d h)

  -- A permutation does not tell which entry goes where, so that the proofs are there, but not named.
  pub All-perm : {xs ys : List A} → Perm xs ys → All P xs → ∥ All P ys ∥₁
  All-perm {xs} {ys} p h = ∥∥₁_map {B = All P ys} p (λ d. permuted-All d h)
