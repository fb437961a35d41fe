-- ===== src/Texts/Tests.antt =====
-- A key, and a text of a call.
use p_rpc.Base.{codes, ◌≡◌, refl, ◌↔◌, int_mod, ◌-◌, ℕ}
use p_rpc.Texts.{key_text, int_text}
use p_rpc.Texts.Keys.{key_text-eq_iff}
use p_rpc.Main.Ports.{decimal}

key_text-eq_iff_example :
    (key_text (codes "::1") 80 ≡ key_text (codes "::1:8") 0)
    ↔ ((codes "::1" ≡ codes "::1:8") × (◌≡◌ {A = ℕ} 80 0))
key_text-eq_iff_example = key_text-eq_iff (codes "::1") (codes "::1:8") 80 0

key_of_localhost : key_text (codes "127.0.0.1") 8080 ≡ codes "127.0.0.1:8080"
unfolding key_text decimal
key_of_localhost = refl

negative : int_text (int_mod - 12) ≡ codes "-12"
unfolding int_text decimal
negative = refl
