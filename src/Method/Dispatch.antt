-- ===== src/Method/Dispatch.antt =====
-- Which calls `Method::call` knows, and what they return.
use p_rpc.Method.{◌>>=◌}
use p_rpc.Base.{
  refl, ℕ, ◌+◌, ◌%◌, ◌≡◌, ◌≢◌, ◌⊎◌, ◌↔◌, List, some, none, codes, bytes_eq, bytes_eq→eq, int_mod,
  inl, inr, Bool-cases,
}
use p_rpc.Socket.{Result, ok, throws, crash}
use p_rpc.Writable.{Writable, int_writable, Params, cons, get_elem?}
use p_rpc.Method.{call, create}

-- The class and method names that are implemented.
abbrev pub IsKnown : List ℕ → List ℕ → Type 0
IsKnown class method =
    ((class ≡ codes "FSNameSystem") × (method ≡ codes "create"))
    ⊎ ((class ≡ codes "NameNode") × (method ≡ codes "create"))

abbrev pub four_ints : ℕ → ℕ → ℕ → ℕ → Params → Params
four_ints a b c d rest = cons (int_writable (some a)) (
    cons (int_writable (some b)) (cons (int_writable (some c)) (cons (int_writable (some d)) rest)))

-- `NameNode::create` on four numbers, whatever follows them, is their sum as an `int`.
pub call-four_ints :
    (a b c d : ℕ) (rest : Params)
    → call (codes "NameNode") (codes "create") (four_ints a b c d rest)
      ≡ ok (some (int_writable (some ((a + b + c + d) % int_mod))))
unfolding call create get_elem? bytes_eq
call-four_ints a b c d rest = refl

some-ne_none : (r : Result Writable) → (r >>= (λ w. ok (some w))) ≢ ok none
some-ne_none (ok w) = λ e. cc
some-ne_none (throws x) = λ e. cc
some-ne_none (crash x) = λ e. cc

unknown_call :
    (class method : List ℕ) (params : Params)
    → ¬ IsKnown class method
    → call class method params ≡ ok none
unfolding call
unknown_call class method params h = elim (Bool-cases (bytes_eq method (codes "create"))) [
  | inl m ↦ elim (Bool-cases (bytes_eq class (codes "FSNameSystem"))) [
    | inl c ↦ absurd (h (inl (bytes_eq→eq _ _ c, bytes_eq→eq _ _ m)))
    | inr c ↦ elim (Bool-cases (bytes_eq class (codes "NameNode"))) [
      | inl d ↦ absurd (h (inr (bytes_eq→eq _ _ d, bytes_eq→eq _ _ m)))
      | inr d ↦ rw (c, d) refl
    ]
  ]
  | inr m ↦ elim (Bool-cases (bytes_eq class (codes "FSNameSystem"))) [
    | inl c ↦ rw (c, m) refl
    | inr c ↦ elim (Bool-cases (bytes_eq class (codes "NameNode"))) [
      | inl d ↦ rw (c, d, m) refl
      | inr d ↦ rw (c, d) refl
    ]
  ]
]

known_call :
    (class method : List ℕ) (params : Params)
    → IsKnown class method
    → call class method params ≢ ok none
unfolding call bytes_eq
known_call class method params (inl (c, m)) = rw (c, m) (λ e. cc)
known_call class method params (inr (c, m)) = rw (c, m) (some-ne_none (create params))

-- `Method::call` returns NULL exactly for the class and method names that are not implemented,
-- whatever the parameters.
pub call-null_iff :
    (class method : List ℕ) (params : Params)
    → (call class method params ≡ ok none) ↔ (¬ IsKnown class method)
call-null_iff class method params =
    (λ e k. known_call class method params k e, unknown_call class method params)
