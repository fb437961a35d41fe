-- ===== src/Server/Handler/Values.antt =====
-- What a successful execution makes of a call: its value is a number.
use p_rpc.Base.{
  ◌≡◌, refl, ◌∙◌, ap, ℕ, List, some, Option, bytes_eq, Bool-cases, inl, inr, codes, none, ◌&&◌,
}
use p_rpc.Method
use p_rpc.Method.{create, int_of, ◌>>=◌}
use p_rpc.Server.Call.{Call, set_value, with_value}
use p_rpc.Server.Handler.{execute, with_result}
use p_rpc.Server.Handler.Answer.{served}
use p_rpc.Socket.{Result, ok, throws, crash}
use p_rpc.Writable.{Writable, Params, int_writable, to_string, get_elem?}

-- A result that is a number, if there is one.
IsNumber : Result (Option Writable) → Type 0
IsNumber r = (w : Writable) → r ≡ ok (some w) → (v : ℕ) × (w ≡ int_writable (some v))

number : (v : ℕ) → IsNumber (ok (some (int_writable (some v))))
unfolding IsNumber
number v w e = (v, let same = e in cc same)

null : IsNumber (ok none)
unfolding IsNumber
null w e = absurd (let same = e in cc same)

after_int :
    (r : Result ℕ) (f : ℕ → Result Writable)
    → ((a : ℕ) → IsNumber (f a >>= (λ w. ok (some w))))
    → IsNumber ((r >>= f) >>= (λ w. ok (some w)))
unfolding IsNumber
after_int (ok a) f h w e = h a w e
after_int (throws x) f h w e = absurd (let same = e in cc same)
after_int (crash x) f h w e = absurd (let same = e in cc same)

create-IsNumber : (ps : Params) → IsNumber (create ps >>= (λ w. ok (some w)))
unfolding create
create-IsNumber ps = after_int (int_of (get_elem? ps 0)) _ (λ a.
    after_int (int_of (get_elem? ps 1)) _ (λ b.
      after_int (int_of (get_elem? ps 2)) _
        (λ c. after_int (int_of (get_elem? ps 3)) _ (λ d. number _))))

call-IsNumber : (class method : List ℕ) (ps : Params) → IsNumber (Method.call class method ps)
unfolding Method.call
call-IsNumber class method ps = elim (Bool-cases (bytes_eq class (codes "FSNameSystem"))) [
  | inl c ↦ elim (Bool-cases (bytes_eq method (codes "create"))) [
    | inl m ↦ rw (c, m) (number 32)
    | inr m ↦ rw (c, m) null
  ]
  | inr c ↦
      elim (Bool-cases (bytes_eq class (codes "NameNode") && bytes_eq method (codes "create"))) [
        | inl m ↦ rw (c, m) (create-IsNumber ps)
        | inr m ↦ rw (c, m) null
      ]
]

-- The method returned the number `v`, and the response has it.
pub record HasNumber (call call' : Call) (v : ℕ) : Type 0 where
  pub returned :
      Method.call call.class_name call.method_name call.params ≡ ok (some (int_writable (some v)))
  pub responds : call' ≡ served call v

-- If the execution of a call succeeds, the method returned a number, and the call has it for its
-- value and its bytes for the text that is sent.
pub execute-HasNumber :
    (call call' : Call) → execute call ≡ ok call' → (v : ℕ) × HasNumber call call' v
unfolding execute to_string IsNumber set_value
execute-HasNumber call call' h =
    by_result (Method.call call.class_name call.method_name call.params)
      (call-IsNumber call.class_name call.method_name call.params) refl h
  where
    by_number :
        (w : Writable) (v : ℕ)
        → w ≡ int_writable (some v)
        → with_value w call (to_string w) ≡ ok call'
        → call' ≡ served call v
    by_number w v e k = let same = rw e at k in cc same

    by_result :
        (r : Result (Option Writable))
        → IsNumber r
        → Method.call call.class_name call.method_name call.params ≡ r
        → with_result call r ≡ ok call'
        → (v : ℕ) × HasNumber call call' v
    by_result (ok none) n e k = absurd (let same = k in cc same)
    by_result (ok (some w)) n e k =
        let (v, number) = n w refl in
        (
          v,
          record { returned = e ∙ ap (λ x. ok (some x)) number; responds = by_number w v number k },
        )
    by_result (throws x) n e k = absurd (let same = k in cc same)
    by_result (crash x) n e k = absurd (let same = k in cc same)
