-- ===== src/Rpc/Packing.antt =====
-- How the arguments of an invocation come to be the parameters of a method.
use p_rpc.Socket.Results.{Result-cases, continue-not_ok}
use p_rpc.MethodWritable.RoundTrip.{append}
use p_rpc.Socket.{ok, Asio, Result, throws, handle, crash, fail, aborted}
use p_rpc.Base.{List, All, ◌≡◌, ◌∷◌, [], ap, sym, inl, ◌∙◌, ℕ, Option, ◌↔◌, inr, refl}
use p_rpc.MethodWritable.RoundTrip.{append-nil, append-push_back, append}
use p_rpc.Rpc.{get_params, invoke_on, Setting, call_with, print_to_string}
use p_rpc.Writable.{Writable, Params, nil, cons, push_back, method_writable}
use p_rpc.Client.Registry.{Client, call}

abbrev pub params_of : List Writable → Params
params_of [] = nil
params_of (p ∷ ps) = cons p (params_of ps)

-- `printToString` of the value returns.
abbrev pub Prints : Writable → Type 0
Prints p = print_to_string p ≡ ok tt

get_params-append :
    (p : Writable) (ps : List Writable) (params : Params)
    → All Prints (p ∷ ps)
    → get_params p ps params ≡ (ok tt, append params (params_of (p ∷ ps)))
unfolding get_params
get_params-append p [] params h =
    rw h.0 (ap (λ (x : Params). (ok tt, x)) (sym (append-nil _) ∙ append-push_back params p nil))
get_params-append p (q ∷ ps) params h = rw h.0 (
    get_params-append q ps (push_back params p) h.1
    ∙ ap (λ (x : Params). (ok tt, x)) (append-push_back params p (params_of (q ∷ ps))))

get_params-Prints :
    (p : Writable) (ps : List Writable) (params : Params) (u : Unit {0})
    → (get_params p ps params).0 ≡ ok u
    → All Prints (p ∷ ps)
unfolding get_params
get_params-Prints p [] params u h = (h, tt)
get_params-Prints p (q ∷ ps) params u h = elim (Result-cases (print_to_string p)) [
  | inl (_, e) ↦ (e, get_params-Prints q ps (push_back params p) u (rw e at h))
  | inr unprinted ↦
      absurd (
        continue-not_ok (print_to_string p, push_back params p) (λ _. get_params q ps) u unprinted
          h)
]

module _ ⦃net : Asio⦄ where
  module _ (env : Setting) (ep : ℕ) (value_class class method : List ℕ) (p : Writable)
      (ps : List Writable) (client client' : Client) (v : Option Writable) where
    -- The call of the method with the arguments in order.
    abbrev pub packed_call : Result (Option Writable) × Client
    packed_call =
        call env.system ep (method_writable class method (params_of (p ∷ ps))) value_class
          env.should_stop env.rounds client

    handled-ok :
        (q : Result (Option Writable) × Client)
        → handle q (fail aborted) ≡ (ok v, client')
        → q ≡ (ok v, client')
    handled-ok (ok x, s) h = h
    handled-ok (throws x, s) h = cc h
    handled-ok (crash x, s) h = cc h

    collected :
        (r : Result (Unit {0}) × Params)
        → call_with env ep value_class class method r client ≡ (ok v, client')
        → r.0 ≡ ok tt
    collected (ok u, params) h = refl
    collected (throws x, params) h = cc h
    collected (crash x, params) h = cc h

    packed :
        All Prints (p ∷ ps)
        → call_with env ep value_class class method (get_params p ps nil) client ≡ packed_call
    unfolding append
    packed h =
        ap (λ (r : Result (Unit {0}) × Params). call_with env ep value_class class method r client)
          (get_params-append p ps nil h)

    -- `Invocation::invoke` returns a value exactly if each argument can be printed for the log and the
    -- client's call of the method, with the arguments in order for its parameters, returns it; what
    -- it does to the client is what that call does.
    pub invoke-packed_call :
        (invoke_on env ep value_class class method p ps client ≡ (ok v, client'))
        ↔ (All Prints (p ∷ ps) × (packed_call ≡ (ok v, client')))
    unfolding invoke_on
    invoke-packed_call = (
      (λ h.
          let called = handled-ok _ h in
          let prints = get_params-Prints p ps nil tt (collected (get_params p ps nil) called) in
          (prints, sym (packed prints) ∙ called)),
      (λ h.
          ap (λ (q : Result (Option Writable) × Client). handle q (fail aborted))
            (packed h.0 ∙ h.1)),
    )
