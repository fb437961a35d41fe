-- ===== src/Client/Registry/Calling.antt =====
-- When `call` returns, and with what.
use p_rpc.BlockQueue.{wait_for}
use p_rpc.BlockQueue.Waiting.{Never, after_all, wait_for-Never, wait_for-pred}
use p_rpc.Writable.{Writable}
use p_rpc.Client.Registry.{
  System, Client, call, await, call_of, get_connection, start_call, call_done, get_value, returned,
}
use p_rpc.Socket.{Asio, ok}
use p_rpc.Base.{
  Bool, List, ℕ, ◌≡◌, true, false, Option, ◌∷◌, Bool-cases, inl, [], inr, sym, ◌∙◌, refl,
}
use p_rpc.Client.Call.{wait, Call, new_call}

-- No check of any round finds the condition.
abbrev pub StillWaiting {ℓ} : {S : Type ℓ} → (S → Bool) → List (List (S → S)) → S → Type 0
StillWaiting done [] s = done s ≡ false
StillWaiting done (others ∷ rounds) s =
    Never done others s × StillWaiting done rounds (after_all others s)

module _ {ℓ} {S : Type ℓ} (done : S → Bool) where
  wait-done :
      (rounds : List (List (S → S))) (s : S)
      → (wait done rounds s).0 ≡ true
      → done (wait done rounds s).1 ≡ true
  unfolding wait
  wait-done [] s h = h
  wait-done (others ∷ rounds) s h = elim (Bool-cases (done s)) [
    | inl now ↦ rw now now
    | inr early ↦ elim (Bool-cases (wait_for done others s).1) [
      | inl woken ↦ rw (early, woken) (sym (wait_for-pred done others s) ∙ woken)
      | inr late ↦
          rw (early, late) (wait-done rounds (wait_for done others s).0 (rw (early, late) at h))
    ]
  ]

  wait-waits :
      (rounds : List (List (S → S))) (s : S)
      → (wait done rounds s).0 ≡ false
      → StillWaiting done rounds s
  unfolding wait
  wait-waits [] s h = h
  wait-waits (others ∷ rounds) s h = elim (Bool-cases (done s)) [
    | inl now ↦ absurd (let failed = rw now at h in cc failed)
    | inr early ↦ elim (Bool-cases (wait_for done others s).1) [
      | inl woken ↦ absurd (let failed = rw (early, woken) at h in cc failed)
      | inr late ↦
          let (never, same) = wait_for-Never done others s late in
          (
            never,
            rw (← same) (wait-waits rounds (wait_for done others s).0 (rw (early, late) at h)),
          )
    ]
  ]

module _ ⦃net : Asio⦄ where
  returned-true :
      (c id : ℕ) (p : Bool × Client)
      → p.0 ≡ true
      → returned c id p ≡ (ok (get_value (call_of c id p.1)), p.1)
  returned-true c id (true, client) h = refl
  returned-true c id (false, client) h = cc h

  module _ (sys : System) (ep : ℕ) (param : Writable) (value_class : List ℕ)
      (rounds : List (List (Client → Client))) (client client' : Client) where
    abbrev entered : (ℕ × Call) × Client
    entered = get_connection sys ep (new_call param value_class) client

    -- The call's own object.
    abbrev pub own_call : Client → Option Call
    own_call client'' = call_of entered.0.0 entered.0.1.id client''

    -- Let the request of a `call` have been sent. Unless the call is found not done at every check of
    -- the wait, `call` returns, in a state in which its call is done, and returns its value.
    pub call_returns :
        start_call sys ep param value_class client ≡ (ok tt, client')
        → ¬ StillWaiting (λ x. call_done (own_call x)) rounds client'
        → (client'' : Client) × (call sys ep param value_class false rounds client
            ≡ (ok (get_value (own_call client'')), client''))
          × (call_done (own_call client'') ≡ true)
    unfolding call await
    call_returns e h =
        let done = λ (x : Client). call_done (own_call x) in
        elim (Bool-cases (wait done rounds client').0) [
          | inl woken ↦ (
            (wait done rounds client').1,
            rw e (returned-true entered.0.0 entered.0.1.id (wait done rounds client') woken),
            wait-done done rounds client' woken,
          )
          | inr still ↦ absurd (h (wait-waits done rounds client' still))
        ]
