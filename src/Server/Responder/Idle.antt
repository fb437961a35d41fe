-- ===== src/Server/Responder/Idle.antt =====
-- `waitForWork` of the responder, which nothing calls.
use p_rpc.Base.{
  List, Bool, Option, ltb, none, some, ◌≡◌, false, true, ◌∷◌, Bool-cases, if◌then◌else◌, inl, [],
  inr, sym, ◌∙◌,
}
use p_rpc.Socket.{Asio}
use p_rpc.BlockQueue.{size, wait_for}
use p_rpc.BlockQueue.Waiting.{wait_for-pred}
use p_rpc.Server.State.{State}

module _ ⦃net : Asio⦄ where
  abbrev pub has_endpoint : State × Bool → Bool
  has_endpoint s = ltb 0 (size s.0.bq_respond)

  -- `waitForWork`, over the state and `_should_stop`; a round is what others do in one wait, and
  -- `none` means that it waits still.
  unfoldable pub wait_for_work :
      List (List (State × Bool → State × Bool)) → State × Bool → Option Bool × (State × Bool)
  wait_for_work [] s = (none, s)
  wait_for_work (others ∷ rounds) s =
      let (s', woken) = wait_for has_endpoint others s in
      let rest = wait_for_work rounds s' in
      if woken
      then (if s'.1 then (some false, s') else (some true, s'))
      else (if s'.1 then (some false, s') else rest)

  -- What it returned, and why.
  abbrev pub Reason : Option Bool × (State × Bool) → Type 0
  Reason (none, s) = Unit
  Reason (some true, s) = (has_endpoint s ≡ true) × (s.1 ≡ false)
  Reason (some false, s) = s.1 ≡ true

  -- However the other threads interleave: `waitForWork` returns true only in a state with an endpoint
  -- to serve and no order to stop, and false only when it is told to stop.
  pub wait_for_work-Reason :
      (rounds : List (List (State × Bool → State × Bool))) (s : State × Bool)
      → Reason (wait_for_work rounds s)
  unfolding wait_for_work
  wait_for_work-Reason [] s = tt
  wait_for_work-Reason (others ∷ rounds) s =
      elim (Bool-cases (wait_for has_endpoint others s).0.1) [
        | inl stop ↦ elim (Bool-cases (wait_for has_endpoint others s).1) [
          | inl woken ↦ rw (woken, stop) stop
          | inr late ↦ rw (late, stop) stop
        ]
        | inr go_on ↦ elim (Bool-cases (wait_for has_endpoint others s).1) [
          | inl woken ↦
              rw (woken, go_on) ((sym (wait_for-pred has_endpoint others s) ∙ woken, go_on))
          | inr late ↦
              rw (late, go_on) (wait_for_work-Reason rounds (wait_for has_endpoint others s).0)
        ]
      ]
