-- ===== src/Server/Cycle/Disconnecting.antt =====
-- A client that closes its connection while a response for it is scheduled.
use p_rpc.BlockQueue.{BlockQueue}
use p_rpc.Server.Listener.Reading.{do_read-Dropped}
use p_rpc.BlockQueue.Order.{try_pop-cons}
use p_rpc.Server.State.{State}
use p_rpc.Base.{
  ◌∷◌, ℕ, List, Unique, ◌≡◌, find, length, none, ◌<◌, find-erase, refl, ◌∙◌, ==_refl, ap,
}
use p_rpc.Server.Responder.{respond_once, respond_next, respond_on}
use p_rpc.Server.Listener.{do_read, on_state, Listener}
use p_rpc.Socket.{crash, aborted, Asio, ◌>>◌, continue}

module _ ⦃net : Asio⦄ where
  open net use {Socket, pending}

  -- The responder ends the process at an endpoint that leads nowhere.
  respond_once-unknown :
      (st : State) (ep : ℕ) (eps : List ℕ)
      → st.bq_respond.queue ≡ ep ∷ eps
      → find ep st.connections ≡ none
      → (respond_once st).0 ≡ crash aborted
  unfolding respond_once respond_next respond_on
  respond_once-unknown st ep eps h k =
      let (q, f, qe, qm) = try_pop-cons st.bq_respond ep eps h in rw (f, continue) (rw k refl)

  -- Let the endpoint of a connection be the next one that the responder serves, and let no endpoint
  -- stand twice in the map. If the client closes the connection, so that fewer than the four bytes of
  -- an id are left to read, a turn of the reader on that connection and then one of the responder end
  -- the process by `std::abort`, for all clients.
  pub disconnect-aborts :
      (fuel now c : ℕ) (st : State) (l : Listener) (eps : List ℕ)
      → Unique st.connections
      → st.bq_respond.queue ≡ (st.objects c).endpoint ∷ eps
      → length (pending (st.objects c).sock) < 4
      → ((do_read fuel now c >> on_state respond_once) (st, l)).0 ≡ crash aborted
  disconnect-aborts fuel now c st l eps u h short =
      let (st', e, d) = do_read-Dropped fuel now c st l short in
      let ep = (st.objects c).endpoint in
      let gone : find ep st'.connections ≡ none =
        rw d.forgotten (find-erase ep ep st.connections u ∙ rw (==_refl ep) refl) in
      rw (e, continue)
        (respond_once-unknown st' ep eps (ap (λ (q : BlockQueue ℕ). q.queue) d.still_scheduled ∙ h)
          gone)
