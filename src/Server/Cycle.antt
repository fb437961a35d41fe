-- ===== src/Server/Cycle.antt =====
-- A request on its way through the server: a reader, a handler and the responder take a turn each.
pub mod Handling
pub mod Whole
pub mod Failing
pub mod Several
pub mod Disconnecting
mod Tests
use p_rpc.Server.Responder.{do_respond}
use p_rpc.BlockQueue.{push_value}
use p_rpc.Server.Connection.Sending.{front}
use p_rpc.Server.Responder.Delivery.{Outcome, turn_cases}
use mathlib.Core.Path.{subst}
use p_rpc.Server.Responder.Threads.{IsKnown}
use p_rpc.Server.Call.{Call}
use p_rpc.Server.Responder.Turn.{respond_times, Serving, Kept, Kept-trans}
use p_rpc.Server.Handler.{handle_once}
use p_rpc.Server.Responder.Inline.{
  required, Alike, before_turn, inline-eq-scheduled, scheduled_path, scheduled_path-turn,
  passed_over,
}
use p_rpc.Server.Listener.{Listener, do_read, on_state}
use p_rpc.Server.State.{State}
use p_rpc.Socket.{Asio, Eff, Result, ◌>>◌, ok, throws, crash}
use p_rpc.Base.{
  ℕ, ◌≡◌, Bool, [], ◌<◌, true, false, refl, All, some, length, ◌^◌, inl, sym, ◌≤◌, ◌∙◌, inr, ◌+◌,
  ◌-◌, ==_refl, ap,
}

module _ ⦃net : Asio⦄ where
  open net use {Socket, pending, sent, room}

  -- No response is under way, at the connection `c` or scheduled.
  pub record Resting (st : State) (c : ℕ) : Type 0 where
    pub nothing_scheduled : st.bq_respond.queue ≡ []
    pub nothing_queued : (st.objects c).respond_queue.queue ≡ []
    pub known : IsKnown st c
    pub room_there : 0 < st.bq_respond.max_size
    pub room_here : 0 < (st.objects c).respond_queue.max_size

  -- No call is, either.
  pub record Quiet (st : State) (c : ℕ) : Type 0 where
    pub nothing_called : st.bq_call.queue ≡ []
    pub room_called : 0 < st.bq_call.max_size
    pub resting : Resting st c

  -- The listener has its reader read the connection `c`, a handler takes a call, and the responder
  -- takes `n` turns.
  unfoldable pub serve : ℕ → ℕ → ℕ → ℕ → Eff (State × Listener) (Unit {0})
  serve n fuel now c = do_read fuel now c >> on_state (handle_once >> respond_times n)
