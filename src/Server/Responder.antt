-- ===== src/Server/Responder.antt =====
-- include/Responder.h and src/Responder.cpp: responses are queued at their connection, and the
-- endpoints of connections with a response at `_bq_respond`. Each wait finds the queue as the
-- thread left it, and other threads run between the steps.
pub mod Turn
pub mod Delivery
pub mod Threads
pub mod Tokens
pub mod Whole
pub mod Inline
pub mod Idle
pub mod Framing
mod Tests
use p_rpc.Base.{
  ℕ, List, [], Bool, true, false, Option, none, some, ◌==◌, if◌then◌else◌, is_negative, find,
}
use p_rpc.BlockQueue.{BlockQueue, size, try_push, try_pop}
use p_rpc.Socket.{
  Result, ok, Fault, aborted, null_pointer, Eff, pure, fail, ◌>>=◌, ◌>>◌, continue, Asio,
}
use p_rpc.Server.Call.{Call}
use p_rpc.Server.Connection.{Connection}
use p_rpc.Server.Connection
use p_rpc.Server.State.{State, in_state, on_connection}

module _ ⦃net : Asio⦄ where
  abbrev popped : Connection → Option Call × BlockQueue Call → Result (Option Call) × Connection
  popped conn (call, q) = (ok call, record conn { respond_queue = q })

  -- `respond_queue.try_pop(call)`
  unfoldable pub pop_response : Eff Connection (Option Call)
  pop_response conn = popped conn (try_pop [] conn.respond_queue)

  abbrev queued : Connection → BlockQueue Call × Bool → Result Bool × Connection
  queued conn (q, pushed) = (ok pushed, record conn { respond_queue = q })

  -- `respond_queue.try_push(call)`
  unfoldable pub push_response : Call → Eff Connection Bool
  push_response call conn = queued conn (try_push [] conn.respond_queue call true)

  abbrev scheduled : State → BlockQueue ℕ × Bool → Result Bool × State
  scheduled st (q, pushed) =
      (if pushed then ok true else Result.crash aborted, record st { bq_respond = q })

  -- `_bq_respond.try_push(ep, back)`, and `std::abort` if it fails.
  unfoldable pub schedule : ℕ → Bool → Eff State Bool
  schedule ep back st = scheduled st (try_push [] st.bq_respond ep back)

  -- What `processResponse` does with the code that the connection returned.
  unfoldable pub after_round : ℕ → ℕ → Eff State Bool
  after_round c res =
      if is_negative res
      then pure false
      else (if res == 1 then (λ st. schedule (st.objects c).endpoint false st) else pure true)

  unfoldable pub process_call : ℕ → Option Call → Eff State Bool
  process_call c none = pure false
  process_call c (some call) =
      on_connection c (Connection.process_response [] call) >>= after_round c

  -- `processResponse`, for the connection at the address `c`.
  unfoldable pub process_response : ℕ → Eff State Bool
  process_response c = on_connection c pop_response >>= process_call c

  -- The part of `doRespond` after the call is queued. The result of `processResponse` is not used.
  unfoldable pub after_queued : ℕ → Bool → Eff State Bool
  after_queued c false = pure false
  after_queued c true = λ st.
      (if size (st.objects c).respond_queue == 1
          then (process_response c >>= λ _. pure true)
          else schedule (st.objects c).endpoint true)
        st

  pub respond_to : Option ℕ → Call → Eff State Bool
  respond_to none call = fail null_pointer
  respond_to (some c) call = on_connection c (push_response call) >>= after_queued c

  -- `doRespond`
  unfoldable pub do_respond : Call → Eff State Bool
  unfolding respond_to
  do_respond call = respond_to call.connection call

  abbrev next_endpoint : State → Option ℕ × BlockQueue ℕ → Result (Option ℕ) × State
  next_endpoint st (ep, q) = (ok ep, record st { bq_respond = q })

  abbrev pub must_succeed : Bool → Eff State (Unit {0})
  must_succeed done = if done then pure tt else fail aborted

  unfoldable pub respond_on : Option ℕ → Eff State (Unit {0})
  respond_on none = fail aborted
  respond_on (some c) = process_response c >>= must_succeed

  unfoldable pub respond_next : Option ℕ → Eff State (Unit {0})
  respond_next none = pure tt
  respond_next (some ep) = λ st. respond_on (find ep st.connections) st

  -- One turn of the loop of `respond`: an endpoint is popped, its connection is looked up, and a
  -- response of it is sent. With no endpoint the pop waits on, and the turn does nothing.
  unfoldable pub respond_once : Eff State (Unit {0})
  respond_once = (λ st. next_endpoint st (try_pop [] st.bq_respond)) >>= respond_next
