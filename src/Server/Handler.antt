-- ===== src/Server/Handler.antt =====
-- include/Handler.h and src/Handler.cpp: a handler executes calls and hands their values to the
-- responder.
pub mod Answer
pub mod Values
use p_rpc.Writable.{Writable}
use p_rpc.Base.{[], Bool, Option, none, some, if◌then◌else◌}
use p_rpc.BlockQueue.{BlockQueue, try_pop}
use p_rpc.Socket.{Result, ok, aborted, Eff, pure, fail, evaluate, ◌>>=◌, Asio, throws, crash}
use p_rpc.Method
use p_rpc.Server.Call.{Call, set_value}
use p_rpc.Server.State.{State}
use p_rpc.Server.Responder.{do_respond}

abbrev pub with_result : Call → Result (Option Writable) → Result Call
with_result call (ok res) = set_value res call
with_result call (throws e) = throws e
with_result call (crash e) = crash e

-- What `handle` makes of a call: the method is executed and the value set.
unfoldable pub execute : Call → Result Call
execute call = with_result call (Method.call call.class_name call.method_name call.params)

module _ ⦃net : Asio⦄ where
  abbrev taken : State → Option Call × BlockQueue Call → Result (Option Call) × State
  taken st (call, q) = (ok call, record st { bq_call = q })

  abbrev pub must_respond : Bool → Eff State (Unit {0})
  must_respond done = if done then pure tt else fail aborted

  unfoldable pub handle_call : Option Call → Eff State (Unit {0})
  handle_call none = pure tt
  handle_call (some call) = do done ← evaluate (execute call) >>= do_respond; must_respond done

  -- One turn of the loop of `handle`. With no call the pop waits on, and the turn does nothing.
  unfoldable pub handle_once : Eff State (Unit {0})
  handle_once = (λ st. taken st (try_pop [] st.bq_call)) >>= handle_call
