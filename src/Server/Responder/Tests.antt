-- ===== src/Server/Responder/Tests.antt =====
-- A responder and a handler, over the simulated socket.
use p_rpc.Server.Responder.Whole.{WholeCall-Steps, response}
use p_rpc.Server.Responder.Inline.{SameRound, scheduled_path, inline-eq-scheduled}
use p_rpc.Base.{ℕ, ◌≢◌, refl, [], ◌∷◌, some, none, find, insert, arith, ◌≡◌, le_bytes, true}
use p_rpc.BlockQueue.{new_queue, size, try_push, push_value, wait_for, try_pop, pop_value}
use p_rpc.Socket.{ok}
use p_rpc.Socket.Simulated.{write_stream, simulated, Stream}
use p_rpc.Server.Call.{Call, new_call}
use p_rpc.Server.Connection
use p_rpc.Server.Responder
use p_rpc.Server.Connection.{Connection, new_connection, write_value, write_header, process_body}
use p_rpc.Server.State.{State, on_connection, new_state}
use p_rpc.Server.Listener.{create_connection}
use p_rpc.Server.Responder.{
  push_response, pop_response, do_respond, after_queued, process_call, after_round, schedule,
}
use p_rpc.Server.Responder.Threads.{
  World, Steps, step, arrive, next, done, push, inline, idle, popping,
}
use p_rpc.Server.Responder.Tokens.Found.{all_idle, pop_response_finds}

abbrev line : Stream
line = record { pending = []; sent = []; room = 100 }

abbrev memory : ℕ → Connection
memory _ = new_connection line 0 0 0

abbrev answer : Call
answer = new_call (some 0)

-- A connection of the endpoint 8 has arrived.
abbrev arrived : State
arrived = create_connection 8 0 line 5 (new_state memory)

abbrev answered : State
answered = (on_connection 0 (push_response answer) arrived).1

-- A handler has queued its response and is about to send it itself.
abbrev after : World
after = record { state = answered; threads = popping 0 ∷ idle ∷ [] }

nothing_known : (e : ℕ) → find e (new_state memory).connections ≢ some 0
unfolding new_state find
nothing_known e = λ h. cc h

moves : Steps (record { state = new_state memory; threads = all_idle 2 }) after
unfolding all_idle new_state create_connection find insert push_response try_push wait_for
    push_value new_queue new_connection size
moves = next (arrive 8 0 line 5 refl nothing_known) (
    next (step [] (idle ∷ []) (push answer refl refl))
      (next (step [] (idle ∷ []) (inline refl)) done))

pop_response_finds_example : (on_connection 0 pop_response after.state).0 ≢ ok none
pop_response_finds_example = pop_response_finds memory 2 after [] (idle ∷ []) 0 moves refl

answer_ok : (do_respond answer arrived).0 ≡ ok true
unfolding create_connection new_call find insert new_state new_connection new_queue do_respond
    after_queued Responder.process_response process_call after_round schedule push_response
    pop_response try_push try_pop wait_for push_value pop_value size write_value write_header
    process_body le_bytes write_stream Connection.process_response
answer_ok = refl

arrived_known : find (arrived.objects 0).endpoint arrived.connections ≡ some 0
unfolding create_connection find insert new_state new_connection
arrived_known = refl

answer_connection : answer.connection ≡ some 0
unfolding new_call
answer_connection = refl

-- A handler queues the response, and sends it itself.
WholeCall-Steps_example :
    Steps
      (record { state = arrived; threads = idle ∷ idle ∷ [] })
      (record { state = (do_respond answer arrived).1; threads = idle ∷ idle ∷ [] })
WholeCall-Steps_example =
    WholeCall-Steps arrived (do_respond answer arrived).1 (idle ∷ []) []
      (response answer 0 answer_connection arrived_known answer_ok)

inline-eq-scheduled_example :
    SameRound (do_respond answer arrived) (scheduled_path 0 answer arrived)
unfolding create_connection new_state new_queue new_connection
inline-eq-scheduled_example =
    inline-eq-scheduled arrived 0 answer answer_connection arrived_known refl (omega arith) refl
      (omega arith)
