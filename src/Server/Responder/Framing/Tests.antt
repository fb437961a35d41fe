-- ===== src/Server/Responder/Framing/Tests.antt =====
-- Two handlers with a response each for one connection, over the simulated socket.
use p_rpc.Server.Responder.Framing.Cut.{IsCut, process_response-IsCut}
use p_rpc.Server.Responder.Framing.{IsUnsent, AllWhole, pushed_at, sent_at}
use p_rpc.Socket.{ok}
use p_rpc.Server.Connection.Sending.{response_wire}
use p_rpc.Server.Responder.Framing.Runs.{RunConserves, AreUnsent, responses_whole}
use p_rpc.Writable.{nil}
use p_rpc.Server.Listener.{create_connection}
use p_rpc.Server.Responder.Tokens.Found.{all_idle}
use p_rpc.Server.State.{new_state, on_connection, State}
use p_rpc.Server.Responder.{push_response, pop_response}
use p_rpc.Server.Call.{Call}
use p_rpc.Server.Connection.{
  Connection, new_connection, process_body, write_header, write_value, add_back,
}
use p_rpc.Server.Connection
use p_rpc.Socket.Simulated.{simulated, Stream, write_stream}
use p_rpc.Base.{
  [], ◌∷◌, ℕ, find, some, true, refl, insert, ◌≢◌, none, le_bytes, arith, ◌≡◌, sym, ◌∙◌, length,
  ◌+◌, ◌≤◌,
}
use p_rpc.BlockQueue.{size, try_push, wait_for, push_value, new_queue, try_pop, pop_value}
use p_rpc.Server.Responder.Threads.{
  idle, popping, scheduling, push, inline, later, pop, send, Steps, done, next, step, arrive, World,
  IsKnown,
}

abbrev line : Stream
line = record { pending = []; sent = []; room = 100 }

abbrev memory : ℕ → Connection
memory _ = new_connection line 0 0 0

abbrev answer : ℕ → Call
answer id = record {
  connection = some 0;
  call_id = id;
  target = record { class_name = []; method_name = []; params = nil };
  value = none;
  pos = 0;
  str_val = 7 ∷ 8 ∷ [];
}

abbrev arrived : State
arrived = create_connection 8 0 line 5 (new_state memory)

abbrev two_idle : World
two_idle = record { state = arrived; threads = idle ∷ idle ∷ [] }

nothing_known : (e : ℕ) → find e (new_state memory).connections ≢ some 0
unfolding new_state find
nothing_known e = λ h. cc h

arrives : Steps (record { state = new_state memory; threads = all_idle 2 }) two_idle
unfolding all_idle new_state find
arrives = next (arrive 8 0 line 5 refl nothing_known) done

abbrev one_queued : State
one_queued = (on_connection 0 (push_response (answer 1)) arrived).1

abbrev both_queued : State
both_queued = (on_connection 0 (push_response (answer 2)) one_queued).1

abbrev one_popped : State
one_popped = (on_connection 0 pop_response both_queued).1

-- The first response is sent, and the second waits.
abbrev one_sent : World
one_sent = record {
  state = (on_connection 0 (Connection.process_response [] (answer 1)) one_popped).1;
  threads = idle ∷ scheduling 0 true ∷ [];
}

sent_whole : (on_connection 0 (Connection.process_response [] (answer 1)) one_popped).0 ≡ ok 0
unfolding new_state create_connection find insert push_response try_push wait_for push_value
    new_queue new_connection size pop_response try_pop pop_value Connection.process_response
    process_body write_header write_value write_stream le_bytes
sent_whole = refl

not_rest : (on_connection 0 (Connection.process_response [] (answer 1)) one_popped).0 ≢ ok 1
not_rest h = let both = sym sent_whole ∙ h in ground (arith, both)

abbrev moves : Steps two_idle one_sent
unfolding new_state create_connection find insert push_response try_push wait_for push_value
    new_queue new_connection size pop_response try_pop pop_value Connection.process_response
    process_body write_header write_value write_stream le_bytes
moves = next (step [] (idle ∷ []) (push (answer 1) refl refl)) (
    next (step [] (idle ∷ []) (inline refl)) (
      next (step (popping 0 ∷ []) [] (push (answer 2) refl refl)) (
        next (step (popping 0 ∷ []) [] (later (λ h. absurd (omega arith)))) (
          next (step [] (scheduling 0 true ∷ []) (pop refl))
            (next (step [] (scheduling 0 true ∷ []) (send not_rest)) done)))))

answer-IsUnsent : (id : ℕ) → IsUnsent (answer id)
answer-IsUnsent id = record { unsent = refl; short = omega arith }

moves-AllWhole : AllWhole 0 moves
unfolding new_state create_connection find insert push_response try_push wait_for push_value
    new_queue new_connection size pop_response try_pop pop_value Connection.process_response
    process_body write_header write_value write_stream le_bytes response_wire
moves-AllWhole =
    (answer-IsUnsent 1, (tt, (answer-IsUnsent 2, (tt, (tt, ((sent_whole, omega arith), tt))))))

two_idle-AreUnsent : AreUnsent 0 two_idle
unfolding create_connection new_connection new_queue
two_idle-AreUnsent = (tt, tt)

arrived-IsKnown : IsKnown arrived 0
unfolding create_connection find insert new_state new_connection
arrived-IsKnown = refl

responses_whole_example : RunConserves 0 two_idle one_sent (pushed_at 0 moves) (sent_at 0 moves)
responses_whole_example =
    responses_whole memory 2 0 arrives moves arrived-IsKnown two_idle-AreUnsent moves-AllWhole

-- Its value is longer than what one `write_some` takes.
abbrev long_answer : ℕ → Call
long_answer id = record (answer id) { str_val = 7 ∷ 8 ∷ 9 ∷ 10 ∷ [] }

abbrev other_waits : Connection
other_waits = record {
  sock = line;
  endpoint = 8;
  is_open = true;
  respond_queue = record {
    max_size = 100;
    queue = long_answer 2 ∷ [];
    cond_is_empty = 0;
    cond_is_full = 0;
  };
  index = 0;
  last_contact = 0;
}

long_answer-IsUnsent : (id : ℕ) → IsUnsent (long_answer id)
long_answer-IsUnsent id = record { unsent = refl; short = omega arith }

both_fit :
    length (response_wire (long_answer 1)) + length (response_wire (long_answer 2))
    ≤ other_waits.sock.room
unfolding response_wire le_bytes
both_fit = omega arith

leaves_rest : (Connection.process_response [] (long_answer 1) other_waits).0 ≡ ok 1
unfolding try_push wait_for push_value size Connection.process_response process_body write_header
    write_value write_stream le_bytes add_back
leaves_rest = refl

process_response-IsCut_example :
    (conn' : Connection) × (pop_response
        (Connection.process_response [] (long_answer 1) other_waits).1
      ≡ (ok (some (long_answer 2)), conn'))
    × IsCut
        (long_answer 1)
        (long_answer 2)
        other_waits
        (Connection.process_response [] (long_answer 2) conn').1
process_response-IsCut_example =
    process_response-IsCut (long_answer 1) (long_answer 2) other_waits (long_answer-IsUnsent 1)
      (long_answer-IsUnsent 2) refl both_fit leaves_rest
