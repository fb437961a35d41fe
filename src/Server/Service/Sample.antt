-- ===== src/Server/Service/Sample.antt =====
-- A run of a server with one client, which sends one request, over the simulated socket.
use p_rpc.Server.Connection.Sending.{response_wire}
use p_rpc.Server.Service.Projecting.{project_all}
use p_rpc.Server.Service.Answering.{HoldsNone, start_world}
use mathlib.Core.Path.{subst}
use p_rpc.Server.Connection
use p_rpc.Server.Responder.Threads.{IsKnown, idle, inline, pop, send}
use p_rpc.Server.Service.{World, Turns, comes, reads, takes, gives, goes, next, done}
use p_rpc.Server.Responder.Framing.{AllWhole, IsUnsent}
use p_rpc.Server.Responder.Tokens.Found.{all_idle}
use p_rpc.Base.{append-nil, sym, ◌∙◌, length, ◌≤◌}
use p_rpc.Socket.{ok, Result}
use p_rpc.Server.Responder.{pop_response, push_response}
use p_rpc.Base.{
  ℕ, ◌++◌, codes, ◌≡◌, [], ◌∷◌, true, false, arith, find, insert, le_bytes, refl, ◌<◌, ◌≢◌, some,
  sym,
}
use p_rpc.BlockQueue.{
  new_queue, BlockQueue, try_pop, wait_for, pop_value, push_value, size, try_push,
}
use p_rpc.MethodWritable.Wire.{IsSendable, also, int, end, depth_params}
use p_rpc.Method.Dispatch.{four_ints}
use p_rpc.Server.Call.{Call}
use p_rpc.Server.Call.Request.{request_wire, requested}
use p_rpc.Server.Connection.{
  Connection, new_connection, set_last_contact, process_body, write_header, write_value,
}
use p_rpc.Server.Handler.Answer.{served, served_sum, execute-sum}
use p_rpc.Server.Listener.{create_connection, Listener, do_read}
use p_rpc.Server.Listener.Reading.{do_read-Queued, Queued}
use p_rpc.Server.State.{State, new_state, on_connection}
use p_rpc.Socket.Simulated.{eager, Stream, write_stream}
use p_rpc.Writable.{Params, Writable, method_writable, nil}
use p_rpc.Writable

abbrev pub numbers : Params
numbers = four_ints 1 2 3 4 nil

abbrev pub method : Writable
method = method_writable (codes "NameNode") (codes "create") numbers

pub method-IsSendable : IsSendable method
unfolding Writable.size
method-IsSendable =
    IsSendable.method (record { chars = omega arith; not_empty = omega arith; short = omega arith })
      (record { chars = omega arith; not_empty = omega arith; short = omega arith }) (omega arith)
      (also (int 1) (also (int 2) (also (int 3) (also (int 4) end))))

-- The request has come in.
abbrev pub line : Stream
line = record { pending = request_wire 5 method; sent = []; room = 100 }

abbrev pub memory : ℕ → Connection
memory _ = new_connection line 0 0 0

abbrev pub arrived : State
arrived = create_connection 8 0 line 5 (new_state memory)

abbrev pub listener : Listener
listener = record {
  last_reader_index = 0;
  readers = λ _. new_queue 10;
  watched = [];
  accepting = true;
  should_stop = false;
}

abbrev pub read_state : State
read_state = (do_read 1 7 0 (arrived, listener)).1.0

abbrev pub call : Call
call = requested 0 5 (codes "NameNode") (codes "create") numbers

pub numbers_depth : depth_params numbers < 1
unfolding depth_params
numbers_depth = omega arith

pub line_pending : (arrived.objects 0).sock.pending ≡ request_wire 5 method ++ []
unfolding create_connection new_connection
line_pending = sym (append-nil _)

pub read_Queued : Queued arrived 0 7 call [] read_state
unfolding create_connection new_state new_queue
read_Queued =
    let (st', e, q) =
      do_read-Queued 1 7 0 5 numbers arrived listener [] method-IsSendable (omega arith)
        numbers_depth line_pending refl in
    subst (λ (r : Result (Unit {0}) × (State × Listener)). Queued arrived 0 7 call [] r.1.0) (sym e)
      q

abbrev pub no_calls : BlockQueue Call
no_calls = record { max_size = 100; queue = []; cond_is_empty = 1; cond_is_full = 0 }

pub call_read : try_pop [] read_state.bq_call ≡ (some call, no_calls)
unfolding create_connection new_state new_connection new_queue try_pop wait_for pop_value push_value
call_read = rw (read_Queued.queued) refl

abbrev pub answer : Call
answer = served call (served_sum 1 2 3 4)

abbrev pub taken_state : State
taken_state = record read_state { bq_call = no_calls }

pub read_IsKnown : IsKnown taken_state 0
unfolding create_connection new_state new_connection new_queue find insert
read_IsKnown = rw (read_Queued.known, read_Queued.endpoint) refl

pub pushes : (on_connection 0 (push_response answer) taken_state).0 ≡ ok true
unfolding create_connection new_state new_connection new_queue push_response try_push wait_for
    push_value
pushes = rw (read_Queued.respond_queue) refl

abbrev pub given_state : State
given_state = (on_connection 0 (push_response answer) taken_state).1

pub one_queued : size (given_state.objects 0).respond_queue ≡ 1
unfolding create_connection new_state new_connection new_queue push_response try_push wait_for
    push_value size
one_queued = rw (read_Queued.respond_queue) refl

pub pops : (on_connection 0 pop_response given_state).0 ≡ ok (some answer)
unfolding create_connection new_state new_connection new_queue push_response try_push wait_for
    push_value size pop_response try_pop pop_value
pops = rw (read_Queued.respond_queue) refl

abbrev pub popped_state : State
popped_state = (on_connection 0 pop_response given_state).1

pub sends : (on_connection 0 (Connection.process_response [] answer) popped_state).0 ≡ ok 0
unfolding create_connection new_state new_connection new_queue push_response try_push wait_for
    push_value size pop_response try_pop pop_value Connection.process_response process_body
    write_header write_value write_stream le_bytes
sends = rw (read_Queued.respond_queue, read_Queued.standing) refl

pub nothing_known : (e : ℕ) → find e (new_state memory).connections ≢ some 0
unfolding new_state find
nothing_known e = λ h. cc h

abbrev pub come_world : World
come_world = record { state = arrived; listener = listener; threads = idle ∷ idle ∷ []; hands = [] }

pub comes_first : Turns (start_world memory listener 2) come_world
unfolding all_idle new_state find
comes_first = next (comes 8 0 line 5 refl nothing_known) done

abbrev pub sent_world : World
sent_world = record {
  state = (on_connection 0 (Connection.process_response [] answer) popped_state).1;
  listener = (do_read 1 7 0 (arrived, listener)).1.1;
  threads = idle ∷ idle ∷ [];
  hands = [];
}

pub sends_all : (on_connection 0 (Connection.process_response [] answer) popped_state).0 ≢ ok 1
sends_all h = let both = sym sends ∙ h in ground (arith, both)

unfoldable pub turns : Turns come_world sent_world
unfolding create_connection new_state new_queue
turns =
    next (reads 1 7 0 5 numbers [] method-IsSendable (omega arith) numbers_depth line_pending refl)
      (next (takes call answer call_read (execute-sum 0 5 1 2 3 4)) (
        next (gives [] (idle ∷ []) [] [] answer refl read_IsKnown pushes) (
          next (goes [] (idle ∷ []) (inline one_queued) tt) (
            next (goes [] (idle ∷ []) (pop pops) tt)
              (next (goes [] (idle ∷ []) (send sends_all) tt) done)))))

pub answer-IsUnsent : IsUnsent answer
unfolding le_bytes
answer-IsUnsent = record { unsent = refl; short = omega arith }

pub come_world-HoldsNone : HoldsNone 0 come_world
unfolding create_connection new_connection new_queue new_state
come_world-HoldsNone = record {
  no_sending = refl;
  no_response = refl;
  no_hand = refl;
  no_request = refl;
}

pub arrived-IsKnown : IsKnown arrived 0
unfolding create_connection find insert new_state new_connection
arrived-IsKnown = refl

pub response_fits : length (response_wire answer) ≤ (popped_state.objects 0).sock.room
unfolding create_connection new_state new_connection new_queue push_response try_push wait_for
    push_value size pop_response try_pop pop_value response_wire le_bytes
response_fits = rw (read_Queued.standing) (omega arith)

pub turns-AllWhole : AllWhole 0 (project_all turns)
unfolding turns
turns-AllWhole = (answer-IsUnsent, (tt, (tt, ((sends, response_fits), tt))))
