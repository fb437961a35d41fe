-- ===== src/Server/Cycle/Tests.antt =====
-- A request to the server, over the simulated socket.
use p_rpc.Server.Cycle.Disconnecting.{disconnect-aborts}
use p_rpc.Server.Responder.{respond_once}
use p_rpc.Socket.{◌>>◌, aborted}
use p_rpc.Socket.Simulated.{simulated}
use p_rpc.MethodWritable.Wire.{IsSendable, also, int, end, depth_params}
use p_rpc.Server.Handler.Answer.{served, served_sum, execute-sum}
use p_rpc.Server.Cycle.Whole.{Replied, serve-Replied}
use p_rpc.Socket.{ok, crash, null_pointer}
use p_rpc.Server.Cycle.{serve, Quiet}
use p_rpc.BlockQueue.{new_queue}
use p_rpc.Method.Dispatch.{four_ints, IsKnown, call-null_iff}
use p_rpc.Method.{call}
use p_rpc.Server.Cycle.Failing.{serve-null}
use p_rpc.Base.{
  ℕ, ◌++◌, codes, ◌≡◌, [], ◌∷◌, true, false, arith, find, insert, le_bytes, refl, ◌<◌, ◌+◌, length,
  ◌≤◌, bytes_eq, sym, append-nil, Unique,
}
use p_rpc.Server.State.{State, new_state}
use p_rpc.Writable.{Params, Writable, method_writable, nil}
use p_rpc.Server.Call.Request.{request_wire, requested}
use p_rpc.Server.Listener.{create_connection, Listener, watch, do_read, on_state}
use p_rpc.Writable.{size}
use p_rpc.Socket.Simulated.{simulated, Stream}
use p_rpc.Server.Connection.{Connection, new_connection}

abbrev numbers : Params
numbers = four_ints 1 2 3 4 nil

abbrev method : Writable
method = method_writable (codes "NameNode") (codes "create") numbers

method-IsSendable : IsSendable method
unfolding size
method-IsSendable =
    IsSendable.method (record { chars = omega arith; not_empty = omega arith; short = omega arith })
      (record { chars = omega arith; not_empty = omega arith; short = omega arith }) (omega arith)
      (also (int 1) (also (int 2) (also (int 3) (also (int 4) end))))

-- The request has come in, and the first byte of the next.
abbrev line : Stream
line = record { pending = request_wire 5 method ++ 9 ∷ []; sent = []; room = 100 }

abbrev memory : ℕ → Connection
memory _ = new_connection line 0 0 0

abbrev arrived : State
arrived = create_connection 8 0 line 5 (new_state memory)

abbrev listener : Listener
listener = record {
  last_reader_index = 0;
  readers = λ _. new_queue 10;
  watched = [];
  accepting = true;
  should_stop = false;
}

arrived-Quiet : Quiet arrived 0
unfolding create_connection new_state new_connection new_queue find insert
arrived-Quiet = record {
  nothing_called = refl;
  room_called = omega arith;
  resting = record {
    nothing_scheduled = refl;
    nothing_queued = refl;
    known = refl;
    room_there = omega arith;
    room_here = omega arith;
  };
}

numbers_depth : depth_params numbers < 1
unfolding depth_params
numbers_depth = omega arith

line_pending : (arrived.objects 0).sock.pending ≡ request_wire 5 method ++ 9 ∷ []
unfolding create_connection new_connection
line_pending = refl

value_fits :
    12
      + length
          (served
            (requested 0 5 (codes "NameNode") (codes "create") numbers)
            (served_sum 1 2 3 4)).str_val
    ≤ (arrived.objects 0).sock.room
unfolding create_connection new_connection le_bytes
value_fits = omega arith

serve-Replied_example :
    (st' : State) × (serve 4 1 7 0 (arrived, listener)
      ≡ (ok tt, (st', watch (arrived.objects 0).endpoint listener)))
    × Replied arrived 0
        (served (requested 0 5 (codes "NameNode") (codes "create") numbers) (served_sum 1 2 3 4))
        (9 ∷ [])
        st'
unfolding le_bytes
serve-Replied_example =
    serve-Replied 4 1 7 0 5 numbers arrived listener (9 ∷ [])
      (served (requested 0 5 (codes "NameNode") (codes "create") numbers) (served_sum 1 2 3 4))
      arrived-Quiet method-IsSendable (omega arith) numbers_depth line_pending
      (execute-sum 0 5 1 2 3 4) (omega arith) value_fits (omega arith)

abbrev unknown_method : Writable
unknown_method = method_writable (codes "NameNode") (codes "remove") numbers

unknown_method-IsSendable : IsSendable unknown_method
unfolding size
unknown_method-IsSendable =
    IsSendable.method (record { chars = omega arith; not_empty = omega arith; short = omega arith })
      (record { chars = omega arith; not_empty = omega arith; short = omega arith }) (omega arith)
      (also (int 1) (also (int 2) (also (int 3) (also (int 4) end))))

abbrev unknown_line : Stream
unknown_line = record { pending = request_wire 5 unknown_method; sent = []; room = 100 }

abbrev unknown_arrived : State
unknown_arrived =
    create_connection 8 0 unknown_line 5 (new_state (λ n. new_connection unknown_line 0 0 0))

unknown_arrived-Quiet : Quiet unknown_arrived 0
unfolding create_connection new_state new_connection new_queue find insert
unknown_arrived-Quiet = record {
  nothing_called = refl;
  room_called = omega arith;
  resting = record {
    nothing_scheduled = refl;
    nothing_queued = refl;
    known = refl;
    room_there = omega arith;
    room_here = omega arith;
  };
}

unknown_pending : (unknown_arrived.objects 0).sock.pending ≡ request_wire 5 unknown_method ++ []
unfolding create_connection new_connection
unknown_pending = sym (append-nil _)

remove_unknown : ¬ IsKnown (codes "NameNode") (codes "remove")
unfolding call bytes_eq
remove_unknown = (call-null_iff (codes "NameNode") (codes "remove") numbers).0 refl

serve-null_example : (serve 4 1 7 0 (unknown_arrived, listener)).0 ≡ crash null_pointer
serve-null_example =
    serve-null 4 1 7 0 5 numbers unknown_arrived listener [] unknown_arrived-Quiet
      unknown_method-IsSendable (omega arith) numbers_depth unknown_pending remove_unknown

-- A client that is gone, with a response for it scheduled.
abbrev gone_line : Stream
gone_line = record { pending = []; sent = []; room = 0 }

abbrev gone : State
gone =
    record (create_connection 8 0 gone_line 5 (new_state (λ n. new_connection gone_line 0 0 0))) {
      bq_respond = record { max_size = 100; queue = 8 ∷ []; cond_is_empty = 0; cond_is_full = 0 };
    }

gone-Unique : Unique gone.connections
unfolding create_connection new_state find insert
gone-Unique = (refl, tt)

gone_scheduled : gone.bq_respond.queue ≡ (gone.objects 0).endpoint ∷ []
unfolding create_connection new_connection
gone_scheduled = refl

gone_short : length (gone.objects 0).sock.pending < 4
unfolding create_connection new_connection
gone_short = omega arith

disconnect-aborts_example :
    ((do_read 1 7 0 >> on_state respond_once) (gone, listener)).0 ≡ crash aborted
disconnect-aborts_example =
    disconnect-aborts 1 7 0 gone listener [] gone-Unique gone_scheduled gone_short
