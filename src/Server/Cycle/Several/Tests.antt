-- ===== src/Server/Cycle/Several/Tests.antt =====
-- Two requests to the server, over the simulated socket.
use p_rpc.Server.Cycle.{Quiet}
use p_rpc.Server.Connection.Sending.{response_wire}
use p_rpc.Server.Connection.{new_connection}
use p_rpc.Server.Call.{set_value}
use p_rpc.Socket.Simulated.{simulated}
use p_rpc.Server.Call.Request.{requested}
use p_rpc.Server.Handler.Answer.{served, served_sum, execute-sum}
use p_rpc.Server.Handler.{execute}
use p_rpc.BlockQueue.{new_queue}
use p_rpc.Method.Dispatch.{four_ints}
use p_rpc.Server.Cycle.Several.{
  Request, requests_wire, serve_times, IsServable, AllReplied, serve_times-AllReplied,
  responses_wire,
}
use p_rpc.Server.Listener.{create_connection, Listener}
use p_rpc.Server.State.{State, new_state}
use p_rpc.Socket.Simulated.{Stream}
use p_rpc.MethodWritable.Wire.{depth_params, IsSendable, received_params, also, int, end}
use p_rpc.Base.{
  ◌∷◌, [], le_bytes, codes, ◌++◌, true, ◌≡◌, false, arith, bytes_eq, refl, find, insert, length,
  ◌≤◌,
}
use p_rpc.Socket.{ok}
use p_rpc.Writable.{nil, size, to_string, Params}
use p_rpc.Method.{call}

abbrev numbers : Params
numbers = four_ints 1 2 3 4 nil

-- The sum of four numbers.
abbrev first : Request
first = record {
  id = 5;
  class = codes "NameNode";
  method = codes "create";
  params = numbers;
  response =
      served (requested 0 5 (codes "NameNode") (codes "create") numbers) (served_sum 1 2 3 4);
}

-- The call of src/Test1.cpp.
abbrev second : Request
second = record {
  id = 6;
  class = codes "FSNameSystem";
  method = codes "create";
  params = nil;
  response = served (requested 0 6 (codes "FSNameSystem") (codes "create") nil) 32;
}

first-IsServable : IsServable 4 1 0 first
unfolding size depth_params le_bytes
first-IsServable = record {
  sendable =
      IsSendable.method
        (record { chars = omega arith; not_empty = omega arith; short = omega arith })
        (record { chars = omega arith; not_empty = omega arith; short = omega arith }) (omega arith)
        (also (int 1) (also (int 2) (also (int 3) (also (int 4) end))));
  int_id = omega arith;
  shallow = omega arith;
  executed = execute-sum 0 5 1 2 3 4;
  short = omega arith;
  turns = omega arith;
}

second-IsServable : IsServable 4 1 0 second
unfolding size depth_params le_bytes execute received_params set_value to_string call bytes_eq
second-IsServable = record {
  sendable =
      IsSendable.method
        (record { chars = omega arith; not_empty = omega arith; short = omega arith })
        (record { chars = omega arith; not_empty = omega arith; short = omega arith }) (omega arith)
        end;
  int_id = omega arith;
  shallow = omega arith;
  executed = refl;
  short = omega arith;
  turns = omega arith;
}

-- The requests have come in, and the first byte of the next.
abbrev line : Stream
line = record { pending = requests_wire (first ∷ second ∷ []) ++ 9 ∷ []; sent = []; room = 100 }

abbrev arrived : State
arrived = create_connection 8 0 line 5 (new_state (λ n. new_connection line 0 0 0))

abbrev listener : Listener
listener = record {
  last_reader_index = 0;
  readers = λ _. new_queue 10;
  watched = [];
  accepting = true;
  should_stop = false;
}

arrived-Quiet : Quiet arrived 0
unfolding create_connection new_state new_connection new_queue find insert
arrived-Quiet = record {
  nothing_called = refl;
  room_called = omega arith;
  resting = record {
    nothing_scheduled = refl;
    nothing_queued = refl;
    known = refl;
    room_there = omega arith;
    room_here = omega arith;
  };
}

line_pending : (arrived.objects 0).sock.pending ≡ requests_wire (first ∷ second ∷ []) ++ 9 ∷ []
unfolding create_connection new_connection
line_pending = refl

responses_fit : length (responses_wire (first ∷ second ∷ [])) ≤ (arrived.objects 0).sock.room
unfolding create_connection new_connection le_bytes response_wire
responses_fit = omega arith

serve_times-AllReplied_example :
    (st' : State) × (l' : Listener) × (serve_times 4 1 7 0 2 (arrived, listener)
      ≡ (ok tt, (st', l')))
    × AllReplied arrived 0 (first ∷ second ∷ []) (9 ∷ []) st'
serve_times-AllReplied_example =
    serve_times-AllReplied 4 1 7 0 (first ∷ second ∷ []) arrived listener (9 ∷ []) arrived-Quiet
      (first-IsServable, (second-IsServable, tt)) line_pending responses_fit
