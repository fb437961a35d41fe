-- ===== src/Server/Tests.antt =====
-- Requests and responses over the simulated socket.
use p_rpc.Base.{
  ◌+◌, ◌-◌, ◌≡◌, ◌≤◌, ◌<◌, refl, [], ◌∷◌, ◌++◌, arith, codes, length, some, le_bytes, drop, find,
  true,
}
use p_rpc.Socket.{ok}
use p_rpc.Socket.Simulated.{simulated, Stream}
use p_rpc.Writable.{method_writable, nil, get_class, size}
use p_rpc.Writable.Strings.{string_wire}
use p_rpc.IntWritable.Narrow.{int_wire}
use p_rpc.Method.Dispatch.{four_ints}
use p_rpc.MethodWritable.Wire.{wire, wire_params, depth_params, IsSendable, method, also, int, end}
use p_rpc.Client
use p_rpc.Server.Call.{Call, new_call, read_call}
use p_rpc.Server.Call.Request.{request_wire, requested, read_call-write_call}
use p_rpc.Server.Connection.{Connection, process_response}
use p_rpc.Server.Connection.Sending.{front, Rounds}
use p_rpc.Server.Connection.Rounds.{process_response-Rounds}
use p_rpc.Server.State.{State}
use p_rpc.Server.Responder.Delivery.{response_delivered}
use p_rpc.Server.Responder.Turn.{Serving, Served, respond_times, Kept}

abbrev sum_call : Client.Call.Call
sum_call =
    record (Client.Call.new_call
      (method_writable (codes "NameNode") (codes "create") (four_ints 1 2 3 4 nil))
      (codes "IntWritable")) { id = 5 }

sum_call-IsSendable :
    IsSendable (method_writable (codes "NameNode") (codes "create") (four_ints 1 2 3 4 nil))
unfolding size
sum_call-IsSendable =
    method (record { chars = omega arith; not_empty = omega arith; short = omega arith })
      (record { chars = omega arith; not_empty = omega arith; short = omega arith }) (omega arith)
      (also (int 1) (also (int 2) (also (int 3) (also (int 4) end))))

abbrev sender : Stream
sender = record { pending = []; sent = []; room = 1000 }

abbrev receiver : Stream
receiver = record {
  pending = request_wire sum_call.id sum_call.param ++ 9 ∷ [];
  sent = [];
  room = 0;
}

request_fits : length (request_wire sum_call.id sum_call.param) ≤ 1000
unfolding request_wire Client.Call.new_call wire wire_params size int_wire string_wire le_bytes
    get_class
request_fits = omega arith

sum_call_depth : depth_params (four_ints 1 2 3 4 nil) < 1
unfolding depth_params
sum_call_depth = omega arith

sum_call_param :
    sum_call.param ≡ method_writable (codes "NameNode") (codes "create") (four_ints 1 2 3 4 nil)
unfolding Client.Call.new_call
sum_call_param = refl

read_call-write_call_example :
    ((s' : Stream) × (Client.Call.write_call sum_call sender ≡ (ok true, s'))
      × (s'.sent ≡ [] ++ request_wire sum_call.id sum_call.param))
    × ((t' : Stream) × (read_call 1 (new_call (some 0), receiver) ≡ (
      ok true,
      (requested 0 sum_call.id (codes "NameNode") (codes "create") (four_ints 1 2 3 4 nil), t'),
    ))
        × (t'.pending ≡ 9 ∷ [])
        × (t'.sent ≡ []))
read_call-write_call_example =
    read_call-write_call sum_call 1 0 (four_ints 1 2 3 4 nil) sender receiver (9 ∷ [])
      sum_call_param sum_call-IsSendable (omega arith) sum_call_depth request_fits refl

-- A call with a value of five bytes, of which `write_some` takes three at a time.
abbrev answer : Call
answer = record (new_call (some 0)) { call_id = 5; str_val = 1 ∷ 2 ∷ 3 ∷ 4 ∷ 5 ∷ [] }

abbrev line : Connection
line = record {
  sock = sender;
  endpoint = 8;
  is_open = true;
  respond_queue = record {
    max_size = 100;
    queue = answer ∷ [];
    cond_is_empty = 0;
    cond_is_full = 0;
  };
  index = 0;
  last_contact = 0;
}

answer_pos : answer.pos ≡ 0
unfolding new_call
answer_pos = refl

answer_fits : length (front answer) + (length answer.str_val - answer.pos) ≤ 1000
unfolding le_bytes new_call
answer_fits = omega arith

process_response-Rounds_example : Rounds (process_response [] answer) answer (front answer) line
process_response-Rounds_example =
    process_response-Rounds answer line (omega arith) (omega (arith, answer_pos)) answer_fits

abbrev busy : State
busy = record {
  connections = (8, 0) ∷ [];
  objects = λ _. line;
  num_connections = 1;
  last_connection_index = 1;
  bq_call = record { max_size = 100; queue = []; cond_is_empty = 0; cond_is_full = 0 };
  bq_respond = record { max_size = 100; queue = 8 ∷ []; cond_is_empty = 0; cond_is_full = 0 };
}

busy-Serving : Serving busy 8 0 answer
unfolding find
busy-Serving = record {
  scheduled = refl;
  known = refl;
  named = refl;
  queued = refl;
  room_there = omega arith;
  room_here = omega arith;
  short = omega arith;
  started = omega (arith, answer_pos);
  stands = answer_fits;
}

response_delivered_example :
    (st' : State) × (respond_times 6 busy ≡ (ok tt, st'))
    × Served st' 0 ([] ++ (front answer ++ drop answer.pos answer.str_val))
    × Kept 0 busy st'
response_delivered_example =
    response_delivered 6 busy 8 0 answer busy-Serving (omega (arith, answer_pos))
