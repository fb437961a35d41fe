-- ===== src/Exchange/Threads/Tests.antt =====
-- A call of a client whose request is read, executed and answered by the threads of a server, over
-- the simulated socket.
use p_rpc.Base.{
  [], ◌++◌, ◌≡◌, ◌≤◌, refl, sym, ap, ◌∙◌, some, true, false, arith, codes, find, insert, le_bytes,
  length, append-nil,
}
use p_rpc.Client
use p_rpc.Client.Call.{new_call}
use p_rpc.Client.Connection.{Connection, socket, add_call, send_call, recv_respond}
use p_rpc.Client.Connection.Receiving.{answered, recv_respond-Answers, Answers}
use p_rpc.Client.Connection.Threads.{
  Response, Moves, done, next, adds, sends, arrives, receives, wire_of,
}
use p_rpc.Client.Connection.Threads.Matching.{send_call-runs}
use p_rpc.Exchange.Frames.{served_frame}
use p_rpc.Exchange.Threads.{IsMethod, IsServed}
use p_rpc.Exchange.Threads.Values.{IsLinked, calls-IsServed}
use p_rpc.IntWritable.Narrow.{int_wire}
use p_rpc.Server.Call.Request.{request_wire}
use p_rpc.Server.Handler.Answer.{served_sum}
use p_rpc.Server.Service.Sample.{
  turns, memory, listener, comes_first, arrived-IsKnown, come_world-HoldsNone, turns-AllWhole, call,
  method, method-IsSendable, numbers,
}
use p_rpc.MethodWritable.Wire.{wire}
use p_rpc.Writable.Strings.{string_wire}
use p_rpc.Writable.{get_class}
use p_rpc.Socket.{ok, Result}
use p_rpc.Socket.Network.{Network}
use p_rpc.Socket.Simulated.{eager, Stream}

abbrev cable : Network
cable = record {
  deliver = λ bs s. record s { pending = s.pending ++ bs };
  comes_in = λ bs s. refl;
  sends_nothing = λ bs s. refl;
  stands_as_long = λ bs s. refl;
}

abbrev client_line : Stream
client_line = record { pending = []; sent = []; room = 200 }

-- The client has made five calls before, which are not in the map any more.
abbrev connected : Connection
connected = record {
  sock = socket client_line;
  endpoint = 8;
  recv_started = true;
  calls = [];
  should_close = false;
  last_call_index = 5;
  index = 0;
}

abbrev entered : Client.Call.Call
entered = record (new_call method (codes "IntWritable")) { id = 5 }

abbrev with_call : Connection
with_call = (add_call (new_call method (codes "IntWritable")) connected).1

fits : length (request_wire 5 method) ≤ 200
unfolding request_wire le_bytes wire string_wire get_class int_wire
fits = omega arith

entered_found : find 5 with_call.calls ≡ some entered
unfolding add_call new_call insert find
entered_found = refl

entered_sock : with_call.sock ≡ socket client_line
unfolding add_call
entered_sock = refl

abbrev after_send : Connection
after_send = (send_call entered with_call).1

runs :
    (s : Stream) × (send_call entered with_call ≡ (ok tt, record with_call { sock = socket s }))
    × (s.pending ≡ [])
unfolding new_call
runs = send_call-runs with_call client_line entered entered_sock method-IsSendable fits

abbrev sent_sock : Stream
sent_sock = runs.0

after_send_sock : after_send.sock ≡ socket sent_sock
after_send_sock = ap (λ (r : Result (Unit {0}) × Connection). r.1.sock) (runs.1)

after_send_found : find 5 after_send.calls ≡ some entered
after_send_found =
    ap (λ (r : Result (Unit {0}) × Connection). find 5 r.1.calls) (runs.1) ∙ entered_found

abbrev response : Response
response = record { id = 5; value = served_sum 1 2 3 4 }

abbrev response_in : Connection
response_in = record after_send {
  sock = socket (record sent_sock { pending = sent_sock.pending ++ wire_of response });
}

received :
    (conn' : Connection) × (recv_respond 1 response_in ≡ (ok tt, conn'))
    × Answers response_in
        (record sent_sock { pending = sent_sock.pending ++ wire_of response })
        5
        (served_sum 1 2 3 4)
        entered
        []
        conn'
unfolding new_call
received =
    recv_respond-Answers 0 response_in _ 5 (served_sum 1 2 3 4) entered [] refl (omega arith)
      after_send_found refl
      (ap (λ x. x ++ wire_of response) (runs.2)
        ∙ ap (◌++◌ (le_bytes 4 5)) (sym (append-nil (int_wire (served_sum 1 2 3 4)))))

abbrev value_in : Connection
value_in = (recv_respond 1 response_in).1

received_ok : (recv_respond 1 response_in).0 ≡ ok tt
received_ok = ap (λ (r : Result (Unit {0}) × Connection). r.0) (received.1)

value_found : find 5 value_in.calls ≡ some (answered (served_sum 1 2 3 4) entered)
value_found =
    ap (λ (r : Result (Unit {0}) × Connection). find 5 r.1.calls) (received.1) ∙ received.2.found 5

moves : Moves cable connected value_in
unfolding new_call
moves = next (adds method (omega arith)) (
    next (sends 5 entered_sock entered_found method-IsSendable fits) (
      next (arrives response after_send_sock after_send_found)
        (next (receives 0 received_ok) done)))

are_methods : (IsMethod entered.param) × Unit {0}
unfolding new_call
are_methods = (
  record {
    class_name = codes "NameNode";
    method_name = codes "create";
    params = numbers;
    same = refl;
  },
  tt,
)

linked : IsLinked cable 0 turns moves
unfolding turns moves new_call
linked = record {
  to_read = [];
  up = append-nil (request_wire 5 method ++ []);
  to_deliver = [];
  down =
      append-nil (wire_of response ++ [])
      ∙ ap (λ x. x ++ []) (sym (served_frame call (served_sum 1 2 3 4)));
}

calls-IsServed_example : ∥ IsServed (answered (served_sum 1 2 3 4) entered) ∥₁
unfolding moves
calls-IsServed_example =
    calls-IsServed cable memory listener 2 0 client_line (answered (served_sum 1 2 3 4) entered) 5
      comes_first turns arrived-IsKnown come_world-HoldsNone turns-AllWhole moves refl refl refl
      (omega arith) are_methods linked value_found refl
