-- ===== src/Client/Connection/Threads/Tests.antt =====
-- Two calls whose values come in the other order, over the simulated socket.
use p_rpc.IntWritable.Narrow.{int_wire}
use p_rpc.Client.Connection.Threads.Runs.{Moves-IsMatched}
use p_rpc.Client.Connection.Receiving.{recv_respond-Answers}
use p_rpc.Writable.{Writable, method_writable, nil}
use p_rpc.Socket.Network.{Network}
use p_rpc.Base.{
  [], ◌∷◌, ◌++◌, insert, true, codes, false, refl, find, arith, List, ◌≡◌, append_assoc, le_bytes,
  ap,
}
use p_rpc.Client.Call.{new_call}
use p_rpc.Client.Connection.{Connection, socket, add_call, recv_respond}
use p_rpc.Socket.{ok, Result}
use p_rpc.Socket.Simulated.{simulated, Stream}
use p_rpc.Client.Connection.Threads.{
  Response, Moves, done, next, adds, arrives, receives, wire_of, IsMatched,
}

abbrev cable : Network
cable = record {
  deliver = λ bs s. record s { pending = s.pending ++ bs };
  comes_in = λ bs s. refl;
  sends_nothing = λ bs s. refl;
  stands_as_long = λ bs s. refl;
}

abbrev line : Stream
line = record { pending = []; sent = []; room = 100 }

abbrev connected : Connection
connected = record {
  sock = socket line;
  endpoint = 8;
  recv_started = true;
  calls = [];
  should_close = false;
  last_call_index = 0;
  index = 0;
}

abbrev param : Writable
param = method_writable (codes "FSNameSystem") (codes "create") nil

abbrev two_calls : Connection
two_calls =
    (add_call (new_call param (codes "IntWritable"))
      (add_call (new_call param (codes "IntWritable")) connected).1).1

abbrev first : Response
first = record { id = 1; value = 32 }

abbrev second : Response
second = record { id = 0; value = 7 }

abbrev both_in : Connection
both_in = record two_calls {
  sock = socket (record line { pending = wire_of first ++ wire_of second });
}

abbrev one_received : Connection
one_received = (recv_respond 1 both_in).1

received_ok : (recv_respond 1 both_in).0 ≡ ok tt
unfolding add_call new_call insert find
received_ok =
    let (conn', e, _) =
      recv_respond-Answers 0 both_in (record line { pending = wire_of first ++ wire_of second }) 1
        32 (record (new_call param (codes "IntWritable")) { id = 1 }) (wire_of second) refl
        (omega arith) refl refl (append_assoc (le_bytes 4 1) (int_wire 32) (wire_of second)) in
    ap (λ (p : Result (Unit {0}) × Connection). p.0) e

abbrev moves : Moves cable connected one_received
unfolding add_call new_call insert find
moves = next (adds param (omega arith)) (
    next (adds param (omega arith)) (
      next (arrives first refl refl)
        (next (arrives second refl refl) (next (receives 0 received_ok) done))))

Moves-IsMatched_example :
    (received : List Response) × (rest : List Response) × (received ++ rest ≡ first ∷ second ∷ [])
    × IsMatched one_received received rest
unfolding add_call new_call insert find
Moves-IsMatched_example = Moves-IsMatched cable line moves refl refl refl (omega arith)
