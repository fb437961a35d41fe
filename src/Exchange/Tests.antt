-- ===== src/Exchange/Tests.antt =====
-- A program that asks a server for the sum 12 + 23 + 34 + 45, as src/Test2.cpp does, over the
-- simulated socket.
use p_rpc.Writable.Strings.{string_wire}
use p_rpc.IntWritable.Narrow.{int_wire}
use p_rpc.Server.Call.Request.{request_wire}
use p_rpc.Exchange.Answering.{create_of}
use p_rpc.Client.Registry.Entering.{IsNumbered}
use p_rpc.Server.Cycle.{Quiet}
use p_rpc.Writable.{int_writable}
use p_rpc.Socket.{ok}
use p_rpc.BlockQueue.{new_queue}
use p_rpc.Base.{
  ◌++◌, [], ℕ, some, ◌≡◌, true, refl, false, ◌+◌, ◌%◌, int_mod, arith, find, insert, codes,
  le_bytes,
}
use p_rpc.Client.Connection.{null, connect, add_call, socket}
use p_rpc.Socket.Simulated.{simulated, Stream}
use p_rpc.Socket.Network.{Network}
use p_rpc.Exchange.Creating.{create-sum, client, setting}
use p_rpc.Exchange.Asking.{CanAsk}
use p_rpc.Client.Registry.{System, Client}
use p_rpc.Client
use p_rpc.Server
use p_rpc.MethodWritable.Wire.{wire, wire_params}
use p_rpc.Writable.{size, get_class}
use p_rpc.Client.Registry.{get_connection, retrieve, enter}
use p_rpc.Server.State.{State, new_state}
use p_rpc.Server.Listener.{Listener, create_connection}
use p_rpc.Rpc.{DataNodeProtocol, ClientCache, create, new_client, get_client}

abbrev cable : Network
cable = record {
  deliver = λ bs s. record s { pending = s.pending ++ bs };
  comes_in = λ bs s. refl;
  sends_nothing = λ bs s. refl;
  stands_as_long = λ bs s. refl;
}

abbrev line : Stream
line = record { pending = []; sent = []; room = 1000 }

abbrev system : System
system = record { memory = null; new_sock = line; connected = true; started = true; address = 3 }

abbrev server : State
server = create_connection 8 0 line 5 (new_state (λ _. Server.Connection.new_connection line 0 0 0))

abbrev listener : Listener
listener = record {
  last_reader_index = 0;
  readers = λ _. new_queue 10;
  watched = [];
  accepting = true;
  should_stop = false;
}

abbrev blank : ℕ → Client.Connection.Connection
blank _ = Client.Connection.new_connection null 0 0

abbrev no_clients : ClientCache
no_clients = record { clients = []; objects = λ _. new_client blank }

abbrev protocol : DataNodeProtocol
protocol = record { endpoint = 8 }

server-Quiet : Quiet server 0
unfolding create_connection new_state Server.Connection.new_connection new_queue find insert
server-Quiet = record {
  nothing_called = refl;
  room_called = omega arith;
  resting = record {
    nothing_scheduled = refl;
    nothing_queued = refl;
    known = refl;
    room_there = omega arith;
    room_here = omega arith;
  };
}

abbrev first_client : Client
first_client =
    client cable system 0 server listener line 6 7 1 blank protocol 12 23 34 45 no_clients

first_client-IsNumbered : (c : ℕ) → IsNumbered (first_client.objects c)
unfolding get_client new_client Client.Connection.new_connection find insert
first_client-IsNumbered c = record { below = tt; more = omega arith }

first_connected :
    ((get_connection system 8
        (Client.Call.new_call (create_of 12 23 34 45) (codes "IntWritable"))
        first_client).1.objects
      3).sock
    ≡ socket line
unfolding get_client new_client Client.Connection.new_connection get_connection retrieve enter
    connect add_call find insert
first_connected = refl

can : CanAsk cable system 8 0 first_client server listener line 12 23 34 45
unfolding get_client new_client Client.Connection.new_connection get_connection retrieve enter
    connect add_call find insert Client.Call.new_call create_connection new_state
    Server.Connection.new_connection request_wire wire wire_params size le_bytes int_wire
    string_wire get_class
can = record {
  numbered = first_client-IsNumbered;
  connected = first_connected;
  stands = omega arith;
  nothing_back = refl;
  nothing_before = refl;
  quiet = server-Quiet;
  stands_there = omega arith;
}

create-sum_example :
    (cache : ClientCache) × (create 1 blank
        (setting cable system 0 server listener line 6 7 1 blank protocol 12 23 34 45 no_clients)
        protocol
        (some 12)
        (some 23)
        (some 34)
        (some 45)
        no_clients
      ≡ (ok (some (int_writable (some ((12 + 23 + 34 + 45) % int_mod)))), cache))
create-sum_example =
    create-sum cable system 0 server listener line 6 7 1 blank protocol 12 23 34 45 no_clients can
      (omega arith) (omega arith) (omega arith) (omega arith) (omega arith) (omega arith)
