-- ===== src/Client/Registry/Tests.antt =====
-- Two calls to one endpoint, over the simulated socket.
use p_rpc.Client.Registry.Calling.{StillWaiting, own_call, call_returns}
use p_rpc.Socket.{ok, Result}
use p_rpc.MethodWritable.{write_fields}
use p_rpc.Base.{
  ℕ, ◌≡◌, refl, [], true, arith, codes, find, insert, some, modify_at, le_bytes, ◌∷◌, false, ap,
}
use p_rpc.Socket.Simulated.{simulated, write_stream}
use p_rpc.Writable.{writable, int_writable}
use p_rpc.Client.Call.{Call, new_call, write_call}
use p_rpc.Client.Connection.{null, new_connection, connect, add_call, send_call}
use p_rpc.Client.Registry.{
  Client, System, get_connection, retrieve, enter, start_call, update, call_done, call, get_value,
}
use p_rpc.Client.Registry.Entering.{IsNumbered, Entered, get_connection-Entered}
use p_rpc.IntWritable.{write_value}

abbrev system : System
system = record {
  memory = null;
  new_sock = record { pending = []; sent = []; room = 100 };
  connected = true;
  started = true;
  address = 3;
}

abbrev start : Client
start = record {
  connections = [];
  objects = λ _. new_connection null 0 0;
  last_connection_index = 0;
}

abbrev some_call : Call
some_call = new_call writable (codes "IntWritable")

-- The second call to the endpoint 8 gets the id 1 on the same connection.
second_call :
    (get_connection system 8 some_call (get_connection system 8 some_call start).1).0.1.id ≡ 1
unfolding get_connection retrieve enter find insert new_connection connect add_call
second_call = refl

-- A call waits at the connection 3 of the endpoint 8 already.
abbrev waiting : Client
waiting = record {
  connections = (8, 3) ∷ [];
  objects =
      λ _. record (new_connection null 8 0) { calls = (0, some_call) ∷ []; last_call_index = 1 };
  last_connection_index = 1;
}

waiting-IsNumbered : (c : ℕ) → IsNumbered (waiting.objects c)
waiting-IsNumbered c = record { below = (omega arith, tt); more = omega arith }

get_connection-Entered_example :
    Entered system waiting 8
      (get_connection system 8 some_call waiting).0.0
      some_call
      (get_connection system 8 some_call waiting).0.1
      (get_connection system 8 some_call waiting).1
get_connection-Entered_example =
    get_connection-Entered system 8 some_call waiting waiting-IsNumbered

abbrev begun : Client
begun = (start_call system 8 (int_writable (some 7)) (codes "IntWritable") start).1

begun_ok : (start_call system 8 (int_writable (some 7)) (codes "IntWritable") start).0 ≡ ok tt
unfolding start_call get_connection retrieve enter find insert new_connection connect add_call
    send_call write_call write_fields write_value le_bytes write_stream new_call
begun_ok = refl

-- The receiver thread sets the value of the call 0 of the connection 3.
abbrev receive : Client → Client
receive client = record client {
  objects = update client.objects 3 (record (client.objects 3) {
    calls =
        modify_at 0 (λ c. record c { value = some (int_writable (some 5)); done = true })
          (client.objects 3).calls;
  });
}

received_done :
    ¬ StillWaiting
      (λ x. call_done (
        own_call system 8
          (int_writable (some 7))
          (codes "IntWritable")
          ((receive ∷ []) ∷ [])
          start
          begun
          x))
      ((receive ∷ []) ∷ [])
      begun
unfolding start_call get_connection retrieve enter find insert new_connection connect add_call
    send_call write_call write_fields write_value le_bytes write_stream new_call modify_at
received_done h = absurd (let failed = h.0.1 in cc failed)

call_returns_example :
    (client : Client) × (call system 8
        (int_writable (some 7))
        (codes "IntWritable")
        false
        ((receive ∷ []) ∷ [])
        start
      ≡ (
        ok (
            get_value (
              own_call system 8
                (int_writable (some 7))
                (codes "IntWritable")
                ((receive ∷ []) ∷ [])
                start
                begun
                client)),
        client,
      ))
    × (call_done (
          own_call system 8
            (int_writable (some 7))
            (codes "IntWritable")
            ((receive ∷ []) ∷ [])
            start
            begun
            client)
        ≡ true)
call_returns_example =
    call_returns system 8 (int_writable (some 7)) (codes "IntWritable") ((receive ∷ []) ∷ []) start
      begun (ap (λ (r : Result (Unit {0})). (r, begun)) begun_ok) received_done
