-- ===== src/Client/Registry.antt =====
-- The class `Client` of include/Client.h and src/Client.cpp: its connections by endpoint. Connection
-- objects live on while a thread uses them, so that they stand in a heap of their own. The strings
-- `address:port` that are the keys are numbers here, one for each endpoint.
pub mod Entering
pub mod Calling
mod Tests
use p_rpc.Base.{
  ℕ, ◌+◌, ◌%◌, List, [], Bool, true, false, Option, none, some, ◌==◌, if◌then◌else◌, find, insert,
  erase, int_mod,
}
use p_rpc.Socket.{
  Result, ok, throws, crash, null_pointer, undefined_behaviour, Eff, Asio, continue, out_of_fuel,
}
use p_rpc.Writable.{Writable}
use p_rpc.Client.Call.{Call, new_call, wait}
use p_rpc.Client.Connection.{
  Connection, Pointer, null, wild, socket, new_connection, connect, add_call, send_call,
  cleanup_calls,
}

abbrev pub update {ℓ} : {A : Type ℓ} → (ℕ → A) → ℕ → A → ℕ → A
update f i a j = if i == j then a else f j

module _ ⦃net : Asio⦄ where
  open net use {Socket}

  pub record Client : Type 0 where
    pub connections : List (ℕ × ℕ)
    pub objects : ℕ → Connection
    pub last_connection_index : ℕ

  -- What the system does when a connection is made: the memory of `_sock`, the new socket, whether
  -- it could be connected, whether a thread could be started, and the address of a new object.
  pub record System : Type 0 where
    pub memory : Pointer
    pub new_sock : Socket
    pub connected : Bool
    pub started : Bool
    pub address : ℕ

  -- The part of `getConnection` that finds or makes the connection; its address comes first.
  unfoldable pub retrieve : System → ℕ → Option ℕ → Client → ℕ × Client
  retrieve sys ep none client = (
    sys.address,
    record client {
      connections = insert ep sys.address client.connections;
      objects =
          update client.objects sys.address
            (new_connection sys.memory ep client.last_connection_index);
      last_connection_index = (client.last_connection_index + 1) % int_mod;
    },
  )
  retrieve sys ep (some c) client = (c, client)

  -- `conn->connect(ep, call)`, whose result is not used, and `conn->addCall(call)`.
  unfoldable pub enter : System → Call → ℕ × Client → (ℕ × Call) × Client
  enter sys call (c, client) =
      let conn = (connect sys.new_sock sys.connected sys.started (client.objects c)).1 in
      let (numbered, conn') = add_call call conn in
      ((c, numbered), record client { objects = update client.objects c conn' })

  -- `getConnection`: the address of the connection, and the call with its id.
  unfoldable pub get_connection : System → ℕ → Call → Client → (ℕ × Call) × Client
  get_connection sys ep call client =
      enter sys call (retrieve sys ep (find ep client.connections) client)

  -- `removeConnection`
  unfoldable pub remove_connection : ℕ → Client → Client
  remove_connection ep client = record client { connections = erase ep client.connections }

  abbrev sent_on : ℕ → Client → Result (Unit {0}) × Connection → Result (Unit {0}) × Client
  sent_on c client (r, conn) = (r, record client { objects = update client.objects c conn })

  abbrev send_on : (ℕ × Call) × Client → Result (Unit {0}) × Client
  send_on ((c, call), client) = sent_on c client (send_call call (client.objects c))

  -- `call` up to the wait for its value.
  unfoldable pub start_call : System → ℕ → Writable → List ℕ → Eff Client (Unit {0})
  start_call sys ep param value_class client =
      send_on (get_connection sys ep (new_call param value_class) client)

  -- The object of the call with the id at the connection, and whether it is done.
  abbrev pub call_of : ℕ → ℕ → Client → Option Call
  call_of c id client = find id (client.objects c).calls

  abbrev pub call_done : Option Call → Bool
  call_done none = false
  call_done (some call) = call.done

  abbrev pub get_value : Option Call → Option Writable
  get_value none = none
  get_value (some call) = call.value

  abbrev pub returned : ℕ → ℕ → Bool × Client → Result (Option Writable) × Client
  returned c id (true, client) = (ok (get_value (call_of c id client)), client)
  returned c id (false, client) = (crash out_of_fuel, client)

  -- The end of `call`: its loop, which waits until the call is done, and the value. The rounds are
  -- those of the wait; `out_of_fuel` means that it waits still.
  unfoldable pub await : Bool → List (List (Client → Client)) → ℕ → ℕ → Eff Client (Option Writable)
  await should_stop rounds c id client = returned c id (
      if should_stop
      then (true, client)
      else wait (λ client'. call_done (call_of c id client')) rounds client)

  -- `call`; `none` is NULL, and `should_stop` is `_should_stop`, which nothing sets.
  unfoldable pub call :
      System
      → ℕ
      → Writable
      → List ℕ
      → Bool
      → List (List (Client → Client))
      → Eff Client (Option Writable)
  call sys ep param value_class should_stop rounds client =
      let ((c, numbered), _) = get_connection sys ep (new_call param value_class) client in
      continue (start_call sys ep param value_class client)
        (λ u. await should_stop rounds c numbered.id)

  -- What `close` does after `_should_close` was found set: the socket is closed and deleted, the
  -- client forgets the connection, and the calls are cleaned up.
  abbrev cleaned : ℕ → Connection → Client → Result (List (ℕ × Call)) → Result (Unit {0}) × Client
  cleaned c conn client (ok calls) =
      (ok tt, record client { objects = update client.objects c (record conn { calls = calls }) })
  cleaned c conn client (throws e) = (throws e, client)
  cleaned c conn client (crash e) = (crash e, client)

  unfoldable pub close_sock : ℕ → Pointer → Eff Client (Unit {0})
  close_sock c null client = (crash null_pointer, client)
  close_sock c wild client = (crash undefined_behaviour, client)
  close_sock c (socket s) client =
      let conn = record (client.objects c) { sock = wild } in
      cleaned c conn (remove_connection conn.endpoint client) (cleanup_calls conn.calls)

  -- `close`
  unfoldable pub close : ℕ → Eff Client (Unit {0})
  close c client =
      let closed = close_sock c (client.objects c).sock client in
      if (client.objects c).should_close then closed else (ok tt, client)
