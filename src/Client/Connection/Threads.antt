-- ===== src/Client/Connection/Threads.antt =====
-- The threads of a client at one connection: those that call enter their calls under the lock of the
-- map and send them one at a time, and one receives the values. The moves come in any order.
pub mod Matching
pub mod Received
pub mod Runs
pub mod Sent
mod Tests
use p_rpc.Server.Call.Request.{request_wire}
use p_rpc.MethodWritable.Wire.{IsSendable}
use p_rpc.Writable.{Writable, int_writable}
use p_rpc.IntWritable.Narrow.{int_wire, narrow}
use p_rpc.Socket.Network.{Network}
use p_rpc.Base.{
  [], ◌∷◌, Option, List, ℕ, le_bytes, ◌≡◌, ◌++◌, none, false, some, find, if◌then◌else◌, true, ◌+◌,
  ◌<◌, ◌==◌, int_mod, codes, length, ◌≤◌, suc,
}
use p_rpc.Client.Call.{Call, new_call}
use p_rpc.Client.Connection.{Connection, socket, add_call, send_call, recv_respond, Pointer}
use p_rpc.Socket.{ok, Asio}

-- The response to a call whose value is a number.
pub record Response : Type 0 where
  pub id : ℕ
  pub value : ℕ

abbrev pub wire_of : Response → List ℕ
wire_of r = le_bytes 4 r.id ++ int_wire r.value

abbrev pub wires : List Response → List ℕ
wires [] = []
wires (r ∷ rs) = wire_of r ++ wires rs

-- The value in the last response with the id.
abbrev pub latest : ℕ → List Response → Option ℕ
latest j [] = none
latest j (r ∷ rs) = elim (latest j rs) [
  | some value ↦ some value
  | none ↦ if r.id == j then some r.value else none
]

-- The state of a call whose last value is known.
abbrev pub IsAnswered : Call → Option ℕ → Type 0
IsAnswered call none = (call.done ≡ false) × (call.value ≡ none)
IsAnswered call (some value) =
    (call.done ≡ true) × (call.value ≡ some (int_writable (some (narrow value))))

module _ ⦃net : Asio⦄ where
  open net use {Socket, pending, room}

  module _ (link : Network) where
    open link use {deliver}

    -- A call of a number is entered; one that was entered is sent, whole; a response to one that was
    -- entered comes in; or `recvRespond` receives one.
    pub data Move : Connection → Connection → Type 0 where
      adds :
          {conn : Connection} (param : Writable)
          → conn.last_call_index + 1 < int_mod
          → Move conn (add_call (new_call param (codes "IntWritable")) conn).1
      sends :
          {conn : Connection} {s : Socket} {call : Call} (id : ℕ)
          → conn.sock ≡ socket s
          → find id conn.calls ≡ some call
          → IsSendable call.param
          → length (request_wire call.id call.param) ≤ room s
          → Move conn (send_call call conn).1
      arrives :
          {conn : Connection} {s : Socket} {call : Call} (r : Response)
          → conn.sock ≡ socket s
          → find r.id conn.calls ≡ some call
          → Move conn (record conn { sock = socket (deliver (wire_of r) s) })
      receives :
          {conn : Connection} (fuel : ℕ)
          → (recv_respond (suc fuel) conn).0 ≡ ok tt
          → Move conn (recv_respond (suc fuel) conn).1

    pub data Moves : Connection → Connection → Type 0 where
      done : {conn : Connection} → Moves conn conn
      next : {u v w : Connection} → Move u v → Moves v w → Moves u w

    -- The responses that come in during a run.
    abbrev pub arrived_in : {u w : Connection} → Moves u w → List Response
    arrived_in done = []
    arrived_in (next (adds param more) moves) = arrived_in moves
    arrived_in (next (sends id e f h fits) moves) = arrived_in moves
    arrived_in (next (arrives r e f) moves) = r ∷ arrived_in moves
    arrived_in (next (receives fuel h) moves) = arrived_in moves

    -- The calls that are sent during a run.
    abbrev pub sent_in : {u w : Connection} → Moves u w → List Call
    sent_in done = []
    sent_in (next (adds param more) moves) = sent_in moves
    sent_in (next (sends {call = call} id e f h fits) moves) = call ∷ sent_in moves
    sent_in (next (arrives r e f) moves) = sent_in moves
    sent_in (next (receives fuel h) moves) = sent_in moves

  -- `received` are responses that were received and `rest` are those that have come in and are still
  -- to be read. Each call has the value in the last response to it that was received, and is done,
  -- or it has no value and is not done.
  pub record IsMatched (conn : Connection) (received rest : List Response) : Type 0 where
    pub sock : Socket
    pub connected : conn.sock ≡ Pointer.socket sock
    pub unread : pending sock ≡ wires rest
    pub values :
        (j : ℕ) (call : Call) → find j conn.calls ≡ some call → IsAnswered call (latest j received)
