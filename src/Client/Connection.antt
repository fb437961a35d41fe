-- ===== src/Client/Connection.antt =====
-- `Client::Connection` of include/Client.h and src/Client.cpp: a connection to one server, with the
-- calls that were made on it, and the loop of the thread that receives their values.
pub mod Receiving
pub mod Idle
pub mod Adding
pub mod Threads
use p_rpc.Base.{
  ℕ, zero, suc, ◌+◌, ◌%◌, List, [], ◌∷◌, Bool, true, false, Option, none, some, ltb, leb, ◌==◌,
  ◌||◌, not, if◌then◌else◌, length, le_value, find, insert, modify_at, int_mod,
}
use p_rpc.BlockQueue.{wait_for}
use p_rpc.Socket.{
  Result, ok, throws, crash, aborted, null_pointer, undefined_behaviour, Eff, pure, fail, ◌>>=◌,
  ◌>>◌, continue, handle, catch, Asio,
}
use p_rpc.Writable.{Writable}
use p_rpc.MethodWritable.{read_fields}
use p_rpc.Method.{get_new_instance}
use p_rpc.Client.Call.{Call, set_value, write_call}

abbrev pub max_wait_rep : ℕ
max_wait_rep = 5

module _ ⦃net : Asio⦄ where
  open net use {Socket, read}

  -- What `_sock` holds. No constructor sets it, so that it starts as NULL or as a wild pointer.
  pub data Pointer : Type 0 where
    null wild : Pointer
    socket : Socket → Pointer

  pub record Connection : Type 0 where
    pub sock : Pointer
    pub endpoint : ℕ
    pub recv_started : Bool
    pub calls : List (ℕ × Call)
    pub should_close : Bool
    pub last_call_index : ℕ
    pub index : ℕ

  -- The constructor, with the value that the memory of `_sock` happens to have.
  unfoldable pub new_connection : Pointer → ℕ → ℕ → Connection
  new_connection sock ep i = record {
    sock = sock;
    endpoint = ep;
    recv_started = false;
    calls = [];
    should_close = false;
    last_call_index = 0;
    index = i;
  }

  abbrev pub is_null : Pointer → Bool
  is_null null = true
  is_null wild = false
  is_null (socket s) = false

  abbrev pub start_receiver : Bool → Connection → Bool × Connection
  start_receiver started conn =
      if conn.recv_started
      then (true, conn)
      else (if started then (true, record conn { recv_started = true }) else (false, conn))

  -- `connect`: the new socket, whether it could be connected, and whether the thread could be
  -- started are up to the system.
  unfoldable pub connect : Socket → Bool → Bool → Connection → Bool × Connection
  connect new_sock connected started conn =
      if conn.should_close || not (is_null conn.sock)
      then (true, conn)
      else (if connected
          then start_receiver started (record conn { sock = socket new_sock })
          else (false, record conn { sock = socket new_sock }))

  -- `addCall`: the call gets the next id; it is returned beside the connection.
  unfoldable pub add_call : Call → Connection → Call × Connection
  add_call call conn =
      let numbered = record call { id = conn.last_call_index } in
      (
        numbered,
        record conn {
          calls = insert conn.last_call_index numbered conn.calls;
          last_call_index = (conn.last_call_index + 1) % int_mod;
        },
      )

  abbrev in_connection : {A : Type 0} → Connection → Result A × Socket → Result A × Connection
  in_connection conn (r, s) = (r, record conn { sock = socket s })

  abbrev pub through : {A : Type 0} → Pointer → Eff Socket A → Eff Connection A
  through null m = fail null_pointer
  through wild m = fail undefined_behaviour
  through (socket s) m = λ conn. in_connection conn (m s)

  -- A computation on the socket that `_sock` points to.
  abbrev pub on_sock : {A : Type 0} → Eff Socket A → Eff Connection A
  on_sock m conn = through conn.sock m conn

  -- `sendCall`; a failure that does not throw is only logged.
  unfoldable pub send_call : Call → Eff Connection (Unit {0})
  send_call call = on_sock (write_call call) >>= λ sent. pure tt

  abbrev pub kept_value : ℕ → Connection → Result (Unit {0}) × Call → Result (Unit {0}) × Connection
  kept_value id conn (r, c) = (r, record conn { calls = modify_at id (λ _. c) conn.calls })

  -- `curr_call->setValue(val)`; the object is the one in the map.
  abbrev pub keep_value : ℕ → Call → Writable → Eff Connection (Unit {0})
  keep_value id call val conn = kept_value id conn (set_value val call)

  -- The part of `recvRespond` after the call is found; an exception is logged with the id of the
  -- call.
  unfoldable pub receive_value : ℕ → ℕ → Call → Eff Connection (Unit {0})
  receive_value fuel id call =
      catch
        (on_sock (read_fields fuel (get_new_instance call.value_class)) >>= λ r.
          keep_value id call r.0)
        (pure tt)

  unfoldable pub receive_for : ℕ → ℕ → Option Call → Eff Connection (Unit {0})
  receive_for fuel id none = fail aborted
  receive_for fuel id (some call) = receive_value fuel id call

  unfoldable pub after_id : ℕ → List ℕ → Eff Connection (Unit {0})
  after_id fuel bytes =
      if leb (length bytes) 0
      then fail aborted
      else (λ conn. receive_for fuel (le_value bytes) (find (le_value bytes) conn.calls) conn)

  abbrev pub id_read : ℕ → Result (List ℕ) × Connection → Result (Unit {0}) × Connection
  id_read fuel (ok bytes, conn) = after_id fuel bytes conn
  id_read fuel (throws e, conn) = (crash null_pointer, conn)
  id_read fuel (crash e, conn) = (crash e, conn)

  -- `recvRespond`. If the id cannot be read, the handler of the exception reads the id of a call
  -- that is not there yet, through a null pointer.
  unfoldable pub recv_respond : ℕ → Eff Connection (Unit {0})
  recv_respond fuel conn = id_read fuel (on_sock (read 4) conn)

  unfoldable pub mark_closed : Connection → Connection
  mark_closed conn = if conn.should_close then conn else record conn { should_close = true }

  abbrev pub has_calls : Connection → Bool
  has_calls conn = ltb 0 (length conn.calls)

  -- `waitForWork`, with the rounds left and what the other threads do in each.
  unfoldable pub wait_for_work :
      ℕ → (ℕ → List (Connection → Connection)) → Bool → Connection → Bool × Connection
  wait_for_work zero others should_stop conn = (false, mark_closed conn)
  wait_for_work (suc rep) others should_stop conn =
      let (conn', got) = wait_for has_calls (others rep) conn in
      let next = wait_for_work rep others should_stop conn' in
      if got then (true, conn') else (if should_stop then (false, conn') else next)

  -- What the other threads do in each round of a `waitForWork`, and whether the client should stop.
  pub record Meanwhile : Type 0 where
    pub others : ℕ → List (Connection → Connection)
    pub should_stop : Bool

  abbrev wait_here : Meanwhile → Connection → Bool × Connection
  wait_here w conn = wait_for_work max_wait_rep w.others w.should_stop conn

  abbrev after_wait : Eff Connection Bool → Bool × Connection → Result Bool × Connection
  after_wait next (false, conn) = (ok true, conn)
  after_wait next (true, conn) = next conn

  -- The loop of `recvStart`, for as many turns as the list tells: true if it was left.
  unfoldable pub recv_start : ℕ → List Meanwhile → Eff Connection Bool
  recv_start fuel [] conn = (ok false, conn)
  recv_start fuel (w ∷ ws) conn =
      after_wait (recv_respond fuel >>= λ _. recv_start fuel ws) (wait_here w conn)

  -- `cleanupCalls`: the iterator is used after its entry was erased.
  unfoldable pub cleanup_calls : List (ℕ × Call) → Result (List (ℕ × Call))
  cleanup_calls [] = ok []
  cleanup_calls (entry ∷ m) = crash undefined_behaviour
