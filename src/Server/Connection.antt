-- ===== src/Server/Connection.antt =====
-- include/Connection.h and src/Connection.cpp: a connection on the server, and how a part of a
-- response is sent. A connection is locked while it sends (`_mutex`), so that this is one step.
pub mod Sending
pub mod Rounds
pub mod Queueing
use p_rpc.Base.{
  ℕ, ◌+◌, ◌-◌, ◌%◌, ◌<◌, List, [], ◌∷◌, Bool, true, false, Option, none, some, ltb, ◌==◌,
  if◌then◌else◌, length, drop, le_bytes, int_mod, size_mod, minus_one,
}
use p_rpc.BlockQueue.{BlockQueue, new_queue, try_push}
use p_rpc.Socket.{Result, ok, Eff, pure, ◌>>=◌, ◌>>◌, continue, catch, Asio}
use p_rpc.Server.Call.{Call, set_pos}

abbrev pub max_respond_size : ℕ
max_respond_size = 100

abbrev pub max_idle_duration : ℕ
max_idle_duration = 500

module _ ⦃net : Asio⦄ where
  open net use {Socket, write, write_some}

  -- `is_open` is false once `close` has closed the socket. `endpoint` is the key in `_connections`.
  pub record Connection : Type 0 where
    pub sock : Socket
    pub endpoint : ℕ
    pub is_open : Bool
    pub respond_queue : BlockQueue Call
    pub index : ℕ
    pub last_contact : ℕ

  -- The constructor, at the time `now`.
  unfoldable pub new_connection : Socket → ℕ → ℕ → ℕ → Connection
  new_connection sock ep i now = record {
    sock = sock;
    endpoint = ep;
    is_open = true;
    respond_queue = new_queue max_respond_size;
    index = i;
    last_contact = now;
  }

  unfoldable pub set_last_contact : ℕ → Connection → Connection
  set_last_contact now conn = record conn { last_contact = now }

  -- `timeOut`: a clock that was set back counts as no time.
  unfoldable pub time_out : ℕ → Connection → Bool
  time_out now conn = ltb max_idle_duration (now - conn.last_contact)

  unfoldable pub close : Connection → Connection
  close conn = record conn { is_open = false }

  abbrev pub in_connection : {A : Type 0} → Connection → Result A × Socket → Result A × Connection
  in_connection conn (r, s) = (r, record conn { sock = s })

  abbrev pub on_sock : {A : Type 0} → Eff Socket A → Eff Connection A
  on_sock m conn = in_connection conn (m conn.sock)

  abbrev pub requeued : Connection → BlockQueue Call × Bool → Result ℕ × Connection
  requeued conn (q, pushed) =
      (ok (if pushed then 1 else minus_one), record conn { respond_queue = q })

  -- What is left of the call goes back to the end of the queue.
  unfoldable pub add_back : List (BlockQueue Call → BlockQueue Call) → Call → Eff Connection ℕ
  add_back others call conn = requeued conn (try_push others conn.respond_queue call true)

  unfoldable pub write_value :
      List (BlockQueue Call → BlockQueue Call) → Call → ℕ → Eff Connection ℕ
  write_value others call left = do
    wrote ← on_sock (write_some (drop call.pos call.str_val))
    if ltb wrote left then add_back others (set_pos ((wrote + call.pos) % int_mod) call) else pure 0

  unfoldable pub write_header : Call → ℕ → Eff Connection ℕ
  write_header call left = do
    on_sock (write (le_bytes 4 call.call_id))
    on_sock (write (le_bytes 8 left))

  -- The body of the `try` of `processResponse`, after the lengths are computed.
  unfoldable pub process_body :
      List (BlockQueue Call → BlockQueue Call) → Call → ℕ → Eff Connection ℕ
  process_body others call left =
      if call.pos == 0
      then write_header call left >> write_value others call left
      else (if ltb (length call.str_val) call.pos
          then pure minus_one
          else write_value others call left)

  -- `processResponse`: 0 if the whole value is sent, 1 if the call was queued again, -1 on failure.
  -- `left` is a `size_t`.
  unfoldable pub process_response :
      List (BlockQueue Call → BlockQueue Call) → Call → Eff Connection ℕ
  process_response others call =
      catch (process_body others call ((length call.str_val + size_mod - call.pos) % size_mod))
        (pure minus_one)
