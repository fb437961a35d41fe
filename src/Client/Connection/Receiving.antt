-- ===== src/Client/Connection/Receiving.antt =====
-- What `recvRespond` does with a response, and with a stream that has ended.
use p_rpc.MethodWritable.RoundTrip.{Receives-int}
use p_rpc.Base.{
  ℕ, suc, ◌<◌, ◌≡◌, refl, ◌∙◌, List, ◌++◌, true, Option, some, find, find-modify_at, le_bytes,
  length-le_bytes, le_value-le_bytes, int_mod, codes, modify_at, ◌==◌, if◌then◌else◌, bytes_eq,
  arith,
}
use p_rpc.Socket.{Asio, ok}
use p_rpc.Socket.Link.{Receives-read, Receives}
use p_rpc.Writable.{int_writable, print_to_string}
use p_rpc.MethodWritable.{read_fields}
use p_rpc.IntWritable.Narrow.{narrow, int_wire}
use p_rpc.Method.{get_new_instance}
use p_rpc.Client.Call.{Call, set_value}
use p_rpc.Client.Connection.{Connection, socket, recv_respond, after_id, receive_for, receive_value}

-- A call whose value, a number, has come: its thread is told.
abbrev pub answered : ℕ → Call → Call
answered value call = record call { value = some (int_writable (some (narrow value))); done = true }

module _ ⦃net : Asio⦄ where
  open net use {Socket, pending, sent}

  Receives-instance :
      (fuel : ℕ) (class : List ℕ) (value : ℕ)
      → class ≡ codes "IntWritable"
      → Receives
          (read_fields (suc fuel) (get_new_instance class))
          (int_wire value)
          (int_writable (some (narrow value)), 4)
  unfolding get_new_instance bytes_eq
  Receives-instance fuel class value c = rw c (Receives-int fuel Option.none value)

  -- The connection `conn'` is `conn` after the value of the call `id` came: its call is answered and
  -- no other, the bytes after the response are left, and nothing is sent.
  pub record Answers (conn : Connection) (s : Socket) (id value : ℕ) (call : Call) (rest : List ℕ)
      (conn' : Connection) : Type 0 where
    pub found :
        (j : ℕ)
        → find j conn'.calls ≡ (if id == j then some (answered value call) else find j conn.calls)
    pub sock' : Socket
    pub taken : pending sock' ≡ rest
    pub silent : sent sock' ≡ sent s
    pub kept : conn' ≡ record conn { sock = socket sock'; calls = conn'.calls }

  answered_calls :
      (id j value : ℕ) (call : Call) (m : List (ℕ × Call))
      → find id m ≡ some call
      → find j (modify_at id (λ _. answered value call) m)
        ≡ (if id == j then some (answered value call) else find j m)
  answered_calls id j value call m f =
      ground (arith, find-modify_at id j (λ _. answered value call) m)

  after_id-runs :
      (fuel : ℕ) (conn : Connection) (s s' : Socket) (id value : ℕ) (call : Call)
      → conn.sock ≡ socket s
      → find id conn.calls ≡ some call
      → read_fields (suc fuel) (get_new_instance call.value_class) s
        ≡ (ok (int_writable (some (narrow value)), 4), s')
      → id < int_mod
      → after_id (suc fuel) (le_bytes 4 id) conn ≡ (
        ok tt,
        record conn {
          sock = socket s';
          calls = modify_at id (λ _. answered value call) conn.calls;
        },
      )
  unfolding after_id receive_for receive_value set_value print_to_string
  after_id-runs fuel conn s s' id value call e f r k =
      rw (length-le_bytes 4 id, le_value-le_bytes 4 id k, f, e) (rw r refl)

  -- Let the next bytes of a connected connection be the id of one of its calls, within an `int`, and a
  -- number as the server writes it, and let the call expect a number. Then `recvRespond` ends, the
  -- call has the narrowed number for its value and its thread is told, no other call changes, exactly
  -- these bytes are taken, and nothing is sent. One unit of fuel is enough.
  pub recv_respond-Answers :
      (fuel : ℕ) (conn : Connection) (s : Socket) (id value : ℕ) (call : Call) (rest : List ℕ)
      → conn.sock ≡ socket s
      → id < int_mod
      → find id conn.calls ≡ some call
      → call.value_class ≡ codes "IntWritable"
      → pending s ≡ le_bytes 4 id ++ (int_wire value ++ rest)
      → (conn' : Connection) × (recv_respond (suc fuel) conn ≡ (ok tt, conn'))
        × Answers conn s id value call rest conn'
  unfolding recv_respond
  recv_respond-Answers fuel conn s id value call rest e k f c p =
      let (s', e1, p1, t1, r1) =
        (Receives-read 4 _ (length-le_bytes 4 id)).run s (int_wire value ++ rest) p in
      let (s'', e2, p2, t2, r2) =
        (Receives-instance fuel call.value_class value c).run s' rest p1 in
      (
        record conn {
          sock = socket s'';
          calls = modify_at id (λ _. answered value call) conn.calls;
        },
        rw (e, e1)
            (after_id-runs fuel (record conn { sock = socket s' }) s' s'' id value call refl f e2
              k),
        record {
          found = λ j. answered_calls id j value call conn.calls f;
          sock' = s'';
          taken = p2;
          silent = t2 ∙ t1;
          kept = refl;
        },
      )
