-- ===== src/Server/Connection/Rounds.antt =====
-- A whole round of `processResponse`: the header, if it is the first, and the next bytes.
use p_rpc.Base.{
  ℕ, ◌+◌, ◌-◌, ◌≤◌, ◌<◌, ◌≡◌, ◌^◌, refl, inl, inr, List, [], ◌++◌, arith, length, take, drop,
  le_bytes, length-le_bytes, append_assoc, length-append, ap, ◌∙◌, minus_one, Bool-cases, ◌==◌, ◌%◌,
  size_mod, ==_iff, le→ltb,
}
use p_rpc.Socket.{Asio, Eff, ok, continue, handle, catch, ◌>>◌, pure}
use p_rpc.Server.Call.{Call}
use p_rpc.Server.Connection.{Connection, write_header, process_response, process_body}
use p_rpc.Server.Connection.Sending.{header, front, Rounds, write_value-Rounds, response_wire}

module _ ⦃net : Asio⦄ where
  open net use {Socket, pending, sent, room, write, write_all, write_some, write_part}

  pub length-header : (call : Call) → length (header call) ≡ 12
  length-header call = omega (
    arith,
    length-append (le_bytes 4 call.call_id) (le_bytes 8 (length call.str_val)),
    length-le_bytes 4 call.call_id,
    length-le_bytes 8 (length call.str_val),
  )

  pub length-response : (call : Call) → length (response_wire call) ≡ 12 + length call.str_val
  unfolding response_wire
  length-response call = omega (arith, length-append (header call) call.str_val, length-header call)

  Rounds-front :
      (m : Eff Connection ℕ) (k : Eff Connection ℕ) (call : Call) (bs : List ℕ) (conn : Connection)
      (a : ℕ) (s' : Socket)
      → m conn ≡ (ok a, record conn { sock = s' })
      → sent s' ≡ sent conn.sock ++ bs
      → pending s' ≡ pending conn.sock
      → room s' + length bs ≡ room conn.sock
      → Rounds k call [] (record conn { sock = s' })
      → Rounds (m >> k) call bs conn
  Rounds-front m k call bs conn a s' e t p r (code, conn', q, sends) = (
    code,
    conn',
    rw (e, continue) q,
    record {
      k = sends.k;
      fits = sends.fits;
      moves = sends.moves;
      bytes =
          sends.bytes
          ∙ ap (λ x. x ++ take sends.k (drop call.pos call.str_val)) t
          ∙ append_assoc (sent conn.sock) bs (take sends.k (drop call.pos call.str_val));
      room_left = omega (arith, sends.room_left);
      kept = sends.kept;
      unread = sends.unread ∙ p;
      ends = sends.ends;
    },
  )

  write_header-runs :
      (call : Call) (left : ℕ) (conn : Connection)
      → left ≡ length call.str_val
      → 12 ≤ room conn.sock
      → (a : ℕ) × (s' : Socket) × (write_header call left conn ≡ (ok a, record conn { sock = s' }))
        × (sent s' ≡ sent conn.sock ++ header call)
        × (pending s' ≡ pending conn.sock)
        × (room s' + 12 ≡ room conn.sock)
  unfolding write_header
  write_header-runs call left conn whole h =
      let (s', e, t, p, r) =
        write_all (le_bytes 4 call.call_id) conn.sock
          (omega (arith, length-le_bytes 4 call.call_id)) in
      let (s'', e', t', p', r') =
        write_all (le_bytes 8 left) s'
          (omega (arith, length-le_bytes 4 call.call_id, length-le_bytes 8 left)) in
      (
        length (le_bytes 8 left),
        s'',
        rw (e, continue) (rw (e', continue) refl),
        t'
            ∙ ap (λ x. x ++ le_bytes 8 left) t
            ∙ append_assoc (sent conn.sock) (le_bytes 4 call.call_id) (le_bytes 8 left)
            ∙ ap (λ n. sent conn.sock ++ (le_bytes 4 call.call_id ++ le_bytes 8 n)) whole,
        p' ∙ p,
        omega (arith, length-le_bytes 4 call.call_id, length-le_bytes 8 left),
      )

  catch-Rounds :
      (m : Eff Connection ℕ) (call : Call) (bs : List ℕ) (conn : Connection)
      → Rounds m call bs conn
      → Rounds (catch m (pure minus_one)) call bs conn
  catch-Rounds m call bs conn (code, conn', q, sends) = (code, conn', rw (q, handle) refl, sends)

  process_body-Rounds :
      (call : Call) (conn : Connection)
      → length call.str_val < 2 ^ 31
      → call.pos ≤ length call.str_val
      → length (front call) + (length call.str_val - call.pos) ≤ room conn.sock
      → Rounds (process_body [] call (length call.str_val - call.pos)) call (front call) conn
  unfolding process_body
  process_body-Rounds call conn short started h = elim (Bool-cases (call.pos == 0)) [
    | inl first ↦
        let zero_pos : call.pos ≡ 0 = (==_iff _ _).0 first in
        let needed : 12 + length call.str_val ≤ room conn.sock =
          omega (arith, rw first at h, length-header call) in
        let (a, s', e, t, p, r) =
          write_header-runs call (length call.str_val - call.pos) conn (omega arith)
            (omega arith) in
        rw first (
          Rounds-front (write_header call (length call.str_val - call.pos)) _ call (header call)
            conn a s' e t p (omega (arith, length-header call))
            (write_value-Rounds call (record conn { sock = s' }) short started (omega arith)))
    | inr later ↦
        let needed : length call.str_val - call.pos ≤ room conn.sock =
          omega (arith, rw later at h) in
        rw (later, le→ltb _ _ started) (write_value-Rounds call conn short started needed)
  ]

  -- A round of `processResponse` on a connection that stands long enough and with nobody else at the queue, for
  -- a call whose position lies within its value: it sends the header if the position is 0, and then
  -- the next bytes of the value, at least one if any are left. It returns 0 if the value is sent
  -- whole, and leaves the queue; else it queues the call again with the new position and returns 1,
  -- or, if the queue is full, returns -1.
  pub process_response-Rounds :
      (call : Call) (conn : Connection)
      → length call.str_val < 2 ^ 31
      → call.pos ≤ length call.str_val
      → length (front call) + (length call.str_val - call.pos) ≤ room conn.sock
      → Rounds (process_response [] call) call (front call) conn
  unfolding process_response
  process_response-Rounds call conn short started h =
      let exact : (length call.str_val + size_mod - call.pos) % size_mod
          ≡ length call.str_val - call.pos =
        omega arith in
      rw exact (
        catch-Rounds (process_body [] call (length call.str_val - call.pos)) call (front call) conn
          (process_body-Rounds call conn short started h))
