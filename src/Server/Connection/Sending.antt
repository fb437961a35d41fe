-- ===== src/Server/Connection/Sending.antt =====
-- One round of `processResponse`: which bytes go out, and what becomes of the call.
use p_rpc.Base.{
  ℕ, ◌+◌, ◌-◌, ◌≤◌, ◌<◌, ◌≡◌, ◌⊎◌, ◌^◌, refl, inl, inr, List, [], ◌++◌, true, false, arith, ltb,
  if◌then◌else◌, length, take, drop, le_bytes, length-drop, minus_one, Bool-cases, ◌==◌, ◌%◌,
  int_mod, ltb→lt,
}
use p_rpc.BlockQueue.{BlockQueue, has_room, try_push, push_value, wait_for}
use p_rpc.Socket.{Asio, Eff, ok, continue}
use p_rpc.Server.Call.{Call, set_pos}
use p_rpc.Server.Connection.{Connection, add_back, write_value}

-- The id of the call and the length of its value, which go before the value.
abbrev pub header : Call → List ℕ
header call = le_bytes 4 call.call_id ++ le_bytes 8 (length call.str_val)

-- The bytes that a round sends before the value: the header, if nothing of the value is sent yet.
abbrev pub front : Call → List ℕ
front call = if call.pos == 0 then header call else []

-- What a response looks like on the wire.
unfoldable pub response_wire : Call → List ℕ
response_wire call = header call ++ call.str_val

-- It is what the rounds of a call send that starts at its first byte.
pub whole_wire :
    (call : Call) → call.pos ≡ 0 → front call ++ drop call.pos call.str_val ≡ response_wire call
unfolding response_wire
whole_wire call h = rw h refl

module _ ⦃net : Asio⦄ where
  open net use {Socket, pending, sent, room, write, write_all, write_some, write_part}

  -- After `k` bytes: the value is sent whole, or the rest is queued again, or the queue is full.
  abbrev pub Ends : Call → Connection → ℕ → BlockQueue Call → ℕ → Type 0
  Ends call conn code q k =
      ((k ≡ length call.str_val - call.pos) × (code ≡ 0) × (q ≡ conn.respond_queue))
      ⊎ (((k < length call.str_val - call.pos)
            × (has_room conn.respond_queue ≡ true)
            × (code ≡ 1)
            × (q ≡ push_value conn.respond_queue (set_pos (k + call.pos) call) true))
          ⊎ ((k < length call.str_val - call.pos)
              × (has_room conn.respond_queue ≡ false)
              × (code ≡ minus_one)
              × (q ≡ conn.respond_queue)))

  -- A round that sends `front` and then `k` bytes of the value: it leads from `conn` to `conn'` and
  -- returns `code`.
  pub record Sends (call : Call) (front : List ℕ) (conn : Connection) (code : ℕ)
      (conn' : Connection) : Type 0 where
    pub k : ℕ
    pub fits : k ≤ length call.str_val - call.pos
    pub moves : call.pos < length call.str_val → 0 < k
    pub bytes : sent conn'.sock ≡ sent conn.sock ++ (front ++ take k (drop call.pos call.str_val))
    pub room_left : room conn.sock ≡ room conn'.sock + length front + k
    pub kept : conn'.endpoint ≡ conn.endpoint
    pub unread : pending conn'.sock ≡ pending conn.sock
    pub ends : Ends call conn code conn'.respond_queue k

  -- A computation on a connection that ends as such a round.
  abbrev pub Rounds : Eff Connection ℕ → Call → List ℕ → Connection → Type 0
  Rounds m call front conn =
      (code : ℕ) × (conn' : Connection) × (m conn ≡ (ok code, conn'))
      × Sends call front conn code conn'

  module _ (call : Call) (conn : Connection) (short : length call.str_val < 2 ^ 31)
      (started : call.pos ≤ length call.str_val) where
    abbrev pub value_left : ℕ
    value_left = length call.str_val - call.pos

    -- What `write_some` did, and how the round goes on, make a round.
    module _ (k : ℕ) (s' : Socket)
        (e : write_some (drop call.pos call.str_val) conn.sock ≡ (ok k, s'))
        (l : k ≤ length (drop call.pos call.str_val))
        (m : 0 < length (drop call.pos call.str_val) → 0 < k)
        (t : sent s' ≡ sent conn.sock ++ take k (drop call.pos call.str_val))
        (p : pending s' ≡ pending conn.sock) (r : room s' + k ≡ room conn.sock) where
      part-Sends :
          (q : BlockQueue Call) (code : ℕ)
          → Ends call conn code q k
          → Sends call [] conn code (record conn { sock = s'; respond_queue = q })
      part-Sends q code ends = record {
        k = k;
        fits = omega (arith, length-drop call.pos call.str_val);
        moves = λ h. m (omega (arith, length-drop call.pos call.str_val));
        bytes = t;
        room_left = omega arith;
        kept = refl;
        unread = p;
        ends = ends;
      }

      part-Rounds : Rounds (write_value [] call value_left) call [] conn
      unfolding write_value add_back try_push wait_for
      part-Rounds =
          let small : k ≤ value_left → (k + call.pos) % int_mod ≡ k + call.pos = λ h. omega arith in
          elim (Bool-cases (ltb k value_left)) [
            | inl more ↦ elim (Bool-cases (has_room conn.respond_queue)) [
              | inl has ↦ (
                1,
                record conn {
                  sock = s';
                  respond_queue = push_value conn.respond_queue (set_pos (k + call.pos) call) true;
                },
                rw
                    (
                      e,
                      continue,
                      more,
                      small (omega (arith, length-drop call.pos call.str_val)),
                      has,
                    )
                    refl,
                part-Sends _ 1 (inr (inl (ltb→lt _ _ more, has, refl, refl))),
              )
              | inr full ↦ (
                minus_one,
                record conn { sock = s' },
                rw (e, continue, more, full) refl,
                part-Sends _ minus_one (inr (inr (ltb→lt _ _ more, full, refl, refl))),
              )
            ]
            | inr all ↦ (
              0,
              record conn { sock = s' },
              rw (e, continue, all) refl,
              part-Sends _ 0 (inl (ground (arith, length-drop call.pos call.str_val), refl, refl)),
            )
          ]

    pub write_value-Rounds :
        value_left ≤ room conn.sock → Rounds (write_value [] call value_left) call [] conn
    write_value-Rounds h =
        let (k, s', e, l, m, t, p, r) =
          write_part (drop call.pos call.str_val) conn.sock
            (omega (arith, length-drop call.pos call.str_val)) in
        part-Rounds k s' e l m t p r
