-- ===== src/Server/Responder/Framing/Cut.antt =====
-- A response whose rest is queued again behind another response.
use mathlib.Core.Path.{subst}
use p_rpc.BlockQueue.Order.{try_pop-cons}
use p_rpc.Socket.Results.{ok_injective}
use p_rpc.Server.Connection.Rounds.{process_response-Rounds, length-response, length-header}
use p_rpc.Server.Responder.Framing.{IsUnsent}
use p_rpc.Server.Connection.Sending.{front, header, response_wire, Sends}
use p_rpc.BlockQueue.{push_value, BlockQueue}
use p_rpc.Server.Responder.{pop_response}
use p_rpc.Base.{
  [], ◌∷◌, inl, inr, ◌≡◌, ℕ, take, ◌<◌, ◌++◌, length, drop, refl, ◌+◌, ◌≤◌, some, arith, ap, ◌∙◌,
  ◌-◌, List, true, length-append, append_assoc,
}
use p_rpc.Server.Call.{Call, set_pos}
use p_rpc.Server.Connection.{Connection, process_response}
use p_rpc.Socket.{ok, Asio}

module _ ⦃net : Asio⦄ where
  open net use {Socket, sent, room}

  -- The first response is cut after `k` bytes of its value, and the second one, or a part of it,
  -- follows.
  pub record IsCut (first second : Call) (conn conn' : Connection) : Type 0 where
    pub k : ℕ
    pub m : ℕ
    pub begun : 0 < k
    pub cut : k < length first.str_val
    pub wire :
        sent conn'.sock
        ≡ sent conn.sock
          ++ ((header first ++ take k first.str_val) ++ (header second ++ take m second.str_val))

  next_bytes :
      (call : Call) (k : ℕ)
      → call.pos ≡ 0
      → front call ++ take k (drop call.pos call.str_val) ≡ header call ++ take k call.str_val
  next_bytes call k h = rw h refl

  needed :
      (call : Call) (n : ℕ)
      → call.pos ≡ 0
      → length (response_wire call) ≤ n
      → length (front call) + (length call.str_val - call.pos) ≤ n
  needed call n h fits = rw h (omega (arith, length-response call, length-header call))

  -- The round of the response that waited.
  second_round :
      (first second left : Call) (conn conn1 : Connection)
      → IsUnsent first
      → IsUnsent second
      → (s : Sends first (front first) conn 1 conn1) → s.k < length first.str_val - first.pos
      → conn1.respond_queue.queue ≡ second ∷ left ∷ []
      → length (response_wire first) + length (response_wire second) ≤ room conn.sock
      → (conn' : Connection) × (pop_response conn1 ≡ (ok (some second), conn'))
        × IsCut first second conn (process_response [] second conn').1
  unfolding pop_response
  second_round first second left conn conn1 new new' s more waits fits =
      let (q, f, qe, qm) = try_pop-cons conn1.respond_queue second (left ∷ []) waits in
      let conn2 = record conn1 { respond_queue = q } in
      let (code, conn', e, s') =
        process_response-Rounds second conn2 new'.short (omega (arith, new'.unsent)) (
          needed second _ new'.unsent (
            omega (
              arith,
              s.room_left,
              length-response first,
              ap length (next_bytes first 0 new.unsent),
              length-append (header first) [],
              length-append (front first) [],
              length-header first,
            ))) in
      (
        conn2,
        rw f refl,
        rw e (record {
          k = s.k;
          m = s'.k;
          begun = s.moves (omega (arith, new.unsent));
          cut = omega arith;
          wire =
              s'.bytes
              ∙ ap (λ x. x ++ (front second ++ take s'.k (drop second.pos second.str_val))) s.bytes
              ∙ append_assoc (sent conn.sock) _ _
              ∙ ap
                  (λ x.
                    sent conn.sock
                    ++ (x ++ (front second ++ take s'.k (drop second.pos second.str_val))))
                  (next_bytes first s.k new.unsent)
              ∙ ap (λ x. sent conn.sock ++ ((header first ++ take s.k first.str_val) ++ x))
                  (next_bytes second s'.k new'.unsent);
        }),
      )

  Sends-code :
      (call : Call) (bs : List ℕ) (conn conn' : Connection) (code : ℕ)
      → code ≡ 1
      → Sends call bs conn code conn'
      → (s : Sends call bs conn 1 conn') × (s.k < length call.str_val - call.pos)
        × (conn'.respond_queue ≡ push_value conn.respond_queue (set_pos (s.k + call.pos) call) true)
  Sends-code call bs conn conn' code one s =
      let s1 : Sends call bs conn 1 conn' = subst (λ x. Sends call bs conn x conn') one s in
      elim s1.ends [
        | inl (k, z, q) ↦ absurd (omega (arith, z))
        | inr (inl (k, has, o, q)) ↦ (s1, k, q)
        | inr (inr (k, full, failed, q)) ↦ absurd (omega (arith, failed))
      ]

  -- Let a new response wait at a connection, alone, while another new one is sent, and let the
  -- connection stand as long as both. If the round of the other one leaves a rest, then the next
  -- response that is popped is the one that waits, and its round sends it from its header on, right
  -- behind the part of the first.
  pub process_response-IsCut :
      (first second : Call) (conn : Connection)
      → IsUnsent first
      → IsUnsent second
      → conn.respond_queue.queue ≡ second ∷ []
      → length (response_wire first) + length (response_wire second) ≤ room conn.sock
      → (process_response [] first conn).0 ≡ ok 1
      → (conn' : Connection) × (pop_response (process_response [] first conn).1
          ≡ (ok (some second), conn'))
        × IsCut first second conn (process_response [] second conn').1
  unfolding pop_response push_value
  process_response-IsCut first second conn new new' waits fits h =
      let (code, conn1, e, s) =
        process_response-Rounds first conn new.short (omega (arith, new.unsent))
          (needed first _ new.unsent (omega arith)) in
      let (s1, more, q) = Sends-code first _ conn conn1 code (ok_injective (rw e at h)) s in
      let left = set_pos (s1.k + first.pos) first in
      rw e (
        second_round first second left conn conn1 new new' s1 more
          (ap (λ (x : BlockQueue Call). x.queue) q ∙ ap (λ x. x ++ left ∷ []) waits) fits)
