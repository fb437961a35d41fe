-- ===== src/Client/Connection/Threads/Received.antt =====
-- What becomes of the values when the next response is received.
use p_rpc.IntWritable.Narrow.{int_wire}
use p_rpc.Client.Connection.Receiving.{recv_respond-Answers, Answers}
use native.Mathlib.Decide.{dec_lt}
use p_rpc.Client.Connection.{Connection, recv_respond}
use p_rpc.Client.Call.{Call}
use p_rpc.Socket.{Asio, ok}
use p_rpc.Base.{
  [], ◌∷◌, inl, inr, List, ℕ, some, ◌++◌, ◌<◌, ◌≡◌, arith, ap, ◌==◌, refl, ◌∙◌, Bool-cases, sym,
  append_assoc, find, All-map, ==_iff, suc, le_bytes, All-append,
}
use p_rpc.Client.Connection.Threads.{Response, wires}
use p_rpc.Client.Connection.Threads.Matching.{
  IsOrdered, latest-append, some_of, still_found, some_call_injective,
}

module _ ⦃net : Asio⦄ where
  open net use {Socket, pending, sent, room, read_short}

  answered-IsOrdered :
      {conn conn' : Connection} {s : Socket} {received rest : List Response} (r : Response)
      (call : Call)
      → Answers conn s r.id r.value call (wires rest) conn'
      → r.id < conn.last_call_index
      → find r.id conn.calls ≡ some call
      → IsOrdered conn received (r ∷ rest)
      → IsOrdered conn' (received ++ r ∷ []) rest
  answered-IsOrdered {conn} {conn'} {s} {received} {rest} r call a below f h =
      let same : conn'.last_call_index ≡ conn.last_call_index =
        ap (λ (x : Connection). x.last_call_index) a.kept in
      record {
        matched = record {
          sock = a.sock';
          connected = ap (λ (x : Connection). x.sock) a.kept;
          unread = a.taken;
          values = λ j call' f'. elim (Bool-cases (r.id == j)) [
            | inl here ↦
                rw
                  (
                    ← (some_call_injective (sym (rw here at (a.found j)) ∙ f')),
                    latest-append j received r,
                    here,
                  )
                  (refl, refl)
            | inr there ↦
                rw (latest-append j received r, there)
                  (h.matched.values j call' (sym (rw there at (a.found j)) ∙ f'))
          ];
        };
        expects = λ j call' f'. elim (Bool-cases (r.id == j)) [
          | inl here ↦
              rw (← (some_call_injective (sym (rw here at (a.found j)) ∙ f')))
                (h.expects r.id call f)
          | inr there ↦ h.expects j call' (sym (rw there at (a.found j)) ∙ f')
        ];
        numbered = λ j call' f'. elim (Bool-cases (r.id == j)) [
          | inl here ↦
              rw (← (some_call_injective (sym (rw here at (a.found j)) ∙ f')))
                (h.numbered r.id call f ∙ (==_iff _ _).0 here)
          | inr there ↦ h.numbered j call' (sym (rw there at (a.found j)) ∙ f')
        ];
        unused = λ j k. elim (Bool-cases (r.id == j)) [
          | inl here ↦ absurd (omega (arith, (==_iff _ _).0 here, same))
          | inr there ↦ a.found j ∙ rw there (h.unused j (omega (arith, same)))
        ];
        int_index = omega (arith, same, h.int_index);
        received_below =
            All-append (λ (q : Response). q.id < conn'.last_call_index) received (r ∷ [])
              (All-map (λ (q : Response) k. omega (arith, same)) received h.received_below)
              (omega (arith, same), tt);
        rest_known =
            All-map (λ (q : Response) k. still_found _ (r.id == q.id) (a.found q.id) k) rest
              h.rest_known.1;
      }

  -- The next response is received for the call with its id.
  pub receives_for :
      {conn : Connection} {received rest : List Response} (fuel : ℕ) (r : Response)
      → (h : IsOrdered conn received (r ∷ rest))
      → (call : Call) × (conn' : Connection) × (find r.id conn.calls ≡ some call)
        × (r.id < conn.last_call_index)
        × (recv_respond (suc fuel) conn ≡ (ok tt, conn'))
        × Answers conn h.matched.sock r.id r.value call (wires rest) conn'
  receives_for {conn} {received} {rest} fuel r h =
      let (call, f) = some_of _ h.rest_known.0 in
      let below : r.id < conn.last_call_index = elim (dec_lt r.id conn.last_call_index) [
        | yes b ↦ b
        | no b ↦ absurd (h.rest_known.0 (h.unused r.id (omega arith)))
      ] in
      let (conn', e, a) =
        recv_respond-Answers fuel conn h.matched.sock r.id r.value call (wires rest)
          h.matched.connected (omega (arith, h.int_index)) f (h.expects r.id call f)
          (h.matched.unread ∙ append_assoc (le_bytes 4 r.id) (int_wire r.value) (wires rest)) in
      (call, conn', f, below, e, a)

  pub receives_one :
      {conn : Connection} {received rest : List Response} (fuel : ℕ) (r : Response)
      → IsOrdered conn received (r ∷ rest)
      → IsOrdered (recv_respond (suc fuel) conn).1 (received ++ r ∷ []) rest
  receives_one fuel r h =
      let (call, conn', f, below, e, a) = receives_for fuel r h in
      rw e (answered-IsOrdered r call a below f h)
