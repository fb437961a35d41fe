-- ===== src/Server/Responder/Framing/Moves.antt =====
-- What a move sends at a connection, and where the calls are before and after it.
use p_rpc.Socket.Results.{ok_injective}
use p_rpc.Server.Connection.Rounds.{process_response-Rounds, length-header, length-response}
use p_rpc.Server.Connection.Sending.{response_wire, front, whole_wire}
use p_rpc.BlockQueue.Order.{try_pop-nil, try_pop-cons, try_push-room, try_push-full}
use p_rpc.BlockQueue.{push_value, has_room, BlockQueue}
use p_rpc.Server.State.{State, on_connection, update}
use p_rpc.Server.Responder.Framing.{
  IsUnsent, sending_by, responses, if_at, queue_at, GoesWhole, pushed_by, sent_by,
}
use p_rpc.Server.Responder.{pop_response, push_response, schedule}
use p_rpc.Socket.{Asio, ok}
use mathlib.Core.Path.{subst}
use p_rpc.Base.{
  [], ◌∷◌, inl, inr, ℕ, ◌≡◌, if◌then◌else◌, List, ◌++◌, ◌==◌, length, sym, some, true, append-nil,
  false, Bool-cases, ◌≤◌, ==_refl, ==_iff, ◌∙◌, ap, refl, arith, take_all, length-drop, All, Bool,
}
use p_rpc.Server.Call.{Call}
use p_rpc.Server.Connection.{Connection, process_response}
use p_rpc.Server.Responder.Threads.{
  Task, idle, pushed, popping, sending, scheduling, Move, push, inline, later, schedules, take, pop,
  send_rest, send,
}

module _ ⦃net : Asio⦄ where
  open net use {Socket, sent, room}

  -- A move from `st` and `t` to `st'` and `t'` at which the calls `entered` came into the queue of
  -- the connection `c`, and the responses of the calls `left` went out.
  pub record Conserves (c : ℕ) (st : State) (t : Task) (st' : State) (t' : Task)
      (entered left : List Call) : Type 0 where
    pub wire : sent (st'.objects c).sock ≡ sent (st.objects c).sock ++ responses left
    pub calls :
        sending_by c t ++ (queue_at st c ++ entered) ≡ left ++ (sending_by c t' ++ queue_at st' c)

  -- A move that touches no connection.
  Conserves-still :
      (c : ℕ) (st st' : State) (t t' : Task)
      → st'.objects ≡ st.objects
      → sending_by c t ≡ []
      → sending_by c t' ≡ []
      → Conserves c st t st' t' [] []
  Conserves-still c st st' t t' same e e' = record {
    wire = rw same (sym (append-nil _));
    calls = rw (same, e, e') (append-nil _);
  }

  -- A move at the connection `d`.
  module _ (st : State) (d : ℕ) (conn' : Connection) (t t' : Task)
      (entered left : ℕ → List Call) where
    abbrev moved : State
    moved = record st { objects = update st.objects d conn' }

    Conserves-at :
        sent conn'.sock ≡ sent (st.objects d).sock ++ responses (left d)
        → sending_by d t ++ (queue_at st d ++ entered d)
          ≡ left d ++ (sending_by d t' ++ conn'.respond_queue.queue)
        → ((c : ℕ)
            → (d == c) ≡ false
            → (entered c ≡ []) × (left c ≡ []) × (sending_by c t ≡ []) × (sending_by c t' ≡ []))
        → (c : ℕ) → Conserves c st t moved t' (entered c) (left c)
    Conserves-at w k apart c = elim (Bool-cases (d == c)) [
      | inl here ↦
          subst (λ x. Conserves x st t moved t' (entered x) (left x)) ((==_iff d c).0 here)
            (record { wire = rw (==_refl d) w; calls = rw (==_refl d, queue_at) k })
      | inr there ↦
          let (e, l, s, s') = apart c there in
          record {
            wire = rw (there, l) (sym (append-nil _));
            calls = rw (there, e, l, s, s', queue_at) (append-nil _);
          }
    ]

  push-Conserves :
      (c : ℕ) (st : State) (d : ℕ) (call : Call)
      → (on_connection d (push_response call) st).0 ≡ ok true
      → Conserves c st idle
          (on_connection d (push_response call) st).1
          (pushed d)
          (if_at c d call)
          []
  unfolding push_response push_value
  push-Conserves c st d call h = elim (Bool-cases (has_room (st.objects d).respond_queue)) [
    | inl has ↦ rw (try_push-room (st.objects d).respond_queue call true has) (
        Conserves-at st d
          (record (st.objects d) {
            respond_queue = push_value (st.objects d).respond_queue call true;
          })
          idle (pushed d) (λ x. if_at x d call) (λ _. []) (sym (append-nil _)) (rw (==_refl d) refl)
          (λ x e. (rw e refl, refl, refl, refl)) c)
    | inr full ↦ absurd (
        let failed = rw (try_push-full (st.objects d).respond_queue call true full) at h in
        cc failed)
  ]

  pop-Conserves :
      (c : ℕ) (st : State) (d : ℕ) (call : Call)
      → (on_connection d pop_response st).0 ≡ ok (some call)
      → Conserves c st (popping d) (on_connection d pop_response st).1 (sending d call) [] []
  unfolding pop_response
  pop-Conserves c st d call h = by_queue (st.objects d).respond_queue.queue refl
    where
      by_queue :
          (calls : List Call)
          → (st.objects d).respond_queue.queue ≡ calls
          → Conserves c st (popping d) (on_connection d pop_response st).1 (sending d call) [] []
      by_queue [] e =
          absurd (let failed = rw (try_pop-nil (st.objects d).respond_queue e) at h in cc failed)
      by_queue (x ∷ xs) e =
          let (q, f, qe, qm) = try_pop-cons (st.objects d).respond_queue x xs e in
          let same : x ≡ call = let found = rw f at h in cc found in
          rw f (
            Conserves-at st d (record (st.objects d) { respond_queue = q }) (popping d)
              (sending d call) (λ _. []) (λ _. []) (sym (append-nil _))
              (rw (==_refl d, e, qe) (append-nil _ ∙ ap (λ y. y ∷ xs) same))
              (λ y n. (refl, refl, refl, rw n refl)) c)

  length-front : (call : Call) → call.pos ≡ 0 → length (front call) ≡ 12
  length-front call h = rw h (length-header call)

  send_whole :
      (conn : Connection) (call : Call)
      → IsUnsent call
      → (process_response [] call conn).0 ≡ ok 0
      → length (response_wire call) ≤ room conn.sock
      → (sent (process_response [] call conn).1.sock ≡ sent conn.sock ++ response_wire call)
        × ((process_response [] call conn).1.respond_queue ≡ conn.respond_queue)
  send_whole conn call new h fits =
      let (code, conn', e, s) =
        process_response-Rounds call conn new.short (omega (arith, new.unsent))
          (omega (arith, new.unsent, length-response call, length-front call new.unsent)) in
      let zero : code ≡ 0 = ok_injective (rw e at h) in
      elim s.ends [
        | inl (k, z, q) ↦ rw e (
          s.bytes
              ∙ ap (λ x. sent conn.sock ++ (front call ++ x))
                  (take_all s.k _ (omega (arith, length-drop call.pos call.str_val)))
              ∙ ap (◌++◌ (sent conn.sock)) (whole_wire call new.unsent),
          q,
        )
        | inr (inl (k, has, one, q)) ↦ absurd (omega (arith, one))
        | inr (inr (k, full, failed, q)) ↦ absurd (omega (arith, failed))
      ]

  send-Conserves :
      (c : ℕ) (st : State) (d : ℕ) (call : Call)
      → All IsUnsent (if_at c d call)
      → (if d == c
          then ((on_connection d (process_response [] call) st).0 ≡ ok 0)
            × (length (response_wire call) ≤ room (st.objects d).sock)
          else Unit)
      → Conserves c st
          (sending d call)
          (on_connection d (process_response [] call) st).1
          idle
          []
          (if_at c d call)
  send-Conserves c st d call new whole = elim (Bool-cases (d == c)) [
    | inl here ↦
        let (ok0, fits) = rw here at whole in
        let (w, q) = send_whole (st.objects d) call (rw here at new).0 ok0 fits in
        Conserves-at st d (process_response [] call (st.objects d)).1 (sending d call) idle
          (λ _. []) (λ x. if_at x d call)
          (rw (==_refl d) (w ∙ ap (◌++◌ (sent (st.objects d).sock)) (sym (append-nil _))))
          (rw (==_refl d)
            (ap (◌∷◌ call) (append-nil _ ∙ ap (λ (x : BlockQueue Call). x.queue) (sym q))))
          (λ x e. (refl, rw e refl, rw e refl, refl)) c
    | inr there ↦ record {
      wire = rw there (sym (append-nil _));
      calls = rw (there, queue_at) (append-nil _);
    }
  ]

  schedule-objects :
      (ep : ℕ) (back : Bool) (st : State) → (schedule ep back st).1.objects ≡ st.objects
  unfolding schedule
  schedule-objects ep back st = refl

  send_rest-Conserves :
      (c : ℕ) (st : State) (d : ℕ) (call : Call)
      → (if d == c then ⊥ else Unit)
      → Conserves c st
          (sending d call)
          (on_connection d (process_response [] call) st).1
          (scheduling d false)
          []
          []
  send_rest-Conserves c st d call elsewhere = elim (Bool-cases (d == c)) [
    | inl here ↦ absurd (rw here at elsewhere)
    | inr there ↦ record {
      wire = rw there (sym (append-nil _));
      calls = rw (there, queue_at) (append-nil _);
    }
  ]

  pub Move-Conserves :
      {st st' : State} {t t' : Task} (c : ℕ) (move : Move st t st' t')
      → All IsUnsent (sending_by c t)
      → GoesWhole c move
      → Conserves c st t st' t' (pushed_by c move) (sent_by c move)
  Move-Conserves c (push {st} {c = d} call k h) new whole = push-Conserves c st d call h
  Move-Conserves c (inline {st} {c = d} h) new whole = Conserves-still c _ _ _ _ refl refl refl
  Move-Conserves c (later {st} {c = d} h) new whole = Conserves-still c _ _ _ _ refl refl refl
  Move-Conserves c (schedules {st} {c = d} {back} h) new whole =
      Conserves-still c st _ _ _ (schedule-objects (st.objects d).endpoint back st) refl refl
  Move-Conserves c (take h k) new whole = Conserves-still c _ _ _ _ refl refl refl
  Move-Conserves c (pop {st} {c = d} {call} h) new whole = pop-Conserves c st d call h
  Move-Conserves c (send_rest {st} {c = d} {call} h) new whole =
      send_rest-Conserves c st d call whole
  Move-Conserves c (send {st} {c = d} {call} h) new whole = send-Conserves c st d call new whole
