-- ===== src/Server/Responder/Tokens/Moves.antt =====
-- The moves of a thread and the balance of responses and tokens.
use p_rpc.Base.{
  ℕ, ◌+◌, ◌≡◌, ◌≢◌, inl, inr, refl, sym, ◌∙◌, ap, List, [], ◌∷◌, Bool, true, false, Option, some,
  find, arith, length, ==_refl, ==_iff, Bool-cases, ◌==◌, All, none, All-append,
}
use p_rpc.BlockQueue.{BlockQueue, has_room, push_value, try_pop}
use p_rpc.BlockQueue.Order.{try_push-room, try_push-full, try_pop-cons, try_pop-nil}
use p_rpc.Socket.{Asio, ok}
use p_rpc.Server.Call.{Call}
use p_rpc.Server.Connection.{process_response}
use p_rpc.Server.Connection.Queueing.{process_response-Requeues, length-push_value}
use p_rpc.Server.State.{State, on_connection}
use p_rpc.Server.Responder.{push_response, pop_response, schedule}
use p_rpc.Server.Responder.Threads.{
  Task, idle, pushed, popping, sending, scheduling, IsKnown, Move, push, inline, later, schedules,
  take, pop, send_rest, send,
}
use p_rpc.Server.Responder.Tokens.{
  one_if, count, count-append, HoldsKnown, Balances, AreNamed, moved-Balances, one_if_self,
  some_injective, ScheduledKnown,
}

module _ ⦃net : Asio⦄ where
  push-Balances :
      (st : State) (c : ℕ) (call : Call)
      → IsKnown st c
      → (on_connection c (push_response call) st).0 ≡ ok true
      → Balances st idle (on_connection c (push_response call) st).1 (pushed c)
  unfolding push_response
  push-Balances st c call k h = elim (Bool-cases (has_room (st.objects c).respond_queue)) [
    | inl has ↦ rw (try_push-room (st.objects c).respond_queue call true has) (
        moved-Balances st c
          (record (st.objects c) {
            respond_queue = push_value (st.objects c).respond_queue call true;
          })
          idle (pushed c) refl (λ d e. (refl, rw e refl))
          (omega (arith, one_if_self c, length-push_value (st.objects c).respond_queue call)) k
          (λ x. x))
    | inr full ↦ absurd (
        let failed = rw (try_push-full (st.objects c).respond_queue call true full) at h in
        cc failed)
  ]

  pop-Balances :
      (st : State) (c : ℕ) (call : Call)
      → IsKnown st c
      → (on_connection c pop_response st).0 ≡ ok (some call)
      → Balances st (popping c) (on_connection c pop_response st).1 (sending c call)
  unfolding pop_response
  pop-Balances st c call k h = by_queue (st.objects c).respond_queue.queue refl
    where
      by_queue :
          (calls : List Call)
          → (st.objects c).respond_queue.queue ≡ calls
          → Balances st (popping c) (on_connection c pop_response st).1 (sending c call)
      by_queue [] e =
          absurd (let failed = rw (try_pop-nil (st.objects c).respond_queue e) at h in cc failed)
      by_queue (x ∷ xs) e =
          let (q, f, qe, qm) = try_pop-cons (st.objects c).respond_queue x xs e in
          rw f (
            moved-Balances st c (record (st.objects c) { respond_queue = q }) (popping c)
              (sending c call) refl (λ d n. (rw n refl, refl))
              (omega (arith, one_if_self c, ap length e, ap length qe)) k (λ x. x))

  send_rest-Balances :
      (st : State) (c : ℕ) (call : Call)
      → IsKnown st c
      → (on_connection c (process_response [] call) st).0 ≡ ok 1
      → Balances st
          (sending c call)
          (on_connection c (process_response [] call) st).1
          (scheduling c false)
  send_rest-Balances st c call k h =
      let r = process_response-Requeues call (st.objects c) in
      elim r.waits [
        | inl (e, w) ↦
            moved-Balances st c (process_response [] call (st.objects c)).1 (sending c call)
              (scheduling c false) r.named (λ d n. (refl, rw n refl))
              (omega (arith, one_if_self c, w)) k (λ x. x)
        | inr (n, w) ↦ absurd (n h)
      ]

  send-Balances :
      (st : State) (c : ℕ) (call : Call)
      → IsKnown st c
      → (on_connection c (process_response [] call) st).0 ≢ ok 1
      → Balances st (sending c call) (on_connection c (process_response [] call) st).1 idle
  send-Balances st c call k h =
      let r = process_response-Requeues call (st.objects c) in
      elim r.waits [
        | inl (e, w) ↦ absurd (h e)
        | inr (n, w) ↦
            moved-Balances st c (process_response [] call (st.objects c)).1 (sending c call) idle
              r.named (λ d n. (refl, refl)) (omega (arith, w)) k (λ x. tt)
      ]

  -- Two known connections have the same endpoint only if they are the same.
  same_token :
      (st : State) (c d : ℕ)
      → IsKnown st c
      → IsKnown st d
      → one_if ((st.objects d).endpoint == (st.objects c).endpoint) ≡ one_if (d == c)
  same_token st c d kc kd = elim (Bool-cases (d == c)) [
    | inl here ↦
        rw (ap (λ x. (st.objects x).endpoint) ((==_iff d c).0 here))
          (rw (==_refl (st.objects c).endpoint, here) refl)
    | inr there ↦ elim (Bool-cases ((st.objects d).endpoint == (st.objects c).endpoint)) [
      | inl both ↦
          let e : some d ≡ some c =
            sym kd ∙ ap (λ x. find x st.connections) ((==_iff _ _).0 both) ∙ kc in
          let t = (==_iff d c).1 (some_injective e) in
          absurd (let differ = sym there ∙ t in cc differ)
      | inr apart ↦ rw (apart, there) refl
    ]
  ]

  count-push_value :
      (e ep : ℕ) (q : BlockQueue ℕ) (back : Bool)
      → count e (push_value q ep back).queue ≡ one_if (ep == e) + count e q.queue
  unfolding push_value
  count-push_value e ep q true = omega (arith, count-append e q.queue (ep ∷ []))
  count-push_value e ep q false = refl

  scheduled-push_value :
      (st : State) (d : ℕ) (back : Bool)
      → IsKnown st d
      → ScheduledKnown st
      → All
          (λ ep. find ep st.connections ≢ none)
          (push_value st.bq_respond (st.objects d).endpoint back).queue
  unfolding push_value
  scheduled-push_value st d true k h =
      All-append (λ ep. find ep st.connections ≢ none) st.bq_respond.queue
        ((st.objects d).endpoint ∷ []) h ((λ e. let both = sym k ∙ e in cc both), tt)
  scheduled-push_value st d false k h = ((λ e. let both = sym k ∙ e in cc both), h)

  schedule-Balances :
      (st : State) (d : ℕ) (back : Bool)
      → IsKnown st d
      → (schedule (st.objects d).endpoint back st).0 ≡ ok true
      → Balances st (scheduling d back) (schedule (st.objects d).endpoint back st).1 idle
  unfolding schedule
  schedule-Balances st d back k h = elim (Bool-cases (has_room st.bq_respond)) [
    | inl has ↦ rw (try_push-room st.bq_respond (st.objects d).endpoint back has) (record {
      connections = refl;
      endpoints = λ c. refl;
      known = tt;
      scheduled = scheduled-push_value st d back k;
      balance = λ c kc. omega (
        arith,
        count-push_value (st.objects c).endpoint (st.objects d).endpoint st.bq_respond back,
        same_token st c d kc k,
      );
    })
    | inr full ↦ absurd (
        let failed = rw (try_push-full st.bq_respond (st.objects d).endpoint back full) at h in
        cc failed)
  ]

  take-Balances :
      (st : State) (d ep : ℕ) (q : BlockQueue ℕ)
      → AreNamed st
      → try_pop [] st.bq_respond ≡ (some ep, q)
      → find ep st.connections ≡ some d
      → Balances st idle (record st { bq_respond = q }) (popping d)
  take-Balances st d ep q named e f = by_queue st.bq_respond.queue refl
    where
      known_d : IsKnown st d
      known_d = rw (named ep d f) f

      by_queue :
          (eps : List ℕ)
          → st.bq_respond.queue ≡ eps
          → Balances st idle (record st { bq_respond = q }) (popping d)
      by_queue [] h = absurd (let failed = sym (try_pop-nil st.bq_respond h) ∙ e in cc failed)
      by_queue (x ∷ xs) h =
          let (r, g, re, rm) = try_pop-cons st.bq_respond x xs h in
          let both : ◌≡◌ {A = Option ℕ × BlockQueue ℕ} (some x, r) (some ep, q) = sym g ∙ e in
          let x_ep : x ≡ (st.objects d).endpoint =
            some_injective (ap (λ p. p.0) both) ∙ sym (named ep d f) in
          let q_xs : q.queue ≡ xs =
            ap (λ (p : Option ℕ × BlockQueue ℕ). p.1.queue) (sym both) ∙ re in
          record {
            connections = refl;
            endpoints = λ c. refl;
            known = known_d;
            scheduled = λ ks. rw q_xs ((rw h at ks).1);
            balance = λ c kc. omega (
              arith,
              ap (count (st.objects c).endpoint) h,
              ap (count (st.objects c).endpoint) q_xs,
              ap (λ y. one_if (y == (st.objects c).endpoint)) x_ep,
              same_token st c d kc known_d,
            );
          }

  pub Move-Balances :
      {st st' : State} {t t' : Task}
      → AreNamed st
      → HoldsKnown st t
      → Move st t st' t'
      → Balances st t st' t'
  Move-Balances named k (push {st} {c} call known h) = push-Balances st c call known h
  Move-Balances named k (inline {st} {c} one) = record {
    connections = refl;
    endpoints = λ c. refl;
    known = k;
    scheduled = λ h. h;
    balance = λ c _. refl;
  }
  Move-Balances named k (later {st} {c} more) = record {
    connections = refl;
    endpoints = λ c. refl;
    known = k;
    scheduled = λ h. h;
    balance = λ c _. refl;
  }
  Move-Balances named k (schedules {st} {c} {back} h) = schedule-Balances st c back k h
  Move-Balances named k (take {st} {c} {ep} {q} e f) = take-Balances st c ep q named e f
  Move-Balances named k (pop {st} {c} {call} h) = pop-Balances st c call k h
  Move-Balances named k (send_rest {st} {c} {call} h) = send_rest-Balances st c call k h
  Move-Balances named k (send {st} {c} {call} h) = send-Balances st c call k h
