-- ===== src/Server/Responder/Whole.antt =====
-- The functions `doRespond` and `processResponse`, and a turn of `respond`, as moves of one thread.
use mathlib.Core.Path.{subst}
use p_rpc.Server.Responder.Tokens.Found.{pop_response-some}
use p_rpc.Base.{
  ℕ, ◌≡◌, ◌≢◌, inl, inr, refl, sym, ◌∙◌, ap, List, [], ◌∷◌, Bool, true, false, Option, some, none,
  arith, Bool-cases, ◌==◌, ==_iff, is_negative, find, ◌<◌, length, ◌++◌,
}
use p_rpc.BlockQueue.{BlockQueue, try_pop, has_room, size}
use p_rpc.BlockQueue.Order.{try_pop-cons, try_pop-nil, try_push-room, try_push-full}
use p_rpc.Socket.Results.{Result-cases, continue-ok, continue-not_ok, ok_injective}
use p_rpc.Socket.{Asio, Result, ok, throws, crash, continue}
use p_rpc.Server.Call.{Call}
use p_rpc.Server.Connection
use p_rpc.Server.State.{State, on_connection}
use p_rpc.Server.Responder.{
  pop_response, push_response, schedule, after_round, process_call, process_response, do_respond,
  respond_once, after_queued, respond_to, respond_next, respond_on, must_succeed,
}
use p_rpc.Server.Responder.Threads.{
  Task, idle, popping, sending, IsKnown, Move, push, inline, later, schedules, take, pop, send_rest,
  send, Steps, done, next, step,
}

module _ ⦃net : Asio⦄ where
  -- The moves of one thread, with no move of another in between.
  pub data Moves : State → Task → State → Task → Type 0 where
    stay : {st : State} {t : Task} → Moves st t st t
    go :
        {st st' st'' : State} {t t' t'' : Task}
        → Move st t st' t'
        → Moves st' t' st'' t''
        → Moves st t st'' t''

  alone_length : {A : Type 0} (q : BlockQueue A) → (size q == 1) ≡ true → 0 < length q.queue
  unfolding size
  alone_length q h = omega (arith, (==_iff _ _).0 h)

  -- `schedule` returns true or aborts.
  schedule-true :
      (ep : ℕ) (back : Bool) (st : State) (b : Bool)
      → (schedule ep back st).0 ≡ ok b
      → (schedule ep back st).0 ≡ ok true
  unfolding schedule
  schedule-true ep back st b h = elim (Bool-cases (has_room st.bq_respond)) [
    | inl has ↦ rw (try_push-room st.bq_respond ep back has) refl
    | inr full ↦
        absurd (let failed = rw (try_push-full st.bq_respond ep back full) at h in cc failed)
  ]

  module _ (c : ℕ) (call : Call) (st : State) where
    abbrev sent : Result ℕ × State
    sent = on_connection c (Connection.process_response [] call) st

    by_code :
        (code : ℕ) (b : Bool)
        → sent.0 ≡ ok code
        → (after_round c code sent.1).0 ≡ ok b
        → Moves st (sending c call) (after_round c code sent.1).1 idle
    unfolding after_round
    by_code code b e h = elim (Bool-cases (is_negative code)) [
      | inl negative ↦ rw negative (go (send (other λ one. ground arith)) stay)
      | inr positive ↦ elim (Bool-cases (code == 1)) [
        | inl one ↦
            rw (positive, one)
              (go (send_rest (e ∙ ap ok ((==_iff code 1).0 one)))
                (go (schedules (schedule-true _ _ _ b (rw (positive, one) at h))) stay))
        | inr many ↦ rw (positive, many) (go (send (other λ one. ground arith)) stay)
      ]
    ]
      where
        other : (code ≢ 1) → sent.0 ≢ ok 1
        other n f = n (ok_injective (sym e ∙ f))

    after_round-Moves :
        (b : Bool)
        → (continue sent (after_round c)).0 ≡ ok b
        → Moves st (sending c call) (continue sent (after_round c)).1 idle
    after_round-Moves b h = elim (Result-cases sent.0) [
      | inl (code, e) ↦
          let same = continue-ok sent (after_round c) code e in
          rw same (by_code code b e (rw same at h))
      | inr none_ok ↦ absurd (continue-not_ok sent (after_round c) b none_ok h)
    ]

  module _ (c : ℕ) (st : State) (b : Bool) where
    abbrev taken : Result (Option Call) × State
    taken = on_connection c pop_response st

    by_call :
        (o : Option Call)
        → taken.0 ≡ ok o
        → o ≢ none
        → (process_call c o taken.1).0 ≡ ok b
        → Moves st (popping c) (process_call c o taken.1).1 idle
    unfolding process_call
    by_call none e some_there h = absurd (some_there refl)
    by_call (some call) e some_there h = go (pop e) (after_round-Moves c call taken.1 b h)

    -- `processResponse` of a connection with a response, where it returns.
    process_response-Moves :
        taken.0 ≢ ok none
        → (process_response c st).0 ≡ ok b
        → Moves st (popping c) (process_response c st).1 idle
    unfolding process_response
    process_response-Moves some_there h = elim (Result-cases taken.0) [
      | inl (o, e) ↦
          let same = continue-ok taken (process_call c) o e in
          rw same (by_call o e (λ n. some_there (e ∙ ap ok n)) (rw same at h))
      | inr none_ok ↦ absurd (continue-not_ok taken (process_call c) b none_ok h)
    ]

  pub respond_to-some :
      (c : ℕ) (call : Call) (st : State) (o : Option ℕ)
      → o ≡ some c
      → respond_to o call st ≡ continue (on_connection c (push_response call) st) (after_queued c)
  unfolding respond_to
  respond_to-some c call st none e = cc e
  respond_to-some c call st (some d) e = ap (λ x. respond_to x call st) e

  module _ (c : ℕ) (call : Call) (st : State) (known : IsKnown st c) where
    abbrev queued : Result Bool × State
    queued = on_connection c (push_response call) st

    after_queued-Moves :
        queued.0 ≡ ok true
        → (after_queued c true queued.1).0 ≡ ok true
        → Moves st idle (after_queued c true queued.1).1 idle
    unfolding after_queued
    after_queued-Moves e h = elim (Bool-cases (size (queued.1.objects c).respond_queue == 1)) [
      | inl alone ↦ elim (Result-cases (process_response c queued.1).0) [
        | inl (b, f) ↦
            let same = continue-ok (process_response c queued.1) (λ _ s. (ok true, s)) b f in
            rw alone (
              go (push call known e) (
                go (inline ((==_iff _ _).0 alone))
                  (rw same (process_response-Moves c queued.1 b (not_empty alone) f))))
        | inr none_ok ↦ absurd (
            continue-not_ok (process_response c queued.1) (λ _ s. (ok true, s)) true none_ok
              (rw alone at h))
      ]
      | inr crowded ↦ rw crowded (
          go (push call known e)
            (go (later (λ one. ground arith)) (go (schedules (rw crowded at h)) stay)))
    ]
      where
        not_empty :
            (size (queued.1.objects c).respond_queue == 1) ≡ true
            → (on_connection c pop_response queued.1).0 ≢ ok none
        not_empty alone =
            pop_response-some queued.1 c (queued.1.objects c).respond_queue.queue refl
              (alone_length (queued.1.objects c).respond_queue alone)

    refused : (after_queued c false queued.1).0 ≢ ok true
    unfolding after_queued
    refused h = cc h

    by_answer :
        (b : Bool)
        → queued.0 ≡ ok b
        → (after_queued c b queued.1).0 ≡ ok true
        → Moves st idle (after_queued c b queued.1).1 idle
    by_answer true e f = after_queued-Moves e f
    by_answer false e f = absurd (refused f)

    after_push-Moves :
        (continue queued (after_queued c)).0 ≡ ok true
        → Moves st idle (continue queued (after_queued c)).1 idle
    after_push-Moves h = elim (Result-cases queued.0) [
      | inl (b, e) ↦
          let same = continue-ok queued (after_queued c) b e in
          rw same (by_answer b e (rw same at h))
      | inr none_ok ↦ absurd (continue-not_ok queued (after_queued c) true none_ok h)
    ]

    -- `doRespond` where it succeeds.
    pub do_respond-Moves :
        call.connection ≡ some c
        → (do_respond call st).0 ≡ ok true
        → Moves st idle (do_respond call st).1 idle
    unfolding do_respond
    do_respond-Moves conn h =
        let same = respond_to-some c call st call.connection conn in
        subst (λ (x : Result Bool × State). Moves st idle x.1 idle) (sym same)
          (after_push-Moves (ap (λ (x : Result Bool × State). x.0) (sym same) ∙ h))

  continue-found :
      (c : ℕ) (p : Result (Option Call) × State)
      → (continue p (process_call c)).0 ≡ ok true
      → p.0 ≢ ok none
  unfolding process_call
  continue-found c (ok none, st) h = absurd (let failed = h in cc failed)
  continue-found c (ok (some call), st) h = λ e. cc e
  continue-found c (throws x, st) h = λ e. cc e
  continue-found c (crash x, st) h = λ e. cc e

  -- A `processResponse` that returns true found a response.
  process_response-found :
      (c : ℕ) (st : State)
      → (process_response c st).0 ≡ ok true
      → (on_connection c pop_response st).0 ≢ ok none
  unfolding process_response
  process_response-found c st h = continue-found c (on_connection c pop_response st) h

  answered-Moves :
      (c : ℕ) (st : State) (b : Bool)
      → (process_response c st).0 ≡ ok b
      → (must_succeed b (process_response c st).1).0 ≡ ok tt
      → Moves st (popping c) (must_succeed b (process_response c st).1).1 idle
  answered-Moves c st true f h = process_response-Moves c st true (process_response-found c st f) f
  answered-Moves c st false f h = absurd (let failed = h in cc failed)

  module _ (st : State) where
    next_call :
        (ep : ℕ) (q : BlockQueue ℕ)
        → try_pop [] st.bq_respond ≡ (some ep, q)
        → (o : Option ℕ) → find ep st.connections ≡ o
        → (respond_on o (record st { bq_respond = q })).0 ≡ ok tt
        → Moves st idle (respond_on o (record st { bq_respond = q })).1 idle
    unfolding respond_on
    next_call ep q e none k h = absurd (let failed = h in cc failed)
    next_call ep q e (some c) k h =
        let first = process_response c (record st { bq_respond = q }) in
        elim (Result-cases first.0) [
          | inl (b, f) ↦
              let same = continue-ok first must_succeed b f in
              rw same
                (go (take e k) (answered-Moves c (record st { bq_respond = q }) b f (rw same at h)))
          | inr none_ok ↦ absurd (continue-not_ok first must_succeed tt none_ok h)
        ]

    by_queue :
        (eps : List ℕ)
        → st.bq_respond.queue ≡ eps
        → (respond_once st).0 ≡ ok tt
        → Moves st idle (respond_once st).1 idle
    unfolding respond_once respond_next
    by_queue [] e h = rw (try_pop-nil st.bq_respond e) stay
    by_queue (ep ∷ eps) e h =
        let (q, f, qe, qm) = try_pop-cons st.bq_respond ep eps e in
        rw f (next_call ep q f (find ep st.connections) refl (rw f at h))

    -- A turn of `respond`.
    pub respond_once-Moves : (respond_once st).0 ≡ ok tt → Moves st idle (respond_once st).1 idle
    respond_once-Moves h = by_queue st.bq_respond.queue refl h

  Moves-Steps :
      {st st' : State} {t t' : Task} (before after : List Task)
      → Moves st t st' t'
      → Steps
          (record { state = st; threads = before ++ t ∷ after })
          (record { state = st'; threads = before ++ t' ∷ after })
  Moves-Steps before after stay = done
  Moves-Steps before after (go m ms) = next (step before after m) (Moves-Steps before after ms)

  -- A whole call that succeeds: `doRespond`, or a turn of `respond`.
  pub data WholeCall : State → State → Type 0 where
    response :
        {st : State} (call : Call) (c : ℕ)
        → call.connection ≡ some c
        → IsKnown st c
        → (do_respond call st).0 ≡ ok true
        → WholeCall st (do_respond call st).1
    turn : {st : State} → (respond_once st).0 ≡ ok tt → WholeCall st (respond_once st).1

  -- A whole call that succeeds, of `doRespond` for a connection in the map or a turn of `respond`,
  -- is a run of the interleaved system in which its thread makes moves and starts and ends between
  -- two responses, and the other threads stay where they are.
  pub WholeCall-Steps :
      (st st' : State) (before after : List Task)
      → WholeCall st st'
      → Steps
          (record { state = st; threads = before ++ idle ∷ after })
          (record { state = st'; threads = before ++ idle ∷ after })
  WholeCall-Steps st st' before after w = Moves-Steps before after (whole w)
    where
      whole : {st st' : State} → WholeCall st st' → Moves st idle st' idle
      whole (response {st} call c conn known h) = do_respond-Moves c call st known conn h
      whole (turn {st} h) = respond_once-Moves st h
