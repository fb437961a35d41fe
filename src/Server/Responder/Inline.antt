-- ===== src/Server/Responder/Inline.antt =====
-- `doRespond` sends a response itself when it is the only one of its connection. The reference is
-- the path without that: the connection is scheduled, and the responder sends.
use p_rpc.Server.Responder.Whole.{respond_to-some}
use p_rpc.BlockQueue.Order.{try_push-room, try_push-full, try_pop-cons}
use p_rpc.BlockQueue.{has_room, push_value, BlockQueue, try_pop, size}
use p_rpc.Server.Connection.{Connection}
use p_rpc.Server.Connection
use p_rpc.Server.Responder.{
  schedule, after_round, process_call, process_response, Call, pop_response, push_response,
  must_succeed, respond_once, do_respond, respond_next, respond_on, respond_to, after_queued,
}
use p_rpc.Server.State.{State, on_connection, update}
use p_rpc.Socket.{Asio, Result, Eff, continue, ok, throws, crash, aborted, pure, fail, ◌>>◌}
use p_rpc.Base.{
  refl, ℕ, Bool, ◌≡◌, Bool-cases, inl, inr, ◌∙◌, ap, is_negative, Option, List, ◌==◌, if◌then◌else◌,
  false, ◌++◌, ◌∷◌, [], some, true, none, ◌<◌, lt→ltb, arith, length, ==_refl, sym,
}
use p_rpc.Server.Responder.Threads.{IsKnown}
use p_rpc.Socket.{◌>>=◌}

module _ ⦃net : Asio⦄ where
  -- The same but for the count of the signals at `_bq_respond`.
  pub record Alike (st st' : State) : Type 0 where
    pub objects : st'.objects ≡ st.objects
    pub connections : st'.connections ≡ st.connections
    pub calls : st'.bq_call ≡ st.bq_call
    pub waiting : st'.bq_respond.queue ≡ st.bq_respond.queue
    pub capacity : st'.bq_respond.max_size ≡ st.bq_respond.max_size

  AlikeEnds : {A : Type 0} → Result A × State → Result A × State → Type 0
  AlikeEnds (r, st) (r', st') = (r' ≡ r) × Alike st st'

  continue-AlikeEnds :
      {A B : Type 0} (f g : A → Eff State B) (p p' : Result A × State)
      → AlikeEnds p p'
      → ((a : A) (st st' : State) → Alike st st' → AlikeEnds (f a st) (g a st'))
      → AlikeEnds (continue p f) (continue p' g)
  unfolding AlikeEnds
  continue-AlikeEnds f g (ok a, st) (r, st') (e, s) h = rw e (h a st st' s)
  continue-AlikeEnds f g (throws x, st) (r, st') (e, s) h = rw e (refl, s)
  continue-AlikeEnds f g (crash x, st) (r, st') (e, s) h = rw e (refl, s)

  on_connection-AlikeEnds :
      {A : Type 0} (c : ℕ) (m : Eff Connection A) (st st' : State)
      → Alike st st'
      → AlikeEnds (on_connection c m st) (on_connection c m st')
  unfolding AlikeEnds
  on_connection-AlikeEnds c m st st' s = rw s.objects (
    refl,
    record {
      objects = refl;
      connections = s.connections;
      calls = s.calls;
      waiting = s.waiting;
      capacity = s.capacity;
    },
  )

  schedule-AlikeEnds :
      (ep : ℕ) (back : Bool) (st st' : State)
      → Alike st st'
      → AlikeEnds (schedule ep back st) (schedule ep back st')
  unfolding AlikeEnds schedule push_value
  schedule-AlikeEnds ep back st st' s = elim (Bool-cases (has_room st.bq_respond)) [
    | inl has ↦ rw (try_push-room st.bq_respond ep back has) (
        rw (try_push-room st'.bq_respond ep back (same_room ∙ has)) (
          refl,
          record {
            objects = s.objects;
            connections = s.connections;
            calls = s.calls;
            waiting = ap (λ (eps : List ℕ). if back then eps ++ ep ∷ [] else ep ∷ eps) s.waiting;
            capacity = s.capacity;
          },
        ))
    | inr full ↦
        rw (try_push-full st.bq_respond ep back full)
          (rw (try_push-full st'.bq_respond ep back (same_room ∙ full)) (refl, s))
  ]
    where
      same_room : has_room st'.bq_respond ≡ has_room st.bq_respond
      same_room = rw (s.waiting, s.capacity) refl

  after_round-AlikeEnds :
      (c code : ℕ) (st st' : State)
      → Alike st st'
      → AlikeEnds (after_round c code st) (after_round c code st')
  unfolding after_round AlikeEnds
  after_round-AlikeEnds c code st st' s = elim (Bool-cases (is_negative code)) [
    | inl negative ↦ rw negative (refl, s)
    | inr positive ↦ elim (Bool-cases (code == 1)) [
      | inl one ↦
          rw (positive, one)
            (named (st.objects c).endpoint (st'.objects c).endpoint
              (ap (λ (objects : ℕ → Connection). (objects c).endpoint) s.objects))
      | inr many ↦ rw (positive, many) (refl, s)
    ]
  ]
    where
      named : (ep ep' : ℕ) → ep' ≡ ep → AlikeEnds (schedule ep false st) (schedule ep' false st')
      named ep ep' e = rw e (schedule-AlikeEnds ep false st st' s)

  process_call-AlikeEnds :
      (c : ℕ) (o : Option Call) (st st' : State)
      → Alike st st'
      → AlikeEnds (process_call c o st) (process_call c o st')
  unfolding process_call AlikeEnds
  process_call-AlikeEnds c none st st' s = (refl, s)
  process_call-AlikeEnds c (some call) st st' s =
      continue-AlikeEnds (after_round c) (after_round c) _ _
        (on_connection-AlikeEnds c (Connection.process_response [] call) st st' s)
        (after_round-AlikeEnds c)

  process_response-AlikeEnds :
      (c : ℕ) (st st' : State)
      → Alike st st'
      → AlikeEnds (process_response c st) (process_response c st')
  unfolding process_response
  process_response-AlikeEnds c st st' s =
      continue-AlikeEnds (process_call c) (process_call c) _ _
        (on_connection-AlikeEnds c pop_response st st' s) (process_call-AlikeEnds c)

  by_responder : ℕ → Bool → Eff State (Unit {0})
  by_responder c false = fail aborted
  by_responder c true = λ st. (schedule (st.objects c).endpoint true >> respond_once) st

  -- The reference: the response is queued, its connection scheduled, and the responder takes a turn.
  pub scheduled_path : ℕ → Call → Eff State (Unit {0})
  unfolding by_responder
  scheduled_path c call = on_connection c (push_response call) >>= by_responder c

  -- What is reported of a `processResponse`: `doRespond` passes over a failure, `respond` aborts.
  abbrev pub passed_over : Result Bool → Result Bool
  passed_over (ok b) = ok true
  passed_over (throws e) = throws e
  passed_over (crash e) = crash e

  abbrev pub required : Result Bool → Result (Unit {0})
  required (ok b) = if b then ok tt else Result.crash aborted
  required (throws e) = throws e
  required (crash e) = crash e

  -- One `processResponse` ended as `r`, and both ways have come to the same state.
  abbrev pub SameRound : Result Bool × State → Result (Unit {0}) × State → Type 0
  SameRound inline later =
      (r : Result Bool) × (inline.0 ≡ passed_over r)
      × (later.0 ≡ required r)
      × Alike inline.1 later.1

  both_reported :
      (p p' : Result Bool × State)
      → AlikeEnds p p'
      → SameRound (continue p (λ _. pure true)) (continue p' must_succeed)
  unfolding AlikeEnds
  both_reported (ok true, st) (r, st') (e, s) = rw e (ok true, refl, refl, s)
  both_reported (ok false, st) (r, st') (e, s) = rw e (ok false, refl, refl, s)
  both_reported (throws x, st) (r, st') (e, s) = rw e (throws x, refl, refl, s)
  both_reported (crash x, st) (r, st') (e, s) = rw e (crash x, refl, refl, s)

  module _ (st : State) (c : ℕ) (call : Call) (conn : call.connection ≡ some c)
      (known : IsKnown st c) (nothing_scheduled : st.bq_respond.queue ≡ [])
      (room_there : 0 < st.bq_respond.max_size)
      (nothing_queued : (st.objects c).respond_queue.queue ≡ [])
      (room_here : 0 < (st.objects c).respond_queue.max_size) where
    abbrev pub with_response : State
    with_response = record st {
      objects = update st.objects c (record (st.objects c) {
        respond_queue = push_value (st.objects c).respond_queue call true;
      });
    }

    pushed_room : has_room (st.objects c).respond_queue ≡ true
    pushed_room = lt→ltb _ _ (omega (arith, ap length nothing_queued, room_here))

    push_eq : on_connection c (push_response call) st ≡ (ok true, with_response)
    unfolding push_response
    push_eq = rw (try_push-room (st.objects c).respond_queue call true pushed_room) refl

    alone : (size (with_response.objects c).respond_queue == 1) ≡ true
    unfolding size push_value
    alone = rw (==_refl c) (rw nothing_queued refl)

    inline_eq : do_respond call st ≡ continue (process_response c with_response) (λ _. pure true)
    unfolding do_respond respond_to after_queued
    inline_eq =
        respond_to-some c call st call.connection conn
        ∙ (ap (λ (p : Result Bool × State). continue p (after_queued c)) push_eq ∙ rw alone refl)

    schedule_room : has_room st.bq_respond ≡ true
    schedule_room = lt→ltb _ _ (omega (arith, ap length nothing_scheduled, room_there))

    -- The state in which the responder takes its turn.
    abbrev pub before_turn : State
    before_turn = record with_response {
      bq_respond = push_value st.bq_respond (st.objects c).endpoint true;
    }

    pub scheduled_path-turn : scheduled_path c call st ≡ respond_once before_turn
    unfolding scheduled_path by_responder schedule
    scheduled_path-turn =
        ap (λ (p : Result Bool × State). continue p (by_responder c)) push_eq
        ∙ rw (==_refl c)
            (rw (try_push-room st.bq_respond (st.objects c).endpoint true schedule_room) refl)

    turn_eq :
        (q : BlockQueue ℕ)
        → try_pop [] (push_value st.bq_respond (st.objects c).endpoint true)
          ≡ (some (st.objects c).endpoint, q)
        → respond_once before_turn
          ≡ continue (process_response c (record with_response { bq_respond = q })) must_succeed
    unfolding respond_once respond_next respond_on
    turn_eq q e = rw (e, continue) (rw known refl)

    only_one : (ep : ℕ) → (push_value st.bq_respond ep true).queue ≡ ep ∷ []
    unfolding push_value
    only_one ep = rw nothing_scheduled refl

    -- `doRespond` for a connection of the map, where no connection is scheduled, no response waits
    -- at this one, and both queues can hold an entry. It sends the response itself, and a turn of the
    -- responder after the connection is scheduled does the same: one `processResponse`, with one
    -- result, and the same connections and the same queues. Where the result is false, `doRespond`
    -- returns true and `respond` aborts.
    pub inline-eq-scheduled : SameRound (do_respond call st) (scheduled_path c call st)
    unfolding push_value
    inline-eq-scheduled =
        let (q, e, qe, qm) =
          try_pop-cons (push_value st.bq_respond (st.objects c).endpoint true)
            (st.objects c).endpoint [] (only_one (st.objects c).endpoint) in
        rw (inline_eq, scheduled_path-turn ∙ turn_eq q e)
          (both_reported _ _ (
            process_response-AlikeEnds c with_response (record with_response { bq_respond = q })
              (record {
                objects = refl;
                connections = refl;
                calls = refl;
                waiting = qe ∙ sym nothing_scheduled;
                capacity = qm;
              })))
