-- ===== src/Server/Cycle/Handling.antt =====
-- What a handler makes of a call, and the part of the response that it sends itself.
use p_rpc.BlockQueue.Order.{try_pop-cons}
use p_rpc.Writable.{Writable, to_string}
use p_rpc.Server.Responder.{do_respond}
use p_rpc.BlockQueue.{push_value, BlockQueue}
use p_rpc.Server.Connection.Sending.{front}
use p_rpc.Server.Responder.Delivery.{Outcome, turn_cases}
use mathlib.Core.Path.{subst}
use p_rpc.Server.Call.{Call, set_value}
use p_rpc.Server.Responder.Turn.{Serving, Kept, Kept-trans}
use p_rpc.Server.Handler.{handle_once, handle_call, execute, must_respond, with_result}
use p_rpc.Server.Responder.Inline.{
  required, Alike, before_turn, inline-eq-scheduled, scheduled_path, scheduled_path-turn,
  passed_over,
}
use p_rpc.Server.State.{State}
use p_rpc.Socket.{Asio, Result, ok, throws, crash, continue}
use p_rpc.Base.{
  ℕ, ◌≡◌, Bool, [], ◌<◌, true, false, refl, some, length, ◌^◌, inl, sym, ◌≤◌, ◌∙◌, inr, ◌+◌, ◌-◌,
  ==_refl, ap, List, ◌∷◌, Option, none,
}
use p_rpc.Server.Cycle.{Resting}
use p_rpc.Method
use p_rpc.Server.Call.{with_value}
use p_rpc.Socket.Results.{ok_injective}

module _ ⦃net : Asio⦄ where
  open net use {Socket, pending, sent, room}

  required_ok : (r : Result Bool) → required r ≡ ok tt → r ≡ ok true
  required_ok (ok true) h = refl
  required_ok (ok false) h = cc h
  required_ok (throws x) h = cc h
  required_ok (crash x) h = cc h

  Outcome-Alike :
      (st0 st1 st st' : State) (ep c : ℕ) (call : Call)
      → Alike st st'
      → sent (st0.objects c).sock ≡ sent (st1.objects c).sock
      → Outcome st0 ep c call st'
      → Outcome st1 ep c call st
  Outcome-Alike st0 st1 st st' ep c call s e (inl done) = inl (record {
    nothing_scheduled = sym s.waiting ∙ done.nothing_scheduled;
    nothing_queued = rw s.objects at done.nothing_queued;
    all_sent = rw (s.objects, e) at done.all_sent;
  })
  Outcome-Alike st0 st1 st st' ep c call s e (inr (k, moved, fit, v, t)) = inr (
    k,
    moved,
    fit,
    record {
      scheduled = sym s.waiting ∙ v.scheduled;
      known = rw s.connections at v.known;
      named = rw s.objects at v.named;
      queued = rw s.objects at v.queued;
      room_there = rw s.capacity at v.room_there;
      room_here = rw s.objects at v.room_here;
      short = v.short;
      started = v.started;
      stands = rw s.objects at v.stands;
    },
    rw (s.objects, e) at t,
  )

  Kept-Alike : (st0 st st' : State) (c : ℕ) → Alike st st' → Kept c st0 st' → Kept c st0 st
  Kept-Alike st0 st st' c s k = record {
    calls = sym s.calls ∙ k.calls;
    connections = sym s.connections ∙ k.connections;
    capacity = sym s.capacity ∙ k.capacity;
    endpoint = rw s.objects at k.endpoint;
    unread = rw s.objects at k.unread;
    capacity_here = rw s.objects at k.capacity_here;
    spends = rw s.objects at k.spends;
  }

  module _ (st : State) (c : ℕ) (call : Call) (conn : call.connection ≡ some c)
      (rest : Resting st c) (short : length call.str_val < 2 ^ 31)
      (started : call.pos ≤ length call.str_val)
      (stands : length (front call) + (length call.str_val - call.pos)
        ≤ room (st.objects c).sock) where
    abbrev turned : State
    turned =
        before_turn st c call conn rest.known rest.nothing_scheduled rest.room_there
          rest.nothing_queued rest.room_here

    turned-Serving : Serving turned (st.objects c).endpoint c call
    unfolding push_value
    turned-Serving = record {
      scheduled = rw rest.nothing_scheduled refl;
      known = rest.known;
      named = rw (==_refl c) refl;
      queued = rw (==_refl c) (rw rest.nothing_queued refl);
      room_there = rest.room_there;
      room_here = rw (==_refl c) rest.room_here;
      short = short;
      started = started;
      stands = rw (==_refl c) stands;
    }

    turned-Kept : Kept c st turned
    unfolding push_value
    turned-Kept = record {
      calls = refl;
      connections = refl;
      capacity = refl;
      endpoint = rw (==_refl c) refl;
      unread = rw (==_refl c) refl;
      capacity_here = rw (==_refl c) refl;
      spends = rw (==_refl c) refl;
    }

    -- A handler's `doRespond` sends a first part of the response.
    pub do_respond-Outcome :
        (st' : State) × (do_respond call st ≡ (ok true, st'))
        × Kept c st st'
        × Outcome st (st.objects c).endpoint c call st'
    do_respond-Outcome =
        let (st'', e, kept, next) =
          turn_cases turned (st.objects c).endpoint c call turned-Serving in
        let (r, f, g, s) =
          inline-eq-scheduled st c call conn rest.known rest.nothing_scheduled rest.room_there
            rest.nothing_queued rest.room_here in
        let whole : scheduled_path c call st ≡ (ok tt, st'') =
          scheduled_path-turn st c call conn rest.known rest.nothing_scheduled rest.room_there
            rest.nothing_queued rest.room_here
          ∙ e in
        let sent_ok = required_ok r (sym g ∙ ap (λ (p : Result (Unit {0}) × State). p.0) whole) in
        let same : Alike (do_respond call st).1 st'' =
          subst (λ (p : Result (Unit {0}) × State). Alike (do_respond call st).1 p.1) whole s in
        (
          (do_respond call st).1,
          ap (λ (x : Result Bool). (x, (do_respond call st).1)) (f ∙ ap passed_over sent_ok),
          Kept-trans c st turned _ turned-Kept (Kept-Alike turned _ st'' c same kept),
          Outcome-Alike turned st _ st'' (st.objects c).endpoint c call same (rw (==_refl c) refl)
              next,
        )

-- The call is for the same connection, under the same id, and as much of it is sent.
abbrev pub SameCall : Call → Call → Type 0
SameCall call call' =
    (call'.connection ≡ call.connection) × (call'.call_id ≡ call.call_id) × (call'.pos ≡ call.pos)

with_value-Kept :
    (v : Writable) (call call' : Call) (r : Result (List ℕ))
    → with_value v call r ≡ ok call'
    → SameCall call call'
with_value-Kept v call call' (ok text) h =
    let same : call' ≡ record call { str_val = text; value = some v } = ok_injective (sym h) in
    rw same (refl, refl, refl)
with_value-Kept v call call' (throws x) h = absurd (let failed = h in cc failed)
with_value-Kept v call call' (crash x) h = absurd (let failed = h in cc failed)

with_result-Kept :
    (call call' : Call) (r : Result (Option Writable))
    → with_result call r ≡ ok call'
    → SameCall call call'
unfolding set_value
with_result-Kept call call' (ok none) h = absurd (let failed = h in cc failed)
with_result-Kept call call' (ok (some v)) h = with_value-Kept v call call' (to_string v) h
with_result-Kept call call' (throws x) h = absurd (let failed = h in cc failed)
with_result-Kept call call' (crash x) h = absurd (let failed = h in cc failed)

pub execute-Kept : (call call' : Call) → execute call ≡ ok call' → SameCall call call'
unfolding execute
execute-Kept call call' h =
    with_result-Kept call call' (Method.call call.class_name call.method_name call.params) h

module _ ⦃net : Asio⦄ where
  -- A handler takes the only call, and executes it.
  pub handle_once-responds :
      (st : State) (call call' : Call)
      → st.bq_call.queue ≡ call ∷ []
      → execute call ≡ ok call'
      → (q : BlockQueue Call) × (q.queue ≡ [])
        × (q.max_size ≡ st.bq_call.max_size)
        × (handle_once st ≡ continue (do_respond call' (record st { bq_call = q })) must_respond)
  unfolding handle_once handle_call
  handle_once-responds st call call' h e =
      let (q, f, qe, qm) = try_pop-cons st.bq_call call [] h in (q, qe, qm, rw f (rw e refl))
