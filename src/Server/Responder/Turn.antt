-- ===== src/Server/Responder/Turn.antt =====
-- One turn of the loop of `respond`.
use p_rpc.Base.{
  ℕ, zero, suc, ◌+◌, ◌-◌, ◌≤◌, ◌<◌, ◌≡◌, ◌^◌, refl, ◌∙◌, List, [], ◌∷◌, true, false, some, length,
  ==_refl, ap, ◌++◌, drop, arith, take_all, length-drop, find, take, length-append, length-take,
}
use p_rpc.BlockQueue.{BlockQueue, has_room, push_value, try_pop}
use p_rpc.BlockQueue.Order.{try_pop-nil, try_push-room}
use p_rpc.Socket.{Asio, Eff, ok, continue, pure, ◌>>◌}
use p_rpc.Server.Call.{Call, set_pos}
use p_rpc.Server.Connection.{Connection}
use p_rpc.Server.Connection
use p_rpc.Server.Connection.Sending.{front, Sends}
use p_rpc.Server.State.{State, update}
use p_rpc.Server.Responder.{
  pop_response, process_call, process_response, after_round, schedule, respond_once, respond_next,
  respond_on, must_succeed,
}

module _ ⦃net : Asio⦄ where
  open net use {Socket, pending, sent, room}

  -- One call waits at the connection `c` and nothing else at all, and its endpoint is scheduled.
  pub record Serving (st : State) (ep c : ℕ) (call : Call) : Type 0 where
    pub scheduled : st.bq_respond.queue ≡ ep ∷ []
    pub known : find ep st.connections ≡ some c
    pub named : (st.objects c).endpoint ≡ ep
    pub queued : (st.objects c).respond_queue.queue ≡ call ∷ []
    pub room_there : 0 < st.bq_respond.max_size
    pub room_here : 0 < (st.objects c).respond_queue.max_size
    pub short : length call.str_val < 2 ^ 31
    pub started : call.pos ≤ length call.str_val
    pub stands : length (front call) + (length call.str_val - call.pos) ≤ room (st.objects c).sock

  -- Nothing is scheduled or queued any more, and `bytes` are sent.
  pub record Served (st : State) (c : ℕ) (bytes : List ℕ) : Type 0 where
    pub nothing_scheduled : st.bq_respond.queue ≡ []
    pub nothing_queued : (st.objects c).respond_queue.queue ≡ []
    pub all_sent : sent (st.objects c).sock ≡ bytes

  -- What the turns of the responder leave as it is, with one connection in service.
  pub record Kept (c : ℕ) (st st' : State) : Type 0 where
    pub calls : st'.bq_call ≡ st.bq_call
    pub connections : st'.connections ≡ st.connections
    pub capacity : st'.bq_respond.max_size ≡ st.bq_respond.max_size
    pub endpoint : (st'.objects c).endpoint ≡ (st.objects c).endpoint
    pub unread : pending (st'.objects c).sock ≡ pending (st.objects c).sock
    pub capacity_here :
        (st'.objects c).respond_queue.max_size ≡ (st.objects c).respond_queue.max_size
    pub spends :
        room (st'.objects c).sock + length (sent (st'.objects c).sock)
        ≡ room (st.objects c).sock + length (sent (st.objects c).sock)

  pub Kept-refl : (c : ℕ) (st : State) → Kept c st st
  Kept-refl c st = record {
    calls = refl;
    connections = refl;
    capacity = refl;
    endpoint = refl;
    unread = refl;
    capacity_here = refl;
    spends = refl;
  }

  pub Kept-trans : (c : ℕ) (u v w : State) → Kept c u v → Kept c v w → Kept c u w
  Kept-trans c u v w h k = record {
    calls = k.calls ∙ h.calls;
    connections = k.connections ∙ h.connections;
    capacity = k.capacity ∙ h.capacity;
    endpoint = k.endpoint ∙ h.endpoint;
    unread = k.unread ∙ h.unread;
    capacity_here = k.capacity_here ∙ h.capacity_here;
    spends = k.spends ∙ h.spends;
  }

  -- The loop of `respond` for a number of turns.
  unfoldable pub respond_times : ℕ → Eff State (Unit {0})
  respond_times zero = pure tt
  respond_times (suc n) = respond_once >> respond_times n

  -- The state when the call is popped and its round has left the connection as `conn'`.
  abbrev pub after_turn : State → ℕ → BlockQueue ℕ → BlockQueue Call → Connection → State
  after_turn st c q r conn' = record st {
    bq_respond = q;
    objects = update (update st.objects c (record (st.objects c) { respond_queue = r })) c conn';
  }

  -- One turn, in terms of the round that it makes.
  module _ (st : State) (ep c : ℕ) (call : Call) (v : Serving st ep c call) (q : BlockQueue ℕ)
      (r : BlockQueue Call) (e : try_pop [] st.bq_respond ≡ (some ep, q))
      (f : try_pop [] (st.objects c).respond_queue ≡ (some call, r)) (code : ℕ) (conn' : Connection)
      (g : Connection.process_response [] call (record (st.objects c) { respond_queue = r })
        ≡ (ok code, conn')) where
    pub turn_process :
        process_response c (record st { bq_respond = q })
        ≡ after_round c code (after_turn st c q r conn')
    unfolding process_response pop_response process_call
    turn_process = rw (f, continue) (rw (==_refl c) (rw (g, continue) refl))

    pub turn :
        respond_once st ≡ continue (after_round c code (after_turn st c q r conn')) must_succeed
    unfolding respond_once respond_next respond_on
    turn = rw (e, continue) (rw v.known (rw turn_process refl))

    -- The value is sent whole.
    pub turn_done : code ≡ 0 → respond_once st ≡ (ok tt, after_turn st c q r conn')
    unfolding after_round
    turn_done z = turn ∙ rw z refl

    -- The rest of the call was queued again: the endpoint goes back to the front.
    pub turn_more :
        code ≡ 1
        → has_room q ≡ true
        → respond_once st ≡ (
          ok tt,
          record (after_turn st c q r conn') { bq_respond = push_value q conn'.endpoint false },
        )
    unfolding after_round schedule
    turn_more z h = turn ∙ rw z (rw (==_refl c) (rw (try_push-room q conn'.endpoint false h) refl))

  pub turn_idle : (st : State) → st.bq_respond.queue ≡ [] → respond_once st ≡ (ok tt, st)
  unfolding respond_once respond_next
  turn_idle st h = rw (try_pop-nil st.bq_respond h) refl

  pub respond_times-idle :
      (n : ℕ) (st : State) → st.bq_respond.queue ≡ [] → respond_times n st ≡ (ok tt, st)
  unfolding respond_times
  respond_times-idle zero st h = refl
  respond_times-idle (suc n) st h = rw (turn_idle st h, continue) (respond_times-idle n st h)

  -- What a turn leaves, in the terms of the round that it makes.
  module _ (st : State) (ep c : ℕ) (call : Call) (v : Serving st ep c call) (q : BlockQueue ℕ)
      (q_empty : q.queue ≡ []) (q_size : q.max_size ≡ st.bq_respond.max_size) (r : BlockQueue Call)
      (r_empty : r.queue ≡ []) (r_size : r.max_size ≡ (st.objects c).respond_queue.max_size)
      (code : ℕ) (conn' : Connection)
      (sends : Sends call
        (front call)
        (record (st.objects c) { respond_queue = r })
        code
        conn') where
    abbrev pub rest : Call
    rest = set_pos (sends.k + call.pos) call

    pub front-rest : sends.k < length call.str_val - call.pos → length (front rest) ≡ 0
    front-rest more = let k_pos = sends.moves (omega arith) in ground arith

    pub turn-Serving :
        sends.k < length call.str_val - call.pos
        → conn'.respond_queue ≡ push_value r rest true
        → Serving
            (record (after_turn st c q r conn') { bq_respond = push_value q conn'.endpoint false })
            ep
            c
            rest
    unfolding push_value
    turn-Serving more h = record {
      scheduled = rw q_empty (ap (λ x. x ∷ []) (sends.kept ∙ v.named));
      known = v.known;
      named = rw (==_refl c) (sends.kept ∙ v.named);
      queued =
          rw (==_refl c)
            (ap (λ (x : BlockQueue Call). x.queue) h ∙ ap (λ x. x ++ rest ∷ []) r_empty);
      room_there = omega (arith, v.room_there);
      room_here =
          rw (==_refl c) (omega (arith, ap (λ (x : BlockQueue Call). x.max_size) h, v.room_here));
      short = v.short;
      started = omega arith;
      stands = rw (==_refl c) (omega (arith, front-rest more, v.stands, sends.room_left));
    }

    pub turn-Served :
        sends.k ≡ length call.str_val - call.pos
        → conn'.respond_queue ≡ r
        → Served
            (after_turn st c q r conn')
            c
            (sent (st.objects c).sock ++ (front call ++ drop call.pos call.str_val))
    turn-Served all h = record {
      nothing_scheduled = q_empty;
      nothing_queued = rw (==_refl c) (ap (λ (x : BlockQueue Call). x.queue) h ∙ r_empty);
      all_sent = rw (==_refl c) (
          sends.bytes
          ∙ ap (λ x. sent (st.objects c).sock ++ (front call ++ x))
              (take_all sends.k _ (omega (arith, length-drop call.pos call.str_val))));
    }

    -- A round takes from the room of the connection what it sends.
    round_spends :
        room conn'.sock + length (sent conn'.sock)
        ≡ room (st.objects c).sock + length (sent (st.objects c).sock)
    round_spends =
        let part = take sends.k (drop call.pos call.str_val) in
        omega (
          arith,
          sends.room_left,
          sends.fits,
          ap length sends.bytes,
          length-append (sent (st.objects c).sock) (front call ++ part),
          length-append (front call) part,
          length-take sends.k (drop call.pos call.str_val),
          length-drop call.pos call.str_val,
        )

    -- With the queues of the turn's end as `q'` and `r'`.
    pub turn-Kept :
        (q' : BlockQueue ℕ)
        → q'.max_size ≡ q.max_size
        → conn'.respond_queue.max_size ≡ r.max_size
        → Kept c st (record (after_turn st c q r conn') { bq_respond = q' })
    turn-Kept q' h h' = record {
      calls = refl;
      connections = refl;
      capacity = h ∙ q_size;
      endpoint = rw (==_refl c) sends.kept;
      unread = rw (==_refl c) sends.unread;
      capacity_here = rw (==_refl c) (h' ∙ r_size);
      spends = rw (==_refl c) round_spends;
    }
