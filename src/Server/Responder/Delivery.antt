-- ===== src/Server/Responder/Delivery.antt =====
-- A queued response and the turns of the responder that send it.
use p_rpc.Base.{
  ℕ, zero, suc, ◌+◌, ◌-◌, ◌≤◌, ◌<◌, ◌≡◌, ◌∙◌, List, [], false, some, length, ==_refl, ap, ◌++◌,
  drop, arith, ◌⊎◌, take, inl, inr, lt→ltb, ◌==◌, drop-drop, append_assoc, take-append-drop, refl,
}
use p_rpc.BlockQueue.{BlockQueue, push_value, try_pop}
use p_rpc.BlockQueue.Order.{try_pop-cons}
use p_rpc.Socket.{Asio, ok, continue}
use p_rpc.Server.Call.{Call, set_pos}
use p_rpc.Server.Connection.{Connection}
use p_rpc.Server.Connection
use p_rpc.Server.Connection.Sending.{front, Sends, Ends}
use p_rpc.Server.Connection.Rounds.{process_response-Rounds}
use p_rpc.Server.State.{State}
use p_rpc.Server.Responder.{respond_once}
use p_rpc.Server.Responder.Turn.{
  Serving, Served, respond_times, after_turn, turn_done, turn_more, respond_times-idle,
  turn-Serving, turn-Served, Kept, Kept-trans, turn-Kept, Kept-refl,
}

module _ ⦃net : Asio⦄ where
  open net use {Socket, sent, room}

  -- One call in service takes one turn to a state where it is still in service, with more of it
  -- sent, or is done.
  abbrev pub Outcome : State → ℕ → ℕ → Call → State → Type 0
  Outcome st ep c call st' =
      Served st' c (sent (st.objects c).sock ++ (front call ++ drop call.pos call.str_val))
      ⊎ ((k : ℕ) × (0 < k)
          × (k + call.pos ≤ length call.str_val)
          × Serving st' ep c (set_pos (k + call.pos) call)
          × (sent (st'.objects c).sock
              ≡ sent (st.objects c).sock ++ (front call ++ take k (drop call.pos call.str_val))))

  -- By how the round ends.
  turn_by_end :
      (st : State) (ep c : ℕ) (call : Call) (v : Serving st ep c call) (q : BlockQueue ℕ)
      → try_pop [] st.bq_respond ≡ (some ep, q)
      → q.queue ≡ []
      → q.max_size ≡ st.bq_respond.max_size
      → (r : BlockQueue Call) → try_pop [] (st.objects c).respond_queue ≡ (some call, r)
      → r.queue ≡ []
      → r.max_size ≡ (st.objects c).respond_queue.max_size
      → (code : ℕ) (conn' : Connection)
      → Connection.process_response [] call (record (st.objects c) { respond_queue = r })
        ≡ (ok code, conn')
      → (sends : Sends call (front call) (record (st.objects c) { respond_queue = r }) code conn')
      → Ends call (record (st.objects c) { respond_queue = r }) code conn'.respond_queue sends.k
      → (st' : State) × (respond_once st ≡ (ok tt, st')) × Kept c st st' × Outcome st ep c call st'
  unfolding push_value
  turn_by_end st ep c call v q e qe qm r f re rm code conn' g sends (inl (all, z, h)) = (
    after_turn st c q r conn',
    turn_done st ep c call v q r e f code conn' g z,
    turn-Kept st ep c call v q qe qm r re rm code conn' sends q refl
        (ap (λ (x : BlockQueue Call). x.max_size) h),
    inl (turn-Served st ep c call v q qe qm r re rm code conn' sends all h),
  )
  turn_by_end st ep c call v q e qe qm r f re rm code conn' g sends (inr (inl (more, has, z, h))) =
      (
        record (after_turn st c q r conn') { bq_respond = push_value q conn'.endpoint false },
        turn_more st ep c call v q r e f code conn' g z
            (lt→ltb _ _ (omega (arith, ap length qe, v.room_there))),
        turn-Kept st ep c call v q qe qm r re rm code conn' sends
            (push_value q conn'.endpoint false) refl (ap (λ (x : BlockQueue Call). x.max_size) h),
        inr (
          sends.k,
          sends.moves (omega arith),
          omega arith,
          turn-Serving st ep c call v q qe qm r re rm code conn' sends more h,
          rw (==_refl c) sends.bytes,
        ),
      )
  turn_by_end st ep c call v q e qe qm r f re rm code conn' g sends (inr (inr (more, full, z, h))) =
      absurd (ground (arith, ap length re, v.room_here))

  pub turn_cases :
      (st : State) (ep c : ℕ) (call : Call)
      → Serving st ep c call
      → (st' : State) × (respond_once st ≡ (ok tt, st')) × Kept c st st' × Outcome st ep c call st'
  turn_cases st ep c call v =
      let (q, e, qe, qm) = try_pop-cons st.bq_respond ep [] v.scheduled in
      let (r, f, re, rm) = try_pop-cons (st.objects c).respond_queue call [] v.queued in
      let (code, conn', g, sends) =
        process_response-Rounds call (record (st.objects c) { respond_queue = r }) v.short v.started
          v.stands in
      turn_by_end st ep c call v q e qe qm r f re rm code conn' g sends sends.ends

  parts_joined :
      (before : List ℕ) (call : Call) (k : ℕ)
      → 0 < k
      → (before ++ (front call ++ take k (drop call.pos call.str_val)))
          ++ (front (set_pos (k + call.pos) call) ++ drop (k + call.pos) call.str_val)
        ≡ before ++ (front call ++ drop call.pos call.str_val)
  parts_joined before call k h =
      let later : ((k + call.pos) == 0) ≡ false = ground arith in
      rw (later, ← drop-drop call.pos k call.str_val)
        (append_assoc before _ _
          ∙ ap (◌++◌ before) (
              append_assoc (front call) _ _
              ∙ ap (◌++◌ (front call)) (take-append-drop k (drop call.pos call.str_val))))

  -- Some turns of the responder after which nothing is left and `bytes` are sent.
  abbrev pub Drained : ℕ → State → ℕ → List ℕ → Type 0
  Drained n st c bytes =
      (st' : State) × (respond_times n st ≡ (ok tt, st')) × Served st' c bytes × Kept c st st'

  -- After a round, the turns that send what is left of the call.
  pub Outcome-Drained :
      (n : ℕ) (st st' : State) (ep c : ℕ) (call : Call)
      → Outcome st ep c call st'
      → ((later : Call)
          → Serving st' ep c later
          → length later.str_val - later.pos < n
          → Drained n st' c
              (sent (st'.objects c).sock ++ (front later ++ drop later.pos later.str_val)))
      → length call.str_val - call.pos < suc n
      → Drained n st' c (sent (st.objects c).sock ++ (front call ++ drop call.pos call.str_val))
  Outcome-Drained n st st' ep c call (inl done) later h =
      (st', respond_times-idle n st' done.nothing_scheduled, done, Kept-refl c st')
  Outcome-Drained n st st' ep c call (inr (k, moved, fit, v, s)) later h =
      let (st'', e, w, kept) = later (set_pos (k + call.pos) call) v (omega arith) in
      (
        st'',
        e,
        record {
          nothing_scheduled = w.nothing_scheduled;
          nothing_queued = w.nothing_queued;
          all_sent = w.all_sent ∙ rw s (parts_joined (sent (st.objects c).sock) call k moved);
        },
        kept,
      )

  -- A response that is alone at its connection and scheduled is sent whole and once, whatever part
  -- of it each `write_some` takes: the header, if nothing was sent before, and the rest of the
  -- value. This takes at most one turn of the responder for each byte and one more; then nothing is
  -- left in the queues, and what the connection has to read is as it was. The connection has to stand long enough and the value to be shorter than
  -- 2 ^ 31 bytes.
  pub response_delivered :
      (n : ℕ) (st : State) (ep c : ℕ) (call : Call)
      → Serving st ep c call
      → length call.str_val - call.pos < n
      → Drained n st c (sent (st.objects c).sock ++ (front call ++ drop call.pos call.str_val))
  unfolding respond_times
  response_delivered zero st ep c call v h = absurd (omega arith)
  response_delivered (suc n) st ep c call v h =
      let (st', e, kept, next) = turn_cases st ep c call v in
      let (st'', e', w, kept') =
        Outcome-Drained n st st' ep c call next
          (λ (later : Call) v' h'. response_delivered n st' ep c later v' h') h in
      (st'', rw (e, continue) e', w, Kept-trans c st st' st'' kept kept')
