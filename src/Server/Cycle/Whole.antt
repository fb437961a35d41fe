-- ===== src/Server/Cycle/Whole.antt =====
-- A request that is served whole.
use p_rpc.MethodWritable.Wire.{IsSendable, depth_params}
use p_rpc.Server.Listener.{Listener, watch}
use p_rpc.Writable.{Params, method_writable}
use p_rpc.Server.Call.Request.{requested, request_wire}
use p_rpc.Server.Connection.Rounds.{length-header}
use p_rpc.Server.Responder.Delivery.{Outcome-Drained, response_delivered}
use p_rpc.Server.Cycle.Handling.{execute-Kept, handle_once-responds, do_respond-Outcome}
use p_rpc.Server.Responder.Turn.{respond_times, Kept-trans}
use p_rpc.BlockQueue.{BlockQueue, push_value}
use p_rpc.Server.Handler.{execute, handle_once}
use p_rpc.Server.Listener.Reading.{Queued, do_read-Queued}
use p_rpc.Server.Cycle.{Quiet, Resting, serve}
use p_rpc.Server.Connection.Sending.{response_wire, front, whole_wire}
use p_rpc.Base.{
  ℕ, List, ◌≡◌, ◌++◌, some, refl, length, ◌<◌, ◌^◌, ◌+◌, ◌≤◌, ◌-◌, ◌∷◌, [], ◌∙◌, arith, ap, int_mod,
  lt→ltb, length-append,
}
use p_rpc.Server.State.{State}
use p_rpc.Socket.{Asio, ok, ◌>>◌, continue}
use p_rpc.Server.Call.{Call}

module _ ⦃net : Asio⦄ where
  open net use {Socket, pending, sent, room}

  -- The response went out whole, and the connection is quiet again.
  pub record Replied (st : State) (c : ℕ) (call : Call) (rest : List ℕ) (st' : State) : Type 0 where
    pub quiet : Quiet st' c
    pub taken : pending (st'.objects c).sock ≡ rest
    pub replied : sent (st'.objects c).sock ≡ sent (st.objects c).sock ++ response_wire call
    pub connections : st'.connections ≡ st.connections
    pub room_left :
        room (st.objects c).sock ≡ room (st'.objects c).sock + length (response_wire call)

  -- From the state in which a reader has queued the call.
  module _ (n c now : ℕ) (requested response : Call) (st st1 : State) (rest : List ℕ)
      (quiet : Quiet st c) (q1 : Queued st c now requested rest st1)
      (conn : requested.connection ≡ some c) (unsent : requested.pos ≡ 0)
      (executed : execute requested ≡ ok response) (short : length response.str_val < 2 ^ 31)
      (stands : 12 + length response.str_val ≤ room (st.objects c).sock)
      (turns : length response.str_val ≤ n) where
    one_call : st1.bq_call.queue ≡ requested ∷ []
    unfolding push_value
    one_call = rw (q1.queued, quiet.nothing_called) refl

    call_room : st1.bq_call.max_size ≡ st.bq_call.max_size
    unfolding push_value
    call_room = rw q1.queued refl

    resting : (q : BlockQueue Call) → Resting (record st1 { bq_call = q }) c
    resting q = record {
      nothing_scheduled = rw q1.scheduled quiet.resting.nothing_scheduled;
      nothing_queued = rw q1.respond_queue quiet.resting.nothing_queued;
      known = rw (q1.known, q1.endpoint) quiet.resting.known;
      room_there = rw q1.scheduled quiet.resting.room_there;
      room_here = rw q1.respond_queue quiet.resting.room_here;
    }

    fits :
        length (front response) + (length response.str_val - response.pos)
        ≤ room (st1.objects c).sock
    fits =
        let fresh : response.pos ≡ 0 = (execute-Kept requested response executed).2 ∙ unsent in
        rw fresh (omega (arith, length-header response, q1.standing))

    -- Room is left for all but the response.
    leaves :
        (st' : State)
        → room (st'.objects c).sock + length (sent (st'.objects c).sock)
          ≡ room (st1.objects c).sock + length (sent (st1.objects c).sock)
        → sent (st'.objects c).sock ≡ sent (st.objects c).sock ++ response_wire response
        → room (st.objects c).sock ≡ room (st'.objects c).sock + length (response_wire response)
    leaves st' spends replied = omega (
      arith,
      spends,
      q1.standing,
      ap length q1.silent,
      ap length replied,
      length-append (sent (st.objects c).sock) (response_wire response),
    )

    handled :
        (st' : State) × ((handle_once >> respond_times n) st1 ≡ (ok tt, st'))
        × Replied st c response rest st'
    handled =
        let (same_conn, same_id, same_pos) = execute-Kept requested response executed in
        let (q, qe, qm, f) = handle_once-responds st1 requested response one_call executed in
        let st2 = record st1 { bq_call = q } in
        let (st3, g, kept, next) =
          do_respond-Outcome st2 c response (same_conn ∙ conn) (resting q) short
            (omega (arith, same_pos, unsent)) fits in
        let (st4, e, served, kept') =
          Outcome-Drained n st2 st3 (st2.objects c).endpoint c response next
            (λ (later : Call) v h. response_delivered n st3 (st2.objects c).endpoint c later v h)
            (omega arith) in
        let all_kept = Kept-trans c st2 st3 st4 kept kept' in
        let replied : sent (st4.objects c).sock
            ≡ sent (st.objects c).sock ++ response_wire response =
          served.all_sent
          ∙ (rw q1.silent
              (ap (◌++◌ (sent (st.objects c).sock)) (whole_wire response (same_pos ∙ unsent)))) in
        (
          st4,
          rw f (rw (g, continue) (rw e refl)),
          record {
            quiet = record {
              nothing_called = ap (λ (b : BlockQueue Call). b.queue) all_kept.calls ∙ qe;
              room_called = omega (
                arith,
                ap (λ (b : BlockQueue Call). b.max_size) all_kept.calls,
                call_room,
                quiet.room_called,
              );
              resting = record {
                nothing_scheduled = served.nothing_scheduled;
                nothing_queued = served.nothing_queued;
                known = rw (all_kept.connections, all_kept.endpoint) (resting q).known;
                room_there = rw all_kept.capacity (resting q).room_there;
                room_here = rw all_kept.capacity_here (resting q).room_here;
              };
            };
            taken = all_kept.unread ∙ q1.taken;
            replied = replied;
            connections = all_kept.connections ∙ q1.known;
            room_left = leaves st4 all_kept.spends replied;
          },
        )

  -- Let a sendable method be a request with an id within an `int` that comes in at a connection of
  -- the server with nothing under way, and let its execution, with the numbers narrowed, give a value
  -- of less than 2 ^ 31 bytes. If the connection stands long enough, the fuel exceeds the nesting
  -- depth of the parameters and the responder takes at least one turn for each byte of the value,
  -- then a turn of the reader and one of a handler and those of the responder end; exactly the bytes
  -- of the request are taken and exactly the response to it is sent, whole and once; nothing is under
  -- way again, and the connection is watched for the next request.
  pub serve-Replied :
      (n fuel now c id : ℕ) {class m : List ℕ} (ps : Params) (st : State) (l : Listener)
      (rest : List ℕ) (response : Call)
      → Quiet st c
      → IsSendable (method_writable class m ps)
      → id < int_mod
      → depth_params ps < fuel
      → pending (st.objects c).sock ≡ request_wire id (method_writable class m ps) ++ rest
      → execute (requested c id class m ps) ≡ ok response
      → length response.str_val < 2 ^ 31
      → 12 + length response.str_val ≤ room (st.objects c).sock
      → length response.str_val ≤ n
      → (st' : State) × (serve n fuel now c (st, l)
          ≡ (ok tt, (st', watch (st.objects c).endpoint l)))
        × Replied st c response rest st'
  unfolding serve
  serve-Replied n fuel now c id {class} {m} ps st l rest response quiet h k d p x short stands
        turns =
      let (st1, e, q1) =
        do_read-Queued fuel now c id ps st l rest h k d p
          (lt→ltb _ _ (omega (arith, ap length quiet.nothing_called, quiet.room_called))) in
      let (st', f, replied) =
        handled n c now (requested c id class m ps) response st st1 rest quiet q1 refl refl x short
          stands turns in
      (st', rw (e, continue) (rw f refl), replied)
