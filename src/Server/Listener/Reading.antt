-- ===== src/Server/Listener/Reading.antt =====
-- What a reader makes of a request, and of a connection that was closed by the client.
use p_rpc.Base.{
  ℕ, ◌<◌, ◌≡◌, refl, ◌∙◌, List, ◌++◌, true, false, some, int_mod, length, erase, ==_refl, ◌≢◌,
  Bool-cases, ◌==◌, inl, ==_iff, inr,
}
use p_rpc.BlockQueue.{has_room, push_value}
use p_rpc.BlockQueue.Order.{try_push-room}
use p_rpc.Socket.{Asio, ok, continue}
use p_rpc.Writable.{method_writable, Params}
use p_rpc.MethodWritable.Wire.{IsSendable, depth_params}
use p_rpc.Server.Call.{Call, new_call, read_call, read_body}
use p_rpc.Server.Call.Request.{request_wire, requested, Reads-call}
use p_rpc.Server.Connection.{Connection, set_last_contact, close}
use p_rpc.Server.State.{State, update}
use p_rpc.Server.Listener.{
  Listener, do_read, read_new_call, after_read, queue_call, close_connection, watch,
}

module _ ⦃net : Asio⦄ where
  open net use {Socket, pending, sent, room, read_short}

  -- The call is queued for the handlers, and the connection is where it was.
  pub record Queued (st : State) (c now : ℕ) (call : Call) (rest : List ℕ) (st' : State)
      : Type 0 where
    pub queued : st'.bq_call ≡ push_value st.bq_call call true
    pub taken : pending (st'.objects c).sock ≡ rest
    pub silent : sent (st'.objects c).sock ≡ sent (st.objects c).sock
    pub contacted : (st'.objects c).last_contact ≡ now
    pub standing : room (st'.objects c).sock ≡ room (st.objects c).sock
    pub endpoint : (st'.objects c).endpoint ≡ (st.objects c).endpoint
    pub respond_queue : (st'.objects c).respond_queue ≡ (st.objects c).respond_queue
    pub known : st'.connections ≡ st.connections
    pub scheduled : st'.bq_respond ≡ st.bq_respond
    pub others_kept : (j : ℕ) → c ≢ j → st'.objects j ≡ st.objects j

  update_other :
      (f : ℕ → Connection) (i j : ℕ) (conn : Connection) → i ≢ j → update f i conn j ≡ f j
  update_other f i j conn h = elim (Bool-cases (i == j)) [
    | inl e ↦ absurd (h ((==_iff i j).0 e))
    | inr e ↦ rw e refl
  ]

  -- Let a sendable method be a request with an id within an `int` that comes in at a connection, and
  -- let the handlers' queue have room, with nobody else at it. Then `_do_read` ends, the call of that
  -- request, with its numbers narrowed, is at the end of that queue, exactly the bytes of the request
  -- are taken, nothing is sent, the time of the contact is noted, no other connection and nothing of
  -- the responder changes, and the connection is watched for the next request. The fuel has to exceed the nesting depth of the
  -- parameters.
  pub do_read-Queued :
      (fuel now c id : ℕ) {class m : List ℕ} (ps : Params) (st : State) (l : Listener)
      (rest : List ℕ)
      → IsSendable (method_writable class m ps)
      → id < int_mod
      → depth_params ps < fuel
      → pending (st.objects c).sock ≡ request_wire id (method_writable class m ps) ++ rest
      → has_room st.bq_call ≡ true
      → (st' : State) × (do_read fuel now c (st, l)
          ≡ (ok tt, (st', watch (st.objects c).endpoint l)))
        × Queued st c now (requested c id class m ps) rest st'
  unfolding do_read read_new_call after_read queue_call set_last_contact
  do_read-Queued fuel now c id {class} {m} ps st l rest h k d p room =
      let (s', e, q, t, r) = (Reads-call fuel c id ps k h d).run (st.objects c).sock rest p in
      (
        record st {
          objects =
              update (update st.objects c (record (st.objects c) { sock = s' })) c
                (record (st.objects c) { sock = s'; last_contact = now });
          bq_call = push_value st.bq_call (requested c id class m ps) true;
        },
        rw (e, continue)
            (rw (==_refl c)
              (rw (try_push-room st.bq_call (requested c id class m ps) true room) refl)),
        record {
          queued = refl;
          taken = rw (==_refl c) q;
          silent = rw (==_refl c) t;
          contacted = rw (==_refl c) refl;
          standing = rw (==_refl c) r;
          endpoint = rw (==_refl c) refl;
          respond_queue = rw (==_refl c) refl;
          known = refl;
          scheduled = refl;
          others_kept = λ j n.
              update_other (update st.objects c (record (st.objects c) { sock = s' })) c j
                (record (st.objects c) { sock = s'; last_contact = now }) n
              ∙ update_other st.objects c j (record (st.objects c) { sock = s' }) n;
        },
      )

  -- The connection is closed and forgotten, and no call is queued.
  pub record Dropped (st : State) (c : ℕ) (st' : State) : Type 0 where
    pub closed : (st'.objects c).is_open ≡ false
    pub forgotten : st'.connections ≡ erase (st.objects c).endpoint st.connections
    pub no_call : st'.bq_call ≡ st.bq_call
    pub still_scheduled : st'.bq_respond ≡ st.bq_respond
    pub others_kept : (j : ℕ) → c ≢ j → st'.objects j ≡ st.objects j

  read_call-short :
      (fuel c : ℕ) (s : Socket)
      → length (pending s) < 4
      → (s' : Socket) × (read_call fuel (new_call (some c), s)
          ≡ (ok false, (new_call (some c), s')))
  unfolding read_call read_body new_call
  read_call-short fuel c s h =
      let (s', e, _, _, _) = read_short 4 s h in (s', rw (e, continue) refl)

  -- If the client closes the connection before the four bytes of the id of a call are there,
  -- `_do_read` ends, the connection is closed and taken out of `_connections`, it is not watched
  -- again, no call is queued, no endpoint is scheduled or taken from the responder, and no other
  -- connection changes.
  pub do_read-Dropped :
      (fuel now c : ℕ) (st : State) (l : Listener)
      → length (pending (st.objects c).sock) < 4
      → (st' : State) × (do_read fuel now c (st, l) ≡ (ok tt, (st', l))) × Dropped st c st'
  unfolding do_read read_new_call after_read close_connection close
  do_read-Dropped fuel now c st l h =
      let (s', e) = read_call-short fuel c (st.objects c).sock h in
      let st' = record st { objects = update st.objects c (record (st.objects c) { sock = s' }) } in
      (
        close_connection c (st.objects c).endpoint st',
        rw (e, continue) (rw (==_refl c) refl),
        record {
          closed = rw (==_refl c) refl;
          forgotten = refl;
          no_call = refl;
          still_scheduled = refl;
          others_kept = λ j n.
              update_other st'.objects c j (close (st'.objects c)) n
              ∙ update_other st.objects c j (record (st.objects c) { sock = s' }) n;
        },
      )
