-- ===== src/Server/Responder/Threads.antt =====
-- The responder and the handlers at work together. A thread is between two of the places where it
-- takes a lock: `doRespond` and `processResponse` of src/Responder.cpp are cut there, and a move is
-- what a thread does under one lock. The moves of different threads come in any order.
use p_rpc.Base.{ℕ, ◌≡◌, ◌≢◌, List, [], ◌∷◌, ◌++◌, Bool, true, false, some, find, none}
use p_rpc.BlockQueue.{BlockQueue, size, try_pop}
use p_rpc.Socket.{Asio, ok}
use p_rpc.Server.Call.{Call}
use p_rpc.Server.Connection.{process_response}
use p_rpc.Server.State.{State, on_connection}
use p_rpc.Server.Listener.{create_connection}
use p_rpc.Server.Responder.{push_response, pop_response, schedule}

-- Where a thread is: between two responses; after it queued a response; before it pops one; with the
-- response that it sends; before it schedules the connection, at the back or at the front.
pub data Task : Type 0 where
  idle : Task
  pushed : ℕ → Task
  popping : ℕ → Task
  sending : ℕ → Call → Task
  scheduling : ℕ → Bool → Task

module _ ⦃net : Asio⦄ where
  open net use {Socket, sent}

  -- The connection is the one that its endpoint leads to.
  abbrev pub IsKnown : State → ℕ → Type 0
  IsKnown st c = find (st.objects c).endpoint st.connections ≡ some c

  -- `push`, `inline`, `later` and `schedule` are the parts of `doRespond`, `take` that of `respond`,
  -- and `pop`, `send_rest` and `send` those of `processResponse`, which ends with a `schedule`.
  pub data Move : State → Task → State → Task → Type 0 where
    push :
        {st : State} {c : ℕ} (call : Call)
        → IsKnown st c
        → (on_connection c (push_response call) st).0 ≡ ok true
        → Move st idle (on_connection c (push_response call) st).1 (pushed c)
    inline :
        {st : State} {c : ℕ}
        → size (st.objects c).respond_queue ≡ 1
        → Move st (pushed c) st (popping c)
    later :
        {st : State} {c : ℕ}
        → size (st.objects c).respond_queue ≢ 1
        → Move st (pushed c) st (scheduling c true)
    schedules :
        {st : State} {c : ℕ} {back : Bool}
        → (schedule (st.objects c).endpoint back st).0 ≡ ok true
        → Move st (scheduling c back) (schedule (st.objects c).endpoint back st).1 idle
    take :
        {st : State} {c ep : ℕ} {q : BlockQueue ℕ}
        → try_pop [] st.bq_respond ≡ (some ep, q)
        → find ep st.connections ≡ some c
        → Move st idle (record st { bq_respond = q }) (popping c)
    pop :
        {st : State} {c : ℕ} {call : Call}
        → (on_connection c pop_response st).0 ≡ ok (some call)
        → Move st (popping c) (on_connection c pop_response st).1 (sending c call)
    send_rest :
        {st : State} {c : ℕ} {call : Call}
        → (on_connection c (process_response [] call) st).0 ≡ ok 1
        → Move st
            (sending c call)
            (on_connection c (process_response [] call) st).1
            (scheduling c false)
    send :
        {st : State} {c : ℕ} {call : Call}
        → (on_connection c (process_response [] call) st).0 ≢ ok 1
        → Move st (sending c call) (on_connection c (process_response [] call) st).1 idle

  pub record World : Type 0 where
    pub state : State
    pub threads : List Task

  -- What other threads do that touch neither the map nor `_bq_respond` nor any queue of responses,
  -- and send nothing.
  pub record Untouched (st st' : State) : Type 0 where
    pub connections : st'.connections ≡ st.connections
    pub scheduled : st'.bq_respond ≡ st.bq_respond
    pub endpoint : (c : ℕ) → (st'.objects c).endpoint ≡ (st.objects c).endpoint
    pub respond_queue : (c : ℕ) → (st'.objects c).respond_queue ≡ (st.objects c).respond_queue
    pub silent : (c : ℕ) → sent (st'.objects c).sock ≡ sent (st.objects c).sock

  -- One thread moves, or a thread does something else, or the listener makes a connection, at an address that is free.
  pub data Step : World → World → Type 0 where
    step :
        {st st' : State} {t t' : Task} (before after : List Task)
        → Move st t st' t'
        → Step
            (record { state = st; threads = before ++ t ∷ after })
            (record { state = st'; threads = before ++ t' ∷ after })
    elsewhere :
        {st st' : State} {threads : List Task}
        → Untouched st st'
        → Step
            (record { state = st; threads = threads })
            (record { state = st'; threads = threads })
    arrive :
        {st : State} {threads : List Task} (ep address : ℕ) (sock : Socket) (now : ℕ)
        → find ep st.connections ≡ none
        → ((e : ℕ) → find e st.connections ≢ some address)
        → Step
            (record { state = st; threads = threads })
            (record { state = create_connection ep address sock now st; threads = threads })

  pub data Steps : World → World → Type 0 where
    done : {w : World} → Steps w w
    next : {u v w : World} → Step u v → Steps v w → Steps u w
