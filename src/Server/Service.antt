-- ===== src/Server/Service.antt =====
-- The whole server at work: readers that read requests, handlers that execute them and queue the
-- responses, responders and arriving connections, in any order.
pub mod Sample
mod Tests
pub mod Answering
pub mod Projecting
pub mod Requests
use p_rpc.BlockQueue.{has_room, BlockQueue, try_pop}
use p_rpc.MethodWritable.Wire.{IsSendable, depth_params}
use p_rpc.Writable.{Params, method_writable}
use p_rpc.Server.Call.Request.{requested, request_wire}
use p_rpc.Server.Listener.{Listener, do_read, create_connection}
use p_rpc.Server.State.{State, on_connection, update}
use p_rpc.Server.Handler.{execute}
use p_rpc.Base.{
  [], ◌∷◌, ℕ, List, Option, ◌++◌, if◌then◌else◌, Bool, false, some, ◌==◌, ◌<◌, none, int_mod, ◌≡◌,
  true, find, ◌≢◌,
}
use p_rpc.Server.Call.{Call}
use p_rpc.Server.Responder.{push_response}
use p_rpc.Server.Responder.Threads.{
  Task, idle, pushed, IsKnown, Move, push, inline, later, schedules, take, pop, send_rest, send,
}
use p_rpc.Socket.{Result, ok, throws, crash, Asio}

-- The calls of a list that are for the connection `c`.
abbrev pub is_for : ℕ → Option ℕ → Bool
is_for c none = false
is_for c (some d) = d == c

abbrev pub one_for : ℕ → Call → List Call
one_for c call = if is_for c call.connection then call ∷ [] else []

abbrev pub calls_for : ℕ → List Call → List Call
calls_for c [] = []
calls_for c (call ∷ calls) = one_for c call ++ calls_for c calls

-- The call with its value, if its execution succeeds.
abbrev pub answered_by : Result Call → List Call
answered_by (ok call) = call ∷ []
answered_by (throws e) = []
answered_by (crash e) = []

-- The responses to the calls for the connection `c`.
abbrev pub answer_for : ℕ → Call → List Call
answer_for c call = if is_for c call.connection then answered_by (execute call) else []

abbrev pub answers_for : ℕ → List Call → List Call
answers_for c [] = []
answers_for c (call ∷ calls) = answer_for c call ++ answers_for c calls

module _ ⦃net : Asio⦄ where
  open net use {Socket, pending, sent}

  -- `hands` are the executed calls that handlers have in hand, and `threads` where the threads are
  -- that take part in sending.
  pub record World : Type 0 where
    pub state : State
    pub listener : Listener
    pub threads : List Task
    pub hands : List Call

  abbrev pub IsNoPush : {st st' : State} {t t' : Task} → Move st t st' t' → Type 0
  IsNoPush (push call k h) = ⊥
  IsNoPush (inline h) = Unit
  IsNoPush (later h) = Unit
  IsNoPush (schedules h) = Unit
  IsNoPush (take h k) = Unit
  IsNoPush (pop h) = Unit
  IsNoPush (send_rest h) = Unit
  IsNoPush (send h) = Unit

  -- A reader reads a request that has come in; a handler takes a call and executes it, or queues the
  -- response that it has in hand, as `doRespond` begins; a thread moves; bytes come in at a connection;
  -- or a connection arrives.
  pub data Turn : World → World → Type 0 where
    reads :
        {st : State} {l : Listener} {threads : List Task} {hands : List Call} {class m : List ℕ}
        (fuel now c id : ℕ) (ps : Params) (rest : List ℕ)
        → IsSendable (method_writable class m ps)
        → id < int_mod
        → depth_params ps < fuel
        → pending (st.objects c).sock ≡ request_wire id (method_writable class m ps) ++ rest
        → has_room st.bq_call ≡ true
        → Turn
            (record { state = st; listener = l; threads = threads; hands = hands })
            (record {
              state = (do_read fuel now c (st, l)).1.0;
              listener = (do_read fuel now c (st, l)).1.1;
              threads = threads;
              hands = hands;
            })
    takes :
        {st : State} {l : Listener} {threads : List Task} {hands : List Call} {q : BlockQueue Call}
        (call call' : Call)
        → try_pop [] st.bq_call ≡ (some call, q)
        → execute call ≡ ok call'
        → Turn
            (record { state = st; listener = l; threads = threads; hands = hands })
            (record {
              state = record st { bq_call = q };
              listener = l;
              threads = threads;
              hands = call' ∷ hands;
            })
    gives :
        {st : State} {l : Listener} {c : ℕ} (before after : List Task) (hands others : List Call)
        (call : Call)
        → call.connection ≡ some c
        → IsKnown st c
        → (on_connection c (push_response call) st).0 ≡ ok true
        → Turn
            (record {
              state = st;
              listener = l;
              threads = before ++ idle ∷ after;
              hands = hands ++ call ∷ others;
            })
            (record {
              state = (on_connection c (push_response call) st).1;
              listener = l;
              threads = before ++ pushed c ∷ after;
              hands = hands ++ others;
            })
    goes :
        {st st' : State} {t t' : Task} {l : Listener} {hands : List Call} (before after : List Task)
        (move : Move st t st' t')
        → IsNoPush move
        → Turn
            (record { state = st; listener = l; threads = before ++ t ∷ after; hands = hands })
            (record { state = st'; listener = l; threads = before ++ t' ∷ after; hands = hands })
    hears :
        {st : State} {l : Listener} {threads : List Task} {hands : List Call} (d : ℕ) (s : Socket)
        → sent s ≡ sent (st.objects d).sock
        → Turn
            (record { state = st; listener = l; threads = threads; hands = hands })
            (record {
              state = record st {
                objects = update st.objects d (record (st.objects d) { sock = s });
              };
              listener = l;
              threads = threads;
              hands = hands;
            })
    comes :
        {st : State} {l : Listener} {threads : List Task} {hands : List Call} (ep address : ℕ)
        (sock : Socket) (now : ℕ)
        → find ep st.connections ≡ none
        → ((e : ℕ) → find e st.connections ≢ some address)
        → Turn
            (record { state = st; listener = l; threads = threads; hands = hands })
            (record {
              state = create_connection ep address sock now st;
              listener = l;
              threads = threads;
              hands = hands;
            })

  pub data Turns : World → World → Type 0 where
    done : {w : World} → Turns w w
    next : {u v w : World} → Turn u v → Turns v w → Turns u w

  -- The requests that were read, as the server has them.
  abbrev pub read_by : {u w : World} → Turn u w → List Call
  read_by (reads {class = class} {m = m} fuel now d id ps rest h k e p room) =
      requested d id class m ps ∷ []
  read_by (takes call call' h e) = []
  read_by (gives before after hands others call h k e) = []
  read_by (goes before after move h) = []
  read_by (hears d s h) = []
  read_by (comes ep address sock now new fresh) = []

  abbrev pub read_in : {u w : World} → Turns u w → List Call
  read_in done = []
  read_in (next turn turns) = read_by turn ++ read_in turns
