-- ===== src/Server/Responder/Framing.antt =====
-- What goes out at one connection while the threads of the server interleave, as long as each
-- `write_some` takes the whole value that is left.
pub mod Moves
pub mod Runs
pub mod Cut
mod Tests
use p_rpc.Server.Connection.Sending.{response_wire}
use p_rpc.Server.Call.{Call}
use p_rpc.Server.Connection.{process_response}
use p_rpc.Server.State.{State, on_connection}
use p_rpc.Socket.{Asio, ok}
use p_rpc.Base.{[], ◌∷◌, List, ℕ, if◌then◌else◌, ◌==◌, ◌++◌, ◌≡◌, length, ◌<◌, ◌≤◌, ◌^◌}
use p_rpc.Server.Responder.Threads.{
  Task, idle, pushed, popping, sending, scheduling, Move, push, inline, later, schedules, take, pop,
  send_rest, send, Steps, done, next, step, elsewhere, arrive, World,
}

-- The value, if the places are the same.
abbrev pub if_at {ℓ} : {A : Type ℓ} → ℕ → ℕ → A → List A
if_at c d a = if d == c then a ∷ [] else []

abbrev pub sending_by : ℕ → Task → List Call
sending_by c idle = []
sending_by c (pushed d) = []
sending_by c (popping d) = []
sending_by c (sending d call) = if_at c d call
sending_by c (scheduling d back) = []

-- The calls that threads are about to send at the connection `c`.
abbrev pub sending_at : ℕ → List Task → List Call
sending_at c [] = []
sending_at c (t ∷ ts) = sending_by c t ++ sending_at c ts

pub record IsUnsent (call : Call) : Type 0 where
  pub unsent : call.pos ≡ 0
  pub short : length call.str_val < 2 ^ 31

abbrev pub responses : List Call → List ℕ
responses [] = []
responses (call ∷ calls) = response_wire call ++ responses calls

module _ ⦃net : Asio⦄ where
  open net use {Socket, room}

  abbrev pub queue_at : State → ℕ → List Call
  queue_at st c = (st.objects c).respond_queue.queue

  abbrev pub pushed_by : {st st' : State} {t t' : Task} → ℕ → Move st t st' t' → List Call
  pushed_by c (push {c = d} call k h) = if_at c d call
  pushed_by c (inline h) = []
  pushed_by c (later h) = []
  pushed_by c (schedules h) = []
  pushed_by c (take h k) = []
  pushed_by c (pop h) = []
  pushed_by c (send_rest h) = []
  pushed_by c (send h) = []

  abbrev pub sent_by : {st st' : State} {t t' : Task} → ℕ → Move st t st' t' → List Call
  sent_by c (push call k h) = []
  sent_by c (inline h) = []
  sent_by c (later h) = []
  sent_by c (schedules h) = []
  sent_by c (take h k) = []
  sent_by c (pop h) = []
  sent_by c (send_rest h) = []
  sent_by c (send {c = d} {call = call} h) = if_at c d call

  -- At the connection `c`, a call that is pushed is new, the connection stands as long as the
  -- response that is sent, and the response goes out in one round.
  abbrev pub GoesWhole : {st st' : State} {t t' : Task} → ℕ → Move st t st' t' → Type 0
  GoesWhole c (push {c = d} call k h) = if d == c then IsUnsent call else Unit
  GoesWhole c (inline h) = Unit
  GoesWhole c (later h) = Unit
  GoesWhole c (schedules h) = Unit
  GoesWhole c (take h k) = Unit
  GoesWhole c (pop h) = Unit
  GoesWhole c (send_rest {c = d} h) = if d == c then ⊥ else Unit
  GoesWhole c (send {st = st} {c = d} {call = call} h) =
      if d == c
      then ((on_connection d (process_response [] call) st).0 ≡ ok 0)
        × (length (response_wire call) ≤ room (st.objects d).sock)
      else Unit

  -- The same over a run of the system.
  abbrev pub pushed_at : {u w : World} → ℕ → Steps u w → List Call
  pushed_at c done = []
  pushed_at c (next (step before after move) steps) = pushed_by c move ++ pushed_at c steps
  pushed_at c (next (elsewhere same) steps) = pushed_at c steps
  pushed_at c (next (arrive ep address sock now new fresh) steps) = pushed_at c steps

  abbrev pub sent_at : {u w : World} → ℕ → Steps u w → List Call
  sent_at c done = []
  sent_at c (next (step before after move) steps) = sent_by c move ++ sent_at c steps
  sent_at c (next (elsewhere same) steps) = sent_at c steps
  sent_at c (next (arrive ep address sock now new fresh) steps) = sent_at c steps

  abbrev pub AllWhole : {u w : World} → ℕ → Steps u w → Type 0
  AllWhole c done = Unit
  AllWhole c (next (step before after move) steps) = GoesWhole c move × AllWhole c steps
  AllWhole c (next (elsewhere same) steps) = AllWhole c steps
  AllWhole c (next (arrive ep address sock now new fresh) steps) = AllWhole c steps
