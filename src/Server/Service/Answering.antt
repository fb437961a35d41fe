-- ===== src/Server/Service/Answering.antt =====
-- The responses to the requests of a client, over a run of the whole server.
use p_rpc.Base.{[], ◌++◌, ℕ, List, ◌≡◌, Perm, perm_onward}
use p_rpc.Server.Call.{Call}
use p_rpc.Server.Connection.{Connection}
use p_rpc.Server.Listener.{Listener}
use p_rpc.Server.Responder.Framing.{AllWhole, pushed_at, queue_at, responses, sending_at, sent_at}
use p_rpc.Server.Responder.Framing.Runs.{responses_whole}
use p_rpc.Server.Responder.Threads.{IsKnown}
use p_rpc.Server.Responder.Tokens.Found.{all_idle}
use p_rpc.Server.Service.{World, Turns, answers_for, calls_for, read_in}
use p_rpc.Server.Service.Projecting.{project_all}
use p_rpc.Server.Service.Requests.{Turns-Keeps}
use p_rpc.Server.State.{new_state}
use p_rpc.Socket.{Asio}

module _ ⦃net : Asio⦄ where
  open net use {sent}

  abbrev pub start_world : (ℕ → Connection) → Listener → ℕ → World
  start_world memory l n = record {
    state = new_state memory;
    listener = l;
    threads = all_idle n;
    hands = [];
  }

  -- The server holds no call for the connection `c`.
  pub record HoldsNone (c : ℕ) (w : World) : Type 0 where
    pub no_sending : sending_at c w.threads ≡ []
    pub no_response : queue_at w.state c ≡ []
    pub no_hand : calls_for c w.hands ≡ []
    pub no_request : answers_for c w.state.bq_call.queue ≡ []

  -- The responses that the server still has for the connection, as each request leads to one.
  abbrev pub held_at : ℕ → World → List Call
  held_at c w =
      (sending_at c w.threads ++ queue_at w.state c)
      ++ (calls_for c w.hands ++ answers_for c w.state.bq_call.queue)

  -- Between `u` and `w` the responses of the calls `left` went out whole at `c`. They and those that the
  -- server still has are the responses to the requests `read` that are for `c`.
  pub record IsAnswered (c : ℕ) (u w : World) (read left : List Call) : Type 0 where
    pub wire : sent (w.state.objects c).sock ≡ sent (u.state.objects c).sock ++ responses left
    pub calls : Perm (answers_for c read) (left ++ held_at c w)

  -- From the start of the server, with any number of threads, let `u` be a state that was reached in
  -- which the connection `c` is in the map and no call for it is held, and let `w` be reached from
  -- there by turns in any order: readers read sendable requests that have come in, at `c` and
  -- elsewhere, while the handlers' queue has room, handlers take calls whose execution succeeds and
  -- queue the responses, threads send them, bytes come in, and connections arrive. As long as at `c` the responses
  -- that are queued are short and not begun, the connection stands and each `write_some` takes the
  -- whole value, what went out at `c` is a sequence of whole responses of calls that have the value
  -- of their execution; these calls and those held for `c` at the end are, up to the order, what
  -- becomes of the requests that were read at `c`, each as often as it was read.
  pub requests-IsAnswered :
      (memory : ℕ → Connection) (l : Listener) (n c : ℕ) {u w : World}
      → Turns (start_world memory l n) u
      → (turns : Turns u w) → IsKnown u.state c
      → HoldsNone c u
      → AllWhole c (project_all turns)
      → IsAnswered c u w (read_in turns) (sent_at c (project_all turns))
  requests-IsAnswered memory l n c {u} {w} reached turns k h whole =
      let run =
        responses_whole memory n c (project_all reached) (project_all turns) k
          (rw (h.no_sending) tt, rw (h.no_response) tt) whole in
      let queued = rw (h.no_sending, h.no_response) at run.calls in
      let kept = rw (h.no_hand, h.no_request) at (Turns-Keeps {u = u} {w = w} c turns) in
      record {
        wire = run.wire;
        calls =
            perm_onward (answers_for c (read_in turns)) (pushed_at c (project_all turns))
              (sent_at c (project_all turns)) (sending_at c w.threads ++ queue_at w.state c)
              (calls_for c w.hands ++ answers_for c w.state.bq_call.queue) kept queued;
      }
