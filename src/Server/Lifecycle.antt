-- ===== src/Server/Lifecycle.antt =====
-- src/Server.cpp, `run`, `start` and `stop` of the listener, `start` and `waitToFinish` of readers,
-- handlers and the responder, and `terminate` of main.cpp: how the server starts and stops. A thread
-- that polls a queue sleeps between the checks, and other threads go on meanwhile.
pub mod Flags
pub mod Stopping
mod Tests
use p_rpc.Socket.{Asio, Eff, Result, ok, pure, crash, ◌>>◌, out_of_fuel, throws}
use p_rpc.Base.{
  Bool, ℕ, ◌==◌, ◌++◌, List, Option, suc, ◌+◌, true, ◌∷◌, [], zero, if◌then◌else◌, some, ◌&&◌, not,
  false,
}
use p_rpc.BlockQueue.{BlockQueue, size}
use p_rpc.Server.State.{State, update, new_state}
use p_rpc.Server.Connection.{Connection}
use p_rpc.Server.Listener.{new_listener, Listener, num_readers, do_accept}

abbrev pub num_handlers : ℕ
num_handlers = 2

pub data Thread : Type 0 where
  responder listener : Thread
  handler reader : ℕ → Thread

-- `while (!empty) sleep`, with what the others do in each sleep; false if it polls still.
unfoldable pub poll {ℓ} : {S : Type ℓ} → (S → Bool) → List (S → S) → S → Bool × S
poll empty [] s = (empty s, s)
poll empty (sleep ∷ sleeps) s =
    let rest = poll empty sleeps (sleep s) in if empty s then (true, s) else rest

module _ ⦃net : Asio⦄ where
  -- The `_should_stop` of the listener is in `listener`; those of the others stand here, and the
  -- threads that were started, in their order.
  pub record Threads : Type 0 where
    pub state : State
    pub listener : Listener
    pub reader_stops : ℕ → Bool
    pub handler_stops : ℕ → Bool
    pub responder_stops : Bool
    pub running : List Thread

  -- `Server(port)`: no thread runs, and no flag is set.
  unfoldable pub new_server : (ℕ → Connection) → Threads
  new_server memory = record {
    state = new_state memory;
    listener = new_listener;
    reader_stops = λ _. false;
    handler_stops = λ _. false;
    responder_stops = false;
    running = [];
  }

  abbrev run_thread : Thread → Threads → Threads
  run_thread t s = record s { running = s.running ++ t ∷ [] }

  abbrev run_from : (ℕ → Thread) → ℕ → ℕ → Threads → Threads
  run_from thread zero i s = s
  run_from thread (suc n) i s = run_from thread n (i + 1) (run_thread (thread i) s)

  -- `Listener::start`, up to the service of the events.
  abbrev pub start_listener : Threads → Threads
  start_listener s = record s {
    listener = if s.listener.should_stop then s.listener else do_accept s.listener;
  }

  -- `Listener::run`, up to the join.
  abbrev run_listener : Threads → Threads
  run_listener s = start_listener (run_thread listener (run_from reader num_readers 0 s))

  -- `Server::start`
  unfoldable pub start : Threads → Threads
  start s = run_listener (run_from handler num_handlers 0 (run_thread responder s))

  abbrev pub finished : (Threads → Threads) → Bool × Threads → Result (Unit {0}) × Threads
  finished set_stop (true, s) = (ok tt, set_stop s)
  finished set_stop (false, s) = (crash out_of_fuel, s)

  abbrev is_zero : ℕ → Bool
  is_zero n = n == 0

  -- `Reader::waitToFinish`
  unfoldable pub finish_reader : List (Threads → Threads) → ℕ → Eff Threads (Unit {0})
  finish_reader sleeps i s =
      finished (λ s'. record s' { reader_stops = update s'.reader_stops i true })
        (poll (λ s'. is_zero (size (s'.listener.readers i))) sleeps s)

  -- `Handler::waitToFinish`
  unfoldable pub finish_handler : List (Threads → Threads) → ℕ → Eff Threads (Unit {0})
  finish_handler sleeps i s =
      finished (λ s'. record s' { handler_stops = update s'.handler_stops i true })
        (poll (λ s'. is_zero (size s'.state.bq_call)) sleeps s)

  -- `Responder::waitToFinish`
  unfoldable pub finish_responder : List (Threads → Threads) → Eff Threads (Unit {0})
  finish_responder sleeps s =
      finished (λ s'. record s' { responder_stops = true })
        (poll (λ s'. is_zero (size s'.state.bq_respond)) sleeps s)

  -- What the others do while each of the waits sleeps.
  pub record Sleeps : Type 0 where
    pub for_reader : ℕ → List (Threads → Threads)
    pub for_handler : ℕ → List (Threads → Threads)
    pub for_responder : List (Threads → Threads)

  -- `for (i = ...; i < ...; i++)`, for the rounds left.
  unfoldable pub each_from : (ℕ → Eff Threads (Unit {0})) → ℕ → ℕ → Eff Threads (Unit {0})
  each_from body zero i = pure tt
  each_from body (suc n) i = body i >> each_from body n (i + 1)

  -- `Listener::stop`
  unfoldable pub stop_listener : Sleeps → Eff Threads (Unit {0})
  stop_listener sleeps s =
      each_from (λ i. finish_reader (sleeps.for_reader i) i) num_readers 0
        (record s { listener = record s.listener { should_stop = true } })

  -- `Server::stop`
  unfoldable pub stop : Sleeps → Eff Threads (Unit {0})
  stop sleeps = do
    stop_listener sleeps
    each_from (λ i. finish_handler (sleeps.for_handler i) i) num_handlers 0
    finish_responder sleeps.for_responder

  -- The process: `terminated`, and the status that `exit` was called with.
  pub record Process : Type 0 where
    pub terminated : Bool
    pub status : Option ℕ
    pub threads : Threads

  abbrev pub stopped : Process → Result (Unit {0}) × Threads → Result (Unit {0}) × Process
  stopped p (ok u, s) = (ok tt, record p { status = some 0; threads = s })
  stopped p (throws e, s) = (throws e, record p { threads = s })
  stopped p (crash e, s) = (crash e, record p { threads = s })

  abbrev pub sigint : ℕ
  sigint = 2

  -- `terminate`
  unfoldable pub terminate : Sleeps → ℕ → Eff Process (Unit {0})
  terminate sleeps signum p =
      let stopping = stopped (record p { terminated = true }) (stop sleeps p.threads) in
      if signum == sigint && not p.terminated then stopping else (ok tt, p)
