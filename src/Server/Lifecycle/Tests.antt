-- ===== src/Server/Lifecycle/Tests.antt =====
-- A server that is stopped, over the simulated socket.
use p_rpc.Socket.{ok, Result}
use p_rpc.Base.{false, ◌≡◌, [], true, ◌∷◌, none, some, ℕ, refl, ap}
use p_rpc.Socket.Simulated.{simulated, Stream}
use p_rpc.BlockQueue.{new_queue, size}
use p_rpc.Server.Connection.{new_connection}
use p_rpc.Server.State.{new_state}
use p_rpc.Server.Lifecycle.{
  Threads, Thread, Process, Sleeps, start, stop, terminate, sigint, stop_listener, each_from,
  handler, finish_reader, finish_handler, reader, finish_responder, poll,
}
use p_rpc.Server.Lifecycle.Stopping.{IsStopped, terminate-IsStopped}
use p_rpc.Server.Listener.{do_accept}

abbrev line : Stream
line = record { pending = []; sent = []; room = 100 }

abbrev fresh : Threads
fresh = record {
  state = new_state (λ _. new_connection line 0 0 0);
  listener = record {
    last_reader_index = 0;
    readers = λ _. new_queue 100;
    watched = [];
    accepting = false;
    should_stop = false;
  };
  reader_stops = λ _. false;
  handler_stops = λ _. false;
  responder_stops = false;
  running = [];
}

-- The responder and the handlers are started before the readers and the listener.
start_order :
    (start fresh).running
    ≡ Thread.responder ∷ handler 0 ∷ handler 1 ∷ reader 0 ∷ reader 1 ∷ Thread.listener ∷ []
unfolding start
start_order = refl

start_accepts : (start fresh).listener.accepting ≡ true
unfolding start do_accept
start_accepts = refl

abbrev at_once : Sleeps
at_once = record { for_reader = λ _. []; for_handler = λ _. []; for_responder = [] }

abbrev process : Process
process = record { terminated = false; status = none; threads = start fresh }

stops : (terminate at_once sigint process).0 ≡ ok tt
unfolding terminate stop stop_listener each_from finish_reader finish_handler finish_responder poll
    size start do_accept new_state new_queue
stops = refl

terminate-IsStopped_example :
    IsStopped (terminate at_once sigint process).1.threads
    × ((terminate at_once sigint process).1.status ≡ some 0)
    × ((signum : ℕ)
        → terminate at_once signum (terminate at_once sigint process).1
          ≡ (ok tt, (terminate at_once sigint process).1))
terminate-IsStopped_example =
    terminate-IsStopped at_once (λ i. tt) (λ i. tt) tt process (terminate at_once sigint process).1
      refl (ap (λ (r : Result (Unit {0})). (r, (terminate at_once sigint process).1)) stops)
