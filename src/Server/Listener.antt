-- ===== src/Server/Listener.antt =====
-- include/Listener.h and src/Listener.cpp: the listener accepts connections and hands each one that
-- has something to read to one of its readers; a reader reads a call and queues it for the handlers.
pub mod Robin
pub mod Reading
pub mod Counting
pub mod Cleanup
mod Tests
use p_rpc.Base.{
  ℕ, zero, suc, ◌+◌, ◌-◌, ◌%◌, List, [], ◌∷◌, ◌++◌, Bool, true, false, Option, none, some, ◌&&◌,
  ◌||◌, not, if◌then◌else◌, find, insert, erase, int_mod,
}
use p_rpc.BlockQueue.{BlockQueue, try_push, try_pop, new_queue}
use p_rpc.Socket.{Result, ok, throws, crash, aborted, Eff, pure, fail, ◌>>=◌, ◌>>◌, Asio}
use p_rpc.Server.Call.{Call, new_call, read_call}
use p_rpc.Server.Connection.{Connection, new_connection, set_last_contact, close}
use p_rpc.Server.State.{State, update, on_connection}

abbrev pub num_readers : ℕ
num_readers = 2

-- `readers` are the queues of the readers, with the addresses of connections. `watched` are the
-- endpoints whose sockets wait for something to read, which will be a call of `handle_read`;
-- `accepting` tells whether the acceptor waits for a connection.
pub record Listener : Type 0 where
  pub last_reader_index : ℕ
  pub readers : ℕ → BlockQueue ℕ
  pub watched : List ℕ
  pub accepting : Bool
  pub should_stop : Bool

abbrev pub max_reader_queue_size : ℕ
max_reader_queue_size = 100

-- `Reader(index, max_q_size)`
abbrev pub new_reader : BlockQueue ℕ
new_reader = new_queue max_reader_queue_size

-- `Listener(port)`
unfoldable pub new_listener : Listener
new_listener = record {
  last_reader_index = int_mod - 1;
  readers = λ _. new_reader;
  watched = [];
  accepting = false;
  should_stop = false;
}

-- The index is an `int` that starts at -1.
abbrev pub next_reader : Listener → Listener
next_reader l = record l { last_reader_index = (l.last_reader_index + 1) % int_mod % num_readers }

-- `_readers[_last_reader_index]->add(conn)`
abbrev pub add : List (BlockQueue ℕ → BlockQueue ℕ) → ℕ → Listener → Bool × Listener
add others c l =
    let (q, pushed) = try_push others (l.readers l.last_reader_index) c true in
    (pushed, record l { readers = update l.readers l.last_reader_index q })

-- The loop of `addToReader`, with the tries left and what other threads do to the queue of each.
unfoldable pub add_tries :
    ℕ → (ℕ → List (BlockQueue ℕ → BlockQueue ℕ)) → ℕ → Listener → Bool × Listener
add_tries zero others c l = (false, l)
add_tries (suc n) others c l =
    let (pushed, l') = add (others n) c l in
    let rest = add_tries n others c (next_reader l') in if pushed then (true, l') else rest

-- `addToReader`
unfoldable pub add_to_reader :
    (ℕ → List (BlockQueue ℕ → BlockQueue ℕ)) → ℕ → Listener → Bool × Listener
add_to_reader others c l = add_tries num_readers others c (next_reader l)

abbrev pub watch : ℕ → Listener → Listener
watch ep l = record l { watched = l.watched ++ ep ∷ [] }

-- `_do_accept`
unfoldable pub do_accept : Listener → Listener
do_accept l = if l.should_stop then l else record l { accepting = true }

-- `handle_accept`, which answers the wait of the acceptor.
unfoldable pub handle_accept : Bool → ℕ → Listener → Listener
handle_accept error ep l =
    let accepted = record l { accepting = false } in
    if error || l.should_stop then accepted else do_accept (watch ep accepted)

module _ ⦃net : Asio⦄ where
  open net use {Socket}

  -- A new connection, at the address that the allocator gave.
  unfoldable pub create_connection : ℕ → ℕ → Socket → ℕ → State → State
  create_connection ep address sock now st = record st {
    connections = insert ep address st.connections;
    objects = update st.objects address (new_connection sock ep st.last_connection_index now);
    num_connections = (st.num_connections + 1) % int_mod;
    last_connection_index = (st.last_connection_index + 1) % int_mod;
  }

  -- The connection of an endpoint, created if there is none.
  unfoldable pub retrieve : ℕ → ℕ → Socket → ℕ → Option ℕ → State → ℕ × State
  retrieve ep address sock now none st = (address, create_connection ep address sock now st)
  retrieve ep address sock now (some c) st = (c, st)

  abbrev pub added : State → Bool × Listener → Result (Unit {0}) × (State × Listener)
  added st (true, l) = (ok tt, (st, l))
  added st (false, l) = (crash aborted, (st, l))

  abbrev pub dispatched :
      (ℕ → List (BlockQueue ℕ → BlockQueue ℕ))
      → Listener
      → ℕ × State
      → Result (Unit {0}) × (State × Listener)
  dispatched others l (c, st) = added st (add_to_reader others c l)

  -- `handle_read`: the endpoint is no longer watched, and its connection goes to a reader.
  unfoldable pub handle_read :
      (ℕ → List (BlockQueue ℕ → BlockQueue ℕ))
      → Bool
      → ℕ
      → ℕ
      → Socket
      → ℕ
      → Eff (State × Listener) (Unit {0})
  handle_read others error ep address sock now (st, l) =
      if error || l.should_stop
      then (ok tt, (st, l))
      else dispatched others l (retrieve ep address sock now (find ep st.connections) st)

  -- `close_connection`
  unfoldable pub close_connection : ℕ → ℕ → State → State
  close_connection c ep st = record st {
    objects = update st.objects c (close (st.objects c));
    connections = erase ep st.connections;
    num_connections = (st.num_connections + int_mod - 1) % int_mod;
  }

  abbrev queued : State → BlockQueue Call × Bool → Result (Unit {0}) × State
  queued st (q, pushed) = (if pushed then ok tt else crash aborted, record st { bq_call = q })

  -- `_bq_call.try_push(s_call)`, and `std::abort` if it fails.
  unfoldable pub queue_call : Call → Eff State (Unit {0})
  queue_call call st = queued st (try_push [] st.bq_call call true)

  abbrev pub in_state_listener :
      {A : Type 0} → Listener → Result A × State → Result A × (State × Listener)
  in_state_listener l (r, st) = (r, (st, l))

  abbrev pub on_state : {A : Type 0} → Eff State A → Eff (State × Listener) A
  on_state m (st, l) = in_state_listener l (m st)

  abbrev watching : ℕ → Eff (State × Listener) (Unit {0})
  watching ep (st, l) = (ok tt, (st, watch ep l))

  abbrev closing : ℕ → ℕ → Eff (State × Listener) (Unit {0})
  closing c ep (st, l) = (ok tt, (close_connection c ep st, l))

  abbrev contacted : ℕ → Eff Connection (Unit {0})
  contacted now conn = (ok tt, set_last_contact now conn)

  -- The part of `_do_read` after the call is read.
  unfoldable pub after_read : ℕ → ℕ → Bool × Call → Eff (State × Listener) (Unit {0})
  after_read now c (false, call) (st, l) = closing c (st.objects c).endpoint (st, l)
  after_read now c (true, call) (st, l) =
      (on_state (on_connection c (contacted now) >> queue_call call)
          >> watching (st.objects c).endpoint)
        (st, l)

  abbrev with_sock : Connection → Result Bool × (Call × Socket) → Result (Bool × Call) × Connection
  with_sock conn (ok done, (call, s)) = (ok (done, call), record conn { sock = s })
  with_sock conn (throws e, (call, s)) = (throws e, record conn { sock = s })
  with_sock conn (crash e, (call, s)) = (crash e, record conn { sock = s })

  -- `s_call->read()` of a new call of the connection.
  unfoldable pub read_new_call : ℕ → ℕ → Eff Connection (Bool × Call)
  read_new_call fuel c conn = with_sock conn (read_call fuel (new_call (some c), conn.sock))

  -- `_do_read`, at the time `now`.
  unfoldable pub do_read : ℕ → ℕ → ℕ → Eff (State × Listener) (Unit {0})
  do_read fuel now c = on_state (on_connection c (read_new_call fuel c)) >>= after_read now c

  abbrev next_conn :
      ℕ → State × Listener → Option ℕ × BlockQueue ℕ → Result (Option ℕ) × (State × Listener)
  next_conn i (st, l) (c, q) = (ok c, (st, record l { readers = update l.readers i q }))

  -- `_bq_conn.pop()` of the reader with the index `i`, which waits on if there is no connection.
  unfoldable pub pop_conn : ℕ → Eff (State × Listener) (Option ℕ)
  pop_conn i (st, l) = next_conn i (st, l) (try_pop [] (l.readers i))

  abbrev read_conn : ℕ → ℕ → Option ℕ → Eff (State × Listener) (Unit {0})
  read_conn fuel now none = pure tt
  read_conn fuel now (some c) = do_read fuel now c

  -- One turn of the loop of `Reader::start`.
  unfoldable pub reader_once : ℕ → ℕ → ℕ → Eff (State × Listener) (Unit {0})
  reader_once fuel now i = pop_conn i >>= read_conn fuel now
