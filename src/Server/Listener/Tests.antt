-- ===== src/Server/Listener/Tests.antt =====
-- Two readers and a connection, over the simulated socket.
use p_rpc.Server.Listener.Cleanup.{
  cleanup_connections, cleanup_connections-ends_iff, CanEnd, clean_entries,
}
use p_rpc.Base.{
  ℕ, ◌<◌, ◌≡◌, ◌≢◌, ◌⊎◌, refl, List, [], ◌∷◌, ◌++◌, true, false, some, arith, codes, find,
  minus_one,
}
use p_rpc.BlockQueue.{BlockQueue, has_room, try_push, wait_for}
use p_rpc.Socket.{ok, crash, undefined_behaviour}
use p_rpc.Socket.Simulated.{simulated}
use p_rpc.Writable.{Writable, method_writable, nil, size}
use p_rpc.MethodWritable.Wire.{IsSendable, method, also, int, end, depth_params}
use p_rpc.Method.Dispatch.{four_ints}
use p_rpc.Server.Call.Request.{request_wire, requested}
use p_rpc.Server.Connection.{Connection, time_out}
use p_rpc.Server.State.{State}
use p_rpc.Server.Listener.{
  Listener, add_to_reader, do_read, watch, handle_read, close_connection, add_tries,
}
use p_rpc.Server.Listener.Robin.{first, second, Placed, Refused, add_to_reader_cases}
use p_rpc.Server.Listener.Reading.{Queued, Dropped, do_read-Queued, do_read-Dropped}
use p_rpc.Server.Listener.Counting.{
  IsWellFormed, handle_read-IsWellFormed, close_connection-IsWellFormed,
}

abbrev small : ℕ → BlockQueue ℕ
small n = record { max_size = n; queue = []; cond_is_empty = 0; cond_is_full = 0 }

abbrev idle : Listener
idle = record {
  last_reader_index = minus_one;
  readers = small;
  watched = [];
  accepting = true;
  should_stop = false;
}

-- The first reader has no room here.
abbrev after_add : Listener
after_add = (add_to_reader (λ _. []) 7 idle).1

second_reader : after_add.last_reader_index ≡ 1
unfolding add_to_reader add_tries try_push wait_for
second_reader = refl

add_to_reader_cases_example :
    ((r : ℕ) × (l' : Listener) × (add_to_reader (λ _. []) 7 idle ≡ (true, l'))
      × ((r ≡ first idle) ⊎ ((has_room (idle.readers (first idle)) ≡ false) × (r ≡ second idle)))
      × Placed idle 7 r l')
    ⊎ ((l' : Listener) × (add_to_reader (λ _. []) 7 idle ≡ (false, l')) × Refused idle l')
add_to_reader_cases_example = add_to_reader_cases 7 idle

abbrev request : Writable
request = method_writable (codes "NameNode") (codes "create") (four_ints 1 2 3 4 nil)

request-IsSendable : IsSendable request
unfolding size
request-IsSendable =
    method (record { chars = omega arith; not_empty = omega arith; short = omega arith })
      (record { chars = omega arith; not_empty = omega arith; short = omega arith }) (omega arith)
      (also (int 1) (also (int 2) (also (int 3) (also (int 4) end))))

abbrev line : List ℕ → Connection
line pending = record {
  sock = record { pending = pending; sent = []; room = 1000 };
  endpoint = 8;
  is_open = true;
  respond_queue = record { max_size = 100; queue = []; cond_is_empty = 0; cond_is_full = 0 };
  index = 0;
  last_contact = 0;
}

abbrev serving : List ℕ → State
serving pending = record {
  connections = (8, 0) ∷ [];
  objects = λ _. line pending;
  num_connections = 1;
  last_connection_index = 1;
  bq_call = record { max_size = 100; queue = []; cond_is_empty = 0; cond_is_full = 0 };
  bq_respond = record { max_size = 100; queue = []; cond_is_empty = 0; cond_is_full = 0 };
}

depth-request : depth_params (four_ints 1 2 3 4 nil) < 1
unfolding depth_params
depth-request = omega arith

do_read-Queued_example :
    (st' : State) × (do_read 1 50 0 (serving (request_wire 5 request ++ 9 ∷ []), idle)
      ≡ (ok tt, (st', watch 8 idle)))
    × Queued
        (serving (request_wire 5 request ++ 9 ∷ []))
        0
        50
        (requested 0 5 (codes "NameNode") (codes "create") (four_ints 1 2 3 4 nil))
        (9 ∷ [])
        st'
do_read-Queued_example =
    do_read-Queued 1 50 0 5 (four_ints 1 2 3 4 nil) (serving (request_wire 5 request ++ 9 ∷ []))
      idle (9 ∷ []) request-IsSendable (omega arith) depth-request refl refl

do_read-Dropped_example :
    (st' : State) × (do_read 1 50 0 (serving (1 ∷ 2 ∷ []), idle) ≡ (ok tt, (st', idle)))
    × Dropped (serving (1 ∷ 2 ∷ [])) 0 st'
do_read-Dropped_example = do_read-Dropped 1 50 0 (serving (1 ∷ 2 ∷ [])) idle (omega arith)

serving-named :
    (ep c : ℕ) → find ep (serving []).connections ≡ some c → ((serving []).objects c).endpoint ≡ ep
unfolding find
serving-named ep c h = ground arith

serving-IsWellFormed : IsWellFormed (serving [])
unfolding find
serving-IsWellFormed = record { unique = (refl, tt); counted = refl; named = serving-named }

serving-fresh : (e : ℕ) → find e (serving []).connections ≢ some 1
unfolding find
serving-fresh e = λ h. ground arith

handle_read-IsWellFormed_example :
    IsWellFormed
      (handle_read
        (λ _. [])
        false
        9
        1
        (record { pending = []; sent = []; room = 10 })
        60
        (serving [], idle)).1.0
handle_read-IsWellFormed_example =
    handle_read-IsWellFormed (λ _. []) false (serving []) idle 9 1
      (record { pending = []; sent = []; room = 10 }) 60 serving-IsWellFormed serving-fresh
      (omega arith)

known_8 : find 8 (serving []).connections ≡ some 0
unfolding find
known_8 = refl

close_connection-IsWellFormed_example : IsWellFormed (close_connection 0 8 (serving []))
close_connection-IsWellFormed_example =
    close_connection-IsWellFormed (serving []) 8 0 serving-IsWellFormed known_8 (omega arith)

abbrev contacted : ℕ → State
contacted time = record (serving []) { objects = λ _. record (line []) { last_contact = time } }

young_ends : (cleanup_connections 450 7 (0, contacted 440)).0 ≡ ok tt
unfolding cleanup_connections clean_entries time_out
young_ends = refl

-- A connection without contact for long is closed, and then the iterator is used.
old_crashes : (cleanup_connections 900000 7 (0, contacted 440)).0 ≡ crash undefined_behaviour
unfolding cleanup_connections clean_entries time_out
old_crashes = refl

cleanup_connections-ends_iff_example :
    (CanEnd 450 7 0 (contacted 440)
      → ((cleanup_connections 450 7 (0, contacted 440)).0 ≡ ok tt)
        × ((cleanup_connections 450 7 (0, contacted 440)).1.1 ≡ contacted 440))
    × (¬ CanEnd 450 7 0 (contacted 440)
        → (cleanup_connections 450 7 (0, contacted 440)).0 ≡ crash undefined_behaviour)
cleanup_connections-ends_iff_example = cleanup_connections-ends_iff 450 7 0 (contacted 440)
