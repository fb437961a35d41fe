-- ===== src/Client/Tests.antt =====
-- A client that waits for the values of two calls, over the simulated socket.
use p_rpc.Base.{
  ℕ, ◌+◌, ◌%◌, ◌≡◌, refl, List, [], ◌∷◌, ◌++◌, true, false, some, none, arith, codes, le_bytes,
  find, int_mod, inl,
}
use p_rpc.Socket.{ok}
use p_rpc.Socket.Simulated.{simulated}
use p_rpc.Writable.{writable, int_writable, nil}
use p_rpc.IntWritable.Narrow.{int_wire}
use p_rpc.Method.Dispatch.{four_ints}
use p_rpc.Server
use p_rpc.Server.Call.Request.{requested}
use p_rpc.Server.Connection.Sending.{response_wire}
use p_rpc.Server.Handler.Answer.{served, served_sum, create-exact, execute-sum}
use p_rpc.Client.Call.{Call}
use p_rpc.Client.Connection.{Connection, socket, recv_respond, recv_start}
use p_rpc.Client.Connection.Receiving.{Answers, recv_respond-Answers}
use p_rpc.Client.Connection.Idle.{recv_start-busy}

abbrev waiting_call : ℕ → Call
waiting_call id = record {
  value_class = codes "IntWritable";
  id = id;
  param = writable;
  value = none;
  done = false;
}

abbrev connected : List ℕ → Connection
connected pending = record {
  sock = socket (record { pending = pending; sent = []; room = 100 });
  endpoint = 8;
  recv_started = true;
  calls = (0, waiting_call 0) ∷ (1, waiting_call 1) ∷ [];
  should_close = false;
  last_call_index = 2;
  index = 0;
}

-- The value 300 for the call 1, and a byte of the next response.
abbrev answer_bytes : List ℕ
answer_bytes = le_bytes 4 1 ++ (int_wire 300 ++ 9 ∷ [])

finds_1 : find 1 (connected answer_bytes).calls ≡ some (waiting_call 1)
unfolding find
finds_1 = refl

recv_respond-Answers_example :
    (conn' : Connection) × (recv_respond 1 (connected answer_bytes) ≡ (ok tt, conn'))
    × Answers
        (connected answer_bytes)
        (record { pending = answer_bytes; sent = []; room = 100 })
        1
        300
        (waiting_call 1)
        (9 ∷ [])
        conn'
recv_respond-Answers_example =
    recv_respond-Answers 0 (connected answer_bytes)
      (record { pending = answer_bytes; sent = []; room = 100 }) 1 300 (waiting_call 1) (9 ∷ [])
      refl (omega arith) finds_1 refl refl

recv_start-busy_example : ¬ (
    (recv_start 1 (record { others = λ _. []; should_stop = true } ∷ []) (connected [])).0
    ≡ ok true)
recv_start-busy_example =
    recv_start-busy 1 (record { others = λ _. []; should_stop = true } ∷ []) (connected []) refl

abbrev response : Server.Call.Call
response =
    served (requested 0 1 (codes "NameNode") (codes "create") (four_ints 1 2 3 4 nil))
      (served_sum 1 2 3 4)

abbrev response_bytes : List ℕ
response_bytes = response_wire response ++ 9 ∷ []

finds_1_too : find 1 (connected response_bytes).calls ≡ some (waiting_call 1)
unfolding find
finds_1_too = refl

create-exact_example :
    (conn' : Connection) × (recv_respond 1 (connected response_bytes) ≡ (ok tt, conn'))
    × (find 1 conn'.calls
        ≡ some (record (waiting_call 1) {
          value = some (int_writable (some ((1 + 2 + 3 + 4) % int_mod)));
          done = true;
        }))
create-exact_example =
    create-exact (connected response_bytes)
      (record { pending = response_bytes; sent = []; room = 100 }) (waiting_call 1) (9 ∷ []) 1 0 1 2
      3 4 response refl (omega arith) finds_1_too refl (execute-sum 0 1 1 2 3 4) refl
      (inl (omega arith)) (inl (omega arith)) (inl (omega arith)) (inl (omega arith))
      (inl (omega arith))
