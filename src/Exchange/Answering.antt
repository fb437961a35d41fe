-- ===== src/Exchange/Answering.antt =====
-- A call that is answered.
use p_rpc.Client.Connection.Receiving.{Answers, answered}
use p_rpc.MethodWritable.Wire.{IsSendable, depth_params, also, int, end}
use p_rpc.Server.Connection.Sending.{response_wire}
use p_rpc.Server.Cycle.Whole.{Replied, serve-Replied}
use p_rpc.Method.Dispatch.{four_ints}
use p_rpc.Server.Cycle.{Quiet, serve}
use p_rpc.Server.Listener.{Listener, watch}
use p_rpc.Server.Call.Request.{requested, request_wire}
use p_rpc.Server.State.{State}
use p_rpc.Writable.{Writable, method_writable, nil}
use p_rpc.Server.Handler.Answer.{served, served_sum, execute-sum, recv_respond-execute}
use p_rpc.Socket.{Asio, ok, continue}
use p_rpc.Base.{
  ℕ, ◌≡◌, ◌≤◌, find, codes, some, ◌++◌, ==_refl, ◌<◌, [], int_mod, drop, refl, length, ◌∙◌, arith,
  ap, length-le_bytes, sym, append-nil, drop_append, if◌then◌else◌, ◌==◌,
}
use p_rpc.Socket.Network.{Network}
use p_rpc.Exchange.{World, exchange, request_arrives, response_arrives}
use p_rpc.Client.Registry.{Client, update}
use p_rpc.Client.Connection.{Connection, socket}
use p_rpc.Client
use p_rpc.Writable.{size}
use p_rpc.Server

-- The method that a client sends to add four numbers.
abbrev pub create_of : ℕ → ℕ → ℕ → ℕ → Writable
create_of a0 a1 a2 a3 =
    method_writable (codes "NameNode") (codes "create") (four_ints a0 a1 a2 a3 nil)

pub create_of-IsSendable : (a0 a1 a2 a3 : ℕ) → IsSendable (create_of a0 a1 a2 a3)
unfolding size
create_of-IsSendable a0 a1 a2 a3 =
    IsSendable.method (record { chars = omega arith; not_empty = omega arith; short = omega arith })
      (record { chars = omega arith; not_empty = omega arith; short = omega arith }) (omega arith)
      (also (int a0) (also (int a1) (also (int a2) (also (int a3) end))))

create_of_depth : (a0 a1 a2 a3 : ℕ) → depth_params (four_ints a0 a1 a2 a3 nil) < 1
unfolding depth_params
create_of_depth a0 a1 a2 a3 = omega arith

module _ ⦃net : Asio⦄ where
  open net use {Socket, pending, sent, room}

  module _ (link : Network) (c k : ℕ) where
    -- The client's call with the id waits, its request has been sent after `seen` bytes, and both
    -- ends have nothing to read; at the server nothing is under way.
    pub record Asked (w : World) (s : Socket) (seen id a0 a1 a2 a3 : ℕ) (call : Client.Call.Call)
        : Type 0 where
      pub connected : (w.0.objects c).sock ≡ socket s
      pub waits : find id (w.0.objects c).calls ≡ some call
      pub expects : call.value_class ≡ codes "IntWritable"
      pub is_int : id < int_mod
      pub request : drop seen (sent s) ≡ request_wire id (create_of a0 a1 a2 a3)
      pub nothing_back : pending s ≡ []
      pub nothing_before : pending (w.1.0.objects k).sock ≡ []
      pub quiet : Quiet w.1.0 k
      pub stands : 16 ≤ room (w.1.0.objects k).sock

    abbrev response : ℕ → ℕ → ℕ → ℕ → ℕ → Server.Call.Call
    response id a0 a1 a2 a3 =
        served (requested k id (codes "NameNode") (codes "create") (four_ints a0 a1 a2 a3 nil))
          (served_sum a0 a1 a2 a3)

    module _ (client : Client) (st : State) (l : Listener) (s : Socket) (seen id a0 a1 a2 a3 : ℕ)
        (call : Client.Call.Call) (asked : Asked (client, (st, l)) s seen id a0 a1 a2 a3 call) where
      open link use {deliver, comes_in, sends_nothing, stands_as_long}

      -- The state of the server when the request has come in.
      abbrev st1 : State
      st1 = record st {
        objects = update st.objects k (record (st.objects k) {
          sock = deliver (request_wire id (create_of a0 a1 a2 a3)) (st.objects k).sock;
        });
      }

      request_in : request_arrives link c k seen (client, (st, l)) ≡ (ok tt, (client, (st1, l)))
      unfolding request_arrives
      request_in = rw asked.connected (rw asked.request refl)

      st1-Quiet : Quiet st1 k
      st1-Quiet = record {
        nothing_called = asked.quiet.nothing_called;
        room_called = asked.quiet.room_called;
        resting = record {
          nothing_scheduled = asked.quiet.resting.nothing_scheduled;
          nothing_queued = rw (==_refl k) asked.quiet.resting.nothing_queued;
          known = rw (==_refl k) asked.quiet.resting.known;
          room_there = asked.quiet.resting.room_there;
          room_here = rw (==_refl k) asked.quiet.resting.room_here;
        };
      }

      came_in : pending (st1.objects k).sock ≡ request_wire id (create_of a0 a1 a2 a3) ++ []
      came_in = rw (==_refl k) (
          comes_in _ (st.objects k).sock
          ∙ ap (λ x. x ++ request_wire id (create_of a0 a1 a2 a3)) asked.nothing_before
          ∙ sym (append-nil _))

      served_there :
          (n now : ℕ)
          → 4 ≤ n
          → (st2 : State) × (serve n 1 now k (st1, l)
              ≡ (ok tt, (st2, watch (st1.objects k).endpoint l)))
            × Replied st1 k (response id a0 a1 a2 a3) [] st2
      served_there n now h =
          serve-Replied n 1 now k id (four_ints a0 a1 a2 a3 nil) st1 l [] (response id a0 a1 a2 a3)
            st1-Quiet (create_of-IsSendable a0 a1 a2 a3) asked.is_int (create_of_depth a0 a1 a2 a3)
            came_in (execute-sum k id a0 a1 a2 a3)
            (omega (arith, length-le_bytes 4 (served_sum a0 a1 a2 a3)))
            (rw (==_refl k) (
              omega (
                arith,
                length-le_bytes 4 (served_sum a0 a1 a2 a3),
                asked.stands,
                stands_as_long (request_wire id (create_of a0 a1 a2 a3)) (st.objects k).sock,
              )))
            (omega (arith, length-le_bytes 4 (served_sum a0 a1 a2 a3)))

      -- The client's connection when the response has come in.
      abbrev conn1 : Client.Connection.Connection
      conn1 = record (client.objects c) {
        sock = socket (deliver (response_wire (response id a0 a1 a2 a3)) s);
      }

      abbrev client1 : Client
      client1 = record client { objects = update client.objects c conn1 }

      new_bytes :
          (st2 : State)
          → Replied st1 k (response id a0 a1 a2 a3) [] st2
          → drop (length (sent (st.objects k).sock)) (sent (st2.objects k).sock)
            ≡ response_wire (response id a0 a1 a2 a3)
      new_bytes st2 r = rw (r.replied, silent) (drop_append (sent (st.objects k).sock) _)
        where
          silent : sent (st1.objects k).sock ≡ sent (st.objects k).sock
          silent = rw (==_refl k) (sends_nothing _ (st.objects k).sock)

      response_in :
          (st2 : State) (l2 : Listener)
          → Replied st1 k (response id a0 a1 a2 a3) [] st2
          → response_arrives link c k (length (sent (st.objects k).sock)) (client, (st2, l2))
            ≡ (ok tt, (client1, (st2, l2)))
      unfolding response_arrives
      response_in st2 l2 r = rw asked.connected (rw (new_bytes st2 r) refl)

      came_back :
          pending (deliver (response_wire (response id a0 a1 a2 a3)) s)
          ≡ response_wire (response id a0 a1 a2 a3) ++ []
      came_back =
          comes_in _ s
          ∙ ap (λ x. x ++ response_wire (response id a0 a1 a2 a3)) asked.nothing_back
          ∙ sym (append-nil _)

      received_there :
          (conn' : Client.Connection.Connection) × (Client.Connection.recv_respond 1 conn1
            ≡ (ok tt, conn'))
          × Answers conn1
              (deliver (response_wire (response id a0 a1 a2 a3)) s)
              id
              (served_sum a0 a1 a2 a3)
              call
              []
              conn'
      received_there =
          recv_respond-execute conn1 (deliver (response_wire (response id a0 a1 a2 a3)) s) call []
            id k a0 a1 a2 a3 (response id a0 a1 a2 a3) refl asked.is_int asked.waits asked.expects
            (execute-sum k id a0 a1 a2 a3) came_back

      -- Let a client have asked a server at rest for the sum of four numbers. If the responder takes at
      -- least four turns, the exchange ends: the call is answered with what is left of the sum of
      -- what is left of the numbers, no other call of the connection changes, and the server is at
      -- rest again.
      pub exchange-Answers :
          (n now : ℕ)
          → 4 ≤ n
          → (w : World) × (exchange link c k n 1 now seen
                (length (sent (st.objects k).sock))
                (client, (st, l))
              ≡ (ok tt, w))
            × ((j : ℕ)
                → find j (w.0.objects c).calls ≡ (
                    if id == j
                    then some (answered (served_sum a0 a1 a2 a3) call)
                    else find j (client.objects c).calls))
            × Quiet w.1.0 k
      unfolding exchange
      exchange-Answers n now h =
          let (st2, e, r) = served_there n now h in
          let l2 = watch (st1.objects k).endpoint l in
          let (conn', f, answers) = received_there in
          (
            (record client1 { objects = update client1.objects c conn' }, (st2, l2)),
            rw (request_in, continue)
                (rw (e, continue)
                  (rw (response_in st2 l2 r, continue) (rw (==_refl c) (rw f refl)))),
            (λ j. rw (==_refl c) (answers.found j)),
            r.quiet,
          )
