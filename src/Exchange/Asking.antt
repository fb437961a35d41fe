-- ===== src/Exchange/Asking.antt =====
-- A call from its start to its value.
use p_rpc.Server.Handler.Answer.{served_sum, exact_sum}
use p_rpc.Client.Connection.Receiving.{answered}
use p_rpc.Writable.{int_writable}
use p_rpc.IntWritable.Narrow.{IsSmall}
use p_rpc.Server.Cycle.{Quiet}
use p_rpc.Server.Call.Request.{request_wire, Writes-request}
use p_rpc.Client.Connection.{send_call, socket}
use p_rpc.Client.Registry.Entering.{IsNumbered, Entered, get_connection-Entered}
use p_rpc.Server.Listener.{Listener}
use p_rpc.Server.State.{State}
use p_rpc.Base.{
  Bool, ℕ, List, ◌≡◌, codes, ◌++◌, false, length, true, ◌≤◌, ◌∷◌, [], refl, ==_refl, ap,
  drop_append, ◌+◌, ◌%◌, ◌∙◌, int_mod, some,
}
use p_rpc.BlockQueue.{wait_for}
use p_rpc.Socket.{Asio, ok, Result}
use p_rpc.Socket.Network.{Network}
use p_rpc.Exchange.{World, exchange}
use p_rpc.Exchange.Answering.{Asked, exchange-Answers, create_of, create_of-IsSendable}
use p_rpc.Client.Registry.{Client, System, start_call, get_connection, update, call_done, call_of}
use p_rpc.Client.Call
use p_rpc.Client

wait-woken {ℓ} :
    {S : Type ℓ} (done : S → Bool) (f : S → S) (rounds : List (List (S → S))) (s : S)
    → done s ≡ false
    → done (f s) ≡ true
    → Client.Call.wait done ((f ∷ []) ∷ rounds) s ≡ (true, f s)
unfolding Client.Call.wait wait_for
wait-woken done f rounds s h k = rw h (rw k refl)

module _ ⦃net : Asio⦄ where
  open net use {Socket, pending, sent, room}

  -- What happens while the client waits: one exchange with the server.
  abbrev pub meanwhile : Network → ℕ → ℕ → ℕ → ℕ → Socket → State × Listener → Client → Client
  meanwhile link c k n now s (st, l) client =
      (exchange link c k n 1 now (length (sent s)) (length (sent (st.objects k).sock))
        (client, (st, l))).1.0

  -- The wait ends when the call is done, with the value of the call.
  await-woken :
      (c id : ℕ) (f : Client → Client) (rounds : List (List (Client → Client)))
      (client client' : Client) (call : Client.Call.Call)
      → call_done (call_of c id client) ≡ false
      → f client ≡ client'
      → call_of c id client' ≡ some call
      → call.done ≡ true
      → Client.Registry.await false ((f ∷ []) ∷ rounds) c id client ≡ (ok call.value, client')
  unfolding Client.Registry.await
  await-woken c id f rounds client client' call h e found d =
      let woken =
        wait-woken (λ (x : Client). call_done (call_of c id x)) f rounds client h
          (rw (e, found) d) in
      rw woken (rw e (rw found refl))

  module _ (link : Network) (sys : System) (ep k : ℕ) (client : Client) (st : State) (l : Listener)
      (s : Socket) (a0 a1 a2 a3 : ℕ) where
    abbrev pub new : Client.Call.Call
    new = Client.Call.new_call (create_of a0 a1 a2 a3) (codes "IntWritable")

    abbrev pub entered : (ℕ × Client.Call.Call) × Client
    entered = get_connection sys ep new client

    -- The client's ids are in order, its connection to the endpoint stands, on the socket `s`, which
    -- takes the request, and neither end has anything to read; at the server's end, `k`, nothing is
    -- under way.
    pub record CanAsk : Type 0 where
      pub numbered : (c : ℕ) → IsNumbered (client.objects c)
      pub connected : (entered.1.objects entered.0.0).sock ≡ socket s
      pub stands : length (request_wire entered.0.1.id (create_of a0 a1 a2 a3)) ≤ room s
      pub nothing_back : pending s ≡ []
      pub nothing_before : pending (st.objects k).sock ≡ []
      pub quiet : Quiet st k
      pub stands_there : 16 ≤ room (st.objects k).sock

    module _ (can : CanAsk) where
      abbrev id : ℕ
      id = entered.0.1.id

      abbrev c : ℕ
      c = entered.0.0

      abbrev after_sending : Socket → Client
      after_sending s' = record entered.1 {
        objects = update entered.1.objects c (record (entered.1.objects c) { sock = socket s' });
      }

      own : Entered sys client ep c new entered.0.1 entered.1
      own = get_connection-Entered sys ep new client can.numbered

      own_param : entered.0.1.param ≡ create_of a0 a1 a2 a3
      unfolding Client.Call.new_call
      own_param = ap (λ (x : Client.Call.Call). x.param) own.same_call

      own_class : entered.0.1.value_class ≡ codes "IntWritable"
      unfolding Client.Call.new_call
      own_class = ap (λ (x : Client.Call.Call). x.value_class) own.same_call

      own_done : entered.0.1.done ≡ false
      unfolding Client.Call.new_call
      own_done = ap (λ (x : Client.Call.Call). x.done) own.same_call

      sends :
          (s' : Socket) × (start_call sys ep (create_of a0 a1 a2 a3) (codes "IntWritable") client
            ≡ (ok tt, after_sending s'))
          × (sent s' ≡ sent s ++ request_wire id (create_of a0 a1 a2 a3))
          × (pending s' ≡ pending s)
      unfolding start_call send_call
      sends =
          let (s', w, x, p, _) =
            (Writes-request entered.0.1 (rw own_param (create_of-IsSendable a0 a1 a2 a3))).run s
              (rw own_param can.stands) in
          (s', rw (can.connected, w) refl, rw own_param at x, p)

      asks :
          (s' : Socket)
          → sent s' ≡ sent s ++ request_wire id (create_of a0 a1 a2 a3)
          → pending s' ≡ pending s
          → Asked link c k
              (after_sending s', (st, l))
              s'
              (length (sent s))
              id
              a0
              a1
              a2
              a3
              entered.0.1
      asks s' e p = record {
        connected = rw (==_refl c) refl;
        waits = rw (==_refl c) own.waits;
        expects = own_class;
        is_int = own.int_id;
        request = rw e (drop_append (sent s) _);
        nothing_back = p ∙ can.nothing_back;
        nothing_before = can.nothing_before;
        quiet = can.quiet;
        stands = can.stands_there;
      }

      -- `call` to `NameNode::create` on four numbers, where all of them and their sum as an `int` lie
      -- between -128 and 127, the client can ask the server, and one exchange with it, with at least
      -- four turns of the responder, happens while the call waits: it returns the sum.
      pub call-sum :
          (n now : ℕ) (rounds : List (List (Client → Client)))
          → 4 ≤ n
          → IsSmall a0
          → IsSmall a1
          → IsSmall a2
          → IsSmall a3
          → IsSmall ((a0 + a1 + a2 + a3) % int_mod)
          → (client' : Client) × (Client.Registry.call sys ep
                (create_of a0 a1 a2 a3)
                (codes "IntWritable")
                false
                ((meanwhile link c k n now s (st, l) ∷ []) ∷ rounds)
                client
              ≡ (ok (some (int_writable (some ((a0 + a1 + a2 + a3) % int_mod)))), client'))
      unfolding Client.Registry.call Client.Registry.await
      call-sum n now rounds h h0 h1 h2 h3 hs =
          let (s', e, sent', pending') = sends in
          let (w, f, found, quiet') =
            exchange-Answers link c k (after_sending s') st l s' (length (sent s)) id a0 a1 a2 a3
              entered.0.1 (asks s' sent' pending') n now h in
          let woken =
            await-woken c id (meanwhile link c k n now s (st, l)) rounds (after_sending s') w.0
              (answered (served_sum a0 a1 a2 a3) entered.0.1)
              (rw (==_refl c) (rw own.waits own_done))
              (ap (λ (p : Result (Unit {0}) × World). p.1.0) f) (rw (==_refl id) at (found id))
              refl in
          (
            w.0,
            rw e (
                woken
                ∙ ap (λ x. (ok (some (int_writable (some x))), w.0))
                    (exact_sum a0 a1 a2 a3 h0 h1 h2 h3 hs)),
          )
