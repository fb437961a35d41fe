-- ===== src/Client/Connection/Threads/Runs.antt =====
-- The values of the calls over a whole run of the threads.
use p_rpc.Client.Connection.Threads.Received.{receives_one}
use p_rpc.Client.Connection.Threads.Matching.{
  IsOrdered, adds-IsOrdered, send_call-runs, socket_injective, sock-IsOrdered, wires-append,
}
use p_rpc.Socket.Network.{Network}
use p_rpc.Base.{
  [], ◌∷◌, find, ℕ, ◌≡◌, ◌++◌, List, ◌≢◌, ◌<◌, refl, int_mod, sym, arith, append-nil, ap, length,
  ◌∙◌, append_assoc, All-append, none, suc,
}
use p_rpc.Client.Connection.{Connection, socket, recv_respond}
use p_rpc.Socket.{ok, Asio}
use p_rpc.Client.Connection.Threads.{
  Response, Move, Moves, done, next, adds, sends, arrives, receives, arrived_in, wires, wire_of,
  IsMatched,
}

module _ ⦃net : Asio⦄ where
  open net use {Socket, pending, sent, room, read_short}

  pub receives_nothing :
      (conn : Connection) (s : Socket) (fuel : ℕ)
      → conn.sock ≡ socket s
      → pending s ≡ []
      → (recv_respond fuel conn).0 ≢ ok tt
  unfolding recv_respond
  receives_nothing conn s fuel e p h =
      let (s', x, _, _, _) = read_short 4 s (omega (arith, ap length p)) in
      let failed = rw (e, x) at h in cc failed

  module _ (link : Network) where
    open link use {deliver, comes_in}

    -- A step of the run: what is received then, and the rest.
    abbrev pub Goes : Connection → List Response → Type 0
    Goes conn arrived =
        (received : List Response) × (rest : List Response) × (received ++ rest ≡ arrived)
        × IsOrdered conn received rest

    pub Move-Goes :
        {u v : Connection} (received rest : List Response) (move : Move link u v)
        → IsOrdered u received rest
        → Goes v ((received ++ rest) ++ arrived_in link (next move done))
    Move-Goes received rest (adds param more) h =
        (received, rest, sym (append-nil _), adds-IsOrdered param more h)
    Move-Goes received rest (sends {conn} {s} {call} id e f k fits) h =
        let (s', x, p) = send_call-runs conn s call e k fits in
        let same : h.matched.sock ≡ s = socket_injective (sym h.matched.connected ∙ e) in
        (
          received,
          rest,
          sym (append-nil _),
          rw x (sock-IsOrdered s' (p ∙ ap pending (sym same) ∙ h.matched.unread) h.rest_known h),
        )
    Move-Goes received rest (arrives {conn} {s} {call} r e f) h =
        let same : h.matched.sock ≡ s = socket_injective (sym h.matched.connected ∙ e) in
        (
          received,
          rest ++ r ∷ [],
          sym (append_assoc received rest (r ∷ [])),
          sock-IsOrdered (deliver (wire_of r) s)
              (comes_in (wire_of r) s
                ∙ ap (λ x. x ++ wire_of r) (ap pending (sym same) ∙ h.matched.unread)
                ∙ ap (◌++◌ (wires rest)) (sym (append-nil _))
                ∙ sym (wires-append rest (r ∷ [])))
              (All-append (λ (q : Response). find q.id conn.calls ≢ none) rest (r ∷ []) h.rest_known
                ((λ k. let both = sym f ∙ k in cc both), tt))
              h,
        )
    Move-Goes received [] (receives {conn} fuel k) h =
        absurd
          (receives_nothing conn h.matched.sock (suc fuel) h.matched.connected h.matched.unread k)
    Move-Goes received (r ∷ rest) (receives {conn} fuel k) h = (
      received ++ r ∷ [],
      rest,
      append_assoc received (r ∷ []) rest ∙ sym (append-nil _),
      receives_one fuel r h,
    )

    arrived_first :
        {u v w : Connection} (move : Move link u v) (moves : Moves link v w)
        → arrived_in link (next move done) ++ arrived_in link moves
          ≡ arrived_in link (next move moves)
    arrived_first (adds param more) moves = refl
    arrived_first (sends id e f h fits) moves = refl
    arrived_first (arrives r e f) moves = refl
    arrived_first (receives fuel h) moves = refl

    pub start :
        (conn : Connection) (s : Socket)
        → conn.sock ≡ socket s
        → pending s ≡ []
        → conn.calls ≡ []
        → conn.last_call_index < int_mod
        → IsOrdered conn [] []
    unfolding find
    start conn s e p calls small = record {
      matched = record {
        sock = s;
        connected = e;
        unread = p;
        values = λ j call f. let there = rw calls at f in cc there;
      };
      expects = λ j call f. let there = rw calls at f in cc there;
      numbered = λ j call f. let there = rw calls at f in cc there;
      unused = λ j k. rw calls refl;
      int_index = small;
      received_below = tt;
      rest_known = tt;
    }

    pub Moves-Goes :
        {u w : Connection} (received rest : List Response) (moves : Moves link u w)
        → IsOrdered u received rest
        → Goes w ((received ++ rest) ++ arrived_in link moves)
    Moves-Goes received rest done h = (received, rest, sym (append-nil _), h)
    Moves-Goes received rest (next move moves) h =
        let (received', rest', e, h') = Move-Goes received rest move h in
        let (received'', rest'', e', h'') = Moves-Goes received' rest' moves h' in
        (
          received'',
          rest'',
          e'
              ∙ ap (λ x. x ++ arrived_in link moves) e
              ∙ append_assoc (received ++ rest) (arrived_in link (next move done)) _
              ∙ ap (◌++◌ (received ++ rest)) (arrived_first move moves),
          h'',
        )

    -- Let a connected connection have no calls and nothing to read. However its threads enter calls
    -- of numbers and send them, responses to calls that were entered come in and the receiver thread
    -- receives them: the responses that came in are, in their order, those that were received and
    -- those still to be read, each whole; and each call is done exactly if a response with its id was
    -- received, with the narrowed number in the last such response for its value, and has no value
    -- else.
    pub Moves-IsMatched :
        {conn w : Connection} (s : Socket) (moves : Moves link conn w)
        → conn.sock ≡ socket s
        → pending s ≡ []
        → conn.calls ≡ []
        → conn.last_call_index < int_mod
        → (received : List Response) × (rest : List Response) × (received ++ rest
            ≡ arrived_in link moves)
          × IsMatched w received rest
    Moves-IsMatched {conn} s moves e p calls small =
        let (received, rest, f, h) = Moves-Goes [] [] moves (start conn s e p calls small) in
        (received, rest, f, h.matched)
