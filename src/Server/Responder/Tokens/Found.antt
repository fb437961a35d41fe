-- ===== src/Server/Responder/Tokens/Found.antt =====
-- A thread that comes to pop a response.
use p_rpc.BlockQueue.{new_queue, BlockQueue}
use p_rpc.Server.Connection.{Connection}
use p_rpc.Server.Listener.{create_connection}
use p_rpc.Server.Listener.Counting.{named_created}
use p_rpc.Server.Responder.Tokens.Arriving.{
  HoldsKnown-arrived, ScheduledKnown-arrived, balance-arrived,
}
use p_rpc.Base.{
  ℕ, ◌+◌, ◌≡◌, ◌≢◌, refl, ◌∙◌, ap, List, [], ◌∷◌, ◌++◌, none, arith, All, length, ◌<◌, All-split,
  All-append, All-map, find, suc, some, zero,
}
use p_rpc.BlockQueue.Order.{try_pop-cons}
use p_rpc.Socket.{Asio, ok}
use p_rpc.Server.Call.{Call}
use p_rpc.Server.Connection.Queueing.{waiting}
use p_rpc.Server.State.{State, on_connection, new_state}
use p_rpc.Server.Responder.{pop_response}
use p_rpc.Server.Responder.Threads.{
  Task, idle, pushed, popping, sending, scheduling, IsKnown, World, Step, step, Steps, done, next,
  arrive, elsewhere,
}
use p_rpc.Server.Responder.Tokens.{
  holding, holding-append, tokens, HoldsKnown, AreNamed, one_if_self, ScheduledKnown,
}
use p_rpc.Server.Responder.Tokens.Moves.{Move-Balances}

module _ ⦃net : Asio⦄ where
  open net use {Socket}

  -- At each known connection, as many responses wait as there are tokens of it.
  pub record IsBalanced (w : World) : Type 0 where
    pub named : AreNamed w.state
    pub known : All (HoldsKnown w.state) w.threads
    pub scheduled : ScheduledKnown w.state
    pub balance :
        (c : ℕ)
        → IsKnown w.state c
        → waiting (w.state.objects c) ≡ tokens w.state c + holding c w.threads

  module _ (st st' : State) (connections : st'.connections ≡ st.connections)
      (endpoints : (c : ℕ) → (st'.objects c).endpoint ≡ (st.objects c).endpoint) where
    pub IsKnown-kept : (c : ℕ) → IsKnown st c → IsKnown st' c
    IsKnown-kept c k = rw (connections, endpoints c) k

    IsKnown-was : (c : ℕ) → IsKnown st' c → IsKnown st c
    IsKnown-was c k = rw (connections, endpoints c) at k

    HoldsKnown-kept : (t : Task) → HoldsKnown st t → HoldsKnown st' t
    HoldsKnown-kept idle k = tt
    HoldsKnown-kept (pushed d) k = IsKnown-kept d k
    HoldsKnown-kept (popping d) k = IsKnown-kept d k
    HoldsKnown-kept (sending d call) k = IsKnown-kept d k
    HoldsKnown-kept (scheduling d back) k = IsKnown-kept d k

  named_arrived :
      (st : State) (ep address : ℕ) (sock : Socket) (now : ℕ)
      → AreNamed st
      → find ep st.connections ≡ none
      → ((e : ℕ) → find e st.connections ≢ some address)
      → AreNamed (create_connection ep address sock now st)
  unfolding create_connection
  named_arrived st ep address sock now named new fresh e c f =
      named_created st ep address sock now named new fresh e c f

  pub Step-IsBalanced : {u w : World} → Step u w → IsBalanced u → IsBalanced w
  Step-IsBalanced (step {st} {st'} {t} {t'} before after move) h =
      let (kb, ka) = All-split (HoldsKnown st) before (t ∷ after) h.known in
      let b = Move-Balances h.named ka.0 move in
      let kept = HoldsKnown-kept st st' b.connections b.endpoints in
      record {
        named = λ ep c f. b.endpoints c ∙ h.named ep c (rw b.connections at f);
        known =
            All-append (HoldsKnown st') before (t' ∷ after) (All-map kept before kb)
              (b.known, All-map kept after ka.1);
        scheduled = b.scheduled h.scheduled;
        balance = λ c k. omega (
          arith,
          b.balance c (IsKnown-was st st' b.connections b.endpoints c k),
          h.balance c (IsKnown-was st st' b.connections b.endpoints c k),
          holding-append c before (t ∷ after),
          holding-append c before (t' ∷ after),
        );
      }
  Step-IsBalanced (elsewhere {st} {st'} {threads} same) h =
      let kept = HoldsKnown-kept st st' same.connections same.endpoint in
      record {
        named = λ ep c f. same.endpoint c ∙ h.named ep c (rw same.connections at f);
        known = All-map kept threads h.known;
        scheduled = rw (same.connections, same.scheduled) h.scheduled;
        balance = λ c k.
            ap (λ (q : BlockQueue Call). length q.queue) (same.respond_queue c)
            ∙ h.balance c (IsKnown-was st st' same.connections same.endpoint c k)
            ∙ rw (same.endpoint c, same.scheduled) refl;
      }
  Step-IsBalanced (arrive {st} {threads} ep address sock now new fresh) h = record {
    named = named_arrived st ep address sock now h.named new fresh;
    known = All-map (HoldsKnown-arrived st ep address sock now new fresh) threads h.known;
    scheduled = ScheduledKnown-arrived st ep address sock now new fresh h.scheduled;
    balance =
        balance-arrived st ep address sock now new fresh threads h.scheduled h.known h.balance;
  }

  pub Steps-IsBalanced : {u w : World} → Steps u w → IsBalanced u → IsBalanced w
  Steps-IsBalanced done h = h
  Steps-IsBalanced (next s ss) h = Steps-IsBalanced ss (Step-IsBalanced s h)

  pub pop_response-some :
      (st : State) (c : ℕ) (calls : List Call)
      → (st.objects c).respond_queue.queue ≡ calls
      → 0 < length calls
      → (on_connection c pop_response st).0 ≢ ok none
  unfolding pop_response
  pop_response-some st c [] e h = absurd (omega arith)
  pop_response-some st c (x ∷ xs) e h =
      let (q, f, qe, qm) = try_pop-cons (st.objects c).respond_queue x xs e in rw f (λ y. cc y)

  -- Any number of threads, none of which is at a response.
  unfoldable pub all_idle : ℕ → List Task
  all_idle zero = []
  all_idle (suc n) = idle ∷ all_idle n

  all_idle-HoldsKnown : (st : State) (n : ℕ) → All (HoldsKnown st) (all_idle n)
  unfolding all_idle
  all_idle-HoldsKnown st zero = tt
  all_idle-HoldsKnown st (suc n) = (tt, all_idle-HoldsKnown st n)

  pub new_state-IsBalanced :
      (memory : ℕ → Connection) (n : ℕ)
      → IsBalanced (record { state = new_state memory; threads = all_idle n })
  unfolding new_state new_queue find
  new_state-IsBalanced memory n = record {
    named = λ ep c h. cc h;
    known = all_idle-HoldsKnown (new_state memory) n;
    scheduled = tt;
    balance = λ c h. cc h;
  }

  -- From the start of the server, with any number of handlers and of responders, however connections
  -- arrive and the moves of the threads interleave: a thread that comes to pop a response of a
  -- connection finds one, so that `try_pop` in `processResponse` does not come back empty. Responses
  -- are queued only for connections in the map, and none is taken out of it.
  pub pop_response_finds :
      (memory : ℕ → Connection) (n : ℕ) (w : World) (before after : List Task) (c : ℕ)
      → Steps (record { state = new_state memory; threads = all_idle n }) w
      → w.threads ≡ before ++ popping c ∷ after
      → (on_connection c pop_response w.state).0 ≢ ok none
  pop_response_finds memory n w before after c s e =
      let b = Steps-IsBalanced s (new_state-IsBalanced memory n) in
      let (kb, ka) = All-split (HoldsKnown w.state) before (popping c ∷ after) (rw e at b.known) in
      pop_response-some w.state c (w.state.objects c).respond_queue.queue refl (
        omega (
          arith,
          b.balance c ka.0,
          ap (holding c) e,
          holding-append c before (popping c ∷ after),
          one_if_self c,
        ))
