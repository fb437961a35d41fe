-- ===== src/Server/Responder/Framing/Runs.antt =====
-- The bytes and the calls of a connection over a whole run of the threads.
use p_rpc.BlockQueue.{BlockQueue}
use p_rpc.Server.Connection.{Connection}
use p_rpc.Server.Responder.Tokens.Arriving.{HoldsKnown-arrived}
use p_rpc.Server.Responder.Tokens.Moves.{Move-Balances}
use p_rpc.Server.Responder.Tokens.{HoldsKnown}
use p_rpc.Server.Responder.Tokens.Found.{
  IsBalanced, IsKnown-kept, Step-IsBalanced, all_idle, Steps-IsBalanced, new_state-IsBalanced,
}
use p_rpc.Server.Listener.{create_connection}
use p_rpc.Server.Responder.Framing.Moves.{Move-Conserves}
use p_rpc.Server.Connection.Sending.{response_wire}
use p_rpc.Server.Responder.Framing.{
  sending_at, responses, IsUnsent, GoesWhole, pushed_by, queue_at, sending_by, sent_by, AllWhole,
  pushed_at, sent_at,
}
use p_rpc.Server.State.{State, new_state}
use p_rpc.Socket.{Asio}
use mathlib.Core.Path.{subst}
use p_rpc.Base.{
  [], ◌∷◌, inl, inr, List, ℕ, ◌≡◌, ◌++◌, All, ◌∙◌, ap, Perm, append_assoc, Bool-cases, sym,
  perm_then, refl, ◌==◌, All-split, All-append, perm_exchange, find, ◌≢◌, some, ==_iff, append-nil,
  eq-perm,
}
use p_rpc.Server.Call.{Call}
use p_rpc.Server.Responder.Threads.{
  Task, pushed, IsKnown, Move, push, inline, later, schedules, take, pop, send_rest, send, Steps,
  done, next, step, elsewhere, arrive, Step, World,
}

sending_at-append :
    (c : ℕ) (ts us : List Task) → sending_at c (ts ++ us) ≡ sending_at c ts ++ sending_at c us
sending_at-append c [] us = refl
sending_at-append c (t ∷ ts) us =
    ap (◌++◌ (sending_by c t)) (sending_at-append c ts us) ∙ sym (append_assoc (sending_by c t) _ _)

responses-append : (cs ds : List Call) → responses (cs ++ ds) ≡ responses cs ++ responses ds
responses-append [] ds = refl
responses-append (call ∷ cs) ds =
    ap (◌++◌ (response_wire call)) (responses-append cs ds)
    ∙ sym (append_assoc (response_wire call) _ _)

module _ ⦃net : Asio⦄ where
  open net use {Socket, sent, room}

  -- Between `u` and `w`, the calls `entered` came into the queue of the connection `c`, and exactly
  -- the responses of the calls `left` went out there. The calls that were there and those that came
  -- are the ones that left and those that are there.
  pub record RunConserves (c : ℕ) (u w : World) (entered left : List Call) : Type 0 where
    pub wire : sent (w.state.objects c).sock ≡ sent (u.state.objects c).sock ++ responses left
    pub calls :
        Perm
          (sending_at c u.threads ++ (queue_at u.state c ++ entered))
          (left ++ (sending_at c w.threads ++ queue_at w.state c))

  -- No response at the connection has been begun.
  abbrev pub AreUnsent : ℕ → World → Type 0
  AreUnsent c w = All IsUnsent (sending_at c w.threads) × All IsUnsent (queue_at w.state c)

  pushed_by-IsUnsent :
      {st st' : State} {t t' : Task} (c : ℕ) (move : Move st t st' t')
      → GoesWhole c move
      → All IsUnsent (pushed_by c move)
  pushed_by-IsUnsent c (push {c = d} call k h) whole = elim (Bool-cases (d == c)) [
    | inl here ↦ rw here (rw here at whole, tt)
    | inr there ↦ rw there tt
  ]
  pushed_by-IsUnsent c (inline h) whole = tt
  pushed_by-IsUnsent c (later h) whole = tt
  pushed_by-IsUnsent c (schedules h) whole = tt
  pushed_by-IsUnsent c (take h k) whole = tt
  pushed_by-IsUnsent c (pop h) whole = tt
  pushed_by-IsUnsent c (send_rest h) whole = tt
  pushed_by-IsUnsent c (send h) whole = tt

  -- A step conserves, if the connection is known and its responses go whole.
  record StepConserves (c : ℕ) (u w : World) (entered left : List Call) : Type 0 where
    run : RunConserves c u w entered left
    unsent : AreUnsent c w

  move-StepConserves :
      {st st' : State} {t t' : Task} (c : ℕ) (before after : List Task) (move : Move st t st' t')
      → AreUnsent c (record { state = st; threads = before ++ t ∷ after })
      → GoesWhole c move
      → StepConserves c
          (record { state = st; threads = before ++ t ∷ after })
          (record { state = st'; threads = before ++ t' ∷ after })
          (pushed_by c move)
          (sent_by c move)
  move-StepConserves {st} {st'} {t} {t'} c before after move (sending_unsent, queue_unsent) whole =
      let there = rw (sending_at-append c before (t ∷ after)) at sending_unsent in
      let (ub, rest) = All-split IsUnsent (sending_at c before) _ there in
      let (ut, ua) = All-split IsUnsent (sending_by c t) (sending_at c after) rest in
      let m = Move-Conserves c move ut whole in
      let all_of =
        All-append IsUnsent (sending_by c t) _ ut
          (All-append IsUnsent (queue_at st c) _ queue_unsent (pushed_by-IsUnsent c move whole)) in
      let (ul, kept) =
        All-split IsUnsent (sent_by c move) _ (subst (All IsUnsent) m.calls all_of) in
      let (ut', uq') = All-split IsUnsent (sending_by c t') (queue_at st' c) kept in
      record {
        run = record {
          wire = m.wire;
          calls =
              rw (sending_at-append c before (t ∷ after), sending_at-append c before (t' ∷ after))
                (perm_exchange (sending_at c before) (sending_at c after) (sending_by c t)
                  (sending_by c t') (queue_at st c) (queue_at st' c) (pushed_by c move)
                  (sent_by c move) m.calls);
        };
        unsent = (
          rw (sending_at-append c before (t' ∷ after)) (
              All-append IsUnsent (sending_at c before) _ ub
                (All-append IsUnsent (sending_by c t') (sending_at c after) ut' ua)),
          uq',
        );
      }

  run-then :
      (c : ℕ) (u v w : World) (entered left entered' left' : List Call)
      → RunConserves c u v entered left
      → RunConserves c v w entered' left'
      → RunConserves c u w (entered ++ entered') (left ++ left')
  run-then c u v w entered left entered' left' h k = record {
    wire =
        k.wire
        ∙ ap (λ x. x ++ responses left') h.wire
        ∙ append_assoc (sent (u.state.objects c).sock) (responses left) (responses left')
        ∙ ap (◌++◌ (sent (u.state.objects c).sock)) (sym (responses-append left left'));
    calls =
        perm_then (sending_at c u.threads) (queue_at u.state c) entered (sending_at c v.threads)
          (queue_at v.state c) left entered' left' _ h.calls k.calls;
  }

  -- A known connection stays known, and a connection that arrives is another.
  Step-IsKnown :
      {u w : World} (c : ℕ) → Step u w → IsBalanced u → IsKnown u.state c → IsKnown w.state c
  Step-IsKnown c (step {st} {st'} {t} before after move) h k =
      let (kb, ka) = All-split (HoldsKnown st) before (t ∷ after) h.known in
      let b = Move-Balances h.named ka.0 move in IsKnown-kept st st' b.connections b.endpoints c k
  Step-IsKnown c (elsewhere {st} {st'} same) h k =
      IsKnown-kept st st' same.connections same.endpoint c k
  Step-IsKnown c (arrive {st} ep address sock now new fresh) h k =
      HoldsKnown-arrived st ep address sock now new fresh (pushed c) k

  object-arrived :
      (st : State) (ep address : ℕ) (sock : Socket) (now c : ℕ)
      → ((e : ℕ) → find e st.connections ≢ some address)
      → IsKnown st c
      → (create_connection ep address sock now st).objects c ≡ st.objects c
  unfolding create_connection
  object-arrived st ep address sock now c fresh k = elim (Bool-cases (address == c)) [
    | inl here ↦ absurd (fresh _ (k ∙ ap some (sym ((==_iff address c).0 here))))
    | inr there ↦ rw there refl
  ]

  Steps-Conserves :
      {u w : World} (c : ℕ) (steps : Steps u w)
      → IsBalanced u
      → IsKnown u.state c
      → AreUnsent c u
      → AllWhole c steps
      → RunConserves c u w (pushed_at c steps) (sent_at c steps)
  Steps-Conserves {u} c done h k unsent whole = record {
    wire = sym (append-nil _);
    calls = eq-perm (ap (◌++◌ (sending_at c u.threads)) (append-nil _));
  }
  Steps-Conserves {u} {w} c (next (step {st} {st'} {t} {t'} before after move) steps) h k unsent
        whole =
      let one = move-StepConserves c before after move unsent whole.0 in
      run-then c u (record { state = st'; threads = before ++ t' ∷ after }) w (pushed_by c move)
        (sent_by c move) (pushed_at c steps) (sent_at c steps) one.run
        (Steps-Conserves c steps (Step-IsBalanced (step before after move) h)
          (Step-IsKnown c (step before after move) h k) one.unsent whole.1)
  Steps-Conserves {u} {w} c (next (elsewhere {st} {st'} {threads} same) steps) h k unsent whole =
      let queue = ap (λ (q : BlockQueue Call). q.queue) (same.respond_queue c) in
      let later =
        Steps-Conserves c steps (Step-IsBalanced (elsewhere same) h)
          (Step-IsKnown c (elsewhere same) h k)
          (unsent.0, subst (All IsUnsent) (sym queue) unsent.1) whole in
      record {
        wire = later.wire ∙ ap (λ x. x ++ responses (sent_at c steps)) (same.silent c);
        calls =
            subst
              (λ x.
                Perm (sending_at c threads ++ (x ++ pushed_at c steps))
                  (sent_at c steps ++ (sending_at c w.threads ++ queue_at w.state c)))
              queue later.calls;
      }
  Steps-Conserves {u} {w} c (next (arrive {st} {threads} ep address sock now new fresh) steps) h k
        unsent whole =
      let same = object-arrived st ep address sock now c fresh k in
      let new_world =
        Steps-Conserves c steps (Step-IsBalanced (arrive ep address sock now new fresh) h)
          (Step-IsKnown c (arrive ep address sock now new fresh) h k)
          (
            unsent.0,
            subst (λ (x : Connection). All IsUnsent x.respond_queue.queue) (sym same) unsent.1,
          )
          whole in
      record {
        wire =
            subst
              (λ (x : Connection).
                sent (w.state.objects c).sock ≡ sent x.sock ++ responses (sent_at c steps))
              same new_world.wire;
        calls =
            subst
              (λ (x : Connection).
                Perm (sending_at c threads ++ (x.respond_queue.queue ++ pushed_at c steps))
                  (sent_at c steps ++ (sending_at c w.threads ++ queue_at w.state c)))
              same new_world.calls;
      }

  -- From the start of the server, with any number of threads, let `u` be a state that was reached in
  -- which the connection `c` is in the map and no response at it has been begun, and let `w` be
  -- reached from there, while at `c` only new calls are pushed, the connection stands as long as the
  -- responses, and each `write_some` takes the whole value. However the moves of the threads
  -- interleave and connections arrive in between: what went out at `c` from `u` to `w` is a sequence
  -- of whole responses, of exactly the calls that were at `c` or were pushed there and are not any
  -- more, each as often as it came. None is lost, sent twice or cut.
  pub responses_whole :
      (memory : ℕ → Connection) (n c : ℕ) {u w : World}
      → Steps (record { state = new_state memory; threads = all_idle n }) u
      → (steps : Steps u w) → IsKnown u.state c
      → AreUnsent c u
      → AllWhole c steps
      → RunConserves c u w (pushed_at c steps) (sent_at c steps)
  responses_whole memory n c reached steps k unsent whole =
      Steps-Conserves c steps (Steps-IsBalanced reached (new_state-IsBalanced memory n)) k unsent
        whole
