-- ===== src/Server/Service/Requests.antt =====
-- Where the requests are while the server works, and where their responses went.
use p_rpc.Server.Call.Request.{requested}
use p_rpc.Server.Listener.Reading.{do_read-Queued}
use p_rpc.Server.Service.Projecting.{project_all}
use p_rpc.Server.Responder.{schedule}
use p_rpc.Server.Cycle.Handling.{execute-Kept}
use p_rpc.BlockQueue.Order.{try_pop-nil, try_pop-cons}
use p_rpc.Server.Handler.{execute}
use p_rpc.Server.Responder.Framing.{if_at, pushed_at, pushed_by}
use p_rpc.Server.Listener.{Listener, create_connection}
use p_rpc.Server.State.{State}
use p_rpc.BlockQueue.{push_value, BlockQueue, try_pop}
use p_rpc.Socket.{Asio, ok, Result}
use p_rpc.Base.{
  [], ◌∷◌, ℕ, ◌≡◌, List, some, eq-perm, true, Perm, ap, ◌++◌, append-nil, sym, ◌∙◌, perm_exchange,
  append_assoc, refl, Option, if◌then◌else◌, perm_then,
}
use p_rpc.Server.Call.{Call}
use p_rpc.Server.Service.{
  World, Turn, Turns, reads, takes, gives, goes, comes, hears, done, next, calls_for, answers_for,
  answer_for, one_for, read_in, IsNoPush, read_by, is_for,
}
use p_rpc.Server.Responder.Threads
use p_rpc.Server.Responder.Threads.{
  Untouched, Step, Steps, step, elsewhere, arrive, Move, push, inline, later, schedules, take, pop,
  send_rest, send,
}

calls_for-append :
    (c : ℕ) (xs ys : List Call) → calls_for c (xs ++ ys) ≡ calls_for c xs ++ calls_for c ys
calls_for-append c [] ys = refl
calls_for-append c (x ∷ xs) ys =
    ap (◌++◌ (one_for c x)) (calls_for-append c xs ys) ∙ sym (append_assoc (one_for c x) _ _)

pub answers_for-append :
    (c : ℕ) (xs ys : List Call) → answers_for c (xs ++ ys) ≡ answers_for c xs ++ answers_for c ys
answers_for-append c [] ys = refl
answers_for-append c (x ∷ xs) ys =
    ap (◌++◌ (answer_for c x)) (answers_for-append c xs ys)
    ∙ sym (append_assoc (answer_for c x) _ _)

module _ ⦃net : Asio⦄ where
  -- Between `u` and `w`, the requests `read` were read and the responses `pushed` queued, at the
  -- connection `c`.
  abbrev pub Keeps : ℕ → World → World → List Call → List Call → Type 0
  Keeps c u w read pushed =
      Perm (calls_for c u.hands ++ (answers_for c u.state.bq_call.queue ++ answers_for c read))
        (pushed ++ (calls_for c w.hands ++ answers_for c w.state.bq_call.queue))

  -- A turn that leaves the calls alone.
  Keeps-same :
      (c : ℕ) (u w : World)
      → w.hands ≡ u.hands
      → w.state.bq_call ≡ u.state.bq_call
      → Keeps c u w [] []
  Keeps-same c u w h k = rw (h, k) (eq-perm (ap (◌++◌ (calls_for c u.hands)) (append-nil _)))

  read-Keeps :
      (c : ℕ) (u w : World) (call : Call)
      → w.hands ≡ u.hands
      → w.state.bq_call ≡ push_value u.state.bq_call call true
      → Keeps c u w (call ∷ []) []
  unfolding push_value
  read-Keeps c u w call h k =
      rw (h, k)
        (eq-perm (
          ap (◌++◌ (calls_for c u.hands))
            (sym (answers_for-append c u.state.bq_call.queue (call ∷ [])))))

  answer_taken :
      (c : ℕ) (call call' : Call) → execute call ≡ ok call' → answer_for c call ≡ one_for c call'
  answer_taken c call call' e = rw (e, (execute-Kept call call' e).0) refl

  take-Keeps :
      (c : ℕ) (st : State) (l : Listener) (threads : List Threads.Task) (hands : List Call)
      (q : BlockQueue Call) (call call' : Call)
      → try_pop [] st.bq_call ≡ (some call, q)
      → execute call ≡ ok call'
      → Keeps c
          (record { state = st; listener = l; threads = threads; hands = hands })
          (record {
            state = record st { bq_call = q };
            listener = l;
            threads = threads;
            hands = call' ∷ hands;
          })
          []
          []
  take-Keeps c st l threads hands q call call' h e = by_queue st.bq_call.queue refl
    where
      by_queue :
          (calls : List Call)
          → st.bq_call.queue ≡ calls
          → Perm
              (calls_for c hands ++ (answers_for c st.bq_call.queue ++ []))
              (calls_for c (call' ∷ hands) ++ answers_for c q.queue)
      by_queue [] k = absurd (let failed = sym (try_pop-nil st.bq_call k) ∙ h in cc failed)
      by_queue (x ∷ xs) k =
          let (q', f, qe, qm) = try_pop-cons st.bq_call x xs k in
          let same : x ≡ call = let both = sym f ∙ h in cc both in
          let left : q.queue ≡ xs =
            sym (ap (λ (p : Option Call × BlockQueue Call). p.1.queue) (sym f ∙ h)) ∙ qe in
          rw (k, left, same, answer_taken c call call' e)
            (perm_exchange [] (calls_for c hands) [] (one_for c call')
              (one_for c call' ++ answers_for c xs) (answers_for c xs) [] [] (append-nil _))

  one_at : (c d : ℕ) (call : Call) → call.connection ≡ some d → one_for c call ≡ if_at c d call
  one_at c d call h = ap (λ o. if is_for c o then call ∷ [] else []) h

  give-Keeps :
      (c d : ℕ) (hands others : List Call) (call : Call) (qs : List Call)
      → call.connection ≡ some d
      → Perm
          (calls_for c (hands ++ call ∷ others) ++ (answers_for c qs ++ []))
          (if_at c d call ++ (calls_for c (hands ++ others) ++ answers_for c qs))
  give-Keeps c d hands others call qs h =
      rw
        (
          calls_for-append c hands (call ∷ others),
          calls_for-append c hands others,
          one_at c d call h,
        )
        (perm_exchange (calls_for c hands) (calls_for c others) (if_at c d call) []
          (answers_for c qs) (answers_for c qs) [] (if_at c d call)
          (ap (◌++◌ (if_at c d call)) (append-nil _)))

  -- The moves of the threads that send leave the calls of the handlers alone.
  Move-bq_call :
      {st st' : State} {t t' : Threads.Task} → Move st t st' t' → st'.bq_call ≡ st.bq_call
  unfolding schedule
  Move-bq_call (push call k h) = refl
  Move-bq_call (inline h) = refl
  Move-bq_call (later h) = refl
  Move-bq_call (schedules h) = refl
  Move-bq_call (take h k) = refl
  Move-bq_call (pop h) = refl
  Move-bq_call (send_rest h) = refl
  Move-bq_call (send h) = refl

  pushed_by-none :
      {st st' : State} {t t' : Threads.Task} (c : ℕ) (move : Move st t st' t')
      → IsNoPush move
      → pushed_by c move ≡ []
  pushed_by-none c (push call k h) none_pushed = absurd none_pushed
  pushed_by-none c (inline h) none_pushed = refl
  pushed_by-none c (later h) none_pushed = refl
  pushed_by-none c (schedules h) none_pushed = refl
  pushed_by-none c (take h k) none_pushed = refl
  pushed_by-none c (pop h) none_pushed = refl
  pushed_by-none c (send_rest h) none_pushed = refl
  pushed_by-none c (send h) none_pushed = refl

  -- The responses that a turn queues at the connection.
  abbrev pushed_in : {u w : World} → ℕ → Turn u w → List Call
  pushed_in c (reads fuel now d id ps rest h k e p room) = []
  pushed_in c (takes call call' h e) = []
  pushed_in c (gives {c = d} before after hands others call h k e) = if_at c d call
  pushed_in c (goes before after move h) = pushed_by c move
  pushed_in c (hears d s h) = []
  pushed_in c (comes ep address sock now new fresh) = []

  pushed_first :
      {u v w : World} (c : ℕ) (turn : Turn u v) (turns : Turns v w)
      → pushed_at c (project_all (next turn turns))
        ≡ pushed_in c turn ++ pushed_at c (project_all turns)
  pushed_first c (reads fuel now d id ps rest h k e p room) turns = refl
  pushed_first c (takes call call' h e) turns = refl
  pushed_first c (gives before after hands others call h k e) turns = refl
  pushed_first c (goes before after move h) turns = refl
  pushed_first c (hears d s h) turns = refl
  pushed_first c (comes ep address sock now new fresh) turns = refl

  Turn-Keeps :
      {u w : World} (c : ℕ) (turn : Turn u w) → Keeps c u w (read_by turn) (pushed_in c turn)
  unfolding create_connection
  Turn-Keeps {u} {w} c (reads {st} {l} {class = class} {m = m} fuel now d id ps rest h k e p room) =
      let (st', x, q) = do_read-Queued fuel now d id ps st l rest h k e p room in
      read-Keeps c u w (requested d id class m ps) refl
        (ap (λ (r : Result (Unit {0}) × (State × Listener)). r.1.0.bq_call) x ∙ q.queued)
  Turn-Keeps c (takes {st} {l} {threads} {hands} {q} call call' h e) =
      take-Keeps c st l threads hands q call call' h e
  Turn-Keeps c (gives {st} {c = d} before after hands others call h k e) =
      give-Keeps c d hands others call st.bq_call.queue h
  Turn-Keeps {u} {w} c (goes before after move h) =
      rw (pushed_by-none c move h) (Keeps-same c u w refl (Move-bq_call move))
  Turn-Keeps {u} {w} c (hears d s h) = Keeps-same c u w refl refl
  Turn-Keeps {u} {w} c (comes ep address sock now new fresh) = Keeps-same c u w refl refl

  pub Turns-Keeps :
      {u w : World} (c : ℕ) (turns : Turns u w)
      → Keeps c u w (read_in turns) (pushed_at c (project_all turns))
  Turns-Keeps {u} c done = Keeps-same c u u refl refl
  Turns-Keeps {u} {w} c (next {v = v} turn turns) =
      rw (answers_for-append c (read_by turn) (read_in turns), pushed_first c turn turns)
        (perm_then (calls_for c u.hands) (answers_for c u.state.bq_call.queue)
          (answers_for c (read_by turn)) (calls_for c v.hands) (answers_for c v.state.bq_call.queue)
          (pushed_in c turn) (answers_for c (read_in turns)) (pushed_at c (project_all turns)) _
          (Turn-Keeps c turn) (Turns-Keeps c turns))
