-- ===== src/Server/Service/Projecting.antt =====
-- The turns of the whole server as steps of the threads that send.
use p_rpc.Server.Call.Request.{request_wire}
use p_rpc.MethodWritable.Wire.{IsSendable, depth_params}
use p_rpc.Writable.{Params, method_writable}
use p_rpc.Server.Listener.Reading.{Queued, do_read-Queued}
use p_rpc.Server.Listener.{Listener, do_read}
use p_rpc.BlockQueue.{BlockQueue, has_room}
use p_rpc.Server.State.{State, update}
use p_rpc.Socket.{Asio}
use mathlib.Core.Path.{subst}
use native.Mathlib.Decide.{ℕ_discrete}
use p_rpc.Server.Connection.{Connection}
use p_rpc.Server.Call.{Call}
use p_rpc.Base.{
  Bool-cases, ◌==◌, ==_iff, inl, inr, ℕ, List, refl, ◌≡◌, ap, ◌<◌, int_mod, ◌++◌, true,
}
use p_rpc.Server.Service.{World, Turn, Turns, reads, takes, gives, goes, comes, hears, done, next}
use p_rpc.Server.Responder.Threads
use p_rpc.Server.Responder.Threads.{Untouched, Step, Steps, step, elsewhere, arrive, push, sending}

module _ ⦃net : Asio⦄ where
  open net use {Socket, sent, pending}

  -- A reader that reads a request touches no response.
  Queued-Untouched :
      {st st' : State} {c now : ℕ} {call : Call} {rest : List ℕ}
      → Queued st c now call rest st'
      → Untouched st st'
  Queued-Untouched {st} {st'} {c} q = record {
    connections = q.known;
    scheduled = q.scheduled;
    endpoint = λ d. at_place (λ (x : Connection). x.endpoint) q.endpoint d;
    respond_queue = λ d. at_place (λ (x : Connection). x.respond_queue) q.respond_queue d;
    silent = λ d. at_place (λ (x : Connection). sent x.sock) q.silent d;
  }
    where
      at_place :
          {A : Type 0} (f : Connection → A)
          → f (st'.objects c) ≡ f (st.objects c)
          → (d : ℕ) → f (st'.objects d) ≡ f (st.objects d)
      at_place f e d = elim (ℕ_discrete c d) [
        | yes here ↦ subst (λ x. f (st'.objects x) ≡ f (st.objects x)) here e
        | no there ↦ ap f (q.others_kept d there)
      ]

  pub bq_call-Untouched :
      (st : State) (q : BlockQueue Call) → Untouched st (record st { bq_call = q })
  bq_call-Untouched st q = record {
    connections = refl;
    scheduled = refl;
    endpoint = λ c. refl;
    respond_queue = λ c. refl;
    silent = λ c. refl;
  }

  pub hears-Untouched :
      (st : State) (d : ℕ) (s : Socket)
      → sent s ≡ sent (st.objects d).sock
      → Untouched st
          (record st { objects = update st.objects d (record (st.objects d) { sock = s }) })
  hears-Untouched st d s h = record {
    connections = refl;
    scheduled = refl;
    endpoint = λ c. at_place (λ (x : Connection). x.endpoint) refl c;
    respond_queue = λ c. at_place (λ (x : Connection). x.respond_queue) refl c;
    silent = λ c. at_place (λ (x : Connection). sent x.sock) h c;
  }
    where
      at_place :
          {A : Type 0} (f : Connection → A)
          → f (record (st.objects d) { sock = s }) ≡ f (st.objects d)
          → (c : ℕ)
          → f (update st.objects d (record (st.objects d) { sock = s }) c) ≡ f (st.objects c)
      at_place f e c = elim (Bool-cases (d == c)) [
        | inl here ↦ rw here (
            subst (λ x. f (record (st.objects d) { sock = s }) ≡ f (st.objects x))
              ((==_iff d c).0 here) e)
        | inr there ↦ rw there refl
      ]

  pub reads-Untouched :
      {st : State} {class m : List ℕ} (l : Listener) (fuel now c id : ℕ) (ps : Params)
      (rest : List ℕ)
      → IsSendable (method_writable class m ps)
      → id < int_mod
      → depth_params ps < fuel
      → pending (st.objects c).sock ≡ request_wire id (method_writable class m ps) ++ rest
      → has_room st.bq_call ≡ true
      → Untouched st (do_read fuel now c (st, l)).1.0
  reads-Untouched {st} l fuel now c id ps rest h k d p room =
      let (st', e, q) = do_read-Queued fuel now c id ps st l rest h k d p room in
      rw e (Queued-Untouched q)

  abbrev pub sending_world : World → Threads.World
  sending_world w = record { state = w.state; threads = w.threads }

  abbrev pub project : {u w : World} → Turn u w → Step (sending_world u) (sending_world w)
  project (reads {l = l} fuel now c id ps rest h k d p room) =
      elsewhere (reads-Untouched l fuel now c id ps rest h k d p room)
  project (takes {st} {q = q} call call' h e) = elsewhere (bq_call-Untouched st q)
  project (gives before after hands others call h k e) = step before after (push call k e)
  project (goes before after move h) = step before after move
  project (hears {st} d s h) = elsewhere (hears-Untouched st d s h)
  project (comes ep address sock now new fresh) = arrive ep address sock now new fresh

  abbrev pub project_all : {u w : World} → Turns u w → Steps (sending_world u) (sending_world w)
  project_all done = Threads.done
  project_all (next turn turns) = Threads.next (project turn) (project_all turns)
