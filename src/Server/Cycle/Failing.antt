-- ===== src/Server/Cycle/Failing.antt =====
-- A request for a method that the server does not have.
use p_rpc.Server.Responder.Turn.{respond_times}
use p_rpc.Server.Listener.Reading.{do_read-Queued}
use p_rpc.Server.Call.Request.{request_wire, requested}
use p_rpc.BlockQueue.Order.{try_pop-cons}
use p_rpc.MethodWritable.Wire.{IsSendable, depth_params}
use p_rpc.Server.Listener.{Listener}
use p_rpc.Server.State.{State}
use p_rpc.Base.{ℕ, ◌≡◌, List, ◌∷◌, [], ◌<◌, int_mod, refl, ◌++◌, lt→ltb, arith, ap, length}
use p_rpc.BlockQueue.{push_value}
use p_rpc.Socket.{Asio, Result, Eff, Fault, crash, null_pointer, continue, ok, throws}
use p_rpc.Server.Handler.{execute, handle_once, handle_call}
use p_rpc.Server.Call.{Call, set_value}
use p_rpc.Server.Cycle.{Quiet, serve}
use p_rpc.Method.Dispatch.{IsKnown, call-null_iff}
use p_rpc.Writable.{Params, method_writable}

execute-null :
    (call : Call) → ¬ IsKnown call.class_name call.method_name → execute call ≡ crash null_pointer
unfolding execute set_value
execute-null call h = rw ((call-null_iff call.class_name call.method_name call.params).1 h) refl

module _ ⦃net : Asio⦄ where
  open net use {Socket, pending}

  handle_once-null :
      (st : State) (call : Call)
      → st.bq_call.queue ≡ call ∷ []
      → execute call ≡ crash null_pointer
      → (handle_once st).0 ≡ crash null_pointer
  unfolding handle_once handle_call
  handle_once-null st call h e =
      let (q, f, qe, qm) = try_pop-cons st.bq_call call [] h in rw f (rw e refl)

  continue-crash :
      {A B : Type 0} (p : Result A × State) (f : A → Eff State B) (e : Fault)
      → p.0 ≡ crash e
      → (continue p f).0 ≡ crash e
  continue-crash (ok a, st) f e h = absurd (let failed = h in cc failed)
  continue-crash (throws x, st) f e h = absurd (let failed = h in cc failed)
  continue-crash (crash x, st) f e h =
      let failed = h in let same : x ≡ e = cc failed in ap crash same

  -- Let a sendable method be a request with an id within an `int` that comes in at a connection of a
  -- server with nothing under way, and let its class and method name not be those of a method that is
  -- implemented. If the fuel exceeds the nesting depth of the parameters, a turn of the reader and
  -- one of a handler end the process: the handler reads through the null pointer that it got for a
  -- value.
  pub serve-null :
      (n fuel now c id : ℕ) {class m : List ℕ} (ps : Params) (st : State) (l : Listener)
      (rest : List ℕ)
      → Quiet st c
      → IsSendable (method_writable class m ps)
      → id < int_mod
      → depth_params ps < fuel
      → pending (st.objects c).sock ≡ request_wire id (method_writable class m ps) ++ rest
      → ¬ IsKnown class m
      → (serve n fuel now c (st, l)).0 ≡ crash null_pointer
  unfolding serve push_value
  serve-null n fuel now c id {class} {m} ps st l rest quiet h k d p unknown =
      let call = requested c id class m ps in
      let (st1, e, q1) =
        do_read-Queued fuel now c id ps st l rest h k d p
          (lt→ltb _ _ (omega (arith, ap length quiet.nothing_called, quiet.room_called))) in
      let one : st1.bq_call.queue ≡ call ∷ [] = rw (q1.queued, quiet.nothing_called) refl in
      rw (e, continue)
        (continue-crash (handle_once st1) (λ u. respond_times n) null_pointer
          (handle_once-null st1 call one (execute-null call unknown)))
