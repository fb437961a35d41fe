-- ===== src/Exchange/Threads.antt =====
-- All threads of a client and of its server at work at once, on the two ends of one connection.
pub mod Replies
pub mod Values
mod Tests
use p_rpc.Base.{
  ℕ, ◌<◌, ◌≡◌, refl, sym, ap, ◌∙◌, List, [], ◌∷◌, ◌++◌, true, some, none, arith, int_mod,
  append_assoc, length, length-append, All, All-map, All-perm, All-split, All-append, if◌then◌else◌,
  ◌==◌, ==_iff, Bool-cases, inl, inr, find, Option, length-le_bytes, le_bytes,
}
use mathlib.Core.Logic.{∥∥₁_map}
use p_rpc.Client
use p_rpc.Client.Connection.{socket}
use p_rpc.Client.Connection.Threads.{Response, Moves, wires, wire_of, sent_in, arrived_in, latest}
use p_rpc.Client.Connection.Threads.Runs.{Moves-Goes, start}
use p_rpc.Client.Connection.Threads.Sent.{IsEntered, Moves-Sent}
use p_rpc.Exchange.Frames.{
  request_unique, response_unique, responses_found, request-not_nil, length-served,
}
use p_rpc.IntWritable.Narrow.{narrow}
use p_rpc.Method
use p_rpc.MethodWritable.Wire.{IsSendable, received_params, depth_params}
use p_rpc.Server.Call.{Call}
use p_rpc.Server.Call.Request.{request_wire, requested}
use p_rpc.Server.Connection.{Connection}
use p_rpc.Server.Connection.Sending.{response_wire}
use p_rpc.Server.Handler.{execute}
use p_rpc.Server.Handler.Values.{HasNumber, execute-HasNumber}
use p_rpc.Server.Listener.{Listener}
use p_rpc.Server.Responder.Framing.{AllWhole, responses, sent_at}
use p_rpc.Server.Responder.Threads.{IsKnown}
use p_rpc.Server.Service.{
  World, Turn, Turns, reads, takes, gives, goes, hears, comes, done, next, answers_for, answer_for,
  is_for, calls_for, read_in,
}
use p_rpc.Server.Service.Answering.{start_world, HoldsNone, requests-IsAnswered}
use p_rpc.Server.Service.Projecting.{project_all}
use p_rpc.Socket.{Asio, ok, throws, crash, Result}
use p_rpc.Socket.Network.{Network}
use p_rpc.Writable.{Writable, Params, method_writable, int_writable}

abbrev pub requests : List Client.Call.Call → List ℕ
requests [] = []
requests (call ∷ calls) = request_wire call.id call.param ++ requests calls

-- The parameter is a method.
pub record IsMethod (param : Writable) : Type 0 where
  pub class_name : List ℕ
  pub method_name : List ℕ
  pub params : Params
  pub same : param ≡ method_writable class_name method_name params

-- The value of the call is what the method in its parameter returns for the parameters that arrive.
pub record IsServed (call : Client.Call.Call) : Type 0 where
  pub method : IsMethod call.param
  pub result : ℕ
  pub returned :
      Method.call method.class_name method.method_name (received_params method.params)
      ≡ ok (some (int_writable (some result)))
  pub value : call.value ≡ some (int_writable (some (narrow result)))

module _ ⦃net : Asio⦄ where
  open net use {Socket, pending}

  -- The bytes of the requests that are read at the connection `c`.
  abbrev pub taken_in : {u w : World} → ℕ → Turns u w → List ℕ
  taken_in c done = []
  taken_in c (next (reads {class = class} {m = m} fuel now d id ps rest h k e p room) turns) =
      (if d == c then request_wire id (method_writable class m ps) else []) ++ taken_in c turns
  taken_in c (next (takes call call' h e) turns) = taken_in c turns
  taken_in c (next (gives before after hands others call h k e) turns) = taken_in c turns
  taken_in c (next (goes before after move h) turns) = taken_in c turns
  taken_in c (next (hears d s h) turns) = taken_in c turns
  taken_in c (next (comes ep address sock now new fresh) turns) = taken_in c turns

  -- A call that fits is a method that can be sent, with an id within an `int`.
  pub record Fits (call : Client.Call.Call) : Type 0 where
    pub method : IsMethod call.param
    pub sendable : IsSendable call.param
    pub id_small : call.id < int_mod

  -- The server's call is made of the request of a call of the client with the property.
  pub record IsFor (c : ℕ) (P : Client.Call.Call → Type 0) (x : Call) : Type 0 where
    pub call : Client.Call.Call
    pub has : P call
    pub fits : Fits call
    pub made :
        x ≡ requested c call.id fits.method.class_name fits.method.method_name fits.method.params

  pub requests_found :
      {u w : World} (c : ℕ) (P : Client.Call.Call → Type 0) (turns : Turns u w)
      (calls : List Client.Call.Call) (rest : List ℕ)
      → All (λ call. P call × Fits call) calls
      → taken_in c turns ++ rest ≡ requests calls
      → All (IsFor c P) (calls_for c (read_in turns))
  requests_found c P done calls rest h e = tt
  requests_found c P
        (next (reads {class = class} {m = m} fuel now d id ps rest' k small deep p room) turns)
        calls rest h e =
      elim (Bool-cases (d == c)) [
        | inl here ↦ rw here (
            reads_first (λ calls' h' e'. requests_found c P turns calls' rest h' e')
              ((==_iff d c).0 here) calls h (rw here at e))
        | inr there ↦ rw there (requests_found c P turns calls rest h (rw there at e))
      ]
    where
      reads_first :
          ((calls : List Client.Call.Call)
            → All (λ call. P call × Fits call) calls
            → taken_in c turns ++ rest ≡ requests calls
            → All (IsFor c P) (calls_for c (read_in turns)))
          → d ≡ c
          → (calls : List Client.Call.Call) → All (λ call. P call × Fits call) calls
          → (request_wire id (method_writable class m ps) ++ taken_in c turns) ++ rest
            ≡ requests calls
          → All (IsFor c P) (requested d id class m ps ∷ calls_for c (read_in turns))
      reads_first later at_c [] h e = absurd (
          request-not_nil id (method_writable class m ps) (taken_in c turns ++ rest) (
            sym
              (append_assoc (request_wire id (method_writable class m ps)) (taken_in c turns) rest)
            ∙ e))
      reads_first later at_c (call ∷ calls) ((has, fits), h) e =
          let (same, others) =
            request_unique d id call.id ps fits.method.params (taken_in c turns ++ rest)
              (requests calls) small fits.id_small k (rw (fits.method.same) at (fits.sendable))
              (sym (
                  append_assoc (request_wire id (method_writable class m ps)) (taken_in c turns)
                    rest)
                ∙ e
                ∙ ap (λ w. request_wire call.id w ++ requests calls) fits.method.same) in
          (
            record {
              call = call;
              has = has;
              fits = fits;
              made =
                  same
                  ∙ ap
                      (λ x.
                        requested x call.id fits.method.class_name fits.method.method_name
                          fits.method.params)
                      at_c;
            },
            later calls h others,
          )
  requests_found c P (next (takes call call' h e) turns) calls rest k f =
      requests_found c P turns calls rest k f
  requests_found c P (next (gives before after hands others call h k e) turns) calls rest x f =
      requests_found c P turns calls rest x f
  requests_found c P (next (goes before after move h) turns) calls rest k f =
      requests_found c P turns calls rest k f
  requests_found c P (next (hears d s h) turns) calls rest k f =
      requests_found c P turns calls rest k f
  requests_found c P (next (comes ep address sock now new fresh) turns) calls rest k f =
      requests_found c P turns calls rest k f
