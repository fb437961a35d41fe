-- ===== src/Server/Cycle/Several.antt =====
-- Requests that come in one after another at a connection, each served before the next is read.
mod Tests
use p_rpc.Server.Connection.Rounds.{length-header, length-response}
use p_rpc.Server.Handler.{execute}
use p_rpc.Server.Cycle.{Quiet, serve, Call}
use p_rpc.Server.Cycle.Whole.{Replied, serve-Replied}
use p_rpc.Server.Listener.{Listener, watch}
use p_rpc.Writable.{Params, method_writable}
use p_rpc.Server.State.{State}
use p_rpc.MethodWritable.Wire.{IsSendable, depth_params}
use p_rpc.Server.Call.Request.{request_wire, requested}
use p_rpc.Server.Connection.Sending.{response_wire, header}
use p_rpc.Socket.{◌>>◌, Asio, Eff, pure, ok, continue}
use p_rpc.Base.{
  ◌∷◌, [], zero, suc, List, ℕ, ◌++◌, All, ◌<◌, ◌∙◌, ◌≡◌, int_mod, append_assoc, length, ◌≤◌, sym,
  ◌^◌, append-nil, length-append, arith, ◌+◌, refl,
}

-- A request with the response to it.
pub record Request : Type 0 where
  pub id : ℕ
  pub class : List ℕ
  pub method : List ℕ
  pub params : Params
  pub response : Call

abbrev pub asked_by : Request → List ℕ
asked_by r = request_wire r.id (method_writable r.class r.method r.params)

abbrev pub requests_wire : List Request → List ℕ
requests_wire [] = []
requests_wire (r ∷ rs) = asked_by r ++ requests_wire rs

abbrev pub responses_wire : List Request → List ℕ
responses_wire [] = []
responses_wire (r ∷ rs) = response_wire r.response ++ responses_wire rs

-- At the connection `c`, with the fuel `fuel` and `n` turns of the responder, the request can be
-- read, executed and answered.
pub record IsServable (n fuel c : ℕ) (r : Request) : Type 0 where
  pub sendable : IsSendable (method_writable r.class r.method r.params)
  pub int_id : r.id < int_mod
  pub shallow : depth_params r.params < fuel
  pub executed : execute (requested c r.id r.class r.method r.params) ≡ ok r.response
  pub short : length r.response.str_val < 2 ^ 31
  pub turns : length r.response.str_val ≤ n

module _ ⦃net : Asio⦄ where
  open net use {Socket, pending, sent, room}

  -- One request after another.
  unfoldable pub serve_times : ℕ → ℕ → ℕ → ℕ → ℕ → Eff (State × Listener) (Unit {0})
  serve_times n fuel now c zero = pure tt
  serve_times n fuel now c (suc k) = serve n fuel now c >> serve_times n fuel now c k

  -- The responses went out whole, in the order of the requests, and the connection is quiet again.
  pub record AllReplied (st : State) (c : ℕ) (rs : List Request) (rest : List ℕ) (st' : State)
      : Type 0 where
    pub quiet : Quiet st' c
    pub taken : pending (st'.objects c).sock ≡ rest
    pub replied : sent (st'.objects c).sock ≡ sent (st.objects c).sock ++ responses_wire rs
    pub connections : st'.connections ≡ st.connections

  then-AllReplied :
      (st st1 st' : State) (c : ℕ) (r : Request) (rs : List Request) (rest : List ℕ)
      → Replied st c r.response (requests_wire rs ++ rest) st1
      → AllReplied st1 c rs rest st'
      → AllReplied st c (r ∷ rs) rest st'
  then-AllReplied st st1 st' c r rs rest first others = record {
    quiet = others.quiet;
    taken = others.taken;
    replied =
        others.replied
        ∙ (rw first.replied (append_assoc (sent (st.objects c).sock) (response_wire r.response) _));
    connections = others.connections ∙ first.connections;
  }

  -- Let requests that can be served come in one after another at a connection of a server with
  -- nothing under way, and let the connection stand long enough for all the responses. Then as many
  -- turns of the reader, of a handler and of the responder end, exactly the bytes of the requests are
  -- taken, exactly the responses to them are sent, each whole and once, in the order of the requests,
  -- and nothing is under way again.
  pub serve_times-AllReplied :
      (n fuel now c : ℕ) (rs : List Request) (st : State) (l : Listener) (rest : List ℕ)
      → Quiet st c
      → All (IsServable n fuel c) rs
      → pending (st.objects c).sock ≡ requests_wire rs ++ rest
      → length (responses_wire rs) ≤ room (st.objects c).sock
      → (st' : State) × (l' : Listener) × (serve_times n fuel now c (length rs) (st, l)
          ≡ (ok tt, (st', l')))
        × AllReplied st c rs rest st'
  unfolding serve_times
  serve_times-AllReplied n fuel now c [] st l rest quiet all p fits = (
    st,
    l,
    refl,
    record { quiet = quiet; taken = p; replied = sym (append-nil _); connections = refl },
  )
  serve_times-AllReplied n fuel now c (r ∷ rs) st l rest quiet (h, all) p fits =
      let total = length-append (response_wire r.response) (responses_wire rs) in
      let (st1, e, first) =
        serve-Replied n fuel now c r.id r.params st l (requests_wire rs ++ rest) r.response quiet
          h.sendable h.int_id h.shallow (p ∙ append_assoc (asked_by r) (requests_wire rs) rest)
          h.executed h.short (omega (arith, length-response r.response, total)) h.turns in
      let (st', l', f, others) =
        serve_times-AllReplied n fuel now c rs st1 (watch (st.objects c).endpoint l) rest
          first.quiet all first.taken (omega (arith, first.room_left, total)) in
      (st', l', rw (e, continue) f, then-AllReplied st st1 st' c r rs rest first others)
