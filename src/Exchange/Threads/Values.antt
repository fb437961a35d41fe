-- ===== src/Exchange/Threads/Values.antt =====
-- Each value that a call of the client gets is that of its own method.
use p_rpc.Client
use mathlib.Core.Logic.{∥∥₁_map}
use p_rpc.Base.{
  ℕ, ◌<◌, ◌≡◌, refl, sym, ◌∙◌, List, [], ◌++◌, true, some, none, int_mod, All, All-perm, All-split,
  find, Option,
}
use p_rpc.Client.Connection.{socket}
use p_rpc.Client.Connection.Threads.{
  Response, Moves, wires, wire_of, sent_in, arrived_in, latest, IsAnswered,
}
use p_rpc.Client.Connection.Threads.Runs.{Moves-Goes, start}
use p_rpc.Client.Connection.Threads.Sent.{IsEntered, Moves-Sent}
use p_rpc.Exchange.Frames.{responses_found}
use p_rpc.Exchange.Threads.{requests, IsMethod, IsServed, taken_in, requests_found}
use mathlib.Core.Path.{subst}
use p_rpc.Server.Call.{Call}
use p_rpc.Server.Connection.{Connection}
use p_rpc.Server.Connection.Sending.{response_wire}
use p_rpc.Server.Listener.{Listener}
use p_rpc.Server.Responder.Framing.{AllWhole, responses, sent_at}
use p_rpc.Server.Responder.Threads.{IsKnown}
use p_rpc.Server.Service.{World, Turns, read_in}
use p_rpc.Server.Service.Answering.{start_world, HoldsNone, requests-IsAnswered}
use p_rpc.Server.Service.Projecting.{project_all}
use p_rpc.Socket.{Asio}
use p_rpc.Socket.Network.{Network}
use p_rpc.Exchange.Threads.Replies.{
  latest_found, IsReply, replies_found, length_reply, small_id, fits_of, IsServed-reply,
}

module _ ⦃net : Asio⦄ where
  open net use {Socket, pending}

  module _ (link : Network) where
    -- What the connection between them does: the server reads what the client sent, and the client
    -- is delivered what the server sent, each from the beginning and in order.
    pub record IsLinked {u w : World} {conn conn' : Client.Connection.Connection} (c : ℕ)
        (turns : Turns u w) (moves : Moves link conn conn') : Type 0 where
      pub to_read : List ℕ
      pub up : taken_in c turns ++ to_read ≡ requests (sent_in link moves)
      pub to_deliver : List ℕ
      pub down :
          wires (arrived_in link moves) ++ to_deliver ≡ responses (sent_at c (project_all turns))

    -- The response has the bytes of a reply.
    abbrev Carries : ℕ → Client.Connection.Connection → Response → Type 0
    Carries c conn r = (y : Call) × IsReply c (IsEntered conn) y × (response_wire y ≡ wire_of r)

    -- A call that is done has the value of the last response to it.
    by_latest :
        (conn : Client.Connection.Connection) (c j : ℕ) (call : Client.Call.Call)
        → find j conn.calls ≡ some call
        → j < int_mod
        → call.done ≡ true
        → (received : List Response) → All (Carries c conn) received
        → (o : Option ℕ) → latest j received ≡ o
        → IsAnswered call o
        → IsServed call
    by_latest conn c j call f small d received got none e answered =
        absurd (let both = sym d ∙ answered.0 in cc both)
    by_latest conn c j call f small d received got (some v) e answered =
        let (r, (y, reply, wire), same_id, same_value) =
          latest_found (Carries c conn) j v received got e in
        IsServed-reply conn c j v call r y f small answered.1 same_id same_value reply wire

    -- Let the server have started, with any number of threads, and reached a state in which the
    -- connection `c` is in the map and it holds no call for it. Let its readers, handlers and
    -- responders work on by the turns of `Server.Service`, in any order, as long as the responses
    -- queued at `c` are short and not begun, `c` stands as long as they are and each `write_some`
    -- there takes the whole value. Let a client be at the other end, connected, its next id within
    -- an `int`, without calls and with nothing to read, whose threads enter calls with a number
    -- for their value, send them and receive responses by the moves of
    -- `Client.Connection.Threads`, in any order, and let each call that is sent have a method for
    -- its parameter. Let the server have read, and the client been delivered, what the other one
    -- sent, from the beginning and in order, though not all of it. Then each call of the client
    -- that is done has for its value what is left of a number that the method in its own parameter
    -- returns for the parameters as they arrive, however many calls were on their way at once.
    pub calls-IsServed :
        (memory : ℕ → Connection) (l : Listener) (n c : ℕ) {u w : World}
        {conn conn' : Client.Connection.Connection} (s : Socket) (call : Client.Call.Call) (j : ℕ)
        → Turns (start_world memory l n) u
        → (turns : Turns u w) → IsKnown u.state c
        → HoldsNone c u
        → AllWhole c (project_all turns)
        → (moves : Moves link conn conn') → conn.sock ≡ socket s
        → pending s ≡ []
        → conn.calls ≡ []
        → conn.last_call_index < int_mod
        → All (λ (call : Client.Call.Call). IsMethod call.param) (sent_in link moves)
        → IsLinked c turns moves
        → find j conn'.calls ≡ some call
        → call.done ≡ true
        → ∥ IsServed call ∥₁
    calls-IsServed memory l n c {conn} {conn'} s call j reached turns known fresh whole moves e p
          calls small methods between f d =
        let ordered = start link conn s e p calls small in
        let (received, rest, split, h) = Moves-Goes link [] [] moves ordered in
        let fits = fits_of h (sent_in link moves) (Moves-Sent link [] [] moves ordered) methods in
        let replies = replies_found c (IsEntered conn') (read_in turns) (
          requests_found c (IsEntered conn') turns (sent_in link moves) (between.to_read) fits
            (between.up)) in
        let run = requests-IsAnswered memory l n c reached turns known fresh whole in
        ∥∥₁_map {B = IsServed call} (All-perm (IsReply c (IsEntered conn')) run.calls replies)
          (λ all.
            let (left, held) =
              All-split (IsReply c (IsEntered conn')) (sent_at c (project_all turns)) _ all in
            let found =
              responses_found (IsReply c (IsEntered conn')) (length_reply c (IsEntered conn'))
                (sent_at c (project_all turns)) (arrived_in link moves) (between.to_deliver) left
                (between.down) in
            let (got, later) =
              All-split (Carries c conn') received rest
                (subst (All (Carries c conn')) (sym split) found) in
            let small_j : j < int_mod = small_id h j call f in
            by_latest conn' c j call f small_j d received got (latest j received) refl
              (h.matched.values j call f))
