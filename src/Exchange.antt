-- ===== src/Exchange.antt =====
-- A client and a server on the two ends of a connection: from the bytes that the client has sent to
-- the value that its call gets.
pub mod Answering
pub mod Asking
pub mod Creating
pub mod Frames
pub mod Threads
mod Tests
use p_rpc.Base.{List, ℕ, ◌≡◌, [], drop, ◌++◌}
use p_rpc.Socket.{◌>>◌, ◌>>=◌, Asio, Eff, Result, ok}
use p_rpc.Socket.Network.{Network}
use p_rpc.Server.Cycle.{serve}
use p_rpc.Server.Connection
use p_rpc.Server.State.{State}
use p_rpc.Server.Listener.{Listener}
use p_rpc.Client.Registry.{Client, update}
use p_rpc.Client.Connection.{Pointer, null, wild, socket, on_sock, recv_respond, Connection}

module _ ⦃net : Asio⦄ where
  open net use {Socket, pending, sent, room}

  abbrev pub World : Type 0
  World = Client × (State × Listener)

  abbrev pub sent_by : Pointer → List ℕ
  sent_by null = []
  sent_by wild = []
  sent_by (socket s) = sent s

  abbrev with_client : {A : Type 0} → Client → Result A × (State × Listener) → Result A × World
  with_client client (r, server) = (r, (client, server))

  -- What a thread of the server does.
  abbrev pub by_server : {A : Type 0} → Eff (State × Listener) A → Eff World A
  by_server m (client, server) = with_client client (m server)

  abbrev with_server : {A : Type 0} → ℕ → World → Result A × Connection → Result A × World
  with_server c (client, server) (r, conn) =
      (r, (record client { objects = update client.objects c conn }, server))

  -- What the receiver thread of the client's connection `c` does.
  abbrev pub by_receiver : {A : Type 0} → ℕ → Eff Connection A → Eff World A
  by_receiver c m (client, server) = with_server c (client, server) (m (client.objects c))

  module _ (link : Network) (c k : ℕ) where
    open link use {deliver}

    -- The bytes that the client sent after the first `seen` ones come in at the server's connection.
    unfoldable pub request_arrives : ℕ → Eff World (Unit {0})
    request_arrives seen (client, (st, l)) = (
      ok tt,
      (
        client,
        (
          record st {
            objects = update st.objects k (record (st.objects k) {
              sock = deliver (drop seen (sent_by (client.objects c).sock)) (st.objects k).sock;
            });
          },
          l,
        ),
      ),
    )

    -- The bytes that the server sent after the first `seen` ones come in at the client's connection.
    unfoldable pub response_arrives : ℕ → Eff World (Unit {0})
    response_arrives seen (client, (st, l)) =
        by_receiver c (on_sock λ s. (ok tt, deliver (drop seen (sent (st.objects k).sock)) s))
          (client, (st, l))

    -- A request that the client has sent goes to the server, is served there in `n` turns of the
    -- responder, and the response comes back and is received.
    unfoldable pub exchange : ℕ → ℕ → ℕ → ℕ → ℕ → Eff World (Unit {0})
    exchange n fuel now requests responses = do
      request_arrives requests
      by_server (serve n fuel now k)
      response_arrives responses
      by_receiver c (recv_respond fuel)
