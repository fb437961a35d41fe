-- ===== src/Exchange/Creating.antt =====
-- `DataNodeProtocol::create` from the arguments to the value.
use p_rpc.Rpc.Packing.{invoke-packed_call, Prints}
use p_rpc.Writable.{int_writable, print_to_string, Writable}
use p_rpc.IntWritable.Narrow.{IsSmall}
use p_rpc.Server.Listener.{Listener}
use p_rpc.Base.{ℕ, false, ◌∷◌, ◌≤◌, [], ◌+◌, ◌%◌, int_mod, some, ◌≡◌, codes, refl, ap, Option}
use p_rpc.Socket.{Asio, ok, Result}
use p_rpc.Socket.Network.{Network}
use p_rpc.Exchange.Asking.{meanwhile, CanAsk, call-sum, entered}
use p_rpc.Client.Registry.{Client, System}
use p_rpc.Rpc.{
  invoke_client, DataNodeProtocol, ClientCache, Setting, get_client, create, standard, invoke,
  in_cache,
}
use p_rpc.Server.State.{State}
use p_rpc.Client.Connection.{Connection}

int_writable-Prints : (value : ℕ) → Prints (int_writable (some value))
unfolding print_to_string
int_writable-Prints value = refl

module _ ⦃net : Asio⦄ where
  open net use {Socket, pending, sent, room}

  module _ (link : Network) (sys : System) (k : ℕ) (st : State) (l : Listener) (s : Socket)
      (n now address : ℕ) (memory : ℕ → Connection) (protocol : DataNodeProtocol) (a0 a1 a2 a3 : ℕ)
      (cache : ClientCache) where
    -- The client of the cache.
    abbrev pub client : Client
    client = let (a, cache') = get_client address memory standard cache in cache'.objects a

    -- The clients run, and while the call waits there is one exchange with the server.
    abbrev pub setting : Setting
    setting =
        let c = (entered link sys protocol.endpoint k client st l s a0 a1 a2 a3).0.0 in
        record {
          system = sys;
          should_stop = false;
          rounds = (meanwhile link c k n now s (st, l) ∷ []) ∷ [];
        }

    -- `DataNodeProtocol::create` with four numbers, where all of them and their sum as an `int` lie
    -- between -128 and 127, the cached client can ask the server, and one exchange with it, with at
    -- least four turns of the responder, happens while the call waits: it returns the sum.
    pub create-sum :
        CanAsk link sys protocol.endpoint k client st l s a0 a1 a2 a3
        → 4 ≤ n
        → IsSmall a0
        → IsSmall a1
        → IsSmall a2
        → IsSmall a3
        → IsSmall ((a0 + a1 + a2 + a3) % int_mod)
        → (cache' : ClientCache) × (create address memory setting protocol
              (some a0)
              (some a1)
              (some a2)
              (some a3)
              cache
            ≡ (ok (some (int_writable (some ((a0 + a1 + a2 + a3) % int_mod)))), cache'))
    unfolding create invoke invoke_client
    create-sum can h h0 h1 h2 h3 hs =
        let (client', e) =
          call-sum link sys protocol.endpoint k client st l s a0 a1 a2 a3 can n now [] h h0 h1 h2 h3
            hs in
        let done =
          (invoke-packed_call setting protocol.endpoint (codes "IntWritable") (codes "NameNode")
              (codes "create") (int_writable (some a0))
              (int_writable (some a1) ∷ int_writable (some a2) ∷ int_writable (some a3) ∷ []) client
              client' (some (int_writable (some ((a0 + a1 + a2 + a3) % int_mod))))).1
            (
              (
                int_writable-Prints a0,
                (int_writable-Prints a1, (int_writable-Prints a2, (int_writable-Prints a3, tt))),
              ),
              e,
            ) in
        let (a, cache') = get_client address memory standard cache in
        (_, ap (λ (p : Result (Option Writable) × Client). in_cache cache' a p) done)
