-- ===== src/Rpc/Tests.antt =====
-- Invocations of a client that stops at once, and its cache.
use p_rpc.Socket.{ok, crash, aborted}
use p_rpc.Writable.{int_writable, writable}
use p_rpc.Base.{ℕ, [], codes, ◌∷◌, true, some, ◌≡◌, none, ◌↔◌, All, refl}
use p_rpc.Socket.Simulated.{simulated}
use p_rpc.Writable.{print_to_string}
use p_rpc.Rpc.{Setting, invoke_on, new_client, ClientCache, get_client, get_params}
use p_rpc.Rpc.Packing.{Prints, packed_call, invoke-packed_call}
use p_rpc.Rpc.Cache.{IsCached, get_client-IsCached}
use p_rpc.Client.Connection.{Connection, null}
use p_rpc.Client.Connection
use p_rpc.Client.Registry.{Client}

abbrev stopping : Setting
stopping = record {
  system = record {
    memory = null;
    new_sock = record { pending = []; sent = []; room = 100 };
    connected = true;
    started = true;
    address = 3;
  };
  should_stop = true;
  rounds = [];
}

abbrev memory : ℕ → Connection
memory _ = Connection.new_connection null 0 0

abbrev idle_client : Client
idle_client = new_client memory

invoke-packed_call_example :
    (invoke_on stopping 8
        (codes "IntWritable")
        (codes "NameNode")
        (codes "create")
        (int_writable (some 1))
        (writable ∷ [])
        idle_client
      ≡ (ok none, idle_client))
    ↔ (All Prints (int_writable (some 1) ∷ writable ∷ [])
        × (packed_call stopping 8
              (codes "IntWritable")
              (codes "NameNode")
              (codes "create")
              (int_writable (some 1))
              (writable ∷ [])
              idle_client
              idle_client
              none
            ≡ (ok none, idle_client)))
invoke-packed_call_example =
    invoke-packed_call stopping 8 (codes "IntWritable") (codes "NameNode") (codes "create")
      (int_writable (some 1)) (writable ∷ []) idle_client idle_client none

-- The plain base class cannot be printed, and the invocation aborts.
invoke_aborts :
    (invoke_on stopping 8
      (codes "IntWritable")
      (codes "NameNode")
      (codes "create")
      (int_writable (some 1))
      (writable ∷ [])
      idle_client).0
    ≡ crash aborted
unfolding invoke_on get_params print_to_string
invoke_aborts = refl

abbrev one_client : ClientCache
one_client = record { clients = (4, 2) ∷ []; objects = λ _. idle_client }

get_client-IsCached_example : IsCached 1 0 one_client (get_client 1 memory 0 one_client)
get_client-IsCached_example = get_client-IsCached 1 memory 0 one_client
