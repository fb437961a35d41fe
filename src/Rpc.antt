-- ===== src/Rpc.antt =====
-- include/Invocation.h, include/RPC.h and include/DataNodeProtocol.h: what a program calls. A client
-- is cached for each type of socket; an invocation packs the arguments into a method and has the
-- client call it. The names of socket types are numbers here, one for each; the arguments are not
-- NULL.
pub mod Packing
pub mod Cache
mod Tests
use p_rpc.Base.{List, ℕ, Bool, [], find, Option, some, codes, insert, ◌∷◌, none}
use p_rpc.Socket.{Asio, Eff, Result, ok, catch, throws, fail, ◌>>◌, aborted, raise, crash}
use p_rpc.Client.Registry.{Client, System, call, update}
use p_rpc.Client.Connection.{Connection}
use p_rpc.Writable.{
  Writable, Params, int_writable, nil, method_writable, print_to_string, push_back,
}

-- One step of `getParams`: the argument is kept, and then printed to the log.
abbrev insert_param : Writable → Eff Params (Unit {0})
insert_param p params = (print_to_string p, push_back params p)

-- `getParams`, which takes one argument or more.
unfoldable pub get_params : Writable → List Writable → Eff Params (Unit {0})
get_params p [] = insert_param p
get_params p (q ∷ ps) = insert_param p >> get_params q ps

module _ ⦃net : Asio⦄ where
  -- What a call meets: the system as it connects, the `_should_stop` of the clients, and what other
  -- threads do in the rounds of its wait.
  pub record Setting : Type 0 where
    pub system : System
    pub should_stop : Bool
    pub rounds : List (List (Client → Client))

  -- The call that is made when the arguments are collected.
  abbrev pub call_with :
      Setting
      → ℕ
      → List ℕ
      → List ℕ
      → List ℕ
      → Result (Unit {0}) × Params
      → Eff Client (Option Writable)
  call_with env ep value_class class method (ok u, params) =
      call env.system ep (method_writable class method params) value_class env.should_stop
        env.rounds
  call_with env ep value_class class method (throws e, params) = raise e
  call_with env ep value_class class method (crash e, params) = fail e

  -- `Invocation::invoke` after its test for NULL; the vector of a new invocation is empty.
  unfoldable pub invoke_on :
      Setting
      → ℕ
      → List ℕ
      → List ℕ
      → List ℕ
      → Writable
      → List Writable
      → Eff Client (Option Writable)
  invoke_on env ep value_class class method p ps =
      catch (call_with env ep value_class class method (get_params p ps nil)) (fail aborted)

  -- The cache of clients: their addresses by type of socket, and the objects.
  pub record ClientCache : Type 0 where
    pub clients : List (ℕ × ℕ)
    pub objects : ℕ → Client

  -- `Client()`, in the memory that holds `objects`.
  unfoldable pub new_client : (ℕ → Connection) → Client
  new_client memory = record { connections = []; objects = memory; last_connection_index = 0 }

  abbrev cached : ℕ → (ℕ → Connection) → ℕ → Option ℕ → ClientCache → ℕ × ClientCache
  cached address memory sock_type (some a) cache = (a, cache)
  cached address memory sock_type none cache = (
    address,
    record cache {
      clients = insert sock_type address cache.clients;
      objects = update cache.objects address (new_client memory);
    },
  )

  -- `getClient`; a new client gets the address that the allocator gives.
  unfoldable pub get_client : ℕ → (ℕ → Connection) → ℕ → ClientCache → ℕ × ClientCache
  get_client address memory sock_type cache =
      cached address memory sock_type (find sock_type cache.clients) cache

  abbrev pub in_cache : {A : Type 0} → ClientCache → ℕ → Result A × Client → Result A × ClientCache
  in_cache cache a (r, client) = (r, record cache { objects = update cache.objects a client })

  abbrev pub on_client : {A : Type 0} → Eff Client A → ℕ × ClientCache → Result A × ClientCache
  on_client m (a, cache) = in_cache cache a (m (cache.objects a))

  -- `Invocation::invoke`; `none` is a client that is NULL.
  unfoldable pub invoke_client :
      Setting
      → ℕ
      → List ℕ
      → List ℕ
      → List ℕ
      → Writable
      → List Writable
      → Option ℕ
      → Eff ClientCache (Option Writable)
  invoke_client env ep value_class class method p ps none = fail aborted
  invoke_client env ep value_class class method p ps (some a) =
      λ cache. on_client (invoke_on env ep value_class class method p ps) (a, cache)

  -- `RPC::invoke`
  unfoldable pub invoke :
      ℕ
      → (ℕ → Connection)
      → ℕ
      → Setting
      → ℕ
      → List ℕ
      → List ℕ
      → List ℕ
      → Writable
      → List Writable
      → Eff ClientCache (Option Writable)
  invoke address memory sock_type env ep value_class class method p ps cache =
      let (a, cache') = get_client address memory sock_type cache in
      invoke_client env ep value_class class method p ps (some a) cache'

  -- The endpoint of the server that a `DataNodeProtocol` talks to.
  pub record DataNodeProtocol : Type 0 where
    pub endpoint : ℕ

  -- `DataNodeProtocol(server_host, port)`, with what asio makes of the two.
  unfoldable pub new_protocol : (List ℕ → ℕ → ℕ) → List ℕ → ℕ → DataNodeProtocol
  new_protocol make_endpoint server_host port = record { endpoint = make_endpoint server_host port }

  -- The socket type "standard".
  abbrev pub standard : ℕ
  standard = 0

  -- `create`
  unfoldable pub create :
      ℕ
      → (ℕ → Connection)
      → Setting
      → DataNodeProtocol
      → Option ℕ
      → Option ℕ
      → Option ℕ
      → Option ℕ
      → Eff ClientCache (Option Writable)
  create address memory env protocol a b c d =
      invoke address memory standard env protocol.endpoint (codes "IntWritable") (codes "NameNode")
        (codes "create") (int_writable a) (int_writable b ∷ int_writable c ∷ int_writable d ∷ [])
