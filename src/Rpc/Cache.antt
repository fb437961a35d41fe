-- ===== src/Rpc/Cache.antt =====
-- The clients that `getClient` gives.
use p_rpc.Base.{
  ap, sym, ◌∙◌, ℕ, find, ◌≡◌, some, ◌≢◌, Option, none, refl, insert, find-insert, ==_refl,
  Bool-cases, ◌==◌, inl, ==_iff, inr,
}
use p_rpc.Socket.{Asio}
use p_rpc.Client.Registry.{Client}
use p_rpc.Rpc.{ClientCache, get_client, new_client, Connection, update}

some_injective : {a b : ℕ} → some a ≡ some b → a ≡ b
some_injective e = cc

module _ ⦃net : Asio⦄ where
  get_client-known :
      (address : ℕ) (memory : ℕ → Connection) (sock_type a : ℕ) (cache : ClientCache)
      → find sock_type cache.clients ≡ some a
      → get_client address memory sock_type cache ≡ (a, cache)
  unfolding get_client
  get_client-known address memory sock_type a cache h = rw h refl

  get_client-new :
      (address : ℕ) (memory : ℕ → Connection) (sock_type : ℕ) (cache : ClientCache)
      → find sock_type cache.clients ≡ none
      → get_client address memory sock_type cache ≡ (
        address,
        record cache {
          clients = insert sock_type address cache.clients;
          objects = update cache.objects address (new_client memory);
        },
      )
  unfolding get_client
  get_client-new address memory sock_type cache h = rw h refl

  -- A client without connections, whose first one gets the index 0.
  pub record IsNew (client : Client) : Type 0 where
    pub no_connection : (ep : ℕ) → find ep client.connections ≡ none
    pub index_zero : client.last_connection_index ≡ 0

  -- What `getClient` does for one type of socket, where `address` is that of a new object: the client
  -- is in the cache, the same one as before if there was one, with every object untouched, and a new
  -- one at `address` if not, where no other object changes; the other types have the clients that they
  -- had; and whoever asks for this type again gets the same client and changes nothing.
  pub record IsCached (address sock_type : ℕ) (cache : ClientCache) (r : ℕ × ClientCache)
      : Type 0 where
    pub there : find sock_type r.1.clients ≡ some r.0
    pub known : (a : ℕ) → find sock_type cache.clients ≡ some a → r ≡ (a, cache)
    pub made : find sock_type cache.clients ≡ none → (r.0 ≡ address) × IsNew (r.1.objects address)
    pub objects_kept : (a : ℕ) → address ≢ a → r.1.objects a ≡ cache.objects a
    pub others : (t : ℕ) → sock_type ≢ t → find t r.1.clients ≡ find t cache.clients
    pub again :
        (address' : ℕ) (memory : ℕ → Connection) → get_client address' memory sock_type r.1 ≡ r

  by_found :
      (address : ℕ) (memory : ℕ → Connection) (sock_type : ℕ) (cache : ClientCache) (o : Option ℕ)
      → find sock_type cache.clients ≡ o
      → IsCached address sock_type cache (get_client address memory sock_type cache)
  unfolding new_client find
  by_found address memory sock_type cache (some a) h =
      rw (get_client-known address memory sock_type a cache h) (record {
        there = h;
        known = λ b k. let both = sym h ∙ k in ap (λ x. (x, cache)) (some_injective both);
        made = λ k. absurd (let both = sym h ∙ k in cc both);
        objects_kept = λ b n. refl;
        others = λ t n. refl;
        again = λ address' memory'. get_client-known address' memory' sock_type a cache h;
      })
  by_found address memory sock_type cache none h =
      rw (get_client-new address memory sock_type cache h) (record {
        there = entered;
        known = λ b k. absurd (let both = sym h ∙ k in cc both);
        made = λ k. (refl, rw (==_refl address) new_client-IsNew);
        objects_kept = λ b n. apart b n;
        others = λ t n. other t n;
        again = λ address' memory'. get_client-known address' memory' sock_type address _ entered;
      })
    where
      new_client-IsNew : IsNew (new_client memory)
      new_client-IsNew = record { no_connection = λ ep. refl; index_zero = refl }

      apart :
          (b : ℕ)
          → address ≢ b
          → update cache.objects address (new_client memory) b ≡ cache.objects b
      apart b n = elim (Bool-cases (address == b)) [
        | inl same ↦ absurd (n ((==_iff address b).0 same))
        | inr away ↦ rw away refl
      ]

      entered : find sock_type (insert sock_type address cache.clients) ≡ some address
      entered =
          rw (find-insert sock_type sock_type address cache.clients, ==_refl sock_type, h) refl

      other :
          (t : ℕ)
          → sock_type ≢ t
          → find t (insert sock_type address cache.clients) ≡ find t cache.clients
      other t n = elim (Bool-cases (sock_type == t)) [
        | inl same ↦ absurd (n ((==_iff sock_type t).0 same))
        | inr apart ↦ rw (find-insert sock_type t address cache.clients, apart) refl
      ]

  -- `getClient`, for any cache and any address that a new object gets: if the type of socket has a
  -- client, it is given and nothing changes; if not, a client without connections is made at the
  -- address, entered and given. The objects at other addresses and the clients of the other types stay
  -- what they were, and every later call for the type gives the same client again, with the cache as
  -- it is.
  pub get_client-IsCached :
      (address : ℕ) (memory : ℕ → Connection) (sock_type : ℕ) (cache : ClientCache)
      → IsCached address sock_type cache (get_client address memory sock_type cache)
  get_client-IsCached address memory sock_type cache =
      by_found address memory sock_type cache (find sock_type cache.clients) refl
