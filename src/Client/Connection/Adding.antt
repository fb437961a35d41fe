-- ===== src/Client/Connection/Adding.antt =====
-- The ids that `addCall` gives out.
use p_rpc.Base.{
  ℕ, ◌+◌, ◌<◌, ◌≤◌, ◌≡◌, refl, List, [], ◌∷◌, some, arith, find, insert, find-insert, find-Below,
  Below, int_mod, ◌==◌, if◌then◌else◌, Bool-cases, ◌%◌, inl, inr,
}
use p_rpc.Socket.{Asio}
use p_rpc.Client.Call.{Call}
use p_rpc.Client.Connection.{Connection, add_call}

Below-insert :
    (n k : ℕ) (v : Call) (m : List (ℕ × Call)) → Below n m → n ≤ k → Below (k + 1) (insert k v m)
unfolding insert
Below-insert n k v [] b h = (omega arith, tt)
Below-insert n k v ((j, w) ∷ m) b h = elim (Bool-cases (j == k)) [
  | inl e ↦ absurd (ground arith)
  | inr e ↦ rw e (omega (arith, b.0), Below-insert n k v m b.1 h)
]

module _ ⦃net : Asio⦄ where
  -- `addCall` on a connection whose calls all have ids below the next one, which is below 2 ^ 32 -
  -- 1, enters the call under the id that it gives it and leaves every other id as it is;
  -- afterwards the calls have ids below the next one again.
  pub add_call-fresh :
      (call : Call) (conn : Connection)
      → Below conn.last_call_index conn.calls
      → conn.last_call_index + 1 < int_mod
      → ((add_call call conn).0 ≡ record call { id = conn.last_call_index })
        × ((j : ℕ)
            → find j (add_call call conn).1.calls ≡ (
                if conn.last_call_index == j
                then some (add_call call conn).0
                else find j conn.calls))
        × Below (add_call call conn).1.last_call_index (add_call call conn).1.calls
  unfolding add_call
  add_call-fresh call conn b h = (
    refl,
    (λ j.
        rw
          (
            find-insert conn.last_call_index j (record call { id = conn.last_call_index })
                conn.calls,
            find-Below conn.last_call_index conn.calls b conn.last_call_index (omega arith),
          )
          refl),
    rw (next conn.last_call_index h)
        (Below-insert conn.last_call_index conn.last_call_index _ conn.calls b (omega arith)),
  )
    where
      next : (n : ℕ) → n + 1 < int_mod → (n + 1) % int_mod ≡ n + 1
      next n k = omega arith
