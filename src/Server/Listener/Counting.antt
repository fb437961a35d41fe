-- ===== src/Server/Listener/Counting.antt =====
-- The map of connections and their number.
use p_rpc.Base.{
  ℕ, ◌+◌, ◌<◌, ◌≡◌, ◌≢◌, inl, inr, refl, sym, ◌∙◌, ap, List, Bool, true, false, Option, none, some,
  int_mod, length, find, insert, erase, arith, ==_refl, ==_iff, Bool-cases, find-insert, find-erase,
  Unique, Unique-insert, Unique-erase, length-insert, length-erase, ◌==◌, ◌||◌,
}
use p_rpc.BlockQueue.{BlockQueue}
use p_rpc.Socket.{Asio}
use p_rpc.Server.Connection.{new_connection, close, Connection}
use p_rpc.Server.State.{State, update, new_state}
use p_rpc.Server.Listener.{
  Listener, handle_read, retrieve, create_connection, close_connection, add_to_reader, added,
  dispatched,
}

some_injective : {x y : ℕ} → some x ≡ some y → x ≡ y
some_injective e = cc

module _ ⦃net : Asio⦄ where
  open net use {Socket}

  -- No endpoint has two connections, their number is right, and each one knows its endpoint.
  pub record IsWellFormed (st : State) : Type 0 where
    pub unique : Unique st.connections
    pub counted : st.num_connections ≡ length st.connections
    pub named : (ep c : ℕ) → find ep st.connections ≡ some c → (st.objects c).endpoint ≡ ep

  new_state-IsWellFormed : (memory : ℕ → Connection) → IsWellFormed (new_state memory)
  unfolding new_state find
  new_state-IsWellFormed memory = record { unique = tt; counted = refl; named = λ ep c h. cc h }

  module _ (st : State) (ep address : ℕ) (sock : Socket) (now : ℕ)
      (named : (ep c : ℕ) → find ep st.connections ≡ some c → (st.objects c).endpoint ≡ ep)
      (new : find ep st.connections ≡ none)
      (fresh : (e : ℕ) → find e st.connections ≢ some address) where
    -- A new connection stands under its endpoint, like the old ones.
    pub named_created :
        (e c : ℕ)
        → find e (insert ep address st.connections) ≡ some c
        → ((update st.objects address (new_connection sock ep st.last_connection_index now))
            c).endpoint
          ≡ e
    unfolding new_connection
    named_created e c f = elim (Bool-cases (ep == e)) [
      | inl same ↦
          let found : find e (insert ep address st.connections) ≡ some address =
            rw (find-insert ep e address st.connections, same, new) refl in
          let here : address ≡ c = some_injective (sym found ∙ f) in
          rw (← here, ==_refl address) ((==_iff ep e).0 same)
      | inr other ↦
          let before : find e st.connections ≡ some c =
            rw (find-insert ep e address st.connections, other) at f in
          elim (Bool-cases (address == c)) [
            | inl here ↦ absurd (fresh e (before ∙ ap some (sym ((==_iff address c).0 here))))
            | inr there ↦ rw there (named e c before)
          ]
    ]

  module _ (st : State) (ep address : ℕ) (sock : Socket) (now : ℕ) (h : IsWellFormed st)
      (new : find ep st.connections ≡ none) (fresh : (e : ℕ) → find e st.connections ≢ some address)
      (few : length st.connections + 1 < int_mod) where
    create_connection-IsWellFormed : IsWellFormed (create_connection ep address sock now st)
    unfolding create_connection
    create_connection-IsWellFormed = record {
      unique = Unique-insert ep address st.connections h.unique;
      counted = omega (arith, h.counted, length-insert ep address st.connections new);
      named = named_created st ep address sock now h.named new fresh;
    }

  added-IsWellFormed :
      (st : State) (p : Bool × Listener) → IsWellFormed st → IsWellFormed (added st p).1.0
  added-IsWellFormed st (true, l) h = h
  added-IsWellFormed st (false, l) h = h

  dispatched-IsWellFormed :
      (others : ℕ → List (BlockQueue ℕ → BlockQueue ℕ)) (l : Listener) (p : ℕ × State)
      → IsWellFormed p.1
      → IsWellFormed (dispatched others l p).1.0
  dispatched-IsWellFormed others l (c, st) h = added-IsWellFormed st (add_to_reader others c l) h

  module _ (others : ℕ → List (BlockQueue ℕ → BlockQueue ℕ)) (error : Bool) (st : State)
      (l : Listener) (ep address : ℕ) (sock : Socket) (now : ℕ) (h : IsWellFormed st)
      (fresh : (e : ℕ) → find e st.connections ≢ some address)
      (few : length st.connections + 1 < int_mod) where
    retrieve-IsWellFormed :
        (o : Option ℕ)
        → find ep st.connections ≡ o
        → IsWellFormed (retrieve ep address sock now o st).1
    unfolding retrieve
    retrieve-IsWellFormed none e =
        create_connection-IsWellFormed st ep address sock now h e fresh few
    retrieve-IsWellFormed (some c) e = h

    -- The server's map of connections is well formed if no endpoint stands there twice, their
    -- number is `num_connections`, and each connection knows the endpoint that leads to it.
    -- `handle_read` keeps this for every endpoint, on every branch and whatever other threads do
    -- to the queues of the readers, if the allocator's address leads to no connection in the map
    -- and the map has fewer than 2 ^ 32 - 1 entries.
    pub handle_read-IsWellFormed :
        IsWellFormed (handle_read others error ep address sock now (st, l)).1.0
    unfolding handle_read
    handle_read-IsWellFormed = elim (Bool-cases (error || l.should_stop)) [
      | inl stops ↦ rw stops h
      | inr goes ↦ rw goes (
          dispatched-IsWellFormed others l
            (retrieve ep address sock now (find ep st.connections) st)
            (retrieve-IsWellFormed (find ep st.connections) refl))
    ]

  -- `close_connection` keeps the map of connections well formed if the endpoint leads to the
  -- connection that is closed and the map has fewer than 2 ^ 32 entries.
  pub close_connection-IsWellFormed :
      (st : State) (ep c : ℕ)
      → IsWellFormed st
      → find ep st.connections ≡ some c
      → length st.connections < int_mod
      → IsWellFormed (close_connection c ep st)
  unfolding close_connection close
  close_connection-IsWellFormed st ep c h known few = record {
    unique = Unique-erase ep st.connections h.unique;
    counted = omega (arith, h.counted, length-erase ep c st.connections known);
    named = named_left;
  }
    where
      named_left :
          (e a : ℕ)
          → find e (erase ep st.connections) ≡ some a
          → ((update st.objects c (record (st.objects c) { is_open = false })) a).endpoint ≡ e
      named_left e a f =
          let left = rw (find-erase ep e st.connections h.unique) at f in
          elim (Bool-cases (ep == e)) [
            | inl same ↦ absurd (let gone = rw same at left in cc gone)
            | inr other ↦ elim (Bool-cases (c == a)) [
              | inl here ↦
                  rw here (h.named e c (rw other at left ∙ ap some (sym ((==_iff c a).0 here))))
              | inr there ↦ rw there (h.named e a (rw other at left))
            ]
          ]
