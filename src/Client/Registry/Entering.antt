-- ===== src/Client/Registry/Entering.antt =====
-- How a call gets its connection and its id.
use p_rpc.Base.{
  ◌∙◌, ap, sym, find-Below, List, [], if◌then◌else◌, ℕ, ◌+◌, ◌<◌, ◌≡◌, ◌≢◌, inl, inr, refl, true,
  false, Bool, Option, some, none, find, insert, find-insert, int_mod, arith, ==_refl, ==_iff,
  Bool-cases, Below, not, ◌||◌, ◌==◌,
}
use p_rpc.Socket.{Asio}
use p_rpc.Client.Call.{Call}
use p_rpc.Client.Connection.{
  Connection, connect, add_call, new_connection, start_receiver, is_null, socket,
}
use p_rpc.Client.Connection.Adding.{add_call-fresh}
use p_rpc.Client.Registry.{update, Client, System, retrieve, enter, get_connection}

update_other : {A : Type 0} (f : ℕ → A) (i j : ℕ) (a : A) → i ≢ j → update f i a j ≡ f j
update_other f i j a h = elim (Bool-cases (i == j)) [
  | inl e ↦ absurd (h ((==_iff i j).0 e))
  | inr e ↦ rw e refl
]

module _ ⦃net : Asio⦄ where
  open net use {Socket}

  -- The ids of a connection's calls are below the next one, which is not the last.
  pub record IsNumbered (conn : Connection) : Type 0 where
    pub below : Below conn.last_call_index conn.calls
    pub more : conn.last_call_index + 1 < int_mod

  -- The calls that wait at the connection that was found; one that is made has none.
  abbrev pub calls_at : Option ℕ → Client → List (ℕ × Call)
  calls_at none client = []
  calls_at (some c) client = (client.objects c).calls

  -- The index that the next call at the connection gets.
  abbrev pub index_at : Option ℕ → Client → ℕ
  index_at none client = 0
  index_at (some c) client = (client.objects c).last_call_index

  -- The address of the connection that was found, or that of a new object.
  abbrev pub address_at : Option ℕ → System → ℕ
  address_at none sys = sys.address
  address_at (some c) sys = c

  -- `o` is what the endpoint led to before. The call has the index of its connection for its id, which
  -- no call had that waits there; all of them are still there as they were, and there is no other.
  -- The other endpoints and the other connection objects are untouched.
  pub record Entered (sys : System) (client : Client) (ep c : ℕ) (call numbered : Call)
      (client' : Client) : Type 0 where
    pub there : find ep client'.connections ≡ some c
    pub chosen : c ≡ address_at (find ep client.connections) sys
    pub others : (e : ℕ) → ep ≢ e → find e client'.connections ≡ find e client.connections
    pub objects_kept : (d : ℕ) → c ≢ d → client'.objects d ≡ client.objects d
    pub same_call : numbered ≡ record call { id = index_at (find ep client.connections) client }
    pub new_id : find numbered.id (calls_at (find ep client.connections) client) ≡ none
    pub waits : find numbered.id (client'.objects c).calls ≡ some numbered
    pub calls_kept :
        (j : ℕ)
        → numbered.id ≢ j
        → find j (client'.objects c).calls ≡ find j (calls_at (find ep client.connections) client)
    pub int_id : numbered.id < int_mod
    pub next_index : (client'.objects c).last_call_index ≡ numbered.id + 1
    pub below : Below (client'.objects c).last_call_index (client'.objects c).calls

  apart : (i j : ℕ) (x y : Option Call) → i ≢ j → (if i == j then x else y) ≡ y
  apart i j x y h = elim (Bool-cases (i == j)) [
    | inl e ↦ absurd (h ((==_iff i j).0 e))
    | inr e ↦ rw e refl
  ]

  Keeps : Connection → Connection → Type 0
  Keeps conn conn' = (conn'.calls ≡ conn.calls) × (conn'.last_call_index ≡ conn.last_call_index)

  start_receiver-Keeps :
      (started : Bool) (conn : Connection) → Keeps conn (start_receiver started conn).1
  unfolding Keeps
  start_receiver-Keeps true conn = elim (Bool-cases conn.recv_started) [
    | inl r ↦ rw r (refl, refl)
    | inr r ↦ rw r (refl, refl)
  ]
  start_receiver-Keeps false conn = elim (Bool-cases conn.recv_started) [
    | inl r ↦ rw r (refl, refl)
    | inr r ↦ rw r (refl, refl)
  ]

  connect-Keeps :
      (sock : Socket) (connected started : Bool) (conn : Connection)
      → Keeps conn (connect sock connected started conn).1
  unfolding connect Keeps
  connect-Keeps sock true started conn =
      elim (Bool-cases (conn.should_close || not (is_null conn.sock))) [
        | inl e ↦ rw e (refl, refl)
        | inr e ↦ rw e (start_receiver-Keeps started (record conn { sock = socket sock }))
      ]
  connect-Keeps sock false started conn =
      elim (Bool-cases (conn.should_close || not (is_null conn.sock))) [
        | inl e ↦ rw e (refl, refl)
        | inr e ↦ rw e (refl, refl)
      ]

  IsNumbered-new : (sys : System) (ep i : ℕ) → IsNumbered (new_connection sys.memory ep i)
  unfolding new_connection
  IsNumbered-new sys ep i = record { below = tt; more = omega arith }

  -- What `enter` does at a connection whose ids are in order.
  enter-adds :
      (sys : System) (call : Call) (c : ℕ) (client : Client)
      → IsNumbered (client.objects c)
      → let r = enter sys call (c, client) in
        let conn = client.objects c in
        (r.0.0 ≡ c)
        × (r.1.connections ≡ client.connections)
        × ((d : ℕ) → c ≢ d → r.1.objects d ≡ client.objects d)
        × (r.0.1 ≡ record call { id = conn.last_call_index })
        × ((j : ℕ)
            → find j (r.1.objects c).calls
              ≡ (if conn.last_call_index == j then some r.0.1 else find j conn.calls))
        × ((r.1.objects c).last_call_index ≡ conn.last_call_index + 1)
        × Below (r.1.objects c).last_call_index (r.1.objects c).calls
  unfolding enter Keeps add_call
  enter-adds sys call c client n =
      let conn = (connect sys.new_sock sys.connected sys.started (client.objects c)).1 in
      let (same_calls, same_index) =
        connect-Keeps sys.new_sock sys.connected sys.started (client.objects c) in
      let (named, found, below) =
        add_call-fresh call conn (rw (same_calls, same_index) n.below) (rw same_index n.more) in
      (
        refl,
        refl,
        (λ d k. update_other client.objects c d _ k),
        rw same_index refl,
        (λ j. rw (==_refl c) (found j ∙ rw (same_calls, same_index) refl)),
        rw (==_refl c, same_index) (omega (arith, n.more)),
        rw (==_refl c) below,
      )

  retrieve-there :
      (sys : System) (ep : ℕ) (client : Client) (o : Option ℕ)
      → find ep client.connections ≡ o
      → ((c : ℕ) → IsNumbered (client.objects c))
      → let r = retrieve sys ep o client in
        (find ep r.1.connections ≡ some r.0)
        × (r.0 ≡ address_at o sys)
        × ((e : ℕ) → ep ≢ e → find e r.1.connections ≡ find e client.connections)
        × ((d : ℕ) → r.0 ≢ d → r.1.objects d ≡ client.objects d)
        × ((r.1.objects r.0).calls ≡ calls_at o client)
        × ((r.1.objects r.0).last_call_index ≡ index_at o client)
        × IsNumbered (r.1.objects r.0)
  unfolding retrieve new_connection
  retrieve-there sys ep client none e n = (
    rw (find-insert ep ep sys.address client.connections, ==_refl ep, e) refl,
    refl,
    (λ j k. other j k),
    (λ d k. update_other client.objects sys.address d _ k),
    rw (==_refl sys.address) refl,
    rw (==_refl sys.address) refl,
    rw (==_refl sys.address) (IsNumbered-new sys ep client.last_connection_index),
  )
    where
      other :
          (j : ℕ)
          → ep ≢ j
          → find j (insert ep sys.address client.connections) ≡ find j client.connections
      other j k = elim (Bool-cases (ep == j)) [
        | inl h ↦ absurd (k ((==_iff ep j).0 h))
        | inr h ↦ rw (find-insert ep j sys.address client.connections, h) refl
      ]
  retrieve-there sys ep client (some c) e n =
      (e, refl, (λ j k. refl), (λ d k. refl), refl, refl, n c)

  -- Let the calls of every connection object have ids below its next one, and the next one be below
  -- 2 ^ 32 - 1. `getConnection` takes the connection of the endpoint, or makes an empty one if there
  -- is none, and enters the call there under the next id of that connection, within an `int`, which
  -- no call has that waits there, whatever `connect` comes to. All calls that waited there still do, as
  -- they were, and none came but this one; the next id is one more, and above the ids of all of them.
  -- The endpoint leads to this connection, other endpoints lead where they led, and no other
  -- connection object changes.
  pub get_connection-Entered :
      (sys : System) (ep : ℕ) (call : Call) (client : Client)
      → ((c : ℕ) → IsNumbered (client.objects c))
      → let r = get_connection sys ep call client in Entered sys client ep r.0.0 call r.0.1 r.1
  unfolding get_connection enter retrieve
  get_connection-Entered sys ep call client n =
      let o = find ep client.connections in
      let (there, chosen, others, objects, calls, index, numbered) =
        retrieve-there sys ep client o refl n in
      let r = retrieve sys ep o client in
      let (same, kept, untouched, named, found, next_index, below) =
        enter-adds sys call r.0 r.1 numbered in
      let id : (get_connection sys ep call client).0.1.id ≡ (r.1.objects r.0).last_call_index =
        ap (λ (x : Call). x.id) named in
      record {
        there = rw kept there;
        chosen = chosen;
        others = λ e k. rw kept (others e k);
        objects_kept = λ d k. untouched d k ∙ objects d k;
        same_call = named ∙ ap (λ i. record call { id = i }) index;
        new_id =
            ap (λ m. find (get_connection sys ep call client).0.1.id m) (sym calls)
            ∙ find-Below (r.1.objects r.0).last_call_index (r.1.objects r.0).calls numbered.below
                (get_connection sys ep call client).0.1.id (omega (arith, id));
        waits =
            found (get_connection sys ep call client).0.1.id
            ∙ rw (id, ==_refl (r.1.objects r.0).last_call_index) refl;
        calls_kept = λ j k.
            found j
            ∙ apart (r.1.objects r.0).last_call_index j _ _ (λ h. k (id ∙ h))
            ∙ ap (find j) calls;
        int_id = omega (arith, id, numbered.more);
        next_index = next_index ∙ ap (λ i. i + 1) (sym id);
        below = below;
      }
