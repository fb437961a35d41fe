-- ===== src/Client/Connection/Threads/Matching.antt =====
-- Which value each call gets.
use p_rpc.Writable.{Writable}
use mathlib.Core.Path.{subst}
use p_rpc.Server.Call.Request.{request_wire, Writes-request}
use p_rpc.MethodWritable.Wire.{IsSendable}
use p_rpc.Client.Connection.{add_call, send_call, Connection, socket, Pointer}
use p_rpc.Client.Call.{Call, new_call}
use p_rpc.Socket.{Asio, ok}
use p_rpc.Base.{
  [], ◌∷◌, inl, inr, List, Option, ℕ, All, some, ◌++◌, ◌<◌, none, ◌≡◌, if◌then◌else◌, arith, ap,
  ◌==◌, refl, ◌∙◌, Bool-cases, sym, append_assoc, ◌≢◌, find, codes, length, int_mod, ◌≤◌, ◌+◌,
  All-map, true, ==_iff, find-insert, ◌%◌, Bool, false,
}
use p_rpc.Client.Connection.Threads.{Response, wires, wire_of, latest, IsMatched}

pub wires-append : (rs qs : List Response) → wires (rs ++ qs) ≡ wires rs ++ wires qs
wires-append [] qs = refl
wires-append (r ∷ rs) qs =
    ap (◌++◌ (wire_of r)) (wires-append rs qs)
    ∙ sym (append_assoc (wire_of r) (wires rs) (wires qs))

pub latest-append :
    (j : ℕ) (rs : List Response) (r : Response)
    → latest j (rs ++ r ∷ []) ≡ (if r.id == j then some r.value else latest j rs)
latest-append j [] r = refl
latest-append j (q ∷ rs) r = elim (Bool-cases (r.id == j)) [
  | inl here ↦ rw (latest-append j rs r, here) refl
  | inr there ↦ rw (latest-append j rs r, there) refl
]

latest-unknown : (j : ℕ) (rs : List Response) → All (λ r. r.id < j) rs → latest j rs ≡ none
latest-unknown j [] h = refl
latest-unknown j (r ∷ rs) h = let below = h.0 in rw (latest-unknown j rs h.1) (ground arith)

pub some_call_injective : {x y : Call} → some x ≡ some y → x ≡ y
some_call_injective e = cc

pub some_of : (o : Option Call) → o ≢ none → (call : Call) × (o ≡ some call)
some_of none h = absurd (h refl)
some_of (some call) h = (call, refl)

module _ ⦃net : Asio⦄ where
  open net use {Socket, pending, sent, room, read_short}

  pub socket_injective : {s t : Socket} → ◌≡◌ {A = Pointer} (socket s) (socket t) → s ≡ t
  socket_injective e = cc

  -- Beside the values: the ids are in order, and what is to be read is for calls in the map.
  pub record IsOrdered (conn : Connection) (received rest : List Response) : Type 0 where
    pub matched : IsMatched conn received rest
    pub expects :
        (j : ℕ) (call : Call)
        → find j conn.calls ≡ some call
        → call.value_class ≡ codes "IntWritable"
    pub numbered : (j : ℕ) (call : Call) → find j conn.calls ≡ some call → call.id ≡ j
    pub unused : (j : ℕ) → conn.last_call_index ≤ j → find j conn.calls ≡ none
    pub int_index : conn.last_call_index < int_mod
    pub received_below : All (λ r. r.id < conn.last_call_index) received
    pub rest_known : All (λ r. find r.id conn.calls ≢ none) rest

  pub found_added :
      (conn : Connection) (new : Call)
      → find conn.last_call_index conn.calls ≡ none
      → (j : ℕ)
      → find j (add_call new conn).1.calls ≡ (
          if conn.last_call_index == j
          then some (record new { id = conn.last_call_index })
          else find j conn.calls)
  unfolding add_call
  found_added conn new h j = rw (find-insert conn.last_call_index j _ conn.calls, h) refl

  pub still_found :
      (call : Call) {o o' : Option Call} (b : Bool)
      → o' ≡ (if b then some call else o)
      → o ≢ none
      → o' ≢ none
  still_found call true e k f = let both = sym e ∙ f in cc both
  still_found call false e k f = k (sym e ∙ f)

  pub adds-IsOrdered :
      {conn : Connection} {received rest : List Response} (param : Writable)
      → conn.last_call_index + 1 < int_mod
      → IsOrdered conn received rest
      → IsOrdered (add_call (new_call param (codes "IntWritable")) conn).1 received rest
  unfolding add_call new_call
  adds-IsOrdered {conn} {received} {rest} param more h =
      let new = new_call param (codes "IntWritable") in
      let found = found_added conn new (h.unused conn.last_call_index (omega arith)) in
      let next : (conn.last_call_index + 1) % int_mod ≡ conn.last_call_index + 1 = omega arith in
      let entered : (j : ℕ) (call : Call)
          → find j (add_call new conn).1.calls ≡ some call
          → (conn.last_call_index == j) ≡ true
          → record new { id = conn.last_call_index } ≡ call =
        λ j call f here. some_call_injective (sym (rw here at (found j)) ∙ f) in
      record {
        matched = record {
          sock = h.matched.sock;
          connected = h.matched.connected;
          unread = h.matched.unread;
          values = λ j call f. elim (Bool-cases (conn.last_call_index == j)) [
            | inl here ↦
                rw
                  (
                    ← (entered j call f here),
                    latest-unknown j received (
                        subst (λ x. All (λ r. r.id < x) received) ((==_iff _ _).0 here)
                          h.received_below),
                  )
                  (refl, refl)
            | inr there ↦ h.matched.values j call (sym (rw there at (found j)) ∙ f)
          ];
        };
        expects = λ j call f. elim (Bool-cases (conn.last_call_index == j)) [
          | inl here ↦ rw (← (entered j call f here)) refl
          | inr there ↦ h.expects j call (sym (rw there at (found j)) ∙ f)
        ];
        numbered = λ j call f. elim (Bool-cases (conn.last_call_index == j)) [
          | inl here ↦ rw (← (entered j call f here)) ((==_iff _ _).0 here)
          | inr there ↦ h.numbered j call (sym (rw there at (found j)) ∙ f)
        ];
        unused = λ j k. elim (Bool-cases (conn.last_call_index == j)) [
          | inl here ↦ absurd (omega (arith, (==_iff _ _).0 here, next))
          | inr there ↦ found j ∙ rw there (h.unused j (omega (arith, next)))
        ];
        int_index = omega arith;
        received_below = All-map (λ (r : Response) k. omega arith) received h.received_below;
        rest_known =
            All-map
              (λ (r : Response) k. still_found _ (conn.last_call_index == r.id) (found r.id) k) rest
              h.rest_known;
      }

  pub send_call-runs :
      (conn : Connection) (s : Socket) (call : Call)
      → conn.sock ≡ socket s
      → IsSendable call.param
      → length (request_wire call.id call.param) ≤ room s
      → (s' : Socket) × (send_call call conn ≡ (ok tt, record conn { sock = socket s' }))
        × (pending s' ≡ pending s)
  unfolding send_call
  send_call-runs conn s call e h fits =
      let (s', w, x, p, _) = (Writes-request call h).run s fits in (s', rw (e, w) refl, p)

  -- Only the socket changes.
  pub sock-IsOrdered :
      {conn : Connection} {received rest rest' : List Response} (s' : Socket)
      → pending s' ≡ wires rest'
      → All (λ r. find r.id conn.calls ≢ none) rest'
      → IsOrdered conn received rest
      → IsOrdered (record conn { sock = socket s' }) received rest'
  sock-IsOrdered s' p known h = record {
    matched = record { sock = s'; connected = refl; unread = p; values = h.matched.values };
    expects = h.expects;
    numbered = h.numbered;
    unused = h.unused;
    int_index = h.int_index;
    received_below = h.received_below;
    rest_known = known;
  }
