-- ===== src/Server/Connection/Queueing.antt =====
-- What `processResponse` does to the queue of the connection, however it ends.
use p_rpc.Base.{
  ℕ, suc, ◌≡◌, ◌≢◌, ◌⊎◌, inl, inr, refl, [], ◌∷◌, true, arith, length, length-append, Bool-cases,
  minus_one, ◌==◌, ltb, if◌then◌else◌, le_bytes, ◌+◌, drop, ◌%◌, int_mod,
}
use p_rpc.BlockQueue.{BlockQueue, has_room, push_value}
use p_rpc.BlockQueue.Order.{try_push-room, try_push-full}
use p_rpc.Socket.{Asio, Result, ok, handle, Eff, continue, pure, throws, crash}
use p_rpc.Server.Call.{Call, set_pos}
use p_rpc.Server.Connection.{
  Connection, add_back, process_body, write_header, in_connection, process_response, write_value,
  on_sock,
}

pub length-push_value :
    (q : BlockQueue Call) (call : Call)
    → length (push_value q call true).queue ≡ suc (length q.queue)
unfolding push_value
length-push_value q call = omega (arith, length-append q.queue (call ∷ []))

module _ ⦃net : Asio⦄ where
  open net use {Socket, write, write_some}

  abbrev pub waiting : Connection → ℕ
  waiting conn = length conn.respond_queue.queue

  -- The result is 1 exactly if a call was added to the queue.
  pub record Requeues (conn : Connection) (p : Result ℕ × Connection) : Type 0 where
    pub named : p.1.endpoint ≡ conn.endpoint
    pub waits :
        ((p.0 ≡ ok 1) × (waiting p.1 ≡ suc (waiting conn)))
        ⊎ ((p.0 ≢ ok 1) × (waiting p.1 ≡ waiting conn))

  Requeues-none :
      (conn conn' : Connection) (r : Result ℕ)
      → conn'.endpoint ≡ conn.endpoint
      → waiting conn' ≡ waiting conn
      → r ≢ ok 1
      → Requeues conn (r, conn')
  Requeues-none conn conn' r n w e = record { named = n; waits = inr (e, w) }

  add_back-Requeues : (call : Call) (conn : Connection) → Requeues conn (add_back [] call conn)
  unfolding add_back
  add_back-Requeues call conn = elim (Bool-cases (has_room conn.respond_queue)) [
    | inl has ↦
        rw (try_push-room conn.respond_queue call true has)
          (record { named = refl; waits = inl (refl, length-push_value conn.respond_queue call) })
    | inr full ↦
        rw (try_push-full conn.respond_queue call true full)
          (Requeues-none _ _ _ refl refl (λ e. ground arith))
  ]

  -- A computation that only touches the socket may run first.
  Requeues-after :
      {A : Type 0} (conn : Connection) (f : A → Eff Connection ℕ) (p : Result A × Socket)
      → ((a : A) (s : Socket)
          → Requeues (record conn { sock = s }) (f a (record conn { sock = s })))
      → Requeues conn (continue (in_connection conn p) f)
  Requeues-after conn f (ok a, s) h = let r = h a s in record { named = r.named; waits = r.waits }
  Requeues-after conn f (throws e, s) h = Requeues-none _ _ _ refl refl (λ x. cc x)
  Requeues-after conn f (crash e, s) h = Requeues-none _ _ _ refl refl (λ x. cc x)

  -- What `processResponse` does after `write_some`.
  abbrev after_write : Call → ℕ → ℕ → Eff Connection ℕ
  after_write call left wrote =
      if ltb wrote left then add_back [] (set_pos ((wrote + call.pos) % int_mod) call) else pure 0

  after_write-Requeues :
      (call : Call) (left wrote : ℕ) (conn : Connection)
      → Requeues conn (after_write call left wrote conn)
  after_write-Requeues call left wrote conn = elim (Bool-cases (ltb wrote left)) [
    | inl more ↦ rw more (add_back-Requeues (set_pos ((wrote + call.pos) % int_mod) call) conn)
    | inr all ↦ rw all (Requeues-none conn conn (ok 0) refl refl (λ e. ground arith))
  ]

  Requeues-header :
      (conn : Connection) (left : ℕ) (f : Eff Connection ℕ) (p : Result ℕ × Socket)
      → ((s : Socket) → Requeues (record conn { sock = s }) (f (record conn { sock = s })))
      → Requeues conn (
          continue
            (continue (in_connection conn p) (λ _. on_sock (write (le_bytes 8 left))))
            (λ _. f))
  Requeues-header conn left f (ok a, s) h =
      let r =
        Requeues-after (record conn { sock = s }) (λ _. f) (write (le_bytes 8 left) s)
          (λ _ s'. h s') in
      record { named = r.named; waits = r.waits }
  Requeues-header conn left f (throws e, s) h = Requeues-none _ _ _ refl refl (λ x. cc x)
  Requeues-header conn left f (crash e, s) h = Requeues-none _ _ _ refl refl (λ x. cc x)

  write_value-Requeues :
      (call : Call) (left : ℕ) (conn : Connection) → Requeues conn (write_value [] call left conn)
  unfolding write_value
  write_value-Requeues call left conn =
      Requeues-after conn (after_write call left)
        (write_some (drop call.pos call.str_val) conn.sock)
        (λ wrote s. after_write-Requeues call left wrote (record conn { sock = s }))

  process_body-Requeues :
      (call : Call) (left : ℕ) (conn : Connection) → Requeues conn (process_body [] call left conn)
  unfolding process_body write_header
  process_body-Requeues call left conn = elim (Bool-cases (call.pos == 0)) [
    | inl first ↦ rw first (
        Requeues-header conn left (write_value [] call left)
          (write (le_bytes 4 call.call_id) conn.sock)
          (λ s. write_value-Requeues call left (record conn { sock = s })))
    | inr later ↦ elim (Bool-cases (ltb (length call.str_val) call.pos)) [
      | inl illegal ↦
          rw (later, illegal) (Requeues-none conn conn (ok minus_one) refl refl (λ e. ground arith))
      | inr legal ↦ rw (later, legal) (write_value-Requeues call left conn)
    ]
  ]

  handle-Requeues :
      (conn : Connection) (p : Result ℕ × Connection)
      → Requeues conn p
      → Requeues conn (handle p (pure minus_one))
  handle-Requeues conn (ok a, conn') h = h
  handle-Requeues conn (throws e, conn') h = elim h.waits [
    | inl (x, w) ↦ absurd (cc x)
    | inr (x, w) ↦ Requeues-none conn conn' (ok minus_one) h.named w (λ y. ground arith)
  ]
  handle-Requeues conn (crash e, conn') h = h

  pub process_response-Requeues :
      (call : Call) (conn : Connection) → Requeues conn (process_response [] call conn)
  unfolding process_response
  process_response-Requeues call conn = handle-Requeues conn _ (process_body-Requeues call _ conn)
