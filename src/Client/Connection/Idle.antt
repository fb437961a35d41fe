-- ===== src/Client/Connection/Idle.antt =====
-- When the receiver thread of a connection goes idle. Calls whose values have come stay in `_calls`,
-- and `waitForWork` tests whether `_calls` is empty.
use p_rpc.Method.{get_new_instance}
use p_rpc.MethodWritable.{read_fields}
use p_rpc.BlockQueue.Waiting.{wait_for-now}
use p_rpc.Base.{
  ℕ, ◌≡◌, refl, List, [], ◌∷◌, Bool, true, length, modify_at, arith, ◌∙◌, Bool-cases, leb, Option,
  some, inl, inr, none,
}
use p_rpc.Socket.{◌>>=◌, Asio, Eff, Result, ok, throws, crash, continue, handle, pure}
use p_rpc.Client.Call.{Call, set_value}
use p_rpc.Client.Connection.{
  Connection, has_calls, recv_start, recv_respond, wait_for_work, Meanwhile, on_sock, max_wait_rep,
  receive_for, after_id, Pointer, kept_value, id_read, through, receive_value, socket, null, wild,
  keep_value,
}

length-modify_at :
    (id : ℕ) (f : Call → Call) (m : List (ℕ × Call)) → length (modify_at id f m) ≡ length m
unfolding modify_at
length-modify_at id f [] = refl
length-modify_at id f ((j, v) ∷ m) = ground (arith, length-modify_at id f m)

module _ ⦃net : Asio⦄ where
  open net use {Socket, read}

  -- A computation that takes no call out of `_calls`.
  abbrev KeepsCalls : {A : Type 0} → Eff Connection A → Type 0
  KeepsCalls m = (conn : Connection) → length (m conn).1.calls ≡ length conn.calls

  continue-length :
      {A B : Type 0} (f : A → Eff Connection B) (n : ℕ) (p : Result A × Connection)
      → ((a : A) → KeepsCalls (f a))
      → length p.1.calls ≡ n
      → length (continue p f).1.calls ≡ n
  continue-length f n (ok a, conn) h e = h a conn ∙ e
  continue-length f n (throws x, conn) h e = e
  continue-length f n (crash x, conn) h e = e

  KeepsCalls-bind :
      {A B : Type 0} (m : Eff Connection A) (f : A → Eff Connection B)
      → KeepsCalls m
      → ((a : A) → KeepsCalls (f a))
      → KeepsCalls (m >>= f)
  KeepsCalls-bind m f h k conn = continue-length f _ (m conn) k (h conn)

  handle-length :
      {A : Type 0} (k : Eff Connection A) (n : ℕ) (p : Result A × Connection)
      → KeepsCalls k
      → length p.1.calls ≡ n
      → length (handle p k).1.calls ≡ n
  handle-length k n (ok a, conn) h e = e
  handle-length k n (throws x, conn) h e = h conn ∙ e
  handle-length k n (crash x, conn) h e = e

  through-length :
      {A : Type 0} (p : Pointer) (m : Eff Socket A) (conn : Connection)
      → length (through p m conn).1.calls ≡ length conn.calls
  through-length null m conn = refl
  through-length wild m conn = refl
  through-length (socket s) m conn = refl

  kept_value-length :
      (id : ℕ) (conn : Connection) (p : Result (Unit {0}) × Call)
      → length (kept_value id conn p).1.calls ≡ length conn.calls
  kept_value-length id conn (r, c) = length-modify_at id (λ _. c) conn.calls

  receive_for-KeepsCalls : (fuel id : ℕ) (c : Option Call) → KeepsCalls (receive_for fuel id c)
  unfolding receive_for receive_value
  receive_for-KeepsCalls fuel id none conn = refl
  receive_for-KeepsCalls fuel id (some call) conn =
      handle-length (pure tt) _ _ (λ _. refl)
        (KeepsCalls-bind (on_sock (read_fields fuel (get_new_instance call.value_class)))
          (λ r. keep_value id call r.0) (λ c. through-length c.sock _ c)
          (λ r c. kept_value-length id c (set_value r.0 call)) conn)

  after_id-KeepsCalls : (fuel : ℕ) (bytes : List ℕ) → KeepsCalls (after_id fuel bytes)
  unfolding after_id
  after_id-KeepsCalls fuel bytes conn = elim (Bool-cases (leb (length bytes) 0)) [
    | inl e ↦ rw e refl
    | inr e ↦ rw e (receive_for-KeepsCalls fuel _ _ conn)
  ]

  id_read-length :
      (fuel n : ℕ) (p : Result (List ℕ) × Connection)
      → length p.1.calls ≡ n
      → length (id_read fuel p).1.calls ≡ n
  id_read-length fuel n (ok bytes, conn) e = after_id-KeepsCalls fuel bytes conn ∙ e
  id_read-length fuel n (throws x, conn) e = e
  id_read-length fuel n (crash x, conn) e = e

  recv_respond-KeepsCalls : (fuel : ℕ) → KeepsCalls (recv_respond fuel)
  unfolding recv_respond
  recv_respond-KeepsCalls fuel conn =
      id_read-length fuel _ _ (through-length conn.sock (read 4) conn)

  -- With a call in `_calls` the wait is over at once.
  wait_for_work-busy :
      (w : Meanwhile) (conn : Connection)
      → has_calls conn ≡ true
      → wait_for_work max_wait_rep w.others w.should_stop conn ≡ (true, conn)
  unfolding wait_for_work
  wait_for_work-busy w conn h = rw (wait_for-now has_calls (w.others 4) conn h) refl

  continue-stays :
      (f : Eff Connection Bool) (p : Result (Unit {0}) × Connection)
      → has_calls p.1 ≡ true
      → ((conn : Connection) → has_calls conn ≡ true → ¬ ((f conn).0 ≡ ok true))
      → ¬ ((continue p (λ _. f)).0 ≡ ok true)
  continue-stays f (ok tt, conn) h k e = k conn h e
  continue-stays f (throws x, conn) h k e = cc e
  continue-stays f (crash x, conn) h k e = cc e

  -- With a call in `_calls`, the receiver thread of a connection never leaves its loop, however
  -- many turns it makes, whatever the other threads do while it waits, and even if the client
  -- should stop and all the values have come; it can only crash.
  pub recv_start-busy :
      (fuel : ℕ) (ws : List Meanwhile) (conn : Connection)
      → has_calls conn ≡ true
      → ¬ ((recv_start fuel ws conn).0 ≡ ok true)
  unfolding recv_start
  recv_start-busy fuel [] conn h = λ e. cc e
  recv_start-busy fuel (w ∷ ws) conn h = rw (wait_for_work-busy w conn h) (
      continue-stays (recv_start fuel ws) (recv_respond fuel conn)
        (rw (recv_respond-KeepsCalls fuel conn) h) (recv_start-busy fuel ws))
