-- ===== src/Server/Call/Request.antt =====
-- A request on the wire, from the client's call to the server's.
use p_rpc.Base.{
  ℕ, ◌<◌, ◌≡◌, refl, List, [], ◌++◌, true, false, some, le_bytes, le_value, length-le_bytes,
  le_value-le_bytes, int_mod, Option, is_negative, length, ◌≤◌,
}
use p_rpc.Socket.{Asio, Eff, pure, catch, ok}
use p_rpc.Socket.Link.{
  Writes, Reads, Reads-lift, Reads-bind, Reads-bind_quiet, Reads-pure, Reads-then, Reads-catch,
  Receives-read, Writes-bind, Writes-bind_quiet, Writes-write, Writes-pure,
}
use p_rpc.Writable.{method_writable, Params, Writable, int_writable, writable}
use p_rpc.MethodWritable.{Target}
use p_rpc.MethodWritable.Wire.{
  wire, IsSendable, received_params, depth_params, Writes-fields, result_of,
}
use p_rpc.MethodWritable.RoundTrip.{Reads-method, append}
use p_rpc.Client.Call
use p_rpc.Server.Call.{
  Call, new_call, set_id, on_target, in_call, read_body, read_call, read_after_id,
}

-- The wire format of a request: the id of the call and its parameter, a method.
unfoldable pub request_wire : ℕ → Writable → List ℕ
request_wire id w = le_bytes 4 id ++ wire w

-- The call that the server makes of it.
abbrev pub requested : ℕ → ℕ → List ℕ → List ℕ → Params → Call
requested conn id c m ps = record {
  connection = some conn;
  call_id = id;
  target = record { class_name = c; method_name = m; params = received_params ps };
  value = Option.none;
  pos = 0;
  str_val = [];
}

module _ ⦃net : Asio⦄ where
  open net use {Socket, pending, sent, room}

  Reads-on_target :
      {A : Type 0} (m : Eff (Target × Socket) A) (c : Call) {bs : List ℕ} {a : A} {t' : Target}
      → Reads m bs c.target a t'
      → Reads (on_target m) bs c a (record c { target = t' })
  Reads-on_target m c p = record {
    run = λ s rest h. let (s', e, t, r, g) = p.run s rest h in (s', rw (e, in_call) refl, t, r, g);
  }

  result-not_negative : (w : Writable) → is_negative (result_of w) ≡ false
  unfolding result_of
  result-not_negative writable = refl
  result-not_negative (int_writable value) = refl
  result-not_negative (method_writable c m ps) = refl

  pub Writes-request :
      (call : Call.Call)
      → IsSendable call.param
      → Writes (Call.write_call call) (request_wire call.id call.param) true
  unfolding Call.write_call request_wire
  Writes-request call h = Writes-bind _ _ (Writes-write (le_bytes 4 call.id)) (
      rw (length-le_bytes 4 call.id) (
        Writes-bind_quiet _ (Call.report call.param) (Writes-fields h)
          (rw (result-not_negative call.param) (Writes-pure true))))

  Reads-body :
      (fuel conn id : ℕ) {c m : List ℕ} (ps : Params)
      → id < int_mod
      → IsSendable (method_writable c m ps)
      → depth_params ps < fuel
      → Reads
          (read_body fuel)
          (request_wire id (method_writable c m ps))
          (new_call (some conn))
          true
          (requested conn id c m ps)
  unfolding read_body request_wire new_call append read_after_id
  Reads-body fuel conn id {c} {m} ps k h d =
      Reads-bind _ _ (Reads-lift _ _ (Receives-read 4 _ (length-le_bytes 4 id))) (
        Reads-then (set_id (le_value (le_bytes 4 id))) (read_after_id fuel (le_bytes 4 id))
          after_id)
    where
      after_id :
          Reads
            (read_after_id fuel (le_bytes 4 id))
            (wire (method_writable c m ps))
            (set_id (le_value (le_bytes 4 id)) (new_call (some conn)))
            true
            (requested conn id c m ps)
      after_id =
          rw (read_after_id, length-le_bytes 4 id, le_value-le_bytes 4 id k)
            (Reads-bind_quiet _ _ (Reads-on_target _ _ (Reads-method fuel ps _ h d))
              (Reads-pure _ true))

  pub Reads-call :
      (fuel conn id : ℕ) {c m : List ℕ} (ps : Params)
      → id < int_mod
      → IsSendable (method_writable c m ps)
      → depth_params ps < fuel
      → Reads
          (read_call fuel)
          (request_wire id (method_writable c m ps))
          (new_call (some conn))
          true
          (requested conn id c m ps)
  unfolding read_call new_call
  Reads-call fuel conn id {c} {m} ps k h d = record { run = λ s rest p. body.run s rest p }
    where
      body :
          Reads
            (catch (read_body fuel) (pure false))
            (request_wire id (method_writable c m ps))
            (new_call (some conn))
            true
            (requested conn id c m ps)
      body = Reads-catch (read_body fuel) (pure false) (Reads-body fuel conn id ps k h d)

  -- Let a client's call have a method for its parameter that can be sent, and an id within an `int`,
  -- and let the client's connection stand long enough for the request. Then `write` reports success
  -- and sends the wire format of the request; and where this format comes in, whatever follows it,
  -- `read` on the server reports success, takes exactly its bytes, sends nothing, and makes a new
  -- call into one with the same id, class and method and the same parameters, each number in them
  -- narrowed. The fuel of `read` has to exceed the nesting depth of the parameters.
  pub read_call-write_call :
      (call : Call.Call) (fuel conn : ℕ) {c m : List ℕ} (ps : Params) (s t : Socket) (rest : List ℕ)
      → call.param ≡ method_writable c m ps
      → IsSendable (method_writable c m ps)
      → call.id < int_mod
      → depth_params ps < fuel
      → length (request_wire call.id call.param) ≤ room s
      → pending t ≡ request_wire call.id call.param ++ rest
      → ((s' : Socket) × (Call.write_call call s ≡ (ok true, s'))
          × (sent s' ≡ sent s ++ request_wire call.id call.param))
        × ((t' : Socket) × (read_call fuel (new_call (some conn), t)
              ≡ (ok true, (requested conn call.id c m ps, t')))
            × (pending t' ≡ rest)
            × (sent t' ≡ sent t))
  read_call-write_call call fuel conn {c} {m} ps s t rest e h k d l p =
      let (s', w, x, _, _) = (Writes-request call (rw e h)).run s l in
      let (t', r, q, y, _) = (Reads-call fuel conn call.id ps k h d).run t rest (rw e at p) in
      ((s', w, x), (t', r, q, y))
