-- ===== src/MethodWritable/RoundTrip.antt =====
-- A value sent by `write` is, but for its narrowed numbers, the value that `readFields` makes.
use p_rpc.Base.{
  ℕ, zero, suc, ◌≤◌, ◌<◌, ◌≡◌, refl, ap, List, [], ◌++◌, none, arith, le_bytes, bytes_eq,
  length-le_bytes, le_value-le_bytes, le→ltb, Option, some, length,
}
use p_rpc.Socket.{◌>>◌, Asio, Eff, ◌>>=◌, handle, ok}
use p_rpc.Socket.Link.{
  Reads-then, Reads, Receives, lift, modify, Reads-lift, Reads-bind, Reads-bind_quiet, Reads-pure,
  Receives-read, Receives-pure, Receives-bind_quiet,
}
use p_rpc.Writable.{
  Writable, writable, int_writable, method_writable, Params, nil, cons, size, push_back, set_back,
  get_class,
}
use p_rpc.Writable.Strings.{IsText, string_wire, Receives-string}
use p_rpc.IntWritable.Narrow.{Receives-value, int_wire, narrow}
use p_rpc.Method.{get_new_instance}
use p_rpc.MethodWritable.{
  write_fields, Target, set_class, set_method, add_param, set_param, read_params, read_sized,
  read_target, read_object, read_fields, as_method, vector_max,
}
use p_rpc.MethodWritable.Wire.{
  Writes-fields, wire, wire_params, IsSendable, base, int, method, AreSendable, end, also, received,
  received_params, depth, depth_params, result_of, IsText-class,
}

unfoldable pub append : Params → Params → Params
append nil qs = qs
append (cons w ps) qs = cons w (append ps qs)

pub append-nil : (ps : Params) → append ps nil ≡ ps
unfolding append
append-nil nil = refl
append-nil (cons w ps) = ap (cons w) (append-nil ps)

pub append-push_back :
    (ps : Params) (w : Writable) (qs : Params) → append (push_back ps w) qs ≡ append ps (cons w qs)
unfolding append push_back
append-push_back nil w qs = refl
append-push_back (cons v ps) w qs = ap (cons v) (append-push_back ps w qs)

set_back-push_back : (ps : Params) (v w : Writable) → set_back (push_back ps v) w ≡ push_back ps w
unfolding push_back set_back
set_back-push_back nil v w = refl
set_back-push_back (cons u nil) v w = refl
set_back-push_back (cons u (cons t ps)) v w = ap (cons u) (set_back-push_back (cons t ps) v w)

-- A new object of the class of a value.
blank : Writable → Writable
blank writable = writable
blank (int_writable value) = int_writable none
blank (method_writable c m ps) = method_writable [] [] nil

new_instance-class : (w : Writable) → get_new_instance (get_class w) ≡ blank w
unfolding get_new_instance get_class blank bytes_eq
new_instance-class writable = refl
new_instance-class (int_writable value) = refl
new_instance-class (method_writable c m ps) = refl

module _ ⦃net : Asio⦄ where
  open net use {Socket, read, pending, sent, room}

  pub Receives-int :
      (fuel : ℕ) (old : Option ℕ) (value : ℕ)
      → Receives
          (read_fields (suc fuel) (int_writable old))
          (int_wire value)
          (int_writable (some (narrow value)), 4)
  unfolding read_fields
  Receives-int fuel old value = Receives-bind_quiet _ _ (Receives-value old value) (Receives-pure _)

  Receives-object :
      (body : Eff (Target × Socket) ℕ) {bs : List ℕ} {t t' : Target} {a : ℕ}
      → Reads body bs t a t'
      → Receives (read_object body t) bs (method_writable t'.class_name t'.method_name t'.params, a)
  Receives-object body p = record {
    run = λ s rest h.
        let (s', e, t, r, g) = p.run s rest h in (s', rw (e, handle, as_method) refl, t, r, g);
  }

  -- The body of `readFields` reads names and parameters, given the loop over the parameters.
  pub Reads-target :
      (rf : Writable → Eff Socket (Writable × ℕ)) {c m : List ℕ} (ps : Params) (t : Target)
      → IsText c
      → IsText m
      → size ps ≤ vector_max
      → ((u : Target)
          → Reads
              (read_params rf (size ps))
              (wire_params ps)
              u
              tt
              (record u { params = append u.params (received_params ps) }))
      → Reads
          (read_target rf)
          (string_wire c ++ (string_wire m ++ (le_bytes 8 (size ps) ++ wire_params ps)))
          t
          0
          (record {
            class_name = c;
            method_name = m;
            params = append t.params (received_params ps);
          })
  unfolding read_target
  Reads-target rf {c} {m} ps t tc tm h loop =
      Reads-bind _ _ (Reads-lift t _ (Receives-string c tc)) (
        Reads-then (set_class c) _ (
          Reads-bind _ after_method (Reads-lift _ _ (Receives-string m tm)) (
            Reads-then (set_method m) _ (
              Reads-bind _ (read_sized rf)
                (Reads-lift _ _ (Receives-read 8 _ (length-le_bytes 8 (size ps)))) sized))))
    where
      after_method : List ℕ → Eff (Target × Socket) ℕ
      after_method name = modify (set_method name) >> (lift (read 8) >>= read_sized rf)

      sized :
          Reads
            (read_sized rf (le_bytes 8 (size ps)))
            (wire_params ps)
            (record { class_name = c; method_name = m; params = t.params })
            0
            (record {
              class_name = c;
              method_name = m;
              params = append t.params (received_params ps);
            })
      sized =
          rw
            (
              read_sized,
              length-le_bytes 8 (size ps),
              le_value-le_bytes 8 (size ps) (omega arith),
              le→ltb _ _ h,
            )
            (Reads-bind_quiet _ _ (loop _) (Reads-pure _ 0))

  mutual
    unfolding read_fields read_params wire wire_params received received_params depth depth_params
        result_of blank append size

    Receives-value_of :
        (fuel : ℕ) {w : Writable}
        → IsSendable w
        → depth w < fuel
        → Receives (read_fields fuel (blank w)) (wire w) (received w, result_of w)
    Receives-value_of zero base h = absurd (omega arith)
    Receives-value_of zero (int value) h = absurd (omega arith)
    Receives-value_of zero (method tc tm k hs) h = absurd (omega arith)
    Receives-value_of (suc fuel) base h = Receives-pure _
    Receives-value_of (suc fuel) (int value) h =
        Receives-bind_quiet _ _ (Receives-value none value) (Receives-pure _)
    Receives-value_of (suc fuel) (method {ps = ps} tc tm k hs) h =
        Receives-object _
          (Reads-target (read_fields fuel) ps _ tc tm k (Reads-params_of fuel hs (omega arith)))

    Reads-params_of :
        (fuel : ℕ) {ps : Params}
        → AreSendable ps
        → depth_params ps < fuel
        → (t : Target)
        → Reads
            (read_params (read_fields fuel) (size ps))
            (wire_params ps)
            t
            tt
            (record t { params = append t.params (received_params ps) })
    Reads-params_of fuel end h t = rw (append-nil t.params) (Reads-pure t tt)
    Reads-params_of fuel (also {w} {ps} p hs) h t =
        let first : Receives (read_fields fuel (get_new_instance (get_class w))) (wire w)
            (received w, result_of w) =
          rw (new_instance-class w) (Receives-value_of fuel p (omega arith)) in
        Reads-bind _ _ (Reads-lift t _ (Receives-string _ (IsText-class w))) (
          Reads-then (add_param (get_new_instance (get_class w))) _ (
            Reads-bind _ (λ r. modify (set_param r.0) >> read_params (read_fields fuel) (size ps))
              (Reads-lift _ _ first)
              (Reads-then (set_param (received w)) (read_params (read_fields fuel) (size ps)) (
                rw (set_back-push_back t.params (get_new_instance (get_class w)) (received w)) (
                  rw (← append-push_back t.params (received w) (received_params ps)) (
                    Reads-params_of fuel hs (omega arith)
                      (record t { params = push_back t.params (received w) })))))))

  -- The body of `readFields` takes the wire format of a method call.
  pub Reads-method :
      (fuel : ℕ) {c m : List ℕ} (ps : Params) (t : Target)
      → IsSendable (method_writable c m ps)
      → depth_params ps < fuel
      → Reads (read_target (read_fields fuel)) (wire (method_writable c m ps)) t 0 (record {
        class_name = c;
        method_name = m;
        params = append t.params (received_params ps);
      })
  unfolding wire
  Reads-method fuel ps t (method tc tm k hs) h =
      Reads-target (read_fields fuel) ps t tc tm k (Reads-params_of fuel hs h)

  -- Let a value be sendable and one socket stand long enough for its wire format. Then `write` sends
  -- this format there; and where it comes in, whatever follows it, `readFields` of a new object of the
  -- value's class takes exactly its bytes, sends nothing, and gives the value with each of its numbers
  -- narrowed. The fuel of `readFields` has to exceed the nesting depth of the value.
  pub read_fields-write_fields :
      (w : Writable) (fuel : ℕ) (s t : Socket) (rest : List ℕ)
      → IsSendable w
      → depth w < fuel
      → length (wire w) ≤ room s
      → pending t ≡ wire w ++ rest
      → ((s' : Socket) × (write_fields w s ≡ (ok (result_of w), s')) × (sent s' ≡ sent s ++ wire w))
        × ((t' : Socket) × (read_fields fuel (get_new_instance (get_class w)) t
              ≡ (ok (received w, result_of w), t'))
            × (pending t' ≡ rest)
            × (sent t' ≡ sent t))
  read_fields-write_fields w fuel s t rest h d l p =
      let (s', e, x, _, _) = (Writes-fields h).run s l in
      let (t', r, q, y, _) = (Receives-value_of fuel h d).run t rest p in
      ((s', e, x), (t', rw (new_instance-class w) r, q, y))
