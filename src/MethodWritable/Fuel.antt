-- ===== src/MethodWritable/Fuel.antt =====
-- How the bytes that are left to read bound the fuel that `readFields` needs.
use p_rpc.Method.{get_new_instance}
use p_rpc.MethodWritable.{
  read_sized, Target, read_fields, read_params, read_target, as_method, read_object, set_class,
  add_param, set_param, set_method,
}
use p_rpc.Base.{
  zero, suc, ℕ, suc, ◌≤◌, ◌<◌, arith, length, length-append, inl, inr, Option, ltb, ◌==◌, le_value,
  List, ◌≢◌, minus_one,
}
use p_rpc.Socket.{
  logic_error, bad_alloc, Asio, Eff, Result, ok, throws, crash, null_pointer, out_of_range,
  undefined_behaviour, aborted, out_of_fuel, pure, handle,
}
use p_rpc.Socket.Link.{read_cases, modify, lift}
use p_rpc.Writable.{read_string, read_chars, Writable, int_writable, method_writable, writable}
use p_rpc.IntWritable.{read_value, read_value_bytes}
use p_rpc.MethodWritable.Lasting.{
  Fueled, Lasts, Takes, Lasts-pure, Lasts-bind, Lasts-bind-Takes, Lasts-if, Lasts-raise,
  handle-Fueled, not-out_of_fuel, Takes-continue, Lasts-weaken, Lasts-undefined,
}

abbrev waiting : ⦃net : Asio⦄ → net.Socket → ℕ
waiting ⦃net⦄ s = length (net.pending s)

module _ ⦃net : Asio⦄ where
  open net use {Socket, pending, read}

  Lasts-read : {f : ℕ} (n : ℕ) → Lasts waiting f (read n)
  Lasts-read n = record {
    run = λ s h. elim (read_cases n s) [
      | inl (s', l, e, p) ↦ rw e (tt, rw p (omega arith))
      | inr (bs, s', e, l, p) ↦ rw e (tt, rw p (omega (arith, length-append bs (pending s'))))
    ];
  }

  Takes-read : (n : ℕ) → 0 < n → Takes waiting (read n)
  Takes-read n pos = record {
    run = λ s a t h. elim (read_cases n s) [
      | inl (s', l, e, p) ↦ cc
      | inr (bs, s', e, l, p) ↦ ground (arith, length-append bs (pending s'))
    ];
  }

  Lasts-chars : {f : ℕ} (len : ℕ) → Lasts waiting f (read_chars len)
  unfolding read_chars
  Lasts-chars len =
      Lasts-if _ _ _
        (Lasts-if _ _ _
          (Lasts-bind _ _ (Lasts-read len)
            (λ chars. Lasts-if (ltb 0 (length chars)) _ _ (Lasts-pure _) (Lasts-raise logic_error)))
          (Lasts-raise bad_alloc))
        (Lasts-raise logic_error)

  Lasts-string : {f : ℕ} → Lasts waiting f read_string
  unfolding read_string
  Lasts-string = Lasts-bind (read 4) _ (Lasts-read 4) (λ bytes. Lasts-chars (le_value bytes))

  Takes-string : Takes waiting read_string
  unfolding read_string
  Takes-string = record {
    run = λ s a t h.
        Takes-continue waiting (read 4 s) (λ bytes. read_chars (le_value bytes)) (waiting s)
          (λ bs e. (Takes-read 4 (omega arith)).run s bs (read 4 s).1 (λ i. (e i, (read 4 s).1)))
          (λ bs.
            ((Lasts-chars {f = suc (waiting (read 4 s).1)} (le_value bs)).run (read 4 s).1
              (omega arith)).1)
          a t h;
  }

  Lasts-bytes : {f : ℕ} (old : Option ℕ) (len : ℕ) → Lasts waiting f (read_value_bytes old len)
  unfolding read_value_bytes
  Lasts-bytes old len = Lasts-if _ _ _ Lasts-undefined (
      Lasts-if _ _ _ (Lasts-raise bad_alloc) (
        Lasts-bind _ _ (Lasts-read _)
          (λ buf. Lasts-if (length buf == len) _ _ (Lasts-pure _) (Lasts-pure _))))

  Lasts-value : {f : ℕ} (old : Option ℕ) → Lasts waiting f (read_value old)
  unfolding read_value
  Lasts-value old = Lasts-bind (read 8) _ (Lasts-read 8) (λ bytes. Lasts-bytes old (le_value bytes))

  -- The same measure, where an object stands beside the socket.
  abbrev waiting' : {O : Type 0} → O × Socket → ℕ
  waiting' p = waiting p.1

  Lasts-lift :
      {O A : Type 0} {f : ℕ} (m : Eff Socket A)
      → Lasts waiting f m
      → Lasts (waiting' {O = O}) f (lift m)
  Lasts-lift m p = record { run = λ s h. p.run s.1 h }

  Takes-lift :
      {O A : Type 0} (m : Eff Socket A) → Takes waiting m → Takes (waiting' {O = O}) (lift m)
  Takes-lift m p = record { run = λ s a t h. p.run s.1 a t.1 (λ i. ((h i).0, (h i).1.1)) }

  Lasts-modify : {O : Type 0} {f : ℕ} (g : O → O) → Lasts waiting' f (modify g)
  Lasts-modify g = record { run = λ s h. (tt, omega arith) }

  Lasts-params :
      {f : ℕ} (rf : Writable → Eff Socket (Writable × ℕ)) (n : ℕ)
      → ((w : Writable) → Lasts waiting f (rf w))
      → Lasts waiting' (suc f) (read_params rf n)
  unfolding read_params
  Lasts-params rf zero h = Lasts-pure tt
  Lasts-params rf (suc n) h =
      Lasts-bind-Takes (lift read_string) _ (Lasts-lift _ Lasts-string) (Takes-lift _ Takes-string)
        λ class. Lasts-bind _ _ (Lasts-modify (add_param (get_new_instance class))) λ _.
          Lasts-bind _ _ (Lasts-lift _ (h (get_new_instance class))) λ r.
            Lasts-bind _ _ (Lasts-modify (set_param r.0)) λ _. Lasts-weaken _ (Lasts-params rf n h)

  Lasts-sized :
      {f : ℕ} (rf : Writable → Eff Socket (Writable × ℕ)) (bytes : List ℕ)
      → ((w : Writable) → Lasts waiting f (rf w))
      → Lasts waiting' (suc f) (read_sized rf bytes)
  unfolding read_sized
  Lasts-sized rf bytes h =
      Lasts-if _ _ _ (Lasts-pure _)
        (Lasts-if _ _ _ (Lasts-raise _) (Lasts-bind _ _ (Lasts-params rf _ h) (λ _. Lasts-pure 0)))

  pub Lasts-target :
      {f : ℕ} (rf : Writable → Eff Socket (Writable × ℕ))
      → ((w : Writable) → Lasts waiting f (rf w))
      → Lasts waiting' (suc f) (read_target rf)
  unfolding read_target
  Lasts-target rf h = Lasts-bind _ _ (Lasts-lift _ Lasts-string) λ class.
      Lasts-bind _ _ (Lasts-modify (set_class class)) λ _.
        Lasts-bind _ _ (Lasts-lift _ Lasts-string) λ name.
          Lasts-bind _ _ (Lasts-modify (set_method name)) λ _.
            Lasts-bind _ (read_sized rf) (Lasts-lift _ (Lasts-read 8))
              λ bytes. Lasts-sized rf bytes h

  as_method-Fueled :
      (r : Result ℕ × (Target × Socket))
      → Fueled r.0
      → Fueled (as_method r).0 × (waiting (as_method r).1 ≤ waiting r.1.1)
  as_method-Fueled (ok a, (t, s)) g = (tt, omega arith)
  as_method-Fueled (throws e, (t, s)) g = (tt, omega arith)
  as_method-Fueled (crash null_pointer, (t, s)) g = (tt, omega arith)
  as_method-Fueled (crash out_of_range, (t, s)) g = (tt, omega arith)
  as_method-Fueled (crash undefined_behaviour, (t, s)) g = (tt, omega arith)
  as_method-Fueled (crash aborted, (t, s)) g = (tt, omega arith)
  as_method-Fueled (crash out_of_fuel, (t, s)) g = absurd g

  Lasts-object :
      {f : ℕ} (body : Eff (Target × Socket) ℕ) (t : Target)
      → Lasts waiting' f body
      → Lasts waiting f (read_object body t)
  Lasts-object body t p = record {
    run = λ s h.
        let (g, l) = p.run (t, s) h in
        let (g', l') = handle-Fueled waiting' (body (t, s)) minus_one g in
        let (g'', l'') = as_method-Fueled (handle (body (t, s)) (pure minus_one)) g' in
        (g'', omega arith);
  }

  Lasts-fields : (f : ℕ) (w : Writable) → Lasts waiting f (read_fields f w)
  unfolding read_fields
  Lasts-fields zero w = record { run = λ s h. absurd (omega arith) }
  Lasts-fields (suc f) writable = Lasts-pure _
  Lasts-fields (suc f) (int_writable value) = Lasts-bind _ _ (Lasts-value value) (λ r. Lasts-pure _)
  Lasts-fields (suc f) (method_writable c m ps) =
      Lasts-object _ _ (Lasts-target (read_fields f) (Lasts-fields f))

  -- `readFields` ends on whatever comes from the peer: with more fuel than bytes to come it does not
  -- run out of fuel, for any object and any bytes, and the stream does not grow.
  pub read_fields_ends :
      (fuel : ℕ) (w : Writable) (s : Socket)
      → length (pending s) < fuel
      → ((read_fields fuel w s).0 ≢ crash out_of_fuel)
        × (length (pending (read_fields fuel w s).1) ≤ length (pending s))
  read_fields_ends fuel w s h =
      let (g, l) = (Lasts-fields fuel w).run s h in (not-out_of_fuel _ g, l)
