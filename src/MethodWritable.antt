-- ===== src/MethodWritable.antt =====
-- include/MethodWritable.h and src/MethodWritable.cpp: a method call as a value, and with it the
-- virtual `write` and `readFields` of all values.
pub mod Wire
pub mod RoundTrip
pub mod Lasting
pub mod Fuel
mod Tests
use p_rpc.Base.{
  ℕ, zero, suc, ◌-◌, ◌^◌, List, Bool, true, false, ltb, leb, if◌then◌else◌, length, le_bytes,
  le_value, minus_one, codes, ◌++◌,
}
use p_rpc.Socket.{
  Result, ok, throws, crash, length_error, out_of_fuel, Eff, pure, raise, fail, ◌>>=◌, ◌>>◌,
  continue, catch, Asio,
}
use p_rpc.Socket.Link.{lift, modify}
use p_rpc.Writable.{
  Writable, writable, int_writable, method_writable, Params, nil, cons, size, push_back, set_back,
  get_class, write_string, read_string,
}
use p_rpc.IntWritable.{write_value, read_value}
use p_rpc.Method.{get_new_instance}

-- `_class_name`, `_method_name` and `_params`, which `Server::Call` has too.
pub record Target : Type 0 where
  pub class_name : List ℕ
  pub method_name : List ℕ
  pub params : Params

-- `printToString`
pub print_to_string : Target → List ℕ
print_to_string t = codes "class : " ++ (t.class_name ++ (codes " , method : " ++ t.method_name))

abbrev pub set_class : List ℕ → Target → Target
set_class c t = record t { class_name = c }

abbrev pub set_method : List ℕ → Target → Target
set_method m t = record t { method_name = m }

abbrev pub add_param : Writable → Target → Target
add_param w t = record t { params = push_back t.params w }

abbrev pub set_param : Writable → Target → Target
set_param w t = record t { params = set_back t.params w }

-- The largest `vector<shared_ptr<Writable>>`: `reserve` throws for more.
abbrev pub vector_max : ℕ
vector_max = 2 ^ 59 - 1

module _ ⦃net : Asio⦄ where
  open net use {Socket, read, write}

  -- `write`, which catches every exception of its body, and the loop over the parameters.
  unfoldable mutual
    pub write_fields : Writable → Eff Socket ℕ
    write_fields writable = pure 0
    write_fields (int_writable value) = write_value value
    write_fields (method_writable c m ps) =
        catch
          (do
            write_string c
            write_string m
            l ← write (le_bytes 8 (size ps))
            if leb l 0 then pure minus_one else write_params ps >> pure 0)
          (pure minus_one)

    pub write_params : Params → Eff Socket (Unit {0})
    write_params nil = pure tt
    write_params (cons w ps) = do write_string (get_class w); write_fields w; write_params ps

  -- The loop of `readFields`, where `read_fields` is that of a parameter. It is
  -- for an object whose vector is empty, as that of each object that the program reads into, so that
  -- `_params[i]` is the object just added.
  pub read_params : (Writable → Eff Socket (Writable × ℕ)) → ℕ → Eff (Target × Socket) (Unit {0})
  read_params read_fields zero = pure tt
  read_params read_fields (suc n) = do
    class ← lift read_string
    modify (add_param (get_new_instance class))
    r ← lift (read_fields (get_new_instance class))
    modify (set_param r.0)
    read_params read_fields n

  pub read_sized : (Writable → Eff Socket (Writable × ℕ)) → List ℕ → Eff (Target × Socket) ℕ
  unfolding read_params
  read_sized read_fields bytes =
      if leb (length bytes) 0
      then pure minus_one
      else (if ltb vector_max (le_value bytes)
          then raise length_error
          else read_params read_fields (le_value bytes) >> pure 0)

  -- The body of the `try` of `readFields`.
  pub read_target : (Writable → Eff Socket (Writable × ℕ)) → Eff (Target × Socket) ℕ
  unfolding read_sized
  read_target read_fields = do
    class ← lift read_string
    modify (set_class class)
    method ← lift read_string
    modify (set_method method)
    bytes ← lift (read 8)
    read_sized read_fields bytes

  abbrev pub as_method : Result ℕ × (Target × Socket) → Result (Writable × ℕ) × Socket
  as_method (ok ret, (t, s)) = (ok (method_writable t.class_name t.method_name t.params, ret), s)
  as_method (throws e, (t, s)) = (throws e, s)
  as_method (crash e, (t, s)) = (crash e, s)

  -- `readFields` of a method: an exception in the body is caught, and what was read so far stays.
  abbrev pub read_object : Eff (Target × Socket) ℕ → Target → Eff Socket (Writable × ℕ)
  read_object body t s = as_method (catch body (pure minus_one) (t, s))

  -- `readFields`: the object afterwards and the result. The fuel bounds how deep values are nested.
  pub read_fields : ℕ → Writable → Eff Socket (Writable × ℕ)
  read_fields zero w = fail out_of_fuel
  read_fields (suc fuel) writable = pure (writable, 0)
  read_fields (suc fuel) (int_writable value) =
      read_value value >>= λ r. pure (int_writable r.0, r.1)
  read_fields (suc fuel) (method_writable c m ps) =
      read_object (read_target (read_fields fuel))
        (record { class_name = c; method_name = m; params = ps })
