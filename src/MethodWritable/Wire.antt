-- ===== src/MethodWritable/Wire.antt =====
-- The wire format of values, and what the receiver makes of it.
use p_rpc.Base.{ℕ, suc, ◌≤◌, List, [], ◌++◌, none, some, arith, le_bytes, length-le_bytes}
use Prim.Native.Nat.{max}
use p_rpc.Socket.{Asio}
use p_rpc.Socket.Link.{
  Writes, Writes-bind, Writes-bind_quiet, Writes-pure, Writes-write, Writes-catch,
}
use p_rpc.Writable.{
  Writable, writable, int_writable, method_writable, Params, nil, cons, size, get_class,
}
use p_rpc.Writable.Strings.{IsText, string_wire, Writes-string}
use p_rpc.IntWritable.Narrow.{narrow, int_wire, Writes-value}
use p_rpc.MethodWritable.{write_fields, write_params, vector_max}

unfoldable mutual
  pub wire : Writable → List ℕ
  wire writable = []
  wire (int_writable none) = []
  wire (int_writable (some value)) = int_wire value
  wire (method_writable c m ps) =
      string_wire c ++ (string_wire m ++ (le_bytes 8 (size ps) ++ wire_params ps))

  pub wire_params : Params → List ℕ
  wire_params nil = []
  wire_params (cons w ps) = string_wire (get_class w) ++ (wire w ++ wire_params ps)

-- The values that `write` sends whole: every `int` is set, every name is a text, and there are not
-- more parameters than a vector holds.
mutual
  pub data IsSendable : Writable → Type 0 where
    base : IsSendable writable
    int : (value : ℕ) → IsSendable (int_writable (some value))
    method :
        {c m : List ℕ} {ps : Params}
        → IsText c
        → IsText m
        → size ps ≤ vector_max
        → AreSendable ps
        → IsSendable (method_writable c m ps)

  pub data AreSendable : Params → Type 0 where
    end : AreSendable nil
    also : {w : Writable} {ps : Params} → IsSendable w → AreSendable ps → AreSendable (cons w ps)

-- What arrives: every `int` is narrowed.
unfoldable mutual
  pub received : Writable → Writable
  received writable = writable
  received (int_writable none) = int_writable none
  received (int_writable (some value)) = int_writable (some (narrow value))
  received (method_writable c m ps) = method_writable c m (received_params ps)

  pub received_params : Params → Params
  received_params nil = nil
  received_params (cons w ps) = cons (received w) (received_params ps)

-- How deep method calls are nested in a value.
unfoldable mutual
  pub depth : Writable → ℕ
  depth writable = 0
  depth (int_writable value) = 0
  depth (method_writable c m ps) = suc (depth_params ps)

  pub depth_params : Params → ℕ
  depth_params nil = 0
  depth_params (cons w ps) = max (depth w) (depth_params ps)

-- What `write` and `readFields` return.
unfoldable pub result_of : Writable → ℕ
result_of writable = 0
result_of (int_writable value) = 4
result_of (method_writable c m ps) = 0

pub IsText-class : (w : Writable) → IsText (get_class w)
unfolding get_class
IsText-class writable = record { chars = omega arith; not_empty = omega arith; short = omega arith }
IsText-class (int_writable value) = record {
  chars = omega arith;
  not_empty = omega arith;
  short = omega arith;
}
IsText-class (method_writable c m ps) = record {
  chars = omega arith;
  not_empty = omega arith;
  short = omega arith;
}

module _ ⦃net : Asio⦄ where
  mutual
    unfolding write_fields write_params wire wire_params result_of

    Writes-value_of : {w : Writable} → IsSendable w → Writes (write_fields w) (wire w) (result_of w)
    Writes-value_of base = Writes-pure 0
    Writes-value_of (int value) = Writes-value value
    Writes-value_of (method {ps = ps} tc tm h hs) = Writes-catch _ _ (
        Writes-bind _ _ (Writes-string _ tc) (
          Writes-bind _ _ (Writes-string _ tm) (
            Writes-bind _ _ (Writes-write (le_bytes 8 (size ps))) (
              rw (length-le_bytes 8 (size ps))
                (Writes-bind_quiet _ _ (Writes-params_of hs) (Writes-pure 0))))))

    Writes-params_of : {ps : Params} → AreSendable ps → Writes (write_params ps) (wire_params ps) tt
    Writes-params_of end = Writes-pure tt
    Writes-params_of (also {w} h hs) =
        Writes-bind _ _ (Writes-string _ (IsText-class w))
          (Writes-bind _ _ (Writes-value_of h) (Writes-params_of hs))

  pub Writes-fields : {w : Writable} → IsSendable w → Writes (write_fields w) (wire w) (result_of w)
  Writes-fields h = Writes-value_of h
