-- ===== src/IntWritable/Narrow.antt =====
-- What is left of an `int` after `write` and `readFields`.
use p_rpc.Base.{
  ℕ, ◌-◌, ◌%◌, ◌<◌, ◌≡◌, List, ◌++◌, Option, some, le_bytes, int_mod, char_to_int, length-le_bytes,
  le_value-le_bytes, arith, ◌↔◌, ◌⊎◌, ◌≤◌,
}
use p_rpc.Socket.{Asio}
use p_rpc.Socket.Link.{
  Writes, Receives, Writes-bind, Writes-bind_quiet, Writes-pure, Writes-write, Receives-bind,
  Receives-bind_quiet, Receives-pure, Receives-read,
}
use p_rpc.IntWritable.{write_value, read_value}

-- The low byte with its sign: what `readFields` keeps of an `int`.
unfoldable pub narrow : ℕ → ℕ
narrow value = char_to_int (value % 256)

-- The integers from -128 to 127, as bit patterns.
abbrev pub IsSmall : ℕ → Type 0
IsSmall value = (value < 128) ⊎ ((int_mod - 128 ≤ value) × (value < int_mod))

-- What `readFields` keeps of an `int`, its low byte with the sign, is the whole number exactly if
-- it lies between -128 and 127.
pub narrow-eq_iff : (value : ℕ) → value < int_mod → (narrow value ≡ value) ↔ IsSmall value
unfolding narrow
narrow-eq_iff value h = ground arith

unfoldable pub int_wire : ℕ → List ℕ
int_wire value = le_bytes 8 4 ++ le_bytes 4 value

module _ ⦃net : Asio⦄ where
  open net use {Socket, read, write}

  pub Writes-value : (value : ℕ) → Writes (write_value (some value)) (int_wire value) 4
  unfolding write_value int_wire
  Writes-value value = Writes-bind _ _ (Writes-write (le_bytes 8 4)) (
      Writes-bind_quiet _ _ (Writes-write (le_bytes 4 value))
        (rw (length-le_bytes 4 value) (Writes-pure 4)))

  pub Receives-value :
      (old : Option ℕ) (value : ℕ)
      → Receives (read_value old) (int_wire value) (some (narrow value), 4)
  unfolding read_value int_wire narrow
  Receives-value old value =
      Receives-bind _ _ (Receives-read 8 (le_bytes 8 4) (length-le_bytes 8 4)) (
        rw (le_value-le_bytes 8 4 (omega arith)) (
          Receives-bind_quiet _ _ (Receives-read 4 (le_bytes 4 value) (length-le_bytes 4 value))
            (rw (length-le_bytes 4 value) (unfold le_bytes in Receives-pure _))))
