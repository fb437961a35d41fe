-- ===== src/IntWritable.antt =====
-- include/IntWritable.h and src/IntWritable.cpp: an `int` on the wire, as a `size_t` length and the
-- bytes in memory order.
pub mod Narrow
pub mod RoundTrip
mod Tests
use p_rpc.Base.{
  ℕ, zero, suc, ◌+◌, ◌-◌, ◌%◌, ◌^◌, List, [], ◌∷◌, ◌++◌, Bool, true, false, Option, none, some, ltb,
  ◌==◌, if◌then◌else◌, length, le_bytes, le_value, int_mod, size_mod, minus_one, char_to_int,
}
use p_rpc.Socket.{
  Result, Error, bad_alloc, Fault, undefined_behaviour, Eff, pure, raise, fail, ◌>>=◌, ◌>>◌,
  continue, Asio,
}

-- `*reinterpret_cast<const char*>(buf.get())`: the first byte alone, as a signed `char`. The buffer
-- ends with a NUL.
abbrev pub first_char : List ℕ → ℕ
first_char [] = char_to_int 0
first_char (b ∷ bs) = char_to_int b

module _ ⦃net : Asio⦄ where
  open net use {Socket, read, write}

  write_int : ℕ → Eff Socket ℕ
  write_int value = do
    write (le_bytes 8 4)
    l ← write (le_bytes 4 value)
    if l == 4 then pure l else pure minus_one

  -- `write`; a value that was never set is read all the same.
  unfoldable pub write_value : Option ℕ → Eff Socket ℕ
  unfolding write_int
  write_value none = fail undefined_behaviour
  write_value (some value) = write_int value

  abbrev checked_value : Option ℕ → ℕ → List ℕ → Eff Socket (Option ℕ × ℕ)
  checked_value old len buf =
      if length buf == len
      then pure (some (first_char buf), len % int_mod)
      else pure (old, minus_one)

  -- The part of `readFields` after the length. `new char[length + 1]` has no byte if the sum wraps,
  -- and is refused beyond the largest object; a failure keeps the old value.
  unfoldable pub read_value_bytes : Option ℕ → ℕ → Eff Socket (Option ℕ × ℕ)
  read_value_bytes old len =
      if len + 1 == size_mod
      then fail undefined_behaviour
      else (if ltb (2 ^ 63 - 1) (len + 1)
          then raise bad_alloc
          else (do buf ← read len; checked_value old len buf))

  -- `readFields`, with the value of the object before and after.
  unfoldable pub read_value : Option ℕ → Eff Socket (Option ℕ × ℕ)
  unfolding read_value_bytes
  read_value old = do bytes ← read 8; read_value_bytes old (le_value bytes)
