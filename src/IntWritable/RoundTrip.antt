-- ===== src/IntWritable/RoundTrip.antt =====
-- An `int` that one side writes and the other reads.
use p_rpc.Base.{
  ℕ, ◌≡◌, ◌<◌, ◌≤◌, ◌++◌, ◌↔◌, List, Option, some, int_mod, length, length-append, length-le_bytes,
  le_bytes, arith,
}
use p_rpc.IntWritable.{write_value, read_value}
use p_rpc.IntWritable.Narrow.{
  IsSmall, narrow-eq_iff, narrow, int_wire, Writes-value, Receives-value,
}
use p_rpc.Socket.{Asio, ok}

pub length-int_wire : (value : ℕ) → length (int_wire value) ≡ 12
unfolding int_wire
length-int_wire value = omega (
  arith,
  length-append (le_bytes 8 4) (le_bytes 4 value),
  length-le_bytes 8 4,
  length-le_bytes 4 value,
)

module _ ⦃net : Asio⦄ where
  open net use {Socket, pending, sent, room}

  -- The value is written to `s` as `bytes`; where these come in, they are read into an object with the
  -- value `old`, and nothing more is. Its value is then the one that was written exactly if that one
  -- is small.
  pub record Transfers (old : Option ℕ) (value : ℕ) (s : Socket) : Type 0 where
    pub bytes : List ℕ
    pub after : Socket
    pub written : write_value (some value) s ≡ (ok 4, after)
    pub appended : sent after ≡ sent s ++ bytes
    pub got : ℕ
    pub read_back :
        (t : Socket) (rest : List ℕ)
        → pending t ≡ bytes ++ rest
        → (t' : Socket) × (read_value old t ≡ (ok (some got, 4), t'))
          × (pending t' ≡ rest)
          × (sent t' ≡ sent t)
    pub exact : (got ≡ value) ↔ IsSmall value

  -- Let a connection stand for the 12 bytes of an `int`. `write` sends its length and its bytes and
  -- returns 4; where they come in, with whatever after them, `readFields` takes exactly them, returns
  -- 4 and sends nothing, and the value of the object, whatever it was, becomes one that is equal to
  -- the written one exactly if that one lies between -128 and 127.
  pub read_value-write_value :
      (old : Option ℕ) (value : ℕ) (s : Socket)
      → value < int_mod
      → 12 ≤ room s
      → Transfers old value s
  read_value-write_value old value s h fits =
      let (s', e, t, _, _) = (Writes-value value).run s (omega (arith, length-int_wire value)) in
      record {
        bytes = int_wire value;
        after = s';
        written = e;
        appended = t;
        got = narrow value;
        read_back = λ t rest p.
            let (t', r, q, x, _) = (Receives-value old value).run t rest p in (t', r, q, x);
        exact = narrow-eq_iff value h;
      }
