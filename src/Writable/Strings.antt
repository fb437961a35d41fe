-- ===== src/Writable/Strings.antt =====
-- A string sent by `writeString` is the string that `readString` returns.
use p_rpc.Base.{
  ℕ, ◌+◌, ◌%◌, ◌^◌, List, [], ◌∷◌, ◌++◌, false, ◌==◌, length, le_bytes, le_value, int_mod, ◌≡◌, ◌<◌,
  arith, All, length-le_bytes, le_value-le_bytes, refl, lt→ltb, le→ltb, ◌-◌,
}
use p_rpc.Socket.{Asio}
use p_rpc.Socket.Link.{
  Writes, Receives, Writes-bind, Writes-pure, Writes-write, Receives-bind, Receives-pure,
  Receives-read, Writes-bind_quiet, Receives-bind_quiet,
}
use p_rpc.Writable.{c_string, write_string, read_string}

abbrev pub IsChar : ℕ → Type 0
IsChar b = (0 < b) × (b < 256)

-- A string that arrives as it was sent: not empty, no NUL in it, and a size that is an `int` with
-- one to spare.
pub record IsText (str : List ℕ) : Type 0 where
  pub chars : All IsChar str
  pub not_empty : 0 < length str
  pub short : length str + 1 < 2 ^ 31

-- The wire format of a string.
unfoldable pub string_wire : List ℕ → List ℕ
string_wire str = le_bytes 4 (length str) ++ str

pub c_string_lem : (str : List ℕ) → All IsChar str → c_string str ≡ str
unfolding c_string
c_string_lem [] h = refl
c_string_lem (b ∷ bs) h = ground (arith, c_string_lem bs h.1)

module _ ⦃net : Asio⦄ where
  open net use {Socket, read, write}

  pub Writes-string :
      (str : List ℕ) → IsText str → Writes (write_string str) (string_wire str) (length str)
  unfolding write_string string_wire
  Writes-string str t =
      rw (fits, sent_something)
        (Writes-bind _ _ (Writes-write _)
          (Writes-bind_quiet _ _ (Writes-write str) (rw fits (Writes-pure (length str)))))
    where
      fits : length str % int_mod ≡ length str
      fits = omega arith

      sent_something : (length str == 0) ≡ false
      sent_something = ground arith

  pub Receives-string : (str : List ℕ) → IsText str → Receives read_string (string_wire str) str
  unfolding read_string string_wire
  Receives-string str t = Receives-bind _ _ (Receives-read 4 _ (length-le_bytes 4 (length str))) (
      rw
        (
          decoded,
          lt→ltb 0 (length str) t.not_empty,
          le→ltb (2 ^ 31 - 1) (length str) (omega arith),
          lt→ltb _ _ t.short,
        )
        (Receives-bind_quiet _ _ (Receives-read (length str) str refl)
          (rw (lt→ltb 0 (length str) t.not_empty, c_string_lem str t.chars) (Receives-pure str))))
    where
      decoded : le_value (le_bytes 4 (length str)) ≡ length str
      decoded = le_value-le_bytes 4 (length str) (omega arith)
