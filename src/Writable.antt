-- ===== src/Writable.antt =====
-- include/Writable.h and src/Writable.cpp: the values that travel, and strings on the wire. A
-- `tcp::socket*` that the code compares with NULL is never NULL here: each caller passes the socket
-- of a connection.
pub mod Strings
use p_rpc.Base.{
  ℕ, zero, suc, ◌+◌, ◌%◌, ◌^◌, List, [], ◌∷◌, ◌++◌, Bool, true, false, Option, none, some, ltb,
  ◌==◌, if◌then◌else◌, length, le_bytes, le_value, int_mod, codes, is_negative, ◌&&◌, not,
}
use p_rpc.Socket.{
  Result, Error, logic_error, bad_alloc, Eff, pure, raise, ◌>>=◌, ◌>>◌, continue, Asio, throws,
  crash, undefined_behaviour, ok,
}

-- `Writable` and its subclasses. The value of an `IntWritable` is the bit pattern of an `int`;
-- `none` is a value that was never set. `Params` is `vector<shared_ptr<Writable>>`.
mutual
  pub data Writable : Type 0 where
    writable : Writable
    int_writable : (value : Option ℕ) → Writable
    method_writable : (class_name method_name : List ℕ) → (params : Params) → Writable

  pub data Params : Type 0 where
    nil : Params
    cons : Writable → Params → Params

unfoldable pub size : Params → ℕ
size nil = 0
size (cons w ps) = suc (size ps)

unfoldable pub push_back : Params → Writable → Params
push_back nil w = cons w nil
push_back (cons v ps) w = cons v (push_back ps w)

-- `_params[i] = w` for the last index.
unfoldable pub set_back : Params → Writable → Params
set_back nil w = nil
set_back (cons v nil) w = cons w nil
set_back (cons v (cons u ps)) w = cons v (set_back (cons u ps) w)

unfoldable pub get_elem? : Params → ℕ → Option Writable
get_elem? nil i = none
get_elem? (cons w ps) zero = some w
get_elem? (cons w ps) (suc i) = get_elem? ps i

abbrev pub int_class : List ℕ
int_class = codes "IntWritable"

abbrev pub method_class : List ℕ
method_class = codes "MethodWritable"

unfoldable pub get_class : Writable → List ℕ
get_class writable = codes "Writable"
get_class (int_writable value) = int_class
get_class (method_writable c m ps) = method_class

-- `IntWritable::toString`
abbrev pub int_string : ℕ → Result (List ℕ)
int_string value = ok (le_bytes 4 value)

-- `MethodWritable::toString`
abbrev pub method_string : Result (List ℕ)
method_string = throws logic_error

-- `toString`: the four bytes of an `int`; the other classes return NULL as a string.
unfoldable pub to_string : Writable → Result (List ℕ)
to_string writable = throws logic_error
to_string (int_writable none) = crash undefined_behaviour
to_string (int_writable (some value)) = int_string value
to_string (method_writable c m ps) = method_string

-- Whether `printToString` returns: it is called for the log, whose text is not modelled.
unfoldable pub print_to_string : Writable → Result (Unit {0})
print_to_string writable = throws logic_error
print_to_string (int_writable none) = crash undefined_behaviour
print_to_string (int_writable (some value)) = ok tt
print_to_string (method_writable c m ps) = ok tt

-- The string that `std::string(const char*)` makes: what stands before the first NUL.
unfoldable pub c_string : List ℕ → List ℕ
c_string [] = []
c_string (b ∷ bs) = if b == 0 then [] else b ∷ c_string bs

module _ ⦃net : Asio⦄ where
  open net use {Socket, read, write}

  -- `writeString`; the size is cut to an `int`, and an empty string is not sent at all.
  unfoldable pub write_string : List ℕ → Eff Socket ℕ
  write_string str =
      let len = length str % int_mod in
      if len == 0
      then pure 0
      else do write (le_bytes 4 len); send_length ← write str; pure (send_length % int_mod)

  -- The part of `readString` after the length. `new char[length + 1]` overflows at the last `int`;
  -- `return NULL` builds a string from a null pointer.
  unfoldable pub read_chars : ℕ → Eff Socket (List ℕ)
  read_chars len =
      if ltb 0 len && not (is_negative len)
      then (if ltb (len + 1) (2 ^ 31)
          then (do
            chars ← read len
            if ltb 0 (length chars) then pure (c_string chars) else raise logic_error)
          else raise bad_alloc)
      else raise logic_error

  unfoldable pub read_string : Eff Socket (List ℕ)
  unfolding read_chars
  read_string = do bytes ← read 4; read_chars (le_value bytes)
