-- ===== src/Server/Call.antt =====
-- include/Call.h and src/Call.cpp: a call on the server.
pub mod Request
use p_rpc.Base.{
  ℕ, ◌<◌, ◌^◌, List, Bool, true, false, Option, none, some, leb, if◌then◌else◌, length, le_bytes,
  le_value, [],
}
use p_rpc.Socket.{
  Result, ok, throws, crash, null_pointer, Eff, pure, ◌>>=◌, ◌>>◌, continue, catch, Asio,
}
use p_rpc.Socket.Link.{lift, modify}
use p_rpc.Writable.{Writable, Params, nil, to_string, write_string}
use p_rpc.MethodWritable.{Target, read_target, read_fields}

-- `target` holds `_class`, `_method` and `_params`; `connection` is the key of the connection in
-- `_connections`, and `none` is NULL.
pub record Call : Type 0 where
  pub connection : Option ℕ
  pub call_id : ℕ
  pub target : Target
  pub open target use *
  pub value : Option Writable
  pub pos : ℕ
  pub str_val : List ℕ

-- `Call(conn)`
unfoldable pub new_call : Option ℕ → Call
new_call conn = record {
  connection = conn;
  call_id = 0;
  target = record { class_name = []; method_name = []; params = nil };
  value = none;
  pos = 0;
  str_val = [];
}

abbrev pub set_id : ℕ → Call → Call
set_id id c = record c { call_id = id }

abbrev pub set_pos : ℕ → Call → Call
set_pos pos c = record c { pos = pos }

abbrev pub with_value : Writable → Call → Result (List ℕ) → Result Call
with_value v c (ok text) = ok (record c { str_val = text; value = some v })
with_value v c (throws e) = throws e
with_value v c (crash e) = crash e

-- `setValue`, which calls the `toString` of a value that may be NULL.
unfoldable pub set_value : Option Writable → Call → Result Call
set_value none c = crash null_pointer
set_value (some v) c = with_value v c (to_string v)

module _ ⦃net : Asio⦄ where
  open net use {Socket, read, write}

  abbrev pub in_call :
      {A : Type 0} → Call → Result A × (Target × Socket) → Result A × (Call × Socket)
  in_call c (r, (t, s)) = (r, (record c { target = t }, s))

  -- A computation over the class, the method and the parameters of a call.
  abbrev pub on_target : {A : Type 0} → Eff (Target × Socket) A → Eff (Call × Socket) A
  on_target m (c, s) = in_call c (m (c.target, s))

  -- After the id come the statements of the body of `MethodWritable::readFields`. `return -1` is
  -- the result true.
  unfoldable pub read_after_id : ℕ → List ℕ → Eff (Call × Socket) Bool
  read_after_id fuel bytes =
      if leb (length bytes) 0
      then pure true
      else (on_target (read_target (read_fields fuel)) >>= λ _. pure true)

  -- The body of the `try` of `read`.
  unfoldable pub read_body : ℕ → Eff (Call × Socket) Bool
  read_body fuel = do
    bytes ← lift (read 4)
    modify (set_id (le_value bytes))
    read_after_id fuel bytes

  abbrev read_connected : ℕ → Option ℕ → Eff (Call × Socket) Bool
  read_connected fuel none = pure false
  read_connected fuel (some conn) = catch (read_body fuel) (pure false)

  -- `read`; the fuel bounds how deep parameters are nested.
  unfoldable pub read_call : ℕ → Eff (Call × Socket) Bool
  read_call fuel (c, s) = read_connected fuel c.connection (c, s)

  -- `write`
  unfoldable pub write_call : Call → Eff Socket Bool
  write_call c =
      catch (do write (le_bytes 4 c.call_id); write_string c.str_val; pure true) (pure false)
