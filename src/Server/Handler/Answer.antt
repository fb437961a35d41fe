-- ===== src/Server/Handler/Answer.antt =====
-- A call of `NameNode::create` on its way from the client to the server and back.
use p_rpc.Client.Connection.{socket}
use p_rpc.Base.{
  ℕ, ◌+◌, ◌%◌, ◌<◌, ◌≡◌, refl, ◌∙◌, sym, ap, List, ◌++◌, some, arith, codes, le_bytes, int_mod,
  find, append_assoc, length-le_bytes, true, ==_refl,
}
use p_rpc.Socket.{Asio, ok}
use p_rpc.Writable.{int_writable, nil, to_string}
use p_rpc.IntWritable.Narrow.{narrow, int_wire, IsSmall, narrow-eq_iff}
use p_rpc.Method.Dispatch.{four_ints, call-four_ints}
use p_rpc.MethodWritable.Wire.{received_params}
use p_rpc.Server.Call.{Call, set_value}
use p_rpc.Server.Call.Request.{requested}
use p_rpc.Server.Connection.Sending.{response_wire}
use p_rpc.Server.Handler.{execute}
use p_rpc.Client
use p_rpc.Client.Connection.Receiving.{Answers, recv_respond-Answers}

-- The sum that the server makes of what it received of four numbers.
abbrev pub served_sum : ℕ → ℕ → ℕ → ℕ → ℕ
served_sum a b c d = (narrow a + narrow b + narrow c + narrow d) % int_mod

-- The call with its value.
abbrev pub served : Call → ℕ → Call
served call sum = record call { value = some (int_writable (some sum)); str_val = le_bytes 4 sum }

pub execute-sum :
    (conn id a b c d : ℕ)
    → let call = requested conn id (codes "NameNode") (codes "create") (four_ints a b c d nil) in
      execute call ≡ ok (served call (served_sum a b c d))
unfolding execute received_params set_value to_string
execute-sum conn id a b c d =
    rw (call-four_ints (narrow a) (narrow b) (narrow c) (narrow d) nil) refl

-- The response that the server sends: the id, and the number like a parameter.
served_wire :
    (conn id a b c d : ℕ) (rest : List ℕ)
    → let call = requested conn id (codes "NameNode") (codes "create") (four_ints a b c d nil) in
      response_wire (served call (served_sum a b c d)) ++ rest
      ≡ le_bytes 4 id ++ (int_wire (served_sum a b c d) ++ rest)
unfolding response_wire int_wire
served_wire conn id a b c d rest =
    let sum = served_sum a b c d in
    rw (length-le_bytes 4 sum) (
      ap (λ x. x ++ rest) (append_assoc (le_bytes 4 id) (le_bytes 8 4) (le_bytes 4 sum))
      ∙ append_assoc (le_bytes 4 id) (le_bytes 8 4 ++ le_bytes 4 sum) rest)

narrow-small : (value : ℕ) → IsSmall value → narrow value ≡ value
narrow-small value h = (narrow-eq_iff value (ground arith)).1 h

pub exact_sum :
    (a b c d : ℕ)
    → IsSmall a
    → IsSmall b
    → IsSmall c
    → IsSmall d
    → IsSmall ((a + b + c + d) % int_mod)
    → narrow (served_sum a b c d) ≡ (a + b + c + d) % int_mod
exact_sum a b c d ha hb hc hd h =
    rw (narrow-small a ha, narrow-small b hb, narrow-small c hc, narrow-small d hd)
      (narrow-small _ h)

ok_injective : {x y : Call} → ok x ≡ ok y → x ≡ y
ok_injective e = cc

module _ ⦃net : Asio⦄ where
  open net use {Socket, pending}

  module _ (conn : Client.Connection.Connection) (s : Socket) (call : Client.Call.Call)
      (rest : List ℕ) (id server_conn a b c d : ℕ) (response : Call)
      (connected : conn.sock ≡ socket s) (is_int : id < int_mod)
      (known : find id conn.calls ≡ some call) (class : call.value_class ≡ codes "IntWritable")
      (executed : execute
          (requested server_conn id (codes "NameNode") (codes "create") (four_ints a b c d nil))
        ≡ ok response)
      (arrives : pending s ≡ response_wire response ++ rest) where
    -- Let the server have executed a call of `NameNode::create` with four numbers, as it read it, and
    -- let its response be the next to come in at the client's connection, where the id leads to a
    -- call that expects a number. Then `recvRespond` ends, and answers that call and no other, with
    -- the number that is left of the sum of what is left of the four numbers.
    pub recv_respond-execute :
        (conn' : Client.Connection.Connection) × (Client.Connection.recv_respond 1 conn
          ≡ (ok tt, conn'))
        × Answers conn s id (served_sum a b c d) call rest conn'
    recv_respond-execute =
        recv_respond-Answers 0 conn s id (served_sum a b c d) call rest connected is_int known class
          (arrives
            ∙ ap (λ (r : Call). response_wire r ++ rest)
                (ok_injective (sym executed ∙ execute-sum server_conn id a b c d))
            ∙ served_wire server_conn id a b c d rest)

    -- Let the server have executed a call of `NameNode::create` with four numbers, as it read it,
    -- and let its response be the next to come in at the client's connection, where the id leads
    -- to a call that expects a number. If the four numbers and their sum as an `int` lie between
    -- -128 and 127, `recvRespond` ends, the value of the call is exactly the sum, and its thread
    -- is told.
    pub create-exact :
        IsSmall a
        → IsSmall b
        → IsSmall c
        → IsSmall d
        → IsSmall ((a + b + c + d) % int_mod)
        → (conn' : Client.Connection.Connection) × (Client.Connection.recv_respond 1 conn
            ≡ (ok tt, conn'))
          × (find id conn'.calls
              ≡ some (record call {
                value = some (int_writable (some ((a + b + c + d) % int_mod)));
                done = true;
              }))
    create-exact ha hb hc hd h =
        let (conn', e, answers) = recv_respond-execute in
        (
          conn',
          e,
          (rw (==_refl id) at (answers.found id))
              ∙ ap (λ x. some (record call { value = some (int_writable (some x)); done = true }))
                  (exact_sum a b c d ha hb hc hd h),
        )
