-- ===== src/Exchange/Frames.antt =====
-- The frames on the wire: what is at the front of a stream is one request only, and one response only.
use p_rpc.Base.{
  ◌≢◌, ℕ, ◌<◌, ◌+◌, ◌≡◌, refl, sym, ap, ◌∙◌, List, [], ◌∷◌, ◌++◌, arith, le_bytes, le_value,
  length-le_bytes, le_value-le_bytes, int_mod, append_same, char_to_int, append_assoc, length,
  length-append, All,
}
use p_rpc.Client.Connection.Threads.{Response, wire_of, wires}
use p_rpc.IntWritable.Narrow.{narrow, int_wire}
use p_rpc.MethodWritable.Wire.{IsSendable, depth_params}
use p_rpc.Server.Call.{Call}
use p_rpc.Server.Call.Request.{request_wire, requested, Reads-call}
use p_rpc.Server.Connection.Sending.{response_wire}
use p_rpc.Server.Handler.Answer.{served}
use p_rpc.Server.Responder.Framing.{responses}
use p_rpc.Socket.{Result}
use p_rpc.Socket.Simulated.{simulated, Stream}
use p_rpc.Writable.{Params, method_writable, Writable}

-- Two requests at the front of the same bytes make the same call, and the same bytes come after them.
pub request_unique :
    (conn id id' : ℕ) {c m c' m' : List ℕ} (ps ps' : Params) (rest rest' : List ℕ)
    → id < int_mod
    → id' < int_mod
    → IsSendable (method_writable c m ps)
    → IsSendable (method_writable c' m' ps')
    → request_wire id (method_writable c m ps) ++ rest
      ≡ request_wire id' (method_writable c' m' ps') ++ rest'
    → (requested conn id c m ps ≡ requested conn id' c' m' ps') × (rest ≡ rest')
request_unique conn id id' ps ps' rest rest' k k' h h' e =
    let fuel = depth_params ps + depth_params ps' + 1 in
    let (s, run, p, _, _) =
      (Reads-call fuel conn id ps k h (omega arith)).run
        (record { pending = request_wire id (method_writable _ _ ps) ++ rest; sent = []; room = 0 })
        rest refl in
    let (s', run', p', _, _) =
      (Reads-call fuel conn id' ps' k' h' (omega arith)).run
        (record { pending = request_wire id (method_writable _ _ ps) ++ rest; sent = []; room = 0 })
        rest' e in
    let same = sym run ∙ run' in
    (
      ap (λ (r : Result _ × (Call × Stream)). r.1.0) same,
      sym p ∙ ap (λ (r : Result _ × (Call × Stream)). r.1.1.pending) same ∙ p',
    )

pub request-not_nil : (id : ℕ) (w : Writable) (rest : List ℕ) → request_wire id w ++ rest ≢ []
unfolding request_wire le_bytes
request-not_nil id w rest e = cc

pub served_frame :
    (call : Call) (v : ℕ) → response_wire (served call v) ≡ le_bytes 4 call.call_id ++ int_wire v
unfolding response_wire int_wire
served_frame call v =
    rw (length-le_bytes 4 v) (append_assoc (le_bytes 4 call.call_id) (le_bytes 8 4) (le_bytes 4 v))

low_byte : (v v' : ℕ) → le_bytes 4 v ≡ le_bytes 4 v' → narrow v ≡ narrow v'
unfolding le_bytes narrow
low_byte v v' e = ap char_to_int (ap first e)
  where
    first : List ℕ → ℕ
    first [] = 0
    first (b ∷ bs) = b

-- A response of a number is the one to the call with its id, and the client gets its number.
pub response_unique :
    (call : Call) (v : ℕ) (r : Response)
    → call.call_id < int_mod
    → r.id < int_mod
    → response_wire (served call v) ≡ wire_of r
    → (call.call_id ≡ r.id) × (narrow v ≡ narrow r.value)
unfolding int_wire
response_unique call v r k k' e =
    let (ids, values) =
      append_same (le_bytes 4 call.call_id) (le_bytes 4 r.id) (int_wire v) (int_wire r.value)
        (length-le_bytes 4 call.call_id ∙ sym (length-le_bytes 4 r.id))
        (sym (served_frame call v) ∙ e) in
    (
      sym (le_value-le_bytes 4 call.call_id k) ∙ ap le_value ids ∙ le_value-le_bytes 4 r.id k',
      low_byte v r.value
          (append_same (le_bytes 8 4) (le_bytes 8 4) (le_bytes 4 v) (le_bytes 4 r.value) refl
            values).1,
    )

pub length_wire : (r : Response) → length (wire_of r) ≡ 16
unfolding int_wire
length_wire r = omega (
  arith,
  length-append (le_bytes 4 r.id) (int_wire r.value),
  length-append (le_bytes 8 4) (le_bytes 4 r.value),
  length-le_bytes 4 r.id,
  length-le_bytes 8 4,
  length-le_bytes 4 r.value,
)

pub length-served : (call : Call) (v : ℕ) → length (response_wire (served call v)) ≡ 16
length-served call v =
    ap length (served_frame call v) ∙ length_wire (record { id = call.call_id; value = v })

-- The responses at the front of the responses to calls with a number are responses to these calls.
pub responses_found :
    (Q : Call → Type 0)
    → ((call : Call) → Q call → length (response_wire call) ≡ 16)
    → (left : List Call) (arrived : List Response) (rest : List ℕ) → All Q left
    → wires arrived ++ rest ≡ responses left
    → All (λ r. (call : Call) × Q call × (response_wire call ≡ wire_of r)) arrived
responses_found Q long left [] rest h e = tt
responses_found Q long [] (r ∷ arrived) rest h e = absurd (
    omega (
      arith,
      ap length e,
      length_wire r,
      length-append (wire_of r) (wires arrived),
      length-append (wires (r ∷ arrived)) rest,
    ))
responses_found Q long (call ∷ left) (r ∷ arrived) rest h e =
    let (same, others) =
      append_same (wire_of r) (response_wire call) (wires arrived ++ rest) (responses left)
        (length_wire r ∙ sym (long call h.0))
        (sym (append_assoc (wire_of r) (wires arrived) rest) ∙ e) in
    ((call, h.0, sym same), responses_found Q long left arrived rest h.1 others)
