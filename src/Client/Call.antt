-- ===== src/Client/Call.antt =====
-- `Client::Call` of include/Client.h: a call that waits for its value.
use p_rpc.BlockQueue.{wait_for}
use p_rpc.Base.{
  ℕ, List, Bool, true, false, Option, none, some, leb, if◌then◌else◌, le_bytes, is_negative, ◌∷◌,
  [],
}
use p_rpc.Socket.{Eff, pure, ◌>>=◌, Asio, evaluate, Result, ok, throws, crash}
use p_rpc.Writable.{Writable, to_string, print_to_string}
use p_rpc.MethodWritable.{write_fields}

pub record Call : Type 0 where
  pub value_class : List ℕ
  pub id : ℕ
  pub param : Writable
  pub value : Option Writable
  pub done : Bool

-- The constructor of a call with its parameter and the class of its value; the id comes later.
unfoldable pub new_call : Writable → List ℕ → Call
new_call p value_class = record {
  value_class = value_class;
  id = 0;
  param = p;
  value = none;
  done = false;
}

abbrev told : Call → Result (Unit {0}) → Result (Unit {0}) × Call
told c (ok u) = (ok tt, record c { done = true })
told c (throws e) = (throws e, c)
told c (crash e) = (crash e, c)

-- `setValue`: the value is kept, then printed to the log, and then the waiting thread is told.
unfoldable pub set_value : Writable → Eff Call (Unit {0})
set_value val c = told (record c { value = some val }) (print_to_string val)

-- `wait`, over the state in which `done` tells whether the call is done. A round is what the other
-- threads do while `wait_for` waits; without further rounds the thread waits still if it is not done.
unfoldable pub wait {ℓ} : {S : Type ℓ} → (S → Bool) → List (List (S → S)) → S → Bool × S
wait done [] s = (done s, s)
wait done (others ∷ rounds) s =
    let (s', woken) = wait_for done others s in
    let rest = wait done rounds s' in
    if done s then (true, s) else (if woken then (true, s') else rest)

module _ ⦃net : Asio⦄ where
  open net use {Socket, write}

  -- The end of `write`: a failure is logged with the `toString` of the parameter, which may throw.
  abbrev pub report : Writable → ℕ → Eff Socket Bool
  report p ret =
      if is_negative ret then (evaluate (to_string p) >>= λ text. pure false) else pure true

  unfoldable pub write_call : Call → Eff Socket Bool
  write_call c = do
    l ← write (le_bytes 4 c.id)
    if leb l 0 then pure false else write_fields c.param >>= report c.param
