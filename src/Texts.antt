-- ===== src/Texts.antt =====
-- The texts that the code makes of its objects: `toString`, `printToString` and `print`, for the log,
-- and the keys of the client's connections. The text of an address is what asio makes.
pub mod Keys
mod Tests
use p_rpc.Base.{
  [], ◌∷◌, ◌≡◌, List, ℕ, ◌++◌, if◌then◌else◌, some, codes, ◌+◌, refl, is_negative, none, int_mod,
  ◌-◌,
}
use p_rpc.Writable.{
  Writable, writable, int_writable, method_writable, Params, cons, nil, to_string, print_to_string,
}
use p_rpc.Socket.{Result, ok, throws, crash, undefined_behaviour, logic_error}
use p_rpc.Server
use p_rpc.Client
use p_rpc.Main.Ports.{decimal}

abbrev pub decimal_text : ℕ → List ℕ
decimal_text n = decimal (n + 1) n []

-- `ss << value` and `std::to_string(value)` of an `int`.
unfoldable pub int_text : ℕ → List ℕ
int_text value =
    if is_negative value then b'-' ∷ decimal_text (int_mod - value) else decimal_text value

-- `MethodWritable::printToString`
unfoldable pub method_text : List ℕ → List ℕ → List ℕ
method_text class method = codes "class : " ++ (class ++ (codes " , method : " ++ method))

-- `printToString`, with the text.
unfoldable pub print_text : Writable → Result (List ℕ)
print_text writable = throws logic_error
print_text (int_writable none) = crash undefined_behaviour
print_text (int_writable (some value)) = ok (int_text value)
print_text (method_writable c m ps) = ok (method_text c m)

-- `Server::Call::toString`
unfoldable pub call_text : Server.Call.Call → List ℕ
call_text call =
    codes "call_id "
    ++ (int_text call.call_id
        ++ (codes ", class " ++ (call.class_name ++ (codes " , method " ++ call.method_name))))

abbrev pub append_text : List ℕ → Result (List ℕ) → Result (List ℕ)
append_text before (ok text) = ok (before ++ text)
append_text before (throws e) = throws e
append_text before (crash e) = crash e

abbrev pub and_text : Result (List ℕ) → Result (List ℕ) → Result (List ℕ)
and_text (ok before) next = append_text before next
and_text (throws e) next = throws e
and_text (crash e) next = crash e

-- The loop of `print`, from the parameter with the index `i`. It calls `toString`, which has the
-- bytes of a number and throws for a method.
unfoldable pub params_text : ℕ → Params → Result (List ℕ)
params_text i nil = ok []
params_text i (cons w ps) =
    and_text (append_text (codes "\n param " ++ (decimal_text i ++ codes " : ")) (to_string w))
      (params_text (i + 1) ps)

-- `Server::Call::print`
unfoldable pub print_call : Server.Call.Call → Result (List ℕ)
print_call call = append_text (call_text call) (params_text 0 call.params)

-- `Client::Call::toString`
unfoldable pub client_call_text : Client.Call.Call → Result (List ℕ)
client_call_text call =
    append_text
      (codes "call id : "
        ++ (int_text call.id
            ++ (codes ", value class: " ++ (call.value_class ++ codes ", param : "))))
      (print_text call.param)

-- `Server::Connection::toString`
unfoldable pub connection_text : List ℕ → ℕ → List ℕ
connection_text address port = b'<' ∷ (address ++ (codes " : " ++ (decimal_text port ++ b'>' ∷ [])))

-- The key of an endpoint in the client's `_connections`, and `Client::Connection::toString`.
unfoldable pub key_text : List ℕ → ℕ → List ℕ
key_text address port = address ++ b':' ∷ decimal_text port

-- Whether a text was made.
abbrev pub made : Result (List ℕ) → Result (Unit {0})
made (ok text) = ok tt
made (throws e) = throws e
made (crash e) = crash e

pub made-print_text : (w : Writable) → made (print_text w) ≡ print_to_string w
unfolding print_text print_to_string
made-print_text writable = refl
made-print_text (int_writable none) = refl
made-print_text (int_writable (some value)) = refl
made-print_text (method_writable c m ps) = refl
