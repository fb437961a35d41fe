-- ===== src/Main.antt =====
-- main.cpp, src/Test1.cpp and src/Test2.cpp: the command line, and the programs that the tests run in
-- each of their threads. The text that is printed is not modelled; `terminate` stands in
-- `Server.Lifecycle`.
pub mod Ports
pub mod Choosing
mod Tests
use p_rpc.Writable.{Writable, print_to_string, method_writable, int_writable, cons, nil}
use p_rpc.Base.{
  List, ℕ, Bool, if◌then◌else◌, Option, leb, ltb, minus_one, ◌==◌, length, ◌||◌, ◌&&◌, bytes_eq,
  some, codes, ◌∷◌, suc, int_mod, [], none, ◌*◌, ◌-◌, ◌+◌, zero, ◌^◌, ◌%◌,
}
use p_rpc.Socket.{
  ◌>>=◌, ◌>>◌, Asio, Result, Eff, ok, throws, pure, crash, fail, null_pointer, evaluate,
}
use p_rpc.Rpc
use p_rpc.Rpc.{ClientCache, Setting, DataNodeProtocol, invoke}
use p_rpc.Client.Registry.{Client, call}
use p_rpc.Client.Connection.{Connection}

abbrev pub is_space : ℕ → Bool
is_space b = b == b' ' || (leb 9 b && leb b 13)

abbrev pub is_digit : ℕ → Bool
is_digit b = leb b'0' b && leb b b'9'

unfoldable pub skip_spaces : List ℕ → List ℕ
skip_spaces [] = []
skip_spaces (b ∷ bs) = if is_space b then skip_spaces bs else b ∷ bs

-- The number that the digits before anything else make, after those that made `value`.
unfoldable pub digits_value : ℕ → List ℕ → ℕ
digits_value value [] = value
digits_value value (b ∷ bs) =
    if is_digit b then digits_value (value * 10 + (b - b'0')) bs else value

abbrev pub min : ℕ → ℕ → ℕ
min a b = if leb a b then a else b

-- A text after its spaces: `atoi` is `strtol`, which stops at the ends of a `long`, cut to an `int`.
abbrev pub signed_value : List ℕ → ℕ
signed_value [] = 0
signed_value (b ∷ bs) =
    if b == b'-'
    then (int_mod - min (digits_value 0 bs) (2 ^ 63) % int_mod) % int_mod
    else min (digits_value 0 (if b == b'+' then bs else b ∷ bs)) (2 ^ 63 - 1) % int_mod

-- `atoi`
unfoldable pub atoi : List ℕ → ℕ
atoi str = signed_value (skip_spaces str)

-- What the command line asks for: to be told its usage, or a client of a server, or a server.
pub data Choice : Type 0 where
  no_type client_usage server_usage unrecognized : Choice
  client : List ℕ → ℕ → Choice
  server : ℕ → Choice

unfoldable pub arg : ℕ → List (List ℕ) → List ℕ
arg i [] = []
arg zero (a ∷ args) = a
arg (suc i) (a ∷ args) = arg i args

-- The tests of `argc` and `argv`.
unfoldable pub choose : List (List ℕ) → Choice
choose argv =
    if ltb (length argv) 2
    then no_type
    else (if bytes_eq (arg 1 argv) (codes "-c")
        then (if ltb (length argv) 4 then client_usage else client (arg 2 argv) (atoi (arg 3 argv)))
        else (if bytes_eq (arg 1 argv) (codes "-s")
            then (if ltb (length argv) 3 then server_usage else server (atoi (arg 2 argv)))
            else unrecognized))

abbrev pub status_of : Result (Unit {0}) → Result ℕ
status_of (ok u) = ok 0
status_of (throws e) = ok minus_one
status_of (crash e) = crash e

abbrev pub main_of : (List ℕ → ℕ → Result (Unit {0})) → (ℕ → Result (Unit {0})) → Choice → Result ℕ
main_of run_client run_server no_type = ok minus_one
main_of run_client run_server client_usage = ok minus_one
main_of run_client run_server server_usage = ok minus_one
main_of run_client run_server unrecognized = ok minus_one
main_of run_client run_server (client host port) = status_of (run_client host port)
main_of run_client run_server (server port) = status_of (run_server port)

-- `main`, with how the client's tests and the server end.
unfoldable pub main :
    (List ℕ → ℕ → Result (Unit {0})) → (ℕ → Result (Unit {0})) → List (List ℕ) → Result ℕ
main run_client run_server argv = main_of run_client run_server (choose argv)

module _ ⦃net : Asio⦄ where
  -- `val->printToString()` of a value that may be NULL.
  abbrev pub print_value : {S : Type 0} → Option Writable → Eff S (Unit {0})
  print_value none = fail null_pointer
  print_value (some val) = evaluate (print_to_string val)

  -- What one call of a test meets.
  pub record Turn : Type 0 where
    pub address : ℕ
    pub memory : ℕ → Connection
    pub setting : Setting

  -- `Test1::test1`, with a client of its own; the list has an entry for each repetition.
  unfoldable pub test1 : ℕ → List Setting → Eff Client (Unit {0})
  test1 ep [] = pure tt
  test1 ep (env ∷ envs) = do
    val ←
        call env.system ep
          (method_writable (codes "FSNameSystem") (codes "create")
            (cons (int_writable (some 10)) (cons (int_writable (some 20)) nil)))
          (codes "IntWritable") env.should_stop env.rounds
    print_value val
    test1 ep envs

  -- `Test1::test10`
  unfoldable pub test10 : ℕ → List Turn → Eff ClientCache (Unit {0})
  test10 ep [] = pure tt
  test10 ep (t ∷ ts) = do
    val ←
        invoke t.address t.memory Rpc.standard t.setting ep (codes "IntWritable")
          (codes "FSNameSystem") (codes "create") (int_writable (some 10))
          (int_writable (some 20) ∷ [])
    print_value val
    test10 ep ts

  -- `Test2::test21`
  unfoldable pub test21 : DataNodeProtocol → List Turn → Eff ClientCache (Unit {0})
  test21 namenode [] = pure tt
  test21 namenode (t ∷ ts) = do
    res ← Rpc.create t.address t.memory t.setting namenode (some 12) (some 23) (some 34) (some 45)
    print_value res
    test21 namenode ts

  -- `thread` threads from the index `i` on, each with its program.
  abbrev pub threads_from : {A : Type 0} → (ℕ → A) → ℕ → ℕ → List A
  threads_from program i zero = []
  threads_from program i (suc thread) = program i ∷ threads_from program (i + 1) thread

  -- `Test1::test2`: the programs of the threads that it starts and joins.
  unfoldable pub test2 : ℕ → ℕ → (ℕ → List Setting) → List (Eff Client (Unit {0}))
  test2 ep thread envs = threads_from (λ i. test1 ep (envs i)) 0 thread

  -- `Test1::test20`; the threads share the clients of the cache.
  unfoldable pub test20 : ℕ → ℕ → (ℕ → List Turn) → List (Eff ClientCache (Unit {0}))
  test20 ep thread turns = threads_from (λ i. test10 ep (turns i)) 0 thread

  -- `Test2::test20`
  unfoldable pub protocol_threads :
      DataNodeProtocol → ℕ → (ℕ → List Turn) → List (Eff ClientCache (Unit {0}))
  protocol_threads namenode thread turns = threads_from (λ i. test21 namenode (turns i)) 0 thread
