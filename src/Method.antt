-- ===== src/Method.antt =====
-- include/Method.h, src/Method.cpp and include/NameNode.h: the calls that the server executes, by
-- class and method name, and new objects by class name.
pub mod Dispatch
mod Tests
use p_rpc.Base.{
  ℕ, ◌+◌, ◌%◌, List, Bool, true, false, Option, none, some, if◌then◌else◌, codes, bytes_eq, int_mod,
  ◌&&◌,
}
use p_rpc.Socket.{Result, ok, throws, crash, Fault, null_pointer, out_of_range, undefined_behaviour}
use p_rpc.Writable.{Writable, writable, int_writable, method_writable, Params, nil, get_elem?}

-- `getNewInstance`: a new object has no value yet, or empty names and no parameters.
unfoldable pub get_new_instance : List ℕ → Writable
get_new_instance class =
    if bytes_eq class (codes "IntWritable")
    then int_writable none
    else (if bytes_eq class (codes "MethodWritable")
        then method_writable (codes "") (codes "") nil
        else writable)

-- `dynamic_pointer_cast<IntWritable>(params[i])->get()`, which `create` calls on each argument.
abbrev pub int_of : Option Writable → Result ℕ
int_of none = crash out_of_range
int_of (some writable) = crash null_pointer
int_of (some (int_writable none)) = crash undefined_behaviour
int_of (some (int_writable (some value))) = ok value
int_of (some (method_writable c m ps)) = crash null_pointer

infixl 5 ◌>>=◌
abbrev pub ◌>>=◌ : {A B : Type 0} → Result A → (A → Result B) → Result B
ok a >>= f = f a
throws e >>= f = throws e
crash e >>= f = crash e

-- `NameNode::create`; the sum of four `int` wraps.
unfoldable pub create : Params → Result Writable
create params = do
  a ← int_of (get_elem? params 0)
  b ← int_of (get_elem? params 1)
  c ← int_of (get_elem? params 2)
  d ← int_of (get_elem? params 3)
  ok (int_writable (some ((a + b + c + d) % int_mod)))

-- `call`; `none` is NULL.
unfoldable pub call : List ℕ → List ℕ → Params → Result (Option Writable)
unfolding create
call class method params =
    if bytes_eq class (codes "FSNameSystem")
    then (if bytes_eq method (codes "create") then ok (some (int_writable (some 32))) else ok none)
    else (if bytes_eq class (codes "NameNode") && bytes_eq method (codes "create")
        then (create params >>= (λ w. ok (some w)))
        else ok none)
