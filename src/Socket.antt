-- ===== src/Socket.antt =====
-- What the program takes from the C++ runtime and from boost::asio: how a call can end, and a
-- socket with its blocking transfers. boost::asio is an interface here: the code that follows is
-- stated for every implementation of it.
pub mod Link
pub mod Results
pub mod Simulated
pub mod Network
use p_rpc.Base.{ℕ, zero, suc, ◌+◌, ◌≤◌, ◌<◌, ◌≡◌, List, [], ◌∷◌, ◌++◌, arith, length, take, ◌-◌}

-- What `catch(...)` and `catch(exception&)` catch: the end of the stream, a connection that is
-- broken, `std::string(NULL)` (libstdc++ throws logic_error), a request that no container or
-- allocator grants.
pub data Error : Type 0 where
  eof broken_pipe logic_error length_error bad_alloc : Error

-- What nothing catches: a null pointer read, an index out of range, any other undefined behaviour,
-- and `std::abort`. `out_of_fuel` is the model's own.
pub data Fault : Type 0 where
  null_pointer out_of_range undefined_behaviour aborted out_of_fuel : Fault

pub data Result {ℓ} (A : Type ℓ) : Type ℓ where
  ok : A → Result A
  throws : Error → Result A
  crash : Fault → Result A

-- A computation over a state `S`, which keeps its changes when it ends by an exception.
abbrev pub Eff {ℓ} : Type ℓ → Type ℓ → Type ℓ
Eff S A = S → Result A × S

module _ {ℓ} {S : Type ℓ} where
  abbrev pub pure : {A : Type ℓ} → A → Eff S A
  pure a s = (ok a, s)

  abbrev pub raise : {A : Type ℓ} → Error → Eff S A
  raise e s = (throws e, s)

  abbrev pub fail : {A : Type ℓ} → Fault → Eff S A
  fail e s = (crash e, s)

  -- An expression that has no effect on the state, and may throw.
  abbrev pub evaluate : {A : Type ℓ} → Result A → Eff S A
  evaluate r s = (r, s)

  abbrev pub continue : {A B : Type ℓ} → Result A × S → (A → Eff S B) → Result B × S
  continue (ok a, s) f = f a s
  continue (throws e, s) f = (throws e, s)
  continue (crash e, s) f = (crash e, s)

  infixl 5 ◌>>=◌ ◌>>◌
  abbrev pub ◌>>=◌ : {A B : Type ℓ} → Eff S A → (A → Eff S B) → Eff S B
  ◌>>=◌ m f s = continue (m s) f

  abbrev pub ◌>>◌ : {A B : Type ℓ} → Eff S A → Eff S B → Eff S B
  m >> k = m >>= λ _. k

  abbrev pub handle : {A : Type ℓ} → Result A × S → Eff S A → Result A × S
  handle (ok a, s) k = (ok a, s)
  handle (throws e, s) k = k s
  handle (crash e, s) k = (crash e, s)

  -- `try { m } catch(...) { k }`
  abbrev pub catch : {A : Type ℓ} → Eff S A → Eff S A → Eff S A
  catch m k s = handle (m s) k

-- A blocking socket of boost::asio. `pending` are the bytes that will come from the peer before it
-- closes, `sent` those handed to the network so far, `room` how many more go through before the
-- connection breaks: the program never sees these three. The laws are the documented behaviour of
-- `read`, `write` (all bytes or an exception) and `write_some` (some bytes, at least one if there
-- are any to write and the connection stands).
pub record Asio : Type 1 where
  pub Socket : Type 0
  pub pending : Socket → List ℕ
  pub sent : Socket → List ℕ
  pub room : Socket → ℕ
  pub read : ℕ → Eff Socket (List ℕ)
  pub write : List ℕ → Eff Socket ℕ
  pub write_some : List ℕ → Eff Socket ℕ
  pub read_all :
      (s : Socket) (bs rest : List ℕ)
      → pending s ≡ bs ++ rest
      → (s' : Socket) × (read (length bs) s ≡ (ok bs, s'))
        × (pending s' ≡ rest)
        × (sent s' ≡ sent s)
        × (room s' ≡ room s)
  pub read_short :
      (n : ℕ) (s : Socket)
      → length (pending s) < n
      → (s' : Socket) × (read n s ≡ (throws eof, s'))
        × (pending s' ≡ [])
        × (sent s' ≡ sent s)
        × (room s' ≡ room s)
  pub write_all :
      (bs : List ℕ) (s : Socket)
      → length bs ≤ room s
      → (s' : Socket) × (write bs s ≡ (ok (length bs), s'))
        × (sent s' ≡ sent s ++ bs)
        × (pending s' ≡ pending s)
        × (room s' + length bs ≡ room s)
  pub write_broken :
      (bs : List ℕ) (s : Socket)
      → room s < length bs
      → (s' : Socket) × (write bs s ≡ (throws broken_pipe, s'))
        × (sent s' ≡ sent s ++ take (room s) bs)
        × (pending s' ≡ pending s)
        × (room s' ≡ 0)
  pub write_part :
      (bs : List ℕ) (s : Socket)
      → length bs ≤ room s
      → (k : ℕ) × (s' : Socket) × (write_some bs s ≡ (ok k, s'))
        × (k ≤ length bs)
        × (0 < length bs → 0 < k)
        × (sent s' ≡ sent s ++ take k bs)
        × (pending s' ≡ pending s)
        × (room s' + k ≡ room s)
