-- ===== src/Main/Choosing.antt =====
-- The choices of the command line.
use p_rpc.Main.Ports.{decimal, atoi-decimal}
use p_rpc.Base.{
  bytes_eq, List, ℕ, ◌≡◌, length, arith, false, ◌<◌, true, codes, ◌∷◌, ◌≢◌, if◌then◌else◌, [], ap,
  ltb, Bool-cases, sym, refl, ◌∙◌, inl, bytes_eq→eq, inr, ◌^◌, ◌+◌, suc,
}
use p_rpc.Main.{Choice, no_type, client_usage, server_usage, unrecognized, choose, arg, atoi}

-- What a command line means, as the usage texts describe it.
pub data Chosen (argv : List (List ℕ)) : Choice → Type 0 where
  nothing : length argv < 2 → Chosen argv no_type
  client :
      (prog host port : List ℕ) (rest : List (List ℕ))
      → argv ≡ prog ∷ codes "-c" ∷ host ∷ port ∷ rest
      → Chosen argv (Choice.client host (atoi port))
  short_client :
      (prog : List ℕ) (rest : List (List ℕ))
      → argv ≡ prog ∷ codes "-c" ∷ rest
      → length rest < 2
      → Chosen argv client_usage
  server :
      (prog port : List ℕ) (rest : List (List ℕ))
      → argv ≡ prog ∷ codes "-s" ∷ port ∷ rest
      → Chosen argv (Choice.server (atoi port))
  short_server : (prog : List ℕ) → argv ≡ prog ∷ codes "-s" ∷ [] → Chosen argv server_usage
  other :
      (prog type : List ℕ) (rest : List (List ℕ))
      → argv ≡ prog ∷ type ∷ rest
      → type ≢ codes "-c"
      → type ≢ codes "-s"
      → Chosen argv unrecognized

bytes_eq_refl : (bs : List ℕ) → bytes_eq bs bs ≡ true
unfolding bytes_eq
bytes_eq_refl [] = refl
bytes_eq_refl (b ∷ bs) = ground (arith, bytes_eq_refl bs)

apart : (xs ys : List ℕ) → bytes_eq xs ys ≡ false → xs ≢ ys
apart xs ys h e =
    absurd (let same = ap (bytes_eq xs) e in let f = sym (bytes_eq_refl xs) ∙ same ∙ h in cc f)

by_client :
    (prog : List ℕ) (rest : List (List ℕ))
    → (type : List ℕ) → type ≡ codes "-c"
    → Chosen (prog ∷ type ∷ rest) (
        if ltb (length (prog ∷ type ∷ rest)) 4
        then client_usage
        else Choice.client (arg 2 (prog ∷ type ∷ rest)) (atoi (arg 3 (prog ∷ type ∷ rest))))
unfolding arg
by_client prog [] type e = short_client prog [] (ap (λ x. prog ∷ x ∷ []) e) (omega arith)
by_client prog (host ∷ []) type e =
    short_client prog (host ∷ []) (ap (λ x. prog ∷ x ∷ host ∷ []) e) (omega arith)
by_client prog (host ∷ port ∷ rest) type e =
    let enough : ltb (length (prog ∷ type ∷ host ∷ port ∷ rest)) 4 ≡ false = ground arith in
    rw enough (client prog host port rest (ap (λ x. prog ∷ x ∷ host ∷ port ∷ rest) e))

by_server :
    (prog : List ℕ) (rest : List (List ℕ))
    → (type : List ℕ) → type ≡ codes "-s"
    → Chosen (prog ∷ type ∷ rest) (
        if ltb (length (prog ∷ type ∷ rest)) 3
        then server_usage
        else Choice.server (atoi (arg 2 (prog ∷ type ∷ rest))))
unfolding arg
by_server prog [] type e = short_server prog (ap (λ x. prog ∷ x ∷ []) e)
by_server prog (port ∷ rest) type e =
    let enough : ltb (length (prog ∷ type ∷ port ∷ rest)) 3 ≡ false = ground arith in
    rw enough (server prog port rest (ap (λ x. prog ∷ x ∷ port ∷ rest) e))

-- `main` takes every command line as the usage texts say: fewer than two arguments are told that the
-- type is missing; `-c` with a host and a port makes a client of that server, and `-c` with less is
-- told the client's usage; `-s` with a port makes a server there, and `-s` alone is told the
-- server's usage; any other type is not recognised. What follows is ignored.
pub choose-Chosen : (argv : List (List ℕ)) → Chosen argv (choose argv)
unfolding choose arg
choose-Chosen [] = nothing (omega arith)
choose-Chosen (prog ∷ []) = nothing (omega arith)
choose-Chosen (prog ∷ type ∷ rest) =
    let enough : ltb (length (prog ∷ type ∷ rest)) 2 ≡ false = ground arith in
    rw enough (elim (Bool-cases (bytes_eq type (codes "-c"))) [
      | inl c ↦ rw c (by_client prog rest type (bytes_eq→eq _ _ c))
      | inr not_c ↦ elim (Bool-cases (bytes_eq type (codes "-s"))) [
        | inl s ↦ rw (not_c, s) (by_server prog rest type (bytes_eq→eq _ _ s))
        | inr not_s ↦
            rw (not_c, not_s) (other prog type rest refl (apart _ _ not_c) (apart _ _ not_s))
      ]
    ])

-- A server or a client whose port, below 2 ^ 31, is written in decimal gets that port, and the client
-- its host, whatever the program is called and whatever follows.
pub choose-decimal :
    (port : ℕ) (prog host : List ℕ) (rest : List (List ℕ))
    → port < 2 ^ 31
    → let text = decimal (port + 1) port [] in
      (choose (prog ∷ codes "-s" ∷ text ∷ rest) ≡ Choice.server port)
      × (choose (prog ∷ codes "-c" ∷ host ∷ text ∷ rest) ≡ Choice.client host port)
unfolding choose arg bytes_eq
choose-decimal port prog host rest h =
    let same = atoi-decimal port h in
    let two : ltb (suc (suc (suc (length rest)))) 2 ≡ false = ground arith in
    let three : ltb (suc (suc (suc (length rest)))) 3 ≡ false = ground arith in
    let two' : ltb (suc (suc (suc (suc (length rest))))) 2 ≡ false = ground arith in
    let four : ltb (suc (suc (suc (suc (length rest))))) 4 ≡ false = ground arith in
    (rw (two, three, same) refl, rw (two', four, same) refl)
