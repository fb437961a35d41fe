-- ===== src/Main/Tests.antt =====
-- Command lines, and a test whose client does not wait.
use p_rpc.Socket.{ok, throws, broken_pipe}
use p_rpc.Base.{bytes_eq, List, ℕ, [], ◌≡◌, codes, refl, ◌∷◌, minus_one}
use p_rpc.Socket.Simulated.{simulated}
use p_rpc.Main.{choose, main, atoi, Choice, arg, skip_spaces, digits_value}
use p_rpc.Main.Choosing.{Chosen, choose-Chosen}

abbrev client_line : List (List ℕ)
client_line = codes "./bin" ∷ codes "-c" ∷ codes "localhost" ∷ codes "8080" ∷ []

chooses_client : choose client_line ≡ Choice.client (codes "localhost") 8080
unfolding choose arg bytes_eq atoi skip_spaces digits_value
chooses_client = refl

choose-Chosen_example : Chosen client_line (choose client_line)
choose-Chosen_example = choose-Chosen client_line

negative : atoi (codes "  -1") ≡ minus_one
unfolding atoi skip_spaces digits_value
negative = refl

-- An exception of the server is the status -1, and so is a usage.
status :
    main
      (λ host port. ok tt)
      (λ port. throws broken_pipe)
      (codes "./bin" ∷ codes "-s" ∷ codes "1" ∷ [])
    ≡ ok minus_one
unfolding main choose arg bytes_eq
status = refl
