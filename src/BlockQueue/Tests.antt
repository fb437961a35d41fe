-- ===== src/BlockQueue/Tests.antt =====
-- The queue at concrete values.
use p_rpc.Base.{ℕ, ◌≡◌, refl, ◌↔◌, List, [], ◌∷◌, ◌++◌, true, false, none, arith}
use p_rpc.BlockQueue.{BlockQueue, try_push, try_pop, pop_value, push, push_front, pop, wait_for}
use p_rpc.BlockQueue.Bounds.{IsBounded, KeepsBound, ops-IsBounded}
use p_rpc.BlockQueue.Waiting.{AllFull, AllEmpty, loops_end}
use p_rpc.BlockQueue.Order.{Op, pushes, pops, run, run_fifo}

abbrev full : BlockQueue ℕ
full = record { max_size = 2; queue = 1 ∷ 2 ∷ []; cond_is_empty = 0; cond_is_full = 0 }

-- Another thread that pops.
abbrev taker : BlockQueue ℕ → BlockQueue ℕ
taker q = (try_pop [] q).1

taker-KeepsBound : KeepsBound taker
taker-KeepsBound q h = (ops-IsBounded [] q 0 true tt h).1

-- A full queue accepts a value once another thread has popped.
accepts_after_pop : (try_push (taker ∷ []) full 3 true).1 ≡ true
unfolding try_push wait_for try_pop pop_value
accepts_after_pop = refl

rejects : (try_push [] full 3 true).1 ≡ false
unfolding try_push wait_for
rejects = refl

ops-IsBounded_example :
    IsBounded (try_push (taker ∷ []) full 3 true).0 × IsBounded (try_pop (taker ∷ []) full).1
ops-IsBounded_example = ops-IsBounded (taker ∷ []) full 3 true (taker-KeepsBound, tt) (omega arith)

loops_end_example :
    ((push (([], taker) ∷ ([], λ q. q) ∷ []) full 3 ≡ none)
      ↔ AllFull (([], taker) ∷ ([], λ q. q) ∷ []) full)
    × ((push_front (([], taker) ∷ ([], λ q. q) ∷ []) full 3 ≡ none)
        ↔ AllFull (([], taker) ∷ ([], λ q. q) ∷ []) full)
    × (((pop ([] ∷ []) full).0 ≡ none) ↔ AllEmpty ([] ∷ []) full)
loops_end_example = loops_end (([], taker) ∷ ([], λ q. q) ∷ []) ([] ∷ []) full 3

abbrev ops : List (Op ℕ)
ops = pops ∷ pushes 5 ∷ pushes 6 ∷ pops ∷ []

run_fifo_example :
    (run ops full).popped ++ (run ops full).left.queue ≡ full.queue ++ (run ops full).accepted
run_fifo_example = run_fifo ops full
