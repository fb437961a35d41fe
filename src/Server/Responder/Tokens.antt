-- ===== src/Server/Responder/Tokens.antt =====
-- The tokens of the responses that wait at a connection: its endpoints at `_bq_respond`, and the
-- threads that are about to pop a response of it or to schedule it.
pub mod Moves
pub mod Arriving
pub mod Found
use mathlib.Core.Path.{subst}
use p_rpc.Base.{
  ℕ, ◌+◌, ◌≡◌, ◌≢◌, inl, inr, refl, sym, ◌∙◌, ap, List, [], ◌∷◌, ◌++◌, Bool, true, false, Option,
  some, find, arith, length, ==_refl, ==_iff, Bool-cases, ◌==◌, if◌then◌else◌, All, none,
}
use p_rpc.BlockQueue.{BlockQueue, has_room, push_value, try_pop}
use p_rpc.BlockQueue.Order.{try_push-room, try_push-full, try_pop-cons, try_pop-nil}
use p_rpc.Socket.{Asio, ok}
use p_rpc.Server.Call.{Call}
use p_rpc.Server.Connection.{Connection, process_response}
use p_rpc.Server.Connection.Queueing.{waiting, process_response-Requeues, length-push_value}
use p_rpc.Server.State.{State, on_connection, update}
use p_rpc.Server.Responder.{push_response, pop_response, schedule}
use p_rpc.Server.Responder.Threads.{
  Task, idle, pushed, popping, sending, scheduling, IsKnown, Move, push, inline, later, schedules,
  take, pop, send_rest, send,
}

abbrev pub one_if : Bool → ℕ
one_if b = if b then 1 else 0

abbrev pub count : ℕ → List ℕ → ℕ
count ep [] = 0
count ep (e ∷ eps) = one_if (e == ep) + count ep eps

pub count-append : (ep : ℕ) (xs ys : List ℕ) → count ep (xs ++ ys) ≡ count ep xs + count ep ys
count-append ep [] ys = omega arith
count-append ep (x ∷ xs) ys = omega (arith, count-append ep xs ys)

-- Whether a thread holds a token of the connection `c`.
abbrev pub holds : ℕ → Task → ℕ
holds c idle = 0
holds c (pushed d) = one_if (d == c)
holds c (popping d) = one_if (d == c)
holds c (sending d call) = 0
holds c (scheduling d back) = one_if (d == c)

abbrev pub holding : ℕ → List Task → ℕ
holding c [] = 0
holding c (t ∷ ts) = holds c t + holding c ts

pub holding-append :
    (c : ℕ) (xs ys : List Task) → holding c (xs ++ ys) ≡ holding c xs + holding c ys
holding-append c [] ys = omega arith
holding-append c (x ∷ xs) ys = omega (arith, holding-append c xs ys)

pub some_injective : {x y : ℕ} → some x ≡ some y → x ≡ y
some_injective e = cc

module _ ⦃net : Asio⦄ where
  abbrev pub tokens : State → ℕ → ℕ
  tokens st c = count (st.objects c).endpoint st.bq_respond.queue

  -- The connections that a thread holds are known.
  abbrev pub HoldsKnown : State → Task → Type 0
  HoldsKnown st idle = Unit
  HoldsKnown st (pushed d) = IsKnown st d
  HoldsKnown st (popping d) = IsKnown st d
  HoldsKnown st (sending d call) = IsKnown st d
  HoldsKnown st (scheduling d back) = IsKnown st d

  -- The endpoints that wait to be served are in the map.
  abbrev pub ScheduledKnown : State → Type 0
  ScheduledKnown st = All (λ ep. find ep st.connections ≢ none) st.bq_respond.queue

  -- What a move keeps, and how it changes the number of responses and of tokens of one connection.
  pub record Balances (st : State) (t : Task) (st' : State) (t' : Task) : Type 0 where
    pub connections : st'.connections ≡ st.connections
    pub endpoints : (c : ℕ) → (st'.objects c).endpoint ≡ (st.objects c).endpoint
    pub known : HoldsKnown st' t'
    pub scheduled : ScheduledKnown st → ScheduledKnown st'
    pub balance :
        (c : ℕ)
        → IsKnown st c
        → waiting (st.objects c) + (tokens st' c + holds c t')
          ≡ waiting (st'.objects c) + (tokens st c + holds c t)

  -- Each connection in the map is under its endpoint.
  abbrev pub AreNamed : State → Type 0
  AreNamed st = (ep c : ℕ) → find ep st.connections ≡ some c → (st.objects c).endpoint ≡ ep

  -- A move at the connection `d`: it keeps the endpoint, and its responses and what the thread holds
  -- change alike.
  module _ (st : State) (d : ℕ) (conn' : Connection) (t t' : Task)
      (endpoint : conn'.endpoint ≡ (st.objects d).endpoint)
      (only : (c : ℕ) → (d == c) ≡ false → (holds c t ≡ 0) × (holds c t' ≡ 0))
      (alike : waiting (st.objects d) + holds d t' ≡ waiting conn' + holds d t) where
    abbrev pub moved : State
    moved = record st { objects = update st.objects d conn' }

    same : (c : ℕ) → (moved.objects c).endpoint ≡ (st.objects c).endpoint
    same c = elim (Bool-cases (d == c)) [
      | inl here ↦ rw here (endpoint ∙ ap (λ x. (st.objects x).endpoint) ((==_iff d c).0 here))
      | inr there ↦ rw there refl
    ]

    balance_at :
        (c : ℕ)
        → waiting (st.objects c) + (tokens moved c + holds c t')
          ≡ waiting (moved.objects c) + (tokens st c + holds c t)
    balance_at c =
        let kept : tokens moved c ≡ tokens st c = ap (λ e. count e st.bq_respond.queue) (same c) in
        elim (Bool-cases (d == c)) [
          | inl here ↦
              let alike' : waiting (st.objects c) + holds c t' ≡ waiting conn' + holds c t =
                subst (λ x. waiting (st.objects x) + holds x t' ≡ waiting conn' + holds x t)
                  ((==_iff d c).0 here) alike in
              rw kept (rw here (omega arith))
          | inr there ↦ rw kept (rw there (omega (arith, (only c there).0, (only c there).1)))
        ]

    pub moved-Balances :
        IsKnown st d → (IsKnown moved d → HoldsKnown moved t') → Balances st t moved t'
    moved-Balances k hk = record {
      connections = refl;
      endpoints = same;
      known = hk (rw (same d) k);
      scheduled = λ h. h;
      balance = λ c _. balance_at c;
    }

  pub one_if_self : (c : ℕ) → one_if (c == c) ≡ 1
  one_if_self c = rw (==_refl c) refl
