-- ===== src/Server/Responder/Tokens/Arriving.antt =====
-- A new connection and the balance of responses and tokens.
use p_rpc.Base.{
  ◌+◌, ℕ, ◌≡◌, ◌≢◌, inl, inr, refl, sym, ◌∙◌, ap, List, [], ◌∷◌, false, some, none, find, insert,
  find-insert, arith, All, All-map, ==_iff, Bool-cases, ◌==◌,
}
use p_rpc.Socket.{Asio}
use p_rpc.BlockQueue.{new_queue}
use p_rpc.Server.Connection.{new_connection}
use p_rpc.Server.Connection.Queueing.{waiting}
use p_rpc.Server.State.{State}
use p_rpc.Server.Listener.{create_connection}
use p_rpc.Server.Responder.Threads.{Task, idle, pushed, popping, sending, scheduling, IsKnown}
use p_rpc.Server.Responder.Tokens.{
  count, holds, holding, tokens, HoldsKnown, ScheduledKnown, some_injective,
}

module _ ⦃net : Asio⦄ where
  open net use {Socket}

  module _ (st : State) (ep address : ℕ) (sock : Socket) (now : ℕ)
      (new : find ep st.connections ≡ none)
      (fresh : (e : ℕ) → find e st.connections ≢ some address) where
    abbrev pub arrived : State
    arrived = create_connection ep address sock now st

    count-unknown : (eps : List ℕ) → All (λ e. find e st.connections ≢ none) eps → count ep eps ≡ 0
    count-unknown [] h = refl
    count-unknown (e ∷ eps) h = elim (Bool-cases (e == ep)) [
      | inl same ↦ absurd (h.0 (ap (λ x. find x st.connections) ((==_iff e ep).0 same) ∙ new))
      | inr other ↦ rw other (omega (arith, count-unknown eps h.1))
    ]

    IsKnown-apart : (d : ℕ) → IsKnown st d → (d == address) ≡ false
    IsKnown-apart d k = elim (Bool-cases (d == address)) [
      | inl same ↦ absurd (fresh (st.objects d).endpoint (k ∙ ap some ((==_iff d address).0 same)))
      | inr other ↦ other
    ]

    holds-fresh : (t : Task) → HoldsKnown st t → holds address t ≡ 0
    holds-fresh idle k = refl
    holds-fresh (pushed d) k = rw (IsKnown-apart d k) refl
    holds-fresh (popping d) k = rw (IsKnown-apart d k) refl
    holds-fresh (sending d call) k = refl
    holds-fresh (scheduling d back) k = rw (IsKnown-apart d k) refl

    holding-fresh : (ts : List Task) → All (HoldsKnown st) ts → holding address ts ≡ 0
    holding-fresh [] h = refl
    holding-fresh (t ∷ ts) h = omega (arith, holds-fresh t h.0, holding-fresh ts h.1)

    find-known :
        (e : ℕ) → find e st.connections ≢ none → find e (insert ep address st.connections) ≢ none
    find-known e k = elim (Bool-cases (ep == e)) [
      | inl same ↦ absurd (k (ap (λ x. find x st.connections) (sym ((==_iff ep e).0 same)) ∙ new))
      | inr other ↦ rw (find-insert ep e address st.connections, other) k
    ]

    pub ScheduledKnown-arrived : ScheduledKnown st → ScheduledKnown arrived
    unfolding create_connection
    ScheduledKnown-arrived h = All-map find-known st.bq_respond.queue h

    other-object : (d : ℕ) → (address == d) ≡ false → arrived.objects d ≡ st.objects d
    unfolding create_connection
    other-object d h = rw h refl

    apart-IsKnown : (d : ℕ) → IsKnown st d → (address == d) ≡ false
    apart-IsKnown d k = elim (Bool-cases (address == d)) [
      | inl same ↦
          absurd (fresh (st.objects d).endpoint (k ∙ ap some (sym ((==_iff address d).0 same))))
      | inr other ↦ other
    ]

    pub IsKnown-arrived : (d : ℕ) → IsKnown st d → IsKnown arrived d
    unfolding create_connection
    IsKnown-arrived d k =
        rw (apart-IsKnown d k)
          (rw (find-insert ep (st.objects d).endpoint address st.connections, unlike) k)
      where
        unlike : (ep == (st.objects d).endpoint) ≡ false
        unlike = elim (Bool-cases (ep == (st.objects d).endpoint)) [
          | inl same ↦ absurd (
              let both =
                sym k ∙ ap (λ x. find x st.connections) (sym ((==_iff _ _).0 same)) ∙ new in
              cc both)
          | inr other ↦ other
        ]

    pub HoldsKnown-arrived : (t : Task) → HoldsKnown st t → HoldsKnown arrived t
    HoldsKnown-arrived idle k = tt
    HoldsKnown-arrived (pushed d) k = IsKnown-arrived d k
    HoldsKnown-arrived (popping d) k = IsKnown-arrived d k
    HoldsKnown-arrived (sending d call) k = IsKnown-arrived d k
    HoldsKnown-arrived (scheduling d back) k = IsKnown-arrived d k

    -- A connection that is known afterwards is the new one or was known before.
    was-IsKnown : (c : ℕ) → (address == c) ≡ false → IsKnown arrived c → IsKnown st c
    unfolding create_connection
    was-IsKnown c h k =
        let k' =
          rw (find-insert ep (st.objects c).endpoint address st.connections) at (rw h at k) in
        elim (Bool-cases (ep == (st.objects c).endpoint)) [
          | inl same ↦
              let here : address ≡ c = some_injective (rw (same, new) at k') in
              absurd (let t = (==_iff address c).1 here in let f = sym h ∙ t in cc f)
          | inr other ↦ rw other at k'
        ]

    pub balance-arrived :
        (ts : List Task)
        → ScheduledKnown st
        → All (HoldsKnown st) ts
        → ((c : ℕ) → IsKnown st c → waiting (st.objects c) ≡ tokens st c + holding c ts)
        → (c : ℕ) → IsKnown arrived c
        → waiting (arrived.objects c) ≡ tokens arrived c + holding c ts
    unfolding create_connection new_connection new_queue
    balance-arrived ts hs hk b c k = elim (Bool-cases (address == c)) [
      | inl here ↦ rw here (
          omega (
            arith,
            count-unknown st.bq_respond.queue hs,
            ap (λ x. holding x ts) (sym ((==_iff address c).0 here)),
            holding-fresh ts hk,
          ))
      | inr there ↦ rw there (b c (was-IsKnown c there k))
    ]
