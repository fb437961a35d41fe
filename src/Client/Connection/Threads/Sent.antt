-- ===== src/Client/Connection/Threads/Sent.antt =====
-- The calls that were sent, in the map at the end of a run.
use p_rpc.Client.Connection.Threads.Received.{receives_for}
use p_rpc.Base.{
  [], ◌∷◌, List, ◌≡◌, find, some, All, ◌==◌, ==_iff, Bool-cases, inl, inr, refl, sym, ◌∙◌, arith,
  suc, codes, ap,
}
use p_rpc.Client.Call.{Call, new_call}
use p_rpc.Client.Connection.{Connection}
use p_rpc.Client.Connection.Receiving.{answered}
use p_rpc.Client.Connection.Threads.{
  Response, Move, Moves, done, next, adds, sends, arrives, receives, sent_in,
}
use p_rpc.Client.Connection.Threads.Matching.{
  IsOrdered, found_added, some_call_injective, send_call-runs,
}
use p_rpc.Client.Connection.Threads.Runs.{Move-Goes, receives_nothing}
use p_rpc.Socket.Network.{Network}
use p_rpc.Socket.{Asio}
use p_rpc.MethodWritable.Wire.{IsSendable}

module _ ⦃net : Asio⦄ where
  -- The call is in the map, with its id and its parameter.
  abbrev pub IsEntered : Connection → Call → Type 0
  IsEntered conn call =
      (call' : Call) × (find call.id conn.calls ≡ some call') × (call'.param ≡ call.param)

  module _ (link : Network) where
    Move-IsEntered :
        {u v : Connection} (received rest : List Response) (move : Move link u v)
        → IsOrdered u received rest
        → (call : Call) → IsEntered u call
        → IsEntered v call
    Move-IsEntered received rest (adds {conn} param more) h call (call', f, p) =
        let found =
          found_added conn (new_call param (codes "IntWritable"))
            (h.unused conn.last_call_index (omega arith)) call.id in
        elim (Bool-cases (conn.last_call_index == call.id)) [
          | inl here ↦ absurd (
              let unused = h.unused call.id (omega (arith, (==_iff _ _).0 here)) in
              let both = sym f ∙ unused in cc both)
          | inr there ↦ (call', rw there at found ∙ f, p)
        ]
    Move-IsEntered received rest (sends {conn} {s} {call = known} id e f k fits) h call x =
        let (s', run, y) = send_call-runs conn s known e k fits in rw run x
    Move-IsEntered received rest (arrives r e f) h call x = x
    Move-IsEntered received [] (receives {conn} fuel k) h call x =
        absurd
          (receives_nothing conn h.matched.sock (suc fuel) h.matched.connected h.matched.unread k)
    Move-IsEntered received (r ∷ rest) (receives {conn} fuel k) h call (call', f, p) =
        let (known, conn', f', below, e, a) = receives_for fuel r h in
        rw e (elim (Bool-cases (r.id == call.id)) [
          | inl here ↦
              let at_id = sym (rw ((==_iff _ _).0 here) at f') ∙ f in
              (
                answered r.value known,
                rw here at (a.found call.id),
                ap (λ (x : Call). x.param) (some_call_injective at_id) ∙ p,
              )
          | inr there ↦ (call', rw there at (a.found call.id) ∙ f, p)
        ])

    Moves-IsEntered :
        {u w : Connection} (received rest : List Response) (moves : Moves link u w)
        → IsOrdered u received rest
        → (call : Call) → IsEntered u call
        → IsEntered w call
    Moves-IsEntered received rest done h call x = x
    Moves-IsEntered received rest (next move moves) h call x =
        let (received', rest', e, h') = Move-Goes link received rest move h in
        Moves-IsEntered received' rest' moves h' call (Move-IsEntered received rest move h call x)

    -- Each call that was sent is one that is still in the map, and its parameter could be sent.
    pub Moves-Sent :
        {u w : Connection} (received rest : List Response) (moves : Moves link u w)
        → IsOrdered u received rest
        → All (λ call. IsEntered w call × IsSendable call.param) (sent_in link moves)
    Moves-Sent received rest done h = tt
    Moves-Sent {u} {w} received rest (next move moves) h =
        let (received', rest', e, h') = Move-Goes link received rest move h in
        first move moves (Moves-Sent received' rest' moves h')
          (λ call x. Moves-IsEntered received rest (next move moves) h call x)
      where
        first :
            {v : Connection} (move : Move link u v) (moves : Moves link v w)
            → All (λ call. IsEntered w call × IsSendable call.param) (sent_in link moves)
            → ((call : Call) → IsEntered u call → IsEntered w call)
            → All
                (λ call. IsEntered w call × IsSendable call.param)
                (sent_in link (next move moves))
        first (adds param more) moves others kept = others
        first (sends {call = call} id e f k fits) moves others kept = (
          (kept call (call, ap (λ x. find x u.calls) (h.numbered id call f) ∙ f, refl), k),
          others,
        )
        first (arrives r e f) moves others kept = others
        first (receives fuel k) moves others kept = others
