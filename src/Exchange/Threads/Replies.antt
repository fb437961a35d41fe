-- ===== src/Exchange/Threads/Replies.antt =====
-- Which calls of the client the responses are for, and what number they carry.
use p_rpc.Client
use p_rpc.Base.{
  ℕ, ◌<◌, ◌≡◌, refl, sym, ap, ◌∙◌, List, [], ◌∷◌, some, none, arith, int_mod, All, All-append,
  Bool-cases, inl, inr, find, Option, length, ◌==◌, ==_iff,
}
use p_rpc.Client.Connection.{socket}
use p_rpc.Client.Connection.Threads.{Response, wire_of, latest}
use p_rpc.Client.Connection.Threads.Sent.{IsEntered}
use p_rpc.Exchange.Frames.{response_unique, length-served}
use p_rpc.Exchange.Threads.{IsMethod, IsServed, Fits, IsFor}
use p_rpc.IntWritable.Narrow.{narrow}
use p_rpc.Client.Connection.Threads.Matching.{IsOrdered, some_call_injective}
use native.Mathlib.Decide.{dec_lt}
use mathlib.Core.Path.{subst}
use p_rpc.MethodWritable.Wire.{IsSendable}
use p_rpc.Writable.{int_writable}
use p_rpc.Method
use p_rpc.Server.Call.{Call}
use p_rpc.Server.Connection.Sending.{response_wire}
use p_rpc.Server.Handler.{execute}
use p_rpc.Server.Handler.Values.{HasNumber, execute-HasNumber}
use p_rpc.Server.Service.{answered_by, answers_for, is_for, calls_for}
use p_rpc.Socket.{Asio, ok, throws, crash, Result}

pub latest_found :
    (Q : Response → Type 0) (j : ℕ) (v : ℕ) (rs : List Response)
    → All Q rs
    → latest j rs ≡ some v
    → (r : Response) × Q r × (r.id ≡ j) × (r.value ≡ v)
latest_found Q j v [] h e = absurd (let same = e in cc same)
latest_found Q j v (r ∷ rs) h e = by_later (latest j rs) refl (latest_found Q j v rs h.1)
  where
    by_later :
        (o : Option ℕ)
        → latest j rs ≡ o
        → (latest j rs ≡ some v → (r : Response) × Q r × (r.id ≡ j) × (r.value ≡ v))
        → (r : Response) × Q r × (r.id ≡ j) × (r.value ≡ v)
    by_later none k later = elim (Bool-cases (r.id == j)) [
      | inl here ↦ let same = rw (k, here) at e in (r, h.0, (==_iff r.id j).0 here, cc same)
      | inr there ↦ let same = rw (k, there) at e in absurd (cc same)
    ]
    by_later (some v') k later = later (k ∙ rw k at e)

module _ ⦃net : Asio⦄ where
  open net use {Socket, pending}

  -- The response has the number of the execution of a call that the property holds for.
  pub record IsReply (c : ℕ) (P : Client.Call.Call → Type 0) (y : Call) : Type 0 where
    pub asked : Call
    pub asked_for : IsFor c P asked
    pub number : ℕ
    pub has_number : HasNumber asked y number

  pub replies_found :
      (c : ℕ) (P : Client.Call.Call → Type 0) (calls : List Call)
      → All (IsFor c P) (calls_for c calls)
      → All (IsReply c P) (answers_for c calls)
  replies_found c P [] h = tt
  replies_found c P (x ∷ calls) h = elim (Bool-cases (is_for c x.connection)) [
    | inl here ↦
        let there = rw here at h in
        rw here (
          All-append (IsReply c P) (answered_by (execute x)) (answers_for c calls)
            (by_result (execute x) refl there.0) (replies_found c P calls there.1))
    | inr there ↦ rw there (replies_found c P calls (rw there at h))
  ]
    where
      by_result :
          (r : Result Call) → execute x ≡ r → IsFor c P x → All (IsReply c P) (answered_by r)
      by_result (ok y) e k =
          let (v, n) = execute-HasNumber x y e in
          (record { asked = x; asked_for = k; number = v; has_number = n }, tt)
      by_result (throws z) e k = tt
      by_result (crash z) e k = tt

  pub length_reply :
      (c : ℕ) (P : Client.Call.Call → Type 0) (y : Call)
      → IsReply c P y
      → length (response_wire y) ≡ 16
  length_reply c P y h =
      ap (λ (x : Call). length (response_wire x)) (h.has_number.responds)
      ∙ length-served h.asked h.number

  pub small_id :
      {conn : Client.Connection.Connection} {received rest : List Response}
      → IsOrdered conn received rest
      → (j : ℕ) (call : Client.Call.Call) → find j conn.calls ≡ some call
      → j < int_mod
  small_id {conn} h j call f = elim (dec_lt j conn.last_call_index) [
    | yes below ↦ omega (arith, below, h.int_index)
    | no above ↦ absurd (let both = sym (h.unused j (omega arith)) ∙ f in cc both)
  ]

  pub fits_of :
      {conn : Client.Connection.Connection} {received rest : List Response}
      → IsOrdered conn received rest
      → (calls : List Client.Call.Call)
      → All (λ call. IsEntered conn call × IsSendable call.param) calls
      → All (λ (call : Client.Call.Call). IsMethod call.param) calls
      → All (λ call. IsEntered conn call × Fits call) calls
  fits_of h [] sent methods = tt
  fits_of {conn} h (call ∷ calls) ((entered, sendable), sent) (method, methods) = (
    (
      entered,
      record {
        method = method;
        sendable = sendable;
        id_small = small_id h call.id entered.0 entered.1;
      },
    ),
    fits_of h calls sent methods,
  )

  -- The reply that a response carries is for the call with its id.
  pub IsServed-reply :
      (conn : Client.Connection.Connection) (c j v : ℕ) (call : Client.Call.Call) (r : Response)
      (y : Call)
      → find j conn.calls ≡ some call
      → j < int_mod
      → call.value ≡ some (int_writable (some (narrow v)))
      → r.id ≡ j
      → r.value ≡ v
      → IsReply c (IsEntered conn) y
      → response_wire y ≡ wire_of r
      → IsServed call
  IsServed-reply conn c j v call r y f small value same_id same_value h e =
      let sender = h.asked_for.call in
      let made = h.asked_for.made in
      let fits = h.asked_for.fits in
      let (call', f', p) = h.asked_for.has in
      let asked_id : h.asked.call_id ≡ sender.id = ap (λ (x : Call). x.call_id) made in
      let (ids, numbers) =
        response_unique h.asked h.number r (omega (arith, asked_id, fits.id_small))
          (omega (arith, same_id)) (ap response_wire (sym (h.has_number.responds)) ∙ e) in
      let there : sender.id ≡ j = sym asked_id ∙ ids ∙ same_id in
      let same : call ≡ call' =
        some_call_injective (sym f ∙ ap (λ x. find x conn.calls) (sym there) ∙ f') in
      record {
        method = record {
          class_name = fits.method.class_name;
          method_name = fits.method.method_name;
          params = fits.method.params;
          same = ap (λ (x : Client.Call.Call). x.param) same ∙ p ∙ fits.method.same;
        };
        result = h.number;
        returned =
            subst
              (λ (x : Call).
                Method.call x.class_name x.method_name x.params
                ≡ ok (some (int_writable (some (h.number)))))
              made (h.has_number.returned);
        value =
            value
            ∙ ap (λ x. some (int_writable (some x))) (ap narrow (sym same_value) ∙ sym numbers);
      }
