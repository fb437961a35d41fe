-- ===== src/Socket/Link.antt =====
-- What a computation takes from a socket and what it puts there, as rules that compose.
use mathlib.Core.Path.{subst}
use Prim.Native.Nat.{◌<◌}
use native.Mathlib.Decide.{dec_lt}
use p_rpc.Base.{
  ℕ, ◌+◌, ◌≤◌, ◌≡◌, refl, sym, ap, ◌∙◌, List, [], ◌++◌, arith, length, append_assoc, append-nil,
  length-append, ◌⊎◌, inl, take, take-append-drop, length-take, drop, inr,
}
use p_rpc.Socket.{Result, ok, Eff, pure, ◌>>=◌, continue, Asio, catch, handle, ◌>>◌, throws, eof}

module _ ⦃net : Asio⦄ where
  open net use {Socket, pending, sent, room, read, write, read_all, read_short, write_all}

  -- A computation over the socket and an object beside it. It reads exactly the bytes `bs`, leaves
  -- what comes after them and all that is sent, takes the object from `o` to `o'` and returns `a`.
  pub record Reads {O A : Type 0} (m : Eff (O × Socket) A) (bs : List ℕ) (o : O) (a : A) (o' : O)
      : Type 0 where
    pub run :
        (s : Socket) (rest : List ℕ)
        → pending s ≡ bs ++ rest
        → (s' : Socket) × (m (o, s) ≡ (ok a, (o', s')))
          × (pending s' ≡ rest)
          × (sent s' ≡ sent s)
          × (room s' ≡ room s)

  -- The same for a computation over the socket alone.
  pub record Receives {A : Type 0} (m : Eff Socket A) (bs : List ℕ) (a : A) : Type 0 where
    pub run :
        (s : Socket) (rest : List ℕ)
        → pending s ≡ bs ++ rest
        → (s' : Socket) × (m s ≡ (ok a, s'))
          × (pending s' ≡ rest)
          × (sent s' ≡ sent s)
          × (room s' ≡ room s)

  -- A computation that sends exactly the bytes `bs`, if the connection stands that long, and
  -- receives nothing.
  pub record Writes {A : Type 0} (m : Eff Socket A) (bs : List ℕ) (a : A) : Type 0 where
    pub run :
        (s : Socket)
        → length bs ≤ room s
        → (s' : Socket) × (m s ≡ (ok a, s'))
          × (sent s' ≡ sent s ++ bs)
          × (pending s' ≡ pending s)
          × (room s' + length bs ≡ room s)

  -- A computation over the socket alone, beside an object that it leaves as it is.
  abbrev pub beside : {O A : Type 0} → O → Result A × Socket → Result A × (O × Socket)
  beside o (r, s) = (r, (o, s))

  abbrev pub lift : {O A : Type 0} → Eff Socket A → Eff (O × Socket) A
  lift m (o, s) = beside o (m s)

  abbrev pub modify : {O : Type 0} → (O → O) → Eff (O × Socket) (Unit {0})
  modify f (o, s) = (ok tt, (f o, s))

  abbrev pub current : {O : Type 0} → Eff (O × Socket) O
  current (o, s) = (ok o, (o, s))

  pub Reads-pure : {O A : Type 0} (o : O) (a : A) → Reads (pure a) [] o a o
  Reads-pure o a = record { run = λ s rest h. (s, refl, h, refl, refl) }

  pub Reads-modify : {O : Type 0} (o : O) (f : O → O) → Reads (modify f) [] o tt (f o)
  Reads-modify o f = record { run = λ s rest h. (s, refl, h, refl, refl) }

  pub Reads-current : {O : Type 0} (o : O) → Reads current [] o o o
  Reads-current o = record { run = λ s rest h. (s, refl, h, refl, refl) }

  pub Reads-bind :
      {O A B : Type 0} (m : Eff (O × Socket) A) (f : A → Eff (O × Socket) B) {bs cs : List ℕ}
      {o o' o'' : O} {a : A} {b : B}
      → Reads m bs o a o'
      → Reads (f a) cs o' b o''
      → Reads (m >>= f) (bs ++ cs) o b o''
  Reads-bind m f {bs} {cs} p q = record {
    run = λ s rest h.
        let (s', e, h', t', r') = p.run s (cs ++ rest) (h ∙ append_assoc bs cs rest) in
        let (s'', e', h'', t'', r'') = q.run s' rest h' in
        (s'', rw (e, continue) e', h'', t'' ∙ t', r'' ∙ r');
  }

  pub Receives-pure : {A : Type 0} (a : A) → Receives (pure a) [] a
  Receives-pure a = record { run = λ s rest h. (s, refl, h, refl, refl) }

  pub Receives-bind :
      {A B : Type 0} (m : Eff Socket A) (f : A → Eff Socket B) {bs cs : List ℕ} {a : A} {b : B}
      → Receives m bs a
      → Receives (f a) cs b
      → Receives (m >>= f) (bs ++ cs) b
  Receives-bind m f {bs} {cs} p q = record {
    run = λ s rest h.
        let (s', e, h', t', r') = p.run s (cs ++ rest) (h ∙ append_assoc bs cs rest) in
        let (s'', e', h'', t'', r'') = q.run s' rest h' in
        (s'', rw (e, continue) e', h'', t'' ∙ t', r'' ∙ r');
  }

  -- A read whose number of bytes is computed.
  pub Receives-read : (n : ℕ) (bs : List ℕ) → length bs ≡ n → Receives (read n) bs bs
  Receives-read n bs e = rw (← e) (record { run = λ s rest h. read_all s bs rest h })

  pub Reads-lift :
      {O A : Type 0} (o : O) (m : Eff Socket A) {bs : List ℕ} {a : A}
      → Receives m bs a
      → Reads (lift m) bs o a o
  Reads-lift o m p = record {
    run = λ s rest h.
        let (s', e, h', t', r') = p.run s rest h in (s', rw (e, beside) refl, h', t', r');
  }

  pub Writes-pure : {A : Type 0} (a : A) → Writes (pure a) [] a
  Writes-pure a = record { run = λ s h. (s, refl, sym (append-nil _), refl, omega arith) }

  pub Writes-bind :
      {A B : Type 0} (m : Eff Socket A) (f : A → Eff Socket B) {bs cs : List ℕ} {a : A} {b : B}
      → Writes m bs a
      → Writes (f a) cs b
      → Writes (m >>= f) (bs ++ cs) b
  Writes-bind m f {bs} {cs} p q = record {
    run = λ s h.
        let (s', e, t, r, g) = p.run s (omega (arith, length-append bs cs)) in
        let (s'', e', t', r', g') = q.run s' (omega (arith, length-append bs cs)) in
        (
          s'',
          rw (e, continue) e',
          t' ∙ ap (λ x. x ++ cs) t ∙ append_assoc _ bs cs,
          r' ∙ r,
          omega (arith, length-append bs cs),
        );
  }

  pub Writes-write : (bs : List ℕ) → Writes (write bs) bs (length bs)
  Writes-write bs = record { run = λ s h. write_all bs s h }

  -- The rules of bind where one side touches no byte.
  pub Writes-bind_quiet :
      {A B : Type 0} (m : Eff Socket A) (f : A → Eff Socket B) {bs : List ℕ} {a : A} {b : B}
      → Writes m bs a
      → Writes (f a) [] b
      → Writes (m >>= f) bs b
  Writes-bind_quiet m f {bs} {b = b} p q =
      subst (λ w. Writes (m >>= f) w b) (append-nil bs) (Writes-bind m f p q)

  pub Receives-bind_quiet :
      {A B : Type 0} (m : Eff Socket A) (f : A → Eff Socket B) {bs : List ℕ} {a : A} {b : B}
      → Receives m bs a
      → Receives (f a) [] b
      → Receives (m >>= f) bs b
  Receives-bind_quiet m f {bs} {b = b} p q =
      subst (λ w. Receives (m >>= f) w b) (append-nil bs) (Receives-bind m f p q)

  pub Reads-bind_quiet :
      {O A B : Type 0} (m : Eff (O × Socket) A) (f : A → Eff (O × Socket) B) {bs : List ℕ}
      {o o' o'' : O} {a : A} {b : B}
      → Reads m bs o a o'
      → Reads (f a) [] o' b o''
      → Reads (m >>= f) bs o b o''
  Reads-bind_quiet m f {bs} {o} {o'' = o''} {b = b} p q =
      subst (λ w. Reads (m >>= f) w o b o'') (append-nil bs) (Reads-bind m f p q)

  pub Writes-catch :
      {A : Type 0} (m k : Eff Socket A) {bs : List ℕ} {a : A}
      → Writes m bs a
      → Writes (catch m k) bs a
  Writes-catch m k p = record {
    run = λ s h. let (s', e, t, r, g) = p.run s h in (s', rw (e, handle) refl, t, r, g);
  }

  pub Reads-catch :
      {O A : Type 0} (m k : Eff (O × Socket) A) {bs : List ℕ} {o o' : O} {a : A}
      → Reads m bs o a o'
      → Reads (catch m k) bs o a o'
  Reads-catch m k p = record {
    run = λ s rest h. let (s', e, t, r, g) = p.run s rest h in (s', rw (e, handle) refl, t, r, g);
  }

  pub Reads-then :
      {O B : Type 0} (f : O → O) (k : Eff (O × Socket) B) {bs : List ℕ} {o o' : O} {b : B}
      → Reads k bs (f o) b o'
      → Reads (modify f >> k) bs o b o'
  Reads-then f k p = record { run = λ s rest h. p.run s rest h }

  -- A read takes the bytes asked for, or drains a stream that is too short and throws.
  pub read_cases :
      (n : ℕ) (s : Socket)
      → ((s' : Socket) × (length (pending s) < n)
          × (read n s ≡ (throws eof, s'))
          × (pending s' ≡ []))
        ⊎ ((bs : List ℕ) × (s' : Socket) × (read n s ≡ (ok bs, s'))
            × (length bs ≡ n)
            × (pending s ≡ bs ++ pending s'))
  read_cases n s = elim (dec_lt (length (pending s)) n) [
    | yes h ↦ let (s', e, p, t, r) = read_short n s h in inl (s', h, e, p)
    | no h ↦
        let bs = take n (pending s) in
        let parts = take-append-drop n (pending s) in
        let l : length bs ≡ n = omega (arith, length-take n (pending s)) in
        let (s', e, p, t, r) = read_all s bs (drop n (pending s)) (sym parts) in
        inr (bs, s', rw l at e, l, sym parts ∙ ap (◌++◌ bs) (sym p))
  ]
