-- ===== src/Socket/Simulated.antt =====
-- A socket made of lists, which shows that the laws of the interface can hold: it delivers what is
-- pending, breaks when its room is used up, and `write_some` writes at most three bytes at a time.
use p_rpc.Base.{
  ℕ, ◌+◌, ◌-◌, ◌≤◌, ◌<◌, ◌≡◌, refl, List, [], ◌++◌, arith, length, take, drop, if◌then◌else◌,
  length-take, le→ltb, ap, length-append, ltb, lt→ltb, suc, take_append, sym, drop_append, ◌∷◌,
  zero,
}
use p_rpc.Socket.{ok, throws, eof, broken_pipe, Eff, Asio}

pub record Stream : Type 0 where
  pub pending : List ℕ
  pub sent : List ℕ
  pub room : ℕ

unfoldable pub read_stream : ℕ → Eff Stream (List ℕ)
read_stream n s =
    if ltb (length s.pending) n
    then (throws eof, record s { pending = [] })
    else (ok (take n s.pending), record s { pending = drop n s.pending })

unfoldable pub write_stream : List ℕ → Eff Stream ℕ
write_stream bs s =
    if ltb s.room (length bs)
    then (throws broken_pipe, record s { sent = s.sent ++ take s.room bs; room = 0 })
    else (ok (length bs), record s { sent = s.sent ++ bs; room = s.room - length bs })

-- At most three bytes.
abbrev pub write_part_stream : List ℕ → Eff Stream ℕ
write_part_stream bs s = write_stream (take 3 bs) s

pub read_stream-all :
    (s : Stream) (bs rest : List ℕ)
    → s.pending ≡ bs ++ rest
    → read_stream (length bs) s ≡ (ok bs, record s { pending = rest })
unfolding read_stream
read_stream-all s bs rest h = rw h (
    rw
      (
        le→ltb (length (bs ++ rest)) (length bs) (omega (arith, length-append bs rest)),
        take_append bs rest,
        drop_append bs rest,
      )
      refl)

pub read_stream-short :
    (n : ℕ) (s : Stream)
    → length s.pending < n
    → read_stream n s ≡ (throws eof, record s { pending = [] })
unfolding read_stream
read_stream-short n s h = rw (lt→ltb _ _ h) refl

pub write_stream-all :
    (bs : List ℕ) (s : Stream)
    → length bs ≤ s.room
    → write_stream bs s
      ≡ (ok (length bs), record s { sent = s.sent ++ bs; room = s.room - length bs })
unfolding write_stream
write_stream-all bs s h = rw (le→ltb _ _ h) refl

pub write_stream-broken :
    (bs : List ℕ) (s : Stream)
    → s.room < length bs
    → write_stream bs s
      ≡ (throws broken_pipe, record s { sent = s.sent ++ take s.room bs; room = 0 })
unfolding write_stream
write_stream-broken bs s h = rw (lt→ltb _ _ h) refl

pub take-length-take : (n : ℕ) (bs : List ℕ) → take (length (take n bs)) bs ≡ take n bs
take-length-take zero bs = refl
take-length-take (suc n) [] = refl
take-length-take (suc n) (b ∷ bs) = ap (◌∷◌ b) (take-length-take n bs)

abbrev pub after_part : List ℕ → Stream → Stream
after_part bs s = record s { sent = s.sent ++ take 3 bs; room = s.room - length (take 3 bs) }

pub write_part_stream-part :
    (bs : List ℕ) (s : Stream)
    → length bs ≤ s.room
    → (k : ℕ) × (s' : Stream) × (write_part_stream bs s ≡ (ok k, s'))
      × (k ≤ length bs)
      × (0 < length bs → 0 < k)
      × (s'.sent ≡ s.sent ++ take k bs)
      × (s'.pending ≡ s.pending)
      × (s'.room + k ≡ s.room)
write_part_stream-part bs s h = (
  length (take 3 bs),
  after_part bs s,
  write_stream-all (take 3 bs) s (omega (arith, length-take 3 bs)),
  omega (arith, length-take 3 bs),
  (λ p. omega (arith, length-take 3 bs)),
  ap (◌++◌ s.sent) (sym (take-length-take 3 bs)),
  refl,
  omega (arith, length-take 3 bs),
)

instance abbrev pub simulated : Asio
simulated = record {
  Socket = Stream;
  pending = λ s. s.pending;
  sent = λ s. s.sent;
  room = λ s. s.room;
  read = read_stream;
  write = write_stream;
  write_some = write_part_stream;
  read_all = λ s bs rest h. (_, read_stream-all s bs rest h, refl, refl, refl);
  read_short = λ n s h. (_, read_stream-short n s h, refl, refl, refl);
  write_all = λ bs s h. (_, write_stream-all bs s h, refl, refl, omega arith);
  write_broken = λ bs s h. (_, write_stream-broken bs s h, refl, refl, refl);
  write_part = write_part_stream-part;
}

take-length : (bs : List ℕ) → take (length bs) bs ≡ bs
take-length [] = refl
take-length (b ∷ bs) = ap (◌∷◌ b) (take-length bs)

pub write_stream-part :
    (bs : List ℕ) (s : Stream)
    → length bs ≤ s.room
    → (k : ℕ) × (s' : Stream) × (write_stream bs s ≡ (ok k, s'))
      × (k ≤ length bs)
      × (0 < length bs → 0 < k)
      × (s'.sent ≡ s.sent ++ take k bs)
      × (s'.pending ≡ s.pending)
      × (s'.room + k ≡ s.room)
write_stream-part bs s h = (
  length bs,
  record s { sent = s.sent ++ bs; room = s.room - length bs },
  write_stream-all bs s h,
  omega arith,
  (λ p. p),
  ap (◌++◌ s.sent) (sym (take-length bs)),
  refl,
  omega arith,
)

-- The same socket, but `write_some` writes all it is given.
instance abbrev pub eager : Asio
eager = record simulated { write_some = write_stream; write_part = write_stream-part }
