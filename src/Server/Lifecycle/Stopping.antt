-- ===== src/Server/Lifecycle/Stopping.antt =====
-- What a `stop` that ends has done, and the signal that it answers.
use p_rpc.Base.{
  Bool, ◌≡◌, ℕ, List, true, ap, ◌<◌, sym, arith, refl, Bool-cases, inl, inr, ◌==◌, ==_refl, false,
  some,
}
use p_rpc.Socket.{Asio, ok, Result, throws, crash}
use p_rpc.Server.Lifecycle.{
  Threads, Sleeps, finish_reader, finish_handler, finish_responder, stop_listener, stop, Process,
  terminate, sigint, num_handlers, update, stopped,
}
use p_rpc.Server.Listener.{num_readers}
use p_rpc.Server.Lifecycle.Flags.{
  Later, Later-trans, KeepStops, Sets, Sets-then, Sets-each, Sets-finished, Below,
}

module _ ⦃net : Asio⦄ where
  stays : (f : ℕ → Bool) (i j : ℕ) → f j ≡ true → update f i true j ≡ true
  stays f i j h = elim (Bool-cases (i == j)) [ inl same ↦ rw same refl | inr apart ↦ rw apart h ]

  Sets-reader :
      (fs : List (Threads → Threads)) (i : ℕ)
      → KeepStops fs
      → Sets (finish_reader fs i) (λ s. s.reader_stops i ≡ true)
  unfolding finish_reader
  Sets-reader fs i keeps =
      Sets-finished _ _ fs _ keeps
        (λ s. record {
          listener = λ h. h;
          readers = λ j h. stays s.reader_stops i j h;
          handlers = λ j h. h;
          responder = λ h. h;
        })
        (λ s. rw (==_refl i) refl)

  Sets-handler :
      (fs : List (Threads → Threads)) (i : ℕ)
      → KeepStops fs
      → Sets (finish_handler fs i) (λ s. s.handler_stops i ≡ true)
  unfolding finish_handler
  Sets-handler fs i keeps =
      Sets-finished _ _ fs _ keeps
        (λ s. record {
          listener = λ h. h;
          readers = λ j h. h;
          handlers = λ j h. stays s.handler_stops i j h;
          responder = λ h. h;
        })
        (λ s. rw (==_refl i) refl)

  Sets-responder :
      (fs : List (Threads → Threads))
      → KeepStops fs
      → Sets (finish_responder fs) (λ s. s.responder_stops ≡ true)
  unfolding finish_responder
  Sets-responder fs keeps =
      Sets-finished _ _ fs _ keeps
        (λ s. record {
          listener = λ h. h;
          readers = λ j h. h;
          handlers = λ j h. h;
          responder = λ h. refl;
        })
        (λ s. refl)

  -- Every part of the server is told to stop.
  pub record IsStopped (s : Threads) : Type 0 where
    pub listener : s.listener.should_stop ≡ true
    pub readers : (i : ℕ) → i < num_readers → s.reader_stops i ≡ true
    pub handlers : (i : ℕ) → i < num_handlers → s.handler_stops i ≡ true
    pub responder : s.responder_stops ≡ true

  ListenerDone : Threads → Type 0
  ListenerDone s = (s.listener.should_stop ≡ true) × Below (λ x j. x.reader_stops j) 0 num_readers s

  module _ (sleeps : Sleeps) (hr : (i : ℕ) → KeepStops (sleeps.for_reader i))
      (hh : (i : ℕ) → KeepStops (sleeps.for_handler i)) (hs : KeepStops sleeps.for_responder) where
    Sets-listener : Sets (stop_listener sleeps) ListenerDone
    unfolding stop_listener ListenerDone
    Sets-listener s s' e =
        let s1 : Threads = record s { listener = record s.listener { should_stop = true } } in
        let first : Later s s1 = record {
          listener = λ h. refl;
          readers = λ i h. h;
          handlers = λ i h. h;
          responder = λ h. h;
        } in
        let (l, readers) =
          Sets-each (λ i. finish_reader (sleeps.for_reader i) i) (λ x j. x.reader_stops j)
            (λ i. Sets-reader (sleeps.for_reader i) i (hr i)) (λ x y i k. k.readers i) num_readers 0
            s1 s' e in
        (Later-trans s s1 s' first l, (l.listener refl, readers))

    stop_sets : Sets (stop sleeps) (λ s.
        ListenerDone s
        × (Below (λ x j. x.handler_stops j) 0 num_handlers s × (s.responder_stops ≡ true)))
    unfolding stop ListenerDone
    stop_sets =
        Sets-then _ _ ListenerDone _ Sets-listener
          (Sets-then _ _ (Below (λ x j. x.handler_stops j) 0 num_handlers) _
            (Sets-each (λ i. finish_handler (sleeps.for_handler i) i) (λ x j. x.handler_stops j)
              (λ i. Sets-handler (sleeps.for_handler i) i (hh i)) (λ x y i k. k.handlers i)
              num_handlers 0)
            (Sets-responder sleeps.for_responder hs) (λ x y k h j a b. k.handlers j (h j a b)))
          (λ x y k h. (k.listener h.0, λ j a b. k.readers j (h.1 j a b)))

    -- If `Server::stop` ends, the listener, every reader, every handler and the responder are told to
    -- stop, whatever the other threads do while it polls the queues, unless they take a stop back.
    pub stop-IsStopped : (s s' : Threads) → stop sleeps s ≡ (ok tt, s') → IsStopped s'
    unfolding ListenerDone
    stop-IsStopped s s' e =
        let (_, ((accepts, readers), (handlers, responder))) = stop_sets s s' e in
        record {
          listener = accepts;
          readers = λ i h. readers i (omega arith) h;
          handlers = λ i h. handlers i (omega arith) h;
          responder = responder;
        }

    stopped-ends :
        (p p' : Process) (r : Result (Unit {0}) × Threads)
        → stopped p r ≡ (ok tt, p')
        → (r ≡ (ok tt, p'.threads)) × (p'.status ≡ some 0) × (p'.terminated ≡ p.terminated)
    stopped-ends p p' (ok u, s) h =
        let end : p' ≡ record p { status = some 0; threads = s } =
          sym (ap (λ (q : Result (Unit {0}) × Process). q.1) h) in
        (
          ap (λ (x : Process). (ok tt, x.threads)) (sym end),
          ap (λ (x : Process). x.status) end,
          ap (λ (x : Process). x.terminated) end,
        )
    stopped-ends p p' (throws x, s) h =
        absurd (let failed = ap (λ (q : Result (Unit {0}) × Process). q.0) h in cc failed)
    stopped-ends p p' (crash x, s) h =
        absurd (let failed = ap (λ (q : Result (Unit {0}) × Process). q.0) h in cc failed)

    -- The first SIGINT, where `terminate` ends: every part of the server is told to stop, unless other
    -- threads take a stop back while it polls the queues, and the process exits with the status 0;
    -- every signal that comes later is ignored.
    pub terminate-IsStopped :
        (p p' : Process)
        → p.terminated ≡ false
        → terminate sleeps sigint p ≡ (ok tt, p')
        → IsStopped p'.threads
          × (p'.status ≡ some 0)
          × ((signum : ℕ) → terminate sleeps signum p' ≡ (ok tt, p'))
    unfolding terminate
    terminate-IsStopped p p' first e =
        let (ends, status, terminated) =
          stopped-ends (record p { terminated = true }) p' (stop sleeps p.threads)
            (rw first at e) in
        (stop-IsStopped p.threads p'.threads ends, status, (λ signum. ignored signum terminated))
      where
        ignored : (signum : ℕ) → p'.terminated ≡ true → terminate sleeps signum p' ≡ (ok tt, p')
        ignored signum t = elim (Bool-cases (signum == sigint)) [
          | inl int ↦ rw (int, t) refl
          | inr other ↦ rw other refl
        ]
