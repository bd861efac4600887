-- ===== src/Client/Sockets.antt =====
-- The browser keeps one socket at most.
use dsh_chaos.Common.{
  ℕ, String, Option, true, false, ap, none, some, List, [], ◌∷◌, any, nat_eq, ◌≡◌, refl, ◌⊎◌, inl,
  inr, arith, Bool-cases,
}
use dsh_chaos.Client.Feed.{
  Socket, Feed, no_feed, disconnect, connect, receive, Happening, connects, disconnects, opened,
  failed, resync, frame, feed_step, feed_run,
}

-- The sockets that are open are the source, if there is one.
abbrev pub IsSingle : {Change : Type 0} → Feed Change → Type 0
IsSingle f =
    ((f.source ≡ none) × (f.sockets ≡ []))
    ⊎ ((s : Socket) × (f.source ≡ some s) × (f.sockets ≡ s ∷ []))

module _ {Change : Type 0} where
  disconnect-empty :
      (f : Feed Change)
      → IsSingle f
      → ((disconnect f).source ≡ none) × ((disconnect f).sockets ≡ [])
  unfolding disconnect
  disconnect-empty f (inl (a, b)) = ground arith
  disconnect-empty f (inr (s, a, b)) = ground arith

  connect-IsSingle : (cursor : String) (f : Feed Change) → IsSingle f → IsSingle (connect cursor f)
  unfolding connect
  connect-IsSingle cursor f h =
      let (none_left, closed) = disconnect-empty f h in
      inr (record { number = f.made; cursor = cursor }, refl, ground arith)

  disconnect-IsSingle : (f : Feed Change) → IsSingle f → IsSingle (disconnect f)
  disconnect-IsSingle f h = inl (disconnect-empty f h)

  receive-IsSingle : (o : Option Change) (f : Feed Change) → IsSingle f → IsSingle (receive o f)
  receive-IsSingle none f h = h
  receive-IsSingle (some c) f h = h

  module _ (parse : String → Option Change) where
    feed_step-IsSingle :
        (e : Happening) (f : Feed Change) → IsSingle f → IsSingle (feed_step parse e f)
    unfolding feed_step
    feed_step-IsSingle (connects cursor) f h = connect-IsSingle cursor f h
    feed_step-IsSingle disconnects f h = disconnect-IsSingle f h
    feed_step-IsSingle (opened n) f h = elim (Bool-cases (any (λ s. nat_eq s.number n) f.sockets)) [
      | inl here ↦ rw here h
      | inr gone ↦ rw gone h
    ]
    feed_step-IsSingle (failed n) f h = elim (Bool-cases (any (λ s. nat_eq s.number n) f.sockets)) [
      | inl here ↦ rw here h
      | inr gone ↦ rw gone h
    ]
    feed_step-IsSingle (frame n text) f h =
        elim (Bool-cases (any (λ s. nat_eq s.number n) f.sockets)) [
          | inl here ↦ rw here (receive-IsSingle (parse text) f h)
          | inr gone ↦ rw gone h
        ]
    feed_step-IsSingle (resync n) f h = elim (Bool-cases (any (λ s. nat_eq s.number n) f.sockets)) [
      | inl here ↦ rw here (disconnect-IsSingle f h)
      | inr gone ↦ rw gone h
    ]

    run_lem : (es : List Happening) (f : Feed Change) → IsSingle f → IsSingle (feed_run parse es f)
    unfolding feed_run
    run_lem [] f h = h
    run_lem (e ∷ es) f h = run_lem es (feed_step parse e f) (feed_step-IsSingle e f h)

    -- Whatever the store asked for and the sockets reported, the browser has no open socket but
    -- the one that the feed holds. A disconnect then leaves none open, a connection closes it and
    -- leaves only the new one with the cursor asked for, and a resync frame of the open socket
    -- leaves none open, while one of a closed socket changes nothing.
    pub feed_run-IsSingle :
        (es : List Happening) (cursor : String) (n : ℕ)
        → let f = feed_run parse es no_feed in
          IsSingle f
          × ((feed_step parse disconnects f).sockets ≡ [])
          × ((feed_step parse (connects cursor) f).sockets
              ≡ record { number = f.made; cursor = cursor } ∷ [])
          × ((any (λ s. nat_eq s.number n) f.sockets ≡ true)
                × ((feed_step parse (resync n) f).sockets ≡ [])
              ⊎ ((any (λ s. nat_eq s.number n) f.sockets ≡ false)
                  × (feed_step parse (resync n) f ≡ f)))
    unfolding feed_step connect
    feed_run-IsSingle es cursor n =
        let f = feed_run parse es no_feed in
        let single = run_lem es no_feed (inl (refl, refl)) in
        let (unheld, closed) = disconnect-empty f single in
        (
          single,
          closed,
          ap (λ rest. record { number = f.made; cursor = cursor } ∷ rest) closed,
          elim (Bool-cases (any (λ s. nat_eq s.number n) f.sockets)) [
            | inl here ↦ inl (here, rw here closed)
            | inr gone ↦ inr (gone, rw gone refl)
          ],
        )
