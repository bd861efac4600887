-- ===== src/Client/Tests.antt =====
-- Calls of the browser at concrete values.
use dsh_chaos.Common.{
  refl, ℕ, String, Option, any, nat_eq, ◌+◌, true, false, some, [], ◌∷◌, ◌≡◌, ◌⊎◌,
}
use dsh_chaos.Common.Results.{Result, ok}
use dsh_chaos.Remote.Request.{Request}
use dsh_chaos.Client.Calls.{Method, post}
use dsh_chaos.Common.{List}
use dsh_chaos.Client.Feed.{
  Happening, connects, disconnects, opened, feed_step, frame, resync, changed, live,
  resync_required, no_feed, feed_run,
}
use dsh_chaos.Client.Sockets.{IsSingle, feed_run-IsSingle}
use dsh_chaos.Client.Meaning.{request_of, is_accepted}
use dsh_chaos.Client.Agreement.{is_refused, told, post-performs}

abbrev summaries : Method
summaries = Method.thread_summaries ("m1" ∷ "m2" ∷ [])

-- A core that counts the calls.
abbrev counting : Request → ℕ → Result ℕ × ℕ
counting req n = (ok n, n + 1)

abbrev claim : Method
claim = Method.task_claim "m1" (some "agent-1")

post-performs_example :
    let done = counting (request_of "me" claim) 4 in
    ((is_accepted claim ≡ true)
      × (post counting "me" claim 4 ≡ (told (request_of "me" claim) done.0, done.1)))
    ⊎ ((is_accepted claim ≡ false)
        × (is_refused (post counting "me" claim 4).0 ≡ true)
        × ((post counting "me" claim 4).1 ≡ 4))
post-performs_example = post-performs counting "me" claim 4

-- Two connections and a resync of the second.
abbrev session : List Happening
session =
    connects "0" ∷ opened 0 ∷ frame 0 "c" ∷ connects "7" ∷ frame 0 "late" ∷ opened 1 ∷ resync 1 ∷ []

abbrev before_resync : List Happening
before_resync = connects "0" ∷ opened 0 ∷ connects "7" ∷ opened 1 ∷ []

feed_run-IsSingle_example :
    let parse : String → Option String = λ text. some text in
    let f = feed_run parse before_resync no_feed in
    IsSingle f
    × ((feed_step parse disconnects f).sockets ≡ [])
    × ((feed_step parse (connects "9") f).sockets ≡ record { number = f.made; cursor = "9" } ∷ [])
    × ((any (λ s. nat_eq s.number 1) f.sockets ≡ true)
          × ((feed_step parse (resync 1) f).sockets ≡ [])
        ⊎ ((any (λ s. nat_eq s.number 1) f.sockets ≡ false) × (feed_step parse (resync 1) f ≡ f)))
feed_run-IsSingle_example = feed_run-IsSingle (λ text. some text) before_resync "9" 1

closed_socket_is_silent :
    (feed_run (λ text. some text) session no_feed).told
    ≡ live ∷ changed "c" ∷ live ∷ resync_required ∷ []
unfolding feed_run
closed_socket_is_silent = refl
