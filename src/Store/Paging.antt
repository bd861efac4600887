-- ===== src/Store/Paging.antt =====
-- The older pages of a history, and a page that is under way when the store is resynchronised.
use dsh_chaos.Common.{ℕ, Bool, true, false, not, List, [], ◌∷◌, ◌≡◌, ◌<◌, arith, ltb, all}
use dsh_chaos.Store.State.{Store, mark_read}
use dsh_chaos.Store.Activation as Activation
use dsh_chaos.Store.Activation.{known_messages, put_messages, put_tail, put_memberships, put_read}
use dsh_chaos.Store.Changes as Changes
use dsh_chaos.Store.Reload as Reload
use dsh_chaos.Store.Events.{stepping, Event, step, run}
use dsh_chaos.Store.Fences.{run-load_generation}

-- The answer of an older page that was asked for after generation `g`.
abbrev pub is_later_page : ℕ → Event → Bool
is_later_page g (Event.older_loaded h id cursor page) = ltb g h
is_later_page g (Event.older_failed h) = ltb g h
is_later_page g _ = false

step-older_loading :
    (e : Event) (g : ℕ) (s : Store)
    → is_later_page g e ≡ false
    → g < s.load_generation
    → s.older_loading ≡ true
    → (step e s).0.older_loading ≡ true
unfolding stepping Activation.activation_loaded Activation.older_loaded Activation.message_sent
    Changes.message_page_loaded put_tail put_read put_messages Changes.count_replies mark_read
step-older_loading e g s h later busy = ground arith

step-load_generation_lt :
    (e : Event) (g : ℕ) (s : Store) → g < s.load_generation → g < (step e s).0.load_generation
unfolding run
step-load_generation_lt e g s h = let kept = run-load_generation (e ∷ []) s in ground arith

run-older_loading :
    (es : List Event) (g : ℕ) (s : Store)
    → all (λ e. not (is_later_page g e)) es ≡ true
    → g < s.load_generation
    → s.older_loading ≡ true
    → (run es s).older_loading ≡ true
unfolding run
run-older_loading [] g s h later busy = busy
run-older_loading (e ∷ es) g s h later busy =
    run-older_loading es g (step e s).0 (ground arith) (step-load_generation_lt e g s later)
      (step-older_loading e g s (ground arith) later busy)

load_older-busy : (s : Store) → s.older_loading ≡ true → Activation.load_older s ≡ (s, [])
unfolding Activation.load_older
load_older-busy s busy = ground arith

resync-later :
    (s : Store)
    → s.older_loading ≡ true
    → (s.load_generation < (step Event.resync s).0.load_generation)
      × ((step Event.resync s).0.older_loading ≡ true)
unfolding step Reload.resync
resync-later s busy = ground arith

-- A resync does not end the loading of an older page that is under way: whatever happens
-- afterwards, short of the answer to an older page asked for after the resync, the store still
-- counts that page as loading, and so it asks for no older page any more.
pub older_page_stuck :
    (es : List Event) (s : Store)
    → s.older_loading ≡ true
    → all (λ e. not (is_later_page s.load_generation e)) es ≡ true
    → let t = run (Event.resync ∷ es) s in
      (t.older_loading ≡ true) × (Activation.load_older t ≡ (t, []))
unfolding run
older_page_stuck es s busy none_later =
    let t = run (Event.resync ∷ es) s in
    let (later, kept) = resync-later s busy in
    let stuck : t.older_loading ≡ true =
      run-older_loading es s.load_generation (step Event.resync s).0 none_later later kept in
    (stuck, load_older-busy t stuck)
