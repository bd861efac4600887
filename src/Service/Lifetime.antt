-- ===== src/Service/Lifetime.antt =====
-- src/index.ts: how the service starts and ends: the defaults of its configuration, `Service.init`
-- with its cleanup, the retention of changes, the listeners, and the model streams.
use dsh_chaos.Common.{
  ℕ, ◌-◌, ◌*◌, String, Bool, true, false, not, ◌&&◌, ◌||◌, Option, none, some, List, [], ◌∷◌, ◌++◌,
  filter, any, leb, nat_eq, or_else, if◌then◌else◌,
}
use Prim.Native.Char.{code}
use dsh_chaos.Common.Texts.{append, trim, is_empty}
use dsh_chaos.Common.Results.{Result, ok, throws}
use dsh_chaos.Common.Acts.{Act, give, ◌>>=◌, ◌>>◌, demand, catch_with}
use dsh_chaos.Runtime.Host.{Manager}
use dsh_chaos.Runtime.Manager.{confirm_model_seen}
use dsh_chaos.Runtime.Lifecycle.{close, restore}
use dsh_chaos.Delivery.Bridge.{
  Bridge, idle, scanning, drained, start, stop, initial, accepts_interval,
}
use dsh_chaos.Workspace.Files.{Files}
use dsh_chaos.Service.Core.{Core, Platform}
use dsh_chaos.Service.State.{Service, get_state, outside, warn, host_of}
use dsh_chaos.Service.Agents.{attempt, managed}

-- `Config`.
pub record Config : Type 0 where
  pub path : String
  pub delivery_poll_ms : Option ℕ
  pub remote_enabled : Option Bool
  pub web_user_handle : Option String
  pub web_user_display_name : Option String

-- 7 days and 1 hour are the retention and the period of its timer, in milliseconds.
abbrev pub change_retention_ms : ℕ
change_retention_ms = 7 * 24 * 60 * 60 * 1000

-- `[a-z0-9-_]`.
abbrev pub is_slug_char : ℕ → Bool
is_slug_char n = (leb 97 n && leb n 122) || (leb 48 n && leb n 57) || nat_eq n 45 || nat_eq n 95

-- `.replace(/[^a-z0-9-_]/g, '-')`.
unfoldable pub slug : String → String
slug String.[] = ""
slug (String.◌∷◌ c s) =
    let rest = slug s in if is_slug_char (code c) then String.◌∷◌ c rest else append "-" rest

-- `a || b` on texts.
abbrev pub or_text : Option String → String → String
or_text none d = d
or_text (some s) d = if is_empty s then d else s

unfoldable pub default_web_user_handle : (String → String) → Option String → String
default_web_user_handle to_lower_case none = "user"
default_web_user_handle to_lower_case (some name) =
    if is_empty (trim name) then "user" else slug (to_lower_case (trim name))

unfoldable pub default_web_user_display_name : Option String → String
default_web_user_display_name none = "User"
default_web_user_display_name (some name) = or_text (some (trim name)) "User"

abbrev pub new_manager : Manager
new_manager = record { active = []; identities = []; pending_receipts = []; closing = false }

-- The listeners of a Set: an added one is appended unless it is there.
unfoldable pub on_change : {W : Type 0} → ℕ → Service W → Service W
on_change l s =
    if any (λ k. nat_eq k l) s.listeners then s else record s { listeners = s.listeners ++ l ∷ [] }

unfoldable pub off_change : {W : Type 0} → ℕ → Service W → Service W
off_change l s = record s { listeners = filter (λ k. not (nat_eq k l)) s.listeners }

abbrev pub update : {W : Type 0} → (Service W → Service W) → Act (Service W) (Unit {0})
update f s = (ok tt, f s)

abbrev pub has_failed : {A : Type 0} → Result A → Bool
has_failed (ok a) = false
has_failed (throws e) = true

module _ {W Handle : Type 0} (core : Core W) (platform : Platform W) (files : Files W Handle)
    (instructions : String) where
  -- `await runtimes?.close()`, after `this.runtimes` was cleared.
  unfoldable pub close_manager : Option Manager → Act (Service W) (Unit {0})
  close_manager none s = (ok tt, s)
  close_manager (some m) s =
      let run =
        close (host_of core platform files instructions s.active)
          (record { manager = m; world = s.world; warnings = s.warnings }) in
      (run.0, record s { world = run.1.world; warnings = run.1.warnings })

  -- `await delivery?.stop()`, after `this.delivery` was cleared: a bridge that runs waits for the
  -- scan under way.
  unfoldable pub stop_delivery : Option Bridge → Act (Service W) (Unit {0})
  stop_delivery none = give tt
  stop_delivery (some b) = if b.stopped then give tt else elim (stop b).running [
    | idle ↦ give tt
    | scanning ↦ outside platform.drain_ended
    | drained ↦ give tt
  ]

  -- The cleanup: each part goes, and the failures of the parts are thrown together at the end. The
  -- pruning under way, which it awaits first, is `prune_expired_changes`.
  unfoldable pub close_runtime_stack : Act (Service W) (Unit {0})
  close_runtime_stack = do
    s ← get_state
    update λ t. record t { retention_stopped = true; retention_timer = false; delivery = none }
    stopped ← attempt (stop_delivery s.delivery)
    m ← get_state
    let runtimes = m.runtimes
    update λ t. record t { runtimes = none }
    closed ← attempt (close_manager runtimes)
    update λ t. record t { listeners = []; active = false }
    ended ← attempt (outside core.close)
    demand (not (has_failed stopped || has_failed closed || has_failed ended))
        "dsh-chaos runtime stack cleanup failed"

  -- One prune, of what is older than the retention.
  unfoldable pub prune_changes : Act (Service W) (Unit {0})
  prune_changes = do
    now ← outside platform.now_ms
    outside (core.prune_changes_before (now - change_retention_ms)) >>= λ _. give tt

  -- One turn of the timer: a failure is logged, and nothing runs once stopped.
  unfoldable pub prune_expired_changes : Act (Service W) (Unit {0})
  prune_expired_changes = do
    s ← get_state
    if s.retention_stopped
        then give tt
        else catch_with prune_changes
            (λ e. do warn "dsh-chaos change retention pruning failed"; warn e)

  unfoldable pub ensure_web_user : Config → Act (Service W) (Unit {0})
  ensure_web_user config =
      if or_else config.remote_enabled true
      then (outside (
            core.ensure_user
              (or_text config.web_user_handle
                (default_web_user_handle platform.to_lower_case platform.user_name))
              (or_text config.web_user_display_name
                (default_web_user_display_name platform.user_name)))
          >>= λ _. give tt)
      else give tt

  -- `Service.init`; the remote half and the stream's listener are installed by the host.
  unfoldable pub init :
      (compare_names : String → String → Bool) (sep_char : ℕ) → Config → Act (Service W) (Unit {0})
  init compare_names sep_char config = do
    outside (platform.open_collab config.path)
    update λ s. record s { active = true; retention_stopped = false }
    prune_changes
    update λ s. record s { retention_timer = true; runtimes = some new_manager }
    ensure_web_user config
    managed core platform files instructions compare_names sep_char restore
    demand (accepts_interval (or_else config.delivery_poll_ms 500))
        "delivery poll interval must be an integer of at least 50ms"
    update λ s. record s { delivery = some (start initial) }

  -- `confirmBeforeIteration`: the receipts of the Session are confirmed before the first chunk. The
  -- manager that it holds is the service's for as long as the listener stands.
  unfoldable pub confirm_before_iteration :
      {Chunk : Type 0}
      → (compare_names : String → String → Bool) (sep_char : ℕ) → (session_id : String)
      → Act W (List Chunk)
      → Act (Service W) (List Chunk)
  confirm_before_iteration compare_names sep_char session_id stream = do
    managed core platform files instructions compare_names sep_char
        (λ host. confirm_model_seen host session_id)
    outside stream
