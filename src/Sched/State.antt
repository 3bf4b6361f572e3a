-- ===== src/Sched/State.antt =====
-- internal/sched/sched.go: the events, the registry of runs and the state of the core. What the core
-- hands to other goroutines is an effect: a started run, a released claim, a canceled context.
use golang_ap.Prelude.{
  ℕ, ◌/◌, ◌%◌, ℤ, pos, Bool, true, false, ◌&&◌, Option, none, some, List, [], ◌∷◌, ◌++◌, ◌==◌,
  ◌==ℤ◌, ◌+ℤ◌, neg_ℤ, ltb, length, if◌then◌else◌,
}
use golang_ap.Text.{Str, str}
use golang_ap.Policy.{System}
use golang_ap.Match.{ClaimLib, Table, remove}
use golang_ap.Key.{job_key}
use golang_ap.Queue.State.{World, Queue}
use golang_ap.Queue.Sched.{modify}
use golang_ap.Queue.Actions.{ActionRequest}

-- jobKey
abbrev pub JobKey : Type 0
JobKey = ℤ × ℤ

unfoldable pub same_key : JobKey → JobKey → Bool
same_key (c, p) (d, r) = (c ==ℤ d) && (p ==ℤ r)

-- An error of a run: one that is or wraps ErrDetached, or another.
pub data RunError : Type 0 where
  err_detached : Str → RunError
  err_other : Str → RunError

unfoldable pub err_str : Option RunError → Str
err_str none = str ""
err_str (some (err_detached m)) = m
err_str (some (err_other m)) = m

unfoldable pub is_detached : Option RunError → Bool
is_detached (some (err_detached m)) = true
is_detached _ = false

-- shadow.Result, of which the core reads the raw wait status; it is not negative.
pub record Result : Type 0 where
  pub exit_status : ℕ

unfoldable pub exit_code : Result → Option ℤ
exit_code r = if r.exit_status % 128 == 0 then some (pos ((r.exit_status / 256) % 256)) else none

unfoldable pub term_signal : Result → Option ℤ
term_signal r = if r.exit_status % 128 == 0 then none else some (pos (r.exit_status % 128))

pub record RunInfo : Type 0 where
  pub claim_id : Str
  pub slot_name : Str
  pub vacated : Bool
  pub detached : Bool
  -- what the shared atomic `detach` holds
  pub detach : Bool
  pub reconnect : Bool
  -- channels, by number
  pub waiters : List ℕ

-- The map of running jobs.
abbrev pub Runs : Type 0
Runs = List (JobKey × RunInfo)

unfoldable pub find_run : JobKey → Runs → Option RunInfo
unfolding same_key
find_run k [] = none
find_run k ((j, ri) ∷ m) = if same_key j k then some ri else find_run k m

unfoldable pub put_run : JobKey → RunInfo → Runs → Runs
unfolding same_key
put_run k ri [] = (k, ri) ∷ []
put_run k ri ((j, r) ∷ m) = if same_key j k then (j, ri) ∷ m else (j, r) ∷ put_run k ri m

unfoldable pub drop_run : JobKey → Runs → Runs
unfolding same_key
drop_run k [] = []
drop_run k ((j, r) ∷ m) = let rest = drop_run k m in if same_key j k then rest else (j, r) ∷ rest

-- Sets of jobs.
unfoldable pub has_key : JobKey → List JobKey → Bool
unfolding same_key
has_key k [] = false
has_key k (j ∷ js) = if same_key j k then true else has_key k js

unfoldable pub drop_key : JobKey → List JobKey → List JobKey
unfolding same_key
drop_key k [] = []
drop_key k (j ∷ js) = let rest = drop_key k js in if same_key j k then rest else j ∷ rest

unfoldable pub is_idle : Runs → Bool
is_idle [] = true
is_idle (r ∷ rs) = false

-- The counters of stats.Collector that the core advances.
pub record Stats : Type 0 where
  pub jobs_started : ℕ
  pub jobs_completed : ℕ
  pub jobs_exited : ℕ
  pub shadow_exceptions : ℕ
  pub matches_received : ℕ

module _ (w : World) (claims : ClaimLib) where
  open w use {lib}
  open lib use {Ad}

  -- negotiate.Match
  pub record NegotiatedMatch : Type 0 where
    pub cluster : ℤ
    pub proc : ℤ
    pub claim_id : Str
    pub extra_claims : Str
    pub slot_name : Str
    pub match_ad : Ad

  -- A call of userlog.Manager.
  pub data UserEvent : Type 0 where
    execute : Ad → Str → Str → UserEvent
    terminated : Ad → Bool → ℤ → UserEvent
    held_core : Ad → Str → ℤ → ℤ → UserEvent
    evicted : Ad → Str → UserEvent
    disconnected : Ad → Str → Str → Str → UserEvent
    reconnect_failed : Ad → Str → Str → UserEvent

  pub data Event : Type 0 where
    ev_match : NegotiatedMatch → Event
    ev_started : ℤ → ℤ → Str → Str → Event
    ev_exited : ℤ → ℤ → Option Result → Option RunError → Event
    -- the error, whether it panicked, the claim, and whether that is released
    ev_failed : ℤ → ℤ → RunError → Bool → Str → Bool → Event
    ev_reschedule : Event
    ev_teardown : ℤ → ℤ → Option ℕ → Event
    ev_drain : ℕ → Event
    ev_reconnect_failed : ℤ → ℤ → Str → RunError → Event
    ev_recover : Option ℕ → Event
    ev_policy_remove : ℤ → ℤ → Str → Event
    ev_policy_hold : ℤ → ℤ → Str → ℤ → ℤ → Event
    ev_policy_release : ℤ → ℤ → Str → Event
    ev_policy_done : JobKey → Event

  -- What other goroutines and channels see of the core.
  pub data Effect : Type 0 where
    release_claim : Str → Effect
    run_job : JobKey → NegotiatedMatch → Ad → Effect
    reconnect_job : JobKey → Str → Ad → Effect
    cancel_run : JobKey → Effect
    close_channel : ℕ → Effect
    write_user_log : UserEvent → Effect
    nudge_advertise : Effect
    nudge_materialize : Effect
    apply_off_core : JobKey → ActionRequest → Effect

  -- The options that the handlers read.
  pub record Config : Type 0 where
    pub sweep_interval : ℕ
    pub max_exceptions : ℤ
    pub reconnect_disabled : Bool
    pub default_job_lease : ℤ
    -- userlog is not nil, onJobLeftIdle is not nil
    pub user_log : Bool
    pub job_left_idle : Bool
    pub sys_policy : Option (System lib)

  -- The readings of the clock while an event is handled: Unix seconds, and nanoseconds for each
  -- lease renewal of a sweep and for its expiry.
  pub record Clock : Type 0 where
    pub now : ℤ
    pub renew_at : JobKey → ℕ
    pub sweep_at : ℕ

  pub record Core : Type 0 where
    pub queue : Queue w
    pub matches : Table claims Ad
    pub running : Runs
    pub running_gauge : ℤ
    pub draining : Bool
    pub drain_done : Option ℕ
    pub policy_pending : List JobKey
    pub stats : Stats
    -- the channel of events, and the effects so far
    pub events : List Event
    pub effects : List Effect

  unfoldable pub tell : Effect → Core → Core
  tell e s = record s { effects = s.effects ++ (e ∷ []) }

  -- An event for a full channel is dropped.
  unfoldable pub submit_event : Event → Core → Core
  submit_event ev s =
      if ltb (length s.events) 256 then record s { events = s.events ++ (ev ∷ []) } else s

  unfoldable pub drop_match : Str → Core → Core
  drop_match claim s = record s { matches = (remove claims Ad claim s.matches).0 }

  -- close of each waiter
  unfoldable pub close_all : List ℕ → Core → Core
  unfolding tell
  close_all [] s = s
  close_all (ch ∷ chs) s = close_all chs (tell (close_channel ch) s)

  -- The run's entry leaves the registry; the gauge counts it out and its context is canceled.
  unfoldable pub forget_run : JobKey → Option RunInfo → Core → Core
  unfolding tell
  forget_run key none s = s
  forget_run key (some ri) s = tell (cancel_run key) (record s {
    running = drop_run key s.running;
    running_gauge = s.running_gauge +ℤ neg_ℤ (pos 1);
  })

  unfoldable pub reap_waiters : Option RunInfo → Core → Core
  unfolding close_all
  reap_waiters none s = s
  reap_waiters (some ri) s = close_all ri.waiters s

  unfoldable pub finish_drain : Option ℕ → Core → Core
  unfolding tell
  finish_drain none s = s
  finish_drain (some ch) s = tell (close_channel ch) (record s { drain_done = none })

  unfoldable pub maybe_finish_drain : Core → Core
  maybe_finish_drain s = if s.draining && is_idle s.running then finish_drain s.drain_done s else s

  unfoldable pub left_idle : Config → Core → Core
  unfolding tell
  left_idle cfg s = if cfg.job_left_idle then tell nudge_materialize s else s

  -- s.q.Modify
  unfoldable pub modify_job : ℤ → ℤ → (Ad → Ad) → Core → Core
  modify_job c p fn s = record s { queue = (modify w c p fn s.queue).0 }

  -- A call of the user log with the job's ad, where both are there.
  unfoldable pub log_job : Config → ℤ → ℤ → (Ad → UserEvent) → Core → Core
  unfolding tell
  log_job cfg c p ev s =
      if cfg.user_log
      then elim (w.get s.queue.coll (job_key c p)) [
        | none ↦ s
        | some ad ↦ tell (write_user_log (ev ad)) s
      ]
      else s
