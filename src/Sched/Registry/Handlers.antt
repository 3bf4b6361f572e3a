-- ===== src/Sched/Registry/Handlers.antt =====
-- The handlers of internal/sched/sched.go that start and end no run keep the registry steady.
use mathlib.Core.List.{append-nil}
use golang_ap.Prelude.{
  ◌*◌, ℤ, Bool, ◌||◌, Option, none, some, List, [], ◌∷◌, ◌≡◌, refl, ap, sym, if◌then◌else◌, is_some,
}
use golang_ap.Text.{Str}
use golang_ap.Match.{ClaimLib, MatchRec, renew_lease_for, expire_sweep}
use golang_ap.Queue.State.{World, Queue}
use golang_ap.Sched.State.{
  JobKey, drop_key, RunInfo, Runs, find_run, Config, Clock, Core, left_idle,
}
use golang_ap.Queue.Actions.{ActionRequest}
use golang_ap.Queue.Sched.{modify}
use golang_ap.Sched.Periodic.{handle_policy_action, policy_done}
use golang_ap.Sched.Ads.{started_ad}
use golang_ap.Sched.Exits.{count_started}
use golang_ap.Sched.Sweep.{
  refresh_lease, renew_run, renew_all, lose_claim, lose_all, sweep_expired, holds_claim,
}
use golang_ap.Sched.Handle.{note_start, started_claim, log_execute, handle_started}
use golang_ap.Sched.Registry.Kept.{
  IsKept, IsKept-refl, ◌⨾◌, tell-IsKept, if_IsKept, modify_job-IsKept, log_job-IsKept,
  left_idle-IsKept,
}
use golang_ap.Sched.Registry.Steady.{
  IsRetag-refl, IsCovered, IsCovered-self, IsSteady, IsSteady-of, IsSteady-trans, IsSteady-refl,
  if_IsSteady, put-IsSteady, vacate_run-IsSteady,
}

module _ (w : World) (claims : ClaimLib) where
  open w use {lib}
  open lib use {Ad}

  note_start-IsSteady :
      (k : JobKey) (slot claim : Str) (ri : Option RunInfo) (s : Core w claims)
      → find_run k s.running ≡ ri
      → IsSteady w claims s (note_start w claims k slot claim ri s)
  unfolding note_start
  note_start-IsSteady k slot claim none s h = IsSteady-refl w claims
  note_start-IsSteady k slot claim (some ri) s h = put-IsSteady w claims k _ s (ap is_some h)

  refresh_lease-IsKept :
      (now c p : ℤ) (s : Core w claims) → IsKept w claims s (refresh_lease w claims now c p s)
  unfolding refresh_lease
  refresh_lease-IsKept now c p s =
      if_IsKept w claims _ (modify_job-IsKept w claims c p _ s) (IsKept-refl w claims)

  renew_run-IsKept :
      (cfg : Config w claims) (clk : Clock w claims) (k : JobKey) (ri : RunInfo) (s : Core w claims)
      → IsKept w claims s (renew_run w claims cfg clk k ri s)
  unfolding renew_run
  renew_run-IsKept cfg clk (c, p) ri s =
      let g = refresh_lease-IsKept clk.now c p (record s {
        matches =
            (renew_lease_for claims Ad (clk.renew_at (c, p)) (3 * cfg.sweep_interval) ri.claim_id
              s.matches).0;
      }) in
      if_IsKept w claims (ri.vacated || ri.detached) (IsKept-refl w claims)
        (record { runs = g.runs; gauge = g.gauge; drain = g.drain; done = g.done; told = g.told })

  renew_all-IsSteady :
      (cfg : Config w claims) (clk : Clock w claims) (runs : Runs) (s : Core w claims)
      → IsSteady w claims s (renew_all w claims cfg clk runs s)
  unfolding renew_all
  renew_all-IsSteady cfg clk [] s = IsSteady-refl w claims
  renew_all-IsSteady cfg clk ((k, ri) ∷ runs) s =
      IsSteady-trans w claims (IsSteady-of w claims (renew_run-IsKept cfg clk k ri s))
        (renew_all-IsSteady cfg clk runs _)

  lose_claim-IsSteady :
      (now : ℤ) (rec : MatchRec Ad) (runs : Runs) (s : Core w claims)
      → IsCovered runs s.running
      → IsSteady w claims s (lose_claim w claims now rec runs s)
  unfolding lose_claim
  lose_claim-IsSteady now rec [] s h = IsSteady-refl w claims
  lose_claim-IsSteady now rec ((k, ri) ∷ runs) s h =
      if_IsSteady w claims (holds_claim w claims rec ri)
        (vacate_run-IsSteady w claims now k ri s h.0) (lose_claim-IsSteady now rec runs s h.1)

  lose_all-IsSteady :
      (now : ℤ) (recs : List (MatchRec Ad)) (s : Core w claims)
      → IsSteady w claims s (lose_all w claims now recs s)
  unfolding lose_all
  lose_all-IsSteady now [] s = IsSteady-refl w claims
  lose_all-IsSteady now (rec ∷ recs) s =
      IsSteady-trans w claims (lose_claim-IsSteady now rec s.running s (IsCovered-self s.running))
        (lose_all-IsSteady now recs _)

  pub sweep_expired-IsSteady :
      (cfg : Config w claims) (clk : Clock w claims) (s : Core w claims)
      → IsSteady w claims s (sweep_expired w claims cfg clk s)
  unfolding sweep_expired
  sweep_expired-IsSteady cfg clk s =
      let swept = lose_all-IsSteady clk.now _ (record (renew_all w claims cfg clk s.running s) {
        matches =
            (expire_sweep claims Ad clk.sweep_at
              (renew_all w claims cfg clk s.running s).matches).0;
      }) in
      IsSteady-trans w claims (renew_all-IsSteady cfg clk s.running s) (record {
        runs = swept.runs;
        gauge = swept.gauge;
        drain = swept.drain;
        done = swept.done;
        told = swept.told;
      })

  log_execute-IsKept :
      (cfg : Config w claims) (c p : ℤ) (slot : Str) (ri : Option RunInfo) (s : Core w claims)
      → IsKept w claims s (log_execute w claims cfg c p slot ri s)
  unfolding log_execute
  log_execute-IsKept cfg c p slot ri s =
      if_IsKept w claims _ (IsKept-refl w claims) (log_job-IsKept w claims cfg c p _ s)

  count_started-IsKept : (s : Core w claims) → IsKept w claims s (count_started w claims s)
  unfolding count_started
  count_started-IsKept s = record {
    runs = refl;
    gauge = refl;
    drain = refl;
    done = refl;
    told = ([], sym (append-nil s.effects));
  }

  after_modify :
      (ok : Bool) (q : Queue w) (cfg : Config w claims) (c p : ℤ) (slot : Str) (ri : Option RunInfo)
      (s : Core w claims)
      → let s2 = record s { queue = q } in
        IsSteady w claims s (
          if ok
          then left_idle w claims cfg
              (log_execute w claims cfg c p slot ri (count_started w claims s2))
          else s2)
  after_modify ok q cfg c p slot ri s =
      let s2 : Core w claims = record s { queue = q } in
      let same : IsSteady w claims s s2 = record {
        runs = IsRetag-refl;
        gauge = refl;
        drain = refl;
        done = refl;
        told = ([], sym (append-nil s.effects));
      } in
      if_IsSteady w claims ok
        (IsSteady-trans w claims same (
          IsSteady-trans w claims (IsSteady-of w claims (count_started-IsKept s2)) (
            IsSteady-trans w claims (IsSteady-of w claims (log_execute-IsKept cfg c p slot ri _))
              (IsSteady-of w claims (left_idle-IsKept w claims cfg _)))))
        same

  pub handle_started-IsSteady :
      (cfg : Config w claims) (now c p : ℤ) (slot claim : Str) (s : Core w claims)
      → IsSteady w claims s (handle_started w claims cfg now c p slot claim s)
  unfolding handle_started
  handle_started-IsSteady cfg now c p slot claim s =
      let ri = find_run (c, p) s.running in
      let s1 = note_start w claims (c, p) slot claim ri s in
      let m =
        modify w c p
          (started_ad w cfg.default_job_lease slot (started_claim w claims slot claim ri) now)
          s1.queue in
      IsSteady-trans w claims (note_start-IsSteady (c, p) slot claim ri s refl)
        (after_modify m.1 m.0 cfg c p slot ri s1)

  noted :
      (keys : List JobKey) (s : Core w claims)
      → IsKept w claims s (record s { policy_pending = keys })
  noted keys s = record {
    runs = refl;
    gauge = refl;
    drain = refl;
    done = refl;
    told = ([], sym (append-nil s.effects));
  }

  pub handle_policy_action-IsKept :
      (c p : ℤ) (req : ActionRequest) (s : Core w claims)
      → IsKept w claims s (handle_policy_action w claims c p req s)
  unfolding handle_policy_action
  handle_policy_action-IsKept c p req s = if_IsKept w claims _ (IsKept-refl w claims) (
      if_IsKept w claims _ (IsKept-refl w claims)
        (◌⨾◌ w claims (noted ((c, p) ∷ s.policy_pending) s) (tell-IsKept w claims _ _)))

  pub policy_done-IsKept :
      (key : JobKey) (s : Core w claims) → IsKept w claims s (policy_done w claims key s)
  unfolding policy_done
  policy_done-IsKept key s = noted (drop_key key s.policy_pending) s
