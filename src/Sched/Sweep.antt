-- ===== src/Sched/Sweep.antt =====
-- internal/sched/sched.go: the sweep, which renews the claims of live runs and requeues the jobs of
-- expired ones.
use golang_ap.Prelude.{◌*◌, ℤ, Bool, not, ◌&&◌, ◌||◌, List, [], ◌∷◌, ◌==ℤ◌, if◌then◌else◌}
use golang_ap.Text.{str, str_eq}
use golang_ap.Match.{ClaimLib, MatchRec, public_key, renew_lease_for, expire_sweep}
use golang_ap.Queue.State.{World}
use golang_ap.Queue.Commit.{set_int}
use golang_ap.Queue.Actions.{status_running}
use golang_ap.Queue.Sched.{job_status}
use golang_ap.Sched.State.{JobKey, RunInfo, Runs, Config, Clock, Core, modify_job}
use golang_ap.Sched.Teardown.{vacate_run}

module _ (w : World) (claims : ClaimLib) where
  open w use {lib}
  open lib use {Ad}

  -- Keep the persisted lease of a Running job fresh.
  unfoldable pub refresh_lease : ℤ → ℤ → ℤ → Core w claims → Core w claims
  refresh_lease now c p s =
      if job_status w c p s.queue ==ℤ status_running
      then modify_job w claims c p (set_int w (str "LastJobLeaseRenewal") now) s
      else s

  unfoldable pub renew_run :
      Config w claims → Clock w claims → JobKey → RunInfo → Core w claims → Core w claims
  renew_run cfg clk (c, p) ri s =
      if ri.vacated || ri.detached
      then s
      else refresh_lease clk.now c p (record s {
        matches =
            (renew_lease_for claims Ad (clk.renew_at (c, p)) (3 * cfg.sweep_interval) ri.claim_id
              s.matches).0;
      })

  unfoldable pub renew_all : Config w claims → Clock w claims → Runs → Core w claims → Core w claims
  renew_all cfg clk [] s = s
  renew_all cfg clk ((key, ri) ∷ runs) s = renew_all cfg clk runs (renew_run cfg clk key ri s)

  -- claimPublicID is the key that the table uses.
  unfoldable pub holds_claim : MatchRec Ad → RunInfo → Bool
  holds_claim rec ri = not ri.vacated && str_eq (public_key claims Ad ri.claim_id) rec.public_id

  -- The inner loop, which ends at the first run of the claim.
  unfoldable pub lose_claim : ℤ → MatchRec Ad → Runs → Core w claims → Core w claims
  lose_claim now rec [] s = s
  lose_claim now rec ((key, ri) ∷ runs) s =
      let rest = lose_claim now rec runs s in
      if holds_claim rec ri then vacate_run w claims now key ri s else rest

  unfoldable pub lose_all : ℤ → List (MatchRec Ad) → Core w claims → Core w claims
  lose_all now [] s = s
  lose_all now (rec ∷ recs) s = lose_all now recs (lose_claim now rec s.running s)

  unfoldable pub sweep_expired : Config w claims → Clock w claims → Core w claims → Core w claims
  sweep_expired cfg clk s =
      let s1 = renew_all cfg clk s.running s in
      let (matches, expired) = expire_sweep claims Ad clk.sweep_at s1.matches in
      lose_all clk.now expired (record s1 { matches = matches })
