-- ===== src/Sched/Periodic.antt =====
-- internal/sched/sched.go: the periodic policy, evaluated off the core and applied by its events.
use golang_ap.Prelude.{ℤ, true, not, ◌&&◌, Option, List, [], ◌∷◌, if◌then◌else◌}
use golang_ap.Text.{Str, str}
use golang_ap.Policy.{
  System, system_empty, Action, remove, hold, release, Decision, periodic_only, analyze,
}
use golang_ap.Match.{ClaimLib}
use golang_ap.Queue.State.{World}
use golang_ap.Queue.Commit.{set_int}
use golang_ap.Queue.Actions.{ActionKind, ActionRequest, int_attr, apply_action}
use golang_ap.Queue.Sched.{job_status}
use golang_ap.Sched.State.{
  JobKey, has_key, drop_key, ev_policy_remove, ev_policy_hold, ev_policy_release, ev_policy_done,
  apply_off_core, Config, Core, tell, submit_event,
}
use golang_ap.Sched.Ads.{policy_applicable, has_periodic_expr, copy_ad}

abbrev pub policy_actor : Str
policy_actor = str "condor_schedd"

-- The requests of the policy's events.
unfoldable pub policy_request : ActionKind → Str → ℤ → ℤ → ActionRequest
policy_request kind reason code sub = record {
  kind = kind;
  actor = policy_actor;
  reason = reason;
  hold_reason_code = code;
  hold_reason_sub = sub;
  system = true;
}

module _ (w : World) (claims : ClaimLib) where
  open w use {lib, scan}
  open lib use {Ad}

  unfoldable pub handle_policy_action : ℤ → ℤ → ActionRequest → Core w claims → Core w claims
  handle_policy_action c p req s =
      if has_key (c, p) s.policy_pending
      then s
      else if not (policy_applicable req.kind (job_status w c p s.queue))
      then s
      else tell w claims (apply_off_core (c, p) req)
          (record s { policy_pending = (c, p) ∷ s.policy_pending })

  -- The goroutine that it starts.
  unfoldable pub apply_policy :
      (ℤ → ℤ → w.Coll → w.Coll) → JobKey → ActionRequest → ℤ → Core w claims → Core w claims
  apply_policy vacate (c, p) req now s =
      submit_event w claims (ev_policy_done (c, p))
        (record s { queue = (apply_action w vacate s.queue c p req now).0 })

  unfoldable pub policy_done : JobKey → Core w claims → Core w claims
  policy_done key s = record s { policy_pending = drop_key key s.policy_pending }

  unfoldable pub dispatch_decision : Action → ℤ → ℤ → Decision → Core w claims → Core w claims
  dispatch_decision remove c p d s = submit_event w claims (ev_policy_remove c p d.reason) s
  dispatch_decision hold c p d s =
      submit_event w claims (ev_policy_hold c p d.reason d.hold_code d.hold_sub_code) s
  dispatch_decision release c p d s = submit_event w claims (ev_policy_release c p d.reason) s
  dispatch_decision _ c p d s = s

  unfoldable pub periodic_decision : Option (System lib) → ℤ → ℤ → Ad → Decision
  periodic_decision sys now state ad = analyze lib ad periodic_only sys state

  unfoldable pub evaluate_job : Option (System lib) → ℤ → Ad → Core w claims → Core w claims
  evaluate_job sys now shared s =
      let state = int_attr w shared (str "JobStatus") in
      if system_empty lib sys && not (has_periodic_expr w shared state)
      then s
      else let ad = set_int w (str "CurrentTime") now (copy_ad w shared) in
        let d = periodic_decision sys now state ad in
        dispatch_decision d.action (int_attr w ad (str "ClusterId")) (int_attr w ad (str "ProcId"))
          d s

  unfoldable pub evaluate_jobs : Option (System lib) → ℤ → List Ad → Core w claims → Core w claims
  evaluate_jobs sys now [] s = s
  evaluate_jobs sys now (ad ∷ ads) s = evaluate_jobs sys now ads (evaluate_job sys now ad s)

  -- A tick of periodicLoop; the scan is a snapshot.
  unfoldable pub evaluate_periodic : Config w claims → ℤ → Core w claims → Core w claims
  evaluate_periodic cfg now s = evaluate_jobs cfg.sys_policy now (scan s.queue.coll) s
