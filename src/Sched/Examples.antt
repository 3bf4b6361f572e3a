-- ===== src/Sched/Examples.antt =====
-- The core with one run, in every part.
use golang_ap.Prelude.{
  ◌++◌, ◌+◌, ◌≤◌, pos, Bool, true, false, none, some, List, [], ◌∷◌, ◌≡◌, ◌⊎◌, refl, arith, is_some,
  Bool-cases, inl, inr,
}
use golang_ap.Text.{Str, str, str_eq, itoa, emit, is_empty, cut_at_last}
use golang_ap.ClassAd.Sample.{SampleAd, sample, sample-ClassAdLaws, ad_of}
use golang_ap.Key.{job_key}
use golang_ap.Assoc.{find, put}
use golang_ap.Match.{MatchRec, public_key}
use golang_ap.Match.Lookup.{lookup}
use golang_ap.Match.Sample.{sample_claims}
use golang_ap.Queue.Actions.{int_attr}
use golang_ap.Queue.Commit.{status_idle}
use golang_ap.Queue.Sample.{sample_world, sample_world-StoreLaws, running_job}
use golang_ap.Sched.State
use golang_ap.Sched.State.{
  JobKey, same_key, has_key, RunError, err_other, err_detached, Result, Clock, Core, Event, Effect,
  ev_exited, ev_failed, ev_drain, ev_started, find_run, close_channel, release_claim, run_job,
}
use golang_ap.Sched.Ads.{failed_ad}
use golang_ap.Sched.Exits.{
  handle_exited, handle_failed, handle_reconnect_failed, job_failed, was_vacated,
}
use golang_ap.Sched.Sweep.{sweep_expired}
use golang_ap.Sched.Handle.{handle_event, handle_match, new_run, step}
use golang_ap.Sched.RunJob.{Answers, panicked, run_job_events, reconnect_job_events}
use golang_ap.Sched.Registry.Registered.{IsRegistered}
use golang_ap.Sched.Registry.Ended.{IsTold}
use golang_ap.Sched.Registry.Gauge.{step-IsRegistered}
use golang_ap.Sched.Registry.Drain.{handle_all, drain_completes}
use golang_ap.Sched.Matching.{IsWanted, match_taken_or_released}
use golang_ap.Sched.Failures.{failure_budget}
use golang_ap.Sched.Inert.{IsUntouched, abandoned_run_inert}
use golang_ap.Sched.Leases.{sweep_keeps_live_claim}
use golang_ap.Sched.Reports.{IsReport, submit_all, runs_report_once}
use golang_ap.Sched.Sample.{
  claim, idle_job, the_run, the_config, the_clock, the_core, vacated_core, idle_match,
}

step-IsRegistered_example :
    IsRegistered sample_world sample_claims
      (step sample_world sample_claims the_config the_clock true the_core)
unfolding int_attr ad_of str has_key find_run
step-IsRegistered_example =
    step-IsRegistered sample_world sample_claims the_config the_clock true the_core (refl, tt)
      (record { one = (refl, tt); counted = refl })

abbrev end_of_run : List (Clock sample_world sample_claims × Event sample_world sample_claims)
end_of_run =
    (the_clock, ev_failed (pos 1) (pos 1) (err_other (str "lost")) true (str "") false) ∷ []

one_key :
    (j : JobKey)
    → is_some (find_run j the_core.running) ≡ true
    → has_key j ((pos 1, pos 1) ∷ []) ≡ true
unfolding find_run has_key
one_key j h = elim (Bool-cases (same_key (pos 1, pos 1) j)) [
  | inl e ↦ rw e refl
  | inr e ↦ absurd (ground (arith, e, h))
]

drain_completes_example :
    let t =
      handle_all sample_world sample_claims the_config end_of_run
        (handle_event sample_world sample_claims the_config the_clock (ev_drain 9) the_core) in
    (t.running ≡ []) × IsTold sample_world sample_claims (close_channel 9) t.effects
drain_completes_example =
    drain_completes sample_world sample_claims the_config the_clock 9 end_of_run the_core (refl, tt)
      one_key

match_taken_or_released_example :
    let t = handle_match sample_world sample_claims idle_match the_core in
    (t ≡ State.tell sample_world sample_claims (release_claim idle_match.claim_id) the_core)
    ⊎ ((job : SampleAd) × IsWanted sample_world sample_claims idle_match the_core
        × (find (job_key (pos 1) (pos 2)) the_core.queue.coll ≡ some job)
        × (find_run (pos 1, pos 2) t.running ≡ some (new_run sample_world sample_claims idle_match))
        × (t.effects ≡ run_job (pos 1, pos 2) idle_match job ∷ [])
        × (t.queue ≡ the_core.queue))
match_taken_or_released_example =
    match_taken_or_released sample_world sample_claims idle_match the_core

abbrev failed_coll : Bool → List (Str × SampleAd)
failed_coll counted =
    (str "1.1", failed_ad sample_world (pos 2) (pos 100) (str "lost") counted running_job)
    ∷ (str "1.2", idle_job)
    ∷ []

failure_budget_example :
    let t =
      job_failed sample_world sample_claims the_config
        (pos 100)
        (pos 1)
        (pos 1)
        (str "lost")
        true
        the_core in
    let u =
      job_failed sample_world sample_claims the_config
        (pos 100)
        (pos 1)
        (pos 1)
        (str "lost")
        false
        the_core in
    (flat1 : SampleAd) × (flat2 : SampleAd) × (find (job_key (pos 1) (pos 1)) t.queue.coll
      ≡ some flat1)
    × (find (job_key (pos 1) (pos 1)) u.queue.coll ≡ some flat2)
    × (sample.eval_int flat1 (str "NumShadowExceptions") ≡ some (pos 1))
    × (sample.eval_int flat1 (str "JobStatus") ≡ some status_idle)
    × (t.stats.shadow_exceptions ≡ the_core.stats.shadow_exceptions + 1)
    × (sample.eval_int flat2 (str "JobStatus") ≡ some status_idle)
    × (u.stats ≡ the_core.stats)
unfolding find str_eq str job_key itoa emit int_attr ad_of put
failure_budget_example =
    failure_budget sample_world sample-ClassAdLaws sample_world-StoreLaws sample_claims the_config
      (pos 100) (pos 1) (pos 1) (str "lost") the_core running_job (pos 0) (failed_coll true)
      (failed_coll false) refl refl (inr (refl, refl)) refl refl

abandoned_run_inert_example :
    IsUntouched sample_world sample_claims vacated_core (
      handle_exited sample_world sample_claims the_config
        (pos 100)
        (pos 1)
        (pos 1)
        none
        none
        vacated_core)
    × IsUntouched sample_world sample_claims vacated_core (
        handle_failed sample_world sample_claims the_config
          (pos 100)
          (pos 1)
          (pos 1)
          (err_other (str "lost"))
          true
          (str "")
          false
          vacated_core)
    × IsUntouched sample_world sample_claims vacated_core (
        handle_reconnect_failed sample_world sample_claims the_config
          (pos 100)
          (pos 1)
          (pos 1)
          (str "")
          (err_other (str "lost"))
          vacated_core)
unfolding was_vacated find_run
abandoned_run_inert_example =
    abandoned_run_inert sample_world sample_claims the_config (pos 100) (pos 1) (pos 1) vacated_core
      none none (err_other (str "lost")) true (str "") false refl

sweep_keeps_live_claim_example :
    (rec : MatchRec SampleAd) × (lookup sample_claims SampleAd
        (sweep_expired sample_world sample_claims the_config the_clock the_core).matches
        (public_key sample_claims SampleAd claim)
      ≡ some rec)
    × (60 ≤ rec.lease_deadline)
unfolding find_run find str_eq str public_key is_empty cut_at_last
sweep_keeps_live_claim_example =
    sweep_keeps_live_claim sample_world sample_claims (public_key sample_claims SampleAd claim)
      the_config the_clock (λ k. omega arith) (pos 1, pos 1) the_run the_core refl refl refl
      ((refl, tt), refl)

abbrev answers : Answers sample_world sample_claims
answers = record {
  startd_new = λ claim. true;
  requested = some [];
  activated = λ claim. true;
  shadow_new = λ claim. true;
  outcome = panicked (str "nil pointer");
  error_text = str "";
}

abbrev started : List (Event sample_world sample_claims)
started =
    (run_job_events sample_world sample_claims idle_match answers 50 (pos 5) the_core.matches).1

abbrev reattached_to : List (Event sample_world sample_claims)
reattached_to =
    (reconnect_job_events sample_world sample_claims (pos 1) (pos 1) claim answers 50 (pos 5)
      the_core.matches).1

runs_report_once_example :
    IsReport sample_world sample_claims (pos 1) (pos 2) started
    × ((submit_all sample_world sample_claims started the_core).events ≡ the_core.events ++ started)
    × IsReport sample_world sample_claims (pos 1) (pos 1) reattached_to
    × ((submit_all sample_world sample_claims reattached_to the_core).events
        ≡ the_core.events ++ reattached_to)
runs_report_once_example =
    runs_report_once sample_world sample_claims idle_match answers (pos 1) (pos 1) claim 50 (pos 5)
      the_core.matches the_core (omega arith)
