-- ===== src/Sched/Exits.antt =====
-- internal/sched/sched.go: how the core reaps a run that exited, failed or could not be reconnected.
use golang_ap.Prelude.{
  ◌+◌, ℤ, pos, Bool, true, false, not, ◌||◌, Option, none, some, ◌++◌, ◌==ℤ◌, if◌then◌else◌,
}
use golang_ap.Text.{Str, str, is_empty}
use golang_ap.Key.{job_key}
use golang_ap.Policy.{
  Action, complete, requeue, remove, hold, Decision, periodic_then_exit, analyze,
}
use golang_ap.Match.{ClaimLib}
use golang_ap.Queue.State.{World}
use golang_ap.Queue.Commit.{set_int}
use golang_ap.Queue.Actions
use golang_ap.Queue.Actions.{status_running}
use golang_ap.Queue.Sched.{job_status}
use golang_ap.Sched.State.{
  RunError, err_str, is_detached, Result, exit_code, term_signal, RunInfo, find_run, UserEvent,
  terminated, held_core, evicted, reconnect_failed, ev_policy_remove, release_claim, Config, Core,
  tell, submit_event, drop_match, forget_run, reap_waiters, maybe_finish_drain, left_idle,
  modify_job, log_job,
}
use golang_ap.Sched.Ads.{
  shadow_exception_code, exited_ad, exceptions, exhausted, failed_reason, failed_ad,
  exit_hold_reason, exit_hold_code, held_on_exit_ad, requeued_on_exit_ad,
}

module _ (w : World) (claims : ClaimLib) where
  open w use {lib, get}
  open lib use {Ad, eval_string}

  unfoldable pub count_started : Core w claims → Core w claims
  count_started s = record s { stats = record s.stats { jobs_started = s.stats.jobs_started + 1 } }

  unfoldable pub count_exited : Core w claims → Core w claims
  count_exited s = record s { stats = record s.stats { jobs_exited = s.stats.jobs_exited + 1 } }

  unfoldable pub count_completed : Core w claims → Core w claims
  count_completed s = record s {
    stats = record s.stats { jobs_completed = s.stats.jobs_completed + 1 };
  }

  unfoldable pub count_shadow_exception : Bool → Core w claims → Core w claims
  count_shadow_exception counted s =
      if counted
      then record s { stats = record s.stats { shadow_exceptions = s.stats.shadow_exceptions + 1 } }
      else s

  unfoldable pub failed_event : Bool → ℤ → Str → Ad → UserEvent w claims
  failed_event true n why ad = held_core ad (failed_reason n why) shadow_exception_code (pos 0)
  failed_event false n why ad = evicted ad why

  -- The body of jobFailed for a job that is Running, with its ad.
  unfoldable pub fail_running :
      Config w claims → ℤ → ℤ → ℤ → Str → Bool → Option Ad → Core w claims → Core w claims
  fail_running cfg now c p why counted none s = s
  fail_running cfg now c p why counted (some ad) s =
      log_job w claims cfg c p
        (failed_event (exhausted w cfg.max_exceptions now counted ad) (exceptions w now counted ad)
          why)
        (modify_job w claims c p (failed_ad w cfg.max_exceptions now why counted)
          (count_shadow_exception counted s))

  unfoldable pub job_failed :
      Config w claims → ℤ → ℤ → ℤ → Str → Bool → Core w claims → Core w claims
  job_failed cfg now c p why counted s =
      if not (job_status w c p s.queue ==ℤ status_running)
      then s
      else fail_running cfg now c p why counted (get s.queue.coll (job_key c p)) s

  unfoldable pub hold_on_exit :
      Config w claims → ℤ → ℤ → Decision → ℤ → Core w claims → Core w claims
  hold_on_exit cfg c p d now s =
      log_job w claims cfg c p
        (λ ad. held_core ad (exit_hold_reason d) (exit_hold_code d) d.hold_sub_code)
        (modify_job w claims c p (held_on_exit_ad w d now) s)

  unfoldable pub requeue_on_exit : Config w claims → ℤ → ℤ → ℤ → Str → Core w claims → Core w claims
  requeue_on_exit cfg c p now reason s =
      log_job w claims cfg c p
        (λ ad.
          evicted ad
            (if is_empty reason then str "Job requeued (OnExitRemove is false)" else reason))
        (modify_job w claims c p (requeued_on_exit_ad w now) s)

  unfoldable pub terminated_event : Option ℤ → Option ℤ → Ad → UserEvent w claims
  terminated_event (some code) sig ad = terminated ad false code
  terminated_event none (some sig) ad = terminated ad true sig
  terminated_event none none ad = terminated ad false (pos 0)

  -- q.Complete, which never vacates a run.
  unfoldable pub complete_job : ℤ → ℤ → ℤ → Core w claims → Core w claims
  complete_job c p now s = record s {
    queue = Actions.complete w (λ c p coll. coll) c p now s.queue;
  }

  -- The switch over the policy's decision.
  unfoldable pub finish_exit :
      Action → Config w claims → ℤ → ℤ → Result → Decision → ℤ → Core w claims → Core w claims
  finish_exit hold cfg c p res d now s = hold_on_exit cfg c p d now s
  finish_exit requeue cfg c p res d now s = requeue_on_exit cfg c p now d.reason s
  finish_exit remove cfg c p res d now s = submit_event w claims (ev_policy_remove c p d.reason) s
  finish_exit _ cfg c p res d now s = count_completed (
      complete_job c p now
        (log_job w claims cfg c p (terminated_event (exit_code res) (term_signal res)) s))

  abbrev completed : Decision
  completed = record {
    action = complete;
    reason = str "";
    hold_code = pos 0;
    hold_sub_code = pos 0;
    firing = str "";
  }

  -- The decision of the policy, with CurrentTime bound.
  unfoldable pub exit_decision : Config w claims → ℤ → Option Ad → Decision
  exit_decision cfg now none = completed
  exit_decision cfg now (some ad) =
      analyze lib (set_int w (str "CurrentTime") now ad) periodic_then_exit cfg.sys_policy
        status_running

  -- handleExited from IncJobsExited on.
  unfoldable pub exited : Config w claims → ℤ → ℤ → ℤ → Result → Core w claims → Core w claims
  exited cfg now c p res s =
      let s1 = modify_job w claims c p (exited_ad w res now) (count_exited s) in
      let d = exit_decision cfg now (get s1.queue.coll (job_key c p)) in
      finish_exit d.action cfg c p res d now s1

  -- ri != nil && ri.detached, and vacated.
  unfoldable pub was_detached : Option RunInfo → Bool
  was_detached none = false
  was_detached (some ri) = ri.detached

  unfoldable pub was_vacated : Option RunInfo → Bool
  was_vacated none = false
  was_vacated (some ri) = ri.vacated

  unfoldable pub run_ended :
      Config w claims → ℤ → ℤ → ℤ → Option Result → Option RunError → Core w claims → Core w claims
  run_ended cfg now c p none err s = job_failed cfg now c p (err_str err) true s
  run_ended cfg now c p (some res) err s = exited cfg now c p res s

  unfoldable pub forget_match : Option RunInfo → Core w claims → Core w claims
  forget_match none s = s
  forget_match (some ri) s = drop_match w claims ri.claim_id s

  -- handleExited; the deferred calls run last to first.
  unfoldable pub handle_exited :
      Config w claims → ℤ → ℤ → ℤ → Option Result → Option RunError → Core w claims → Core w claims
  handle_exited cfg now c p res err s =
      let ri = find_run (c, p) s.running in
      let s1 = forget_match ri (forget_run w claims (c, p) ri s) in
      let s2 =
        if was_detached ri || (was_vacated ri || is_detached err)
        then s1
        else run_ended cfg now c p res err s1 in
      reap_waiters w claims ri (maybe_finish_drain w claims (left_idle w claims cfg s2))

  -- The claim of the event, or the registry's.
  unfoldable pub claim_of : Str → Option RunInfo → Str
  claim_of claim none = claim
  claim_of claim (some ri) = if is_empty claim then ri.claim_id else claim

  unfoldable pub clean_claim : Str → Bool → Core w claims → Core w claims
  clean_claim claim released s =
      if is_empty claim
      then s
      else let s1 = drop_match w claims claim s in
        elim released [ true ↦ s1 | false ↦ tell w claims (release_claim claim) s1 ]

  unfoldable pub handle_failed :
      Config w claims → ℤ → ℤ → ℤ → RunError → Bool → Str → Bool → Core w claims → Core w claims
  handle_failed cfg now c p err panicked claim released s =
      let ri = find_run (c, p) s.running in
      let s1 = forget_run w claims (c, p) ri s in
      let s2 = clean_claim (claim_of claim ri) released s1 in
      let s3 =
        if was_detached ri || is_detached (some err)
        then forget_match ri s1
        else if was_vacated ri
        then s2
        else job_failed cfg now c p (err_str (some err)) panicked s2 in
      reap_waiters w claims ri (maybe_finish_drain w claims s3)

  unfoldable pub host_of : Option Str → Str
  host_of none = str ""
  host_of (some host) = host

  unfoldable pub handle_reconnect_failed :
      Config w claims → ℤ → ℤ → ℤ → Str → RunError → Core w claims → Core w claims
  handle_reconnect_failed cfg now c p claim err s =
      let ri = find_run (c, p) s.running in
      let s1 = forget_run w claims (c, p) ri s in
      let s2 = clean_claim (claim_of claim ri) true s1 in
      let s3 =
        if was_vacated ri || was_detached ri
        then s2
        else job_failed cfg now c p (str "reconnect failed: " ++ err_str (some err)) false (
            log_job w claims cfg c p
              (λ ad.
                reconnect_failed ad (err_str (some err))
                  (host_of (eval_string ad (str "RemoteHost"))))
              s2) in
      reap_waiters w claims ri (maybe_finish_drain w claims s3)
