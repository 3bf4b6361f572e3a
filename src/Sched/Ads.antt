-- ===== src/Sched/Ads.antt =====
-- internal/sched/sched.go: what the handlers write to a job's ad, and what they read of it.
use golang_ap.Prelude.{
  ℤ, pos, Bool, true, false, not, ◌&&◌, ◌||◌, Option, none, some, List, [], ◌∷◌, ◌++◌, ◌==ℤ◌, ◌+ℤ◌,
  neg_ℤ, ltb_ℤ, if◌then◌else◌, is_some,
}
use golang_ap.Text.{Str, str, is_empty, itoa, cut_at}
use golang_ap.Policy.{Decision, hold_code_job_policy}
use golang_ap.Queue.State.{World}
use golang_ap.Queue.Commit.{status_idle, set_int, default_int}
use golang_ap.Queue.Actions.{
  status_running, status_held, status_removed, int_attr, ActionKind, act_hold, act_release,
  act_remove,
}
use golang_ap.Sched.State.{Result, exit_code, term_signal}

abbrev pub shadow_exception_code : ℤ
shadow_exception_code = pos 1002

-- The startd's sinful of a claim, the empty string where the claim has no '#'.
unfoldable pub claim_startd_sinful : Str → Str
claim_startd_sinful claim = elim (cut_at b'#' claim) [ none ↦ str "" | some (h, t) ↦ h ]

unfoldable pub policy_applicable : ActionKind → ℤ → Bool
policy_applicable act_remove status = not (status ==ℤ pos 0) && not (status ==ℤ status_removed)
policy_applicable act_hold status = (status ==ℤ status_idle) || (status ==ℤ status_running)
policy_applicable act_release status = status ==ℤ status_held
policy_applicable _ status = false

unfoldable pub failed_reason : ℤ → Str → Str
failed_reason n why = str "Job has failed " ++ (itoa n ++ (str " times; last failure: " ++ why))

unfoldable pub exit_hold_reason : Decision → Str
exit_hold_reason d = if is_empty d.reason then str "Job held by policy on exit" else d.reason

unfoldable pub exit_hold_code : Decision → ℤ
exit_hold_code d = if d.hold_code ==ℤ pos 0 then hold_code_job_policy else d.hold_code

module _ (w : World) where
  open w use {lib}
  open lib use {Ad, lookup, delete, insert_expr, attributes, eval_int, eval_string, bool_literal}

  -- `_ = ad.Set(name, s)` of a string.
  unfoldable pub set_text : Str → Str → Ad → Ad
  set_text name s ad = elim (lib.set_string ad name s) [ none ↦ ad | some ad' ↦ ad' ]

  unfoldable pub set_bool : Str → Bool → Ad → Ad
  set_bool name b ad = insert_expr ad name (bool_literal b)

  unfoldable pub incr : Str → Ad → Ad
  incr name ad = set_int w name (int_attr w ad name +ℤ pos 1) ad

  unfoldable pub strip_reconnect_attrs : Ad → Ad
  strip_reconnect_attrs ad =
      delete (delete (delete ad (str "ClaimId")) (str "StartdIpAddr")) (str "LastJobLeaseRenewal")

  remember : Option Str → Ad → Ad
  remember none ad = ad
  remember (some host) ad = if is_empty host then ad else set_text (str "LastRemoteHost") host ad

  -- The writes with which handleExited, jobFailed and requeueToIdle begin.
  unfoldable pub leave_slot : Ad → Ad
  unfolding remember strip_reconnect_attrs
  leave_slot ad =
      strip_reconnect_attrs
        (delete (remember (eval_string ad (str "RemoteHost")) ad) (str "RemoteHost"))

  keep_claim : Str → Ad → Ad
  keep_claim claim ad =
      if is_empty claim
      then ad
      else let ad1 = set_text (str "ClaimId") claim ad in
        if is_empty (claim_startd_sinful claim)
        then ad1
        else set_text (str "StartdIpAddr") (claim_startd_sinful claim) ad1

  -- What handleStarted writes.
  unfoldable pub started_ad : ℤ → Str → Str → ℤ → Ad → Ad
  unfolding keep_claim incr set_text
  started_ad lease slot claim now ad =
      let ad1 = set_int w (str "LastJobStatus") (int_attr w ad (str "JobStatus")) ad in
      let ad2 = set_int w (str "JobStatus") status_running ad1 in
      let ad3 = set_int w (str "EnteredCurrentStatus") now ad2 in
      let ad4 = set_text (str "RemoteHost") slot ad3 in
      let ad5 = set_int w (str "JobCurrentStartDate") now ad4 in
      let ad6 = default_int w (str "JobStartDate") now ad5 in
      let ad7 = incr (str "NumJobStarts") ad6 in
      let ad8 = incr (str "NumShadowStarts") ad7 in
      let ad9 = incr (str "JobRunCount") ad8 in
      let ad10 = set_int w (str "ShadowBday") now ad9 in
      let ad11 = keep_claim claim ad10 in
      let ad12 = default_int w (str "JobLeaseDuration") lease ad11 in
      set_int w (str "LastJobLeaseRenewal") now ad12

  -- The exit code, else the signal, else a clean exit.
  record_exit : Option ℤ → Option ℤ → Ad → Ad
  record_exit (some code) sig ad =
      set_int w (str "ExitStatus") code
        (set_bool (str "ExitBySignal") false (set_int w (str "ExitCode") code ad))
  record_exit none (some sig) ad =
      set_int w (str "ExitSignal") sig (set_bool (str "ExitBySignal") true ad)
  record_exit none none ad =
      set_int w (str "ExitStatus") (pos 0)
        (set_int w (str "ExitCode") (pos 0) (set_bool (str "ExitBySignal") false ad))

  add_wall_clock : ℤ → Option ℤ → Ad → Ad
  add_wall_clock now none ad = ad
  add_wall_clock now (some start) ad =
      if ltb_ℤ (pos 0) start
      then set_int w (str "RemoteWallClockTime")
          (int_attr w ad (str "RemoteWallClockTime") +ℤ (now +ℤ neg_ℤ start)) ad
      else ad

  -- What handleExited writes.
  unfoldable pub exited_ad : Result → ℤ → Ad → Ad
  unfolding leave_slot record_exit add_wall_clock incr set_bool
  exited_ad res now ad =
      let ad1 = leave_slot ad in
      let ad2 = record_exit (exit_code res) (term_signal res) ad1 in
      let ad3 = add_wall_clock now (eval_int ad2 (str "JobCurrentStartDate")) ad2 in
      let ad4 = incr (str "NumJobCompletions") ad3 in
      set_int w (str "LastJobStatus") status_running ad4

  -- jobFailed: the writes before the failure is counted, the count of failures with this one, whether
  -- the job is held, and all that is written.
  unfoldable pub failing_ad : ℤ → Ad → Ad
  unfolding leave_slot
  failing_ad now ad =
      set_int w (str "EnteredCurrentStatus") now
        (set_int w (str "LastJobStatus") status_running (leave_slot ad))

  unfoldable pub exceptions : ℤ → Bool → Ad → ℤ
  unfolding failing_ad
  exceptions now counted ad =
      if counted then int_attr w (failing_ad now ad) (str "NumShadowExceptions") +ℤ pos 1 else pos 0

  unfoldable pub exhausted : ℤ → ℤ → Bool → Ad → Bool
  unfolding exceptions
  exhausted limit now counted ad = counted && not (ltb_ℤ (exceptions now counted ad) limit)

  -- The `if count` block of jobFailed, and the block that holds the job.
  count_exception : ℤ → Str → Ad → Ad
  unfolding set_text
  count_exception n why ad =
      let ad1 = set_int w (str "NumShadowExceptions") n ad in
      let ad2 = set_text (str "VacateReason") (str "Shadow exception: " ++ why) ad1 in
      let ad3 = set_int w (str "VacateReasonCode") shadow_exception_code ad2 in
      set_int w (str "VacateReasonSubCode") (pos 0) ad3

  hold_failed : ℤ → Str → Ad → Ad
  unfolding set_text failed_reason incr
  hold_failed n why ad =
      let ad1 = set_int w (str "JobStatus") status_held ad in
      let ad2 = set_text (str "HoldReason") (failed_reason n why) ad1 in
      let ad3 = set_int w (str "HoldReasonCode") shadow_exception_code ad2 in
      let ad4 = set_int w (str "HoldReasonSubCode") (pos 0) ad3 in incr (str "NumHolds") ad4

  unfoldable pub failed_ad : ℤ → ℤ → Str → Bool → Ad → Ad
  unfolding failing_ad exceptions count_exception exhausted hold_failed
  failed_ad limit now why counted ad =
      let n = exceptions now counted ad in
      let ad1 = failing_ad now ad in
      let ad2 = if counted then count_exception n why ad1 else ad1 in
      if exhausted limit now counted ad
      then hold_failed n why ad2
      else set_int w (str "JobStatus") status_idle ad2

  -- What requeueToIdle writes.
  unfoldable pub requeued_ad : ℤ → Ad → Ad
  unfolding leave_slot
  requeued_ad now ad =
      let ad1 = leave_slot ad in
      let ad2 = set_int w (str "LastJobStatus") status_running ad1 in
      let ad3 = set_int w (str "JobStatus") status_idle ad2 in
      set_int w (str "EnteredCurrentStatus") now ad3

  -- What holdOnExit writes.
  unfoldable pub held_on_exit_ad : Decision → ℤ → Ad → Ad
  unfolding set_text incr
  held_on_exit_ad d now ad =
      let ad1 = set_int w (str "LastJobStatus") status_running ad in
      let ad2 = set_int w (str "JobStatus") status_held ad1 in
      let ad3 = set_int w (str "EnteredCurrentStatus") now ad2 in
      let ad4 = set_text (str "HoldReason") (exit_hold_reason d) ad3 in
      let ad5 = set_int w (str "HoldReasonCode") (exit_hold_code d) ad4 in
      let ad6 = set_int w (str "HoldReasonSubCode") d.hold_sub_code ad5 in incr (str "NumHolds") ad6

  -- What requeueOnExit writes.
  unfoldable pub requeued_on_exit_ad : ℤ → Ad → Ad
  requeued_on_exit_ad now ad =
      let ad1 = set_int w (str "LastJobStatus") status_running ad in
      let ad2 = set_int w (str "JobStatus") status_idle ad1 in
      set_int w (str "EnteredCurrentStatus") now ad2

  is_live : ℤ → Option ℤ → Option ℤ → Bool
  is_live now (some dur) (some renewal) =
      (ltb_ℤ (pos 0) dur && ltb_ℤ (pos 0) renewal) && ltb_ℤ (now +ℤ neg_ℤ renewal) dur
  is_live now _ _ = false

  unfoldable pub lease_alive : Ad → ℤ → Bool
  unfolding is_live
  lease_alive ad now =
      is_live now (eval_int ad (str "JobLeaseDuration")) (eval_int ad (str "LastJobLeaseRenewal"))

  unfoldable pub has_periodic_expr : Ad → ℤ → Bool
  has_periodic_expr ad state =
      if is_some (lookup ad (str "PeriodicRemove"))
      then true
      else if is_some (lookup ad (str "PeriodicHold"))
      then true
      else if state ==ℤ status_held
      then is_some (lookup ad (str "PeriodicRelease"))
      else false

  copy_attrs : Ad → List Str → Ad → Ad
  copy_attrs ad [] out = out
  copy_attrs ad (name ∷ names) out = elim (lookup ad name) [
    | none ↦ copy_attrs ad names out
    | some expr ↦ copy_attrs ad names (insert_expr out name expr)
  ]

  unfoldable pub copy_ad : Ad → Ad
  unfolding copy_attrs
  copy_ad ad = copy_attrs ad (attributes ad) lib.new
