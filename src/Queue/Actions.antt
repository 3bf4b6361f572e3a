-- ===== src/Queue/Actions.antt =====
-- internal/queue/actions.go: hold, release and remove of one job.
use golang_ap.Prelude.{
  ℤ, pos, Bool, true, false, not, ◌&&◌, ◌||◌, Option, none, some, ◌++◌, ◌==ℤ◌, ◌+ℤ◌, ltb_ℤ,
  if◌then◌else◌,
}
use golang_ap.Text.{Str, str, is_empty}
use golang_ap.Key.{job_key}
use golang_ap.User.{short_name}
use golang_ap.Queue.State.{
  World, Queue, LogEvent, held, released, aborted, write_log, is_super, same, owner_of,
}
use golang_ap.Queue.Commit.{status_idle, set_int, insert_string, int_or}

abbrev pub status_running : ℤ
status_running = pos 2

abbrev pub status_removed : ℤ
status_removed = pos 3

abbrev pub status_completed : ℤ
status_completed = pos 4

abbrev pub status_held : ℤ
status_held = pos 5

pub data ActionKind : Type 0 where
  act_hold act_release act_remove act_remove_x : ActionKind

-- action_result_t; ArLimitExceeded is not used.
pub data ActionResult : Type 0 where
  ar_error ar_success ar_not_found ar_bad_status ar_already_done ar_permission_denied : ActionResult

pub record ActionRequest : Type 0 where
  pub kind : ActionKind
  pub actor : Str
  pub reason : Str
  pub hold_reason_code : ℤ
  pub hold_reason_sub : ℤ
  pub system : Bool

module _ (w : World) where
  open w use {fqu, lib, Coll, get, put, remove, append}
  open lib use {Ad, delete, eval_int, eval_string}

  unfoldable pub int_attr : Ad → Str → ℤ
  int_attr ad name = int_or w (pos 0) (eval_int ad name)

  unfoldable pub strip_run_attrs : Ad → Ad
  strip_run_attrs ad =
      delete (delete (delete ad (str "ClaimId")) (str "StartdIpAddr")) (str "LastJobLeaseRenewal")

  unfoldable pub may_act : Queue w → ActionRequest → Ad → Bool
  may_act q req ad =
      req.system
      || (not (is_empty req.actor)
          && (is_super w q req.actor || same w q req.actor (owner_of w q ad)))

  abbrev pub remembered_host : Option Str → Ad → Ad
  remembered_host none ad = ad
  remembered_host (some host) ad =
      if is_empty host then ad else insert_string w (str "LastRemoteHost") host ad

  -- The `if status == StatusRunning` block of a hold.
  unfoldable pub leave_host : Ad → Ad
  unfolding strip_run_attrs
  leave_host ad =
      strip_run_attrs
        (delete (remembered_host (eval_string ad (str "RemoteHost")) ad) (str "RemoteHost"))

  unfoldable pub hold_reason : ActionRequest → Str
  hold_reason req =
      if is_empty req.reason
      then str "via condor_hold (by user " ++ (short_name fqu req.actor ++ str ")")
      else req.reason

  unfoldable pub hold_code : ActionRequest → ℤ
  hold_code req = if req.hold_reason_code ==ℤ pos 0 then pos 1 else req.hold_reason_code

  -- The ad that a hold stores.
  unfoldable pub held_ad : ActionRequest → ℤ → ℤ → Ad → Ad
  unfolding leave_host
  held_ad req status now ad =
      let ad1 = set_int w (str "LastJobStatus") status ad in
      let ad2 = set_int w (str "JobStatus") status_held ad1 in
      let ad3 = set_int w (str "EnteredCurrentStatus") now ad2 in
      let ad4 = if status ==ℤ status_running then leave_host ad3 else ad3 in
      let ad5 = insert_string w (str "HoldReason") (hold_reason req) ad4 in
      let ad6 = set_int w (str "HoldReasonCode") (hold_code req) ad5 in
      let ad7 = set_int w (str "HoldReasonSubCode") req.hold_reason_sub ad6 in
      set_int w (str "NumHolds") (int_attr ad7 (str "NumHolds") +ℤ pos 1) ad7

  unfoldable pub release_status : Option ℤ → ℤ
  release_status none = status_idle
  release_status (some v) = if ltb_ℤ (pos 0) v then v else status_idle

  -- The ad that a release stores.
  unfoldable pub released_ad : ActionRequest → ℤ → Ad → Ad
  unfolding release_status
  released_ad req now ad =
      let ad1 =
        set_int w (str "JobStatus") (release_status (eval_int ad (str "JobStatusOnRelease"))) ad in
      let ad2 = set_int w (str "EnteredCurrentStatus") now ad1 in
      let ad3 = delete ad2 (str "HoldReason") in
      let ad4 = delete ad3 (str "HoldReasonCode") in
      let ad5 = delete ad4 (str "HoldReasonSubCode") in
      let ad6 = delete ad5 (str "NumShadowExceptions") in
      let ad7 = delete ad6 (str "VacateReason") in
      let ad8 = delete ad7 (str "VacateReasonCode") in
      let ad9 = delete ad8 (str "VacateReasonSubCode") in
      if is_empty req.reason then ad9 else insert_string w (str "ReleaseReason") req.reason ad9

  -- The ad that a remove archives.
  unfoldable pub removed_ad : ActionRequest → ℤ → ℤ → Ad → Ad
  removed_ad req status now ad =
      let ad1 = if status ==ℤ status_running then strip_run_attrs ad else ad in
      let ad2 = set_int w (str "LastJobStatus") status ad1 in
      let ad3 = set_int w (str "JobStatus") status_removed ad2 in
      let ad4 = set_int w (str "EnteredCurrentStatus") now ad3 in
      if is_empty req.reason then ad4 else insert_string w (str "RemoveReason") req.reason ad4

  unfoldable pub remove_reason : ActionRequest → Str
  remove_reason req =
      if is_empty req.reason
      then str "via condor_rm (by user " ++ (short_name fqu req.actor ++ str ")")
      else req.reason

  -- Put, and the user-log event of a successful one.
  unfoldable pub store : Queue w → ℤ → ℤ → Ad → LogEvent w → Queue w × ActionResult
  store q c p ad ev = elim (put q.coll (job_key c p) ad) [
    | none ↦ (q, ar_error)
    | some coll ↦ (write_log w ev (record q { coll = coll }), ar_success)
  ]

  unfoldable pub archive_and_delete : ℤ → ℤ → Ad → Queue w → Queue w
  archive_and_delete c p ad q = record q {
    hist = append q.hist ad;
    coll = remove q.coll (job_key c p);
  }

  -- The scheduler's hook onVacateRunning is not part of this package: `vacate` is what it does to the
  -- collection, the identity where no hook is set.
  module _ (vacate : ℤ → ℤ → Coll → Coll) where
    unfoldable pub vacated : ℤ → ℤ → ℤ → Queue w → Queue w
    vacated status c p q =
        if status ==ℤ status_running then record q { coll = vacate c p q.coll } else q

    unfoldable pub hold_job :
        Queue w → ℤ → ℤ → ActionRequest → ℤ → Ad → ℤ → Bool → Queue w × ActionResult
    unfolding store
    hold_job q c p req now ad status apply =
        if (status ==ℤ status_held)
          && ((int_attr ad (str "HoldReasonCode") ==ℤ pos 1)
              || (int_attr ad (str "HoldReasonCode") ==ℤ pos 16))
        then (q, ar_already_done)
        else if (status ==ℤ status_removed) || (status ==ℤ status_completed)
        then (q, ar_permission_denied)
        else if not apply
        then (q, ar_success)
        else let kept = held_ad req status now ad in
          store (vacated status c p q) c p kept
            (held kept (hold_reason req) (hold_code req) req.hold_reason_sub)

    unfoldable pub release_job :
        Queue w → ℤ → ℤ → ActionRequest → ℤ → Ad → ℤ → Bool → Queue w × ActionResult
    unfolding store
    release_job q c p req now ad status apply =
        if not (status ==ℤ status_held)
        then (q, ar_bad_status)
        else if int_attr ad (str "HoldReasonCode") ==ℤ pos 16
        then (q, ar_bad_status)
        else if not apply
        then (q, ar_success)
        else let free = released_ad req now ad in store q c p free (released free req.reason)

    unfoldable pub remove_job :
        Queue w → ℤ → ℤ → ActionRequest → ℤ → Ad → ℤ → Bool → Queue w × ActionResult
    unfolding archive_and_delete
    remove_job q c p req now ad status apply =
        if status ==ℤ status_removed
        then (q, ar_already_done)
        else if not apply
        then (q, ar_success)
        else let gone = removed_ad req status now ad in
          let v = vacated status c p q in
          (
            archive_and_delete c p gone (write_log w (aborted gone (remove_reason req)) v),
            ar_success,
          )

    dispatch :
        ActionKind → Queue w → ℤ → ℤ → ActionRequest → ℤ → Ad → ℤ → Bool → Queue w × ActionResult
    unfolding hold_job release_job remove_job
    dispatch act_hold = hold_job
    dispatch act_release = release_job
    dispatch act_remove = remove_job
    dispatch act_remove_x = remove_job

    on_ad : Queue w → ℤ → ℤ → ActionRequest → ℤ → Bool → Option Ad → Queue w × ActionResult
    unfolding dispatch
    on_ad q c p req now apply none = (q, ar_not_found)
    on_ad q c p req now apply (some ad) =
        if not (may_act q req ad)
        then (q, ar_permission_denied)
        else dispatch req.kind q c p req now ad (int_attr ad (str "JobStatus")) apply

    unfoldable pub act_on_job : Queue w → ℤ → ℤ → ActionRequest → ℤ → Bool → Queue w × ActionResult
    unfolding on_ad
    act_on_job q c p req now apply = on_ad q c p req now apply (get q.coll (job_key c p))

    unfoldable pub check_action : Queue w → ℤ → ℤ → ActionRequest → ℤ → ActionResult
    unfolding act_on_job
    check_action q c p req now = (act_on_job q c p req now false).1

    unfoldable pub apply_action : Queue w → ℤ → ℤ → ActionRequest → ℤ → Queue w × ActionResult
    unfolding act_on_job
    apply_action q c p req now = act_on_job q c p req now true

    -- `Complete`, at time `now`.
    unfoldable pub complete : ℤ → ℤ → ℤ → Queue w → Queue w
    unfolding archive_and_delete
    complete c p now q = elim (get q.coll (job_key c p)) [
      | none ↦ q
      | some ad ↦
          archive_and_delete c p
            (set_int w (str "CompletionDate") now (set_int w (str "JobStatus") status_completed ad))
            q
    ]
