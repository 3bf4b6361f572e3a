-- ===== src/Queue/ActionExamples.antt =====
-- Queue actions on a queue with two jobs of bo@cs.
use golang_ap.Prelude.{ℤ, pos, false, none, some, List, ◌∷◌, ◌≡◌, ◌≢◌, ◌↔◌, ◌⊎◌, inl, refl}
use golang_ap.Text.{
  Str, str, is_empty, member, equal_fold, cut_at_last, str_eq, itoa, emit, format_nat,
}
use golang_ap.ClassAd.Sample.{SampleAd, sample, sample-ClassAdLaws, ad_of}
use golang_ap.Assoc.{find}
use golang_ap.Key.{job_key}
use golang_ap.User.{job_user, same_user, short_name, canonical_user, qualify, has_at, is_super_user}
use golang_ap.Queue.State.{same, owner_of, is_super}
use golang_ap.Queue.Actions.{
  ActionRequest, act_hold, act_release, act_remove, ar_success, check_action, apply_action,
  act_on_job, int_attr, status_held, status_removed, may_act, hold_job, release_job, remove_job,
  store, ar_error,
}
use golang_ap.Queue.Sample.{sample_world, sample_world-StoreLaws, sample_queue}
use golang_ap.Queue.ActionRules.{
  MayAct, Accepts, WriteFailed, check_action-success, check_action-apply_action,
}
use golang_ap.Queue.ActionEffects.{IsHoldCode, Resumes, hold_effect, release_effect, remove_effect}

abbrev vacate : ℤ → ℤ → List (Str × SampleAd) → List (Str × SampleAd)
vacate c p coll = coll

abbrev hold_request : ActionRequest
hold_request = record {
  kind = act_hold;
  actor = str "bo@cs";
  reason = str "";
  hold_reason_code = pos 0;
  hold_reason_sub = pos 0;
  system = false;
}

abbrev release_request : ActionRequest
release_request = record hold_request { kind = act_release }

abbrev remove_request : ActionRequest
remove_request = record hold_request { kind = act_remove }

check_action-success_example :
    (check_action sample_world vacate sample_queue (pos 1) (pos 1) hold_request (pos 9)
      ≡ ar_success)
    ↔ ((ad : SampleAd) × (find (job_key (pos 1) (pos 1)) sample_queue.coll ≡ some ad)
        × MayAct sample_world vacate sample_queue (pos 1) (pos 1) (pos 9) hold_request ad
        × Accepts sample_world vacate sample_queue (pos 1) (pos 1) (pos 9) act_hold ad)
check_action-success_example =
    check_action-success sample_world vacate sample_queue (pos 1) (pos 1) (pos 9) hold_request

check_action-apply_action_example :
    ((act_on_job sample_world vacate sample_queue (pos 1) (pos 1) release_request (pos 9) false).0
      ≡ sample_queue)
    × (check_action sample_world vacate sample_queue (pos 1) (pos 1) release_request (pos 9)
          ≢ ar_success
        → apply_action sample_world vacate sample_queue (pos 1) (pos 1) release_request (pos 9) ≡ (
          sample_queue,
          check_action sample_world vacate sample_queue (pos 1) (pos 1) release_request (pos 9),
        ))
    × (check_action sample_world vacate sample_queue (pos 1) (pos 1) release_request (pos 9)
          ≡ ar_success
        → ((apply_action sample_world vacate sample_queue (pos 1) (pos 1) release_request (pos 9)).1
            ≡ ar_success)
          ⊎ (((apply_action sample_world vacate sample_queue
                  (pos 1)
                  (pos 1)
                  release_request
                  (pos 9)).1
                ≡ ar_error)
              × WriteFailed sample_world vacate sample_queue
                  (pos 1)
                  (pos 1)
                  (pos 9)
                  act_release
                  (apply_action sample_world vacate sample_queue
                    (pos 1)
                    (pos 1)
                    release_request
                    (pos 9)).0))
check_action-apply_action_example =
    check_action-apply_action sample_world vacate sample_queue (pos 1) (pos 1) (pos 9)
      release_request

-- The owner may hold, release and remove.
hold_works :
    (apply_action sample_world vacate sample_queue (pos 1) (pos 1) hold_request (pos 9)).1
    ≡ ar_success
unfolding apply_action find str_eq str job_key itoa emit may_act is_empty is_super is_super_user
    member canonical_user cut_at_last qualify has_at same int_attr hold_job release_job remove_job
    store owner_of job_user same_user short_name equal_fold ad_of format_nat
hold_works = refl

release_works :
    (apply_action sample_world vacate sample_queue (pos 1) (pos 0) release_request (pos 9)).1
    ≡ ar_success
unfolding apply_action find str_eq str job_key itoa emit may_act is_empty is_super is_super_user
    member canonical_user cut_at_last qualify has_at same int_attr hold_job release_job remove_job
    store owner_of job_user same_user short_name equal_fold ad_of format_nat
release_works = refl

remove_works :
    (apply_action sample_world vacate sample_queue (pos 1) (pos 1) remove_request (pos 9)).1
    ≡ ar_success
unfolding apply_action find str_eq str job_key itoa emit may_act is_empty is_super is_super_user
    member canonical_user cut_at_last qualify has_at same int_attr hold_job release_job remove_job
    store owner_of job_user same_user short_name equal_fold ad_of format_nat
remove_works = refl

hold_effect_example :
    (before : SampleAd) × (after : SampleAd) × (find (job_key (pos 1) (pos 1)) sample_queue.coll
      ≡ some before)
    × (find
          (job_key (pos 1) (pos 1))
          (apply_action sample_world vacate sample_queue
            (pos 1)
            (pos 1)
            hold_request
            (pos 9)).0.coll
        ≡ some after)
    × (sample.eval_int after (str "JobStatus") ≡ some status_held)
    × ((code : ℤ) × (sample.eval_int after (str "HoldReasonCode") ≡ some code)
        × IsHoldCode sample_world sample-ClassAdLaws sample_world-StoreLaws vacate sample_queue
            (pos 1)
            (pos 1)
            (pos 9)
            hold_request
            code)
    × (sample.eval_int after (str "LastJobStatus")
        ≡ some (int_attr sample_world before (str "JobStatus")))
hold_effect_example =
    hold_effect sample_world sample-ClassAdLaws sample_world-StoreLaws vacate sample_queue (pos 1)
      (pos 1) (pos 9) hold_request refl hold_works

release_effect_example :
    (before : SampleAd) × (after : SampleAd) × (find (job_key (pos 1) (pos 0)) sample_queue.coll
      ≡ some before)
    × (find
          (job_key (pos 1) (pos 0))
          (apply_action sample_world vacate sample_queue
            (pos 1)
            (pos 0)
            release_request
            (pos 9)).0.coll
        ≡ some after)
    × ((v : ℤ) × (sample.eval_int after (str "JobStatus") ≡ some v)
        × Resumes sample_world sample-ClassAdLaws sample_world-StoreLaws vacate sample_queue
            (pos 1)
            (pos 0)
            (pos 9)
            (sample.eval_int before (str "JobStatusOnRelease"))
            v)
release_effect_example =
    release_effect sample_world sample-ClassAdLaws sample_world-StoreLaws vacate sample_queue
      (pos 1) (pos 0) (pos 9) release_request refl release_works

remove_effect_example :
    (before : SampleAd) × (gone : SampleAd) × (find (job_key (pos 1) (pos 1)) sample_queue.coll
      ≡ some before)
    × (find
          (job_key (pos 1) (pos 1))
          (apply_action sample_world vacate sample_queue
            (pos 1)
            (pos 1)
            remove_request
            (pos 9)).0.coll
        ≡ none)
    × ((apply_action sample_world vacate sample_queue (pos 1) (pos 1) remove_request (pos 9)).0.hist
        ≡ gone ∷ sample_queue.hist)
    × (sample.eval_int gone (str "JobStatus") ≡ some status_removed)
    × (sample.eval_int gone (str "LastJobStatus")
        ≡ some (int_attr sample_world before (str "JobStatus")))
remove_effect_example =
    remove_effect sample_world sample-ClassAdLaws sample_world-StoreLaws vacate sample_queue (pos 1)
      (pos 1) (pos 9) remove_request (inl refl) remove_works
