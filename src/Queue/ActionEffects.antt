-- ===== src/Queue/ActionEffects.antt =====
-- What a successful hold, release or remove of internal/queue/actions.go leaves in the stores.
use golang_ap.Prelude.{
  ℤ, pos, ◌≤ℤ◌, Option, refl, ltb_ℤ, ◌≢◌, ◌==ℤ◌, ==ℤ_iff, Bool-cases, none, some, ◌≡◌, ◌⊎◌, inl,
  inr, ap, ◌∙◌, arith, Option-cases,
}
use golang_ap.Text.{str}
use golang_ap.ClassAd.{ClassAdLaws}
use golang_ap.Key.{job_key}
use golang_ap.Queue.Commit.{status_idle}
use golang_ap.Queue.State.{World, StoreLaws, Queue, LogEvent, held, released, aborted, write_log}
use golang_ap.Queue.Actions.{
  act_hold, act_release, act_remove, act_remove_x, ar_success, ActionRequest, status_removed,
  status_held, int_attr, hold_code, hold_reason, remove_reason, held_ad, released_ad,
  release_status, removed_ad, store, vacated, archive_and_delete, apply_action,
}
use golang_ap.Queue.ActionAds.{store-Visible, held_ad_status, released_ad_status, removed_ad_status}

module _ (w : World) (laws : ClassAdLaws w.lib) (store_laws : StoreLaws w)
    (vacate : ℤ → ℤ → w.Coll → w.Coll) where
  open w use {lib}

  module _ (q : Queue w) (c p now : ℤ) where
    apply_hold :
        (req : ActionRequest)
        → req.kind ≡ act_hold
        → (apply_action w vacate q c p req now).1 ≡ ar_success
        → (ad : lib.Ad) × (w.get q.coll (job_key c p) ≡ some ad)
          × (apply_action w vacate q c p req now
              ≡ store w
                  (vacated w vacate (int_attr w ad (str "JobStatus")) c p q)
                  c
                  p
                  (held_ad w req (int_attr w ad (str "JobStatus")) now ad)
                  (held
                    (held_ad w req (int_attr w ad (str "JobStatus")) now ad)
                    (hold_reason w req)
                    (hold_code w req)
                    req.hold_reason_sub))
    unfolding apply_action
    apply_hold req k h = elim (Option-cases (w.get q.coll (job_key c p))) [
      | inl e ↦ absurd (ground arith)
      | inr (ad, e) ↦ (ad, e, ground arith)
    ]

    apply_release :
        (req : ActionRequest)
        → req.kind ≡ act_release
        → (apply_action w vacate q c p req now).1 ≡ ar_success
        → (ad : lib.Ad) × (w.get q.coll (job_key c p) ≡ some ad)
          × (apply_action w vacate q c p req now
              ≡ store w q c p
                  (released_ad w req now ad)
                  (released (released_ad w req now ad) req.reason))
    unfolding apply_action
    apply_release req k h = elim (Option-cases (w.get q.coll (job_key c p))) [
      | inl e ↦ absurd (ground arith)
      | inr (ad, e) ↦ (ad, e, ground arith)
    ]

    apply_remove :
        (req : ActionRequest)
        → (req.kind ≡ act_remove) ⊎ (req.kind ≡ act_remove_x)
        → (apply_action w vacate q c p req now).1 ≡ ar_success
        → (ad : lib.Ad) × (w.get q.coll (job_key c p) ≡ some ad)
          × ((apply_action w vacate q c p req now).0
              ≡ archive_and_delete w c p
                  (removed_ad w req (int_attr w ad (str "JobStatus")) now ad)
                  (write_log w
                    (aborted
                      (removed_ad w req (int_attr w ad (str "JobStatus")) now ad)
                      (remove_reason w req))
                    (vacated w vacate (int_attr w ad (str "JobStatus")) c p q)))
    unfolding apply_action
    apply_remove req k h = elim (Option-cases (w.get q.coll (job_key c p))) [
      | inl e ↦ absurd (ground arith)
      | inr (ad, e) ↦ (ad, e, ground arith)
    ]

    hist_kept :
        (status : ℤ) (ev : LogEvent w)
        → (write_log w ev (vacated w vacate status c p q)).hist ≡ q.hist
    unfolding write_log vacated
    hist_kept status ev = ground arith

    -- The hold code of a request: 1 where it gives none.
    abbrev pub IsHoldCode : ActionRequest → ℤ → Type 0
    IsHoldCode req code =
        ((req.hold_reason_code ≡ pos 0) × (code ≡ pos 1))
        ⊎ ((req.hold_reason_code ≢ pos 0) × (code ≡ req.hold_reason_code))

    hold_code-IsHoldCode : (req : ActionRequest) → IsHoldCode req (hold_code w req)
    unfolding hold_code
    hold_code-IsHoldCode req = elim (Bool-cases (req.hold_reason_code ==ℤ pos 0)) [
      | inl e ↦ inl (ground (arith, ==ℤ_iff req.hold_reason_code (pos 0)), ground arith)
      | inr e ↦ inr (ground (arith, ==ℤ_iff req.hold_reason_code (pos 0)), ground arith)
    ]

    -- A hold that succeeds leaves the job under its key with JobStatus Held, the hold code of the
    -- request (1 where it gives none), and as LastJobStatus the status the job had.
    pub hold_effect :
        (req : ActionRequest)
        → req.kind ≡ act_hold
        → (apply_action w vacate q c p req now).1 ≡ ar_success
        → (before : lib.Ad) × (after : lib.Ad) × (w.get q.coll (job_key c p) ≡ some before)
          × (w.get (apply_action w vacate q c p req now).0.coll (job_key c p) ≡ some after)
          × (lib.eval_int after (str "JobStatus") ≡ some status_held)
          × ((code : ℤ) × (lib.eval_int after (str "HoldReasonCode") ≡ some code)
              × IsHoldCode req code)
          × (lib.eval_int after (str "LastJobStatus") ≡ some (int_attr w before (str "JobStatus")))
    hold_effect req k h =
        let (ad, e, r) = apply_hold req k h in
        let status = int_attr w ad (str "JobStatus") in
        let kept = held_ad w req status now ad in
        let ev = held kept (hold_reason w req) (hold_code w req) req.hold_reason_sub in
        let (flat, g, own) =
          store-Visible w store_laws (vacated w vacate status c p q) c p kept ev (rw r at h) in
        let attrs = held_ad_status w laws req status now ad in
        (
          ad,
          flat,
          e,
          rw r g,
          laws.eval_int-literal flat (str "JobStatus") status_held (own _ _ attrs.0),
          (
            hold_code w req,
            laws.eval_int-literal flat (str "HoldReasonCode") (hold_code w req) (own _ _ attrs.1),
            hold_code-IsHoldCode req,
          ),
          laws.eval_int-literal flat (str "LastJobStatus") status (own _ _ attrs.2),
        )

    -- The status a job goes on with, from its JobStatusOnRelease.
    abbrev pub Resumes : Option ℤ → ℤ → Type 0
    Resumes none v = v ≡ status_idle
    Resumes (some u) v = ((pos 1 ≤ℤ u) × (v ≡ u)) ⊎ ((u ≤ℤ pos 0) × (v ≡ status_idle))

    resumed : (o : Option ℤ) → Resumes o (release_status w o)
    unfolding release_status
    resumed none = refl
    resumed (some u) = elim (Bool-cases (ltb_ℤ (pos 0) u)) [
      | inl e ↦ inl (ground arith, ground arith)
      | inr e ↦ inr (ground arith, ground arith)
    ]

    -- A release that succeeds leaves the job under its key with the JobStatus that JobStatusOnRelease
    -- names, if it is positive, and Idle else.
    pub release_effect :
        (req : ActionRequest)
        → req.kind ≡ act_release
        → (apply_action w vacate q c p req now).1 ≡ ar_success
        → (before : lib.Ad) × (after : lib.Ad) × (w.get q.coll (job_key c p) ≡ some before)
          × (w.get (apply_action w vacate q c p req now).0.coll (job_key c p) ≡ some after)
          × ((v : ℤ) × (lib.eval_int after (str "JobStatus") ≡ some v)
              × Resumes (lib.eval_int before (str "JobStatusOnRelease")) v)
    release_effect req k h =
        let (ad, e, r) = apply_release req k h in
        let free = released_ad w req now ad in
        let (flat, g, own) =
          store-Visible w store_laws q c p free (released free req.reason) (rw r at h) in
        (
          ad,
          flat,
          e,
          rw r g,
          (
            release_status w (lib.eval_int ad (str "JobStatusOnRelease")),
            laws.eval_int-literal flat (str "JobStatus") _
                (own _ _ (released_ad_status w laws req now ad).0),
            resumed (lib.eval_int ad (str "JobStatusOnRelease")),
          ),
        )

    -- A remove that succeeds takes the job out of the queue and appends to the history its ad with
    -- JobStatus Removed and as LastJobStatus the status the job had.
    pub remove_effect :
        (req : ActionRequest)
        → (req.kind ≡ act_remove) ⊎ (req.kind ≡ act_remove_x)
        → (apply_action w vacate q c p req now).1 ≡ ar_success
        → (before : lib.Ad) × (gone : lib.Ad) × (w.get q.coll (job_key c p) ≡ some before)
          × (w.get (apply_action w vacate q c p req now).0.coll (job_key c p) ≡ none)
          × ((apply_action w vacate q c p req now).0.hist ≡ w.append q.hist gone)
          × (lib.eval_int gone (str "JobStatus") ≡ some status_removed)
          × (lib.eval_int gone (str "LastJobStatus") ≡ some (int_attr w before (str "JobStatus")))
    unfolding archive_and_delete
    remove_effect req k h =
        let (ad, e, r) = apply_remove req k h in
        let status = int_attr w ad (str "JobStatus") in
        let gone = removed_ad w req status now ad in
        let ev = aborted gone (remove_reason w req) in
        let attrs = removed_ad_status w laws req status now ad in
        (
          ad,
          gone,
          e,
          ap (λ x. w.get x.coll (job_key c p)) r ∙ store_laws.get-remove _ (job_key c p),
          ap (λ x. x.hist) r ∙ ap (λ x. w.append x gone) (hist_kept status ev),
          laws.eval_int-literal gone (str "JobStatus") status_removed attrs.0,
          laws.eval_int-literal gone (str "LastJobStatus") status attrs.1,
        )
