-- ===== src/Queue/ActionRules.antt =====
-- When a queue action of internal/queue/actions.go succeeds, and what it leaves behind.
use golang_ap.Prelude.{
  ℤ, pos, Bool, true, false, none, some, ◌≡◌, ◌≢◌, ◌↔◌, ◌⊎◌, inl, inr, sym, ap, ◌∙◌, subst, arith,
  Option-cases,
}
use golang_ap.Text.{Str, str, is_empty}
use golang_ap.Key.{job_key}
use golang_ap.Queue.State.{World, Queue, LogEvent, held, released, is_super, same, owner_of}
use golang_ap.Queue.Actions.{
  ActionKind, ActionResult, store, vacated, held_ad, released_ad, hold_reason, hold_code, act_hold,
  act_release, act_remove, act_remove_x, ar_error, ar_success, ActionRequest, status_removed,
  status_completed, status_held, int_attr, may_act, act_on_job, check_action, apply_action,
}

module _ (w : World) (vacate : ℤ → ℤ → w.Coll → w.Coll) (q : Queue w) (c p : ℤ) (now : ℤ) where
  -- The states of a job that an action accepts.
  abbrev pub Accepts : ActionKind → w.lib.Ad → Type 0
  Accepts act_hold ad =
      (int_attr w ad (str "JobStatus") ≢ status_removed)
      × (int_attr w ad (str "JobStatus") ≢ status_completed)
      × ((int_attr w ad (str "JobStatus") ≢ status_held)
          ⊎ (int_attr w ad (str "HoldReasonCode") ≢ pos 1)
            × (int_attr w ad (str "HoldReasonCode") ≢ pos 16))
  Accepts act_release ad =
      (int_attr w ad (str "JobStatus") ≡ status_held)
      × (int_attr w ad (str "HoldReasonCode") ≢ pos 16)
  Accepts act_remove ad = int_attr w ad (str "JobStatus") ≢ status_removed
  Accepts act_remove_x ad = int_attr w ad (str "JobStatus") ≢ status_removed

  abbrev pub MayAct : ActionRequest → w.lib.Ad → Type 0
  MayAct req ad =
      (req.system ≡ true)
      ⊎ ((is_empty req.actor ≡ false)
          × ((is_super w q req.actor ≡ true) ⊎ (same w q req.actor (owner_of w q ad) ≡ true)))

  accepted :
      (k : ActionKind) (actor reason : Str) (code sub : ℤ) (sys : Bool) (ad : w.lib.Ad)
      → let req : ActionRequest = record {
        kind = k;
        actor = actor;
        reason = reason;
        hold_reason_code = code;
        hold_reason_sub = sub;
        system = sys;
      } in
        w.get q.coll (job_key c p) ≡ some ad
        → (check_action w vacate q c p req now ≡ ar_success) ↔ (MayAct req ad × Accepts k ad)
  unfolding check_action may_act
  accepted act_hold actor reason code sub sys ad e = (λ h. ground arith, λ h. ground arith)
  accepted act_release actor reason code sub sys ad e = (λ h. ground arith, λ h. ground arith)
  accepted act_remove actor reason code sub sys ad e = (λ h. ground arith, λ h. ground arith)
  accepted act_remove_x actor reason code sub sys ad e = (λ h. ground arith, λ h. ground arith)

  -- An action would succeed exactly if the job is in the queue, the schedd itself asks or an
  -- authenticated user who is a super user or the job's whole user@domain, and the job's status
  -- accepts the action.
  pub check_action-success :
      (req : ActionRequest)
      → (check_action w vacate q c p req now ≡ ar_success) ↔ (
          (ad : w.lib.Ad) × (w.get q.coll (job_key c p) ≡ some ad)
          × MayAct req ad
          × Accepts req.kind ad)
  check_action-success req = elim (Option-cases (w.get q.coll (job_key c p))) [
    | inl e ↦ (λ h. absurd (absent e h), λ h. absurd (present e h.0 h.1))
    | inr (ad, e) ↦
        (λ h. (ad, e, ((here ad e).0 h).0, ((here ad e).0 h).1), λ h. (here h.0 h.1).1 (h.2, h.3))
  ]
    where
      here :
          (ad : w.lib.Ad)
          → w.get q.coll (job_key c p) ≡ some ad
          → (check_action w vacate q c p req now ≡ ar_success)
            ↔ (MayAct req ad × Accepts req.kind ad)
      here ad e =
          accepted req.kind req.actor req.reason req.hold_reason_code req.hold_reason_sub req.system
            ad e

      absent :
          w.get q.coll (job_key c p) ≡ none → check_action w vacate q c p req now ≡ ar_success → ⊥
      absent e h = unfold check_action in ground arith

      present :
          w.get q.coll (job_key c p) ≡ none
          → (ad : w.lib.Ad) → w.get q.coll (job_key c p) ≡ some ad
          → ⊥
      present e ad f = cc

  -- The write of the job failed; a remove writes none.
  abbrev pub WriteFailed : ActionKind → Queue w → Type 0
  WriteFailed k q' =
      ((k ≡ act_hold) ⊎ (k ≡ act_release))
      × ((ad : w.lib.Ad) × (w.put q'.coll (job_key c p) ad ≡ none))

  abbrev Foretells : ActionRequest → Type 0
  Foretells req =
      ((act_on_job w vacate q c p req now false).0 ≡ q)
      × (check_action w vacate q c p req now ≢ ar_success
          → apply_action w vacate q c p req now ≡ (q, check_action w vacate q c p req now))
      × (check_action w vacate q c p req now ≡ ar_success
          → ((apply_action w vacate q c p req now).1 ≡ ar_success)
            ⊎ (((apply_action w vacate q c p req now).1 ≡ ar_error)
                × WriteFailed req.kind (apply_action w vacate q c p req now).0))

  -- A write that is tried.
  abbrev IsTried : ActionKind → Queue w × ActionResult → Type 0
  IsTried k r = (r.1 ≡ ar_success) ⊎ ((r.1 ≡ ar_error) × WriteFailed k r.0)

  store-IsTried :
      (k : ActionKind) (q' : Queue w) (ad : w.lib.Ad) (ev : LogEvent w)
      → (k ≡ act_hold) ⊎ (k ≡ act_release)
      → IsTried k (store w q' c p ad ev)
  store-IsTried k q' ad ev h = elim (Option-cases (w.put q'.coll (job_key c p) ad)) [
    | inl e ↦
        inr (
          ap (λ r. r.1) (kept e),
          (h, (ad, ap (λ r. w.put r.0.coll (job_key c p) ad) (kept e) ∙ e)),
        )
    | inr (coll, e) ↦ inl (unfold store in ground arith)
  ]
    where
      kept : w.put q'.coll (job_key c p) ad ≡ none → store w q' c p ad ev ≡ (q', ar_error)
      kept e = unfold store in ground arith

  hold-IsTried :
      (req : ActionRequest)
      → req.kind ≡ act_hold
      → check_action w vacate q c p req now ≡ ar_success
      → IsTried req.kind (apply_action w vacate q c p req now)
  hold-IsTried req k h = elim (Option-cases (w.get q.coll (job_key c p))) [
    | inl e ↦ absurd (unfold check_action in ground arith)
    | inr (ad, e) ↦
        let status = int_attr w ad (str "JobStatus") in
        let kept = held_ad w req status now ad in
        let ev = held kept (hold_reason w req) (hold_code w req) req.hold_reason_sub in
        let v = vacated w vacate status c p q in
        let stored : apply_action w vacate q c p req now ≡ store w v c p kept ev =
          unfold check_action in unfold apply_action in ground arith in
        subst (IsTried req.kind) (sym stored) (store-IsTried req.kind v kept ev (inl k))
  ]

  release-IsTried :
      (req : ActionRequest)
      → req.kind ≡ act_release
      → check_action w vacate q c p req now ≡ ar_success
      → IsTried req.kind (apply_action w vacate q c p req now)
  release-IsTried req k h = elim (Option-cases (w.get q.coll (job_key c p))) [
    | inl e ↦ absurd (unfold check_action in ground arith)
    | inr (ad, e) ↦
        let free = released_ad w req now ad in
        let ev = released free req.reason in
        let stored : apply_action w vacate q c p req now ≡ store w q c p free ev =
          unfold check_action in unfold apply_action in ground arith in
        subst (IsTried req.kind) (sym stored) (store-IsTried req.kind q free ev (inr k))
  ]

  foretold :
      (k : ActionKind) (actor reason : Str) (code sub : ℤ) (sys : Bool)
      → Foretells (record {
        kind = k;
        actor = actor;
        reason = reason;
        hold_reason_code = code;
        hold_reason_sub = sub;
        system = sys;
      })
  unfolding check_action apply_action
  foretold act_hold actor reason code sub sys = (
    ground arith,
    λ h. ground arith,
    hold-IsTried
        (record {
          kind = act_hold;
          actor = actor;
          reason = reason;
          hold_reason_code = code;
          hold_reason_sub = sub;
          system = sys;
        })
        (λ i. act_hold),
  )
  foretold act_release actor reason code sub sys = (
    ground arith,
    λ h. ground arith,
    release-IsTried
        (record {
          kind = act_release;
          actor = actor;
          reason = reason;
          hold_reason_code = code;
          hold_reason_sub = sub;
          system = sys;
        })
        (λ i. act_release),
  )
  foretold act_remove actor reason code sub sys =
      (ground arith, λ h. ground arith, λ h. ground arith)
  foretold act_remove_x actor reason code sub sys =
      (ground arith, λ h. ground arith, λ h. ground arith)

  -- The check changes nothing and foretells the result: where it would not succeed, applying the
  -- action answers the same and changes nothing; where it would, applying it succeeds, or it is a hold
  -- or a release and the collection refuses to put the job's ad.
  pub check_action-apply_action :
      (req : ActionRequest)
      → ((act_on_job w vacate q c p req now false).0 ≡ q)
        × (check_action w vacate q c p req now ≢ ar_success
            → apply_action w vacate q c p req now ≡ (q, check_action w vacate q c p req now))
        × (check_action w vacate q c p req now ≡ ar_success
            → ((apply_action w vacate q c p req now).1 ≡ ar_success)
              ⊎ (((apply_action w vacate q c p req now).1 ≡ ar_error)
                  × WriteFailed req.kind (apply_action w vacate q c p req now).0))
  check_action-apply_action req =
      foretold req.kind req.actor req.reason req.hold_reason_code req.hold_reason_sub req.system
