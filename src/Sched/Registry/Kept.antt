-- ===== src/Sched/Registry/Kept.antt =====
-- The steps of the handlers that leave the registry as it is.
use golang_ap.Prelude.{
  ℕ, ℤ, Bool, true, false, Option, none, some, List, [], ◌∷◌, ◌++◌, ◌≡◌, refl, ap, sym, ◌∙◌, inl,
  inr, Option-cases, ltb, length, if◌then◌else◌,
}
use mathlib.Core.List.{append_assoc, append-nil}
use golang_ap.Text.{Str}
use golang_ap.Key.{job_key}
use golang_ap.Policy.{Action, requeue, remove, hold, Decision}
use golang_ap.Match.{ClaimLib}
use golang_ap.Queue.State.{World}
use golang_ap.Sched.State.{
  Result, RunError, RunInfo, Config, Core, UserEvent, Effect, Event, close_channel, release_claim,
  nudge_materialize, tell, submit_event, drop_match, close_all, reap_waiters, left_idle, modify_job,
  log_job,
}
use golang_ap.Sched.Exits.{
  count_shadow_exception, fail_running, job_failed, exited, finish_exit, hold_on_exit,
  requeue_on_exit, complete_job, count_completed, count_exited, forget_match, clean_claim,
  run_ended,
}
use golang_ap.Sched.Teardown.{requeue_to_idle}

module _ (w : World) (claims : ClaimLib) where
  open w use {lib, get}
  open lib use {Ad}

  -- The registry and the flag of the drain are those of the state before.
  -- What was told is still told.
  abbrev pub Extends : List (Effect w claims) → List (Effect w claims) → Type 0
  Extends es fs = (more : List (Effect w claims)) × (fs ≡ es ++ more)

  extends_trans :
      (es : List (Effect w claims)) {fs gs : List (Effect w claims)}
      → Extends es fs
      → Extends fs gs
      → Extends es gs
  extends_trans es (m, e) (n, f) = (m ++ n, f ∙ ap (λ x. x ++ n) e ∙ append_assoc es m n)

  extends_refl : {es : List (Effect w claims)} → Extends es es
  extends_refl {es} = ([], sym (append-nil es))

  pub record IsKept (s t : Core w claims) : Type 0 where
    pub runs : t.running ≡ s.running
    pub gauge : t.running_gauge ≡ s.running_gauge
    pub drain : t.draining ≡ s.draining
    pub done : t.drain_done ≡ s.drain_done
    pub told : Extends s.effects t.effects

  pub IsKept-refl : {s : Core w claims} → IsKept s s
  IsKept-refl = record { runs = refl; gauge = refl; drain = refl; done = refl; told = extends_refl }

  infixl 5 ◌⨾◌
  pub ◌⨾◌ : {s t u : Core w claims} → IsKept s t → IsKept t u → IsKept s u
  h ⨾ g = record {
    runs = g.runs ∙ h.runs;
    gauge = g.gauge ∙ h.gauge;
    drain = g.drain ∙ h.drain;
    done = g.done ∙ h.done;
    told = extends_trans _ h.told g.told;
  }

  -- A conditional step.
  pub if_IsKept :
      (b : Bool) {s t u : Core w claims} → IsKept s t → IsKept s u → IsKept s (if b then t else u)
  if_IsKept true h g = h
  if_IsKept false h g = g

  pub tell-IsKept : (e : Effect w claims) (s : Core w claims) → IsKept s (tell w claims e s)
  unfolding tell
  tell-IsKept e s = record {
    runs = refl;
    gauge = refl;
    drain = refl;
    done = refl;
    told = (e ∷ [], refl);
  }

  pub submit_event-IsKept :
      (e : Event w claims) (s : Core w claims) → IsKept s (submit_event w claims e s)
  unfolding submit_event
  submit_event-IsKept e s =
      if_IsKept (ltb (length s.events) 256) {t = record s { events = s.events ++ (e ∷ []) }}
        (record { runs = refl; gauge = refl; drain = refl; done = refl; told = extends_refl })
        IsKept-refl

  pub drop_match-IsKept : (claim : Str) (s : Core w claims) → IsKept s (drop_match w claims claim s)
  unfolding drop_match
  drop_match-IsKept claim s = record {
    runs = refl;
    gauge = refl;
    drain = refl;
    done = refl;
    told = extends_refl;
  }

  pub modify_job-IsKept :
      (c p : ℤ) (fn : Ad → Ad) (s : Core w claims) → IsKept s (modify_job w claims c p fn s)
  unfolding modify_job
  modify_job-IsKept c p fn s = record {
    runs = refl;
    gauge = refl;
    drain = refl;
    done = refl;
    told = extends_refl;
  }

  pub log_job-IsKept :
      (cfg : Config w claims) (c p : ℤ) (ev : Ad → UserEvent w claims) (s : Core w claims)
      → IsKept s (log_job w claims cfg c p ev s)
  unfolding log_job
  log_job-IsKept cfg c p ev s = elim (Option-cases (get s.queue.coll (job_key c p))) [
    | inl e ↦ rw e (if_IsKept cfg.user_log IsKept-refl IsKept-refl)
    | inr (ad, e) ↦ rw e (if_IsKept cfg.user_log (tell-IsKept _ s) IsKept-refl)
  ]

  pub close_all-IsKept : (chs : List ℕ) (s : Core w claims) → IsKept s (close_all w claims chs s)
  unfolding close_all
  close_all-IsKept [] s = IsKept-refl
  close_all-IsKept (ch ∷ chs) s = tell-IsKept (close_channel ch) s ⨾ close_all-IsKept chs _

  pub reap_waiters-IsKept :
      (ri : Option RunInfo) (s : Core w claims) → IsKept s (reap_waiters w claims ri s)
  unfolding reap_waiters
  reap_waiters-IsKept none s = IsKept-refl
  reap_waiters-IsKept (some ri) s = close_all-IsKept ri.waiters s

  pub left_idle-IsKept :
      (cfg : Config w claims) (s : Core w claims) → IsKept s (left_idle w claims cfg s)
  unfolding left_idle
  left_idle-IsKept cfg s = if_IsKept _ (tell-IsKept nudge_materialize s) IsKept-refl

  pub requeue_to_idle-IsKept :
      (now c p : ℤ) (s : Core w claims) → IsKept s (requeue_to_idle w claims now c p s)
  unfolding requeue_to_idle
  requeue_to_idle-IsKept now c p s = if_IsKept _ IsKept-refl (modify_job-IsKept c p _ s)

  count_exception-IsKept :
      (counted : Bool) (s : Core w claims) → IsKept s (count_shadow_exception w claims counted s)
  unfolding count_shadow_exception
  count_exception-IsKept counted s =
      if_IsKept counted
        (record { runs = refl; gauge = refl; drain = refl; done = refl; told = extends_refl })
        IsKept-refl

  fail_running-IsKept :
      (cfg : Config w claims) (now c p : ℤ) (why : Str) (counted : Bool) (ad : Option Ad)
      (s : Core w claims)
      → IsKept s (fail_running w claims cfg now c p why counted ad s)
  unfolding fail_running
  fail_running-IsKept cfg now c p why counted none s = IsKept-refl
  fail_running-IsKept cfg now c p why counted (some ad) s =
      count_exception-IsKept counted s ⨾ modify_job-IsKept c p _ _ ⨾ log_job-IsKept cfg c p _ _

  pub job_failed-IsKept :
      (cfg : Config w claims) (now c p : ℤ) (why : Str) (counted : Bool) (s : Core w claims)
      → IsKept s (job_failed w claims cfg now c p why counted s)
  unfolding job_failed
  job_failed-IsKept cfg now c p why counted s =
      if_IsKept _ IsKept-refl (fail_running-IsKept cfg now c p why counted _ s)

  complete-IsKept :
      (cfg : Config w claims) (c p now : ℤ) (ev : Ad → UserEvent w claims) (s : Core w claims)
      → IsKept s
          (count_completed w claims (complete_job w claims c p now (log_job w claims cfg c p ev s)))
  unfolding count_completed complete_job
  complete-IsKept cfg c p now ev s =
      log_job-IsKept cfg c p ev s
      ⨾ record { runs = refl; gauge = refl; drain = refl; done = refl; told = extends_refl }

  finish_exit-IsKept :
      (a : Action) (cfg : Config w claims) (c p : ℤ) (res : Result) (d : Decision) (now : ℤ)
      (s : Core w claims)
      → IsKept s (finish_exit w claims a cfg c p res d now s)
  unfolding finish_exit hold_on_exit requeue_on_exit
  finish_exit-IsKept hold cfg c p res d now s =
      modify_job-IsKept c p _ s ⨾ log_job-IsKept cfg c p _ _
  finish_exit-IsKept requeue cfg c p res d now s =
      modify_job-IsKept c p _ s ⨾ log_job-IsKept cfg c p _ _
  finish_exit-IsKept remove cfg c p res d now s = submit_event-IsKept _ s
  finish_exit-IsKept _ cfg c p res d now s = complete-IsKept cfg c p now _ s

  exited-IsKept :
      (cfg : Config w claims) (now c p : ℤ) (res : Result) (s : Core w claims)
      → IsKept s (exited w claims cfg now c p res s)
  unfolding exited count_exited
  exited-IsKept cfg now c p res s =
      let counted : IsKept s (count_exited w claims s) = record {
        runs = refl;
        gauge = refl;
        drain = refl;
        done = refl;
        told = extends_refl;
      } in
      counted ⨾ modify_job-IsKept c p _ _ ⨾ finish_exit-IsKept _ cfg c p res _ now _

  pub run_ended-IsKept :
      (cfg : Config w claims) (now c p : ℤ) (res : Option Result) (err : Option RunError)
      (s : Core w claims)
      → IsKept s (run_ended w claims cfg now c p res err s)
  unfolding run_ended
  run_ended-IsKept cfg now c p none err s = job_failed-IsKept cfg now c p _ true s
  run_ended-IsKept cfg now c p (some res) err s = exited-IsKept cfg now c p res s

  pub forget_match-IsKept :
      (ri : Option RunInfo) (s : Core w claims) → IsKept s (forget_match w claims ri s)
  unfolding forget_match
  forget_match-IsKept none s = IsKept-refl
  forget_match-IsKept (some ri) s = drop_match-IsKept ri.claim_id s

  released-IsKept :
      (claim : Str) (released : Bool) (s : Core w claims)
      → IsKept s (elim released [ true ↦ s | false ↦ tell w claims (release_claim claim) s ])
  released-IsKept claim true s = IsKept-refl
  released-IsKept claim false s = tell-IsKept _ s

  pub clean_claim-IsKept :
      (claim : Str) (released : Bool) (s : Core w claims)
      → IsKept s (clean_claim w claims claim released s)
  unfolding clean_claim
  clean_claim-IsKept claim released s =
      if_IsKept _ IsKept-refl (drop_match-IsKept claim s ⨾ released-IsKept claim released _)
