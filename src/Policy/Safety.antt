-- ===== src/Policy/Safety.antt =====
-- What a decision of internal/policy/policy.go says about the job and its expressions.
use golang_ap.Prelude.{ℤ, true, false, Option, none, some, ◌≡◌, ◌≢◌, ◌⊎◌, ◌↔◌, refl, arith}
use golang_ap.Text.{str}
use golang_ap.ClassAd.{ClassAdLib}
use golang_ap.Policy
use golang_ap.Policy.{
  Mode, periodic_only, periodic_then_exit, System, SystemConfig, hold, release, requeue, stay,
  complete, status_removed, status_completed, status_held, hold_code_job_policy,
  hold_code_system_policy, hold_code_user_request, on_exit_remove_is_false, fires, fires_expr,
  system_expr, int_or_zero, resolve_state, analyze, new_system, system_empty,
}

module _ (lib : ClassAdLib) (ad : lib.Ad) where
  -- A job is released only if it is held, not at its user's request, and a release expression, its
  -- own or the pool's, fires.
  pub analyze-release :
      (mode : Mode) (sys : Option (System lib)) (state : ℤ)
      → (analyze lib ad mode sys state).action ≡ release
      → (resolve_state lib ad state ≡ status_held)
        × (int_or_zero (lib.eval_int ad (str "HoldReasonCode")) ≢ hold_code_user_request)
        × ((fires lib ad (str "PeriodicRelease") ≡ true)
            ⊎ (fires_expr lib ad (system_expr lib sys λ s. s.release_expr) ≡ true))
  unfolding analyze
  analyze-release periodic_only sys state h = ground arith
  analyze-release periodic_then_exit sys state h = ground arith

  -- A hold records the code of the policy that asked for it: the job's own code where the job's
  -- PeriodicHold or, at exit, OnExitHold fires, the system's code where the pool's expression does and
  -- the job's PeriodicHold does not. A removed job is never held.
  pub analyze-hold :
      (mode : Mode) (sys : Option (System lib)) (state : ℤ)
      → (analyze lib ad mode sys state).action ≡ hold
      → (resolve_state lib ad state ≢ status_removed)
        × (((analyze lib ad mode sys state).hold_code ≡ hold_code_job_policy)
              × ((fires lib ad (str "PeriodicHold") ≡ true)
                  ⊎ ((mode ≡ periodic_then_exit) × (fires lib ad (str "OnExitHold") ≡ true)))
            ⊎ ((analyze lib ad mode sys state).hold_code ≡ hold_code_system_policy)
              × (fires lib ad (str "PeriodicHold") ≡ false)
              × (fires_expr lib ad (system_expr lib sys λ s. s.hold_expr) ≡ true))
  unfolding analyze
  analyze-hold periodic_only sys state h = ground arith
  analyze-hold periodic_then_exit sys state h = ground arith

  -- A job that exits completes exactly if it is not removed, its OnExitRemove is not explicitly
  -- false, and neither OnExitHold nor any periodic expression that its state allows gives a decision.
  pub analyze-complete :
      (sys : Option (System lib)) (state : ℤ)
      → let st = resolve_state lib ad state in
        ((analyze lib ad periodic_then_exit sys state).action ≡ complete) ↔ (
          (st ≢ status_removed)
          × (Policy.periodic_hold lib ad sys st ≡ none)
          × (Policy.periodic_release lib ad sys st ≡ none)
          × (Policy.check_remove lib ad sys ≡ none)
          × (fires lib ad (str "OnExitHold") ≡ false)
          × (on_exit_remove_is_false lib ad ≡ false))
  unfolding analyze
  analyze-complete sys state = (λ h. ground arith, λ h. ground arith)

  -- The periodic scan neither completes nor requeues a job, and a job that exits never just stays.
  pub analyze-mode :
      (sys : Option (System lib)) (state : ℤ)
      → ((analyze lib ad periodic_only sys state).action ≢ complete)
        × ((analyze lib ad periodic_only sys state).action ≢ requeue)
        × ((analyze lib ad periodic_then_exit sys state).action ≢ stay)
  unfolding analyze
  analyze-mode sys state = (λ h. ground arith, λ h. ground arith, λ h. ground arith)

  -- A pool policy of which no hold, release or remove expression parses decides like no policy.
  pub analyze-new_system :
      (mode : Mode) (cfg : SystemConfig) (state : ℤ)
      → system_empty lib (new_system lib cfg) ≡ true
      → analyze lib ad mode (new_system lib cfg) state ≡ analyze lib ad mode none state
  unfolding analyze system_empty fires_expr
  analyze-new_system mode cfg state h = empty_like_none (new_system lib cfg) h
    where
      empty_like_none :
          (sys : Option (System lib))
          → system_empty lib sys ≡ true
          → analyze lib ad mode sys state ≡ analyze lib ad mode none state
      empty_like_none none e = refl
      empty_like_none (some s) e = ground arith
