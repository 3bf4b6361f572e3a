-- ===== src/Policy/Examples.antt =====
-- Decisions of internal/policy/policy.go on concrete jobs.
use golang_ap.Prelude.{pos, ℤ, true, false, none, [], ◌∷◌, ◌≡◌, ◌≢◌, ◌⊎◌, refl}
use golang_ap.Text.{str}
use golang_ap.ClassAd.Sample.{int, bool, SampleAd, sample, ad_of}
use golang_ap.Policy.{
  periodic_only, periodic_then_exit, SystemConfig, hold, release, status_removed, status_held,
  hold_code_job_policy, hold_code_system_policy, hold_code_user_request, fires, fires_expr,
  system_expr, int_or_zero, resolve_state, analyze,
}
use golang_ap.Policy.Rules.{analyze-rules, rules, no_rule, decide_by}
use golang_ap.Policy.Safety.{analyze-release, analyze-hold}

abbrev held_job : SampleAd
held_job = ad_of (
    (str "JobStatus", int (pos 5))
    ∷ (str "HoldReasonCode", int (pos 3))
    ∷ (str "periodicrelease", bool true)
    ∷ [])

abbrev failing_job : SampleAd
failing_job = ad_of ((str "JobStatus", int (pos 2)) ∷ (str "OnExitHold", bool true) ∷ [])

abbrev plain_job : SampleAd
plain_job = ad_of ((str "JobStatus", int (pos 2)) ∷ [])

abbrev broken_config : SystemConfig
broken_config = record {
  hold_expr = str "(";
  hold_reason = str "";
  hold_sub_code = str "";
  release_expr = str "";
  remove_expr = str "";
  remove_reason = str "\"why\"";
}

-- A negative state argument makes `Analyze` read the state from the ad.
releases : (analyze sample held_job periodic_only none (ℤ.negsuc 0)).action ≡ release
unfolding analyze fires fires_expr ad_of str
releases = refl

holds : (analyze sample failing_job periodic_then_exit none (pos 2)).action ≡ hold
unfolding analyze fires fires_expr ad_of str
holds = refl

analyze-rules_example :
    analyze sample held_job periodic_only none (ℤ.negsuc 0)
    ≡ decide_by
        (rules sample held_job none periodic_only (resolve_state sample held_job (ℤ.negsuc 0)))
        (no_rule sample held_job none periodic_only)
analyze-rules_example = analyze-rules sample held_job none periodic_only (ℤ.negsuc 0)

analyze-release_example :
    (resolve_state sample held_job (ℤ.negsuc 0) ≡ status_held)
    × (int_or_zero (sample.eval_int held_job (str "HoldReasonCode")) ≢ hold_code_user_request)
    × ((fires sample held_job (str "PeriodicRelease") ≡ true)
        ⊎ (fires_expr sample held_job (system_expr sample none λ s. s.release_expr) ≡ true))
analyze-release_example = analyze-release sample held_job periodic_only none (ℤ.negsuc 0) releases

analyze-hold_example :
    (resolve_state sample failing_job (pos 2) ≢ status_removed)
    × (((analyze sample failing_job periodic_then_exit none (pos 2)).hold_code
            ≡ hold_code_job_policy)
          × ((fires sample failing_job (str "PeriodicHold") ≡ true)
              ⊎ ((periodic_then_exit ≡ periodic_then_exit)
                  × (fires sample failing_job (str "OnExitHold") ≡ true)))
        ⊎ ((analyze sample failing_job periodic_then_exit none (pos 2)).hold_code
            ≡ hold_code_system_policy)
          × (fires sample failing_job (str "PeriodicHold") ≡ false)
          × (fires_expr sample failing_job (system_expr sample none λ s. s.hold_expr) ≡ true))
analyze-hold_example = analyze-hold sample failing_job periodic_then_exit none (pos 2) holds
