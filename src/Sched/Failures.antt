-- ===== src/Sched/Failures.antt =====
-- The failure budget of a job, jobFailed of internal/sched/sched.go.
use golang_ap.Prelude.{
  ◌+◌, ℤ, pos, Bool, true, false, none, some, ◌≡◌, ◌⊎◌, refl, arith, ap, sym, subst, ◌∙◌, inl, inr,
  Option-cases, Bool-cases, ◌==ℤ◌, ◌+ℤ◌, ltb_ℤ, if◌then◌else◌,
}
use golang_ap.Text.{Str, str, is_empty, equal_fold}
use golang_ap.ClassAd.{ClassAdLaws}
use golang_ap.Key.{job_key}
use golang_ap.Match.{ClaimLib}
use golang_ap.Queue.State.{World, StoreLaws, Queue}
use golang_ap.Queue.Commit.{status_idle}
use golang_ap.Queue.Materialized.{lookup-set_int}
use golang_ap.Queue.Actions.{status_running, status_held, int_attr}
use golang_ap.Queue.Sched.{job_status, modify}
use golang_ap.Sched.State.{Config, Core, UserEvent, tell, modify_job, log_job}
use golang_ap.Sched.Ads.{set_text, leave_slot, failing_ad, exceptions, exhausted, failed_ad}
use golang_ap.Sched.Exits
use golang_ap.Sched.Exits.{fail_running, job_failed}

module _ (w : World) (laws : ClassAdLaws w.lib) where
  open w use {lib}
  open lib use {Ad}

  pub lookup-set_text :
      (ad : Ad) (n m s : Str)
      → equal_fold n m ≡ false
      → lib.lookup (set_text w n s ad) m ≡ lib.lookup ad m
  unfolding set_text
  lookup-set_text ad n m s h = elim (Option-cases (lib.set_string ad n s)) [
    | inl e ↦ rw (set_text, e) refl
    | inr (ad', e) ↦ rw (set_text, e) (laws.lookup-set_string ad ad' n m s e h)
  ]

  pub lookup-leave_slot :
      (ad : Ad) (m : Str)
      → equal_fold (str "LastRemoteHost") m ≡ false
      → equal_fold (str "RemoteHost") m ≡ false
      → equal_fold (str "ClaimId") m ≡ false
      → equal_fold (str "StartdIpAddr") m ≡ false
      → equal_fold (str "LastJobLeaseRenewal") m ≡ false
      → lib.lookup (leave_slot w ad) m ≡ lib.lookup ad m
  unfolding leave_slot
  lookup-leave_slot ad m h1 h2 h3 h4 h5 =
      elim (Option-cases (lib.eval_string ad (str "RemoteHost"))) [
        | inl e ↦ simp (e, h2, h3, h4, h5, laws.lookup-delete)
        | inr (host, e) ↦ elim (Bool-cases (is_empty host)) [
          | inl g ↦ simp (e, g, h2, h3, h4, h5, laws.lookup-delete)
          | inr g ↦
              (simp (e, g, h2, h3, h4, h5, laws.lookup-delete))
              ∙ lookup-set_text ad (str "LastRemoteHost") m host h1
        ]
      ]

  -- The count of failures that an ad carries; an absent one is 0.
  abbrev pub IsCount : Ad → ℤ → Type 0
  IsCount ad n =
      (lib.lookup ad (str "NumShadowExceptions") ≡ some (lib.int_literal n))
      ⊎ ((lib.lookup ad (str "NumShadowExceptions") ≡ none) × (n ≡ pos 0))

  count_kept :
      (now : ℤ) (ad : Ad)
      → lib.lookup (failing_ad w now ad) (str "NumShadowExceptions")
        ≡ lib.lookup ad (str "NumShadowExceptions")
  unfolding failing_ad equal_fold str
  count_kept now ad =
      (simp (lookup-set_int w laws))
      ∙ lookup-leave_slot ad (str "NumShadowExceptions") refl refl refl refl refl

  count_of : (ad : Ad) (n : ℤ) → IsCount ad n → int_attr w ad (str "NumShadowExceptions") ≡ n
  unfolding int_attr
  count_of ad n (inl h) = rw (laws.eval_int-literal ad _ n h) refl
  count_of ad n (inr (h, e)) = rw (laws.eval_int-absent ad _ h) (sym e)

  counted_exceptions :
      (now : ℤ) (ad : Ad) (n : ℤ) → IsCount ad n → exceptions w now true ad ≡ n +ℤ pos 1
  unfolding exceptions
  counted_exceptions now ad n h =
      ap (λ k. k +ℤ pos 1)
        (count_of (failing_ad w now ad) n (
          subst (λ o. (o ≡ some (lib.int_literal n)) ⊎ ((o ≡ none) × (n ≡ pos 0)))
            (sym (count_kept now ad)) h))

  pub failed_status :
      (limit now : ℤ) (why : Str) (counted : Bool) (ad : Ad)
      → lib.lookup (failed_ad w limit now why counted ad) (str "JobStatus")
        ≡ some (
            lib.int_literal (if exhausted w limit now counted ad then status_held else status_idle))
  unfolding failed_ad equal_fold str
  failed_status limit now why counted ad = elim (Bool-cases (exhausted w limit now counted ad)) [
    | inl e ↦ rw e (simp (lookup-set_int w laws, lookup-set_text))
    | inr e ↦ rw e (simp (lookup-set_int w laws))
  ]

  pub failed_count :
      (limit now : ℤ) (why : Str) (ad : Ad)
      → lib.lookup (failed_ad w limit now why true ad) (str "NumShadowExceptions")
        ≡ some (lib.int_literal (exceptions w now true ad))
  unfolding failed_ad equal_fold str
  failed_count limit now why ad = elim (Bool-cases (exhausted w limit now true ad)) [
    | inl e ↦ rw e (simp (lookup-set_int w laws, lookup-set_text))
    | inr e ↦ rw e (simp (lookup-set_int w laws, lookup-set_text))
  ]

module _ (w : World) (laws : ClassAdLaws w.lib) (store_laws : StoreLaws w) (claims : ClaimLib)
    (cfg : Config w claims) (now c p : ℤ) (why : Str) (s : Core w claims) (ad : w.lib.Ad) where
  open w use {lib, get, put}

  log_job-queue :
      (ev : lib.Ad → UserEvent w claims) (t : Core w claims)
      → ((log_job w claims cfg c p ev t).queue ≡ t.queue)
        × ((log_job w claims cfg c p ev t).stats ≡ t.stats)
  unfolding log_job tell
  log_job-queue ev t = elim (Bool-cases cfg.user_log) [
    | inl e ↦ elim (Option-cases (get t.queue.coll (job_key c p))) [
      | inl f ↦ rw (e, f) (refl, refl)
      | inr (x, f) ↦ rw (e, f) (refl, refl)
    ]
    | inr e ↦ rw e (refl, refl)
  ]

  modified :
      (fn : lib.Ad → lib.Ad) (coll' : w.Coll) (q : Queue w)
      → get q.coll (job_key c p) ≡ some ad
      → put q.coll (job_key c p) (fn ad) ≡ some coll'
      → (modify w c p fn q).0.coll ≡ coll'
  unfolding modify
  modified fn coll' q h g = rw (modify, h, g) refl

  status_is_running :
      get s.queue.coll (job_key c p) ≡ some ad
      → int_attr w ad (str "JobStatus") ≡ status_running
      → job_status w c p s.queue ==ℤ status_running ≡ true
  unfolding job_status
  status_is_running h st = rw (h, st) refl

  count-queue : (counted : Bool) → (Exits.count_shadow_exception w claims counted s).queue ≡ s.queue
  unfolding Exits.count_shadow_exception
  count-queue true = refl
  count-queue false = refl

  failed_coll :
      (counted : Bool) (coll' : w.Coll)
      → get s.queue.coll (job_key c p) ≡ some ad
      → int_attr w ad (str "JobStatus") ≡ status_running
      → put s.queue.coll (job_key c p) (failed_ad w cfg.max_exceptions now why counted ad)
        ≡ some coll'
      → ((job_failed w claims cfg now c p why counted s).queue.coll ≡ coll')
        × ((job_failed w claims cfg now c p why counted s).stats
            ≡ (Exits.count_shadow_exception w claims counted s).stats)
  unfolding job_failed fail_running modify_job
  failed_coll counted coll' h st g =
      let counted_get = ap (λ q. get q.coll (job_key c p)) (count-queue counted) ∙ h in
      let counted_put =
        ap (λ q. put q.coll (job_key c p) (failed_ad w cfg.max_exceptions now why counted ad))
          (count-queue counted)
        ∙ g in
      rw (status_is_running h st, h)
        (
          ap (λ q. q.coll) (log_job-queue _ _).0
              ∙ modified (failed_ad w cfg.max_exceptions now why counted) coll'
                  (Exits.count_shadow_exception w claims counted s).queue counted_get counted_put,
          (log_job-queue _ _).1,
        )

  -- The run of a job that is Running fails, its ad has NumShadowExceptions as a number or not at all,
  -- and the write of its ad succeeds. A failure that is counted makes that number one more and the
  -- counter of shadow exceptions too, and the job is Held once the number reaches the limit and Idle
  -- before; a failure that is not counted makes it Idle, whatever the number.
  pub failure_budget :
      (n : ℤ) (coll1 coll2 : w.Coll)
      → get s.queue.coll (job_key c p) ≡ some ad
      → int_attr w ad (str "JobStatus") ≡ status_running
      → IsCount w laws ad n
      → put s.queue.coll (job_key c p) (failed_ad w cfg.max_exceptions now why true ad) ≡ some coll1
      → put s.queue.coll (job_key c p) (failed_ad w cfg.max_exceptions now why false ad)
        ≡ some coll2
      → let t = job_failed w claims cfg now c p why true s in
        let u = job_failed w claims cfg now c p why false s in
        (flat1 : lib.Ad) × (flat2 : lib.Ad) × (get t.queue.coll (job_key c p) ≡ some flat1)
        × (get u.queue.coll (job_key c p) ≡ some flat2)
        × (lib.eval_int flat1 (str "NumShadowExceptions") ≡ some (n +ℤ pos 1))
        × (lib.eval_int flat1 (str "JobStatus")
            ≡ some (if ltb_ℤ (n +ℤ pos 1) cfg.max_exceptions then status_idle else status_held))
        × (t.stats.shadow_exceptions ≡ s.stats.shadow_exceptions + 1)
        × (lib.eval_int flat2 (str "JobStatus") ≡ some status_idle)
        × (u.stats ≡ s.stats)
  failure_budget n coll1 coll2 h st count g1 g2 =
      let counted = counted_exceptions w laws now ad n count in
      let t = failed_coll true coll1 h st g1 in
      let u = failed_coll false coll2 h st g2 in
      let (flat1, look1, own1) = store_laws.get-put s.queue.coll coll1 (job_key c p) _ g1 in
      let (flat2, look2, own2) = store_laws.get-put s.queue.coll coll2 (job_key c p) _ g2 in
      (
        flat1,
        flat2,
        ap (λ k. get k (job_key c p)) t.0 ∙ look1,
        ap (λ k. get k (job_key c p)) u.0 ∙ look2,
        laws.eval_int-literal flat1 _ _
              (own1 _ _ (failed_count w laws cfg.max_exceptions now why ad))
            ∙ ap some counted,
        laws.eval_int-literal flat1 _ _
              (own1 _ _ (failed_status w laws cfg.max_exceptions now why true ad))
            ∙ ap some (unfold exhausted in ground (arith, counted)),
        ap (λ x. x.shadow_exceptions) t.1 ∙ (unfold Exits.count_shadow_exception in refl),
        laws.eval_int-literal flat2 _ _
              (own2 _ _ (failed_status w laws cfg.max_exceptions now why false ad))
            ∙ ap some (unfold exhausted in refl),
        u.1 ∙ (unfold Exits.count_shadow_exception in refl),
      )
