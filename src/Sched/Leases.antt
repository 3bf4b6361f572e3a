-- ===== src/Sched/Leases.antt =====
-- The claims of live runs through a sweep, sweepExpired of internal/sched/sched.go.
use golang_ap.Prelude.{
  ℕ, ◌+◌, ◌*◌, ◌≤◌, ℤ, pos, Bool, true, false, ◌||◌, none, some, List, [], ◌∷◌, ◌≡◌, refl, arith,
  ap, sym, subst, ◌∙◌, inl, inr, Option-cases, Bool-cases, is_some, if◌then◌else◌,
}
use golang_ap.Text.{Str, str_eq, str_eq_iff}
use golang_ap.Match.{ClaimLib, MatchRec, Table, public_key, renew_lease_for, has_expired}
use golang_ap.Match.Lookup.{lookup, IsTable, changed, unexpired, table_refines_map}
use golang_ap.Queue.State.{World}
use golang_ap.Sched.State.{
  JobKey, same_key, RunInfo, Runs, find_run, Config, Clock, Core, tell, modify_job,
}
use golang_ap.Sched.Teardown.{vacate_run, requeue_to_idle}
use golang_ap.Sched.Sweep.{refresh_lease, renew_run, renew_all, lose_claim, lose_all, sweep_expired}

module _ (w : World) (claims : ClaimLib) where
  open w use {lib}
  open lib use {Ad}

  refresh-matches :
      (now c p : ℤ) (s : Core w claims) → (refresh_lease w claims now c p s).matches ≡ s.matches
  unfolding refresh_lease modify_job
  refresh-matches now c p s = ground arith

  requeue-matches :
      (now c p : ℤ) (s : Core w claims) → (requeue_to_idle w claims now c p s).matches ≡ s.matches
  unfolding requeue_to_idle modify_job
  requeue-matches now c p s = ground arith

  vacate-matches :
      (now : ℤ) (k : JobKey) (ri : RunInfo) (s : Core w claims)
      → (vacate_run w claims now k ri s).matches ≡ s.matches
  unfolding vacate_run tell
  vacate-matches now (c, p) ri s = requeue-matches now c p _

  lose_claim-matches :
      (now : ℤ) (rec : MatchRec Ad) (runs : Runs) (s : Core w claims)
      → (lose_claim w claims now rec runs s).matches ≡ s.matches
  unfolding lose_claim
  lose_claim-matches now rec [] s = refl
  lose_claim-matches now rec ((k, ri) ∷ runs) s =
      ground (arith, lose_claim-matches now rec runs s, vacate-matches now k ri s)

  lose_all-matches :
      (now : ℤ) (recs : List (MatchRec Ad)) (s : Core w claims)
      → (lose_all w claims now recs s).matches ≡ s.matches
  unfolding lose_all
  lose_all-matches now [] s = refl
  lose_all-matches now (rec ∷ recs) s =
      lose_all-matches now recs _ ∙ lose_claim-matches now rec s.running s

  -- The table has a record under the key.
  abbrev IsPresent : Str → Table claims Ad → Type 0
  IsPresent key t = IsTable claims Ad t × (is_some (lookup claims Ad t key) ≡ true)

  -- The table has a record under the key that outlives the time.
  abbrev IsLive : Str → ℕ → Table claims Ad → Type 0
  IsLive key later t =
      IsTable claims Ad t
      × (rec : MatchRec Ad) × (lookup claims Ad t key ≡ some rec)
      × (later ≤ rec.lease_deadline)

  module _ (key : Str) (now d later : ℕ) (claim : Str) (t : Table claims Ad) where
    renewed_lookup :
        IsTable claims Ad t
        → IsTable claims Ad (renew_lease_for claims Ad now d claim t).0
          × (lookup claims Ad (renew_lease_for claims Ad now d claim t).0 key ≡ (
              if str_eq (public_key claims Ad claim) key
              then changed claims Ad
                  (λ rec. record rec { lease_deadline = now + d })
                  (lookup claims Ad t key)
              else lookup claims Ad t key))
    renewed_lookup h =
        let m = table_refines_map claims Ad now d claim none (pos 0) t h in (m.0.2, (m.2 key).2)

    renewed-IsPresent : IsPresent key t → IsPresent key (renew_lease_for claims Ad now d claim t).0
    renewed-IsPresent (h, g) =
        let r = renewed_lookup h in
        elim (Option-cases (lookup claims Ad t key)) [
          | inl e ↦ absurd (ground (arith, e, g))
          | inr (rec, e) ↦ (r.0, ground (arith, r.1, e))
        ]

    renewed-IsLive :
        later ≤ now + d
        → IsLive key later t
        → IsLive key later (renew_lease_for claims Ad now d claim t).0
    renewed-IsLive b (h, rec, e, l) =
        let r = renewed_lookup h in
        elim (Bool-cases (str_eq (public_key claims Ad claim) key)) [
          | inl f ↦ (r.0, record rec { lease_deadline = now + d }, ground (arith, r.1, e, f), b)
          | inr f ↦ (r.0, rec, ground (arith, r.1, e, f), l)
        ]

    present-IsLive :
        later ≤ now + d
        → public_key claims Ad claim ≡ key
        → IsPresent key t
        → IsLive key later (renew_lease_for claims Ad now d claim t).0
    present-IsLive b f (h, g) =
        let r = renewed_lookup h in
        elim (Option-cases (lookup claims Ad t key)) [
          | inl e ↦ absurd (ground (arith, e, g))
          | inr (rec, e) ↦ (
            r.0,
            record rec { lease_deadline = now + d },
            ground (arith, r.1, e, f, str_eq_iff (public_key claims Ad claim) key),
            b,
          )
        ]

  -- Every renewal of a sweep reaches past the time at which it collects what has expired.
  abbrev pub IsPrompt : Config w claims → Clock w claims → Type 0
  IsPrompt cfg clk = (k : JobKey) → clk.sweep_at ≤ clk.renew_at k + 3 * cfg.sweep_interval

  module _ (key : Str) (cfg : Config w claims) (clk : Clock w claims) where
    renewed : JobKey → RunInfo → Table claims Ad → Table claims Ad
    renewed k ri t =
        (renew_lease_for claims Ad (clk.renew_at k) (3 * cfg.sweep_interval) ri.claim_id t).0

    renew_run-matches :
        (k : JobKey) (ri : RunInfo) (s : Core w claims)
        → (renew_run w claims cfg clk k ri s).matches
          ≡ (if ri.vacated || ri.detached then s.matches else renewed k ri s.matches)
    unfolding renew_run renewed
    renew_run-matches (c, p) ri s = elim (Bool-cases (ri.vacated || ri.detached)) [
      | inl e ↦ rw e refl
      | inr e ↦ rw e (refresh-matches clk.now c p _)
    ]

    run-IsPresent :
        (k : JobKey) (ri : RunInfo) (s : Core w claims)
        → IsPresent key s.matches
        → IsPresent key (renew_run w claims cfg clk k ri s).matches
    unfolding renewed
    run-IsPresent k ri s h =
        subst (IsPresent key) (sym (renew_run-matches k ri s)) (chosen (ri.vacated || ri.detached))
      where
        chosen : (b : Bool) → IsPresent key (if b then s.matches else renewed k ri s.matches)
        chosen true = h
        chosen false = renewed-IsPresent key (clk.renew_at k) _ 0 ri.claim_id s.matches h

    module _ (prompt : IsPrompt cfg clk) where
      run-IsLive :
          (k : JobKey) (ri : RunInfo) (s : Core w claims)
          → IsLive key clk.sweep_at s.matches
          → IsLive key clk.sweep_at (renew_run w claims cfg clk k ri s).matches
      unfolding renewed
      run-IsLive k ri s h =
          subst (IsLive key clk.sweep_at) (sym (renew_run-matches k ri s))
            (chosen (ri.vacated || ri.detached))
        where
          chosen :
              (b : Bool) → IsLive key clk.sweep_at (if b then s.matches else renewed k ri s.matches)
          chosen true = h
          chosen false =
              renewed-IsLive key (clk.renew_at k) _ clk.sweep_at ri.claim_id s.matches (prompt k) h

      all-IsLive :
          (runs : Runs) (s : Core w claims)
          → IsLive key clk.sweep_at s.matches
          → IsLive key clk.sweep_at (renew_all w claims cfg clk runs s).matches
      unfolding renew_all
      all-IsLive [] s h = h
      all-IsLive ((k, ri) ∷ runs) s h = all-IsLive runs _ (run-IsLive k ri s h)

      -- The loop reaches the run of the claim.
      found-IsLive :
          (k : JobKey) (ri : RunInfo) (runs : Runs) (s : Core w claims)
          → find_run k runs ≡ some ri
          → ri.vacated || ri.detached ≡ false
          → public_key claims Ad ri.claim_id ≡ key
          → IsPresent key s.matches
          → IsLive key clk.sweep_at (renew_all w claims cfg clk runs s).matches
      unfolding find_run renew_all renewed
      found-IsLive k ri [] s h live e g = cc
      found-IsLive k ri ((j, r) ∷ runs) s h live e g = elim (Bool-cases (same_key j k)) [
        | inl f ↦
            let same : r ≡ ri = ground (arith, h, f) in
            all-IsLive runs _ (
              subst (IsLive key clk.sweep_at)
                (sym (
                  renew_run-matches j r s
                  ∙ now_live (subst (λ x. x.vacated || x.detached ≡ false) (sym same) live)))
                (present-IsLive key (clk.renew_at j) _ clk.sweep_at r.claim_id s.matches (prompt j)
                  (ap (λ x. public_key claims Ad x.claim_id) same ∙ e) g))
        | inr f ↦ found-IsLive k ri runs _ (ground (arith, h, f)) live e (run-IsPresent j r s g)
      ]
        where
          now_live :
              r.vacated || r.detached ≡ false
              → (if r.vacated || r.detached then s.matches else renewed j r s.matches)
                ≡ renewed j r s.matches
          now_live e = rw e refl

      -- The match of a live run, one that was neither vacated nor detached, is not swept: with a record
      -- of its claim in the table, and no renewal of the sweep further back than three of its intervals,
      -- the claim still has a record after the sweep, with a lease that is not over.
      pub sweep_keeps_live_claim :
          (k : JobKey) (ri : RunInfo) (s : Core w claims)
          → find_run k s.running ≡ some ri
          → ri.vacated || ri.detached ≡ false
          → public_key claims Ad ri.claim_id ≡ key
          → IsPresent key s.matches
          → (rec : MatchRec Ad) × (lookup claims Ad (sweep_expired w claims cfg clk s).matches key
              ≡ some rec)
            × (clk.sweep_at ≤ rec.lease_deadline)
      unfolding sweep_expired
      sweep_keeps_live_claim k ri s h live e g =
          let (table, rec, there, lasts) = found-IsLive k ri s.running s h live e g in
          let t = (renew_all w claims cfg clk s.running s).matches in
          let swept = (table_refines_map claims Ad clk.sweep_at 0 key none (pos 0) t table).2 key in
          (
            rec,
            ap (λ x. lookup claims Ad x key) (lose_all-matches clk.now _ _)
                ∙ swept.5
                ∙ ap (unexpired claims Ad clk.sweep_at) there
                ∙ kept rec lasts,
            lasts,
          )
        where
          kept :
              (rec : MatchRec Ad)
              → clk.sweep_at ≤ rec.lease_deadline
              → unexpired claims Ad clk.sweep_at (some rec) ≡ some rec
          kept rec l = unfold has_expired in ground arith
