-- ===== src/Sched/Matching.antt =====
-- What handleMatch of internal/sched/sched.go makes of a match.
use golang_ap.Prelude.{
  pos, false, none, some, [], ◌∷◌, ◌++◌, ◌≡◌, ◌⊎◌, refl, arith, inl, inr, Option-cases, Bool-cases,
  ==ℤ_iff, ltb_ℤ,
}
use golang_ap.Text.{is_empty}
use golang_ap.Key.{job_key}
use golang_ap.Match.{ClaimLib}
use golang_ap.Queue.State.{World}
use golang_ap.Queue.Commit.{status_idle}
use golang_ap.Queue.Sched.{job_status}
use golang_ap.Sched.State.{find_run, NegotiatedMatch, Core, release_claim, run_job, tell}
use golang_ap.Sched.Runs.{find-put_run, same_key_refl}
use golang_ap.Sched.Handle.{refuses, start_run, new_run, handle_match}

module _ (w : World) (claims : ClaimLib) where
  open w use {lib, get}

  -- The conditions under which a match is taken.
  abbrev pub IsWanted : NegotiatedMatch w claims → Core w claims → Type 0
  IsWanted m s =
      (s.draining ≡ false)
      × (ltb_ℤ m.cluster (pos 0) ≡ false)
      × (ltb_ℤ m.proc (pos 0) ≡ false)
      × (is_empty m.claim_id ≡ false)
      × (find_run (m.cluster, m.proc) s.running ≡ none)
      × (job_status w m.cluster m.proc s.queue ≡ status_idle)

  unrefused :
      (m : NegotiatedMatch w claims) (s : Core w claims)
      → refuses w claims m s ≡ false
      → IsWanted m s
  unfolding refuses
  unrefused m s h = elim (Option-cases (find_run (m.cluster, m.proc) s.running)) [
    | inl e ↦ (
      ground arith,
      ground arith,
      ground arith,
      ground arith,
      e,
      ground (arith, ==ℤ_iff (job_status w m.cluster m.proc s.queue) status_idle),
    )
    | inr (ri, e) ↦ absurd (ground arith)
  ]

  started :
      (m : NegotiatedMatch w claims) (job : lib.Ad) (s : Core w claims)
      → let t = start_run w claims m (some job) s in
        (find_run (m.cluster, m.proc) t.running ≡ some (new_run w claims m))
        × (t.effects ≡ s.effects ++ (run_job (m.cluster, m.proc) m job ∷ []))
  unfolding start_run tell
  started m job s = (
    ground (
      arith,
      find-put_run (m.cluster, m.proc) (m.cluster, m.proc) (new_run w claims m) s.running,
      same_key_refl (m.cluster, m.proc),
    ),
    refl,
  )

  -- A match is either taken or surplus. It is taken only outside a drain, with a claim and a job that
  -- is Idle, stored, and not in the registry: then the job's run is entered and started on that claim,
  -- once, and the queue is left as it is. A surplus match has its claim released and changes nothing
  -- else.
  pub match_taken_or_released :
      (m : NegotiatedMatch w claims) (s : Core w claims)
      → (handle_match w claims m s ≡ tell w claims (release_claim m.claim_id) s)
        ⊎ ((job : lib.Ad) × IsWanted m s
            × (get s.queue.coll (job_key m.cluster m.proc) ≡ some job)
            × (find_run (m.cluster, m.proc) (handle_match w claims m s).running
                ≡ some (new_run w claims m))
            × ((handle_match w claims m s).effects
                ≡ s.effects ++ (run_job (m.cluster, m.proc) m job ∷ []))
            × ((handle_match w claims m s).queue ≡ s.queue))
  unfolding handle_match
  match_taken_or_released m s = elim (Bool-cases (refuses w claims m s)) [
    | inl e ↦ inl (rw e refl)
    | inr e ↦ elim (Option-cases (get s.queue.coll (job_key m.cluster m.proc))) [
      | inl f ↦ inl (rw (e, f) (unfold start_run in refl))
      | inr (job, f) ↦
          let g = started m job s in
          inr (
            job,
            unrefused m s e,
            f,
            rw (e, f) g.0,
            rw (e, f) g.1,
            rw (e, f) (unfold start_run in unfold tell in refl),
          )
    ]
  ]
