-- ===== src/Sched/Inert.antt =====
-- Ends of runs that write nothing to the queue, in internal/sched/sched.go.
use golang_ap.Prelude.{
  ℕ, ℤ, Bool, true, false, ◌||◌, ◌&&◌, Option, none, some, List, [], ◌∷◌, ◌≡◌, refl, arith, ◌∙◌,
  inl, inr, Bool-cases, if◌then◌else◌,
}
use golang_ap.Text.{Str, is_empty}
use golang_ap.Match.{ClaimLib}
use golang_ap.Queue.State.{World}
use golang_ap.Sched.State.{
  JobKey, RunInfo, RunError, Result, is_detached, find_run, Config, Core, tell, forget_run,
  drop_match, close_all, reap_waiters, finish_drain, maybe_finish_drain, left_idle, is_idle,
  release_claim, nudge_materialize, close_channel,
}
use golang_ap.Sched.Exits.{
  forget_match, clean_claim, claim_of, was_detached, was_vacated, handle_exited, handle_failed,
  handle_reconnect_failed,
}

module _ (w : World) (claims : ClaimLib) where
  -- The queue, the counters and the pending events are as before.
  pub record IsUntouched (s t : Core w claims) : Type 0 where
    pub queue : t.queue ≡ s.queue
    pub stats : t.stats ≡ s.stats
    pub events : t.events ≡ s.events

  abbrev same : {s : Core w claims} → IsUntouched s s
  same = record { queue = refl; stats = refl; events = refl }

  infixl 5 ◌⨾◌
  ◌⨾◌ : {s t u : Core w claims} → IsUntouched s t → IsUntouched t u → IsUntouched s u
  h ⨾ g = record {
    queue = g.queue ∙ h.queue;
    stats = g.stats ∙ h.stats;
    events = g.events ∙ h.events;
  }

  forget_run-IsUntouched :
      (key : JobKey) (ri : Option RunInfo) (s : Core w claims)
      → IsUntouched s (forget_run w claims key ri s)
  unfolding forget_run tell
  forget_run-IsUntouched key none s = same
  forget_run-IsUntouched key (some ri) s = record { queue = refl; stats = refl; events = refl }

  forget_match-IsUntouched :
      (ri : Option RunInfo) (s : Core w claims) → IsUntouched s (forget_match w claims ri s)
  unfolding forget_match drop_match
  forget_match-IsUntouched none s = same
  forget_match-IsUntouched (some ri) s = record { queue = refl; stats = refl; events = refl }

  left_idle-IsUntouched :
      (cfg : Config w claims) (s : Core w claims) → IsUntouched s (left_idle w claims cfg s)
  unfolding left_idle tell
  left_idle-IsUntouched cfg s = chosen cfg.job_left_idle
    where
      chosen : (b : Bool) → IsUntouched s (if b then tell w claims nudge_materialize s else s)
      chosen true = record { queue = refl; stats = refl; events = refl }
      chosen false = same

  finish_drain-IsUntouched :
      (o : Option ℕ) (s : Core w claims) → IsUntouched s (finish_drain w claims o s)
  unfolding finish_drain tell
  finish_drain-IsUntouched none s = same
  finish_drain-IsUntouched (some ch) s = record { queue = refl; stats = refl; events = refl }

  maybe_finish_drain-IsUntouched :
      (s : Core w claims) → IsUntouched s (maybe_finish_drain w claims s)
  unfolding maybe_finish_drain
  maybe_finish_drain-IsUntouched s = chosen (s.draining && is_idle s.running)
    where
      chosen : (b : Bool) → IsUntouched s (if b then finish_drain w claims s.drain_done s else s)
      chosen true = finish_drain-IsUntouched s.drain_done s
      chosen false = same

  close_all-IsUntouched :
      (chs : List ℕ) (s : Core w claims) → IsUntouched s (close_all w claims chs s)
  unfolding close_all tell
  close_all-IsUntouched [] s = same
  close_all-IsUntouched (ch ∷ chs) s =
      let rest = close_all-IsUntouched chs (tell w claims (close_channel ch) s) in
      record { queue = rest.queue; stats = rest.stats; events = rest.events }

  reap_waiters-IsUntouched :
      (ri : Option RunInfo) (s : Core w claims) → IsUntouched s (reap_waiters w claims ri s)
  unfolding reap_waiters
  reap_waiters-IsUntouched none s = same
  reap_waiters-IsUntouched (some ri) s = close_all-IsUntouched ri.waiters s

  clean_claim-IsUntouched :
      (claim : Str) (released : Bool) (s : Core w claims)
      → IsUntouched s (clean_claim w claims claim released s)
  unfolding clean_claim drop_match tell
  clean_claim-IsUntouched claim released s = elim (Bool-cases (is_empty claim)) [
    | inl e ↦ rw e same
    | inr e ↦ rw e (chosen released)
  ]
    where
      dropped : Core w claims
      dropped = drop_match w claims claim s

      chosen :
          (b : Bool)
          → IsUntouched s
              (elim b [ true ↦ dropped | false ↦ tell w claims (release_claim claim) dropped ])
      chosen true = record { queue = refl; stats = refl; events = refl }
      chosen false = record { queue = refl; stats = refl; events = refl }

  module _ (cfg : Config w claims) (now c p : ℤ) (s : Core w claims) where
    ri : Option RunInfo
    ri = find_run (c, p) s.running

    -- What is left of a handler once the queue is written.
    reaped :
        {t : Core w claims}
        → IsUntouched s t
        → IsUntouched s (reap_waiters w claims ri (maybe_finish_drain w claims t))
    reaped h = h ⨾ maybe_finish_drain-IsUntouched _ ⨾ reap_waiters-IsUntouched ri _

    -- A run that was vacated or detached on purpose is reaped without a trace in the queue: whether it
    -- reports an exit, with an error or without, a failure or a failed reconnection, the queue, the counters and the pending
    -- events of the core stay as they are.
    pub abandoned_run_inert :
        (res : Option Result) (result : Option RunError) (err : RunError) (panicked : Bool)
        (claim : Str) (released : Bool)
        → (was_vacated w claims (find_run (c, p) s.running)
              || was_detached w claims (find_run (c, p) s.running)
            ≡ true)
        → IsUntouched s (handle_exited w claims cfg now c p res result s)
          × IsUntouched s (handle_failed w claims cfg now c p err panicked claim released s)
          × IsUntouched s (handle_reconnect_failed w claims cfg now c p claim err s)
    unfolding handle_exited handle_failed handle_reconnect_failed ri
    abandoned_run_inert res result err panicked claim released h =
        let forgotten = forget_run-IsUntouched (c, p) ri s in
        let matched = forgotten ⨾ forget_match-IsUntouched ri _ in
        let cleaned = forgotten ⨾ clean_claim-IsUntouched (claim_of w claims claim ri) released _ in
        let dropped = forgotten ⨾ clean_claim-IsUntouched (claim_of w claims claim ri) true _ in
        (
          rw exits (reaped (matched ⨾ left_idle-IsUntouched cfg _)),
          elim (Bool-cases (was_detached w claims ri || is_detached (some err))) [
            | inl e ↦ rw e (reaped matched)
            | inr e ↦ rw (e, vacated e) (reaped cleaned)
          ],
          rw h (reaped dropped),
        )
      where
        exits : was_detached w claims ri || (was_vacated w claims ri || is_detached result) ≡ true
        exits = unfold ri in ground arith

        vacated :
            was_detached w claims ri || is_detached (some err) ≡ false
            → was_vacated w claims ri ≡ true
        vacated e = unfold ri in ground arith
