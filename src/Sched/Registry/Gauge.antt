-- ===== src/Sched/Registry/Gauge.antt =====
-- The gauge of running jobs counts the registry.
use golang_ap.Prelude.{
  ℕ, ℤ, Bool, true, false, Option, none, some, List, [], ◌∷◌, ◌≡◌, refl, arith, inl, inr,
  Option-cases, Bool-cases,
}
use golang_ap.Key.{job_key}
use golang_ap.Match.{ClaimLib}
use golang_ap.Queue.State.{World}
use golang_ap.Sched.State.{
  find_run, Config, Clock, Core, NegotiatedMatch, Event, ev_match, ev_started, ev_exited, ev_failed,
  ev_reschedule, ev_teardown, ev_drain, ev_reconnect_failed, ev_recover, ev_policy_remove,
  ev_policy_hold, ev_policy_release, ev_policy_done, nudge_advertise, is_idle,
}
use golang_ap.Sched.Teardown.{handle_drain, vacate_all, detach_all}
use golang_ap.Sched.Handle.{refuses, start_run, handle_match, handle_event, turn, step}
use golang_ap.Sched.Registry.Kept.{tell-IsKept}
use golang_ap.Sched.Registry.Steady.{
  IsCovered-self, vacate_all-IsSteady, detach_all-IsSteady, handle_teardown-IsSteady,
}
use golang_ap.Sched.Registry.Handlers.{
  handle_started-IsSteady, handle_policy_action-IsKept, policy_done-IsKept, sweep_expired-IsSteady,
}
use golang_ap.Sched.Registry.Ended.{handle_event-IsEnded}
use golang_ap.Sched.Registry.Registered.{
  IsRegistered, steady-IsRegistered, ended-IsRegistered, entered, kept-IsRegistered,
}
use golang_ap.Sched.Registry.Recovery.{IsOnce, running_keys, handle_recover-IsRegistered}

module _ (w : World) (claims : ClaimLib) where
  open w use {lib, scan, get}
  open lib use {Ad}

  start_run-IsRegistered :
      (m : NegotiatedMatch w claims) (job : Option Ad) (s : Core w claims)
      → find_run (m.cluster, m.proc) s.running ≡ none
      → IsRegistered w claims s
      → IsRegistered w claims (start_run w claims m job s)
  unfolding start_run
  start_run-IsRegistered m none s h g = kept-IsRegistered w claims (tell-IsKept w claims _ s) g
  start_run-IsRegistered m (some job) s h g =
      kept-IsRegistered w claims (tell-IsKept w claims _ _)
        (entered w claims (m.cluster, m.proc) _ s h g)

  free :
      (m : NegotiatedMatch w claims) (s : Core w claims)
      → refuses w claims m s ≡ false
      → find_run (m.cluster, m.proc) s.running ≡ none
  unfolding refuses
  free m s e = elim (Option-cases (find_run (m.cluster, m.proc) s.running)) [
    | inl f ↦ f
    | inr (ri, f) ↦ absurd (ground arith)
  ]

  handle_match-IsRegistered :
      (m : NegotiatedMatch w claims) (s : Core w claims)
      → IsRegistered w claims s
      → IsRegistered w claims (handle_match w claims m s)
  unfolding handle_match
  handle_match-IsRegistered m s g = elim (Bool-cases (refuses w claims m s)) [
    | inl e ↦ rw e (kept-IsRegistered w claims (tell-IsKept w claims _ s) g)
    | inr e ↦
        rw e
          (start_run-IsRegistered m (get s.queue.coll (job_key m.cluster m.proc)) s (free m s e) g)
  ]

  handle_drain-IsRegistered :
      (cfg : Config w claims) (now : ℤ) (ch : ℕ) (s : Core w claims)
      → IsRegistered w claims s
      → IsRegistered w claims (handle_drain w claims cfg now ch s)
  unfolding handle_drain
  handle_drain-IsRegistered cfg now ch s g = elim (Bool-cases (is_idle s.running)) [
    | inl e ↦ rw e (
        kept-IsRegistered w claims (tell-IsKept w claims _ (record s { draining = true }))
          (record { one = g.one; counted = g.counted }))
    | inr e ↦ rw e (stepping cfg.reconnect_disabled)
  ]
    where
      s1 : Core w claims
      s1 = record s { draining = true; drain_done = some ch }

      g1 : IsRegistered w claims s1
      g1 = record { one = g.one; counted = g.counted }

      stepping :
          (b : Bool)
          → IsRegistered w claims (elim b [
            | true ↦ vacate_all w claims now s1.running s1
            | false ↦ detach_all w claims s1.running s1
          ])
      stepping true =
          steady-IsRegistered w claims
            (vacate_all-IsSteady w claims now s1.running s1 (IsCovered-self s1.running)) g1
      stepping false =
          steady-IsRegistered w claims
            (detach_all-IsSteady w claims s1.running s1 (IsCovered-self s1.running)) g1

  handle_event-IsRegistered :
      (cfg : Config w claims) (clk : Clock w claims) (ev : Event w claims) (s : Core w claims)
      → IsOnce (running_keys w claims (scan s.queue.coll))
      → IsRegistered w claims s
      → IsRegistered w claims (handle_event w claims cfg clk ev s)
  handle_event-IsRegistered cfg clk (ev_exited c p res err) s h g =
      ended-IsRegistered w claims
        (handle_event-IsEnded w claims cfg clk (ev_exited c p res err) (c, p) s refl) g
  handle_event-IsRegistered cfg clk (ev_failed c p err panicked claim released) s h g =
      ended-IsRegistered w claims
        (handle_event-IsEnded w claims cfg clk (ev_failed c p err panicked claim released) (c, p) s
          refl)
        g
  handle_event-IsRegistered cfg clk (ev_reconnect_failed c p claim err) s h g =
      ended-IsRegistered w claims
        (handle_event-IsEnded w claims cfg clk (ev_reconnect_failed c p claim err) (c, p) s refl) g
  handle_event-IsRegistered cfg clk (ev_match m) s h g =
      unfold handle_event in handle_match-IsRegistered m s g
  handle_event-IsRegistered cfg clk (ev_started c p slot claim) s h g =
      unfold handle_event in
      steady-IsRegistered w claims (handle_started-IsSteady w claims cfg clk.now c p slot claim s) g
  handle_event-IsRegistered cfg clk ev_reschedule s h g =
      unfold handle_event in kept-IsRegistered w claims (tell-IsKept w claims nudge_advertise s) g
  handle_event-IsRegistered cfg clk (ev_teardown c p ch) s h g =
      unfold handle_event in
      steady-IsRegistered w claims (handle_teardown-IsSteady w claims c p ch s) g
  handle_event-IsRegistered cfg clk (ev_drain ch) s h g =
      unfold handle_event in handle_drain-IsRegistered cfg clk.now ch s g
  handle_event-IsRegistered cfg clk (ev_recover ch) s h g =
      unfold handle_event in handle_recover-IsRegistered w claims cfg clk.now ch s h g
  handle_event-IsRegistered cfg clk (ev_policy_remove c p reason) s h g =
      unfold handle_event in
      kept-IsRegistered w claims (handle_policy_action-IsKept w claims c p _ s) g
  handle_event-IsRegistered cfg clk (ev_policy_hold c p reason code sub) s h g =
      unfold handle_event in
      kept-IsRegistered w claims (handle_policy_action-IsKept w claims c p _ s) g
  handle_event-IsRegistered cfg clk (ev_policy_release c p reason) s h g =
      unfold handle_event in
      kept-IsRegistered w claims (handle_policy_action-IsKept w claims c p _ s) g
  handle_event-IsRegistered cfg clk (ev_policy_done key) s h g =
      unfold handle_event in kept-IsRegistered w claims (policy_done-IsKept w claims key s) g

  -- A turn of the core's loop, whether a tick of the sweep or an event of any kind, keeps one entry
  -- for a job in the registry and the gauge at their number; no two ads of Running jobs that a scan
  -- yields are of the same job.
  pub step-IsRegistered :
      (cfg : Config w claims) (clk : Clock w claims) (tick : Bool) (s : Core w claims)
      → IsOnce (running_keys w claims (scan s.queue.coll))
      → IsRegistered w claims s
      → IsRegistered w claims (step w claims cfg clk tick s)
  step-IsRegistered cfg clk true s h g =
      unfold step in steady-IsRegistered w claims (sweep_expired-IsSteady w claims cfg clk s) g
  step-IsRegistered cfg clk false s h g = unfold step in turning s.events
    where
      turning : (evs : List (Event w claims)) → IsRegistered w claims (turn w claims cfg clk evs s)
      turning [] = unfold turn in g
      turning (ev ∷ evs) =
          unfold turn in
          handle_event-IsRegistered cfg clk ev (record s { events = evs }) h
            (record { one = g.one; counted = g.counted })
