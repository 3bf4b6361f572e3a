-- ===== src/Sched/Registry/Ended.antt =====
-- The handlers that take a run out of the registry.
use mathlib.Core.List.{append_assoc, append-nil}
use golang_ap.Prelude.{
  ℕ, ℤ, pos, Bool, true, false, ◌&&◌, Option, none, some, List, [], ◌∷◌, ◌++◌, ◌≡◌, refl, arith, ap,
  sym, subst, ◌∙◌, inl, inr, Bool-cases, ◌+ℤ◌, neg_ℤ,
}
use golang_ap.Text.{Str}
use golang_ap.Match.{ClaimLib}
use golang_ap.Queue.State.{World}
use golang_ap.Sched.State.{
  JobKey, RunInfo, RunError, Result, find_run, drop_run, Config, Clock, Core, Effect, Event,
  ev_exited, ev_failed, ev_reconnect_failed, close_channel, tell, is_idle, forget_run,
  maybe_finish_drain, finish_drain,
}
use golang_ap.Sched.Runs.{drop-absent}
use golang_ap.Sched.Exits.{handle_exited, handle_failed, handle_reconnect_failed, claim_of}
use golang_ap.Sched.Handle.{handle_event}
use golang_ap.Sched.Registry.Kept.{
  IsKept, IsKept-refl, ◌⨾◌, Extends, if_IsKept, log_job-IsKept, left_idle-IsKept,
  reap_waiters-IsKept, job_failed-IsKept, run_ended-IsKept, forget_match-IsKept, clean_claim-IsKept,
}

option_inj {ℓ} : {A : Type ℓ} {x y : A} → some x ≡ some y → x ≡ y
option_inj h = cc

module _ (w : World) (claims : ClaimLib) where
  -- An effect that was had.
  abbrev pub IsTold : Effect w claims → List (Effect w claims) → Type 0
  IsTold e es =
      (before : List (Effect w claims)) × (after : List (Effect w claims)) × (es
        ≡ before ++ (e ∷ after))

  pub IsTold-more :
      (e : Effect w claims) (es fs : List (Effect w claims))
      → Extends w claims es fs
      → IsTold e es
      → IsTold e fs
  IsTold-more e es fs (more, h) (before, after, g) =
      (before, after ++ more, h ∙ ap (λ x. x ++ more) g ∙ append_assoc before (e ∷ after) more)

  pub extended :
      (es fs gs : List (Effect w claims))
      → Extends w claims es fs
      → Extends w claims fs gs
      → Extends w claims es gs
  extended es fs gs (m, e) (n, f) = (m ++ n, f ∙ ap (λ x. x ++ n) e ∙ append_assoc es m n)

  abbrev pub gauge_after : Option RunInfo → ℤ → ℤ
  gauge_after none n = n
  gauge_after (some ri) n = n +ℤ neg_ℤ (pos 1)

  -- The run of `key`, if there is one, is out of the registry.
  pub record IsForgotten (key : JobKey) (s t : Core w claims) : Type 0 where
    pub runs : t.running ≡ drop_run key s.running
    pub gauge : t.running_gauge ≡ gauge_after (find_run key s.running) s.running_gauge
    pub drain : t.draining ≡ s.draining
    pub done : t.drain_done ≡ s.drain_done
    pub told : Extends w claims s.effects t.effects

  forget_run-IsForgotten :
      (key : JobKey) (ri : Option RunInfo) (s : Core w claims)
      → find_run key s.running ≡ ri
      → IsForgotten key s (forget_run w claims key ri s)
  unfolding forget_run tell
  forget_run-IsForgotten key none s h = record {
    runs = sym (drop-absent key s.running h);
    gauge = sym (ap (λ x. gauge_after x s.running_gauge) h);
    drain = refl;
    done = refl;
    told = ([], sym (append-nil s.effects));
  }
  forget_run-IsForgotten key (some ri) s h = record {
    runs = refl;
    gauge = sym (ap (λ x. gauge_after x s.running_gauge) h);
    drain = refl;
    done = refl;
    told = (_, refl);
  }

  IsForgotten-kept :
      {key : JobKey} {s t u : Core w claims}
      → IsForgotten key s t
      → IsKept w claims t u
      → IsForgotten key s u
  IsForgotten-kept {s} h g = record {
    runs = g.runs ∙ h.runs;
    gauge = g.gauge ∙ h.gauge;
    drain = g.drain ∙ h.drain;
    done = g.done ∙ h.done;
    told = extended _ _ _ h.told g.told;
  }

  -- And the drain is finished where no run is left.
  pub record IsEnded (key : JobKey) (s t : Core w claims) : Type 0 where
    pub runs : t.running ≡ drop_run key s.running
    pub gauge : t.running_gauge ≡ gauge_after (find_run key s.running) s.running_gauge
    pub drain : t.draining ≡ s.draining
    pub told : Extends w claims s.effects t.effects
    pub waits :
        (ch : ℕ) → s.drain_done ≡ some ch → is_idle t.running ≡ false → t.drain_done ≡ some ch
    pub closes :
        (ch : ℕ)
        → s.draining ≡ true
        → s.drain_done ≡ some ch
        → is_idle t.running ≡ true
        → IsTold (close_channel ch) t.effects

  finish_drain-runs :
      (o : Option ℕ) (s : Core w claims)
      → ((finish_drain w claims o s).running ≡ s.running)
        × ((finish_drain w claims o s).running_gauge ≡ s.running_gauge)
        × ((finish_drain w claims o s).draining ≡ s.draining)
        × Extends w claims s.effects (finish_drain w claims o s).effects
  unfolding finish_drain tell
  finish_drain-runs none s = (refl, refl, refl, ([], sym (append-nil s.effects)))
  finish_drain-runs (some ch) s = (refl, refl, refl, (_, refl))

  finish_drain-closes :
      (ch : ℕ) (o : Option ℕ) (s : Core w claims)
      → o ≡ some ch
      → IsTold (close_channel ch) (finish_drain w claims o s).effects
  unfolding finish_drain tell
  finish_drain-closes ch none s h = cc
  finish_drain-closes ch (some dh) s h =
      (s.effects, [], ap (λ x. s.effects ++ (close_channel x ∷ [])) dh-eq)
    where
      dh-eq : dh ≡ ch
      dh-eq = cc

  finished :
      {key : JobKey} {s t : Core w claims}
      → IsForgotten key s t
      → IsEnded key s (maybe_finish_drain w claims t)
  finished {key} {s} {t} h = elim (Bool-cases (t.draining && is_idle t.running)) [
    | inl e ↦
        let f = finish_drain-runs t.drain_done t in
        record {
          runs = unfold maybe_finish_drain in rw e (f.0 ∙ h.runs);
          gauge = unfold maybe_finish_drain in rw e (f.1 ∙ h.gauge);
          drain = unfold maybe_finish_drain in rw e (f.2 ∙ h.drain);
          told = unfold maybe_finish_drain in rw e (extended _ _ _ h.told f.3);
          waits = λ ch a b. absurd (unfold maybe_finish_drain in ground (arith, e, f.0));
          closes = λ ch a b c.
              unfold maybe_finish_drain in
              rw e (finish_drain-closes ch t.drain_done t (h.done ∙ b));
        }
    | inr e ↦ record {
      runs = unfold maybe_finish_drain in rw e h.runs;
      gauge = unfold maybe_finish_drain in rw e h.gauge;
      drain = unfold maybe_finish_drain in rw e h.drain;
      told = unfold maybe_finish_drain in rw e h.told;
      waits = λ ch a b. unfold maybe_finish_drain in rw e (h.done ∙ a);
      closes = λ ch a b c. absurd (unfold maybe_finish_drain in ground (arith, e, h.drain));
    }
  ]

  IsKept-then :
      {s t u : Core w claims} → IsKept w claims s t → IsKept w claims t u → IsKept w claims s u
  IsKept-then h g = ◌⨾◌ w claims h g

  IsEnded-kept :
      {key : JobKey} {s t u : Core w claims}
      → IsEnded key s t
      → IsKept w claims t u
      → IsEnded key s u
  IsEnded-kept h g = record {
    runs = g.runs ∙ h.runs;
    gauge = g.gauge ∙ h.gauge;
    drain = g.drain ∙ h.drain;
    told = extended _ _ _ h.told g.told;
    waits = λ ch a b. g.done ∙ h.waits ch a (sym (ap is_idle g.runs) ∙ b);
    closes = λ ch a b c. IsTold-more _ _ _ g.told (h.closes ch a b (sym (ap is_idle g.runs) ∙ c));
  }

  module _ (cfg : Config w claims) (now c p : ℤ) (s : Core w claims) where
    forgotten : IsForgotten (c, p) s (forget_run w claims (c, p) (find_run (c, p) s.running) s)
    forgotten = forget_run-IsForgotten (c, p) _ s refl

    handle_exited-IsEnded :
        (res : Option Result) (err : Option RunError)
        → IsEnded (c, p) s (handle_exited w claims cfg now c p res err s)
    unfolding handle_exited
    handle_exited-IsEnded res err =
        let matched =
          IsForgotten-kept forgotten (forget_match-IsKept w claims (find_run (c, p) s.running) _) in
        let written = IsForgotten-kept matched (
          if_IsKept w claims _ (IsKept-refl w claims)
            (run_ended-IsKept w claims cfg now c p res err _)) in
        let nudged = IsForgotten-kept written (left_idle-IsKept w claims cfg _) in
        IsEnded-kept (finished nudged) (reap_waiters-IsKept w claims (find_run (c, p) s.running) _)

    handle_failed-IsEnded :
        (err : RunError) (panicked : Bool) (claim : Str) (released : Bool)
        → IsEnded (c, p) s (handle_failed w claims cfg now c p err panicked claim released s)
    unfolding handle_failed
    handle_failed-IsEnded err panicked claim released =
        let cleaned =
          clean_claim-IsKept w claims (claim_of w claims claim (find_run (c, p) s.running)) released
            _ in
        let written =
          if_IsKept w claims _ (forget_match-IsKept w claims (find_run (c, p) s.running) _) (
            if_IsKept w claims _ cleaned
              (IsKept-then cleaned (job_failed-IsKept w claims cfg now c p _ panicked _))) in
        IsEnded-kept (finished (IsForgotten-kept forgotten written))
          (reap_waiters-IsKept w claims (find_run (c, p) s.running) _)

    handle_reconnect_failed-IsEnded :
        (claim : Str) (err : RunError)
        → IsEnded (c, p) s (handle_reconnect_failed w claims cfg now c p claim err s)
    unfolding handle_reconnect_failed
    handle_reconnect_failed-IsEnded claim err =
        let cleaned =
          clean_claim-IsKept w claims (claim_of w claims claim (find_run (c, p) s.running)) true
            _ in
        let logged = IsKept-then cleaned (log_job-IsKept w claims cfg c p _ _) in
        let written =
          if_IsKept w claims _ cleaned
            (IsKept-then logged (job_failed-IsKept w claims cfg now c p _ false _)) in
        IsEnded-kept (finished (IsForgotten-kept forgotten written))
          (reap_waiters-IsKept w claims (find_run (c, p) s.running) _)

  at_key : {j k : JobKey} {s t : Core w claims} → j ≡ k → IsEnded j s t → IsEnded k s t
  at_key {s} {t} e h = subst (λ k. IsEnded k s t) e h

  -- The job whose run an event ends.
  abbrev pub ended_key : Event w claims → Option JobKey
  ended_key (ev_exited c p res err) = some (c, p)
  ended_key (ev_failed c p err panicked claim released) = some (c, p)
  ended_key (ev_reconnect_failed c p claim err) = some (c, p)
  ended_key _ = none

  pub handle_event-IsEnded :
      (cfg : Config w claims) (clk : Clock w claims) (ev : Event w claims) (key : JobKey)
      (s : Core w claims)
      → ended_key ev ≡ some key
      → IsEnded key s (handle_event w claims cfg clk ev s)
  unfolding handle_event
  handle_event-IsEnded cfg clk (ev_exited c p res err) key s h =
      at_key (option_inj h) (handle_exited-IsEnded cfg clk.now c p s res err)
  handle_event-IsEnded cfg clk (ev_failed c p err panicked claim released) key s h =
      at_key (option_inj h) (handle_failed-IsEnded cfg clk.now c p s err panicked claim released)
  handle_event-IsEnded cfg clk (ev_reconnect_failed c p claim err) key s h =
      at_key (option_inj h) (handle_reconnect_failed-IsEnded cfg clk.now c p s claim err)
  handle_event-IsEnded cfg clk _ key s h = absurd cc
