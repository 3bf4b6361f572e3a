-- ===== src/Sched/Registry/Steady.antt =====
-- The handlers that change the entries of the registry and not their keys.
use mathlib.Core.List.{append_assoc, append-nil}
use golang_ap.Prelude.{
  ℕ, ℤ, Bool, true, false, ◌||◌, Option, none, some, [], ◌∷◌, ◌++◌, ◌≡◌, refl, arith, ap, sym, ◌∙◌,
  length, if◌then◌else◌, is_some, All,
}
use golang_ap.Match.{ClaimLib}
use golang_ap.Queue.State.{World}
use golang_ap.Sched.State.{JobKey, RunInfo, Runs, find_run, put_run, Core, cancel_run}
use golang_ap.Sched.Runs.{same_key_iff, find-put_run, IsMap, put-IsMap, length-put_run}
use golang_ap.Sched.Teardown.{
  cancel_as, tear_down, handle_teardown, vacate_run, vacate_all, detach_all, close_done,
}
use golang_ap.Sched.Registry.Kept.{
  IsKept, IsKept-refl, Extends, tell-IsKept, requeue_to_idle-IsKept,
}

-- Registries of the same jobs.
pub record IsRetag (m n : Runs) : Type 0 where
  pub keys : (j : JobKey) → is_some (find_run j n) ≡ is_some (find_run j m)
  pub size : length n ≡ length m
  pub one : IsMap m → IsMap n

pub IsRetag-refl : {m : Runs} → IsRetag m m
IsRetag-refl = record { keys = λ j. refl; size = refl; one = λ h. h }

IsRetag-trans : {m n o : Runs} → IsRetag m n → IsRetag n o → IsRetag m o
IsRetag-trans h g = record {
  keys = λ j. g.keys j ∙ h.keys j;
  size = g.size ∙ h.size;
  one = λ x. g.one (h.one x);
}

put-IsRetag :
    (k : JobKey) (ri : RunInfo) (m : Runs)
    → is_some (find_run k m) ≡ true
    → IsRetag m (put_run k ri m)
put-IsRetag k ri m h = record {
  keys = λ j. ground (arith, find-put_run k j ri m, same_key_iff k j);
  size = ground (arith, length-put_run k ri m);
  one = put-IsMap k ri m;
}

-- Each job of the first registry is in the second.
abbrev pub IsCovered : Runs → Runs → Type 0
IsCovered runs m = All (λ e. is_some (find_run e.0 m) ≡ true) runs

IsCovered-more :
    (runs m : Runs) (k : JobKey) (ri : RunInfo) → IsCovered runs m → IsCovered runs ((k, ri) ∷ m)
unfolding find_run
IsCovered-more [] m k ri h = tt
IsCovered-more ((j, r) ∷ runs) m k ri h = (ground (arith, h.0), IsCovered-more runs m k ri h.1)

pub IsCovered-self : (m : Runs) → IsCovered m m
unfolding find_run
IsCovered-self [] = tt
IsCovered-self ((k, ri) ∷ m) =
    (ground (arith, same_key_iff k k), IsCovered-more m m k ri (IsCovered-self m))

IsCovered-retag : (runs m n : Runs) → IsRetag m n → IsCovered runs m → IsCovered runs n
IsCovered-retag [] m n r h = tt
IsCovered-retag ((j, ri) ∷ runs) m n r h = (r.keys j ∙ h.0, IsCovered-retag runs m n r h.1)

module _ (w : World) (claims : ClaimLib) where
  open w use {lib}
  open lib use {Ad}

  -- The registry has the same jobs, and the gauge and the drain are as before.
  pub record IsSteady (s t : Core w claims) : Type 0 where
    pub runs : IsRetag s.running t.running
    pub gauge : t.running_gauge ≡ s.running_gauge
    pub drain : t.draining ≡ s.draining
    pub done : t.drain_done ≡ s.drain_done
    pub told : Extends w claims s.effects t.effects

  IsRetag-eq : {m n : Runs} → n ≡ m → IsRetag m n
  IsRetag-eq e = rw e IsRetag-refl

  pub IsSteady-of : {s t : Core w claims} → IsKept w claims s t → IsSteady s t
  IsSteady-of h = record {
    runs = IsRetag-eq h.runs;
    gauge = h.gauge;
    drain = h.drain;
    done = h.done;
    told = h.told;
  }

  pub IsSteady-trans : {s t u : Core w claims} → IsSteady s t → IsSteady t u → IsSteady s u
  IsSteady-trans {s} h g = record {
    runs = IsRetag-trans h.runs g.runs;
    gauge = g.gauge ∙ h.gauge;
    drain = g.drain ∙ h.drain;
    done = g.done ∙ h.done;
    told = (
      h.told.0 ++ g.told.0,
      g.told.1 ∙ ap (λ x. x ++ g.told.0) h.told.1 ∙ append_assoc s.effects h.told.0 g.told.0,
    );
  }

  pub IsSteady-refl : {s : Core w claims} → IsSteady s s
  IsSteady-refl = IsSteady-of (IsKept-refl w claims)

  pub if_IsSteady :
      (b : Bool) {s t u : Core w claims}
      → IsSteady s t
      → IsSteady s u
      → IsSteady s (if b then t else u)
  if_IsSteady true h g = h
  if_IsSteady false h g = g

  pub put-IsSteady :
      (k : JobKey) (ri : RunInfo) (s : Core w claims)
      → is_some (find_run k s.running) ≡ true
      → IsSteady s (record s { running = put_run k ri s.running })
  put-IsSteady k ri s h = record {
    runs = put-IsRetag k ri s.running h;
    gauge = refl;
    drain = refl;
    done = refl;
    told = ([], sym (append-nil s.effects));
  }

  pub cancel_as-IsSteady :
      (k : JobKey) (ri : RunInfo) (s : Core w claims)
      → is_some (find_run k s.running) ≡ true
      → IsSteady s (cancel_as w claims k ri s)
  unfolding cancel_as
  cancel_as-IsSteady k ri s h =
      IsSteady-trans (put-IsSteady k ri s h) (IsSteady-of (tell-IsKept w claims (cancel_run k) _))

  pub vacate_run-IsSteady :
      (now : ℤ) (k : JobKey) (ri : RunInfo) (s : Core w claims)
      → is_some (find_run k s.running) ≡ true
      → IsSteady s (vacate_run w claims now k ri s)
  unfolding vacate_run
  vacate_run-IsSteady now (c, p) ri s h = IsSteady-trans (put-IsSteady (c, p) _ s h) (
      IsSteady-trans (IsSteady-of (requeue_to_idle-IsKept w claims now c p _))
        (IsSteady-of (tell-IsKept w claims _ _)))

  pub vacate_all-IsSteady :
      (now : ℤ) (runs : Runs) (s : Core w claims)
      → IsCovered runs s.running
      → IsSteady s (vacate_all w claims now runs s)
  unfolding vacate_all
  vacate_all-IsSteady now [] s h = IsSteady-refl
  vacate_all-IsSteady now ((k, ri) ∷ runs) s h =
      let first = if_IsSteady ri.vacated IsSteady-refl (vacate_run-IsSteady now k ri s h.0) in
      IsSteady-trans first
        (vacate_all-IsSteady now runs _ (IsCovered-retag runs s.running _ first.runs h.1))

  pub detach_all-IsSteady :
      (runs : Runs) (s : Core w claims)
      → IsCovered runs s.running
      → IsSteady s (detach_all w claims runs s)
  unfolding detach_all
  detach_all-IsSteady [] s h = IsSteady-refl
  detach_all-IsSteady ((k, ri) ∷ runs) s h =
      let first =
        if_IsSteady (ri.vacated || ri.detached) IsSteady-refl (cancel_as-IsSteady k _ s h.0) in
      IsSteady-trans first
        (detach_all-IsSteady runs _ (IsCovered-retag runs s.running _ first.runs h.1))

  pub close_done-IsKept :
      (done : Option ℕ) (s : Core w claims) → IsKept w claims s (close_done w claims done s)
  unfolding close_done
  close_done-IsKept none s = IsKept-refl w claims
  close_done-IsKept (some ch) s = tell-IsKept w claims _ s

  tear_down-IsSteady :
      (k : JobKey) (done : Option ℕ) (ri : Option RunInfo) (s : Core w claims)
      → find_run k s.running ≡ ri
      → IsSteady s (tear_down w claims k done ri s)
  unfolding tear_down
  tear_down-IsSteady k ch none s h = IsSteady-of (close_done-IsKept ch s)
  tear_down-IsSteady k ch (some ri) s h = cancel_as-IsSteady k _ s (ap is_some h)

  pub handle_teardown-IsSteady :
      (c p : ℤ) (done : Option ℕ) (s : Core w claims)
      → IsSteady s (handle_teardown w claims c p done s)
  unfolding handle_teardown
  handle_teardown-IsSteady c p done s = tear_down-IsSteady (c, p) done _ s refl
