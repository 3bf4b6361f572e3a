-- ===== src/Sched/Registry/Registered.antt =====
-- A registry with one entry for a job, and a gauge that counts it.
use golang_ap.Prelude.{pos, Option, none, some, ◌≡◌, refl, arith, ap, sym, subst, ◌∙◌, ◌+ℤ◌, length}
use golang_ap.Match.{ClaimLib}
use golang_ap.Queue.State.{World}
use golang_ap.Sched.State.{JobKey, RunInfo, Runs, find_run, put_run, drop_run, Core}
use golang_ap.Sched.Runs.{
  IsMap, put-IsMap, drop-IsMap, length-put_run, length-drop_run, drop-absent,
}
use golang_ap.Sched.Registry.Kept.{IsKept}
use golang_ap.Sched.Registry.Steady.{IsSteady, IsSteady-of}
use golang_ap.Sched.Registry.Ended.{IsEnded, gauge_after}

module _ (w : World) (claims : ClaimLib) where
  open w use {lib, scan, get}
  open lib use {Ad}

  pub record IsRegistered (s : Core w claims) : Type 0 where
    pub one : IsMap s.running
    pub counted : s.running_gauge ≡ pos (length s.running)

  pub steady-IsRegistered :
      {s t : Core w claims} → IsSteady w claims s t → IsRegistered s → IsRegistered t
  steady-IsRegistered h g = record {
    one = h.runs.one g.one;
    counted = h.gauge ∙ g.counted ∙ ap pos (sym h.runs.size);
  }

  less_one :
      (key : JobKey) (o : Option RunInfo) (m : Runs)
      → IsMap m
      → find_run key m ≡ o
      → gauge_after w claims o (pos (length m)) ≡ pos (length (drop_run key m))
  less_one key none m h e = ap (λ x. pos (length x)) (sym (drop-absent key m e))
  less_one key (some ri) m h e = ground (arith, length-drop_run key ri m h e)

  pub ended-IsRegistered :
      {key : JobKey} {s t : Core w claims}
      → IsEnded w claims key s t
      → IsRegistered s
      → IsRegistered t
  ended-IsRegistered {key} {s} {t} h g = record {
    one = subst IsMap (sym h.runs) (drop-IsMap key s.running g.one);
    counted =
        h.gauge
        ∙ ap (gauge_after w claims (find_run key s.running)) g.counted
        ∙ less_one key _ s.running g.one refl
        ∙ ap (λ x. pos (length x)) (sym h.runs);
  }

  -- A run is entered for a job that has none.
  pub entered :
      (key : JobKey) (ri : RunInfo) (s : Core w claims)
      → find_run key s.running ≡ none
      → IsRegistered s
      → IsRegistered (record s {
        running = put_run key ri s.running;
        running_gauge = s.running_gauge +ℤ pos 1;
      })
  entered key ri s h g = record {
    one = put-IsMap key ri s.running g.one;
    counted = ground (arith, g.counted, length-put_run key ri s.running);
  }

  pub kept-IsRegistered :
      {s t : Core w claims} → IsKept w claims s t → IsRegistered s → IsRegistered t
  kept-IsRegistered h g = steady-IsRegistered (IsSteady-of w claims h) g
