-- ===== src/Sched/Registry/Recovery.antt =====
-- The gauge through the recovery of the runs of a previous incarnation.
use golang_ap.Prelude.{
  ℕ, ℤ, pos, Bool, true, false, not, ◌&&◌, Option, none, List, [], ◌∷◌, ◌≡◌, refl, arith, sym,
  subst, inl, inr, Option-cases, Bool-cases, ◌==ℤ◌, ◌+ℤ◌, if◌then◌else◌, All,
}
use golang_ap.Text.{str}
use golang_ap.Match.{ClaimLib}
use golang_ap.Queue.State.{World}
use golang_ap.Queue.Actions.{status_running, int_attr}
use golang_ap.Sched.State.{JobKey, has_key, RunInfo, Runs, find_run, put_run, Config, Core}
use golang_ap.Sched.Runs.{find-put_run, same_key_iff}
use golang_ap.Sched.Teardown.{
  handle_recover, recover, triage, reattach, Recovered, recovered_run, reconnecting, key_of,
  is_orphan, can_reconnect, requeue_to_idle, log_disconnected,
}
use golang_ap.Sched.Registry.Kept.{
  IsKept, IsKept-refl, ◌⨾◌, tell-IsKept, if_IsKept, requeue_to_idle-IsKept,
}
use golang_ap.Sched.Registry.Steady.{close_done-IsKept}
use golang_ap.Sched.Registry.Registered.{IsRegistered, entered, kept-IsRegistered}

-- The keys of the ads of Running jobs, and a list without repetition.
abbrev pub IsOnce : List JobKey → Type 0
IsOnce [] = Unit
IsOnce (k ∷ ks) = (has_key k ks ≡ false) × IsOnce ks

module _ (w : World) (claims : ClaimLib) where
  open w use {lib, scan, get}
  open lib use {Ad}

  abbrev pub running_keys : List Ad → List JobKey
  running_keys [] = []
  running_keys (ad ∷ ads) =
      let rest = running_keys ads in
      if int_attr w ad (str "JobStatus") ==ℤ status_running then key_of w claims ad ∷ rest else rest

  abbrev recovered_keys : List (Recovered w claims) → List JobKey
  recovered_keys [] = []
  recovered_keys (r ∷ rs) = r.key ∷ recovered_keys rs

  -- What the first loop of a recovery finds has no run, and is found once.
  abbrev IsFresh : Runs → List (Recovered w claims) → Type 0
  IsFresh m rs = All (λ r. find_run r.key m ≡ none) rs × IsOnce (recovered_keys rs)

  abbrev triaged : ℤ → Ad → Core w claims → Core w claims
  triaged now ad s =
      if is_orphan w claims s.running ad && not (can_reconnect w claims now ad)
      then requeue_to_idle w claims now (key_of w claims ad).0 (key_of w claims ad).1 s
      else s

  triaged-IsKept : (now : ℤ) (ad : Ad) (s : Core w claims) → IsKept w claims s (triaged now ad s)
  triaged-IsKept now ad s =
      if_IsKept w claims _ (requeue_to_idle-IsKept w claims now _ _ s) (IsKept-refl w claims)

  triage-IsKept :
      (now : ℤ) (ads : List Ad) (s : Core w claims)
      → IsKept w claims s (triage w claims now ads s).0
  unfolding triage
  triage-IsKept now [] s = IsKept-refl w claims
  triage-IsKept now (ad ∷ ads) s =
      ◌⨾◌ w claims (triaged-IsKept now ad s) (triage-IsKept now ads (triaged now ad s))

  triage-absent :
      (k : JobKey) (now : ℤ) (ads : List Ad) (s : Core w claims)
      → has_key k (running_keys ads) ≡ false
      → has_key k (recovered_keys (triage w claims now ads s).1) ≡ false
  unfolding triage has_key recovered_run is_orphan
  triage-absent k now [] s h = refl
  triage-absent k now (ad ∷ ads) s h = ground (arith, triage-absent k now ads (triaged now ad s))

  orphan_absent :
      (ad : Ad) (m : Runs)
      → is_orphan w claims m ad ≡ true
      → (find_run (key_of w claims ad) m ≡ none)
        × ((int_attr w ad (str "JobStatus") ==ℤ status_running) ≡ true)
  unfolding is_orphan
  orphan_absent ad m h = elim (Option-cases (find_run (key_of w claims ad) m)) [
    | inl e ↦ (e, ground arith)
    | inr (ri, e) ↦ absurd (ground arith)
  ]

  triage-IsFresh :
      (now : ℤ) (ads : List Ad) (s : Core w claims)
      → IsOnce (running_keys ads)
      → IsFresh s.running (triage w claims now ads s).1
  unfolding triage recovered_run
  triage-IsFresh now [] s h = (tt, tt)
  triage-IsFresh now (ad ∷ ads) s h =
      elim (Bool-cases (is_orphan w claims s.running ad && can_reconnect w claims now ad)) [
        | inl e ↦
            let found = orphan_absent ad s.running (ground (arith, e)) in
            let once = unonced ad ads found.1 h in
            let rest = later (triage-IsFresh now ads (triaged now ad s) once.1) in
            rw e ((found.0, rest.0), (triage-absent (key_of w claims ad) now ads _ once.0, rest.1))
        | inr e ↦ rw e (later (triage-IsFresh now ads (triaged now ad s) (rest_once ad ads h)))
      ]
    where
      unonced :
          (ad : Ad) (ads : List Ad)
          → (int_attr w ad (str "JobStatus") ==ℤ status_running) ≡ true
          → IsOnce (running_keys (ad ∷ ads))
          → IsOnce (key_of w claims ad ∷ running_keys ads)
      unonced ad ads e g = rw e at g

      rest_once :
          (ad : Ad) (ads : List Ad) → IsOnce (running_keys (ad ∷ ads)) → IsOnce (running_keys ads)
      rest_once ad ads g = elim (Bool-cases (int_attr w ad (str "JobStatus") ==ℤ status_running)) [
        | inl e ↦ (unonced ad ads e g).1
        | inr e ↦ rw e at g
      ]

      later :
          IsFresh (triaged now ad s).running (triage w claims now ads (triaged now ad s)).1
          → IsFresh s.running (triage w claims now ads (triaged now ad s)).1
      later g =
          subst (λ m. IsFresh m (triage w claims now ads (triaged now ad s)).1)
            (triaged-IsKept now ad s).runs g

  fresh_after :
      (key : JobKey) (ri : RunInfo) (m : Runs) (rs : List (Recovered w claims))
      → has_key key (recovered_keys rs) ≡ false
      → All (λ r. find_run r.key m ≡ none) rs
      → All (λ r. find_run r.key (put_run key ri m) ≡ none) rs
  unfolding has_key
  fresh_after key ri m [] h g = tt
  fresh_after key ri m (r ∷ rs) h g = (
    ground
        (arith, find-put_run key r.key ri m, same_key_iff key r.key, same_key_iff r.key key, g.0),
    fresh_after key ri m rs (ground arith) g.1,
  )

  log_disconnected-IsKept :
      (cfg : Config w claims) (r : Recovered w claims) (s : Core w claims)
      → IsKept w claims s (log_disconnected w claims cfg r s)
  unfolding log_disconnected
  log_disconnected-IsKept cfg r s =
      if_IsKept w claims _ (tell-IsKept w claims _ s) (IsKept-refl w claims)

  reattach-IsRegistered :
      (cfg : Config w claims) (rs : List (Recovered w claims)) (s : Core w claims)
      → IsFresh s.running rs
      → IsRegistered w claims s
      → IsRegistered w claims (reattach w claims cfg rs s)
  unfolding reattach
  reattach-IsRegistered cfg [] s h g = g
  reattach-IsRegistered cfg (r ∷ rs) s h g =
      let after =
        ◌⨾◌ w claims (log_disconnected-IsKept cfg r (with_run r s)) (tell-IsKept w claims _ _) in
      reattach-IsRegistered cfg rs _
        (subst (λ m. IsFresh m rs) (sym after.runs)
          (fresh_after r.key _ s.running rs h.1.0 h.0.1, h.1.1))
        (kept-IsRegistered w claims after (entered w claims r.key _ s h.0.0 g))
    where
      with_run : Recovered w claims → Core w claims → Core w claims
      with_run r s = record s {
        running = put_run r.key (reconnecting w claims r) s.running;
        running_gauge = s.running_gauge +ℤ pos 1;
      }

  recover-IsRegistered :
      (cfg : Config w claims) (now : ℤ) (s : Core w claims)
      → IsOnce (running_keys (scan s.queue.coll))
      → IsRegistered w claims s
      → IsRegistered w claims (recover w claims cfg now s)
  unfolding recover
  recover-IsRegistered cfg now s h g =
      let ads = scan s.queue.coll in
      let same = triage-IsKept now ads s in
      reattach-IsRegistered cfg (triage w claims now ads s).1 _
        (subst (λ m. IsFresh m (triage w claims now ads s).1) (sym same.runs)
          (triage-IsFresh now ads s h))
        (kept-IsRegistered w claims same g)

  pub handle_recover-IsRegistered :
      (cfg : Config w claims) (now : ℤ) (ch : Option ℕ) (s : Core w claims)
      → IsOnce (running_keys (scan s.queue.coll))
      → IsRegistered w claims s
      → IsRegistered w claims (handle_recover w claims cfg now ch s)
  unfolding handle_recover
  handle_recover-IsRegistered cfg now ch s h g =
      kept-IsRegistered w claims (close_done-IsKept w claims ch _) (chosen s.draining)
    where
      chosen : (b : Bool) → IsRegistered w claims (if b then s else recover w claims cfg now s)
      chosen true = g
      chosen false = recover-IsRegistered cfg now s h g
