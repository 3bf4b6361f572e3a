-- ===== src/Sched/Registry/Drain.antt =====
-- The drain of a shutdown ends once the runs have.
use golang_ap.Prelude.{
  ℕ, Bool, true, false, Option, none, some, List, [], ◌∷◌, ◌≡◌, refl, arith, ap, sym, subst, ◌∙◌,
  ◌⊎◌, inl, inr, Option-cases, Bool-cases, length, is_some, All,
}
use golang_ap.Match.{ClaimLib}
use golang_ap.Queue.State.{World}
use golang_ap.Sched.State.{
  JobKey, Runs, find_run, drop_run, Config, Clock, Core, Event, ev_drain, close_channel, is_idle,
  has_key, tell,
}
use golang_ap.Sched.Runs.{find-drop_run, same_key_iff}
use golang_ap.Sched.Teardown.{handle_drain, vacate_all, detach_all}
use golang_ap.Sched.Handle.{handle_event}
use golang_ap.Sched.Registry.Steady.{
  IsSteady, IsCovered-self, vacate_all-IsSteady, detach_all-IsSteady,
}
use golang_ap.Sched.Registry.Ended.{IsTold, IsTold-more, ended_key, IsEnded, handle_event-IsEnded}

module _ (w : World) (claims : ClaimLib) where
  -- The events of a list, one after another, each with the readings of the clock.
  abbrev pub handle_all :
      Config w claims → List (Clock w claims × Event w claims) → Core w claims → Core w claims
  handle_all cfg [] s = s
  handle_all cfg ((clk, ev) ∷ evs) s = handle_all cfg evs (handle_event w claims cfg clk ev s)

  -- Every event of the list ends a run, and the jobs of those runs.
  abbrev pub IsEndings : List (Clock w claims × Event w claims) → Type 0
  IsEndings evs = All (λ e. is_some (ended_key w claims e.1) ≡ true) evs

  abbrev add_key : Option JobKey → List JobKey → List JobKey
  add_key none keys = keys
  add_key (some k) keys = k ∷ keys

  abbrev pub ended_keys : List (Clock w claims × Event w claims) → List JobKey
  ended_keys [] = []
  ended_keys ((clk, ev) ∷ evs) = add_key (ended_key w claims ev) (ended_keys evs)

  -- Every job of the registry is in the list.
  abbrev pub IsWithin : List JobKey → Runs → Type 0
  IsWithin keys m = (j : JobKey) → is_some (find_run j m) ≡ true → has_key j keys ≡ true

  IsWithin-dropped :
      (k : JobKey) (keys : List JobKey) (m : Runs)
      → IsWithin (k ∷ keys) m
      → IsWithin keys (drop_run k m)
  unfolding has_key
  IsWithin-dropped k keys m h j g = ground (arith, h j, find-drop_run k j m, same_key_iff k j)

  IsWithin-none : (m : Runs) → IsWithin [] m → m ≡ []
  unfolding has_key find_run
  IsWithin-none [] h = refl
  IsWithin-none ((k, ri) ∷ m) h = absurd (ground (arith, h k, same_key_iff k k))

  -- The drain is pending, with its channel, or the channel was closed and no run is left.
  abbrev IsDraining : ℕ → Core w claims → Type 0
  IsDraining ch s =
      (s.draining ≡ true)
      × (((is_idle s.running ≡ false) × (s.drain_done ≡ some ch))
          ⊎ ((s.running ≡ []) × IsTold w claims (close_channel ch) s.effects))

  idle_nil : (m : Runs) → is_idle m ≡ true → m ≡ []
  unfolding is_idle
  idle_nil [] h = refl
  idle_nil (r ∷ m) h = cc

  ended-IsDraining :
      (ch : ℕ) (key : JobKey) (s t : Core w claims)
      → IsEnded w claims key s t
      → IsDraining ch s
      → IsDraining ch t
  ended-IsDraining ch key s t e (d, inl (busy, pending)) = (
    e.drain ∙ d,
    elim (Bool-cases (is_idle t.running)) [
      | inl f ↦ inr (idle_nil t.running f, e.closes ch d pending f)
      | inr f ↦ inl (f, e.waits ch pending f)
    ],
  )
  ended-IsDraining ch key s t e (d, inr (idle, told)) =
      (e.drain ∙ d, inr (e.runs ∙ emptied s.running idle, IsTold-more w claims _ _ _ e.told told))
    where
      emptied : (m : Runs) → m ≡ [] → drop_run key m ≡ []
      emptied m h = rw h (unfold drop_run in refl)

  all-IsDraining :
      (cfg : Config w claims) (ch : ℕ) (evs : List (Clock w claims × Event w claims))
      (s : Core w claims)
      → IsEndings evs
      → IsWithin (ended_keys evs) s.running
      → IsDraining ch s
      → IsDraining ch (handle_all cfg evs s) × ((handle_all cfg evs s).running ≡ [])
  all-IsDraining cfg ch [] s h g d = (d, IsWithin-none s.running g)
  all-IsDraining cfg ch ((clk, ev) ∷ evs) s h g d = elim (Option-cases (ended_key w claims ev)) [
    | inl e ↦ absurd (ground (arith, e, h.0))
    | inr (key, e) ↦
        let ended = handle_event-IsEnded w claims cfg clk ev key s e in
        all-IsDraining cfg ch evs (handle_event w claims cfg clk ev s) h.1
          (subst (IsWithin (ended_keys evs)) (sym ended.runs) (
            IsWithin-dropped key (ended_keys evs) s.running
              (subst (λ o. IsWithin (add_key o (ended_keys evs)) s.running) e g)))
          (ended-IsDraining ch key s _ ended d)
  ]

  IsTold-closed :
      (ch : ℕ) (s : Core w claims)
      → IsDraining ch s
      → s.running ≡ []
      → IsTold w claims (close_channel ch) s.effects
  unfolding is_idle
  IsTold-closed ch s (d, inl (busy, pending)) h = absurd (cc (ap is_idle h))
  IsTold-closed ch s (d, inr (idle, told)) h = told

  steady-IsDraining :
      (ch : ℕ) (s t : Core w claims)
      → is_idle s.running ≡ false
      → s.draining ≡ true
      → s.drain_done ≡ some ch
      → IsSteady w claims s t
      → IsDraining ch t
  unfolding is_idle
  steady-IsDraining ch s t busy d pending h =
      (h.drain ∙ d, inl (still s.running t.running busy h.runs.size, h.done ∙ pending))
    where
      still : (m n : Runs) → is_idle m ≡ false → length n ≡ length m → is_idle n ≡ false
      still [] n b e = cc
      still (r ∷ m) [] b e = absurd (omega (arith, e))
      still (r ∷ m) (q ∷ n) b e = refl

  -- A drain begins: it is pending, or done at once, and the same jobs run.
  begun :
      (cfg : Config w claims) (clk : Clock w claims) (ch : ℕ) (s : Core w claims)
      → IsDraining ch (handle_event w claims cfg clk (ev_drain ch) s)
        × ((j : JobKey)
            → is_some (find_run j (handle_event w claims cfg clk (ev_drain ch) s).running)
              ≡ is_some (find_run j s.running))
  unfolding handle_event handle_drain
  begun cfg clk ch s = elim (Bool-cases (is_idle s.running)) [
    | inl e ↦ rw e (at_once e)
    | inr e ↦ rw e (stepping e cfg.reconnect_disabled)
  ]
    where
      s1 : Core w claims
      s1 = record s { draining = true; drain_done = some ch }

      at_once :
          is_idle s.running ≡ true
          → IsDraining ch (tell w claims (close_channel ch) (record s { draining = true }))
            × ((j : JobKey)
                → is_some (
                    find_run j
                      (tell w claims (close_channel ch) (record s { draining = true })).running)
                  ≡ is_some (find_run j s.running))
      at_once e =
          unfold tell in ((refl, inr (idle_nil s.running e, (s.effects, [], refl))), λ j. refl)

      stepping :
          is_idle s.running ≡ false
          → (b : Bool)
          → let t : Core w claims = elim b [
            | true ↦ vacate_all w claims clk.now s1.running s1
            | false ↦ detach_all w claims s1.running s1
          ] in
            IsDraining ch t
            × ((j : JobKey) → is_some (find_run j t.running) ≡ is_some (find_run j s.running))
      stepping e true =
          let h = vacate_all-IsSteady w claims clk.now s1.running s1 (IsCovered-self s1.running) in
          (steady-IsDraining ch s1 _ e refl refl h, h.runs.keys)
      stepping e false =
          let h = detach_all-IsSteady w claims s1.running s1 (IsCovered-self s1.running) in
          (steady-IsDraining ch s1 _ e refl refl h, h.runs.keys)

  -- A drain is asked for, and the events after it end runs, the run of each job of the registry among
  -- them: then, whatever the outcomes and their order, no run is left and the channel that Drain waits
  -- on has been closed.
  pub drain_completes :
      (cfg : Config w claims) (clk : Clock w claims) (ch : ℕ)
      (evs : List (Clock w claims × Event w claims)) (s : Core w claims)
      → IsEndings evs
      → IsWithin (ended_keys evs) s.running
      → let t = handle_all cfg evs (handle_event w claims cfg clk (ev_drain ch) s) in
        (t.running ≡ []) × IsTold w claims (close_channel ch) t.effects
  drain_completes cfg clk ch evs s h g =
      let (draining, keys) = begun cfg clk ch s in
      let (d, idle) =
        all-IsDraining cfg ch evs (handle_event w claims cfg clk (ev_drain ch) s) h
          (λ j e. g j (sym (keys j) ∙ e)) draining in
      (
        idle,
        IsTold-closed ch (handle_all cfg evs (handle_event w claims cfg clk (ev_drain ch) s)) d
            idle,
      )
