-- ===== src/Sched/Reports.antt =====
-- The goroutines of runs report the end of the run to the core, in internal/sched/sched.go.
use golang_ap.Prelude.{
  ℕ, ℤ, Option, none, some, List, [], ◌∷◌, ◌++◌, ◌≡◌, ◌⊎◌, ◌<◌, ◌≤◌, refl, sym, ap, subst, ◌∙◌,
  arith, length, length-append, inl, inr, Bool-cases, if◌then◌else◌,
}
use golang_ap.Text.{Str, str, str_eq}
use golang_ap.Match.{ClaimLib, Table, MatchRec}
use golang_ap.Queue.State.{World}
use golang_ap.Sched.State.{NegotiatedMatch, Event, ev_started, Core, submit_event}
use golang_ap.Sched.RunJob.{
  Answers, ClaimedSlot, ShadowEnd, returned, not_reconnected, panicked, failure, run_end, activate,
  rekeyed, claimed_slot, requested_slots, run_entered, run_job_events, reconnected, reattached,
  reconnect_job_events,
}
use golang_ap.Sched.Registry.Ended.{ended_key}

module _ (w : World) (claims : ClaimLib) where
  open w use {lib}
  open lib use {Ad}

  -- The events of a run: its end, and nothing before it but its start.
  abbrev pub IsReport : ℤ → ℤ → List (Event w claims) → Type 0
  IsReport c p evs =
      (last : Event w claims) × (ended_key w claims last ≡ some (c, p))
      × ((evs ≡ last ∷ [])
          ⊎ ((slot : Str) × (claim : Str) × (evs ≡ ev_started c p slot claim ∷ last ∷ [])))

  one :
      (c p : ℤ) (ev : Event w claims) → ended_key w claims ev ≡ some (c, p) → IsReport c p (ev ∷ [])
  one c p ev h = (ev, h, inl refl)

  finish_key : (c p : ℤ) (o : ShadowEnd) → ended_key w claims (run_end w claims c p o) ≡ some (c, p)
  unfolding run_end
  finish_key c p (returned res err) = refl
  finish_key c p (not_reconnected err) = refl
  finish_key c p (panicked text) = refl

  module _ (m : NegotiatedMatch w claims) (a : Answers w claims) where
    failed : (claim text : Str) → IsReport m.cluster m.proc (failure w claims m claim text ∷ [])
    failed claim text = one m.cluster m.proc _ (unfold failure in refl)

    served :
        (claim : Str)
        → ended_key w claims (
            if a.shadow_new claim
            then run_end w claims m.cluster m.proc a.outcome
            else failure w claims m claim (str "shadow.New: " ++ a.error_text))
          ≡ some (m.cluster, m.proc)
    served claim = elim (Bool-cases (a.shadow_new claim)) [
      | inl e ↦ rw e (finish_key m.cluster m.proc a.outcome)
      | inr e ↦ rw e (unfold failure in refl)
    ]

    activate-IsReport :
        (claim slot : Str) (t : Table claims Ad)
        → IsReport m.cluster m.proc (activate w claims m a claim slot t).1
    unfolding activate
    activate-IsReport claim slot t = elim (Bool-cases (a.activated claim)) [
      | inl e ↦ rw e (_, served claim, inr (slot, claim, refl))
      | inr e ↦ rw e (failed claim _)
    ]

    rekeyed-IsReport :
        (slot : Str) (cs : ClaimedSlot w claims) (made : Table claims Ad × Option (MatchRec Ad))
        → IsReport m.cluster m.proc (rekeyed w claims m a slot cs made).1
    unfolding rekeyed
    rekeyed-IsReport slot cs (t, none) = failed cs.claim_id _
    rekeyed-IsReport slot cs (t, some rec) = activate-IsReport cs.claim_id slot t

    claimed_slot-IsReport :
        (now : ℕ) (interval : ℤ) (cs : ClaimedSlot w claims) (t : Table claims Ad)
        → IsReport m.cluster m.proc (claimed_slot w claims m a now interval cs t).1
    unfolding claimed_slot
    claimed_slot-IsReport now interval cs t = elim (Bool-cases (str_eq cs.claim_id m.claim_id)) [
      | inl e ↦ rw e (activate-IsReport m.claim_id _ _)
      | inr e ↦ elim (Bool-cases (a.startd_new cs.claim_id)) [
        | inl f ↦ rw (e, f) (rekeyed-IsReport _ cs _)
        | inr f ↦ rw (e, f) (failed m.claim_id _)
      ]
    ]

    requested-IsReport :
        (now : ℕ) (interval : ℤ) (o : Option (List (ClaimedSlot w claims))) (t : Table claims Ad)
        → IsReport m.cluster m.proc (requested_slots w claims m a now interval o t).1
    unfolding requested_slots
    requested-IsReport now interval none t = failed m.claim_id _
    requested-IsReport now interval (some []) t = activate-IsReport m.claim_id m.slot_name t
    requested-IsReport now interval (some (cs ∷ slots)) t = claimed_slot-IsReport now interval _ t

    entered-IsReport :
        (now : ℕ) (interval : ℤ) (made : Table claims Ad × Option (MatchRec Ad))
        → IsReport m.cluster m.proc (run_entered w claims m a now interval made).1
    unfolding run_entered
    entered-IsReport now interval (t, none) = failed m.claim_id _
    entered-IsReport now interval (t, some rec) = elim (Bool-cases (a.startd_new m.claim_id)) [
      | inl e ↦ rw e (requested-IsReport now interval a.requested t)
      | inr e ↦ rw e (failed m.claim_id _)
    ]

  reconnected_key :
      (c p : ℤ) (claim : Str) (o : ShadowEnd)
      → ended_key w claims (reconnected w claims c p claim o) ≡ some (c, p)
  unfolding reconnected
  reconnected_key c p claim (not_reconnected err) = refl
  reconnected_key c p claim (returned res err) = finish_key c p (returned res err)
  reconnected_key c p claim (panicked text) = finish_key c p (panicked text)

  reattached-IsReport :
      (c p : ℤ) (claim : Str) (a : Answers w claims) (made : Table claims Ad × Option (MatchRec Ad))
      → IsReport c p (reattached w claims c p claim a made).1
  unfolding reattached
  reattached-IsReport c p claim a (t, none) = one c p _ refl
  reattached-IsReport c p claim a (t, some rec) = elim (Bool-cases (a.startd_new claim)) [
    | inl e ↦ elim (Bool-cases (a.shadow_new claim)) [
      | inl f ↦ rw (e, f) (one c p _ (reconnected_key c p claim a.outcome))
      | inr f ↦ rw (e, f) (one c p _ refl)
    ]
    | inr e ↦ rw e (one c p _ refl)
  ]

  -- The Submit calls of a run, one after the other.
  abbrev pub submit_all : List (Event w claims) → Core w claims → Core w claims
  submit_all [] s = s
  submit_all (ev ∷ evs) s = submit_all evs (submit_event w claims ev s)

  appended :
      (ev : Event w claims) (s : Core w claims)
      → length s.events < 256
      → (submit_event w claims ev s).events ≡ s.events ++ (ev ∷ [])
  unfolding submit_event
  appended ev s h = ground arith

  two_appended :
      (xs : List (Event w claims)) (a b : Event w claims)
      → (xs ++ (a ∷ [])) ++ (b ∷ []) ≡ xs ++ (a ∷ b ∷ [])
  two_appended [] a b = refl
  two_appended (x ∷ xs) a b = ap (λ l. x ∷ l) (two_appended xs a b)

  report_queued :
      (c p : ℤ) (evs : List (Event w claims)) (s : Core w claims)
      → IsReport c p evs
      → length s.events ≤ 254
      → (submit_all evs s).events ≡ s.events ++ evs
  report_queued c p evs s (last, k, inl e) h =
      subst (λ l. (submit_all l s).events ≡ s.events ++ l) (sym e) (appended last s (omega arith))
  report_queued c p evs s (last, k, inr (slot, claim, e)) h =
      subst (λ l. (submit_all l s).events ≡ s.events ++ l) (sym e) both
    where
      started : Event w claims
      started = ev_started c p slot claim

      first : (submit_event w claims started s).events ≡ s.events ++ (started ∷ [])
      first = appended started s (omega arith)

      room : length (submit_event w claims started s).events < 256
      room = omega (arith, ap length first, length-append s.events (started ∷ []))

      both : (submit_all (started ∷ last ∷ []) s).events ≡ s.events ++ (started ∷ last ∷ [])
      both =
          appended last (submit_event w claims started s) room
          ∙ ap (λ l. l ++ (last ∷ [])) first
          ∙ two_appended s.events started last

  -- A run that is started, and one that is re-attached to, each submit one event that ends it, as the
  -- last of all, whatever the startd and the shadow answer, a panic of the shadow's run included. Where
  -- the core's channel has room for two more events, Submit appends all those of the run in their
  -- order; a fuller channel may drop them.
  pub runs_report_once :
      (m : NegotiatedMatch w claims) (a : Answers w claims) (c p : ℤ) (claim : Str) (now : ℕ)
      (interval : ℤ) (t : Table claims Ad) (s : Core w claims)
      → length s.events ≤ 254
      → let started = (run_job_events w claims m a now interval t).1 in
        let reattached_to = (reconnect_job_events w claims c p claim a now interval t).1 in
        IsReport m.cluster m.proc started
        × ((submit_all started s).events ≡ s.events ++ started)
        × IsReport c p reattached_to
        × ((submit_all reattached_to s).events ≡ s.events ++ reattached_to)
  unfolding run_job_events reconnect_job_events
  runs_report_once m a c p claim now interval t s room =
      let run = entered-IsReport m a now interval _ in
      let again = reattached-IsReport c p claim a _ in
      (run, report_queued m.cluster m.proc _ s run room, again, report_queued c p _ s again room)
