-- ===== src/Sched/RunJob.antt =====
-- internal/sched/sched.go: the goroutines that run a job on a claimed slot or re-attach to one. What
-- the startd's client and the shadow answer is an argument; no call of them changes the core.
use golang_ap.Prelude.{
  ℕ, ℤ, Bool, true, false, not, Option, none, some, List, [], ◌∷◌, ◌++◌, if◌then◌else◌,
}
use golang_ap.Text.{Str, str, str_eq, is_empty}
use golang_ap.Match.{ClaimLib, Table, MatchRec, create_from_claim, update_slot_ad}
use golang_ap.Match
use golang_ap.Queue.State.{World}
use golang_ap.Sched.State.{
  RunError, err_other, Result, NegotiatedMatch, Event, ev_started, ev_exited, ev_failed,
  ev_reconnect_failed,
}

-- How Run or RunReconnect of a shadow ends: it returns, or it panics.
pub data ShadowEnd : Type 0 where
  returned : Option Result → Option RunError → ShadowEnd
  -- an error that is or wraps ErrReconnectFailed
  not_reconnected : RunError → ShadowEnd
  panicked : Str → ShadowEnd

module _ (w : World) (claims : ClaimLib) where
  open w use {lib}
  open lib use {Ad, eval_string}

  -- startd.ClaimedSlot
  pub record ClaimedSlot : Type 0 where
    pub claim_id : Str
    pub slot_ad : Option Ad

  -- The answers to one run: `startd_new` of each claim id, the claimed slots that a REQUEST_CLAIM which
  -- succeeded replied, ACTIVATE_CLAIM, shadow.New, and the run of the shadow, with the error texts.
  pub record Answers : Type 0 where
    pub startd_new : Str → Bool
    pub requested : Option (List ClaimedSlot)
    pub activated : Str → Bool
    pub shadow_new : Str → Bool
    pub outcome : ShadowEnd
    pub error_text : Str

  unfoldable pub name_or : Str → Option Str → Str
  name_or slot none = slot
  name_or slot (some name) = if is_empty name then slot else name

  unfoldable pub slot_named : Str → Option Ad → Str
  slot_named slot none = slot
  slot_named slot (some ad) = name_or slot (eval_string ad (str "Name"))

  -- The claimed slot of the claim that was requested, else the first.
  unfoldable pub choose : Str → ClaimedSlot → List ClaimedSlot → ClaimedSlot
  choose claim first [] = first
  choose claim first (cs ∷ slots) =
      if str_eq cs.claim_id claim then cs else choose claim first slots

  abbrev Report : Type 0
  Report = Table claims Ad × List (Event w claims)

  unfoldable pub failure : NegotiatedMatch w claims → Str → Str → Event w claims
  failure m claim text = ev_failed m.cluster m.proc (err_other text) false claim false

  unfoldable pub run_end : ℤ → ℤ → ShadowEnd → Event w claims
  run_end c p (returned res err) = ev_exited c p res err
  run_end c p (not_reconnected err) = ev_exited c p none (some err)
  run_end c p (panicked text) =
      ev_failed c p (err_other (str "panic: " ++ text)) true (str "") false

  -- runJob from ACTIVATE_CLAIM on.
  unfoldable pub activate :
      NegotiatedMatch w claims → Answers → Str → Str → Table claims Ad → Report
  activate m a claim slot t =
      if not (a.activated claim)
      then (t, failure m claim (str "ACTIVATE_CLAIM failed: " ++ a.error_text) ∷ [])
      else (
        t,
        ev_started m.cluster m.proc slot claim
            ∷ (if a.shadow_new claim
                then run_end m.cluster m.proc a.outcome
                else failure m claim (str "shadow.New: " ++ a.error_text))
            ∷ [],
      )

  unfoldable pub rekeyed :
      NegotiatedMatch w claims
      → Answers
      → Str
      → ClaimedSlot
      → Table claims Ad × Option (MatchRec Ad)
      → Report
  rekeyed m a slot cs (t, none) =
      (t, failure m cs.claim_id (str "import dslot claim session: " ++ a.error_text) ∷ [])
  rekeyed m a slot cs (t, some rec) = activate m a cs.claim_id slot t

  -- The claimed slot may have another claim, which then takes the place of the match's.
  unfoldable pub claimed_slot :
      NegotiatedMatch w claims → Answers → ℕ → ℤ → ClaimedSlot → Table claims Ad → Report
  claimed_slot m a now interval cs t =
      let slot = slot_named m.slot_name cs.slot_ad in
      if str_eq cs.claim_id m.claim_id
      then activate m a m.claim_id slot (update_slot_ad claims Ad cs.slot_ad m.claim_id t).0
      else if not (a.startd_new cs.claim_id)
      then (t, failure m m.claim_id (str "dslot startd client: " ++ a.error_text) ∷ [])
      else rekeyed m a slot cs (
          create_from_claim claims Ad now cs.claim_id cs.slot_ad interval
            (Match.remove claims Ad m.claim_id t).0)

  unfoldable pub requested_slots :
      NegotiatedMatch w claims
      → Answers
      → ℕ
      → ℤ
      → Option (List ClaimedSlot)
      → Table claims Ad
      → Report
  requested_slots m a now interval none t =
      (t, failure m m.claim_id (str "REQUEST_CLAIM failed: " ++ a.error_text) ∷ [])
  requested_slots m a now interval (some []) t = activate m a m.claim_id m.slot_name t
  requested_slots m a now interval (some (cs ∷ slots)) t =
      claimed_slot m a now interval (choose m.claim_id cs (cs ∷ slots)) t

  unfoldable pub run_entered :
      NegotiatedMatch w claims → Answers → ℕ → ℤ → Table claims Ad × Option (MatchRec Ad) → Report
  run_entered m a now interval (t, none) =
      (t, failure m m.claim_id (str "import claim session: " ++ a.error_text) ∷ [])
  run_entered m a now interval (t, some rec) =
      if not (a.startd_new m.claim_id)
      then (t, failure m m.claim_id (str "startd client: " ++ a.error_text) ∷ [])
      else requested_slots m a now interval a.requested t

  -- runJob: the table it leaves, and the events it submits in order. A panic is one of the shadow's
  -- run.
  unfoldable pub run_job_events :
      NegotiatedMatch w claims → Answers → ℕ → ℤ → Table claims Ad → Report
  run_job_events m a now interval t =
      run_entered m a now interval
        (create_from_claim claims Ad now m.claim_id (some m.match_ad) interval t)

  unfoldable pub reconnected : ℤ → ℤ → Str → ShadowEnd → Event w claims
  reconnected c p claim (not_reconnected err) = ev_reconnect_failed c p claim err
  reconnected c p claim outcome = run_end c p outcome

  unfoldable pub reattached :
      ℤ → ℤ → Str → Answers → Table claims Ad × Option (MatchRec Ad) → Report
  reattached c p claim a (t, none) = (
    t,
    ev_reconnect_failed c p claim (err_other (str "import claim session: " ++ a.error_text)) ∷ [],
  )
  reattached c p claim a (t, some rec) = (
    t,
    (if not (a.startd_new claim)
          then ev_reconnect_failed c p claim (err_other (str "startd client: " ++ a.error_text))
          else if not (a.shadow_new claim)
          then ev_reconnect_failed c p claim
              (err_other (str "shadow.NewReconnect: " ++ a.error_text))
          else reconnected c p claim a.outcome)
        ∷ [],
  )

  -- reconnectJob; the user-log event of a reconnection is left out.
  unfoldable pub reconnect_job_events : ℤ → ℤ → Str → Answers → ℕ → ℤ → Table claims Ad → Report
  reconnect_job_events c p claim a now interval t =
      reattached c p claim a (create_from_claim claims Ad now claim none interval t)
