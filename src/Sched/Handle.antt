-- ===== src/Sched/Handle.antt =====
-- internal/sched/sched.go: a match, a start, and the dispatch of events.
use golang_ap.Prelude.{
  ◌+◌, ℤ, pos, Bool, true, false, not, ◌||◌, Option, none, some, List, [], ◌∷◌, ◌==ℤ◌, ◌+ℤ◌, ltb_ℤ,
  if◌then◌else◌, is_some,
}
use golang_ap.Text.{Str, str, is_empty}
use golang_ap.Key.{job_key}
use golang_ap.Match.{ClaimLib}
use golang_ap.Queue.State.{World}
use golang_ap.Queue.Commit.{status_idle}
use golang_ap.Queue.Actions.{act_hold, act_release, act_remove}
use golang_ap.Queue.Sched.{job_status, modify}
use golang_ap.Sched.State.{
  JobKey, RunInfo, find_run, put_run, NegotiatedMatch, execute, Event, ev_match, ev_started,
  ev_exited, ev_failed, ev_reschedule, ev_teardown, ev_drain, ev_reconnect_failed, ev_recover,
  ev_policy_remove, ev_policy_hold, ev_policy_release, ev_policy_done, release_claim, run_job,
  nudge_advertise, Config, Clock, Core, tell, submit_event, left_idle, log_job,
}
use golang_ap.Sched.Ads.{started_ad}
use golang_ap.Sched.Exits.{count_started, handle_exited, handle_failed, handle_reconnect_failed}
use golang_ap.Sched.Teardown.{handle_teardown, handle_drain, handle_recover}
use golang_ap.Sched.Periodic.{policy_request, handle_policy_action, policy_done}
use golang_ap.Sched.Sweep.{sweep_expired}

module _ (w : World) (claims : ClaimLib) where
  open w use {lib, get}
  open lib use {Ad, eval_string}

  -- OnMatch
  unfoldable pub on_match : NegotiatedMatch w claims → Core w claims → Core w claims
  on_match m s =
      submit_event w claims (ev_match m)
        (record s { stats = record s.stats { matches_received = s.stats.matches_received + 1 } })

  unfoldable pub new_run : NegotiatedMatch w claims → RunInfo
  new_run m = record {
    claim_id = m.claim_id;
    slot_name = m.slot_name;
    vacated = false;
    detached = false;
    detach = false;
    reconnect = false;
    waiters = [];
  }

  unfoldable pub start_run : NegotiatedMatch w claims → Option Ad → Core w claims → Core w claims
  start_run m none s = tell w claims (release_claim m.claim_id) s
  start_run m (some job) s = tell w claims (run_job (m.cluster, m.proc) m job) (record s {
    running = put_run (m.cluster, m.proc) (new_run m) s.running;
    running_gauge = s.running_gauge +ℤ pos 1;
  })

  -- The early returns of handleMatch, the missing job apart.
  unfoldable pub refuses : NegotiatedMatch w claims → Core w claims → Bool
  refuses m s =
      s.draining
      || (((ltb_ℤ m.cluster (pos 0) || ltb_ℤ m.proc (pos 0)) || is_empty m.claim_id)
          || (is_some (find_run (m.cluster, m.proc) s.running)
              || not (job_status w m.cluster m.proc s.queue ==ℤ status_idle)))

  unfoldable pub handle_match : NegotiatedMatch w claims → Core w claims → Core w claims
  handle_match m s =
      if refuses m s
      then tell w claims (release_claim m.claim_id) s
      else start_run m (get s.queue.coll (job_key m.cluster m.proc)) s

  -- The run of a job that starts takes the slot, and the claim if one is given.
  unfoldable pub with_slot : Str → Str → RunInfo → RunInfo
  with_slot slot claim ri = record ri {
    slot_name = slot;
    claim_id = if is_empty claim then ri.claim_id else claim;
  }

  unfoldable pub note_start : JobKey → Str → Str → Option RunInfo → Core w claims → Core w claims
  note_start key slot claim none s = s
  note_start key slot claim (some ri) s = record s {
    running = put_run key (with_slot slot claim ri) s.running;
  }

  unfoldable pub started_claim : Str → Str → Option RunInfo → Str
  started_claim slot claim none = claim
  started_claim slot claim (some ri) = (with_slot slot claim ri).claim_id

  unfoldable pub is_reconnect : Option RunInfo → Bool
  is_reconnect none = false
  is_reconnect (some ri) = ri.reconnect

  unfoldable pub host_or : Str → Option Str → Str
  host_or slot none = slot
  host_or slot (some host) = if is_empty host then slot else host

  unfoldable pub log_execute :
      Config w claims → ℤ → ℤ → Str → Option RunInfo → Core w claims → Core w claims
  log_execute cfg c p slot ri s =
      if is_reconnect ri
      then s
      else log_job w claims cfg c p
          (λ ad. execute ad (host_or slot (eval_string ad (str "StartdIpAddr"))) slot) s

  unfoldable pub handle_started :
      Config w claims → ℤ → ℤ → ℤ → Str → Str → Core w claims → Core w claims
  handle_started cfg now c p slot claim s =
      let ri = find_run (c, p) s.running in
      let s1 = note_start (c, p) slot claim ri s in
      let (queue, ok) =
        modify w c p (started_ad w cfg.default_job_lease slot (started_claim slot claim ri) now)
          s1.queue in
      let s2 = record s1 { queue = queue } in
      if ok
      then left_idle w claims cfg (log_execute cfg c p slot ri (count_started w claims s2))
      else s2

  unfoldable pub handle_event :
      Config w claims → Clock w claims → Event w claims → Core w claims → Core w claims
  handle_event cfg clk (ev_match m) s = handle_match m s
  handle_event cfg clk (ev_started c p slot claim) s = handle_started cfg clk.now c p slot claim s
  handle_event cfg clk (ev_exited c p res err) s = handle_exited w claims cfg clk.now c p res err s
  handle_event cfg clk (ev_failed c p err panicked claim released) s =
      handle_failed w claims cfg clk.now c p err panicked claim released s
  handle_event cfg clk ev_reschedule s = tell w claims nudge_advertise s
  handle_event cfg clk (ev_teardown c p done) s = handle_teardown w claims c p done s
  handle_event cfg clk (ev_drain done) s = handle_drain w claims cfg clk.now done s
  handle_event cfg clk (ev_reconnect_failed c p claim err) s =
      handle_reconnect_failed w claims cfg clk.now c p claim err s
  handle_event cfg clk (ev_recover done) s = handle_recover w claims cfg clk.now done s
  handle_event cfg clk (ev_policy_remove c p reason) s =
      handle_policy_action w claims c p (policy_request act_remove reason (pos 0) (pos 0)) s
  handle_event cfg clk (ev_policy_hold c p reason code sub) s =
      handle_policy_action w claims c p (policy_request act_hold reason code sub) s
  handle_event cfg clk (ev_policy_release c p reason) s =
      handle_policy_action w claims c p (policy_request act_release reason (pos 0) (pos 0)) s
  handle_event cfg clk (ev_policy_done key) s = policy_done w claims key s

  -- One turn of the loop: the sweep's tick, or the first event of the channel.
  unfoldable pub turn :
      Config w claims → Clock w claims → List (Event w claims) → Core w claims → Core w claims
  turn cfg clk [] s = s
  turn cfg clk (ev ∷ evs) s = handle_event cfg clk ev (record s { events = evs })

  unfoldable pub step : Config w claims → Clock w claims → Bool → Core w claims → Core w claims
  step cfg clk true s = sweep_expired w claims cfg clk s
  step cfg clk false s = turn cfg clk s.events s
