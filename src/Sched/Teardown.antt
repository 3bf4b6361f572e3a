-- ===== src/Sched/Teardown.antt =====
-- internal/sched/sched.go: deliberate ends of runs, the drain of a shutdown, and the recovery of the
-- runs of a previous incarnation.
use golang_ap.Prelude.{
  ℕ, ℤ, pos, Bool, true, false, not, ◌&&◌, ◌||◌, Option, none, some, List, [], ◌∷◌, ◌++◌, ◌==ℤ◌,
  ◌+ℤ◌, if◌then◌else◌, is_some,
}
use golang_ap.Text.{Str, str, is_empty}
use golang_ap.Match.{ClaimLib}
use golang_ap.Queue.State.{World}
use golang_ap.Queue.Actions.{status_running, int_attr}
use golang_ap.Queue.Sched.{job_status}
use golang_ap.Sched.State.{
  JobKey, RunInfo, Runs, find_run, put_run, disconnected, reconnect_job, cancel_run, close_channel,
  write_user_log, Config, Core, tell, is_idle, modify_job,
}
use golang_ap.Sched.Ads.{requeued_ad, lease_alive, copy_ad}

module _ (w : World) (claims : ClaimLib) where
  open w use {lib, scan}
  open lib use {Ad, eval_string}

  unfoldable pub requeue_to_idle : ℤ → ℤ → ℤ → Core w claims → Core w claims
  requeue_to_idle now c p s =
      if not (job_status w c p s.queue ==ℤ status_running)
      then s
      else modify_job w claims c p (requeued_ad w now) s

  unfoldable pub close_done : Option ℕ → Core w claims → Core w claims
  close_done none s = s
  close_done (some ch) s = tell w claims (close_channel ch) s

  unfoldable pub add_waiter : Option ℕ → List ℕ → List ℕ
  add_waiter none waiters = waiters
  add_waiter (some ch) waiters = waiters ++ (ch ∷ [])

  -- A change of the entry of a run, whose context is then canceled.
  unfoldable pub cancel_as : JobKey → RunInfo → Core w claims → Core w claims
  cancel_as key ri s =
      tell w claims (cancel_run key) (record s { running = put_run key ri s.running })

  unfoldable pub tear_down : JobKey → Option ℕ → Option RunInfo → Core w claims → Core w claims
  tear_down key done none s = close_done done s
  tear_down key done (some ri) s =
      cancel_as key (record ri { vacated = true; waiters = add_waiter done ri.waiters }) s

  unfoldable pub handle_teardown : ℤ → ℤ → Option ℕ → Core w claims → Core w claims
  handle_teardown c p done s = tear_down (c, p) done (find_run (c, p) s.running) s

  -- The run is canceled as vacated and its job requeued.
  unfoldable pub vacate_run : ℤ → JobKey → RunInfo → Core w claims → Core w claims
  vacate_run now (c, p) ri s = tell w claims (cancel_run (c, p)) (
      requeue_to_idle now c p
        (record s { running = put_run (c, p) (record ri { vacated = true }) s.running }))

  -- The two loops of handleDrain, over the registry as it was.
  unfoldable pub vacate_all : ℤ → Runs → Core w claims → Core w claims
  vacate_all now [] s = s
  vacate_all now ((key, ri) ∷ runs) s =
      vacate_all now runs (if ri.vacated then s else vacate_run now key ri s)

  unfoldable pub detach_all : Runs → Core w claims → Core w claims
  detach_all [] s = s
  detach_all ((key, ri) ∷ runs) s = detach_all runs (
      if ri.vacated || ri.detached
      then s
      else cancel_as key (record ri { detached = true; detach = true }) s)

  unfoldable pub handle_drain : Config w claims → ℤ → ℕ → Core w claims → Core w claims
  handle_drain cfg now done s =
      if is_idle s.running
      then tell w claims (close_channel done) (record s { draining = true })
      else let s1 = record s { draining = true; drain_done = some done } in
        elim cfg.reconnect_disabled [
          | true ↦ vacate_all now s1.running s1
          | false ↦ detach_all s1.running s1
        ]

  -- A run to re-attach to.
  pub record Recovered : Type 0 where
    pub key : JobKey
    pub claim_id : Str
    pub slot_name : Str
    pub job : Ad

  unfoldable pub text_or : Option Str → Str
  text_or none = str ""
  text_or (some t) = t

  unfoldable pub text_attr : Ad → Str → Str
  text_attr ad name = text_or (eval_string ad name)

  unfoldable pub key_of : Ad → JobKey
  key_of ad = (int_attr w ad (str "ClusterId"), int_attr w ad (str "ProcId"))

  -- A job of the scan that is Running and has no run.
  unfoldable pub is_orphan : Runs → Ad → Bool
  is_orphan running ad =
      (int_attr w ad (str "JobStatus") ==ℤ status_running)
      && not (is_some (find_run (key_of ad) running))

  unfoldable pub can_reconnect : ℤ → Ad → Bool
  can_reconnect now ad = not (is_empty (text_attr ad (str "ClaimId"))) && lease_alive w ad now

  unfoldable pub recovered_run : Ad → Recovered
  recovered_run ad = record {
    key = key_of ad;
    claim_id = text_attr ad (str "ClaimId");
    slot_name = text_attr ad (str "RemoteHost");
    job = copy_ad w ad;
  }

  -- The first loop of handleRecover: the jobs that cannot be re-attached to are requeued.
  unfoldable pub triage : ℤ → List Ad → Core w claims → Core w claims × List Recovered
  triage now [] s = (s, [])
  triage now (ad ∷ ads) s =
      let (c, p) = key_of ad in
      let again = is_orphan s.running ad && can_reconnect now ad in
      let s1 =
        if is_orphan s.running ad && not (can_reconnect now ad)
        then requeue_to_idle now c p s
        else s in
      let (s2, found) = triage now ads s1 in (s2, if again then recovered_run ad ∷ found else found)

  unfoldable pub reconnecting : Recovered → RunInfo
  reconnecting r = record {
    claim_id = r.claim_id;
    slot_name = r.slot_name;
    vacated = false;
    detached = false;
    detach = false;
    reconnect = true;
    waiters = [];
  }

  unfoldable pub log_disconnected : Config w claims → Recovered → Core w claims → Core w claims
  log_disconnected cfg r s =
      if cfg.user_log
      then tell w claims
          (write_user_log (
            disconnected r.job (str "Connection to starter lost (schedd restarted)") r.slot_name
              (text_attr r.job (str "StartdIpAddr"))))
          s
      else s

  -- The second loop.
  unfoldable pub reattach : Config w claims → List Recovered → Core w claims → Core w claims
  reattach cfg [] s = s
  reattach cfg (r ∷ rs) s =
      let s1 = record s {
        running = put_run r.key (reconnecting r) s.running;
        running_gauge = s.running_gauge +ℤ pos 1;
      } in
      reattach cfg rs
        (tell w claims (reconnect_job r.key r.claim_id r.job) (log_disconnected cfg r s1))

  unfoldable pub recover : Config w claims → ℤ → Core w claims → Core w claims
  recover cfg now s = let (s1, found) = triage now (scan s.queue.coll) s in reattach cfg found s1

  unfoldable pub handle_recover : Config w claims → ℤ → Option ℕ → Core w claims → Core w claims
  handle_recover cfg now done s = close_done done (if s.draining then s else recover cfg now s)
