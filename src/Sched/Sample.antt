-- ===== src/Sched/Sample.antt =====
-- A core with one run, of the job 1.1, and an Idle job 1.2.
use golang_ap.Prelude.{pos, true, false, none, [], ◌∷◌}
use golang_ap.Text.{Str, str}
use golang_ap.ClassAd.Sample.{int, string, SampleAd, ad_of}
use golang_ap.Match.{MatchRec, Table, claimed}
use golang_ap.Match.Sample.{sample_claims}
use golang_ap.Queue.State.{Queue}
use golang_ap.Queue.Sample.{sample_world, sample_queue, running_job}
use golang_ap.Sched.State.{RunInfo, NegotiatedMatch, Config, Clock, Core}

abbrev pub claim : Str
claim = str "<host:1>#1#2#key"

abbrev pub idle_job : SampleAd
idle_job = ad_of (
    (str "ClusterId", int (pos 1))
    ∷ (str "ProcId", int (pos 2))
    ∷ (str "User", string (str "bo@cs"))
    ∷ (str "JobStatus", int (pos 1))
    ∷ [])

abbrev pub core_queue : Queue sample_world
core_queue = record sample_queue { coll = (str "1.1", running_job) ∷ (str "1.2", idle_job) ∷ [] }

abbrev pub the_run : RunInfo
the_run = record {
  claim_id = claim;
  slot_name = str "slot1@node";
  vacated = false;
  detached = false;
  detach = false;
  reconnect = false;
  waiters = 7 ∷ [];
}

abbrev pub the_rec : MatchRec SampleAd
the_rec = record {
  claim_id = claim;
  slot_ad = none;
  peer_addr = str "<host:1>";
  state = claimed;
  alive_interval = pos 5;
  lease_deadline = 55;
  session_id = str "<host:1>#1#2";
  public_id = str "<host:1>#1#2";
}

abbrev pub the_matches : Table sample_claims SampleAd
the_matches = record {
  by_public = (str "<host:1>#1#2", the_rec) ∷ [];
  cache = [];
  alives_missed = pos 6;
}

abbrev pub the_config : Config sample_world sample_claims
the_config = record {
  sweep_interval = 30;
  max_exceptions = pos 2;
  reconnect_disabled = false;
  default_job_lease = pos 2400;
  user_log = true;
  job_left_idle = true;
  sys_policy = none;
}

-- The lease of the one record is over when the sweep begins.
abbrev pub the_clock : Clock sample_world sample_claims
the_clock = record { now = pos 100; renew_at = λ k. 58; sweep_at = 60 }

abbrev pub the_core : Core sample_world sample_claims
the_core = record {
  queue = core_queue;
  matches = the_matches;
  running = ((pos 1, pos 1), the_run) ∷ [];
  running_gauge = pos 1;
  draining = false;
  drain_done = none;
  policy_pending = [];
  stats = record {
    jobs_started = 1;
    jobs_completed = 0;
    jobs_exited = 0;
    shadow_exceptions = 0;
    matches_received = 1;
  };
  events = [];
  effects = [];
}

-- A core that tears its run down.
abbrev pub vacated_core : Core sample_world sample_claims
vacated_core = record the_core {
  running = ((pos 1, pos 1), record the_run { vacated = true }) ∷ [];
}

-- A match for the Idle job.
abbrev pub idle_match : NegotiatedMatch sample_world sample_claims
idle_match = record {
  cluster = pos 1;
  proc = pos 2;
  claim_id = str "<host:2>#1#3#key";
  extra_claims = str "";
  slot_name = str "slot2@node";
  match_ad = λ n. none;
}
