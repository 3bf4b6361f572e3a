-- ===== src/Negotiate.antt =====
-- internal/negotiate/negotiate.go: the schedd's side of one negotiation round. The cursor over the
-- request groups is the list of those not yet offered; reading and writing messages is left out.
mod Left
mod Assign
mod Examples
use golang_ap.Prelude.{
  ℕ, zero, suc, ◌+◌, ◌%◌, ◌^◌, ℤ, pos, negsuc, Bool, true, false, not, ◌&&◌, ◌||◌, Option, none,
  some, List, [], ◌∷◌, ◌++◌, ◌==◌, ◌==ℤ◌, ltb_ℤ, length, if◌then◌else◌,
}
use golang_ap.Text.{Str, str, str_eq, is_empty, member, cut_at, split, trim_space, atoi}
use golang_ap.Rrl.{JobId, RequestGroup}
use golang_ap.Match.{ClaimLib}
use golang_ap.Queue.State.{World, Queue}
use golang_ap.Queue.Commit.{status_idle, set_int}
use golang_ap.Queue.Sched.{job_status}
use golang_ap.Sched.State.{NegotiatedMatch}
use golang_ap.Sched.Ads.{set_bool, copy_ad}

unfoldable pub always_significant : List Str
always_significant =
    str "Requirements"
    ∷ str "Rank"
    ∷ str "ConcurrencyLimits"
    ∷ str "RequestCpus"
    ∷ str "RequestMemory"
    ∷ str "RequestDisk"
    ∷ []

-- `add` of buildProjection, over a list of names.
unfoldable pub add_names : List Str → List Str → List Str
add_names [] out = out
add_names (raw ∷ names) out =
    let name = trim_space raw in
    add_names names (if is_empty name || member name out then out else out ++ (name ∷ []))

unfoldable pub from_header : Option Str → List Str
unfolding split add_names
from_header none = []
from_header (some names) = add_names (split b',' names) []

id_of_parts : Option ℤ → Option ℤ → Option JobId
id_of_parts (some c) (some p) = some (record { cluster = c; proc = p })
id_of_parts _ _ = none

id_of_text : Option (Str × Str) → Option JobId
unfolding id_of_parts
id_of_text none = none
id_of_text (some (c, p)) = id_of_parts (atoi c) (atoi p)

third : List Str → Option JobId
unfolding id_of_text
third (reason ∷ acid ∷ jid ∷ parts) = id_of_text (cut_at b'.' (trim_space jid))
third _ = none

unfoldable pub parse_reject_rep : Str → Option JobId
unfolding third split
parse_reject_rep reason = third (split b'|' reason)

unfoldable pub same_job : JobId → JobId → Bool
same_job a b = (a.cluster ==ℤ b.cluster) && (a.proc ==ℤ b.proc)

-- groupState: `ids` are its jobs from assignIdx on.
pub record GroupState : Type 0 where
  pub rep : JobId
  pub acid : ℕ
  pub ids : List JobId
  pub rejected : Bool

-- The map from representatives.
unfoldable pub find_group : JobId → List GroupState → Option GroupState
unfolding same_job
find_group rep [] = none
find_group rep (g ∷ gs) = if same_job g.rep rep then some g else find_group rep gs

unfoldable pub put_group : GroupState → List GroupState → List GroupState
unfolding same_job
put_group g [] = g ∷ []
put_group g (h ∷ gs) = if same_job h.rep g.rep then g ∷ gs else h ∷ put_group g gs

module _ (w : World) (claims : ClaimLib) where
  open w use {lib}
  open lib use {Ad, eval_int, eval_string}

  unfoldable pub build_projection : Ad → List Str
  build_projection header =
      add_names always_significant (from_header (eval_string header (str "AutoClusterAttrs")))

  unfoldable pub build_request_ad : Ad → JobId → ℕ → ℕ → Ad
  build_request_ad job rep count acid =
      let ad1 = set_int w (str "ClusterId") rep.cluster (copy_ad w job) in
      let ad2 = set_int w (str "ProcId") rep.proc ad1 in
      let ad3 = set_int w (str "_condor_RESOURCE_COUNT") (pos count) ad2 in
      let ad4 = set_int w (str "AutoClusterId") (pos acid) ad3 in
      let ad5 = set_int w (str "WantMatchDiagnostics") (pos 2) ad4 in
      set_bool w (str "WantPslotPreemption") true ad5

  -- What is written to the negotiator.
  pub data Sent : Type 0 where
    job_info : Ad → Sent
    no_more_jobs : Sent

  -- `last` is the group of the request offered last, by its representative; `matches` are the calls of
  -- onMatch.
  pub record Round : Type 0 where
    pub cursor : List (RequestGroup lib)
    pub by_rep : List GroupState
    pub last : Option JobId
    pub requests : ℕ
    pub matched : ℕ
    pub written : List Sent
    pub matches : List (NegotiatedMatch w claims)

  unfoldable pub begin_round : List (RequestGroup lib) → Round
  begin_round groups = record {
    cursor = groups;
    by_rep = [];
    last = none;
    requests = 0;
    matched = 0;
    written = [];
    matches = [];
  }

  -- A group is never empty: its first job is the representative.
  unfoldable pub send_group : RequestGroup lib → List JobId → Round → Round
  send_group g [] r = r
  send_group g (rep ∷ ids) r =
      let acid = g.checksum % 2 ^ 31 in
      record r {
        by_rep =
            put_group (record { rep = rep; acid = acid; ids = rep ∷ ids; rejected = false })
              r.by_rep;
        last = some rep;
        requests = r.requests + 1;
        written =
            r.written ++ (job_info (build_request_ad g.rep rep (length (rep ∷ ids)) acid) ∷ []);
      }

  -- `i` from 0 to n - 1.
  unfoldable pub send_requests : ℕ → List (RequestGroup lib) → Round → Round
  send_requests zero groups r = r
  send_requests (suc n) [] r = record r { written = r.written ++ (no_more_jobs ∷ []) }
  send_requests (suc n) (g ∷ groups) r =
      send_requests n groups (send_group g g.job_ids (record r { cursor = groups }))

  -- The loop of nextIdle: the job, and what is left.
  unfoldable pub first_idle : Queue w → List JobId → Option JobId × List JobId
  first_idle q [] = (none, [])
  first_idle q (id ∷ ids) =
      let rest = first_idle q ids in
      if job_status w id.cluster id.proc q ==ℤ status_idle then (some id, ids) else rest

  unfoldable pub next_idle : Queue w → GroupState → Option JobId × GroupState
  next_idle q g =
      if g.rejected
      then (none, g)
      else let (job, ids) = first_idle q g.ids in (job, record g { ids = ids })

  -- The match goes to the job, or is surplus as -1.-1.
  unfoldable pub assign : Option JobId → NegotiatedMatch w claims → NegotiatedMatch w claims
  assign none m = record m { cluster = negsuc 0; proc = negsuc 0 }
  assign (some job) m = record m { cluster = job.cluster; proc = job.proc }

  unfoldable pub forward : NegotiatedMatch w claims → Round → Round
  forward m r = record r {
    matched = if ltb_ℤ m.cluster (pos 0) then r.matched else r.matched + 1;
    matches = r.matches ++ (m ∷ []);
  }

  unfoldable pub of_group : Queue w → NegotiatedMatch w claims → Option GroupState → Round → Round
  of_group q m none r = forward m r
  of_group q m (some g) r =
      let (job, g') = next_idle q g in
      forward (assign job m) (record r { by_rep = put_group g' r.by_rep })

  unfoldable pub handle_granted : Queue w → NegotiatedMatch w claims → Round → Round
  handle_granted q m r =
      of_group q m (find_group (record { cluster = m.cluster; proc = m.proc }) r.by_rep) r

  unfoldable pub reject_group : Option GroupState → Round → Round
  reject_group none r = r
  reject_group (some g) r = record r { by_rep = put_group (record g { rejected = true }) r.by_rep }

  unfoldable pub group_of : Option JobId → Round → Option GroupState
  group_of none r = none
  group_of (some rep) r = find_group rep r.by_rep

  unfoldable pub or_last : Option GroupState → Option GroupState → Option GroupState
  or_last none last = last
  or_last (some g) last = some g

  unfoldable pub handle_reject : Str → Round → Round
  handle_reject reason r =
      reject_group (or_last (group_of (parse_reject_rep reason) r) (group_of r.last r)) r

  unfoldable pub text_or : Option Str → Str
  text_or none = str ""
  text_or (some t) = t

  unfoldable pub int_or_none : Option ℤ → ℤ
  int_or_none none = negsuc 0
  int_or_none (some v) = v

  unfoldable pub claim_parts : Str → Option (Str × Str) → Str × Str
  claim_parts blob none = (blob, str "")
  claim_parts blob (some (claim, extra)) = (claim, trim_space extra)

  unfoldable pub read_match : Str → Ad → NegotiatedMatch w claims
  read_match blob ad =
      let (claim, extra) = claim_parts blob (cut_at b' ' blob) in
      record {
        cluster = int_or_none (eval_int ad (str "_condor_RESOURCE_CLUSTER"));
        proc = int_or_none (eval_int ad (str "_condor_RESOURCE_PROC"));
        claim_id = claim;
        extra_claims = extra;
        slot_name = text_or (eval_string ad (str "Name"));
        match_ad = ad;
      }

  -- The messages of the negotiator that the loop answers and goes on.
  pub data Message : Type 0 where
    send_job_info : Message
    send_resource_request_list : ℕ → Message
    permission_and_ad : Str → Ad → Message
    rejected_bare : Message
    rejected_with_reason : Str → Message

  unfoldable pub serve_message : Queue w → Message → Round → Round
  serve_message q send_job_info r = send_requests 1 r.cursor r
  serve_message q (send_resource_request_list n) r = send_requests n r.cursor r
  serve_message q (permission_and_ad blob ad) r = handle_granted q (read_match blob ad) r
  serve_message q rejected_bare r = handle_reject (str "") r
  serve_message q (rejected_with_reason reason) r = handle_reject reason r
