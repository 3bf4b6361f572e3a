-- ===== src/Queue/Factory.antt =====
-- internal/queue/factory.go and MaybeCleanupFactoryCluster of internal/queue/actions.go: the job
-- factories of late materialization.
use golang_ap.Prelude.{
  ℤ, pos, negsuc, Bool, true, false, not, ◌&&◌, ◌||◌, Option, none, some, List, [], ◌∷◌, ◌==ℤ◌,
  ◌+ℤ◌, ltb_ℤ, if◌then◌else◌,
}
use golang_ap.Text.{Str, str, is_empty}
use golang_ap.Key.{job_key}
use golang_ap.Queue.State.{
  World, Queue, submit, write_log, global_job_id, member_id, unnote_factory,
}
use golang_ap.Queue.TxnState.{Outcome, ok, failed, found_or_new}
use golang_ap.Queue.Commit.{
  attr_digest_file, status_idle, set_int, insert_string, default_int, int_or,
}
use golang_ap.Queue.Actions.{status_running, status_held}

abbrev pub attr_items_file : Str
attr_items_file = str "JobMaterializeItemsFile"

abbrev pub attr_limit : Str
attr_limit = str "JobMaterializeLimit"

abbrev pub attr_max_idle : Str
attr_max_idle = str "JobMaterializeMaxIdle"

abbrev pub attr_next_proc_id : Str
attr_next_proc_id = str "JobMaterializeNextProcId"

abbrev pub attr_next_row : Str
attr_next_row = str "JobMaterializeNextRow"

abbrev pub attr_paused : Str
attr_paused = str "JobMaterializePaused"

abbrev pub attr_item_count : Str
attr_item_count = str "JobMaterializeItemCount"

abbrev pub pause_no_more_items : ℤ
pause_no_more_items = pos 3

pub record FactoryInfo : Type 0 where
  pub cluster : ℤ
  pub digest_file : Str
  pub items_file : Str
  pub limit : ℤ
  pub max_idle : ℤ
  pub next_proc_id : ℤ
  pub next_row : ℤ
  pub item_count : ℤ
  pub paused : ℤ
  pub total_procs : ℤ
  pub idle_procs : ℤ

-- clusterCounts
pub record ClusterCounts : Type 0 where
  pub total : ℤ
  pub idle : ℤ
  pub running : ℤ
  pub held : ℤ

abbrev no_counts : ClusterCounts
no_counts = record { total = pos 0; idle = pos 0; running = pos 0; held = pos 0 }

module _ (w : World) where
  open w use {lib, Coll, get, put, update, remove, scan, query_cluster}
  open lib use {Ad, eval_int, eval_string}

  unfoldable pub int_attr_or : Ad → Str → ℤ → ℤ
  int_attr_or ad name def = int_or w def (eval_int ad name)

  abbrev is_running : ℤ → Bool
  is_running st = (st ==ℤ status_running) || ((st ==ℤ pos 6) || (st ==ℤ pos 7))

  unfoldable pub tally : Ad → ClusterCounts → ClusterCounts
  tally ad cc =
      let st = int_attr_or ad (str "JobStatus") (pos 0) in
      let one = record cc { total = cc.total +ℤ pos 1 } in
      if st ==ℤ status_idle
      then record one { idle = cc.idle +ℤ pos 1 }
      else if is_running st
      then record one { running = cc.running +ℤ pos 1 }
      else if st ==ℤ status_held
      then record one { held = cc.held +ℤ pos 1 }
      else one

  unfoldable pub tally_all : List Ad → ClusterCounts → ClusterCounts
  unfolding tally
  tally_all [] cc = cc
  tally_all (ad ∷ ads) cc = tally_all ads (tally ad cc)

  -- The fallback: the whole queue, filtered by ClusterId.
  unfoldable pub of_cluster : ℤ → List Ad → List Ad
  of_cluster c [] = []
  of_cluster c (ad ∷ ads) =
      let rest = of_cluster c ads in
      if int_attr_or ad (str "ClusterId") (pos 0) ==ℤ c then ad ∷ rest else rest

  unfoldable pub cluster_status_counts : Coll → ℤ → ClusterCounts
  unfolding tally_all of_cluster
  cluster_status_counts coll c = elim (query_cluster coll c) [
    | none ↦ tally_all (of_cluster c (scan coll)) no_counts
    | some ads ↦ tally_all ads no_counts
  ]

  abbrev or_blank : Option Str → Str
  or_blank none = str ""
  or_blank (some s) = s

  unfoldable pub info_of : Coll → ℤ → Ad → Option FactoryInfo
  info_of coll c ad =
      let digest = or_blank (eval_string ad attr_digest_file) in
      let cc = cluster_status_counts coll c in
      if is_empty digest
      then none
      else some (record {
        cluster = c;
        digest_file = digest;
        items_file = or_blank (eval_string ad attr_items_file);
        limit = int_attr_or ad attr_limit (negsuc 0);
        max_idle = int_attr_or ad attr_max_idle (negsuc 0);
        next_proc_id = int_attr_or ad attr_next_proc_id (pos 0);
        next_row = int_attr_or ad attr_next_row (pos 0);
        item_count = int_attr_or ad attr_item_count (pos 0);
        paused = int_attr_or ad attr_paused (pos 0);
        total_procs = cc.total;
        idle_procs = cc.idle;
      })

  unfoldable pub factory_info : Queue w → ℤ → Option FactoryInfo
  unfolding info_of
  factory_info q c = elim (get q.coll (job_key c (negsuc 0))) [
    | none ↦ none
    | some ad ↦ info_of q.coll c ad
  ]

  -- The proc ad of MaterializeProc: the digest's attributes and the forced ones.
  unfoldable pub late_proc_ad : Queue w → ℤ → ℤ → ℤ → Option Ad → Ad
  late_proc_ad q c proc now override =
      let ad0 = found_or_new w override in
      let ad1 = set_int w (str "ProcId") proc ad0 in
      let ad2 = set_int w (str "ClusterId") c ad1 in
      let ad3 = default_int w (str "JobStatus") status_idle ad2 in
      let ad4 = default_int w (str "QDate") now ad3 in
      let qdate = int_or w now (eval_int ad4 (str "QDate")) in
      let ad5 = insert_string w (str "GlobalJobId") (global_job_id w q c proc qdate) ad4 in
      insert_string w (str "MyType") (str "Job") ad5

  unfoldable pub advanced_cluster : ℤ → ℤ → ℤ → Ad → Ad
  advanced_cluster next_proc_id next_row paused cluster =
      let ad1 = set_int w attr_next_proc_id next_proc_id cluster in
      let ad2 = set_int w attr_next_row next_row ad1 in
      if paused ==ℤ pos 0 then ad2 else set_int w attr_paused paused ad2

  unfoldable pub log_late : ℤ → ℤ → Queue w → Queue w
  log_late c proc q = elim (get q.coll (job_key c proc)) [
    | none ↦ q
    | some ad ↦ write_log w (submit ad) q
  ]

  unfoldable pub late_batch : Queue w → ℤ → ℤ → ℤ → Option Ad → ℤ → ℤ → ℤ → Ad → List (Str × Ad)
  unfolding late_proc_ad advanced_cluster
  late_batch q c proc now override next_proc_id next_row paused cluster =
      (job_key c proc, late_proc_ad q c proc now override)
      ∷ (job_key c (negsuc 0), advanced_cluster next_proc_id next_row paused cluster)
      ∷ []

  unfoldable pub materialize_late : Queue w → ℤ → ℤ → ℤ → Option Ad → ℤ → ℤ → ℤ → Queue w × Outcome
  unfolding log_late late_batch
  materialize_late q c proc now override next_proc_id next_row paused =
      elim (get q.coll (job_key c (negsuc 0))) [
        | none ↦ (q, failed)
        | some cluster ↦
            elim (update q.coll
              (late_batch q c proc now override next_proc_id next_row paused cluster)) [
                | none ↦ (q, failed)
                | some coll ↦ (log_late c proc (record q { coll = coll }), ok)
              ]
      ]

  store_paused : Queue w → ℤ → Option Coll → Queue w
  store_paused q c none = q
  store_paused q c (some coll) = record q { coll = coll }

  unfoldable pub pause_factory : ℤ → ℤ → Queue w → Queue w
  unfolding store_paused
  pause_factory c code q = elim (get q.coll (job_key c (negsuc 0))) [
    | none ↦ q
    | some cluster ↦
        store_paused q c (put q.coll (job_key c (negsuc 0)) (set_int w attr_paused code cluster))
  ]

  -- Can the factory produce no more?
  unfoldable pub factory_done : FactoryInfo → Bool
  factory_done fi =
      not (fi.paused ==ℤ pos 0)
      || ((ltb_ℤ (pos 0) fi.limit && not (ltb_ℤ fi.next_proc_id fi.limit))
          || (ltb_ℤ (pos 0) fi.item_count
              && (not (ltb_ℤ fi.next_row fi.item_count)
                  && not (ltb_ℤ fi.next_proc_id fi.next_row))))

  unfoldable pub drained : Option FactoryInfo → Bool
  unfolding factory_done
  drained none = false
  drained (some fi) = not (ltb_ℤ (pos 0) fi.total_procs) && factory_done fi

  unfoldable pub maybe_cleanup : ℤ → Queue w → Queue w × Bool
  unfolding drained
  maybe_cleanup c q =
      if not (member_id w c q.factories)
      then (q, false)
      else if drained (factory_info q c)
      then (unnote_factory w c (record q { coll = remove q.coll (job_key c (negsuc 0)) }), true)
      else (q, false)
