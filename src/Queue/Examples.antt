-- ===== src/Queue/Examples.antt =====
-- Permissions and transactions on a queue with two jobs of bo@cs.
use golang_ap.Queue.AuthzConfig.{build_authz_config}
use golang_ap.Prelude.{
  ◌+◌, ◌≤◌, ◌<◌, pos_part, pos, true, false, none, some, List, [], ◌∷◌, ◌≡◌, ◌↔◌, ◌⊎◌, inr, refl,
  sym, ◌∙◌, All, arith,
}
use golang_ap.Text.{
  Str, str, is_empty, to_lower, member, equal_fold, cut_at_last, str_eq, itoa, emit, atoi,
}
use golang_ap.ClassAd.Sample.{SampleAd, sample, sample-ClassAdLaws, int, string, ad_of}
use golang_ap.Assoc.{find, put}
use golang_ap.Key.{job_key, parse_job_key, cluster_key}
use golang_ap.User.{
  is_unmapped, job_user, same_user, short_name, canonical_user, qualify, has_at, is_super_user,
}
use golang_ap.Queue.State.{member_id, alloc_cluster_id, same, owner_of, is_super}
use golang_ap.Queue.TxnState.{Txn, denied, ok, begin, anonymous, stage}
use golang_ap.Queue.Authz.{allow, authorize, committed_owner}
use golang_ap.Queue.Txn.{
  get_attribute, set_attribute, delete_attribute, destroy_proc, destroy_cluster, job_ids,
  new_cluster,
}
use golang_ap.Queue.Commit.{
  commit, prepared, status_idle, conclude, update_batch, batch_of, materialize_all, stage_clusters,
}
use golang_ap.Queue.Sample.{
  held_job, running_job, no_options, sample_world, sample_world-StoreLaws, sample_queue, owner_txn,
  other_txn,
}
use golang_ap.Queue.Permission.{
  MayEdit, IsStored, authorize-allow, immutable_kept, foreign_job_kept,
}
use golang_ap.Queue.Materialized.{kept_or, IsForced, IsForcedEntry}
use golang_ap.Queue.Aftermath.{without}
use golang_ap.Queue.Forced.{IsWritten, batch, commit_forced, commit_writes}
use golang_ap.Queue.Staging.{get-set_attribute, new_cluster-take_procs, take_procs, count_from}
use golang_ap.Queue.Open.{open_queue, factory_ad, open_queue-factories, alloc_cluster_id-open_queue}
use golang_ap.Queue.Deleted.{commit-del_attrs}

authorize-allow_example :
    (authorize sample_world sample_queue other_txn (pos 1) (pos 0) (str "JobPrio") ≡ allow) ↔ (
      (anonymous sample_world other_txn ≡ false)
      × (member (to_lower (str "JobPrio")) sample_queue.authz.secure ≡ false)
      × ((committed_owner sample_world sample_queue (pos 1) (pos 0) ≡ none)
          ⊎ ((owner : Str) × (committed_owner sample_world sample_queue (pos 1) (pos 0)
                ≡ some owner)
              × MayEdit sample_world sample_queue other_txn (str "JobPrio") owner)))
authorize-allow_example =
    authorize-allow sample_world sample_queue other_txn (pos 1) (pos 0) (str "JobPrio")

-- The owner of the committed job.
owned_by_bo : committed_owner sample_world sample_queue (pos 1) (pos 0) ≡ some (str "bo@cs")
unfolding committed_owner find str_eq str job_key itoa emit is_empty owner_of job_user ad_of
owned_by_bo = refl

some-none {ℓ} : {A : Type ℓ} {x : A} → some x ≡ none → ⊥
some-none h = cc

immutable_kept_example :
    ((set_attribute sample_world sample_queue
        (pos 1)
        (pos 0)
        (str "owner")
        (str "\"al\"")
        owner_txn).0
      ≡ owner_txn)
    × ((delete_attribute sample_world sample_queue (pos 1) (pos 0) (str "owner") owner_txn).0
        ≡ owner_txn)
unfolding member build_authz_config to_lower str
immutable_kept_example =
    immutable_kept sample_world sample_queue owner_txn (pos 1) (pos 0) (str "owner") (str "\"al\"")
      (λ e. absurd (some-none (sym owned_by_bo ∙ e))) refl

scanned_job : IsStored sample_world sample_queue other_txn (pos 1) (pos 0) (str "bo@cs")
unfolding job_ids str equal_fold is_empty owner_of job_user ad_of
scanned_job = inr (held_job, [], running_job ∷ [], refl, refl, refl)

foreign_job_kept_example :
    ((set_attribute sample_world sample_queue (pos 1) (pos 0) (str "Cmd") (str "1") other_txn).0
      ≡ other_txn)
    × ((delete_attribute sample_world sample_queue (pos 1) (pos 0) (str "Cmd") other_txn).0
        ≡ other_txn)
    × (destroy_proc sample_world sample_queue (pos 1) (pos 0) other_txn ≡ (other_txn, denied))
    × (destroy_cluster sample_world sample_queue (pos 1) other_txn ≡ (other_txn, denied))
unfolding is_empty str same same_user short_name cut_at_last begin is_unmapped equal_fold
    canonical_user qualify has_at is_super is_super_user member build_authz_config
foreign_job_kept_example =
    foreign_job_kept sample_world sample_queue other_txn (pos 1) (pos 0) (str "bo@cs") (str "Cmd")
      (str "1") owned_by_bo refl refl refl refl scanned_job

-- The owner edits the running job.
abbrev edit_txn : Txn sample_world
edit_txn = record owner_txn {
  pending = (str "1.1", ad_of ((str "Cmd", string (str "go")) ∷ [])) ∷ [];
}

committed : (commit sample_world sample_queue (pos 9) edit_txn).2 ≡ ok
unfolding commit conclude update_batch anonymous begin is_empty is_unmapped equal_fold cut_at_last
    str batch_of prepared materialize_all stage_clusters parse_job_key atoi stage put cluster_key
    itoa emit member
committed = refl

commit_forced_example :
    All
      (IsForcedEntry sample_world edit_txn.owner edit_txn.user)
      (batch sample_world sample_queue (pos 9) edit_txn)
    × IsWritten sample_world sample_queue
        (prepared sample_world sample_queue (pos 9) edit_txn)
        (batch sample_world sample_queue (pos 9) edit_txn)
        (commit sample_world sample_queue (pos 9) edit_txn).0
commit_forced_example =
    commit_forced sample_world sample-ClassAdLaws sample_queue (pos 9) edit_txn committed

commit_writes_example :
    (coll : List (Str × SampleAd)) × (sample_world.update sample_queue.coll
        (batch sample_world sample_queue (pos 9) edit_txn)
      ≡ some coll)
    × ((commit sample_world sample_queue (pos 9) edit_txn).0.coll
        ≡ without sample_world edit_txn.destroyed coll)
    × (written : SampleAd) × (find
          (job_key (pos 1) (pos 1))
          (batch sample_world sample_queue (pos 9) edit_txn)
        ≡ some written)
    × IsForced sample_world edit_txn.owner edit_txn.user (pos 1) (pos 1) written
    × (written (str "JobStatus")
        ≡ kept_or sample_world
            (ad_of ((str "Cmd", string (str "go")) ∷ []) (str "JobStatus"))
            (int status_idle))
unfolding find str_eq str job_key itoa emit member begin
commit_writes_example =
    commit_writes sample_world sample-ClassAdLaws sample_queue (pos 9) edit_txn (pos 1) (pos 1)
      (ad_of ((str "Cmd", string (str "go")) ∷ [])) (omega arith) (omega arith) refl refl refl
      committed

abbrev deleted_cmd : Str → List Str
deleted_cmd k = str "Cmd" ∷ []

commit-del_attrs_example :
    ((commit sample_world sample_queue (pos 9) (record edit_txn { del_attrs = deleted_cmd })).0
      ≡ (commit sample_world sample_queue (pos 9) edit_txn).0)
    × ((commit sample_world sample_queue (pos 9) (record edit_txn { del_attrs = deleted_cmd })).2
        ≡ (commit sample_world sample_queue (pos 9) edit_txn).2)
commit-del_attrs_example = commit-del_attrs sample_world deleted_cmd sample_queue (pos 9) edit_txn

-- A transaction edits a new job.
edit_allowed : authorize sample_world sample_queue owner_txn (pos 2) (pos 0) (str "Cmd") ≡ allow
unfolding authorize anonymous is_empty begin is_unmapped equal_fold cut_at_last str member
    build_authz_config committed_owner find job_key itoa emit
edit_allowed = refl

get-set_attribute_example :
    (get_attribute sample_world sample_queue
        (set_attribute sample_world sample_queue (pos 2) (pos 0) (str "Cmd") (str "go") owner_txn).0
        (pos 2)
        (pos 0)
        (str "Cmd")
      ≡ some (sample.expr_text (string (str "go"))))
    × (get_attribute sample_world sample_queue
          (delete_attribute sample_world sample_queue (pos 2) (pos 0) (str "Cmd") owner_txn).0
          (pos 2)
          (pos 0)
          (str "Cmd")
        ≡ none)
unfolding is_empty str str_eq
get-set_attribute_example =
    get-set_attribute sample_world sample-ClassAdLaws sample_queue owner_txn (pos 2) (pos 0)
      (str "Cmd") (str "go") (string (str "go")) edit_allowed refl refl

cluster_made : (new_cluster sample_world sample_queue owner_txn).2 ≡ (ok, pos 2)
unfolding new_cluster anonymous is_empty begin is_unmapped equal_fold cut_at_last str
    alloc_cluster_id
cluster_made = refl

new_cluster-take_procs_example :
    (take_procs sample_world 3 (pos 2) (new_cluster sample_world sample_queue owner_txn).1).1
    ≡ count_from sample_world 0 3
new_cluster-take_procs_example =
    new_cluster-take_procs sample_world sample_queue owner_txn 3 (pos 2) cluster_made

abbrev factory_store : List (Str × SampleAd)
factory_store =
    (str "1.-1", ad_of ((str "JobMaterializeDigestFile", string (str "d")) ∷ []))
    ∷ (str "counter", ad_of ((str "NextClusterId", int (pos 2)) ∷ []))
    ∷ []

open_queue-factories_example :
    (member_id sample_world
        (pos 1)
        (open_queue sample_world factory_store [] (str "schedd") (str "cs") no_options).factories
      ≡ true)
    ↔ ((1 ≤ 1)
        × (1
            < pos_part
                (open_queue sample_world factory_store []
                  (str "schedd")
                  (str "cs")
                  no_options).next_id)
        × (factory_ad sample_world factory_store 1 ≡ true))
open_queue-factories_example =
    open_queue-factories sample_world factory_store [] (str "schedd") (str "cs") no_options 1

alloc_cluster_id-open_queue_example :
    (alloc_cluster_id sample_world sample_queue ≡ (sample_queue, none))
    ⊎ (((alloc_cluster_id sample_world sample_queue).1 ≡ some (pos 2))
        × ((alloc_cluster_id sample_world sample_queue).0.next_id ≡ pos (2 + 1))
        × ((open_queue sample_world
              (alloc_cluster_id sample_world sample_queue).0.coll
              []
              (str "schedd")
              (str "cs")
              no_options).next_id
            ≡ pos (2 + 1)))
alloc_cluster_id-open_queue_example =
    alloc_cluster_id-open_queue sample_world sample-ClassAdLaws sample_world-StoreLaws sample_queue
      2 [] (str "schedd") (str "cs") no_options refl (omega arith)
