-- ===== src/Queue/FactoryExamples.antt =====
-- A factory that has produced all its procs.
use golang_ap.Assoc.{find}
use golang_ap.Prelude.{pos, negsuc, true, none, some, List, [], ◌∷◌, ◌≡◌, ◌⊎◌, refl}
use golang_ap.Text.{Str, str, str_eq, itoa, emit, is_empty}
use golang_ap.ClassAd.Sample.{SampleAd, sample, sample-ClassAdLaws, int, string, ad_of}
use golang_ap.Key.{job_key}
use golang_ap.Queue.State.{Queue, member_id}
use golang_ap.Queue.TxnState.{ok, failed}
use golang_ap.Queue.Sample.{sample_world, sample_queue}
use golang_ap.Queue.Factory.{
  factory_info, maybe_cleanup, materialize_late, cluster_status_counts, int_attr_or,
}
use golang_ap.Queue.FactoryLaws.{IsAdvanced, materialize_late_batch}

abbrev factory_queue : Queue sample_world
factory_queue = record sample_queue {
  coll =
      (
        str "1.-1",
        ad_of (
            (str "JobMaterializeDigestFile", string (str "d"))
            ∷ (str "JobMaterializeLimit", int (pos 2))
            ∷ (str "JobMaterializeNextProcId", int (pos 2))
            ∷ []),
      )
      ∷ [];
  factories = pos 1 ∷ pos 4 ∷ [];
}

-- It is cleaned up.
cleaned_up : (maybe_cleanup sample_world (pos 1) factory_queue).1 ≡ true
unfolding maybe_cleanup member_id factory_info find str_eq str job_key itoa emit is_empty ad_of
    cluster_status_counts int_attr_or
cleaned_up = refl

materialize_late_batch_example :
    (materialize_late sample_world factory_queue
        (pos 1)
        (pos 2)
        (pos 9)
        none
        (pos 3)
        (pos 0)
        (pos 3)
      ≡ (factory_queue, failed))
    ⊎ ((before : SampleAd) × (new : SampleAd) × (advanced : SampleAd) × (coll : List
          (Str × SampleAd))
        × (sample_world.get factory_queue.coll (job_key (pos 1) (negsuc 0)) ≡ some before)
        × (sample_world.update factory_queue.coll
              ((job_key (pos 1) (pos 2), new) ∷ (job_key (pos 1) (negsuc 0), advanced) ∷ [])
            ≡ some coll)
        × ((materialize_late sample_world factory_queue
              (pos 1)
              (pos 2)
              (pos 9)
              none
              (pos 3)
              (pos 0)
              (pos 3)).0.coll
            ≡ coll)
        × ((materialize_late sample_world factory_queue
              (pos 1)
              (pos 2)
              (pos 9)
              none
              (pos 3)
              (pos 0)
              (pos 3)).1
            ≡ ok)
        × (sample.lookup new (str "ClusterId") ≡ some (int (pos 1)))
        × (sample.lookup new (str "ProcId") ≡ some (int (pos 2)))
        × IsAdvanced sample_world sample-ClassAdLaws (pos 3) (pos 0) (pos 3) before advanced)
materialize_late_batch_example =
    materialize_late_batch sample_world sample-ClassAdLaws factory_queue (pos 1) (pos 2) (pos 9)
      none (pos 3) (pos 0) (pos 3)
