-- ===== src/Queue/Forced.antt =====
-- What Commit of internal/queue/txn.go writes.
use golang_ap.Prelude.{
  ℤ, pos, false, Option, none, some, List, [], ◌∷◌, ◌≡◌, ◌⊎◌, inl, inr, refl, ap, sym, subst,
  subst₂, ◌∙◌, arith, All, ltb_ℤ, Option-cases, Bool-cases,
}
use golang_ap.Text.{Str, str, str_eq_iff, IsInt, member}
use golang_ap.ClassAd.{ClassAdLaws}
use golang_ap.Assoc.{find, find-put}
use golang_ap.Key.{parse_job_key, job_key, cluster_key}
use golang_ap.Key.RoundTrip.{parse-job_key}
use golang_ap.Queue.State.{World, Queue}
use golang_ap.Queue.TxnState.{Txn, ok, stage, staged_ad}
use golang_ap.Queue.Commit.{
  status_idle, materialize, materialize_proc, after_batch, conclude, update_batch, stage_cluster,
  materialize_all, stage_clusters, batch_of, prepared, commit,
}
use golang_ap.Queue.Aftermath.{IsAftermath, without}
use golang_ap.Queue.Aftermath.Effects.{after_batch-IsAftermath}
use golang_ap.Queue.Materialized.{
  kept_or, IsForced, IsForcedEntry, materialize_proc_status, proc-IsForced, materialize-IsForced,
}

module _ (w : World) where
  open w use {lib}

  module _ (laws : ClassAdLaws lib) where
    batch_forced :
        (q : Queue w) (t : Txn w) (now : ℤ) (entries : List (Str × lib.Ad))
        → All
            (IsForcedEntry w t.owner t.user)
            (batch_of w t.destroyed (materialize_all w q t now entries))
    unfolding batch_of materialize_all
    batch_forced q t now [] = tt
    batch_forced q t now ((key, ad) ∷ rest) = elim (Bool-cases (member key t.destroyed)) [
      | inl e ↦ rw e (batch_forced q t now rest)
      | inr e ↦ elim (Option-cases (parse_job_key key)) [
        | inl n ↦ rw (e, n) (batch_forced q t now rest)
        | inr ((c, p), f) ↦
            rw (e, f)
              ((c, p, f, materialize-IsForced w laws q t c p now ad), batch_forced q t now rest)
      ]
    ]

    find-batch :
        (q : Queue w) (t : Txn w) (now c p : ℤ) (k : Str) (ad : lib.Ad)
        (entries : List (Str × lib.Ad))
        → find k entries ≡ some ad
        → member k t.destroyed ≡ false
        → parse_job_key k ≡ some (c, p)
        → find k (batch_of w t.destroyed (materialize_all w q t now entries))
          ≡ some (materialize w q t c p now ad)
    unfolding find batch_of materialize_all
    find-batch q t now c p k ad [] h d e = cc
    find-batch q t now c p k ad ((j, b) ∷ rest) h d e =
        ground (arith, str_eq_iff j k, find-batch q t now c p k ad rest)

  -- Staging a cluster ad keeps every staged ad, and all but the pending ads as they are.
  stage_cluster_kept :
      (o : Option (ℤ × ℤ)) (t : Txn w) (k : Str) (ad : lib.Ad)
      → find k t.pending ≡ some ad
      → find k (stage_cluster w o t).pending ≡ some ad
  unfolding stage_cluster stage staged_ad
  stage_cluster_kept none t k ad h = h
  stage_cluster_kept (some (c, p)) t k ad h = ground (
    arith,
    str_eq_iff (cluster_key c) k,
    find-put (cluster_key c) k (staged_ad w (cluster_key c) t) t.pending,
  )

  stage_clusters_kept :
      (entries : List (Str × lib.Ad)) (t : Txn w) (k : Str) (ad : lib.Ad)
      → find k t.pending ≡ some ad
      → find k (stage_clusters w entries t).pending ≡ some ad
  unfolding stage_clusters
  stage_clusters_kept [] t k ad h = h
  stage_clusters_kept ((j, b) ∷ rest) t k ad h =
      stage_clusters_kept rest (stage_cluster w (parse_job_key j) t) k ad
        (stage_cluster_kept (parse_job_key j) t k ad h)

  abbrev SameIdentity : Txn w → Txn w → Type 0
  SameIdentity s t = (s.owner ≡ t.owner) × (s.user ≡ t.user) × (s.destroyed ≡ t.destroyed)

  stage_cluster_rest : (o : Option (ℤ × ℤ)) (t : Txn w) → SameIdentity (stage_cluster w o t) t
  unfolding stage_cluster stage
  stage_cluster_rest none t = (refl, refl, refl)
  stage_cluster_rest (some (c, p)) t = (refl, refl, refl)

  stage_clusters_rest :
      (entries : List (Str × lib.Ad)) (t : Txn w) → SameIdentity (stage_clusters w entries t) t
  unfolding stage_clusters
  stage_clusters_rest [] t = (refl, refl, refl)
  stage_clusters_rest ((j, b) ∷ rest) t =
      let first = stage_cluster_rest (parse_job_key j) t in
      let later = stage_clusters_rest rest (stage_cluster w (parse_job_key j) t) in
      (later.0 ∙ first.0, later.1 ∙ first.1, later.2 ∙ first.2)

  -- The batch that Commit hands to the collection.
  abbrev pub batch : Queue w → ℤ → Txn w → List (Str × lib.Ad)
  batch q now t = let s = prepared w q now t in batch_of w s.destroyed s.pending

  -- What a successful Commit did with its batch: the collection took it, and the rest came after.
  abbrev pub IsWritten : Queue w → Txn w → List (Str × lib.Ad) → Queue w → Type 0
  IsWritten q s b q' =
      (coll : w.Coll) × (((b ≡ []) × (coll ≡ q.coll)) ⊎ (w.update q.coll b ≡ some coll))
      × IsAftermath w s coll q q'

  conclude_ok :
      (q : Queue w) (s : Txn w) (b : List (Str × lib.Ad))
      → (conclude w q s (update_batch w q b)).2 ≡ ok
      → IsWritten q s b (conclude w q s (update_batch w q b)).0
  unfolding conclude update_batch
  conclude_ok q s [] h = (q.coll, inl (refl, refl), after_batch-IsAftermath w s q)
  conclude_ok q s (e ∷ es) h = elim (Option-cases (w.update q.coll (e ∷ es))) [
    | inl n ↦ absurd (ground arith)
    | inr (coll, u) ↦ (
      coll,
      inr u,
      subst (λ r. IsAftermath w s coll q r) (sym (concluded coll u))
          (after_batch-IsAftermath w s (record q { coll = coll })),
    )
  ]
    where
      concluded :
          (coll : w.Coll)
          → w.update q.coll (e ∷ es) ≡ some coll
          → (conclude w q s (update_batch w q (e ∷ es))).0
            ≡ after_batch w s (record q { coll = coll })
      concluded coll u = ground arith

  -- A batch with an entry is handed to the collection.
  taken :
      (q : Queue w) (s : Txn w) (b : List (Str × lib.Ad)) (q' : Queue w) (k : Str) (ad : lib.Ad)
      → find k b ≡ some ad
      → IsWritten q s b q'
      → (coll : w.Coll) × (w.update q.coll b ≡ some coll) × (q'.coll ≡ without w s.destroyed coll)
  taken q s b q' k ad h (coll, inl e, after) = absurd (missing (ap (find k) (sym e.0) ∙ h))
    where
      missing : find k [] ≡ some ad → ⊥
      missing e = unfold find in cc
  taken q s b q' k ad h (coll, inr u, after) = (coll, u, after.0)

  commit_ok :
      (q : Queue w) (now : ℤ) (t : Txn w)
      → (commit w q now t).2 ≡ ok
      → commit w q now t ≡ conclude w q (prepared w q now t) (update_batch w q (batch q now t))
  unfolding commit
  commit_ok q now t h = ground arith

  module _ (laws : ClassAdLaws lib) (q : Queue w) (now : ℤ) (t : Txn w) where
    -- A successful Commit writes one batch, or none if it is empty, and every ad in it is a job's or a
    -- cluster's, with its ids and the transaction's Owner and User whatever the client staged. Then the
    -- destroyed keys are removed; the clusters whose ad is destroyed leave the factories and those
    -- written with a digest enter them; and the user log gets one SUBMIT event for each new proc that
    -- is not destroyed and in the collection. The history and the next cluster id stay.
    pub commit_forced :
        (commit w q now t).2 ≡ ok
        → All (IsForcedEntry w t.owner t.user) (batch q now t)
          × IsWritten q (prepared w q now t) (batch q now t) (commit w q now t).0
    unfolding prepared
    commit_forced h = (
      subst₂ (λ owner user. All (IsForcedEntry w owner user) (batch q now t)) (same.0) (same.1)
          (batch_forced laws q s now s.pending),
      rw (commit_ok q now t h)
          (conclude_ok q (prepared w q now t) (batch q now t) (rw (commit_ok q now t h) at h)),
    )
      where
        s : Txn w
        s = stage_clusters w t.pending t

        same : SameIdentity s t
        same = stage_clusters_rest t.pending t

    -- A successful Commit has the collection write each staged proc ad that is not destroyed: under its
    -- key, with the transaction's Owner and User, and with JobStatus Idle unless the client staged a
    -- status, whether the job is new or committed, running or held. After that only the destroyed keys
    -- are removed from the collection.
    pub commit_writes :
        (c p : ℤ) (ad : lib.Ad)
        → IsInt c
        → IsInt p
        → ltb_ℤ p (pos 0) ≡ false
        → find (job_key c p) t.pending ≡ some ad
        → member (job_key c p) t.destroyed ≡ false
        → (commit w q now t).2 ≡ ok
        → (coll : w.Coll) × (w.update q.coll (batch q now t) ≡ some coll)
          × ((commit w q now t).0.coll ≡ without w t.destroyed coll)
          × (written : lib.Ad) × (find (job_key c p) (batch q now t) ≡ some written)
          × IsForced w t.owner t.user c p written
          × (lib.lookup written (str "JobStatus")
              ≡ kept_or w (lib.lookup ad (str "JobStatus")) (lib.int_literal status_idle))
    unfolding prepared
    commit_writes c p ad hc hp hp0 h d good =
        let s = stage_clusters w t.pending t in
        let same = stage_clusters_rest t.pending t in
        let entry =
          find-batch laws q s now c p (job_key c p) ad s.pending
            (stage_clusters_kept t.pending t (job_key c p) ad h) (rw same.2 d)
            (parse-job_key c p hc hp)
          ∙ ap some (as_proc s) in
        let (coll, u, rest) =
          taken q (prepared w q now t) (batch q now t) (commit w q now t).0 (job_key c p) _ entry
            (commit_forced good).1 in
        (
          coll,
          u,
          rest ∙ ap (λ keys. without w keys coll) same.2,
          materialize_proc w q s c p now ad,
          entry,
          subst₂ (λ owner user. IsForced w owner user c p (materialize_proc w q s c p now ad))
              same.0 same.1 (proc-IsForced w laws q s c p now ad),
          materialize_proc_status w laws q s c p now ad,
        )
      where
        as_proc : (s : Txn w) → materialize w q s c p now ad ≡ materialize_proc w q s c p now ad
        as_proc s = unfold materialize in rw hp0
