-- ===== src/Queue/Deleted.antt =====
-- What a transaction of internal/queue/txn.go records as deleted, and Commit.
use golang_ap.Prelude.{ℤ, Option, none, some, List, [], ◌∷◌, ◌≡◌, refl, ap, ◌∙◌, arith}
use golang_ap.Text.{Str}
use golang_ap.Key.{parse_job_key}
use golang_ap.Queue.State.{World, Queue}
use golang_ap.Queue.TxnState.{Txn, anonymous, stage, staged_ad}
use golang_ap.Queue.Commit.{
  commit, conclude, update_batch, after_batch, prepared, stage_cluster, stage_clusters,
  materialize_all, materialize, materialize_proc, materialize_cluster, batch_of,
}

tail_path {ℓ} : {A : Type ℓ} {x : A} {xs ys : List A} → xs ≡ ys → (x ∷ xs) ≡ (x ∷ ys)
tail_path {x} e = ap (λ l. x ∷ l) e

module _ (w : World) (d : Str → List Str) where
  abbrev with_deleted : Txn w → Txn w
  with_deleted t = record t { del_attrs = d }

  stage_cluster_deleted :
      (o : Option (ℤ × ℤ)) (t : Txn w)
      → stage_cluster w o (with_deleted t) ≡ with_deleted (stage_cluster w o t)
  unfolding stage_cluster stage staged_ad
  stage_cluster_deleted none t = refl
  stage_cluster_deleted (some (c, p)) t = refl

  stage_clusters_deleted :
      (entries : List (Str × w.lib.Ad)) (t : Txn w)
      → stage_clusters w entries (with_deleted t) ≡ with_deleted (stage_clusters w entries t)
  unfolding stage_clusters
  stage_clusters_deleted [] t = refl
  stage_clusters_deleted ((k, ad) ∷ rest) t =
      ap (stage_clusters w rest) (stage_cluster_deleted (parse_job_key k) t)
      ∙ stage_clusters_deleted rest (stage_cluster w (parse_job_key k) t)

  materialize_all_deleted :
      (q : Queue w) (t : Txn w) (now : ℤ) (entries : List (Str × w.lib.Ad))
      → materialize_all w q (with_deleted t) now entries ≡ materialize_all w q t now entries
  unfolding materialize_all materialize materialize_proc materialize_cluster
  materialize_all_deleted q t now [] = refl
  materialize_all_deleted q t now ((k, ad) ∷ rest) =
      tail_path (materialize_all_deleted q t now rest)

  prepared_deleted :
      (q : Queue w) (now : ℤ) (t : Txn w)
      → prepared w q now (with_deleted t) ≡ with_deleted (prepared w q now t)
  unfolding prepared
  prepared_deleted q now t =
      let s = stage_clusters w t.pending t in
      ap (λ (r : Txn w). record r { pending = materialize_all w q r now r.pending })
        (stage_clusters_deleted t.pending t)
      ∙ ap (λ l. record (with_deleted s) { pending = l })
          (materialize_all_deleted q s now s.pending)

  conclude_deleted :
      (q : Queue w) (s : Txn w) (o : Option (Queue w))
      → ((conclude w q (with_deleted s) o).0 ≡ (conclude w q s o).0)
        × ((conclude w q (with_deleted s) o).2 ≡ (conclude w q s o).2)
  unfolding conclude after_batch
  conclude_deleted q s none = (refl, refl)
  conclude_deleted q s (some r) = (refl, refl)

  -- Commit leaves the same queue, and answers the same, whatever attributes the transaction has
  -- recorded as deleted: a deletion from a committed ad is not carried out.
  pub commit-del_attrs :
      (q : Queue w) (now : ℤ) (t : Txn w)
      → ((commit w q now (with_deleted t)).0 ≡ (commit w q now t).0)
        × ((commit w q now (with_deleted t)).2 ≡ (commit w q now t).2)
  unfolding commit anonymous
  commit-del_attrs q now t =
      let s = prepared w q now t in
      let same = conclude_deleted q s (update_batch w q (batch_of w s.destroyed s.pending)) in
      (
        rw (prepared_deleted q now t) (ground (arith, same.0)),
        rw (prepared_deleted q now t) (ground (arith, same.1)),
      )
