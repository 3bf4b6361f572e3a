-- ===== src/Queue/Permission.antt =====
-- Which client edits internal/queue/authz.go lets through.
use golang_ap.Prelude.{
  ℤ, negsuc, true, false, none, some, List, [], ◌∷◌, ◌++◌, ap, ◌∙◌, ==ℤ_iff, ◌≡◌, ◌≢◌, ◌↔◌, ◌⊎◌,
  inl, inr, arith, Option-cases,
}
use golang_ap.Text.{Str, is_empty, to_lower, member}
use golang_ap.Queue.State.{World, Queue, same, owner_of}
use golang_ap.Queue.TxnState.{Txn, denied, anonymous}
use golang_ap.Queue.Authz.{allow, check_owner, committed_owner, authorize, authorize_committed}
use golang_ap.Queue.Txn.{
  set_attribute, delete_attribute, destroy_proc, destroy_cluster, job_ids, procs_of_cluster,
}

module _ (w : World) (q : Queue w) (t : Txn w) where
  -- Who may act for the owner of a committed job.
  abbrev pub MayActFor : Str → Type 0
  MayActFor owner =
      (q.authz.all_users_trusted ≡ true)
      ⊎ ((t.is_super ≡ true) ⊎ ((is_empty owner ≡ true) ⊎ (same w q t.auth_user owner ≡ true)))

  -- What a committed job of this owner asks of an edit of the attribute.
  abbrev pub MayEdit : Str → Str → Type 0
  MayEdit name owner =
      MayActFor owner
      × (member (to_lower name) q.authz.immutable ≡ false)
      × ((member (to_lower name) q.authz.protected ≡ false)
          ⊎ ((t.allow_protected ≡ true)
              × ((t.is_super ≡ true) ⊎ (q.authz.all_users_trusted ≡ true))))

  authorize_committed-allow :
      (name owner : Str)
      → (authorize_committed w q t q.authz (to_lower name) owner ≡ allow) ↔ MayEdit name owner
  unfolding authorize_committed check_owner
  authorize_committed-allow name owner = (λ h. ground arith, λ h. ground arith)

  -- A client edit is let through exactly if the client is authenticated, the attribute is not secure,
  -- and either the ad is not committed yet, or three things hold: the client is the job's owner or a
  -- super user, or the job has no owner, or all users are trusted; the attribute is not immutable; and
  -- a protected one is edited by a super user, or under QUEUE_ALL_USERS_TRUSTED, on a connection that
  -- allows it.
  pub authorize-allow :
      (c p : ℤ) (name : Str)
      → (authorize w q t c p name ≡ allow) ↔ (
          (anonymous w t ≡ false)
          × (member (to_lower name) q.authz.secure ≡ false)
          × ((committed_owner w q c p ≡ none)
              ⊎ ((owner : Str) × (committed_owner w q c p ≡ some owner) × MayEdit name owner)))
  unfolding authorize
  authorize-allow c p name = elim (Option-cases (committed_owner w q c p)) [
    | inl e ↦ (λ h. (ground arith, ground arith, inl e), λ h. ground arith)
    | inr (owner, e) ↦ (
      λ h. (
        ground arith,
        ground arith,
        inr (owner, e, (authorize_committed-allow name owner).0 (ground arith)),
      ),
      λ h. committed_allowed owner e h.0 h.1 h.2,
    )
  ]
    where
      committed_allowed :
          (owner : Str)
          → committed_owner w q c p ≡ some owner
          → anonymous w t ≡ false
          → member (to_lower name) q.authz.secure ≡ false
          → (committed_owner w q c p ≡ none)
            ⊎ ((o : Str) × (committed_owner w q c p ≡ some o) × MayEdit name o)
          → authorize w q t c p name ≡ allow
      committed_allowed owner e a s (inl n) = cc
      committed_allowed owner e a s (inr (o, f, m)) =
          ground (arith, (authorize_committed-allow name o).1 m)

  -- A denied or ignored edit changes nothing.
  edit_unchanged :
      (c p : ℤ) (name value : Str)
      → authorize w q t c p name ≢ allow
      → ((set_attribute w q c p name value t).0 ≡ t) × ((delete_attribute w q c p name t).0 ≡ t)
  unfolding set_attribute delete_attribute
  edit_unchanged c p name value h = (ground arith, ground arith)

  -- An immutable attribute of a committed job is neither staged nor deleted, whoever asks.
  pub immutable_kept :
      (c p : ℤ) (name value : Str)
      → committed_owner w q c p ≢ none
      → member (to_lower name) q.authz.immutable ≡ true
      → ((set_attribute w q c p name value t).0 ≡ t) × ((delete_attribute w q c p name t).0 ≡ t)
  immutable_kept c p name value committed h =
      edit_unchanged c p name value (λ a. refuted ((authorize-allow c p name).0 a).2)
    where
      refuted :
          (committed_owner w q c p ≡ none)
            ⊎ ((o : Str) × (committed_owner w q c p ≡ some o) × MayEdit name o)
          → ⊥
      refuted (inl e) = committed e
      refuted (inr (o, e, m)) = cc

  -- One proc of another's in the scan, and DestroyCluster refuses.
  procs_refused :
      (c p : ℤ) (ad : w.lib.Ad) (before after : List w.lib.Ad)
      → job_ids w ad ≡ some (c, p)
      → check_owner w q t q.authz (owner_of w q ad) ≡ false
      → procs_of_cluster w q t c (before ++ (ad ∷ after)) ≡ none
  unfolding procs_of_cluster
  procs_refused c p ad [] after i o = ground (arith, ==ℤ_iff c c)
  procs_refused c p ad (b ∷ bs) after i o = ground (arith, procs_refused c p ad bs after i o)

  -- Where the ad of a key stands in the store: a cluster's ad under its key, a proc's in the scan.
  abbrev pub IsStored : ℤ → ℤ → Str → Type 0
  IsStored c p owner =
      (p ≡ negsuc 0)
      ⊎ ((ad : w.lib.Ad) × (before : List w.lib.Ad) × (after : List w.lib.Ad) × (w.scan q.coll
            ≡ before ++ (ad ∷ after))
          × (job_ids w ad ≡ some (c, p))
          × (owner_of w q ad ≡ owner))

  -- A user who is no super user, on a queue that does not trust all users, changes nothing of a
  -- committed job that belongs to another: no edit, no deletion, no removal of the job, and no removal
  -- of its whole cluster where the scan of the collection visits the job's ad, or where it is the
  -- cluster's own ad.
  pub foreign_job_kept :
      (c p : ℤ) (owner name value : Str)
      → committed_owner w q c p ≡ some owner
      → is_empty owner ≡ false
      → same w q t.auth_user owner ≡ false
      → t.is_super ≡ false
      → q.authz.all_users_trusted ≡ false
      → IsStored c p owner
      → ((set_attribute w q c p name value t).0 ≡ t)
        × ((delete_attribute w q c p name t).0 ≡ t)
        × (destroy_proc w q c p t ≡ (t, denied))
        × (destroy_cluster w q c t ≡ (t, denied))
  unfolding destroy_proc check_owner
  foreign_job_kept c p owner name value e n s u a stored =
      let kept = edit_unchanged c p name value (λ x. refuted ((authorize-allow c p name).0 x).2) in
      (kept.0, kept.1, ground arith, cluster_kept stored)
    where
      refused : check_owner w q t q.authz owner ≡ false
      refused = ground arith

      cluster_kept : IsStored c p owner → destroy_cluster w q c t ≡ (t, denied)
      cluster_kept (inl i) = unfold destroy_cluster in ground (arith, ap (committed_owner w q c) i)
      cluster_kept (inr (ad, before, after, scanned, ids, own)) =
          unfold destroy_cluster in
          ground (
            arith,
            procs_refused c p ad before after ids (ap (check_owner w q t q.authz) own ∙ refused),
            ap (procs_of_cluster w q t c) scanned,
          )

      refuted :
          (committed_owner w q c p ≡ none)
            ⊎ ((o : Str) × (committed_owner w q c p ≡ some o) × MayEdit name o)
          → ⊥
      refuted (inl f) = cc
      refuted (inr (o, f, m)) = ground arith
