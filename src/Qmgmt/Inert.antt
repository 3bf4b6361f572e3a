-- ===== src/Qmgmt/Inert.antt =====
-- A connection that did not authenticate, or that came in on the read command, never writes.
use golang_ap.Prelude.{
  ℤ, negsuc, ap, Option, none, some, Bool, true, false, List, [], ◌∷◌, ◌≡◌, ◌⊎◌, inl, inr, refl,
  ◌∙◌, arith,
}
use golang_ap.Text.{Str, str, is_empty}
use golang_ap.User.{is_unmapped}
use golang_ap.Queue.State.{World, Queue}
use golang_ap.Queue.TxnState.{
  Txn, Outcome, begin, anonymous, add_error, set_allow_protected_changes,
}
use golang_ap.Queue.Authz.{authorize}
use golang_ap.Queue.Txn.{
  set_effective_owner, new_cluster, new_proc, set_attribute, delete_attribute, destroy_proc,
  destroy_cluster,
}
use golang_ap.Queue.Commit.{
  commit, conclude, update_batch, after_batch, prepared, stage_clusters, materialize_all, batch_of,
  log_submits, note_all, delete_all,
}
use golang_ap.Qmgmt.{
  Op, begin_transaction, abort_transaction, effective_owner, make_cluster, make_proc, set_attr,
  delete_attr, remove_proc, remove_cluster, allow_protected_changes, commit_at, Conn, fresh,
  connect, handle, serve, set_job_factory, set_materialize_data, send_materialize_data, set_all,
  store_factory, store_items,
}

module _ (w : World) (error_text : Outcome → Str) where
  -- Nothing staged.
  abbrev IsEmpty : Txn w → Type 0
  IsEmpty t = (t.pending ≡ []) × (t.destroyed ≡ []) × (t.new_procs ≡ [])

  -- What keeps a connection from writing.
  abbrev Barred : Conn w error_text → Type 0
  Barred s =
      (s.writable ≡ false)
      ⊎ (((is_empty s.auth_user ≡ true) ⊎ (is_unmapped w.fqu s.auth_user ≡ true))
          × (is_empty s.txn.auth_user ≡ true))

  abbrev IsInert : Conn w error_text → Type 0
  IsInert s = Barred s × IsEmpty s.txn

  -- With nothing staged, Commit writes nothing.
  commit_inert : (now : ℤ) (q : Queue w) (t : Txn w) → IsEmpty t → (commit w q now t).0 ≡ q
  unfolding commit conclude update_batch after_batch prepared stage_clusters materialize_all
      batch_of log_submits note_all delete_all
  commit_inert now q t h = ground arith

  IsInert-fresh :
      (q : Queue w) (s : Conn w error_text)
      → (s.writable ≡ false)
        ⊎ ((is_empty s.auth_user ≡ true) ⊎ (is_unmapped w.fqu s.auth_user ≡ true))
      → IsInert (fresh w error_text q s)
  unfolding fresh begin set_allow_protected_changes str is_empty
  IsInert-fresh q s (inl h) = (inl h, (refl, refl, refl))
  IsInert-fresh q s (inr h) = (inr (h, ground arith), (refl, refl, refl))

  cause :
      (s : Conn w error_text)
      → Barred s
      → (s.writable ≡ false)
        ⊎ ((is_empty s.auth_user ≡ true) ⊎ (is_unmapped w.fqu s.auth_user ≡ true))
  cause s (inl h) = inl h
  cause s (inr h) = inr h.0

  -- Nothing is staged on a cluster ad for no one.
  set_attribute-anonymous :
      (q : Queue w) (c p : ℤ) (n v : Str) (t : Txn w)
      → is_empty t.auth_user ≡ true
      → (set_attribute w q c p n v t).0 ≡ t
  unfolding set_attribute authorize anonymous
  set_attribute-anonymous q c p n v t h = ground arith

  set_all-anonymous :
      (q : Queue w) (c : ℤ) (attrs : List (Str × Str)) (t : Txn w)
      → is_empty t.auth_user ≡ true
      → (set_all w error_text q c attrs t).0 ≡ t
  unfolding set_all
  set_all-anonymous q c [] t h = refl
  set_all-anonymous q c ((n, v) ∷ attrs) t h =
      let first = set_attribute-anonymous q c (negsuc 0) n v t h in
      let rest =
        set_all-anonymous q c attrs (set_attribute w q c (negsuc 0) n v t).0
          (ap (λ u. is_empty u.auth_user) first ∙ h) in
      ground (arith, first, rest)

  factory-anonymous :
      (q : Queue w) (c num : ℤ) (path : Option Str) (now : ℤ) (t : Txn w)
      → is_empty t.auth_user ≡ true
      → (store_factory w error_text q c num path now t).0 ≡ t
  unfolding store_factory
  factory-anonymous q c num none now t h = refl
  factory-anonymous q c num (some path) now t h = set_all-anonymous q c _ t h

  items-anonymous :
      (q : Queue w) (c : ℤ) (bytes : Str) (path : Option Str) (t : Txn w)
      → is_empty t.auth_user ≡ true
      → (store_items w error_text q c bytes path t).0 ≡ t
  unfolding store_items
  items-anonymous q c bytes none t h = refl
  items-anonymous q c bytes (some path) t h = set_all-anonymous q c _ t h

  IsInert-handle :
      (op : Op) (q : Queue w) (s : Conn w error_text)
      → IsInert s
      → ((handle w error_text op q s).0 ≡ q) × IsInert (handle w error_text op q s).1
  unfolding handle
  IsInert-handle begin_transaction q s h = (refl, IsInert-fresh q s (cause s h.0))
  IsInert-handle abort_transaction q s h = (refl, IsInert-fresh q s (cause s h.0))
  IsInert-handle (commit_at now) q s h =
      (commit_inert now q s.txn h.1, IsInert-fresh (commit w q now s.txn).0 s (cause s h.0))
  IsInert-handle make_cluster q s h = unfold new_cluster anonymous in (ground arith, ground arith)
  IsInert-handle (make_proc c) q s h = unfold new_proc anonymous in (ground arith, ground arith)
  IsInert-handle (set_attr c p n v no_ack) q s h =
      unfold set_attribute authorize anonymous add_error in (ground arith, ground arith)
  IsInert-handle (delete_attr c p n) q s h =
      unfold delete_attribute authorize anonymous in (ground arith, ground arith)
  IsInert-handle (remove_proc c p) q s h =
      unfold destroy_proc anonymous in (ground arith, ground arith)
  IsInert-handle (remove_cluster c) q s h =
      unfold destroy_cluster anonymous in (ground arith, ground arith)
  IsInert-handle (effective_owner o) q s h = unfold set_effective_owner in (refl, ground arith)
  IsInert-handle (set_job_factory c num path now) q s h =
      (ground arith, ground (arith, factory-anonymous q c num path now s.txn))
  IsInert-handle set_materialize_data q s h = (refl, h)
  IsInert-handle (send_materialize_data c bytes path) q s h =
      (ground arith, ground (arith, items-anonymous q c bytes path s.txn))
  IsInert-handle (allow_protected_changes v) q s h =
      unfold set_allow_protected_changes in (refl, ground arith)

  serve_inert :
      (ops : List Op) (q : Queue w) (s : Conn w error_text)
      → IsInert s
      → (serve w error_text ops q s).0 ≡ q
  unfolding serve
  serve_inert [] q s h = refl
  serve_inert (op ∷ ops) q s h =
      let step = IsInert-handle op q s h in
      serve_inert ops (handle w error_text op q s).0 (handle w error_text op q s).1 step.1 ∙ step.0

  -- Whatever requests follow on a connection on the read command, with no authenticated user, or with
  -- one in the unmapped domain, the queue is what it was: jobs, history, cluster ids, factories and
  -- user log.
  pub barred_inert :
      (q : Queue w) (caller : Str) (writable : Bool) (ops : List Op)
      → (writable ≡ false) ⊎ ((is_empty caller ≡ true) ⊎ (is_unmapped w.fqu caller ≡ true))
      → (serve w error_text ops q (connect w error_text q caller writable)).0 ≡ q
  unfolding connect fresh
  barred_inert q caller writable ops h =
      serve_inert ops q (connect w error_text q caller writable)
        (IsInert-fresh q (connect w error_text q caller writable) h)
