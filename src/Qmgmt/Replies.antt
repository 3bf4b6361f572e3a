-- ===== src/Qmgmt/Replies.antt =====
-- What a connection carries from request to request: the protected-changes flag and deferred errors.
use golang_ap.Prelude.{
  ℤ, negsuc, Bool, true, false, Option, none, some, List, [], ◌∷◌, ◌++◌, ◌≡◌, ◌≢◌, ◌⊎◌, refl, ap,
  arith,
}
use golang_ap.Text.{Str, str}
use golang_ap.Queue.State.{World, Queue}
use golang_ap.Queue.TxnState.{
  Txn, Outcome, ok, failed, stage, add_error, set_allow_protected_changes,
}
use golang_ap.Queue.Txn.{
  set_effective_owner, new_cluster, new_proc, set_attribute, delete_attribute, destroy_proc,
  destroy_cluster,
}
use golang_ap.Queue.Commit.{commit}
use golang_ap.Qmgmt.{
  Op, begin_transaction, abort_transaction, effective_owner, make_cluster, make_proc, set_attr,
  delete_attr, remove_proc, remove_cluster, allow_protected_changes, commit_at, Conn, e_inval,
  answer_commit, fresh, connect, handle, serve, set_job_factory, set_materialize_data,
  send_materialize_data, set_all, store_factory, store_items,
}

-- The flag after the requests: what the last of its toggles said.
unfoldable pub last_flag : Bool → List Op → Bool
last_flag v [] = v
last_flag v (allow_protected_changes u ∷ ops) = last_flag u ops
last_flag v (_ ∷ ops) = last_flag v ops

abbrev pub IsReset : Op → Type 0
IsReset begin_transaction = Unit
IsReset abort_transaction = Unit
IsReset (commit_at now) = Unit
IsReset _ = ⊥

snoc_nonempty : (xs : List Str) (x : Str) → (xs ++ (x ∷ [])) ≢ []
snoc_nonempty [] x h = cc
snoc_nonempty (y ∷ xs) x h = cc

module _ (w : World) (error_text : Outcome → Str) where
  -- The transaction holds the connection's flag.
  abbrev InSync : Bool → Conn w error_text → Type 0
  InSync v s = (s.allow_protected ≡ v) × (s.txn.allow_protected ≡ v)

  -- The operations keep the flag and the deferred errors.
  abbrev Carried : Txn w → Txn w → Type 0
  Carried t u = (u.allow_protected ≡ t.allow_protected) × (u.errs ≡ t.errs)

  owner-Carried : (q : Queue w) (o : Str) (t : Txn w) → Carried t (set_effective_owner w q o t).0
  unfolding set_effective_owner
  owner-Carried q o t = ground arith

  cluster-Carried : (q : Queue w) (t : Txn w) → Carried t (new_cluster w q t).1
  unfolding new_cluster stage
  cluster-Carried q t = ground arith

  proc-Carried : (c : ℤ) (t : Txn w) → Carried t (new_proc w c t).0
  unfolding new_proc stage
  proc-Carried c t = ground arith

  set-Carried :
      (q : Queue w) (c p : ℤ) (n v : Str) (t : Txn w) → Carried t (set_attribute w q c p n v t).0
  unfolding set_attribute stage
  set-Carried q c p n v t = ground arith

  delete-Carried :
      (q : Queue w) (c p : ℤ) (n : Str) (t : Txn w) → Carried t (delete_attribute w q c p n t).0
  unfolding delete_attribute stage
  delete-Carried q c p n t = ground arith

  remove-Carried : (q : Queue w) (c p : ℤ) (t : Txn w) → Carried t (destroy_proc w q c p t).0
  unfolding destroy_proc
  remove-Carried q c p t = ground arith

  remove_cluster-Carried : (q : Queue w) (c : ℤ) (t : Txn w) → Carried t (destroy_cluster w q c t).0
  unfolding destroy_cluster
  remove_cluster-Carried q c t = ground arith

  set_all-Carried :
      (q : Queue w) (c : ℤ) (attrs : List (Str × Str)) (t : Txn w)
      → Carried t (set_all w error_text q c attrs t).0
  unfolding set_all
  set_all-Carried q c [] t = (refl, refl)
  set_all-Carried q c ((n, v) ∷ attrs) t =
      let t' = (set_attribute w q c (negsuc 0) n v t).0 in
      ground (arith, set-Carried q c (negsuc 0) n v t, set_all-Carried q c attrs t')

  factory-Carried :
      (q : Queue w) (c num : ℤ) (path : Option Str) (now : ℤ) (t : Txn w)
      → Carried t (store_factory w error_text q c num path now t).0
  unfolding store_factory
  factory-Carried q c num none now t = (refl, refl)
  factory-Carried q c num (some path) now t = set_all-Carried q c _ t

  items-Carried :
      (q : Queue w) (c : ℤ) (bytes : Str) (path : Option Str) (t : Txn w)
      → Carried t (store_items w error_text q c bytes path t).0
  unfolding store_items
  items-Carried q c bytes none t = (refl, refl)
  items-Carried q c bytes (some path) t = set_all-Carried q c _ t

  InSync-fresh :
      (q : Queue w) (s : Conn w error_text) (v : Bool)
      → s.allow_protected ≡ v
      → InSync v (fresh w error_text q s)
  unfolding fresh set_allow_protected_changes
  InSync-fresh q s v h = (h, h)

  InSync-handle :
      (op : Op) (q : Queue w) (s : Conn w error_text) (v : Bool)
      → InSync v s
      → InSync (last_flag v (op ∷ [])) (handle w error_text op q s).1
  unfolding handle last_flag add_error
  InSync-handle begin_transaction q s v h = InSync-fresh q s v h.0
  InSync-handle abort_transaction q s v h = InSync-fresh q s v h.0
  InSync-handle (commit_at now) q s v h = InSync-fresh (commit w q now s.txn).0 s v h.0
  InSync-handle make_cluster q s v h = ground (arith, cluster-Carried q s.txn)
  InSync-handle (make_proc c) q s v h = ground (arith, proc-Carried c s.txn)
  InSync-handle (set_attr c p n u no_ack) q s v h = ground (arith, set-Carried q c p n u s.txn)
  InSync-handle (delete_attr c p n) q s v h = ground (arith, delete-Carried q c p n s.txn)
  InSync-handle (remove_proc c p) q s v h = ground (arith, remove-Carried q c p s.txn)
  InSync-handle (remove_cluster c) q s v h = ground (arith, remove_cluster-Carried q c s.txn)
  InSync-handle (effective_owner o) q s v h = ground (arith, owner-Carried q o s.txn)
  InSync-handle (set_job_factory c num path now) q s v h =
      ground (arith, factory-Carried q c num path now s.txn)
  InSync-handle set_materialize_data q s v h = h
  InSync-handle (send_materialize_data c bytes path) q s v h =
      ground (arith, items-Carried q c bytes path s.txn)
  InSync-handle (allow_protected_changes u) q s v h =
      unfold set_allow_protected_changes in (refl, refl)

  last_flag_head :
      (op : Op) (ops : List Op) (v : Bool)
      → last_flag v (op ∷ ops) ≡ last_flag (last_flag v (op ∷ [])) ops
  unfolding last_flag
  last_flag_head begin_transaction ops v = refl
  last_flag_head abort_transaction ops v = refl
  last_flag_head (commit_at now) ops v = refl
  last_flag_head make_cluster ops v = refl
  last_flag_head (make_proc c) ops v = refl
  last_flag_head (set_attr c p n u b) ops v = refl
  last_flag_head (delete_attr c p n) ops v = refl
  last_flag_head (remove_proc c p) ops v = refl
  last_flag_head (remove_cluster c) ops v = refl
  last_flag_head (effective_owner o) ops v = refl
  last_flag_head (set_job_factory c num path now) ops v = refl
  last_flag_head set_materialize_data ops v = refl
  last_flag_head (send_materialize_data c bytes path) ops v = refl
  last_flag_head (allow_protected_changes u) ops v = refl

  InSync-serve :
      (ops : List Op) (q : Queue w) (s : Conn w error_text) (v : Bool)
      → InSync v s
      → InSync (last_flag v ops) (serve w error_text ops q s).1
  unfolding serve last_flag
  InSync-serve [] q s v h = h
  InSync-serve (op ∷ ops) q s v h =
      let r = handle w error_text op q s in
      rw (last_flag_head op ops v)
        (InSync-serve ops r.0 r.1 (last_flag v (op ∷ [])) (InSync-handle op q s v h))

  -- The protected-changes flag of a connection, and of the transaction it is in, is what the last
  -- SetAllowProtectedChanges said, and off before the first, whatever transactions came between.
  pub protected_flag :
      (ops : List Op) (q : Queue w) (caller : Str) (writable : Bool)
      → let s = (serve w error_text ops q (connect w error_text q caller writable)).1 in
        (s.allow_protected ≡ last_flag false ops) × (s.txn.allow_protected ≡ last_flag false ops)
  protected_flag ops q caller writable =
      InSync-serve ops q (connect w error_text q caller writable) false
        (unfold connect in unfold set_allow_protected_changes in (refl, refl))

  -- Requests that start no new transaction keep the deferred errors.
  errs_kept :
      (op : Op) (q : Queue w) (s : Conn w error_text)
      → (IsReset op → ⊥)
      → s.txn.errs ≢ []
      → (handle w error_text op q s).1.txn.errs ≢ []
  unfolding handle add_error
  errs_kept begin_transaction q s r h = absurd (r tt)
  errs_kept abort_transaction q s r h = absurd (r tt)
  errs_kept (commit_at now) q s r h = absurd (r tt)
  errs_kept make_cluster q s r h = ground (arith, cluster-Carried q s.txn)
  errs_kept (make_proc c) q s r h = ground (arith, proc-Carried c s.txn)
  errs_kept (set_attr c p n u no_ack) q s r h = ground (arith, set-Carried q c p n u s.txn)
  errs_kept (delete_attr c p n) q s r h = ground (arith, delete-Carried q c p n s.txn)
  errs_kept (remove_proc c p) q s r h = ground (arith, remove-Carried q c p s.txn)
  errs_kept (remove_cluster c) q s r h = ground (arith, remove_cluster-Carried q c s.txn)
  errs_kept (effective_owner o) q s r h = ground (arith, owner-Carried q o s.txn)
  errs_kept (set_job_factory c num path now) q s r h =
      ground (arith, factory-Carried q c num path now s.txn)
  errs_kept set_materialize_data q s r h = h
  errs_kept (send_materialize_data c bytes path) q s r h =
      ground (arith, items-Carried q c bytes path s.txn)
  errs_kept (allow_protected_changes u) q s r h = unfold set_allow_protected_changes in h

  unfoldable pub NoReset : List Op → Type 0
  NoReset [] = Unit
  NoReset (op ∷ ops) = (IsReset op → ⊥) × NoReset ops

  errs_served :
      (ops : List Op) (q : Queue w) (s : Conn w error_text)
      → NoReset ops
      → s.txn.errs ≢ []
      → (serve w error_text ops q s).1.txn.errs ≢ []
  unfolding serve NoReset
  errs_served [] q s r h = h
  errs_served (op ∷ ops) q s r h =
      let step = handle w error_text op q s in
      errs_served ops step.0 step.1 r.1 (errs_kept op q s r.0 h)

  commit_refused :
      (q : Queue w) (now : ℤ) (t : Txn w) → t.errs ≢ [] → commit w q now t ≡ (q, t, failed)
  unfolding commit
  commit_refused q now t h = ground arith

  set_deferred :
      (q : Queue w) (s : Conn w error_text) (c p : ℤ) (n v : Str)
      → (s.writable ≡ false) ⊎ ((set_attribute w q c p n v s.txn).1 ≢ ok)
      → (handle w error_text (set_attr c p n v true) q s).1.txn.errs ≢ []
  unfolding handle add_error
  set_deferred q s c p n v h = ground (
    arith,
    snoc_nonempty s.txn.errs (str "read-only connection"),
    snoc_nonempty (set_attribute w q c p n v s.txn).0.errs
        (error_text (set_attribute w q c p n v s.txn).1),
  )

  -- A SetAttribute with SetNoAck that fails is not lost: whatever requests follow in the same
  -- transaction, its commit answers -1 with EINVAL and leaves the queue as it is then.
  pub deferred_error_refuses :
      (q : Queue w) (s : Conn w error_text) (c p : ℤ) (n v : Str) (ops : List Op) (now : ℤ)
      → (s.writable ≡ false) ⊎ ((set_attribute w q c p n v s.txn).1 ≢ ok)
      → NoReset ops
      → let before = serve w error_text (set_attr c p n v true ∷ ops) q s in
        let after = handle w error_text (commit_at now) before.0 before.1 in
        (after.0 ≡ before.0) × (after.2 ≡ some (negsuc 0, e_inval))
  unfolding serve handle
  deferred_error_refuses q s c p n v ops now h r =
      let step = handle w error_text (set_attr c p n v true) q s in
      let before = serve w error_text ops step.0 step.1 in
      let refusal =
        commit_refused before.0 now before.1.txn
          (errs_served ops step.0 step.1 r (set_deferred q s c p n v h)) in
      (ap (λ x. x.0) refusal, ap (λ x. answer_commit x.2) refusal)
