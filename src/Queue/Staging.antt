-- ===== src/Queue/Staging.antt =====
-- Reading back what a transaction of internal/queue/txn.go has staged.
use golang_ap.Prelude.{
  ℕ, zero, suc, ◌+◌, ℤ, pos, false, none, some, List, [], ◌∷◌, ◌≡◌, refl, ap, ◌∙◌, arith, ==ℤ_iff,
}
use golang_ap.Text.{Str, str_eq_iff, str_eq_refl, equal_fold_iff, is_empty, member}
use golang_ap.ClassAd.{ClassAdLaws}
use golang_ap.Assoc.{find-put}
use golang_ap.Key.{job_key}
use golang_ap.Queue.State.{World, Queue, alloc_cluster_id}
use golang_ap.Queue.TxnState.{Txn, ok, denied, failed, stage, staged_ad, anonymous}
use golang_ap.Queue.Authz.{allow, authorize}
use golang_ap.Queue.Txn.{
  remove_name, at_key, set_attribute, delete_attribute, get_attribute, new_proc, new_cluster,
}

member-remove_name : (n : Str) (ms : List Str) → member n (remove_name n ms) ≡ false
unfolding member remove_name
member-remove_name n [] = refl
member-remove_name n (m ∷ ms) =
    ground (arith, str_eq_iff m n, str_eq_iff n m, member-remove_name n ms)

module _ (w : World) (laws : ClassAdLaws w.lib) (q : Queue w) (t : Txn w) where
  -- An attribute that a transaction is allowed to set, to a text that parses, is read back by
  -- GetAttribute as the text of the parsed expression; for one that it is allowed to delete,
  -- committed or not, also if it had set it before, GetAttribute finds nothing under the name as it
  -- was spelled.
  pub get-set_attribute :
      (c p : ℤ) (name value : Str) (e : w.lib.Expr)
      → authorize w q t c p name ≡ allow
      → is_empty value ≡ false
      → w.lib.parse_expr value ≡ some e
      → (get_attribute w q (set_attribute w q c p name value t).0 c p name
          ≡ some (w.lib.expr_text e))
        × (get_attribute w q (delete_attribute w q c p name t).0 c p name ≡ none)
  unfolding get_attribute set_attribute delete_attribute at_key member stage
  get-set_attribute c p name value e a h f = (
    ground (
      arith,
      str_eq_refl (job_key c p),
      member-remove_name name (t.del_attrs (job_key c p)),
      find-put (job_key c p) (job_key c p) (w.lib.insert_expr (staged_ad w (job_key c p) t) name e)
          t.pending,
      laws.lookup-insert_expr (staged_ad w (job_key c p) t) name name e,
      (equal_fold_iff name name).1 refl,
    ),
    ground (arith, str_eq_refl (job_key c p), str_eq_refl name),
  )

-- NewProc again and again: the ids it hands out, up to the first refusal.
module _ (w : World) where
  unfoldable pub take_procs : ℕ → ℤ → Txn w → Txn w × List ℤ
  take_procs zero c t = (t, [])
  take_procs (suc n) c t =
      let (t', r, p) = new_proc w c t in
      let (t'', ps) = take_procs n c t' in
      elim r [ ok ↦ (t'', p ∷ ps) | denied ↦ (t', []) | failed ↦ (t', []) ]

  unfoldable pub count_from : ℕ → ℕ → List ℤ
  count_from k zero = []
  count_from k (suc n) = pos k ∷ count_from (k + 1) n

  -- A transaction in which the next proc of cluster c is k.
  abbrev NextIs : ℤ → ℕ → Txn w → Type 0
  NextIs c k t = (anonymous w t ≡ false) × (t.active ≡ c) × (t.next_proc c ≡ pos k)

  new_proc_step :
      (k : ℕ) (c : ℤ) (t : Txn w)
      → NextIs c k t
      → ((new_proc w c t).1 ≡ ok)
        × ((new_proc w c t).2 ≡ pos k)
        × NextIs c (k + 1) (new_proc w c t).0
  unfolding new_proc anonymous stage
  new_proc_step k c t h = ground (arith, ==ℤ_iff c c, ==ℤ_iff c t.active)

  take_head :
      (n : ℕ) (c : ℤ) (t : Txn w)
      → (new_proc w c t).1 ≡ ok
      → (take_procs (suc n) c t).1 ≡ ((new_proc w c t).2 ∷ (take_procs n c (new_proc w c t).0).1)
  unfolding take_procs
  take_head n c t h = ground arith

  take_from : (n k : ℕ) (c : ℤ) (t : Txn w) → NextIs c k t → (take_procs n c t).1 ≡ count_from k n
  unfolding take_procs count_from
  take_from zero k c t h = refl
  take_from (suc n) k c t h =
      let (r, p, next) = new_proc_step k c t h in
      take_head n c t r
      ∙ ap (λ x. x ∷ (take_procs n c (new_proc w c t).0).1) p
      ∙ ap (λ l. pos k ∷ l) (take_from n (k + 1) c (new_proc w c t).0 next)

  new_cluster_next :
      (q : Queue w) (t : Txn w) (id : ℤ)
      → (new_cluster w q t).2 ≡ (ok, id)
      → NextIs id 0 (new_cluster w q t).1
  unfolding new_cluster alloc_cluster_id anonymous stage
  new_cluster_next q t id h = ground (arith, ==ℤ_iff id id, ==ℤ_iff q.next_id q.next_id)

  -- After a NewCluster, any number of NewProc calls for it succeed, with the ids 0, 1, 2 and so on.
  pub new_cluster-take_procs :
      (q : Queue w) (t : Txn w) (n : ℕ) (id : ℤ)
      → (new_cluster w q t).2 ≡ (ok, id)
      → (take_procs n id (new_cluster w q t).1).1 ≡ count_from 0 n
  new_cluster-take_procs q t n id h =
      take_from n 0 id (new_cluster w q t).1 (new_cluster_next q t id h)
