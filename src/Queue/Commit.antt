-- ===== src/Queue/Commit.antt =====
-- internal/queue/txn.go: Commit, and the attributes that it forces onto the staged ads.
use golang_ap.Prelude.{
  ℤ, pos, Bool, true, false, not, ◌&&◌, Option, none, some, List, [], ◌∷◌, ltb_ℤ, is_some,
  if◌then◌else◌,
}
use golang_ap.Text.{Str, str, is_empty, member}
use golang_ap.Key.{job_key, cluster_key, parse_job_key}
use golang_ap.Queue.State.{
  World, Queue, submit, write_log, global_job_id, note_factory, unnote_factory,
}
use golang_ap.Queue.TxnState.{Txn, Outcome, ok, denied, failed, anonymous, staged_ad, stage}

abbrev pub attr_digest_file : Str
attr_digest_file = str "JobMaterializeDigestFile"

abbrev pub status_idle : ℤ
status_idle = pos 1

abbrev pub is_nil {ℓ} : {A : Type ℓ} → List A → Bool
is_nil [] = true
is_nil (x ∷ xs) = false

module _ (w : World) where
  open w use {lib, get, update, remove}
  open lib use {Ad, lookup, insert_expr, int_literal, string_literal, eval_int, eval_string}

  unfoldable pub set_int : Str → ℤ → Ad → Ad
  set_int name v ad = insert_expr ad name (int_literal v)

  unfoldable pub insert_string : Str → Str → Ad → Ad
  insert_string name s ad = insert_expr ad name (string_literal s)

  -- `if _, ok := ad.Lookup(name); !ok { ad.Set(name, v) }`
  unfoldable pub default_int : Str → ℤ → Ad → Ad
  default_int name v ad = if is_some (lookup ad name) then ad else set_int name v ad

  abbrev pub int_or : ℤ → Option ℤ → ℤ
  int_or v none = v
  int_or v (some u) = u

  unfoldable pub materialize_cluster : Txn w → ℤ → Ad → Ad
  materialize_cluster t c ad =
      let ad1 = set_int (str "ClusterId") c ad in
      let ad2 = insert_string (str "Owner") t.owner ad1 in
      let ad3 = insert_string (str "User") t.user ad2 in
      let ad4 = default_int (str "JobUniverse") (pos 5) ad3 in
      insert_string (str "MyType") (str "Job") ad4

  unfoldable pub materialize_proc : Queue w → Txn w → ℤ → ℤ → ℤ → Ad → Ad
  materialize_proc q t c p now ad =
      let ad1 = set_int (str "ProcId") p ad in
      let ad2 = set_int (str "ClusterId") c ad1 in
      let ad3 = insert_string (str "Owner") t.owner ad2 in
      let ad4 = insert_string (str "User") t.user ad3 in
      let ad5 = default_int (str "JobStatus") status_idle ad4 in
      let ad6 = default_int (str "QDate") now ad5 in
      let qdate = int_or now (eval_int ad6 (str "QDate")) in
      let ad7 = insert_string (str "GlobalJobId") (global_job_id w q c p qdate) ad6 in
      insert_string (str "MyType") (str "Job") ad7

  unfoldable pub materialize : Queue w → Txn w → ℤ → ℤ → ℤ → Ad → Ad
  materialize q t c p now ad =
      if ltb_ℤ p (pos 0) then materialize_cluster t c ad else materialize_proc q t c p now ad

  unfoldable pub stage_cluster : Option (ℤ × ℤ) → Txn w → Txn w
  stage_cluster none t = t
  stage_cluster (some (c, p)) t = stage w (cluster_key c) (staged_ad w (cluster_key c) t) t

  -- A cluster ad for every cluster of a staged proc.
  unfoldable pub stage_clusters : List (Str × Ad) → Txn w → Txn w
  unfolding stage_cluster
  stage_clusters [] t = t
  stage_clusters ((key, ad) ∷ rest) t = stage_clusters rest (stage_cluster (parse_job_key key) t)

  materialize_key : Queue w → Txn w → ℤ → Option (ℤ × ℤ) → Ad → Ad
  materialize_key q t now none ad = ad
  materialize_key q t now (some (c, p)) ad = materialize q t c p now ad

  -- The staged ads after the loop, which materializes them in place.
  unfoldable pub materialize_all : Queue w → Txn w → ℤ → List (Str × Ad) → List (Str × Ad)
  unfolding materialize_key
  materialize_all q t now [] = []
  materialize_all q t now ((key, ad) ∷ rest) =
      (key, (if member key t.destroyed then ad else materialize_key q t now (parse_job_key key) ad))
      ∷ materialize_all q t now rest

  -- The batch: what the same loop appends.
  unfoldable pub batch_of : List Str → List (Str × Ad) → List (Str × Ad)
  batch_of destroyed [] = []
  batch_of destroyed ((key, ad) ∷ rest) =
      let more = batch_of destroyed rest in
      if not (member key destroyed) && is_some (parse_job_key key) then (key, ad) ∷ more else more

  unfoldable pub unnote_key : Option (ℤ × ℤ) → Queue w → Queue w
  unnote_key none q = q
  unnote_key (some (c, p)) q = if ltb_ℤ p (pos 0) then unnote_factory w c q else q

  unfoldable pub delete_all : List Str → Queue w → Queue w
  unfolding unnote_key
  delete_all [] q = q
  delete_all (key ∷ keys) q =
      delete_all keys (unnote_key (parse_job_key key) (record q { coll = remove q.coll key }))

  unfoldable pub has_digest : Option Str → Bool
  has_digest none = false
  has_digest (some s) = not (is_empty s)

  unfoldable pub note_key : Option (ℤ × ℤ) → Ad → Queue w → Queue w
  unfolding has_digest
  note_key none ad q = q
  note_key (some (c, p)) ad q =
      if ltb_ℤ p (pos 0) && has_digest (eval_string ad attr_digest_file)
      then note_factory w c q
      else q

  unfoldable pub note_all : List Str → List (Str × Ad) → Queue w → Queue w
  unfolding note_key
  note_all destroyed [] q = q
  note_all destroyed ((key, ad) ∷ rest) q =
      note_all destroyed rest
        (if member key destroyed then q else note_key (parse_job_key key) ad q)

  unfoldable pub log_key : Option (ℤ × ℤ) → Queue w → Queue w
  log_key none q = q
  log_key (some (c, p)) q = elim (get q.coll (job_key c p)) [
    | none ↦ q
    | some ad ↦ write_log w (submit ad) q
  ]

  unfoldable pub log_submits : List Str → List Str → Queue w → Queue w
  unfolding log_key
  log_submits destroyed [] q = q
  log_submits destroyed (key ∷ keys) q =
      log_submits destroyed keys (if member key destroyed then q else log_key (parse_job_key key) q)

  unfoldable pub update_batch : Queue w → List (Str × Ad) → Option (Queue w)
  update_batch q [] = some q
  update_batch q (entry ∷ entries) = elim (update q.coll (entry ∷ entries)) [
    | none ↦ none
    | some coll ↦ some (record q { coll = coll })
  ]

  -- What follows a successful batch.
  unfoldable pub after_batch : Txn w → Queue w → Queue w
  after_batch t q =
      log_submits t.destroyed t.new_procs
        (note_all t.destroyed t.pending (delete_all t.destroyed q))

  unfoldable pub conclude : Queue w → Txn w → Option (Queue w) → Queue w × Txn w × Outcome
  conclude q t none = (q, t, failed)
  conclude q t (some q') = (after_batch t q', t, ok)

  -- The transaction whose pending ads Commit writes.
  unfoldable pub prepared : Queue w → ℤ → Txn w → Txn w
  prepared q now t =
      let s = stage_clusters t.pending t in record s { pending = materialize_all q s now s.pending }

  unfoldable pub commit : Queue w → ℤ → Txn w → Queue w × Txn w × Outcome
  commit q now t =
      if not (is_nil t.errs)
      then (q, t, failed)
      else if anonymous w t && not (is_nil t.pending && is_nil t.destroyed)
      then (q, t, denied)
      else let s = prepared q now t in
        conclude q s (update_batch q (batch_of s.destroyed s.pending))
