-- ===== src/Qmgmt.antt =====
-- internal/qmgmt/handler.go: the loop of one QMGMT connection, over the transactions of
-- internal/queue. A request is what the loop reads from the stream, a reply the pair that it writes.
mod Inert
mod Replies
mod Examples
use golang_ap.Prelude.{
  ℤ, pos, negsuc, Bool, true, false, not, ◌||◌, ◌==ℤ◌, length, Option, none, some, List, [], ◌∷◌,
  ◌++◌, if◌then◌else◌,
}
use golang_ap.Text.{Str, str, itoa}
use golang_ap.Queue.State.{World, Queue}
use golang_ap.Queue.TxnState.{
  Txn, Outcome, ok, denied, failed, begin, add_error, set_allow_protected_changes, abort,
}
use golang_ap.Queue.Txn.{
  set_effective_owner, new_cluster, new_proc, set_attribute, delete_attribute, destroy_proc,
  destroy_cluster,
}
use golang_ap.Queue.Commit.{commit, attr_digest_file}
use golang_ap.Queue.Factory.{
  attr_limit, attr_items_file, attr_item_count, attr_next_proc_id, attr_next_row, attr_paused,
}
use golang_ap.Factory.{parse_items}

abbrev pub e_perm : ℤ
e_perm = pos 1

abbrev pub e_acces : ℤ
e_acces = pos 13

abbrev pub e_inval : ℤ
e_inval = pos 22

-- The requests that reach a transaction's state. `commit_at` carries the clock.
pub data Op : Type 0 where
  begin_transaction : Op
  abort_transaction : Op
  commit_at : ℤ → Op
  make_cluster : Op
  make_proc : ℤ → Op
  -- SetAttribute2 with its SetNoAck flag; SetAttribute has none
  set_attr : ℤ → ℤ → Str → Str → Bool → Op
  delete_attr : ℤ → ℤ → Str → Op
  remove_proc : ℤ → ℤ → Op
  remove_cluster : ℤ → Op
  effective_owner : Str → Op
  -- SetJobFactory: the cluster, max_materialize, and the clock. The spooling of the digest is outside
  -- the model: what it leaves is the quoted path, or none where it fails.
  set_job_factory : ℤ → ℤ → Option Str → ℤ → Op
  -- SetMaterializeData, which is obsolete
  set_materialize_data : Op
  -- SendMaterializeData, its data, and what the spooling of it leaves
  send_materialize_data : ℤ → Str → Option Str → Op
  allow_protected_changes : Bool → Op

-- rval and terrno; none where no reply is sent. The file name and row count that SendMaterializeData
-- answers are left out.
abbrev pub Reply : Type 0
Reply = Option (ℤ × ℤ)

unfoldable pub terrno_for : Outcome → ℤ
terrno_for ok = pos 0
terrno_for denied = e_acces
terrno_for failed = e_inval

-- The answer of an operation whose success is `v`.
unfoldable pub answer : ℤ → Outcome → Reply
unfolding terrno_for
answer v ok = some (v, pos 0)
answer v denied = some (negsuc 0, terrno_for denied)
answer v failed = some (negsuc 0, terrno_for failed)

unfoldable pub answer_owner : Outcome → Reply
answer_owner ok = some (pos 0, pos 0)
answer_owner denied = some (negsuc 0, e_acces)
answer_owner failed = some (negsuc 0, e_acces)

unfoldable pub answer_commit : Outcome → Reply
answer_commit ok = some (pos 0, pos 0)
answer_commit denied = some (negsuc 0, e_inval)
answer_commit failed = some (negsuc 0, e_inval)

abbrev pub refused : Reply
refused = some (negsuc 0, e_perm)

abbrev int_of_flag : Bool → ℤ
int_of_flag true = pos 1
int_of_flag false = pos 0

-- `error_text` is the Error method of the operations' errors.
module _ (w : World) (error_text : Outcome → Str) where
  pub record Conn : Type 0 where
    pub auth_user : Str
    pub writable : Bool
    pub allow_protected : Bool
    pub txn : Txn w

  -- The closure `begin`.
  unfoldable pub fresh : Queue w → Conn → Conn
  fresh q s = record s {
    txn = (set_allow_protected_changes w s.allow_protected (begin w q s.auth_user)).0;
  }

  unfoldable pub connect : Queue w → Str → Bool → Conn
  connect q caller writable = record {
    auth_user = caller;
    writable = writable;
    allow_protected = false;
    txn = (set_allow_protected_changes w false (begin w q caller)).0;
  }

  -- A SetAttribute's failure is replied, or with SetNoAck deferred to the commit.
  after_set : Bool → Conn → Txn w × Outcome → Conn × Reply
  after_set false s (t, r) = (record s { txn = t }, answer (pos 0) r)
  after_set true s (t, ok) = (record s { txn = t }, none)
  after_set true s (t, r) = (record s { txn = add_error w (error_text r) t }, none)

  after_op : ℤ → Conn → Txn w × Outcome → Conn × Reply
  after_op v s (t, r) = (record s { txn = t }, answer v r)

  set_read_only : Bool → Conn → Conn × Reply
  set_read_only false s = (s, refused)
  set_read_only true s = (record s { txn = add_error w (str "read-only connection") s.txn }, none)

  -- Attributes of a cluster ad, up to the first failure.
  unfoldable pub set_all : Queue w → ℤ → List (Str × Str) → Txn w → Txn w × Outcome
  set_all q c [] t = (t, ok)
  set_all q c ((name, value) ∷ attrs) t =
      let (t', r) = set_attribute w q c (negsuc 0) name value t in
      let rest = set_all q c attrs t' in
      elim r [ ok ↦ rest | denied ↦ (t', denied) | failed ↦ (t', failed) ]

  unfoldable pub store_factory : Queue w → ℤ → ℤ → Option Str → ℤ → Txn w → Txn w × Outcome
  store_factory q c num none now t = (t, failed)
  store_factory q c num (some path) now t =
      set_all q c
        ((attr_limit, itoa num)
          ∷ (attr_digest_file, path)
          ∷ (attr_next_proc_id, str "0")
          ∷ (attr_next_row, str "0")
          ∷ (attr_paused, str "0")
          ∷ (str "JobMaterializeDate", itoa now)
          ∷ [])
        t

  unfoldable pub store_items : Queue w → ℤ → Str → Option Str → Txn w → Txn w × Outcome
  unfolding parse_items
  store_items q c bytes none t = (t, failed)
  store_items q c bytes (some path) t =
      set_all q c
        ((attr_items_file, path) ∷ (attr_item_count, itoa (pos (length (parse_items bytes)))) ∷ [])
        t

  after_store : Conn → Txn w × Outcome → Conn × Reply
  after_store s (t, r) = (record s { txn = t }, answer_commit r)

  with_queue : Queue w → Conn × Reply → Queue w × Conn × Reply
  with_queue q (s, r) = (q, s, r)

  unfoldable pub handle : Op → Queue w → Conn → Queue w × Conn × Reply
  unfolding with_queue after_set after_op after_store set_read_only fresh answer answer_owner
      answer_commit
  handle begin_transaction q s =
      (q, fresh q (record s { txn = abort w s.txn }), some (pos 0, pos 0))
  handle abort_transaction q s =
      (q, fresh q (record s { txn = abort w s.txn }), some (pos 0, pos 0))
  handle (commit_at now) q s =
      let r = commit w q now s.txn in (r.0, fresh r.0 (record s { txn = r.1 }), answer_commit r.2)
  handle make_cluster q s =
      if not s.writable
      then (q, s, refused)
      else let r = new_cluster w q s.txn in (r.0, record s { txn = r.1 }, answer r.2.1 r.2.0)
  handle (make_proc c) q s =
      if not s.writable
      then (q, s, refused)
      else let r = new_proc w c s.txn in (q, record s { txn = r.0 }, answer r.2 r.1)
  handle (set_attr c p n v no_ack) q s =
      if not s.writable
      then with_queue q (set_read_only no_ack s)
      else with_queue q (after_set no_ack s (set_attribute w q c p n v s.txn))
  handle (delete_attr c p n) q s =
      if not s.writable
      then (q, s, refused)
      else with_queue q (after_op (pos 0) s (delete_attribute w q c p n s.txn))
  handle (remove_proc c p) q s =
      if not s.writable
      then (q, s, refused)
      else with_queue q (after_op (pos 0) s (destroy_proc w q c p s.txn))
  handle (remove_cluster c) q s =
      if not s.writable
      then (q, s, refused)
      else with_queue q (after_op (pos 0) s (destroy_cluster w q c s.txn))
  handle (effective_owner o) q s =
      let r = set_effective_owner w q o s.txn in (q, record s { txn = r.0 }, answer_owner r.1)
  handle (set_job_factory c num path now) q s =
      if not s.writable || not (c ==ℤ s.txn.active)
      then (q, s, refused)
      else with_queue q (after_store s (store_factory q c num path now s.txn))
  handle set_materialize_data q s = (q, s, refused)
  handle (send_materialize_data c bytes path) q s =
      if not s.writable || not (c ==ℤ s.txn.active)
      then (q, s, refused)
      else with_queue q (after_store s (store_items q c bytes path s.txn))
  handle (allow_protected_changes v) q s =
      let r = set_allow_protected_changes w v s.txn in
      (q, record s { txn = r.0; allow_protected = v }, some (int_of_flag r.1, pos 0))

  -- The queue, the connection and the replies after some requests.
  unfoldable pub serve : List Op → Queue w → Conn → Queue w × Conn × List Reply
  unfolding handle
  serve [] q s = (q, s, [])
  serve (op ∷ ops) q s =
      let r = handle op q s in let rest = serve ops r.0 r.1 in (rest.0, rest.1, r.2 ∷ rest.2)
