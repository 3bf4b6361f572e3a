-- ===== src/Qmgmt/Examples.antt =====
-- Connections to a queue with two jobs of bo@cs.
use golang_ap.Prelude.{pos, negsuc, true, false, some, List, [], ◌∷◌, ◌≡◌, ◌≢◌, inr, refl}
use golang_ap.Text.{Str, str, is_empty, equal_fold, cut_at_last}
use golang_ap.User.{is_unmapped}
use golang_ap.Queue.State.{Queue}
use golang_ap.Queue.TxnState.{Outcome, ok}
use golang_ap.Queue.Txn.{set_attribute}
use golang_ap.Queue.Sample.{sample_world, sample_queue}
use golang_ap.Qmgmt.{
  Op, make_cluster, set_attr, allow_protected_changes, commit_at, Conn, Reply, e_inval, connect,
  handle, serve,
}
use golang_ap.Qmgmt.Inert.{barred_inert}
use golang_ap.Qmgmt.Replies.{NoReset, last_flag, protected_flag, deferred_error_refuses}

abbrev error_text : Outcome → Str
error_text r = str "refused"

abbrev some_requests : List Op
some_requests =
    make_cluster
    ∷ allow_protected_changes true
    ∷ set_attr (pos 1) (pos 0) (str "Cmd") (str "1") false
    ∷ commit_at (pos 9)
    ∷ []

barred_inert_example :
    (serve sample_world error_text some_requests sample_queue
      (connect sample_world error_text sample_queue (str "x@unmappeduser") true)).0
    ≡ sample_queue
unfolding is_unmapped equal_fold cut_at_last str
barred_inert_example =
    barred_inert sample_world error_text sample_queue (str "x@unmappeduser") true some_requests
      (inr (inr refl))

protected_flag_example :
    ((serve sample_world error_text some_requests sample_queue
        (connect sample_world error_text sample_queue (str "bo@cs") true)).1.allow_protected
      ≡ last_flag false some_requests)
    × ((serve sample_world error_text some_requests sample_queue
          (connect sample_world error_text sample_queue (str "bo@cs") true)).1.txn.allow_protected
        ≡ last_flag false some_requests)
protected_flag_example =
    protected_flag sample_world error_text some_requests sample_queue (str "bo@cs") true

-- An empty value is refused, without a reply.
abbrev bo_conn : Conn sample_world error_text
bo_conn = connect sample_world error_text sample_queue (str "bo@cs") true

abbrev before : Queue sample_world × Conn sample_world error_text × List Reply
before =
    serve sample_world error_text
      (set_attr (pos 1) (pos 0) (str "Cmd") (str "") true ∷ make_cluster ∷ []) sample_queue bo_conn

empty_refused :
    (set_attribute sample_world sample_queue (pos 1) (pos 0) (str "Cmd") (str "") bo_conn.txn).1
    ≢ ok
unfolding set_attribute is_empty str
empty_refused e = cc

deferred_error_refuses_example :
    ((handle sample_world error_text (commit_at (pos 9)) before.0 before.1).0 ≡ before.0)
    × ((handle sample_world error_text (commit_at (pos 9)) before.0 before.1).2
        ≡ some (negsuc 0, e_inval))
unfolding NoReset
deferred_error_refuses_example =
    deferred_error_refuses sample_world error_text sample_queue bo_conn (pos 1) (pos 0) (str "Cmd")
      (str "") (make_cluster ∷ []) (pos 9) (inr empty_refused) ((λ r. r), tt)
