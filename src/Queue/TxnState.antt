-- ===== src/Queue/TxnState.antt =====
-- internal/queue/txn.go and queue.go: a transaction's state, and how it begins.
use golang_ap.Prelude.{
  ℤ, pos, negsuc, Bool, false, Option, none, some, List, [], ◌++◌, ◌∷◌, if◌then◌else◌,
}
use golang_ap.Text.{Str, str, is_empty}
use golang_ap.User.{short_name, qualify, is_unmapped}
use golang_ap.Assoc.{find, put}
use golang_ap.Queue.State.{World, Queue, is_super}

-- What an operation answers beside the transaction. `denied` is the AuthzError type; the others are
-- plain errors.
pub data Outcome : Type 0 where
  ok : Outcome
  denied : Outcome
  failed : Outcome

module _ (w : World) where
  open w use {fqu, lib}

  -- The maps nextProc and delAttrs answer 0 and nil at a missing key; the sets are lists of keys.
  pub record Txn : Type 0 where
    pub auth_user : Str
    pub owner : Str
    pub user : Str
    pub is_super : Bool
    pub allow_protected : Bool
    pub active : ℤ
    pub pending : List (Str × lib.Ad)
    pub next_proc : ℤ → ℤ
    pub del_attrs : Str → List Str
    pub destroyed : List Str
    pub new_procs : List Str
    pub errs : List Str

  unfoldable pub begin : Queue w → Str → Txn
  begin q auth =
      let auth_user = if is_unmapped fqu auth then str "" else auth in
      let user = qualify fqu q.domain auth_user in
      record {
        auth_user = auth_user;
        owner = short_name fqu user;
        user = user;
        is_super = is_super w q auth_user;
        allow_protected = false;
        active = negsuc 0;
        pending = [];
        next_proc = λ c. pos 0;
        del_attrs = λ k. [];
        destroyed = [];
        new_procs = [];
        errs = [];
      }

  unfoldable pub anonymous : Txn → Bool
  anonymous t = is_empty t.auth_user

  unfoldable pub add_error : Str → Txn → Txn
  add_error msg t = record t { errs = t.errs ++ (msg ∷ []) }

  abbrev pub found_or_new : Option lib.Ad → lib.Ad
  found_or_new none = lib.new
  found_or_new (some ad) = ad

  -- The ad that `stagedAd` returns; it is staged from then on.
  unfoldable pub staged_ad : Str → Txn → lib.Ad
  staged_ad key t = found_or_new (find key t.pending)

  unfoldable pub stage : Str → lib.Ad → Txn → Txn
  stage key ad t = record t { pending = put key ad t.pending }

  unfoldable pub set_allow_protected_changes : Bool → Txn → Txn × Bool
  set_allow_protected_changes v t = (record t { allow_protected = v }, t.allow_protected)

  -- Abort leaves nil maps; the transaction is dropped after it, so that they read as empty is all that
  -- shows.
  unfoldable pub abort : Txn → Txn
  abort t = record t { pending = []; destroyed = [] }
