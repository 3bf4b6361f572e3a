-- ===== src/Queue/Authz.antt =====
-- internal/queue/authz.go: who may change which attribute of which job.
use golang_ap.Prelude.{
  ℤ, pos, negsuc, Bool, true, false, not, ◌&&◌, ◌||◌, Option, none, some, ltb_ℤ, if◌then◌else◌,
}
use golang_ap.Text.{Str, str, is_empty, to_lower, member}
use golang_ap.Key.{job_key}
use golang_ap.Queue.AuthzConfig.{AuthzConfig}
use golang_ap.Queue.State.{World, Queue, same, owner_of}
use golang_ap.Queue.TxnState.{Txn, anonymous}

-- The two results of `authorize`: (false, nil), (true, nil), and a permission error.
pub data Verdict : Type 0 where
  allow ignore deny : Verdict

module _ (w : World) where
  open w use {lib, get}

  unfoldable pub check_owner : Queue w → Txn w → AuthzConfig → Str → Bool
  check_owner q t az owner =
      if az.all_users_trusted || t.is_super
      then true
      else if not (is_empty owner) && not (same w q t.auth_user owner)
      then false
      else true

  inherited_owner : Queue w → ℤ → Str
  inherited_owner q c = elim (get q.coll (job_key c (negsuc 0))) [
    | none ↦ str ""
    | some cad ↦ owner_of w q cad
  ]

  owner_of_ad : Queue w → ℤ → ℤ → lib.Ad → Str
  unfolding inherited_owner
  owner_of_ad q c p ad =
      if not (is_empty (owner_of w q ad))
      then owner_of w q ad
      else if ltb_ℤ p (pos 0)
      then str ""
      else inherited_owner q c

  -- none is (_, false): no ad of this key is in the live queue.
  unfoldable pub committed_owner : Queue w → ℤ → ℤ → Option Str
  unfolding owner_of_ad
  committed_owner q c p = elim (get q.coll (job_key c p)) [
    | none ↦ none
    | some ad ↦ some (owner_of_ad q c p ad)
  ]

  -- The checks of a committed job.
  unfoldable pub authorize_committed : Queue w → Txn w → AuthzConfig → Str → Str → Verdict
  authorize_committed q t az lname owner =
      if not (check_owner q t az owner)
      then deny
      else if member lname az.immutable
      then deny
      else if member lname az.protected
          && ((not t.is_super && not az.all_users_trusted) || not t.allow_protected)
      then deny
      else allow

  authorize_owned : Queue w → Txn w → AuthzConfig → Str → Option Str → Verdict
  unfolding authorize_committed
  authorize_owned q t az lname none = allow
  authorize_owned q t az lname (some owner) = authorize_committed q t az lname owner

  unfoldable pub authorize : Queue w → Txn w → ℤ → ℤ → Str → Verdict
  unfolding authorize_owned
  authorize q t c p name =
      if anonymous w t
      then deny
      else if member (to_lower name) q.authz.secure
      then (if q.authz.ignore_secure then ignore else deny)
      else authorize_owned q t q.authz (to_lower name) (committed_owner q c p)
