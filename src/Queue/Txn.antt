-- ===== src/Queue/Txn.antt =====
-- internal/queue/txn.go: the staged operations of a transaction.
use golang_ap.Prelude.{
  ℤ, pos, negsuc, Bool, true, not, ◌&&◌, ◌||◌, Option, none, some, List, [], ◌∷◌, ◌++◌, ◌==ℤ◌, ◌+ℤ◌,
  ltb_ℤ, if◌then◌else◌,
}
use golang_ap.Text.{Str, str, str_eq, is_empty, member}
use golang_ap.Assoc.{find, drop}
use golang_ap.Key.{job_key, cluster_key}
use golang_ap.User.{short_name, qualify, is_unmapped}
use golang_ap.Queue.State.{World, Queue, same, owner_of, may_impersonate, alloc_cluster_id}
use golang_ap.Queue.TxnState.{Txn, Outcome, ok, denied, failed, anonymous, staged_ad, stage}
use golang_ap.Queue.Authz.{allow, ignore, deny, check_owner, committed_owner, authorize}

-- A Go set of strings without one of them.
unfoldable pub remove_name : Str → List Str → List Str
remove_name n [] = []
remove_name n (m ∷ ms) = let rest = remove_name n ms in if str_eq m n then rest else m ∷ rest

-- f with another value at one key.
unfoldable pub at_key : Str → List Str → (Str → List Str) → Str → List Str
at_key k v f j = if str_eq k j then v else f j

module _ (w : World) where
  open w use {fqu, lib, get, scan}

  become : Queue w → Str → Txn w → Txn w
  become q name t =
      let user = qualify fqu q.domain name in record t { user = user; owner = short_name fqu user }

  unfoldable pub set_effective_owner : Queue w → Str → Txn w → Txn w × Outcome
  unfolding become
  set_effective_owner q owner t =
      if is_empty owner
      then (t, ok)
      else if not (is_empty t.auth_user) && same w q owner t.auth_user
      then (become q t.auth_user t, ok)
      else if not t.is_super
      then (t, failed)
      else if is_empty (short_name fqu owner) || is_unmapped fqu owner
      then (t, failed)
      else if str_eq (short_name fqu owner) (str "root")
          || str_eq (short_name fqu owner) (str "LOCAL_SYSTEM")
      then (t, failed)
      else if not (may_impersonate w q owner)
      then (t, failed)
      else (become q owner t, ok)

  unfoldable pub opened : Txn w → Queue w × Option ℤ → Queue w × Txn w × (Outcome × ℤ)
  opened t (q, none) = (q, t, (failed, negsuc 0))
  opened t (q, some id) = (
    q,
    stage w (cluster_key id) (staged_ad w (cluster_key id) t)
        (record t { active = id; next_proc = λ c. if c ==ℤ id then pos 0 else t.next_proc c }),
    (ok, id),
  )

  unfoldable pub new_cluster : Queue w → Txn w → Queue w × Txn w × (Outcome × ℤ)
  unfolding opened
  new_cluster q t =
      if anonymous w t then (q, t, (denied, negsuc 0)) else opened t (alloc_cluster_id w q)

  unfoldable pub new_proc : ℤ → Txn w → Txn w × Outcome × ℤ
  new_proc cluster t =
      if anonymous w t
      then (t, denied, negsuc 0)
      else if not (cluster ==ℤ t.active)
      then (t, failed, negsuc 0)
      else let p = t.next_proc cluster in
        let key = job_key cluster p in
        (
          record (stage w key (staged_ad w key t) t) {
            next_proc = λ c. if c ==ℤ cluster then p +ℤ pos 1 else t.next_proc c;
            new_procs = t.new_procs ++ (key ∷ []);
          },
          ok,
          p,
        )

  store_raw : Str → Str → Txn w → Option lib.Ad → Txn w × Outcome
  store_raw key name t none = (stage w key (staged_ad w key t) t, failed)
  store_raw key name t (some ad) = (stage w key ad t, ok)

  -- The value as an expression, or as a string where it does not parse.
  store_value : Str → Str → Str → Txn w → Option lib.Expr → Txn w × Outcome
  unfolding store_raw
  store_value key name value t none =
      store_raw key name t (lib.set_string (staged_ad w key t) name value)
  store_value key name value t (some expr) = (
    record (stage w key (lib.insert_expr (staged_ad w key t) name expr) t) {
      del_attrs = at_key key (remove_name name (t.del_attrs key)) t.del_attrs;
    },
    ok,
  )

  unfoldable pub set_attribute : Queue w → ℤ → ℤ → Str → Str → Txn w → Txn w × Outcome
  unfolding store_value
  set_attribute q c p name value t =
      if is_empty value then (t, failed) else elim (authorize w q t c p name) [
        | deny ↦ (t, denied)
        | ignore ↦ (t, ok)
        | allow ↦ store_value (job_key c p) name value t (lib.parse_expr value)
      ]

  delete_staged : Str → Str → Txn w → Txn w
  delete_staged key name t = elim (find key t.pending) [
    | none ↦ t
    | some ad ↦ stage w key (lib.delete ad name) t
  ]

  unfoldable pub delete_attribute : Queue w → ℤ → ℤ → Str → Txn w → Txn w × Outcome
  unfolding delete_staged
  delete_attribute q c p name t = elim (authorize w q t c p name) [
    | deny ↦ (t, denied)
    | ignore ↦ (t, ok)
    | allow ↦
        let key = job_key c p in
        (
          record (delete_staged key name t) {
            del_attrs = at_key key (name ∷ t.del_attrs key) t.del_attrs;
          },
          ok,
        )
  ]

  may_destroy : Queue w → Txn w → Option Str → Bool
  may_destroy q t none = true
  may_destroy q t (some owner) = check_owner w q t q.authz owner

  unfoldable pub destroy_proc : Queue w → ℤ → ℤ → Txn w → Txn w × Outcome
  unfolding may_destroy
  destroy_proc q c p t =
      if anonymous w t
      then (t, denied)
      else if not (may_destroy q t (committed_owner w q c p))
      then (t, denied)
      else (
        record t { destroyed = job_key c p ∷ t.destroyed; pending = drop (job_key c p) t.pending },
        ok,
      )

  abbrev ids_of_ad : Option ℤ → Option ℤ → Option (ℤ × ℤ)
  ids_of_ad (some c) (some p) = some (c, p)
  ids_of_ad _ _ = none

  unfoldable pub job_ids : lib.Ad → Option (ℤ × ℤ)
  job_ids ad = ids_of_ad (lib.eval_int ad (str "ClusterId")) (lib.eval_int ad (str "ProcId"))

  -- The scan of DestroyCluster: the procs of the cluster, or none if one is not the caller's.
  unfoldable pub procs_of_cluster : Queue w → Txn w → ℤ → List lib.Ad → Option (List ℤ)
  procs_of_cluster q t c [] = some []
  procs_of_cluster q t c (ad ∷ ads) =
      let rest = procs_of_cluster q t c ads in
      elim (job_ids ad) [
        | none ↦ rest
        | some (cc, p) ↦
            if not (cc ==ℤ c)
            then rest
            else if not (check_owner w q t q.authz (owner_of w q ad))
            then none
            else elim rest [ none ↦ none | some ps ↦ some (p ∷ ps) ]
      ]

  proc_keys : ℤ → List ℤ → List Str
  proc_keys c [] = []
  proc_keys c (p ∷ ps) = job_key c p ∷ proc_keys c ps

  unfoldable pub destroy_cluster : Queue w → ℤ → Txn w → Txn w × Outcome
  unfolding may_destroy proc_keys
  destroy_cluster q c t =
      if anonymous w t
      then (t, denied)
      else if not (may_destroy q t (committed_owner w q c (negsuc 0)))
      then (t, denied)
      else elim (procs_of_cluster q t c (scan q.coll)) [
        | none ↦ (t, denied)
        | some ps ↦ (
          record t {
            destroyed = proc_keys c ps ++ (cluster_key c ∷ t.destroyed);
            pending = drop (cluster_key c) t.pending;
          },
          ok,
        )
      ]

  attr_of : Option lib.Ad → Str → Option Str
  attr_of none name = none
  attr_of (some ad) name = elim (lib.lookup ad name) [
    | none ↦ none
    | some e ↦ some (lib.expr_text e)
  ]

  -- The first of two answers.
  abbrev or_else : Option Str → Option Str → Option Str
  or_else none r = r
  or_else (some s) r = some s

  unfoldable pub get_attribute : Queue w → Txn w → ℤ → ℤ → Str → Option Str
  unfolding attr_of
  get_attribute q t c p name =
      let key = job_key c p in
      if member name (t.del_attrs key)
      then none
      else or_else (attr_of (find key t.pending) name) (
          or_else (if ltb_ℤ p (pos 0) then none else attr_of (find (cluster_key c) t.pending) name)
            (attr_of (get q.coll key) name))

  -- The loop of GetJobAd over the staged attributes.
  overlay : lib.Ad → List Str → lib.Ad → lib.Ad
  overlay staged [] base = base
  overlay staged (n ∷ ns) base =
      overlay staged ns
        (elim (lib.lookup staged n) [ none ↦ base | some e ↦ lib.insert_expr base n e ])

  merged : Option lib.Ad → Option lib.Ad → Option lib.Ad
  unfolding overlay
  merged base none = base
  merged none (some staged) = some (overlay staged (lib.attributes staged) lib.new)
  merged (some base) (some staged) = some (overlay staged (lib.attributes staged) base)

  unfoldable pub get_job_ad : Queue w → Txn w → ℤ → ℤ → Option lib.Ad
  unfolding merged
  get_job_ad q t c p = merged (get q.coll (job_key c p)) (find (job_key c p) t.pending)
