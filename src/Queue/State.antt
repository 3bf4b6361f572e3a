-- ===== src/Queue/State.antt =====
-- internal/queue/queue.go: what the queue holds, and the libraries below it as parameters: the
-- collection and the archive of github.com/PelicanPlatform/classad/collections.
use golang_ap.Prelude.{
  ℤ, pos, Bool, false, ◌||◌, Option, none, some, List, [], ◌∷◌, ◌++◌, ◌≡◌, ◌==ℤ◌, ◌+ℤ◌,
  if◌then◌else◌,
}
use golang_ap.Text.{Str, str, itoa}
use golang_ap.ClassAd.{ClassAdLib}
use golang_ap.User.{Fqu, short_name, qualify, same_user, job_user}
use golang_ap.User
use golang_ap.Queue.AuthzConfig.{Options, AuthzConfig, build_authz_config}

pub record World : Type 1 where
  pub fqu : Fqu
  pub lib : ClassAdLib
  -- Collection: Get merges the parent's attributes in; Put and Update may fail.
  pub Coll : Type 0
  pub get : Coll → Str → Option lib.Ad
  pub put : Coll → Str → lib.Ad → Option Coll
  pub update : Coll → List (Str × lib.Ad) → Option Coll
  pub remove : Coll → Str → Coll
  pub scan : Coll → List lib.Ad
  -- Archive: Append and Flush, whose errors the sources drop
  pub Hist : Type 0
  pub append : Hist → lib.Ad → Hist
  -- vm.Parse of `User == "…"`, and the ads of either store that it selects
  pub parse_user_query : Str → Bool
  pub query_user : Coll → Str → List lib.Ad
  pub query_hist_user : Hist → Str → List lib.Ad
  -- the ads that `ClusterId == c` selects; none where the query does not parse
  pub query_cluster : Coll → ℤ → Option (List lib.Ad)

-- Put makes the ad's own attributes visible under its key; Remove makes its key absent.
pub record StoreLaws (w : World) : Type 0 where
  pub get-put :
      (coll coll' : w.Coll) (k : Str) (ad : w.lib.Ad)
      → w.put coll k ad ≡ some coll'
      → (flat : w.lib.Ad) × (w.get coll' k ≡ some flat)
        × ((n : Str) (e : w.lib.Expr) → w.lib.lookup ad n ≡ some e → w.lib.lookup flat n ≡ some e)
  pub get-remove : (coll : w.Coll) (k : Str) → w.get (w.remove coll k) k ≡ none

module _ (w : World) where
  open w use {fqu, lib, Coll, get, query_user, query_hist_user, parse_user_query, Hist}
  open lib use {Ad}

  -- A call of the `UserLogger` interface.
  pub data LogEvent : Type 0 where
    submit : Ad → LogEvent
    held : Ad → Str → ℤ → ℤ → LogEvent
    released : Ad → Str → LogEvent
    aborted : Ad → Str → LogEvent

  -- `log` is none for a nil ulog, and the calls made otherwise. The locks, and the callback that
  -- wakes the materialization engine, are left out.
  pub record Queue : Type 0 where
    pub coll : Coll
    pub hist : Hist
    pub name : Str
    pub domain : Str
    pub supers : List Str
    pub authz : AuthzConfig
    pub next_id : ℤ
    pub factories : List ℤ
    pub log : Option (List LogEvent)

  unfoldable pub write_log : LogEvent → Queue → Queue
  write_log ev q = elim q.log [ none ↦ q | some evs ↦ record q { log = some (evs ++ (ev ∷ [])) } ]

  unfoldable pub is_super : Queue → Str → Bool
  is_super q user = User.is_super_user fqu q.domain q.supers user

  unfoldable pub same : Queue → Str → Str → Bool
  same q a b = same_user fqu q.domain a b

  unfoldable pub owner_of : Queue → Ad → Str
  owner_of q ad = job_user fqu q.domain lib ad

  any_owned : Queue → Str → List Ad → Bool
  unfolding same owner_of
  any_owned q user [] = false
  any_owned q user (ad ∷ ads) = same q user (owner_of q ad) || any_owned q user ads

  unfoldable pub known_user : Queue → Str → Bool
  unfolding any_owned
  known_user q user =
      if parse_user_query user
      then any_owned q user (query_user q.coll user)
        || any_owned q user (query_hist_user q.hist user)
      else false

  unfoldable pub may_impersonate : Queue → Str → Bool
  unfolding known_user
  may_impersonate q owner = elim q.authz.may_impersonate [
    | some match ↦ match (short_name fqu owner)
    | none ↦ known_user q (qualify fqu q.domain owner)
  ]

  unfoldable pub set_authz : Options → Queue → Queue
  set_authz opts q = record q {
    supers = User.build_supers fqu q.domain opts.super_users;
    authz = build_authz_config opts;
  }

  -- "<ScheddName>#<c>.<p>#<QDate>"
  unfoldable pub global_job_id : Queue → ℤ → ℤ → ℤ → Str
  global_job_id q c p qdate =
      q.name ++ (str "#" ++ (itoa c ++ (str "." ++ (itoa p ++ (str "#" ++ itoa qdate)))))

  -- `map[int]bool` of the factory clusters.
  unfoldable pub member_id : ℤ → List ℤ → Bool
  member_id c [] = false
  member_id c (d ∷ ds) = (d ==ℤ c) || member_id c ds

  unfoldable pub drop_id : ℤ → List ℤ → List ℤ
  drop_id c [] = []
  drop_id c (d ∷ ds) = let rest = drop_id c ds in if d ==ℤ c then rest else d ∷ rest

  unfoldable pub note_factory : ℤ → Queue → Queue
  note_factory c q =
      if member_id c q.factories then q else record q { factories = q.factories ++ (c ∷ []) }

  unfoldable pub unnote_factory : ℤ → Queue → Queue
  unnote_factory c q = record q { factories = drop_id c q.factories }

  -- The counter is persisted before the id is handed out; a failed write takes the advance back.
  unfoldable pub alloc_cluster_id : Queue → Queue × Option ℤ
  alloc_cluster_id q =
      let ad =
        lib.insert_expr lib.new (str "NextClusterId") (lib.int_literal (q.next_id +ℤ pos 1)) in
      elim (w.put q.coll (str "counter") ad) [
        | none ↦ (q, none)
        | some coll ↦ (record q { coll = coll; next_id = q.next_id +ℤ pos 1 }, some q.next_id)
      ]
