-- ===== src/Queue/Sample.antt =====
-- A small store for the queue, which meets its laws, and a queue with two committed jobs of bo@cs.
use golang_ap.Prelude.{
  pos, true, false, none, some, List, [], ◌∷◌, ◌≡◌, sym, ap, ◌∙◌, if◌then◌else◌, map,
}
use golang_ap.Text.{Str, str, str_eq_refl}
use golang_ap.ClassAd.Sample.{int, string, SampleAd, sample, ad_of}
use golang_ap.Assoc.{find, put, drop, find-put, find-drop}
use golang_ap.User.Sample.{sample_fqu}
use golang_ap.Queue.AuthzConfig.{Options, build_authz_config}
use golang_ap.Queue.State.{World, StoreLaws, Queue}
use golang_ap.Queue.TxnState.{Txn, begin}

unfoldable pub put_all : List (Str × SampleAd) → List (Str × SampleAd) → List (Str × SampleAd)
put_all [] coll = coll
put_all ((k, ad) ∷ rest) coll = put_all rest (put k ad coll)

-- The stores are lists and no write fails.
abbrev pub sample_world : World
sample_world = record {
  fqu = sample_fqu;
  lib = sample;
  Coll = List (Str × SampleAd);
  get = λ coll k. find k coll;
  put = λ coll k ad. some (put k ad coll);
  update = λ coll batch. some (put_all batch coll);
  remove = λ coll k. drop k coll;
  scan = λ coll. map (λ e. e.1) coll;
  Hist = List SampleAd;
  append = λ hist ad. ad ∷ hist;
  parse_user_query = λ user. true;
  query_user = λ coll user. [];
  query_hist_user = λ hist user. [];
  query_cluster = λ coll c. none;
}

some_inj {ℓ} : {A : Type ℓ} {x y : A} → some x ≡ some y → x ≡ y
some_inj h = cc

found :
    (coll coll' : List (Str × SampleAd)) (k : Str) (ad : SampleAd)
    → some (put k ad coll) ≡ some coll'
    → find k coll' ≡ some ad
found coll coll' k ad h =
    ap (find k) (sym (some_inj h))
    ∙ find-put k k ad coll
    ∙ ap (λ b. if b then some ad else find k coll) (str_eq_refl k)

pub sample_world-StoreLaws : StoreLaws sample_world
sample_world-StoreLaws = record {
  get-put = λ coll coll' k ad h. (ad, found coll coll' k ad h, λ n e g. g);
  get-remove =
      λ coll k. find-drop k k coll ∙ ap (λ b. if b then none else find k coll) (str_eq_refl k);
}

abbrev pub held_job : SampleAd
held_job = ad_of (
    (str "ClusterId", int (pos 1))
    ∷ (str "ProcId", int (pos 0))
    ∷ (str "User", string (str "bo@cs"))
    ∷ (str "JobStatus", int (pos 5))
    ∷ (str "HoldReasonCode", int (pos 3))
    ∷ [])

abbrev pub running_job : SampleAd
running_job = ad_of (
    (str "ClusterId", int (pos 1))
    ∷ (str "ProcId", int (pos 1))
    ∷ (str "User", string (str "bo@cs"))
    ∷ (str "JobStatus", int (pos 2))
    ∷ (str "RemoteHost", string (str "slot1@node"))
    ∷ [])

abbrev pub no_options : Options
no_options = record {
  super_users = str "root" ∷ [];
  may_impersonate = none;
  immutable_attrs = [];
  protected_attrs = str "JobPrio" ∷ [];
  secure_attrs = [];
  all_users_trusted = false;
  ignore_secure_attrs = false;
}

abbrev pub sample_queue : Queue sample_world
sample_queue = record {
  coll = (str "1.0", held_job) ∷ (str "1.1", running_job) ∷ [];
  hist = [];
  name = str "schedd";
  domain = str "cs";
  supers = str "root@cs" ∷ [];
  authz = build_authz_config no_options;
  next_id = pos 2;
  factories = [];
  log = some [];
}

-- The transactions of the owner and of another user.
abbrev pub owner_txn : Txn sample_world
owner_txn = begin sample_world sample_queue (str "bo@cs")

abbrev pub other_txn : Txn sample_world
other_txn = begin sample_world sample_queue (str "al@cs")
