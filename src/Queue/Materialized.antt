-- ===== src/Queue/Materialized.antt =====
-- The attributes that materialize of internal/queue/txn.go forces onto an ad.
use golang_ap.Prelude.{
  ℤ, pos, true, false, Option, none, some, ◌≡◌, ◌≢◌, inl, inr, sym, subst, ◌∙◌, arith, ltb_ℤ,
  if◌then◌else◌, Bool-cases,
}
use golang_ap.Text.{Str, str, equal_fold}
use golang_ap.ClassAd.{ClassAdLaws}
use golang_ap.Key.{parse_job_key}
use golang_ap.Queue.State.{World, Queue}
use golang_ap.Queue.TxnState.{Txn}
use golang_ap.Queue.Commit.{
  status_idle, set_int, insert_string, default_int, materialize, materialize_proc,
  materialize_cluster,
}

module _ (w : World) where
  open w use {lib}

  abbrev pub kept_or : Option lib.Expr → lib.Expr → Option lib.Expr
  kept_or none e = some e
  kept_or (some d) e = some d

  has_status : (o : Option lib.Expr) (e : lib.Expr) → kept_or o e ≡ none → ⊥
  has_status none e h = cc
  has_status (some d) e h = cc

  -- The forced attributes of the ad of job c.p, which the client staged as `staged`.
  abbrev pub IsForced : Str → Str → ℤ → ℤ → lib.Ad → Type 0
  IsForced owner user c p ad =
      (lib.lookup ad (str "Owner") ≡ some (lib.string_literal owner))
      × (lib.lookup ad (str "User") ≡ some (lib.string_literal user))
      × (lib.lookup ad (str "ClusterId") ≡ some (lib.int_literal c))
      × (lib.lookup ad (str "MyType") ≡ some (lib.string_literal (str "Job")))
      × (ltb_ℤ p (pos 0) ≡ false
          → (lib.lookup ad (str "ProcId") ≡ some (lib.int_literal p))
            × (lib.lookup ad (str "JobStatus") ≢ none))

  -- The entries of a batch whose key is a job's are forced.
  abbrev pub IsForcedEntry : Str → Str → Str × lib.Ad → Type 0
  IsForcedEntry owner user (key, ad) =
      (c : ℤ) × (p : ℤ) × (parse_job_key key ≡ some (c, p)) × IsForced owner user c p ad

  module _ (laws : ClassAdLaws lib) where
    pub lookup-set_int :
        (ad : lib.Ad) (n m : Str) (v : ℤ)
        → lib.lookup (set_int w n v ad) m
          ≡ (if equal_fold n m then some (lib.int_literal v) else lib.lookup ad m)
    unfolding set_int
    lookup-set_int ad n m v = laws.lookup-insert_expr ad n m (lib.int_literal v)

    pub lookup-insert_string :
        (ad : lib.Ad) (n m s : Str)
        → lib.lookup (insert_string w n s ad) m
          ≡ (if equal_fold n m then some (lib.string_literal s) else lib.lookup ad m)
    unfolding insert_string
    lookup-insert_string ad n m s = laws.lookup-insert_expr ad n m (lib.string_literal s)

    pub lookup-default_other :
        (ad : lib.Ad) (n m : Str) (v : ℤ)
        → equal_fold n m ≡ false
        → lib.lookup (default_int w n v ad) m ≡ lib.lookup ad m
    unfolding default_int
    lookup-default_other ad n m v h = ground (arith, lookup-set_int ad n m v)

    lookup-default_self :
        (ad : lib.Ad) (n : Str) (v : ℤ)
        → equal_fold n n ≡ true
        → lib.lookup (default_int w n v ad) n ≡ kept_or (lib.lookup ad n) (lib.int_literal v)
    unfolding default_int
    lookup-default_self ad n v h = ground (arith, lookup-set_int ad n n v)

    pub materialize_proc_status :
        (q : Queue w) (t : Txn w) (c p now : ℤ) (ad : lib.Ad)
        → lib.lookup (materialize_proc w q t c p now ad) (str "JobStatus")
          ≡ kept_or (lib.lookup ad (str "JobStatus")) (lib.int_literal status_idle)
    unfolding materialize_proc equal_fold str
    materialize_proc_status q t c p now ad =
        simp (lookup-set_int, lookup-insert_string, lookup-default_other, lookup-default_self)

    pub proc-IsForced :
        (q : Queue w) (t : Txn w) (c p now : ℤ) (ad : lib.Ad)
        → IsForced t.owner t.user c p (materialize_proc w q t c p now ad)
    unfolding materialize_proc equal_fold str
    proc-IsForced q t c p now ad = (
      simp (lookup-insert_string, lookup-default_other),
      simp (lookup-insert_string, lookup-default_other),
      simp (lookup-set_int, lookup-insert_string, lookup-default_other),
      simp lookup-insert_string,
      λ h. (
        simp (lookup-set_int, lookup-insert_string, lookup-default_other),
        λ e.
            has_status (lib.lookup ad (str "JobStatus")) (lib.int_literal status_idle)
              (sym (materialize_proc_status q t c p now ad) ∙ e),
      ),
    )

    cluster-IsForced :
        (t : Txn w) (c p : ℤ) (ad : lib.Ad)
        → ltb_ℤ p (pos 0) ≡ true
        → IsForced t.owner t.user c p (materialize_cluster w t c ad)
    unfolding materialize_cluster equal_fold str
    cluster-IsForced t c p ad h = (
      simp (lookup-insert_string, lookup-default_other),
      simp (lookup-insert_string, lookup-default_other),
      simp (lookup-set_int, lookup-insert_string, lookup-default_other),
      simp lookup-insert_string,
      λ g. cc,
    )

    pub materialize-IsForced :
        (q : Queue w) (t : Txn w) (c p now : ℤ) (ad : lib.Ad)
        → IsForced t.owner t.user c p (materialize w q t c p now ad)
    unfolding materialize
    materialize-IsForced q t c p now ad = elim (Bool-cases (ltb_ℤ p (pos 0))) [
      | inl e ↦ subst (IsForced t.owner t.user c p) (as_cluster e) (cluster-IsForced t c p ad e)
      | inr e ↦ subst (IsForced t.owner t.user c p) (as_proc e) (proc-IsForced q t c p now ad)
    ]
      where
        as_cluster :
            ltb_ℤ p (pos 0) ≡ true → materialize_cluster w t c ad ≡ materialize w q t c p now ad
        as_cluster e = rw e

        as_proc :
            ltb_ℤ p (pos 0) ≡ false
            → materialize_proc w q t c p now ad ≡ materialize w q t c p now ad
        as_proc e = rw e
