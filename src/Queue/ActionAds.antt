-- ===== src/Queue/ActionAds.antt =====
-- The ads that the queue actions of internal/queue/actions.go store.
use golang_ap.Prelude.{
  ℤ, false, none, some, ◌≡◌, inl, inr, ap, ◌∙◌, arith, ◌==ℤ◌, Option-cases, Bool-cases,
}
use golang_ap.Text.{Str, str, is_empty, equal_fold}
use golang_ap.ClassAd.{ClassAdLaws}
use golang_ap.Key.{job_key}
use golang_ap.Queue.State.{World, StoreLaws, Queue, LogEvent, write_log}
use golang_ap.Queue.Materialized.{lookup-set_int, lookup-insert_string}
use golang_ap.Queue.Actions.{
  ar_success, ActionRequest, status_running, status_removed, status_held, hold_code, held_ad,
  leave_host, released_ad, release_status, removed_ad, strip_run_attrs, store,
}

coll-write_log : (w : World) (ev : LogEvent w) (q : Queue w) → (write_log w ev q).coll ≡ q.coll
unfolding write_log
coll-write_log w ev q = ground arith

module _ (w : World) (store_laws : StoreLaws w) where
  -- What a store that succeeded put under the job's key.
  abbrev pub Visible : Queue w → ℤ → ℤ → w.lib.Ad → Type 0
  Visible q c p ad =
      (flat : w.lib.Ad) × (w.get q.coll (job_key c p) ≡ some flat)
      × ((n : Str) (e : w.lib.Expr) → w.lib.lookup ad n ≡ some e → w.lib.lookup flat n ≡ some e)

  pub store-Visible :
      (q : Queue w) (c p : ℤ) (ad : w.lib.Ad) (ev : LogEvent w)
      → (store w q c p ad ev).1 ≡ ar_success
      → Visible (store w q c p ad ev).0 c p ad
  unfolding store
  store-Visible q c p ad ev h = elim (Option-cases (w.put q.coll (job_key c p) ad)) [
    | inl e ↦ absurd (ground arith)
    | inr (coll, e) ↦
        let (flat, g, own) = store_laws.get-put q.coll coll (job_key c p) ad e in
        (flat, ap (λ k. w.get k (job_key c p)) (kept coll e) ∙ g, own)
  ]
    where
      kept :
          (coll : w.Coll)
          → w.put q.coll (job_key c p) ad ≡ some coll
          → (store w q c p ad ev).0.coll ≡ coll
      kept coll e = unfold store in ground (arith, coll-write_log w ev (record q { coll = coll }))

module _ (w : World) (laws : ClassAdLaws w.lib) where
  open w use {lib}

  -- leave_host touches only the attributes of a running job.
  leave_host_other :
      (ad : lib.Ad) (m : Str)
      → equal_fold (str "LastRemoteHost") m ≡ false
      → equal_fold (str "RemoteHost") m ≡ false
      → equal_fold (str "ClaimId") m ≡ false
      → equal_fold (str "StartdIpAddr") m ≡ false
      → equal_fold (str "LastJobLeaseRenewal") m ≡ false
      → lib.lookup (leave_host w ad) m ≡ lib.lookup ad m
  unfolding leave_host strip_run_attrs
  leave_host_other ad m h1 h2 h3 h4 h5 =
      elim (Option-cases (lib.eval_string ad (str "RemoteHost"))) [
        | inl e ↦ simp (e, h2, h3, h4, h5, laws.lookup-delete)
        | inr (host, e) ↦ elim (Bool-cases (is_empty host)) [
          | inl b ↦ simp (e, b, h2, h3, h4, h5, laws.lookup-delete)
          | inr b ↦ simp (e, b, h1, h2, h3, h4, h5, laws.lookup-delete, lookup-insert_string w laws)
        ]
      ]

  pub held_ad_status :
      (req : ActionRequest) (status now : ℤ) (ad : lib.Ad)
      → (lib.lookup (held_ad w req status now ad) (str "JobStatus")
          ≡ some (lib.int_literal status_held))
        × (lib.lookup (held_ad w req status now ad) (str "HoldReasonCode")
            ≡ some (lib.int_literal (hold_code w req)))
        × (lib.lookup (held_ad w req status now ad) (str "LastJobStatus")
            ≡ some (lib.int_literal status))
  unfolding held_ad equal_fold str
  held_ad_status req status now ad = elim (Bool-cases (status ==ℤ status_running)) [
    | inl e ↦ (
      simp (e, lookup-set_int w laws, lookup-insert_string w laws, leave_host_other),
      simp (lookup-set_int w laws),
      simp (e, lookup-set_int w laws, lookup-insert_string w laws, leave_host_other),
    )
    | inr e ↦ (
      simp (e, lookup-set_int w laws, lookup-insert_string w laws),
      simp (lookup-set_int w laws),
      simp (e, lookup-set_int w laws, lookup-insert_string w laws),
    )
  ]

  pub released_ad_status :
      (req : ActionRequest) (now : ℤ) (ad : lib.Ad)
      → (lib.lookup (released_ad w req now ad) (str "JobStatus")
          ≡ some (lib.int_literal (release_status w (lib.eval_int ad (str "JobStatusOnRelease")))))
        × (lib.lookup (released_ad w req now ad) (str "HoldReason") ≡ none)
        × (lib.lookup (released_ad w req now ad) (str "HoldReasonCode") ≡ none)
  unfolding released_ad equal_fold str
  released_ad_status req now ad = elim (Bool-cases (is_empty req.reason)) [
    | inl e ↦ (
      simp (e, lookup-set_int w laws, laws.lookup-delete),
      simp (e, laws.lookup-delete),
      simp (e, laws.lookup-delete),
    )
    | inr e ↦ (
      simp (e, lookup-set_int w laws, lookup-insert_string w laws, laws.lookup-delete),
      simp (e, lookup-insert_string w laws, laws.lookup-delete),
      simp (e, lookup-insert_string w laws, laws.lookup-delete),
    )
  ]

  pub removed_ad_status :
      (req : ActionRequest) (status now : ℤ) (ad : lib.Ad)
      → (lib.lookup (removed_ad w req status now ad) (str "JobStatus")
          ≡ some (lib.int_literal status_removed))
        × (lib.lookup (removed_ad w req status now ad) (str "LastJobStatus")
            ≡ some (lib.int_literal status))
  unfolding removed_ad equal_fold str
  removed_ad_status req status now ad = elim (Bool-cases (is_empty req.reason)) [
    | inl e ↦ (simp (e, lookup-set_int w laws), simp (e, lookup-set_int w laws))
    | inr e ↦ (
      simp (e, lookup-set_int w laws, lookup-insert_string w laws),
      simp (e, lookup-set_int w laws, lookup-insert_string w laws),
    )
  ]
