-- ===== src/Queue/FactoryLaws.antt =====
-- What the factory operations of internal/queue/factory.go write, keep and count.
use golang_ap.Prelude.{
  ℕ, ◌+◌, ℤ, pos, negsuc, Bool, true, false, not, ◌&&◌, ◌||◌, Option, none, some, List, [], ◌∷◌,
  ◌≡◌, ◌≢◌, ◌⊎◌, inl, inr, sym, ◌∙◌, arith, ◌==ℤ◌, ==ℤ_iff, length, if◌then◌else◌, Option-cases,
  Bool-cases,
}
use golang_ap.Text.{str, equal_fold}
use golang_ap.ClassAd.{ClassAdLaws}
use golang_ap.Key.{job_key}
use golang_ap.Queue.State.{World, Queue, member_id, drop_id, write_log}
use golang_ap.Queue.TxnState.{ok, failed}
use golang_ap.Queue.Commit.{status_idle}
use golang_ap.Queue.Actions.{status_running, status_held}
use golang_ap.Queue.Materialized.{lookup-set_int, lookup-insert_string, lookup-default_other}
use golang_ap.Queue.Factory.{
  attr_next_proc_id, attr_next_row, attr_paused, int_attr_or, tally, tally_all, of_cluster,
  cluster_status_counts, late_proc_ad, advanced_cluster, late_batch, log_late, materialize_late,
}

true-false : true ≡ false → ⊥
true-false h = cc

-- How many jobs a test of their status selects.
module _ (w : World) where
  unfoldable pub count_status : (ℤ → Bool) → List w.lib.Ad → ℕ
  count_status test [] = 0
  count_status test (ad ∷ ads) =
      let rest = count_status test ads in
      if test (int_attr_or w ad (str "JobStatus") (pos 0)) then rest + 1 else rest

  abbrev pub is_active : ℤ → Bool
  is_active st = (st ==ℤ status_running) || ((st ==ℤ pos 6) || (st ==ℤ pos 7))

  tally_from :
      (ads : List w.lib.Ad) (a b c d : ℕ)
      → tally_all w ads (record { total = pos a; idle = pos b; running = pos c; held = pos d })
        ≡ record {
          total = pos (a + length ads);
          idle = pos (b + count_status (λ st. st ==ℤ status_idle) ads);
          running = pos (c + count_status is_active ads);
          held = pos (d + count_status (λ st. st ==ℤ status_held) ads);
        }
  unfolding tally_all tally count_status
  tally_from [] a b c d = ground arith
  tally_from (ad ∷ ads) a b c d = ground (
    arith,
    tally_from ads (a + 1) (b + 1) c d,
    tally_from ads (a + 1) b (c + 1) d,
    tally_from ads (a + 1) b c (d + 1),
    tally_from ads (a + 1) b c d,
  )

  pub drop_id-member :
      (c d : ℤ) (ids : List ℤ)
      → member_id w d (drop_id w c ids) ≡ (not (c ==ℤ d) && member_id w d ids)
  unfolding member_id drop_id
  drop_id-member c d [] = ground arith
  drop_id-member c d (i ∷ ids) =
      ground (arith, drop_id-member c d ids, ==ℤ_iff i c, ==ℤ_iff i d, ==ℤ_iff c d)

  -- The counts of a cluster are over the ads that the query selects, or where it does not parse over the
  -- queue's ads of that ClusterId: all of them, those Idle, those Running, TransferringOutput or
  -- Suspended, and those Held.
  pub cluster_status_counts-tally :
      (coll : w.Coll) (c : ℤ) (ads : List w.lib.Ad)
      → (w.query_cluster coll c ≡ some ads)
        ⊎ ((w.query_cluster coll c ≡ none) × (of_cluster w c (w.scan coll) ≡ ads))
      → cluster_status_counts w coll c ≡ record {
        total = pos (length ads);
        idle = pos (count_status (λ st. st ==ℤ status_idle) ads);
        running = pos (count_status is_active ads);
        held = pos (count_status (λ st. st ==ℤ status_held) ads);
      }
  unfolding cluster_status_counts
  cluster_status_counts-tally coll c ads (inl h) = ground (arith, tally_from ads 0 0 0 0)
  cluster_status_counts-tally coll c ads (inr h) = ground (arith, tally_from ads 0 0 0 0)

  coll-log_late : (c proc : ℤ) (q : Queue w) → (log_late w c proc q).coll ≡ q.coll
  unfolding log_late write_log
  coll-log_late c proc q = ground arith

  module _ (laws : ClassAdLaws w.lib) where
    open w use {lib}

    late_proc_forced :
        (q : Queue w) (c proc now : ℤ) (override : Option lib.Ad)
        → (lib.lookup (late_proc_ad w q c proc now override) (str "ClusterId")
            ≡ some (lib.int_literal c))
          × (lib.lookup (late_proc_ad w q c proc now override) (str "ProcId")
              ≡ some (lib.int_literal proc))
    unfolding late_proc_ad equal_fold str
    late_proc_forced q c proc now override = (
      simp (lookup-set_int w laws, lookup-insert_string w laws, lookup-default_other w laws),
      simp (lookup-set_int w laws, lookup-insert_string w laws, lookup-default_other w laws),
    )

    -- Where the bookkeeping of the cluster ad stands afterwards.
    abbrev pub IsAdvanced : ℤ → ℤ → ℤ → lib.Ad → lib.Ad → Type 0
    IsAdvanced next_proc_id next_row paused before after =
        (lib.eval_int after attr_next_proc_id ≡ some next_proc_id)
        × (lib.eval_int after attr_next_row ≡ some next_row)
        × (paused ≢ pos 0 → lib.eval_int after attr_paused ≡ some paused)
        × (paused ≡ pos 0 → lib.lookup after attr_paused ≡ lib.lookup before attr_paused)

    advanced_cluster-IsAdvanced :
        (next_proc_id next_row paused : ℤ) (cluster : lib.Ad)
        → IsAdvanced next_proc_id next_row paused cluster
            (advanced_cluster w next_proc_id next_row paused cluster)
    unfolding advanced_cluster equal_fold str
    advanced_cluster-IsAdvanced next_proc_id next_row paused cluster =
        elim (Bool-cases (paused ==ℤ pos 0)) [
          | inl e ↦ (
            laws.eval_int-literal _ attr_next_proc_id next_proc_id
                (simp (e, lookup-set_int w laws)),
            laws.eval_int-literal _ attr_next_row next_row (simp (e, lookup-set_int w laws)),
            λ h. absurd (h ((==ℤ_iff paused (pos 0)).0 e)),
            λ h. simp (e, lookup-set_int w laws),
          )
          | inr e ↦ (
            laws.eval_int-literal _ attr_next_proc_id next_proc_id
                (simp (e, lookup-set_int w laws)),
            laws.eval_int-literal _ attr_next_row next_row (simp (e, lookup-set_int w laws)),
            λ h. laws.eval_int-literal _ attr_paused paused (simp (e, lookup-set_int w laws)),
            λ h. absurd (true-false (sym ((==ℤ_iff paused (pos 0)).1 h) ∙ e)),
          )
        ]

    -- MaterializeProc writes the proc's ad, with its ids, and the cluster's ad, which says the next
    -- proc id and row, and if asked to that the factory is paused, in one batch; where the cluster ad is
    -- gone or the write fails, it fails and changes nothing.
    pub materialize_late_batch :
        (q : Queue w) (c proc now : ℤ) (override : Option lib.Ad) (next_proc_id next_row paused : ℤ)
        → let after = materialize_late w q c proc now override next_proc_id next_row paused in
          (after ≡ (q, failed))
          ⊎ ((before : lib.Ad) × (new : lib.Ad) × (advanced : lib.Ad) × (coll : w.Coll) × (w.get
                  q.coll
                  (job_key c (negsuc 0))
                ≡ some before)
              × (w.update q.coll ((job_key c proc, new) ∷ (job_key c (negsuc 0), advanced) ∷ [])
                  ≡ some coll)
              × (after.0.coll ≡ coll)
              × (after.1 ≡ ok)
              × (lib.lookup new (str "ClusterId") ≡ some (lib.int_literal c))
              × (lib.lookup new (str "ProcId") ≡ some (lib.int_literal proc))
              × IsAdvanced next_proc_id next_row paused before advanced)
    unfolding late_batch
    materialize_late_batch q c proc now override next_proc_id next_row paused =
        elim (Option-cases (w.get q.coll (job_key c (negsuc 0)))) [
          | inl e ↦ inl (unfold materialize_late in ground arith)
          | inr (cluster, e) ↦
              let batch = late_batch w q c proc now override next_proc_id next_row paused cluster in
              elim (Option-cases (w.update q.coll batch)) [
                | inl n ↦ inl (unfold materialize_late in ground arith)
                | inr (coll, u) ↦ inr (
                  cluster,
                  late_proc_ad w q c proc now override,
                  advanced_cluster w next_proc_id next_row paused cluster,
                  coll,
                  e,
                  u,
                  unfold materialize_late in
                      ground (arith, coll-log_late c proc (record q { coll = coll })),
                  unfold materialize_late in ground arith,
                  (late_proc_forced q c proc now override).0,
                  (late_proc_forced q c proc now override).1,
                  advanced_cluster-IsAdvanced next_proc_id next_row paused cluster,
                )
              ]
        ]
