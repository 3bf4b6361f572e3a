-- ===== src/Queue/Open.antt =====
-- internal/queue/queue.go and factory.go: what Open recovers from the collection.
use golang_ap.Prelude.{
  ℕ, zero, suc, ◌+◌, ◌-◌, ◌≤◌, ◌<◌, ℤ, pos, negsuc, pos_part, Bool, true, false, Option, none, some,
  List, [], ◌∷◌, ◌≡◌, ◌↔◌, arith, ◌+ℤ◌, ltb_ℤ, if◌then◌else◌, ◌⊎◌, Option-cases, inl, inr,
}
use golang_ap.Text.{Str, str, equal_fold}
use golang_ap.ClassAd.{ClassAdLaws}
use golang_ap.Key.{job_key, counter_key}
use golang_ap.User
use golang_ap.Queue.AuthzConfig.{Options, build_authz_config}
use golang_ap.Queue.State.{World, StoreLaws, Queue, member_id, alloc_cluster_id}
use golang_ap.Queue.Commit.{has_digest, attr_digest_file}

module _ (w : World) where
  open w use {lib}

  counter_of : Option ℤ → ℤ
  counter_of none = pos 1
  counter_of (some v) = if ltb_ℤ (pos 1) v then v else pos 1

  unfoldable pub recovered_id : Option lib.Ad → ℤ
  unfolding counter_of
  recovered_id none = pos 1
  recovered_id (some ad) = counter_of (lib.eval_int ad (str "NextClusterId"))

  digest_of : Option lib.Ad → Bool
  unfolding has_digest
  digest_of none = false
  digest_of (some ad) = has_digest w (lib.eval_string ad attr_digest_file)

  -- Is the cluster ad of c in the collection that of a factory?
  unfoldable pub factory_ad : w.Coll → ℕ → Bool
  unfolding digest_of
  factory_ad coll c = digest_of (w.get coll (job_key (pos c) (negsuc 0)))

  -- The loop of recoverFactories over n clusters from c on.
  unfoldable pub recover_factories : w.Coll → ℕ → ℕ → List ℤ
  recover_factories coll zero c = []
  recover_factories coll (suc n) c =
      let rest = recover_factories coll n (c + 1) in
      if factory_ad coll c then pos c ∷ rest else rest

  -- Open, on the stores that the collections library has opened, with no user log yet.
  unfoldable pub open_queue : w.Coll → w.Hist → Str → Str → Options → Queue w
  open_queue coll hist name domain opts =
      let next_id = recovered_id (w.get coll counter_key) in
      record {
        coll = coll;
        hist = hist;
        name = name;
        domain = domain;
        supers = User.build_supers w.fqu domain opts.super_users;
        authz = build_authz_config opts;
        next_id = next_id;
        factories = recover_factories coll (pos_part next_id - 1) 1;
        log = none;
      }

  recovered :
      (coll : w.Coll) (n k c : ℕ)
      → (member_id w (pos c) (recover_factories coll n k) ≡ true)
        ↔ ((k ≤ c) × (c < k + n) × (factory_ad coll c ≡ true))
  unfolding member_id recover_factories
  recovered coll zero k c = (λ h. ground arith, λ h. ground arith)
  recovered coll (suc n) k c = (
    λ h. ground (arith, recovered coll n (k + 1) c),
    λ h. ground (arith, recovered coll n (k + 1) c),
  )

  -- A reopened queue knows as factories exactly the clusters from 1 up to the next id, itself left out,
  -- whose cluster ad names a digest file.
  pub open_queue-factories :
      (coll : w.Coll) (hist : w.Hist) (name domain : Str) (opts : Options) (c : ℕ)
      → let q = open_queue coll hist name domain opts in
        (member_id w (pos c) q.factories ≡ true)
        ↔ ((1 ≤ c) × (c < pos_part q.next_id) × (factory_ad coll c ≡ true))
  unfolding open_queue recovered_id
  open_queue-factories coll hist name domain opts c =
      ground (arith, recovered coll (pos_part (recovered_id (w.get coll counter_key)) - 1) 1 c)

  abbrev counter_ad : ℤ → lib.Ad
  counter_ad v = lib.insert_expr lib.new (str "NextClusterId") (lib.int_literal v)

  counter_kept :
      (laws : ClassAdLaws lib) (v : ℤ)
      → lib.lookup (counter_ad v) (str "NextClusterId") ≡ some (lib.int_literal v)
  unfolding equal_fold str
  counter_kept laws v = simp laws.lookup-insert_expr

  counter_read :
      (laws : ClassAdLaws lib) (store_laws : StoreLaws w) (coll coll' : w.Coll) (v : ℤ)
      → w.put coll counter_key (counter_ad v) ≡ some coll'
      → recovered_id (w.get coll' counter_key) ≡ (if ltb_ℤ (pos 1) v then v else pos 1)
  unfolding recovered_id
  counter_read laws store_laws coll coll' v h =
      let (flat, g, own) = store_laws.get-put coll coll' counter_key (counter_ad v) h in
      ground (
        arith,
        g,
        laws.eval_int-literal flat (str "NextClusterId") v
            (own (str "NextClusterId") (lib.int_literal v) (counter_kept laws v)),
      )

  -- An allocation hands out the next id and, before it does, writes the id after it to the store: a
  -- queue reopened from that store goes on after it. One that cannot be written is taken back.
  pub alloc_cluster_id-open_queue :
      (laws : ClassAdLaws lib) (store_laws : StoreLaws w) (q : Queue w) (n : ℕ) (hist : w.Hist)
      (name domain : Str) (opts : Options)
      → q.next_id ≡ pos n
      → 1 ≤ n
      → ((alloc_cluster_id w q ≡ (q, none)))
        ⊎ (((alloc_cluster_id w q).1 ≡ some (pos n))
            × ((alloc_cluster_id w q).0.next_id ≡ pos (n + 1))
            × ((open_queue (alloc_cluster_id w q).0.coll hist name domain opts).next_id
                ≡ pos (n + 1)))
  unfolding open_queue recovered_id alloc_cluster_id
  alloc_cluster_id-open_queue laws store_laws q n hist name domain opts e h =
      elim (Option-cases (w.put q.coll counter_key (counter_ad (q.next_id +ℤ pos 1)))) [
        | inl n ↦ inl (ground arith)
        | inr (coll, u) ↦ inr (
          ground arith,
          ground arith,
          ground (arith, counter_read laws store_laws q.coll coll (q.next_id +ℤ pos 1) u),
        )
      ]
