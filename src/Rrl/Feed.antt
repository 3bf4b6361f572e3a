-- ===== src/Rrl/Feed.antt =====
-- The lazy iterator yields the maximal runs in order, until the consumer stops.
use golang_ap.Prelude.{
  ℕ, Bool, true, false, Option, none, some, List, [], ◌∷◌, ◌++◌, ◌≡◌, refl, sym, ap, subst, ◌∙◌,
  arith, ◌==◌, if◌then◌else◌, Option-cases, Bool-cases, inl, inr,
}
use mathlib.Core.List.{append_assoc, append-nil}
use golang_ap.Text.{Str}
use golang_ap.ClassAd.{ClassAdLib}
use golang_ap.User.{Fqu, short_name}
use golang_ap.Rrl.{JobId, id_of, new_group, group_loop, idle_request_groups}
use golang_ap.Rrl.Runs.{
  Group, attach, runs, ids_of, all_ids, all_ids-runs, IsMaximal, IsMaximal-runs,
}

module _ (lib : ClassAdLib) where
  -- What a consumer makes of a list of groups when it may stop.
  unfoldable pub feed : {S : Type 0} → (S → Group lib → S × Bool) → S → List (Group lib) → S
  feed yield s [] = s
  feed yield s (g ∷ gs) = elim (yield s g).1 [
    | true ↦ feed yield (yield s g).0 gs
    | false ↦ (yield s g).0
  ]

  -- The open group of the loop, in front of the runs of what is left.
  merge_group : Group lib → List (Group lib) → List (Group lib)
  merge_group g [] = g ∷ []
  merge_group g (h ∷ hs) =
      if h.checksum == g.checksum
      then record g { job_ids = g.job_ids ++ h.job_ids } ∷ hs
      else g ∷ (h ∷ hs)

  abbrev merge : Option (Group lib) → List (Group lib) → List (Group lib)
  merge none gs = gs
  merge (some g) gs = merge_group g gs

  -- A consumer that keeps every group.
  abbrev pub collect : List (Group lib) → Group lib → List (Group lib) × Bool
  collect gs g = (gs ++ (g ∷ []), true)

  feed-collect : (gs hs : List (Group lib)) → feed collect gs hs ≡ gs ++ hs
  unfolding feed
  feed-collect gs [] = sym (append-nil gs)
  feed-collect gs (h ∷ hs) = feed-collect (gs ++ (h ∷ [])) hs ∙ append_assoc gs (h ∷ []) hs

  module _ (checksum : lib.Ad → List Str → ℕ) (projection : List Str) where
    merge-new_group :
        (ad : lib.Ad) (id : JobId) (gs : List (Group lib))
        → merge_group (new_group lib checksum projection ad id) gs
          ≡ attach lib checksum projection ad id gs
    unfolding merge_group attach new_group
    merge-new_group ad id [] = refl
    merge-new_group ad id (g ∷ gs) = ground arith

    merge_same :
        (g : Group lib) (ad : lib.Ad) (id : JobId) (gs : List (Group lib))
        → (checksum ad projection == g.checksum) ≡ true
        → merge_group (record g { job_ids = g.job_ids ++ (id ∷ []) }) gs
          ≡ merge_group g (attach lib checksum projection ad id gs)
    unfolding merge_group attach new_group
    merge_same g ad id [] e = rw e
    merge_same g ad id (h ∷ hs) e = ground (arith, append_assoc g.job_ids (id ∷ []) h.job_ids)

    merge_other :
        (g : Group lib) (ad : lib.Ad) (id : JobId) (gs : List (Group lib))
        → (checksum ad projection == g.checksum) ≡ false
        → merge_group g (attach lib checksum projection ad id gs)
          ≡ g ∷ attach lib checksum projection ad id gs
    unfolding merge_group attach new_group
    merge_other g ad id [] e = rw e
    merge_other g ad id (h ∷ hs) e = ground arith

    module _ {S : Type 0} (yield : S → Group lib → S × Bool) where
      group_loop-feed :
          (s : S) (cur : Option (Group lib)) (ads : List lib.Ad)
          → group_loop lib checksum projection yield s cur ads
            ≡ feed yield s (merge cur (runs lib checksum projection ads))
      unfolding group_loop runs feed
      group_loop-feed s none [] = unfold feed merge_group in refl
      group_loop-feed s (some g) [] = unfold feed merge_group in ground arith
      group_loop-feed s none (ad ∷ ads) = elim (Option-cases (id_of lib ad)) [
        | inl e ↦ rw (e, group_loop) (group_loop-feed s none ads)
        | inr (id, e) ↦
            rw (e, group_loop)
              (group_loop-feed s (some (new_group lib checksum projection ad id)) ads
                ∙ ap (feed yield s) (merge-new_group ad id _))
      ]
      group_loop-feed s (some g) (ad ∷ ads) = elim (Option-cases (id_of lib ad)) [
        | inl e ↦ rw (e, group_loop) (group_loop-feed s (some g) ads)
        | inr (id, e) ↦
            rw (e, group_loop)
              (elim (Bool-cases (checksum ad projection == g.checksum)) [
                | inl same ↦
                    rw (same, group_loop)
                      (group_loop-feed s (some (record g { job_ids = g.job_ids ++ (id ∷ []) })) ads
                        ∙ ap (feed yield s) (merge_same g ad id _ same))
                | inr other ↦
                    rw (other, group_loop)
                      (rw (merge_other g ad id (runs lib checksum projection ads) other)
                        (elim (Bool-cases (yield s g).1) [
                          | inl go ↦
                              rw (go, group_loop, feed)
                                (group_loop-feed (yield s g).0
                                    (some (new_group lib checksum projection ad id)) ads
                                  ∙ ap (feed yield (yield s g).0) (merge-new_group ad id _))
                          | inr stop ↦ rw (stop, group_loop, feed)
                        ]))
              ])
      ]

      -- Whatever the consumer does, the iterator hands it the maximal runs of the submitter's indexed
      -- jobs, in order, until it stops.
      pub idle_request_groups-feed :
          (fqu : Fqu) (ordered : Str → List lib.Ad) (submitter : Str) (s : S)
          → idle_request_groups lib checksum projection yield fqu ordered submitter s
            ≡ feed yield s (runs lib checksum projection (ordered (short_name fqu submitter)))
      unfolding idle_request_groups
      idle_request_groups-feed fqu ordered submitter s =
          group_loop-feed s none (ordered (short_name fqu submitter))

    abbrev pub all_groups : Fqu → (Str → List lib.Ad) → Str → List (Group lib)
    all_groups fqu ordered submitter =
        idle_request_groups lib checksum projection collect fqu ordered submitter []

    all_groups-runs :
        (fqu : Fqu) (ordered : Str → List lib.Ad) (submitter : Str)
        → all_groups fqu ordered submitter
          ≡ runs lib checksum projection (ordered (short_name fqu submitter))
    all_groups-runs fqu ordered submitter =
        idle_request_groups-feed collect fqu ordered submitter [] ∙ feed-collect [] _

    -- The groups of a submitter hold every indexed job that has ids, once and in priority order, and
    -- two consecutive groups have different checksums.
    pub all_groups_partition :
        (fqu : Fqu) (ordered : Str → List lib.Ad) (submitter : Str)
        → (all_ids lib (all_groups fqu ordered submitter)
            ≡ ids_of lib (ordered (short_name fqu submitter)))
          × IsMaximal lib (all_groups fqu ordered submitter)
    all_groups_partition fqu ordered submitter = (
      ap (all_ids lib) (all_groups-runs fqu ordered submitter)
          ∙ all_ids-runs lib checksum projection _,
      subst (IsMaximal lib) (sym (all_groups-runs fqu ordered submitter))
          (IsMaximal-runs lib checksum projection _),
    )
