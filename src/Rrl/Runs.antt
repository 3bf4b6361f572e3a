-- ===== src/Rrl/Runs.antt =====
-- The maximal runs of an ordered list of ads, built from its end: what the groups should be.
use golang_ap.Prelude.{
  ℕ, Option, none, some, List, [], ◌∷◌, ◌++◌, ◌≡◌, ◌≢◌, refl, ap, ◌∙◌, arith, ◌==◌, if◌then◌else◌,
  Option-cases, Bool-cases, inl, inr,
}
use golang_ap.Text.{Str}
use golang_ap.ClassAd.{ClassAdLib}
use golang_ap.Rrl.{JobId, RequestGroup, id_of, new_group}

abbrev pub add_id : Option JobId → List JobId → List JobId
add_id none ids = ids
add_id (some id) ids = id ∷ ids

module _ (lib : ClassAdLib) where
  abbrev pub Group : Type 0
  Group = RequestGroup lib

  module _ (checksum : lib.Ad → List Str → ℕ) (projection : List Str) where
    abbrev pub first_group : lib.Ad → JobId → Group
    first_group ad id = new_group lib checksum projection ad id

    -- One more job in front joins the first run or starts one.
    unfoldable pub attach : lib.Ad → JobId → List Group → List Group
    attach ad id [] = first_group ad id ∷ []
    attach ad id (g ∷ gs) =
        if checksum ad projection == g.checksum
        then record g { rep = ad; job_ids = id ∷ g.job_ids } ∷ gs
        else first_group ad id ∷ (g ∷ gs)

    abbrev pub attach_job : lib.Ad → Option JobId → List Group → List Group
    attach_job ad none gs = gs
    attach_job ad (some id) gs = attach ad id gs

    unfoldable pub runs : List lib.Ad → List Group
    unfolding attach
    runs [] = []
    runs (ad ∷ ads) = attach_job ad (id_of lib ad) (runs ads)

  unfoldable pub ids_of : List lib.Ad → List JobId
  ids_of [] = []
  ids_of (ad ∷ ads) = add_id (id_of lib ad) (ids_of ads)

  unfoldable pub all_ids : List Group → List JobId
  all_ids [] = []
  all_ids (g ∷ gs) = g.job_ids ++ all_ids gs

  -- Consecutive groups have different checksums.
  abbrev pub IsMaximal : List Group → Type 0
  IsMaximal [] = Unit
  IsMaximal (g ∷ []) = Unit
  IsMaximal (g ∷ (h ∷ gs)) = (g.checksum ≢ h.checksum) × IsMaximal (h ∷ gs)

  module _ (checksum : lib.Ad → List Str → ℕ) (projection : List Str) where
    all_ids-attach :
        (ad : lib.Ad) (id : JobId) (gs : List Group)
        → all_ids (attach checksum projection ad id gs) ≡ id ∷ all_ids gs
    unfolding all_ids attach new_group
    all_ids-attach ad id [] = refl
    all_ids-attach ad id (g ∷ gs) = ground arith

    pub all_ids-runs : (ads : List lib.Ad) → all_ids (runs checksum projection ads) ≡ ids_of ads
    unfolding runs all_ids ids_of
    all_ids-runs [] = refl
    all_ids-runs (ad ∷ ads) = elim (Option-cases (id_of lib ad)) [
      | inl e ↦ rw e (all_ids-runs ads)
      | inr (id, e) ↦ rw e (
          all_ids-attach ad id (runs checksum projection ads) ∙ ap (λ t. id ∷ t) (all_ids-runs ads))
    ]

    IsMaximal-attach :
        (ad : lib.Ad) (id : JobId) (gs : List Group)
        → IsMaximal gs
        → IsMaximal (attach checksum projection ad id gs)
    unfolding attach new_group
    IsMaximal-attach ad id [] h = tt
    IsMaximal-attach ad id (g ∷ []) h = elim (Bool-cases (checksum ad projection == g.checksum)) [
      | inl e ↦ rw e tt
      | inr e ↦ rw e ((λ q. ground arith), tt)
    ]
    IsMaximal-attach ad id (g ∷ (k ∷ gs)) h =
        elim (Bool-cases (checksum ad projection == g.checksum)) [
          | inl e ↦ rw e h
          | inr e ↦ rw e ((λ q. ground arith), h)
        ]

    pub IsMaximal-runs : (ads : List lib.Ad) → IsMaximal (runs checksum projection ads)
    unfolding runs
    IsMaximal-runs [] = tt
    IsMaximal-runs (ad ∷ ads) = elim (Option-cases (id_of lib ad)) [
      | inl e ↦ rw e (IsMaximal-runs ads)
      | inr (id, e) ↦
          rw e (IsMaximal-attach ad id (runs checksum projection ads) (IsMaximal-runs ads))
    ]
