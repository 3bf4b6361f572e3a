-- ===== src/Match/Lookup.antt =====
-- The table of internal/match/match.go as a map from public ids to records.
use golang_ap.Prelude.{
  ℕ, ◌+◌, ℤ, Option, none, some, List, [], ◌∷◌, ◌≡◌, refl, arith, if◌then◌else◌, Option-cases, inl,
  inr,
}
use golang_ap.Text.{Str, str_eq, str_eq_iff}
use golang_ap.Assoc.{find, find-put, find-drop}
use golang_ap.Assoc.Distinct.{IsDistinct, put-IsDistinct, drop-IsDistinct}
use golang_ap.Match.{
  ClaimLib, MatchRec, Table, public_key, claim_sinful, lease_duration, add_duration, imported,
  create_from_claim, change, renew_lease, renew_lease_for, update_slot_ad, remove, has_expired,
  sweep_entries, expire_sweep,
}

module _ (claims : ClaimLib) (Ad : Type 0) where
  abbrev pub lookup : Table claims Ad → Str → Option (MatchRec Ad)
  lookup t k = find k t.by_public

  abbrev pub IsTable : Table claims Ad → Type 0
  IsTable t = IsDistinct t.by_public

  -- What a sweep leaves of a record.
  abbrev pub unexpired : ℕ → Option (MatchRec Ad) → Option (MatchRec Ad)
  unexpired now none = none
  unexpired now (some rec) = if has_expired claims Ad now rec then none else some rec

  abbrev pub changed : (MatchRec Ad → MatchRec Ad) → Option (MatchRec Ad) → Option (MatchRec Ad)
  changed f none = none
  changed f (some rec) = some (f rec)

  -- What a creation leaves in place of a record.
  abbrev pub entered : Option (MatchRec Ad) → Option (MatchRec Ad) → Option (MatchRec Ad)
  entered none before = before
  entered (some rec) before = some rec

  find-sweep_entries :
      (now : ℕ) (j : Str) (m : List (Str × MatchRec Ad))
      → IsDistinct m
      → find j (sweep_entries claims Ad now m).0 ≡ unexpired now (find j m)
  unfolding find sweep_entries
  find-sweep_entries now j [] h = refl
  find-sweep_entries now j ((k, rec) ∷ m) h =
      ground (arith, str_eq_iff k j, find-sweep_entries now j m h.1)

  sweep-IsDistinct :
      (now : ℕ) (m : List (Str × MatchRec Ad))
      → IsDistinct m
      → IsDistinct (sweep_entries claims Ad now m).0
  unfolding sweep_entries
  sweep-IsDistinct now [] h = tt
  sweep-IsDistinct now ((k, rec) ∷ m) h =
      ground (arith, find-sweep_entries now k m h.1, sweep-IsDistinct now m h.1)

  find-change :
      (claim j : Str) (f : MatchRec Ad → MatchRec Ad) (t : Table claims Ad)
      → lookup (change claims Ad claim f t).0 j
        ≡ (if str_eq (public_key claims Ad claim) j then changed f (lookup t j) else lookup t j)
  unfolding change
  find-change claim j f t = elim (Option-cases (find (public_key claims Ad claim) t.by_public)) [
    | inl e ↦ ground (arith, str_eq_iff (public_key claims Ad claim) j)
    | inr (rec, e) ↦ ground (
      arith,
      str_eq_iff (public_key claims Ad claim) j,
      find-put (public_key claims Ad claim) j (f rec) t.by_public,
    )
  ]

  change-IsDistinct :
      (claim : Str) (f : MatchRec Ad → MatchRec Ad) (t : Table claims Ad)
      → IsTable t
      → IsTable (change claims Ad claim f t).0
  unfolding change
  change-IsDistinct claim f t h =
      elim (Option-cases (find (public_key claims Ad claim) t.by_public)) [
        | inl e ↦ ground arith
        | inr (rec, e) ↦
            ground (arith, put-IsDistinct (public_key claims Ad claim) (f rec) t.by_public h)
      ]

  imported-lookup :
      (now : ℕ) (raw : Str) (ad : Option Ad) (interval : ℤ) (t : Table claims Ad)
      (o : Option (claims.Cache × Str))
      → IsTable t
      → IsTable (imported claims Ad now raw ad interval t o).0
        × ((j : Str)
            → lookup (imported claims Ad now raw ad interval t o).0 j ≡ (
                if str_eq (public_key claims Ad raw) j
                then entered (imported claims Ad now raw ad interval t o).1 (lookup t j)
                else lookup t j))
  unfolding imported
  imported-lookup now raw ad interval t none h = (h, λ j. ground arith)
  imported-lookup now raw ad interval t (some (cache, sesid)) h = (
    put-IsDistinct (public_key claims Ad raw) _ t.by_public h,
    λ j. find-put (public_key claims Ad raw) j _ t.by_public,
  )

  -- The table is a map from public ids: a successful CreateFromClaim enters its record, a failed one
  -- changes nothing; RenewLease, RenewLeaseFor and UpdateSlotAd change the record of their claim, if
  -- there is one, and no other; Remove takes it out and answers it; ExpireSweep takes out the expired
  -- records. All keep the table at one record for an id.
  pub table_refines_map :
      (now d : ℕ) (claim : Str) (ad : Option Ad) (interval : ℤ) (t : Table claims Ad)
      → IsTable t
      → let k = public_key claims Ad claim in
        let (created, made) = create_from_claim claims Ad now claim ad interval t in
        let renewed = (renew_lease claims Ad now claim t).0 in
        let extended = (renew_lease_for claims Ad now d claim t).0 in
        let updated = (update_slot_ad claims Ad ad claim t).0 in
        let removed = (remove claims Ad claim t).0 in
        let swept = (expire_sweep claims Ad now t).0 in
        (IsTable created
          × IsTable renewed
          × IsTable extended
          × IsTable updated
          × IsTable removed
          × IsTable swept)
        × ((remove claims Ad claim t).1 ≡ lookup t k)
        × ((j : Str)
            → (lookup created j ≡ (if str_eq k j then entered made (lookup t j) else lookup t j))
              × (lookup renewed j ≡ (
                  if str_eq k j
                  then changed
                      (λ rec. record rec {
                        lease_deadline =
                            add_duration now (lease_duration claims Ad t rec.alive_interval);
                      })
                      (lookup t j)
                  else lookup t j))
              × (lookup extended j ≡ (
                  if str_eq k j
                  then changed (λ rec. record rec { lease_deadline = now + d }) (lookup t j)
                  else lookup t j))
              × (lookup updated j ≡ (
                  if str_eq k j
                  then changed (λ rec. record rec { slot_ad = ad }) (lookup t j)
                  else lookup t j))
              × (lookup removed j ≡ (if str_eq k j then none else lookup t j))
              × (lookup swept j ≡ unexpired now (lookup t j)))
  unfolding create_from_claim renew_lease renew_lease_for update_slot_ad remove expire_sweep
  table_refines_map now d claim ad interval t h =
      let (made_table, made_lookup) =
        imported-lookup now claim ad interval t
          (claims.import_session t.cache claim (claim_sinful claim)) h in
      (
        (
          made_table,
          change-IsDistinct claim _ t h,
          change-IsDistinct claim _ t h,
          change-IsDistinct claim _ t h,
          drop-IsDistinct (public_key claims Ad claim) t.by_public h,
          sweep-IsDistinct now t.by_public h,
        ),
        refl,
        λ j. (
          made_lookup j,
          find-change claim j _ t,
          find-change claim j _ t,
          find-change claim j _ t,
          find-drop (public_key claims Ad claim) j t.by_public,
          find-sweep_entries now j t.by_public h,
        ),
      )
