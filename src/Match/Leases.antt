-- ===== src/Match/Leases.antt =====
-- Leases of internal/match/match.go: what a keepalive grants, and what a sweep takes.
use golang_ap.Prelude.{
  ℕ, zero, suc, ◌+◌, ◌*◌, ◌<◌, ◌%◌, ◌^◌, ◌≤◌, ℤ, pos, pos_part, true, none, some, List, [], ◌∷◌,
  ◌≡◌, refl, arith, ltb_ℤ, if◌then◌else◌, All, ap, ◌∙◌, length,
}
use golang_ap.Text.{Str, str_eq, str_eq_refl}
use golang_ap.Match.{
  ClaimLib, MatchRec, Table, second, int64_of, add_duration, public_key, lease_duration,
  renew_lease, has_expired, sweep_entries, expire_sweep, find_by_claim_id, alive, len,
}
use golang_ap.Match.Lookup.{lookup, IsTable, table_refines_map, unexpired, changed}

-- The lease that the code means for an interval, in nanoseconds: the misses allowed, or six, times the
-- seconds of the interval, or one.
abbrev pub meant : ℤ → ℤ → ℕ
meant missed i =
    pos_part (if ltb_ℤ (pos 0) missed then missed else pos 6)
    * pos_part (if ltb_ℤ (pos 0) i then i else pos 1)
    * second

prod_pos : (a b : ℕ) → 1 ≤ a → 1 ≤ b → 1 ≤ a * b
prod_pos zero b h g = absurd (omega arith)
prod_pos (suc a) b h g = omega (arith, mul_suc a b)
  where
    mul_suc : (a b : ℕ) → suc a * b ≡ b + a * b
    mul_suc a b = omega arith

-- A product that an int64 holds is what the two wrapping products give.
fits : (a : ℕ) → a * second < 2 ^ 63 → int64_of (a % 2 ^ 64 * second) ≡ pos (a * second)
unfolding int64_of
fits a h = ground arith

one_at_least : (k : ℤ) (d : ℕ) → 1 ≤ pos_part (if ltb_ℤ (pos 0) k then k else pos (suc d))
one_at_least k d = ground arith

module _ (claims : ClaimLib) (Ad : Type 0) where
  lease-meant :
      (t : Table claims Ad) (i : ℤ)
      → meant t.alives_missed i < 2 ^ 63
      → (lease_duration claims Ad t i ≡ pos (meant t.alives_missed i))
        × (second ≤ meant t.alives_missed i)
  unfolding lease_duration
  lease-meant t i h = (
    fits
        (pos_part (if ltb_ℤ (pos 0) t.alives_missed then t.alives_missed else pos 6)
          * pos_part (if ltb_ℤ (pos 0) i then i else pos 1))
        h,
    omega (arith, prod_pos _ _ (one_at_least t.alives_missed 5) (one_at_least i 0)),
  )

  abbrev pub AllExpired : ℕ → List (MatchRec Ad) → Type 0
  AllExpired now recs = All (λ rec. has_expired claims Ad now rec ≡ true) recs

  sweep_counts :
      (now : ℕ) (m : List (Str × MatchRec Ad))
      → AllExpired now (sweep_entries claims Ad now m).1
        × (length (sweep_entries claims Ad now m).0 + length (sweep_entries claims Ad now m).1
            ≡ length m)
  unfolding sweep_entries
  sweep_counts now [] = (tt, refl)
  sweep_counts now ((k, rec) ∷ m) = ground (arith, sweep_counts now m)

  -- What a sweep answers has expired, and with what it leaves is as many as there were.
  expire_sweep-counts :
      (now : ℕ) (t : Table claims Ad)
      → AllExpired now (expire_sweep claims Ad now t).1
        × (len claims Ad (expire_sweep claims Ad now t).0 + length (expire_sweep claims Ad now t).1
            ≡ len claims Ad t)
  unfolding expire_sweep len
  expire_sweep-counts now t = sweep_counts now t.by_public

  renewed_unexpired :
      (now later lease : ℕ) (rec : MatchRec Ad)
      → later ≤ now + lease
      → unexpired claims Ad later (some (record rec { lease_deadline = now + lease }))
        ≡ some (record rec { lease_deadline = now + lease })
  unfolding has_expired
  renewed_unexpired now later lease rec h = ground arith

  -- A keepalive for a claim that the table holds is answered with the interval agreed for it, and the
  -- claim's record outlives every sweep until a lease after it, which is a second at least: where the
  -- lease, misses times interval, is below 2 ^ 63 nanoseconds, so that Go's products do not wrap.
  pub alive_survives :
      (now later : ℕ) (claim : Str) (t : Table claims Ad) (rec : MatchRec Ad)
      → IsTable claims Ad t
      → lookup claims Ad t (public_key claims Ad claim) ≡ some rec
      → meant t.alives_missed rec.alive_interval < 2 ^ 63
      → later ≤ now + meant t.alives_missed rec.alive_interval
      → let (after, reply, event) = alive claims Ad now claim t in
        (reply ≡ rec.alive_interval)
        × (event.found ≡ true)
        × (lookup claims Ad (expire_sweep claims Ad later after).0 (public_key claims Ad claim)
            ≡ some (record rec { lease_deadline = now + meant t.alives_missed rec.alive_interval }))
        × (second ≤ meant t.alives_missed rec.alive_interval)
  alive_survives now later claim t rec h found fit b =
      (answered.0, answered.1, kept, (lease-meant t rec.alive_interval fit).1)
    where
      key : Str
      key = public_key claims Ad claim

      renewed : Table claims Ad
      renewed = (renew_lease claims Ad now claim t).0

      answered :
          ((alive claims Ad now claim t).1 ≡ rec.alive_interval)
          × ((alive claims Ad now claim t).2.found ≡ true)
          × ((alive claims Ad now claim t).0 ≡ renewed)
      answered = unfold alive in unfold find_by_claim_id in ground arith

      deadline :
          add_duration now (lease_duration claims Ad t rec.alive_interval)
          ≡ now + meant t.alives_missed rec.alive_interval
      deadline =
          ap (add_duration now) (lease-meant t rec.alive_interval fit).0
          ∙ (unfold add_duration in refl)

      at_key :
          (if str_eq key key
            then changed claims Ad
                (λ r. record r {
                  lease_deadline = add_duration now (lease_duration claims Ad t r.alive_interval);
                })
                (lookup claims Ad t key)
            else lookup claims Ad t key)
          ≡ some (record rec { lease_deadline = now + meant t.alives_missed rec.alive_interval })
      at_key = ground (arith, str_eq_refl key, deadline)

      kept :
          lookup claims Ad (expire_sweep claims Ad later (alive claims Ad now claim t).0).0 key
          ≡ some (record rec { lease_deadline = now + meant t.alives_missed rec.alive_interval })
      kept =
          let first = table_refines_map claims Ad now 0 claim none (pos 0) t h in
          let swept = table_refines_map claims Ad later 0 claim none (pos 0) renewed first.0.1 in
          ap (λ x. lookup claims Ad (expire_sweep claims Ad later x).0 key) answered.2
          ∙ (swept.2 key).5
          ∙ ap (unexpired claims Ad later) ((first.2 key).1 ∙ at_key)
          ∙ renewed_unexpired now later (meant t.alives_missed rec.alive_interval) rec b
