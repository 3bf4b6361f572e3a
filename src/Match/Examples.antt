-- ===== src/Match/Examples.antt =====
-- A table with one claim.
use golang_ap.Assoc.{find}
use golang_ap.Prelude.{pos, true, none, some, [], ◌∷◌, ◌≡◌, refl, ◌≤◌, ◌+◌, arith}
use golang_ap.Text.{Str, str, str_eq, is_empty, cut_at_last}
use golang_ap.Match.{
  MatchRec, Table, claimed, second, public_key, lease_duration, expire_sweep, renew_lease_for,
  alive, has_expired,
}
use golang_ap.Match.Lookup.{lookup, IsTable, table_refines_map}
use golang_ap.Match.Leases.{meant, alive_survives}
use golang_ap.Match.Sample.{sample_claims}

abbrev claim : Str
claim = str "<host:1>#1#2#key"

abbrev one_rec : MatchRec Unit
one_rec = record {
  claim_id = claim;
  slot_ad = none;
  peer_addr = str "<host:1>";
  state = claimed;
  alive_interval = pos 5;
  lease_deadline = 70;
  session_id = str "<host:1>#1#2";
  public_id = str "<host:1>#1#2";
}

abbrev one_claim : Table sample_claims Unit
one_claim = record {
  by_public = (str "<host:1>#1#2", one_rec) ∷ [];
  cache = [];
  alives_missed = pos 6;
}

alive_survives_example :
    ((alive sample_claims Unit 60 claim one_claim).1 ≡ pos 5)
    × ((alive sample_claims Unit 60 claim one_claim).2.found ≡ true)
    × (lookup sample_claims Unit
          (expire_sweep sample_claims Unit 90 (alive sample_claims Unit 60 claim one_claim).0).0
          (public_key sample_claims Unit claim)
        ≡ some (record one_rec { lease_deadline = 60 + meant (pos 6) (pos 5) }))
    × (second ≤ meant (pos 6) (pos 5))
unfolding find str_eq str public_key is_empty cut_at_last lease_duration
alive_survives_example =
    alive_survives sample_claims Unit 60 90 claim one_claim one_rec (refl, tt) refl (omega arith)
      (omega arith)

table_refines_map_example :
    let swept = (expire_sweep sample_claims Unit 90 one_claim).0 in
    let extended = (renew_lease_for sample_claims Unit 90 30 claim one_claim).0 in
    (IsTable sample_claims Unit extended × IsTable sample_claims Unit swept)
    × (lookup sample_claims Unit extended (str "<host:1>#1#2")
        ≡ some (record one_rec { lease_deadline = 120 }))
    × (lookup sample_claims Unit swept (str "<host:1>#1#2") ≡ none)
unfolding find str_eq public_key is_empty cut_at_last str has_expired
table_refines_map_example =
    let m = table_refines_map sample_claims Unit 90 30 claim none (pos 5) one_claim (refl, tt) in
    let at = m.2 (str "<host:1>#1#2") in ((m.0.2, m.0.5), at.2, at.5)
