-- ===== src/Match.antt =====
-- internal/match/match.go: the table of claimed slots and the ALIVE handler that renews their leases.
pub mod Lookup
mod Leases
pub mod Sample
mod Examples
use golang_ap.Prelude.{
  ℕ, suc, ◌+◌, ◌-◌, ◌*◌, ◌%◌, ◌^◌, ℤ, pos, negsuc, pos_part, Bool, true, false, not, ◌&&◌, Option,
  none, some, List, [], ◌∷◌, ◌==◌, ltb, ltb_ℤ, length, if◌then◌else◌,
}
use golang_ap.Text.{Str, str, is_empty, cut_at}
use golang_ap.Assoc.{find, put, drop}

-- What the table uses of security of github.com/bbockelm/cedar: SecSessionID of ParseClaimIDStrict,
-- and ImportClaimSession into the session cache, which answers the session id or fails.
pub record ClaimLib : Type 1 where
  pub Cache : Type 0
  pub sec_session_id : Str → Str
  pub import_session : Cache → Str → Str → Option (Cache × Str)

abbrev pub default_alives_missed : ℤ
default_alives_missed = pos 6

-- The int64 of a word's low 64 bits.
unfoldable pub int64_of : ℕ → ℤ
int64_of a = let r = a % 2 ^ 64 in if ltb r (2 ^ 63) then pos r else negsuc (2 ^ 64 - r - 1)

-- Time.Add. A time of today is more than 2 ^ 63 nanoseconds from the zero time, so that no int64
-- takes it below that.
unfoldable pub add_duration : ℕ → ℤ → ℕ
add_duration now (pos d) = now + d
add_duration now (negsuc d) = now - suc d

abbrev pub second : ℕ
second = 1_000_000_000

pub data State : Type 0 where
  claimed active : State

-- Times are nanoseconds from Go's zero time, so that 0 is the time of which IsZero holds.
pub record MatchRec (Ad : Type 0) : Type 0 where
  pub claim_id : Str
  pub slot_ad : Option Ad
  pub peer_addr : Str
  pub state : State
  pub alive_interval : ℤ
  pub lease_deadline : ℕ
  pub session_id : Str
  pub public_id : Str

pub record AliveEvent : Type 0 where
  pub claim_id : Str
  pub public_id : Str
  pub found : Bool
  pub alive_interval : ℤ

abbrev head_of : Option (Str × Str) → Str
head_of none = str ""
head_of (some (h, t)) = h

-- The startd's address, up to the first '#'.
unfoldable pub claim_sinful : Str → Str
claim_sinful claim = head_of (cut_at b'#' claim)

module _ (claims : ClaimLib) (Ad : Type 0) where
  open claims use {Cache, sec_session_id, import_session}

  pub record Table : Type 0 where
    pub by_public : List (Str × MatchRec Ad)
    pub cache : Cache
    pub alives_missed : ℤ

  unfoldable pub new_table : Cache → Table
  new_table cache = record { by_public = []; cache = cache; alives_missed = default_alives_missed }

  unfoldable pub set_alives_missed : ℤ → Table → Table
  set_alives_missed n t = record t {
    alives_missed = if ltb_ℤ (pos 0) n then n else default_alives_missed;
  }

  -- The key under which a claim is kept: its public id, or itself where it has none.
  unfoldable pub public_key : Str → Str
  public_key claim = if is_empty (sec_session_id claim) then claim else sec_session_id claim

  -- time.Duration(n*interval) * time.Second, both products of int64.
  unfoldable pub lease_duration : Table → ℤ → ℤ
  unfolding int64_of
  lease_duration t alive_interval =
      let n = if ltb_ℤ (pos 0) t.alives_missed then t.alives_missed else default_alives_missed in
      let i = if ltb_ℤ (pos 0) alive_interval then alive_interval else pos 1 in
      int64_of ((pos_part n * pos_part i) % 2 ^ 64 * second)

  unfoldable pub imported :
      ℕ → Str → Option Ad → ℤ → Table → Option (Cache × Str) → Table × Option (MatchRec Ad)
  imported now raw slot_ad alive_interval t none = (t, none)
  imported now raw slot_ad alive_interval t (some (cache, sesid)) =
      let rec : MatchRec Ad = record {
        claim_id = raw;
        slot_ad = slot_ad;
        peer_addr = claim_sinful raw;
        state = claimed;
        alive_interval = alive_interval;
        lease_deadline = add_duration now (lease_duration t alive_interval);
        session_id = sesid;
        public_id = public_key raw;
      } in
      (record t { cache = cache; by_public = put (public_key raw) rec t.by_public }, some rec)

  -- CreateFromClaim; none where the session cannot be imported.
  unfoldable pub create_from_claim : ℕ → Str → Option Ad → ℤ → Table → Table × Option (MatchRec Ad)
  unfolding imported claim_sinful
  create_from_claim now raw slot_ad alive_interval t =
      imported now raw slot_ad alive_interval t (import_session t.cache raw (claim_sinful raw))

  unfoldable pub find_by_claim_id : Str → Table → Option (MatchRec Ad)
  find_by_claim_id claim t = find (public_key claim) t.by_public

  -- A record that is there is replaced by its change; the answer tells if it was.
  unfoldable pub change : Str → (MatchRec Ad → MatchRec Ad) → Table → Table × Bool
  change claim f t = elim (find (public_key claim) t.by_public) [
    | none ↦ (t, false)
    | some rec ↦ (record t { by_public = put (public_key claim) (f rec) t.by_public }, true)
  ]

  unfoldable pub renew_lease : ℕ → Str → Table → Table × Bool
  unfolding change
  renew_lease now claim t =
      change claim
        (λ rec. record rec {
          lease_deadline = add_duration now (lease_duration t rec.alive_interval);
        })
        t

  unfoldable pub renew_lease_for : ℕ → ℕ → Str → Table → Table × Bool
  unfolding change
  renew_lease_for now d claim t = change claim (λ rec. record rec { lease_deadline = now + d }) t

  unfoldable pub update_slot_ad : Option Ad → Str → Table → Table × Bool
  unfolding change
  update_slot_ad ad claim t = change claim (λ rec. record rec { slot_ad = ad }) t

  unfoldable pub remove : Str → Table → Table × Option (MatchRec Ad)
  remove claim t =
      let rec = find (public_key claim) t.by_public in
      (record t { by_public = drop (public_key claim) t.by_public }, rec)

  unfoldable pub has_expired : ℕ → MatchRec Ad → Bool
  has_expired now rec = not (rec.lease_deadline == 0) && ltb rec.lease_deadline now

  unfoldable pub sweep_entries :
      ℕ → List (Str × MatchRec Ad) → List (Str × MatchRec Ad) × List (MatchRec Ad)
  unfolding has_expired
  sweep_entries now [] = ([], [])
  sweep_entries now ((k, rec) ∷ rest) =
      let (live, expired) = sweep_entries now rest in
      if has_expired now rec then (live, rec ∷ expired) else ((k, rec) ∷ live, expired)

  unfoldable pub expire_sweep : ℕ → Table → Table × List (MatchRec Ad)
  unfolding sweep_entries
  expire_sweep now t =
      let (live, expired) = sweep_entries now t.by_public in
      (record t { by_public = live }, expired)

  unfoldable pub len : Table → ℕ
  len t = length t.by_public

  interval_of : Option (MatchRec Ad) → ℤ
  interval_of none = negsuc 0
  interval_of (some rec) = rec.alive_interval

  -- The ALIVE handler: the interval replied and the event reported.
  unfoldable pub alive : ℕ → Str → Table → Table × ℤ × AliveEvent
  unfolding find_by_claim_id renew_lease interval_of
  alive now claim t =
      let found = find_by_claim_id claim t in
      let interval = interval_of found in
      (
        elim found [ none ↦ t | some rec ↦ (renew_lease now claim t).0 ],
        interval,
        record {
          claim_id = claim;
          public_id = sec_session_id claim;
          found = elim found [ none ↦ false | some rec ↦ true ];
          alive_interval = interval;
        },
      )
