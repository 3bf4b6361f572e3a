-- ===== src/Match/Sample.antt =====
-- A claim library for examples: the session id is what stands before the last '#', and every
-- import succeeds.
use golang_ap.Prelude.{List, ◌∷◌, Option, none, some}
use golang_ap.Text.{Str, str, cut_at_last}
use golang_ap.Match.{ClaimLib}

abbrev front_of : Option (Str × Str) → Str
front_of none = str ""
front_of (some (front, back)) = front

abbrev pub sample_claims : ClaimLib
sample_claims = record {
  Cache = List Str;
  sec_session_id = λ claim. front_of (cut_at_last b'#' claim);
  import_session = λ cache claim peer. some (claim ∷ cache, front_of (cut_at_last b'#' claim));
}
