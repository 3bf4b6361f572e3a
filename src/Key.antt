-- ===== src/Key.antt =====
-- internal/queue/queue.go, the key scheme: a proc ad is stored under "c.p", its cluster ad under
-- "c.-1", and the cluster-id counter under a key that is no job's.
pub mod RoundTrip
mod Examples
use golang_ap.Prelude.{
  ℤ, pos, negsuc, Bool, true, Option, none, some, ◌∷◌, ◌++◌, ltb_ℤ, if◌then◌else◌,
}
use golang_ap.Text.{Str, str, itoa, atoi, cut_at_last}

abbrev pub counter_key : Str
counter_key = str "counter"

unfoldable pub job_key : ℤ → ℤ → Str
job_key c p = itoa c ++ (b'.' ∷ itoa p)

unfoldable pub cluster_key : ℤ → Str
cluster_key c = itoa c ++ str ".-1"

-- The guards after the two calls of Atoi.
both_parsed : Option ℤ → Option ℤ → Option (ℤ × ℤ)
both_parsed (some c) (some p) = some (c, p)
both_parsed _ _ = none

-- The two halves of a key with a dot, each read as a number.
parse_halves : Option (Str × Str) → Option (ℤ × ℤ)
unfolding both_parsed
parse_halves none = none
parse_halves (some (front, back)) = both_parsed (atoi front) (atoi back)

unfoldable pub parse_job_key : Str → Option (ℤ × ℤ)
unfolding parse_halves
parse_job_key key = parse_halves (cut_at_last b'.' key)

parent_of : Option (ℤ × ℤ) → Option Str
parent_of none = none
parent_of (some (c, p)) = if ltb_ℤ p (pos 0) then none else some (cluster_key c)

-- The key that a proc ad chains to; none stands for nil.
unfoldable pub parent_key_for : Str → Option Str
unfolding parent_of
parent_key_for key = parent_of (parse_job_key key)

structural : Option (ℤ × ℤ) → Bool
structural none = true
structural (some (c, p)) = ltb_ℤ p (pos 0)

-- Structural keys are hidden from Scan and Query.
unfoldable pub is_structural : Str → Bool
unfolding structural
is_structural key = structural (parse_job_key key)
