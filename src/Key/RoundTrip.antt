-- ===== src/Key/RoundTrip.antt =====
-- A job key is read back as the ids it was built from, so keys of different jobs differ.
use golang_ap.Prelude.{
  ℤ, pos, negsuc, Option, true, none, some, [], ◌∷◌, ◌≡◌, ◌≢◌, refl, sym, ◌∙◌, ap, arith, All,
  ltb_ℤ, if◌then◌else◌,
}
use golang_ap.Text.{
  Str, str, itoa, atoi-itoa, IsInt, IsDigit, emit, digits-format_nat, cut_at_last,
  cut_at_last-append,
}
use golang_ap.Key.{counter_key, job_key, cluster_key, parse_job_key, parent_key_for, is_structural}

no_dot_of_digits : (s : Str) → All IsDigit s → All (λ b. b ≢ b'.') s
no_dot_of_digits [] h = tt
no_dot_of_digits (b ∷ s) h = (omega arith, no_dot_of_digits s h.1)

no_dot-itoa : (z : ℤ) → All (λ b. b ≢ b'.') (itoa z)
unfolding itoa
no_dot-itoa (pos n) = no_dot_of_digits _ (digits-format_nat n)
no_dot-itoa (negsuc n) = (omega arith, no_dot_of_digits _ (digits-format_nat _))

-- The ids of a job are read back from its key.
pub parse-job_key : (c p : ℤ) → IsInt c → IsInt p → parse_job_key (job_key c p) ≡ some (c, p)
unfolding parse_job_key job_key
parse-job_key c p hc hp =
    rw (cut_at_last-append b'.' (itoa c) (itoa p) (no_dot-itoa p), atoi-itoa c hc, atoi-itoa p hp)

pub cluster_key-job_key : (c : ℤ) → cluster_key c ≡ job_key c (negsuc 0)
unfolding cluster_key job_key itoa str emit
cluster_key-job_key c = refl

-- Jobs with the same key are the same job.
pub job_key_injective :
    (c p d q : ℤ)
    → IsInt c
    → IsInt p
    → IsInt d
    → IsInt q
    → job_key c p ≡ job_key d q
    → (c ≡ d) × (p ≡ q)
job_key_injective c p d q hc hp hd hq e =
    pair_of_some (sym (parse-job_key c p hc hp) ∙ ap parse_job_key e ∙ parse-job_key d q hd hq)
  where
    pair_of_some :
        {a b : ℤ × ℤ} → ◌≡◌ {A = Option (ℤ × ℤ)} (some a) (some b) → (a.0 ≡ b.0) × (a.1 ≡ b.1)
    pair_of_some h = (cc, cc)

-- A proc's ad chains to its cluster's ad, which chains to none; the counter and cluster ads are
-- structural and proc ads are not.
pub job_key-chain :
    (c p : ℤ)
    → IsInt c
    → IsInt p
    → (parent_key_for (job_key c p)
        ≡ (if ltb_ℤ p (pos 0) then none else some (job_key c (negsuc 0))))
      × (is_structural (job_key c p) ≡ ltb_ℤ p (pos 0))
      × (is_structural counter_key ≡ true)
unfolding parent_key_for is_structural
job_key-chain c p hc hp = (
  rw (parse-job_key c p hc hp, cluster_key-job_key c),
  rw (parse-job_key c p hc hp),
  unfold parse_job_key cut_at_last str in refl,
)
