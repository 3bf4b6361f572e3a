-- ===== src/User.antt =====
-- internal/queue/queue.go and identity comparisons of the queue: user@domain names, the super users,
-- and who owns a job.
mod Same
mod Super
pub mod Sample
mod Examples
use golang_ap.Prelude.{
  Bool, true, false, not, ◌&&◌, ◌||◌, Option, none, some, List, [], ◌∷◌, ◌++◌, ◌≡◌, ◌≢◌, All, ◌==◌,
  if◌then◌else◌,
}
use golang_ap.Text.{Str, str, str_eq, equal_fold, is_empty, to_lower, member, cut_at, trim_space}
use golang_ap.ClassAd.{ClassAdLib}

-- security.SplitFQU of github.com/bbockelm/cedar, which splits a name at its last '@', and its
-- UnmappedDomain.
pub record Fqu : Type 0 where
  pub split : Str → Str × Str
  pub unmapped_domain : Str

pub record FquLaws (fqu : Fqu) : Type 0 where
  pub split_bare : (n : Str) → All (λ b. b ≢ b'@') n → fqu.split n ≡ (n, str "")
  pub split_qualified : (n d : Str) → All (λ b. b ≢ b'@') d → fqu.split (n ++ (b'@' ∷ d)) ≡ (n, d)

-- strings.Contains(user, "@")
unfoldable pub has_at : Str → Bool
has_at [] = false
has_at (b ∷ s) = (b == b'@') || has_at s

module _ (fqu : Fqu) where
  unfoldable pub short_name : Str → Str
  short_name user = (fqu.split user).0

  unfoldable pub is_unmapped : Str → Bool
  is_unmapped user = equal_fold (fqu.split user).1 fqu.unmapped_domain

  -- The parameter `domain` is the queue's UID_DOMAIN.
  module _ (domain : Str) where
    unfoldable pub qualify : Str → Str
    qualify user =
        if is_empty user || has_at user || is_empty domain then user else user ++ (b'@' ∷ domain)

    unfoldable pub canonical_user : Str → Str
    canonical_user user =
        let (name, dom) = fqu.split (qualify user) in
        if is_empty dom then name else name ++ (b'@' ∷ to_lower dom)

    unfoldable pub same_user : Str → Str → Bool
    same_user a b =
        if is_empty (short_name a) || is_empty (short_name b)
        then false
        else str_eq (canonical_user a) (canonical_user b)

    -- The identities of the sessions that condor_master shares with its children.
    unfoldable pub family : List Str
    family =
        canonical_user (str "condor@child")
        ∷ canonical_user (str "condor@parent")
        ∷ canonical_user (str "condor@family")
        ∷ []

    -- The keys of the Go map.
    unfoldable pub build_supers : List Str → List Str
    build_supers [] = []
    build_supers (entry ∷ entries) =
        let s = trim_space entry in
        let rest = build_supers entries in
        if is_empty s
        then rest
        else canonical_user s ∷ (if str_eq s (str "condor") then family ++ rest else rest)

    -- The argument `supers` is the set that `build_supers` made.
    unfoldable pub is_super_user : List Str → Str → Bool
    is_super_user supers user = if is_empty user then false else member (canonical_user user) supers

    module _ (lib : ClassAdLib) where
      named : Option Str → Option Str
      named none = none
      named (some u) = if is_empty u then none else some u

      unfoldable pub job_user : lib.Ad → Str
      unfolding named
      job_user ad = elim (named (lib.eval_string ad (str "User"))) [
        | some u ↦ u
        | none ↦ elim (named (lib.eval_string ad (str "Owner"))) [
          | some o ↦ qualify o
          | none ↦ str ""
        ]
      ]
