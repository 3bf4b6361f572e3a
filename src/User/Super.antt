-- ===== src/User/Super.antt =====
-- Whom the QUEUE_SUPER_USERS entries admit.
use golang_ap.Prelude.{true, false, ◌||◌, List, [], ◌∷◌, ◌++◌, ◌≡◌, ◌↔◌, ◌⊎◌, refl, arith}
use golang_ap.Text.{Str, str, is_empty, str_eq_iff, member, trim_space}
use golang_ap.User.{Fqu, canonical_user, same_user, family, build_supers, is_super_user}

member-append : (s : Str) (xs ys : List Str) → member s (xs ++ ys) ≡ (member s xs || member s ys)
unfolding member
member-append s [] ys = refl
member-append s (x ∷ xs) ys = ground (arith, member-append s xs ys)

module _ (fqu : Fqu) (domain : Str) where
  -- An entry admits the user that it names and, if it is "condor", the three session identities.
  abbrev pub Admits : Str → Str → Type 0
  Admits user entry =
      (is_empty (trim_space entry) ≡ false)
      × ((canonical_user fqu domain user ≡ canonical_user fqu domain (trim_space entry))
          ⊎ ((trim_space entry ≡ str "condor")
              × (member (canonical_user fqu domain user) (family fqu domain) ≡ true)))

  abbrev pub AnyAdmits : Str → List Str → Type 0
  AnyAdmits user [] = ⊥
  AnyAdmits user (e ∷ es) = Admits user e ⊎ AnyAdmits user es

  member-supers :
      (user : Str) (entries : List Str)
      → (member (canonical_user fqu domain user) (build_supers fqu domain entries) ≡ true)
        ↔ AnyAdmits user entries
  unfolding build_supers member
  member-supers user [] = (λ h. cc, λ h. absurd h)
  member-supers user (e ∷ es) = ground (
    arith,
    member-supers user es,
    str_eq_iff (trim_space e) (str "condor"),
    str_eq_iff (canonical_user fqu domain user) (canonical_user fqu domain (trim_space e)),
    member-append (canonical_user fqu domain user) (family fqu domain) (build_supers fqu domain es),
  )

  -- A user is a super user exactly if it has a name and some non-blank entry of QUEUE_SUPER_USERS
  -- names it, or is "condor" and the user is condor@child, condor@parent or condor@family.
  pub is_super_user-build_supers :
      (entries : List Str) (user : Str)
      → (is_super_user fqu domain (build_supers fqu domain entries) user ≡ true)
        ↔ ((is_empty user ≡ false) × AnyAdmits user entries)
  unfolding is_super_user
  is_super_user-build_supers entries user = (
    λ h. ground (arith, member-supers user entries),
    λ h. ground (arith, member-supers user entries),
  )

  -- The same user under another spelling has the same authority.
  pub is_super_user-same_user :
      (supers : List Str) (a b : Str)
      → is_empty a ≡ false
      → is_empty b ≡ false
      → same_user fqu domain a b ≡ true
      → is_super_user fqu domain supers a ≡ is_super_user fqu domain supers b
  unfolding is_super_user same_user
  is_super_user-same_user supers a b ha hb h =
      ground (arith, str_eq_iff (canonical_user fqu domain a) (canonical_user fqu domain b))
