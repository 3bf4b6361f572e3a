-- ===== src/User/Same.antt =====
-- When two user names are the same user.
use golang_ap.Prelude.{
  true, false, [], ◌∷◌, ◌++◌, ◌≡◌, ◌≢◌, ◌↔◌, refl, sym, ap, ap₂, ◌∙◌, arith, All, some,
}
use golang_ap.Text.{
  Str, is_empty, str_eq, str_eq_iff, to_lower, equal_fold, equal_fold_iff, lower_no_at, cut_at_last,
  cut_at_last-append,
}
use golang_ap.User.{Fqu, FquLaws, has_at, short_name, qualify, canonical_user, same_user}

-- user@domain
abbrev pub at : Str → Str → Str
at n d = n ++ (b'@' ∷ d)

abbrev pub NoAt : Str → Type 0
NoAt s = All (λ b. b ≢ b'@') s

has_at-append : (n d : Str) → has_at (at n d) ≡ true
unfolding has_at
has_at-append [] d = ground arith
has_at-append (c ∷ n) d = ground (arith, has_at-append n d)

NoAt-has_at : (n : Str) → NoAt n → has_at n ≡ false
unfolding has_at
NoAt-has_at [] h = refl
NoAt-has_at (c ∷ n) h = ground (arith, NoAt-has_at n)

-- The name and the domain of a qualified name are read back.
parts_injective : (n d m e : Str) → NoAt d → NoAt e → at n d ≡ at m e → (n ≡ m) × (d ≡ e)
parts_injective n d m e hd he p = parts_of_some (
    sym (cut_at_last-append b'@' n d hd) ∙ ap (cut_at_last b'@') p ∙ cut_at_last-append b'@' m e he)
  where
    parts_of_some : {a b : Str × Str} → some a ≡ some b → (a.0 ≡ b.0) × (a.1 ≡ b.1)
    parts_of_some h = (cc, cc)

is_empty-to_lower : (d : Str) → is_empty (to_lower d) ≡ is_empty d
unfolding is_empty to_lower
is_empty-to_lower [] = refl
is_empty-to_lower (c ∷ d) = refl

is_empty-at : (n d : Str) → is_empty (at n d) ≡ false
unfolding is_empty
is_empty-at [] d = refl
is_empty-at (c ∷ n) d = refl

module _ (fqu : Fqu) (laws : FquLaws fqu) (domain : Str) where
  qualify_bare :
      (n : Str)
      → is_empty n ≡ false
      → NoAt n
      → is_empty domain ≡ false
      → qualify fqu domain n ≡ at n domain
  unfolding qualify
  qualify_bare n e h d = ground (arith, NoAt-has_at n h)

  qualify_qualified : (n d : Str) → qualify fqu domain (at n d) ≡ at n d
  unfolding qualify
  qualify_qualified n d = rw (has_at-append n d) (ground arith)

  canonical_qualified :
      (n d : Str)
      → NoAt d
      → is_empty d ≡ false
      → canonical_user fqu domain (at n d) ≡ at n (to_lower d)
  unfolding canonical_user
  canonical_qualified n d h e =
      ground (arith, qualify_qualified n d, is_empty-to_lower d, laws.split_qualified n d h)

  short_qualified : (n d : Str) → NoAt d → short_name fqu (at n d) ≡ n
  unfolding short_name
  short_qualified n d h = ground (arith, laws.split_qualified n d h)

  short_bare : (n : Str) → NoAt n → short_name fqu n ≡ n
  unfolding short_name
  short_bare n h = ground (arith, laws.split_bare n h)

  canonical_bare :
      (n : Str)
      → is_empty n ≡ false
      → NoAt n
      → is_empty domain ≡ false
      → canonical_user fqu domain n ≡ canonical_user fqu domain (at n domain)
  unfolding canonical_user
  canonical_bare n e h d = rw (qualify_bare n e h d, qualify_qualified n domain)

  -- Two qualified names are the same user exactly if their user parts are equal and their domains are
  -- equal but for case.
  pub same_user_qualified :
      (n d m e : Str)
      → is_empty n ≡ false
      → is_empty m ≡ false
      → is_empty d ≡ false
      → is_empty e ≡ false
      → NoAt d
      → NoAt e
      → (same_user fqu domain (at n d) (at m e) ≡ true) ↔ ((n ≡ m) × (equal_fold d e ≡ true))
  same_user_qualified n d m e hn hm hd he ad ae = rw (same) (
    (λ h.
        let (p, q) =
          parts_injective n (to_lower d) m (to_lower e) (lower_no_at d ad) (lower_no_at e ae)
            ((str_eq_iff _ _).0 h) in
        (p, (equal_fold_iff d e).1 q)),
    λ h. (str_eq_iff _ _).1 (ap₂ at h.0 ((equal_fold_iff d e).0 h.1)),
  )
    where
      same : same_user fqu domain (at n d) (at m e) ≡ str_eq (at n (to_lower d)) (at m (to_lower e))
      same =
          unfold same_user in
          ground (
            arith,
            short_qualified n d ad,
            short_qualified m e ae,
            canonical_qualified n d ad hd,
            canonical_qualified m e ae he,
          )

  -- A bare name stands for that user in UID_DOMAIN, against every other name.
  pub same_user_bare :
      (n other : Str)
      → is_empty n ≡ false
      → NoAt n
      → is_empty domain ≡ false
      → NoAt domain
      → (same_user fqu domain n other ≡ same_user fqu domain (at n domain) other)
        × (same_user fqu domain other n ≡ same_user fqu domain other (at n domain))
  unfolding same_user
  same_user_bare n other e h d k = (
    rw (short_bare n h, short_qualified n domain k, canonical_bare n e h d),
    rw (short_bare n h, short_qualified n domain k, canonical_bare n e h d),
  )
