-- ===== src/Text/Laws.antt =====
-- What the string functions answer.
use golang_ap.Prelude.{ℕ, true, none, some, [], ◌∷◌, ◌++◌, ◌≡◌, ◌↔◌, All, ◌≢◌, refl, arith}
use golang_ap.Text.Basic.{Str, str_eq, cut_at_last, to_lower, lower_byte, equal_fold}

pub str_eq_refl : (s : Str) → str_eq s s ≡ true
unfolding str_eq
str_eq_refl [] = refl
str_eq_refl (a ∷ s) = ground (arith, str_eq_refl s)

pub eq_of_str_eq : (s t : Str) → str_eq s t ≡ true → s ≡ t
unfolding str_eq
eq_of_str_eq [] [] h = refl
eq_of_str_eq [] (b ∷ t) h = cc
eq_of_str_eq (a ∷ s) [] h = cc
eq_of_str_eq (a ∷ s) (b ∷ t) h = ground (arith, eq_of_str_eq s t)

pub str_eq_iff : (s t : Str) → (str_eq s t ≡ true) ↔ (s ≡ t)
str_eq_iff s t = (eq_of_str_eq s t, λ e. rw e (str_eq_refl t))

pub str_eq_sym : (s t : Str) → str_eq s t ≡ str_eq t s
str_eq_sym s t = ground (arith, str_eq_iff s t, str_eq_iff t s)

pub lower_byte_idem : (c : ℕ) → lower_byte (lower_byte c) ≡ lower_byte c
unfolding lower_byte
lower_byte_idem c = ground arith

pub to_lower_idem : (s : Str) → to_lower (to_lower s) ≡ to_lower s
unfolding to_lower
to_lower_idem [] = refl
to_lower_idem (c ∷ s) = cc (to_lower_idem s, lower_byte_idem c)

pub equal_fold_sym : (s t : Str) → equal_fold s t ≡ equal_fold t s
unfolding equal_fold
equal_fold_sym s t = str_eq_sym (to_lower s) (to_lower t)

pub equal_fold_iff : (s t : Str) → (equal_fold s t ≡ true) ↔ (to_lower s ≡ to_lower t)
unfolding equal_fold
equal_fold_iff s t = str_eq_iff (to_lower s) (to_lower t)

-- The cut is made at the last occurrence.
pub cut_at_last-none : (c : ℕ) (s : Str) → All (λ b. b ≢ c) s → cut_at_last c s ≡ none
unfolding cut_at_last
cut_at_last-none c [] h = refl
cut_at_last-none c (b ∷ s) h = ground (arith, cut_at_last-none c s)

pub cut_at_last-append :
    (c : ℕ) (s t : Str) → All (λ b. b ≢ c) t → cut_at_last c (s ++ (c ∷ t)) ≡ some (s, t)
unfolding cut_at_last
cut_at_last-append c [] t h = rw (cut_at_last-none c t h) (ground arith)
cut_at_last-append c (b ∷ s) t h = rw (cut_at_last-append c s t h)

pub lower_no_at : (s : Str) → All (λ b. b ≢ b'@') s → All (λ b. b ≢ b'@') (to_lower s)
unfolding to_lower lower_byte
lower_no_at [] h = tt
lower_no_at (c ∷ s) h = (ground arith, lower_no_at s h.1)

pub append_cancel_left : (n : Str) {s t : Str} → n ++ s ≡ n ++ t → s ≡ t
append_cancel_left [] h = h
append_cancel_left (c ∷ n) h = append_cancel_left n (cc)
