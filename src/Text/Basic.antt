-- ===== src/Text/Basic.antt =====
-- Go strings as lists of bytes: comparison, case, search and trimming.
use Prim.Native.Char.{code}
use golang_ap.Prelude.{
  ℕ, ◌+◌, String, Bool, true, false, ◌&&◌, ◌||◌, Option, none, some, List, [], ◌∷◌, map, leb, ◌==◌,
  if◌then◌else◌,
}

abbrev pub Str : Type 0
Str = List ℕ

-- The bytes of a literal. Shut, so that a statement shows the literal.
unfoldable pub str : String → Str
str String.[] = []
str (String.◌∷◌ c s) = code c ∷ str s

-- a == b
unfoldable pub str_eq : Str → Str → Bool
str_eq [] [] = true
str_eq (a ∷ s) (b ∷ t) = (a == b) && str_eq s t
str_eq _ _ = false

unfoldable pub is_empty : Str → Bool
is_empty [] = true
is_empty (_ ∷ _) = false

unfoldable pub lower_byte : ℕ → ℕ
lower_byte c = if leb b'A' c && leb c b'Z' then c + 32 else c

-- strings.ToLower
unfoldable pub to_lower : Str → Str
unfolding lower_byte
to_lower s = map lower_byte s

-- strings.EqualFold
unfoldable pub equal_fold : Str → Str → Bool
unfolding to_lower str_eq
equal_fold s t = str_eq (to_lower s) (to_lower t)

-- A lookup in a Go map[string]bool that holds only true.
unfoldable pub member : Str → List Str → Bool
unfolding str_eq
member s [] = false
member s (t ∷ ts) = str_eq s t || member s ts

-- strings.IndexByte; none stands for -1.
unfoldable pub cut_at : ℕ → Str → Option (Str × Str)
cut_at c [] = none
cut_at c (b ∷ s) =
    let rest : Option (Str × Str) = elim (cut_at c s) [
      | none ↦ none
      | some (h, t) ↦ some (b ∷ h, t)
    ] in
    if b == c then some ([], s) else rest

-- strings.LastIndexByte; none stands for -1.
unfoldable pub cut_at_last : ℕ → Str → Option (Str × Str)
cut_at_last c [] = none
cut_at_last c (b ∷ s) = elim (cut_at_last c s) [
  | some (h, t) ↦ some (b ∷ h, t)
  | none ↦ if b == c then some ([], s) else none
]

-- The white space that strings.TrimSpace drops, ASCII.
unfoldable pub is_space : ℕ → Bool
is_space c = (leb 9 c && leb c 13) || (c == 32)

unfoldable pub trim_left : Str → Str
unfolding is_space
trim_left [] = []
trim_left (c ∷ s) = let rest = trim_left s in if is_space c then rest else c ∷ s

unfoldable pub trim_right : Str → Str
unfolding is_space is_empty
trim_right [] = []
trim_right (c ∷ s) = let rest = trim_right s in if is_space c && is_empty rest then [] else c ∷ rest

-- strings.TrimSpace
unfoldable pub trim_space : Str → Str
unfolding trim_left trim_right
trim_space s = trim_right (trim_left s)

unfoldable pub onto_first : ℕ → List Str → List Str
onto_first c [] = (c ∷ []) ∷ []
onto_first c (part ∷ parts) = (c ∷ part) ∷ parts

-- strings.Split at one byte
unfoldable pub split : ℕ → Str → List Str
unfolding onto_first
split sep [] = [] ∷ []
split sep (c ∷ s) = let rest = split sep s in if c == sep then [] ∷ rest else onto_first c rest
