-- ===== src/Factory/Strings.antt =====
-- internal/factory/items.go, and the functions on strings of materialize.go.
use golang_ap.Prelude.{
  ℕ, Bool, true, false, not, ◌&&◌, none, some, List, [], ◌∷◌, ◌++◌, ◌==◌, leb, if◌then◌else◌,
}
use golang_ap.Text.{Str, str, is_empty, to_lower, is_space, split, trim_space, cut_at}

unfoldable pub trim_cr : Str → Str
trim_cr [] = []
trim_cr (c ∷ []) = if c == 13 then [] else c ∷ []
trim_cr (c ∷ d ∷ s) = c ∷ trim_cr (d ∷ s)

unfoldable pub non_blank : List Str → List Str
non_blank [] = []
non_blank (line ∷ lines) =
    let rest = non_blank lines in
    let row = trim_cr line in if is_empty row then rest else row ∷ rest

unfoldable pub parse_items : Str → List Str
unfolding non_blank trim_cr
parse_items bytes = non_blank (split 10 bytes)

-- strings.Fields; `word` is the field that is being read.
unfoldable pub fields_from : Str → Str → List Str
fields_from word [] = if is_empty word then [] else word ∷ []
fields_from word (c ∷ s) =
    let more = fields_from (word ++ (c ∷ [])) s in
    let next = fields_from [] s in
    if not (is_space c) then more else if is_empty word then next else word ∷ next

unfoldable pub has_byte : ℕ → Str → Bool
has_byte b s = elim (cut_at b s) [ none ↦ false | some parts ↦ true ]

unfoldable pub split_row : Str → ℕ → List Str
unfolding has_byte fields_from
split_row row nvars =
    if is_empty row
    then []
    else if has_byte 31 row
    then split 31 row
    else if leb nvars 1
    then row ∷ []
    else fields_from [] row

unfoldable pub starts_with : Str → Str → Bool
starts_with [] s = true
starts_with (b ∷ prefix) [] = false
starts_with (b ∷ prefix) (c ∷ s) = (b == c) && starts_with prefix s

unfoldable pub drop_bytes : Str → Str → Str
drop_bytes [] s = s
drop_bytes (b ∷ prefix) [] = []
drop_bytes (b ∷ prefix) (c ∷ s) = drop_bytes prefix s

-- strings.HasPrefix of a lower-case prefix, in any case
unfoldable pub has_prefix_fold : Str → Str → Bool
unfolding starts_with
has_prefix_fold prefix s = starts_with prefix (to_lower s)

unfoldable pub trim_my_prefix : Str → Str
unfolding has_prefix_fold drop_bytes
trim_my_prefix s = if has_prefix_fold (str "my.") s then drop_bytes (str "my.") s else s

unfoldable pub trim_plus : Str → Str
trim_plus s = if starts_with (str "+") s then drop_bytes (str "+") s else s

unfoldable pub last_is : ℕ → Str → Bool
last_is b [] = false
last_is b (c ∷ []) = c == b
last_is b (c ∷ d ∷ s) = last_is b (d ∷ s)

unfoldable pub quoted : Str → Bool
unfolding last_is
quoted (c ∷ d ∷ s) = (c == 34) && last_is 34 (d ∷ s)
quoted _ = false

unfoldable pub is_quoted : Str → Bool
unfolding quoted
is_quoted raw = quoted (trim_space raw)

unfoldable pub drop_last : Str → Str
drop_last [] = []
drop_last (c ∷ []) = []
drop_last (c ∷ d ∷ s) = c ∷ drop_last (d ∷ s)

unfoldable pub drop_first : Str → Str
drop_first [] = []
drop_first (c ∷ s) = s

-- strings.ReplaceAll of two quotes by one
unfoldable pub undouble : Str → Str
undouble [] = []
undouble (c ∷ []) = c ∷ []
undouble (c ∷ d ∷ s) =
    let both = undouble s in
    let one = undouble (d ∷ s) in if (c == 34) && (d == 34) then 34 ∷ both else c ∷ one

unfoldable pub unquote : Str → Str
unfolding quoted drop_last drop_first undouble
unquote raw = let s = trim_space raw in undouble (if quoted s then drop_last (drop_first s) else s)
