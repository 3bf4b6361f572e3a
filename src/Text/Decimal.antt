-- ===== src/Text/Decimal.antt =====
-- strconv.Itoa and strconv.Atoi of Go's standard library, on 64-bit int.
use golang_ap.Prelude.{
  ℕ, zero, suc, ◌+◌, ◌-◌, ◌*◌, ◌/◌, ◌%◌, ◌^◌, ◌<◌, ℤ, pos, negsuc, ◌||◌, Option, none, some, [],
  ◌∷◌, ltb, ◌==◌, if◌then◌else◌,
}
use golang_ap.Text.Basic.{Str}

-- `for n > 0`: each round divides by ten. The fuel is the number itself and one more.
unfoldable pub emit : ℕ → ℕ → Str → Str
emit zero n out = out
emit (suc f) n out =
    let more = emit f (n / 10) ((b'0' + n % 10) ∷ out) in if n == 0 then out else more

unfoldable pub format_nat : ℕ → Str
format_nat n = if n == 0 then b'0' ∷ [] else emit (suc n) n []

-- strconv.Itoa
unfoldable pub itoa : ℤ → Str
unfolding format_nat
itoa (pos n) = format_nat n
itoa (negsuc n) = b'-' ∷ format_nat (n + 1)

unfoldable pub scan : Str → ℕ → Option ℕ
scan [] n = some n
scan (c ∷ s) n =
    let rest = scan s (n * 10 + (c - b'0')) in if ltb c b'0' || ltb b'9' c then none else rest

unfoldable pub digits_value : Str → Option ℕ
unfolding scan
digits_value [] = none
digits_value (c ∷ s) = scan (c ∷ s) 0

abbrev pub int_limit : ℕ
int_limit = 2 ^ 63

unfoldable pub in_positive_range : Option ℕ → Option ℤ
in_positive_range none = none
in_positive_range (some n) = if ltb n int_limit then some (pos n) else none

unfoldable pub in_negative_range : Option ℕ → Option ℤ
in_negative_range none = none
in_negative_range (some zero) = some (pos 0)
in_negative_range (some (suc n)) = if ltb n int_limit then some (negsuc n) else none

-- strconv.Atoi; none stands for an error.
unfoldable pub atoi : Str → Option ℤ
unfolding digits_value in_positive_range in_negative_range
atoi [] = none
atoi (c ∷ s) =
    if c == b'-'
    then in_negative_range (digits_value s)
    else if c == b'+'
    then in_positive_range (digits_value s)
    else in_positive_range (digits_value (c ∷ s))

-- The values of Go's int.
abbrev pub IsInt : ℤ → Type 0
IsInt (pos n) = n < int_limit
IsInt (negsuc n) = n < int_limit
