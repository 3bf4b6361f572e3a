-- ===== src/Text/DecimalLaws.antt =====
-- Atoi inverts Itoa, and Itoa writes a sign and digits only.
use golang_ap.Prelude.{
  ℕ, zero, suc, ◌+◌, ◌-◌, ◌*◌, ◌/◌, ◌%◌, ◌≤◌, ◌<◌, ℤ, pos, negsuc, some, [], ◌∷◌, ◌≡◌, refl, ◌∙◌,
  ap, arith, ◌==◌, All, Bool-cases, inl, inr,
}
use golang_ap.Text.Basic.{Str}
use golang_ap.Text.Decimal.{
  emit, format_nat, itoa, scan, digits_value, in_positive_range, in_negative_range, atoi, IsInt,
}

abbrev pub IsDigit : ℕ → Type 0
IsDigit c = (b'0' ≤ c) × (c ≤ b'9')

-- One more digit at the front is read as one more round of the loop.
scan-digit : (n : ℕ) (out : Str) → scan ((b'0' + n % 10) ∷ out) (n / 10) ≡ scan out n
unfolding scan
scan-digit n out =
    let e : n / 10 * 10 + (b'0' + n % 10 - b'0') ≡ n = omega arith in rw e (ground arith)

scan-emit : (f n : ℕ) (out : Str) → n < f → scan (emit f n out) 0 ≡ scan out n
unfolding emit
scan-emit zero n out h = elim h [ ]
scan-emit (suc f) n out h = elim (Bool-cases (n == 0)) [
  | inl e ↦ ground arith
  | inr e ↦ rw e (scan-emit f (n / 10) ((b'0' + n % 10) ∷ out) (ground arith) ∙ scan-digit n out)
]

digits-emit : (f n : ℕ) (out : Str) → All IsDigit out → All IsDigit (emit f n out)
unfolding emit
digits-emit zero n out h = h
digits-emit (suc f) n out h = elim (Bool-cases (n == 0)) [
  | inl e ↦ rw e h
  | inr e ↦ rw e (digits-emit f (n / 10) ((b'0' + n % 10) ∷ out) ((omega arith, omega arith), h))
]

-- The loop writes at least one digit of a positive number.
emit-cons : (f n : ℕ) (c : ℕ) (out : Str) → (d : ℕ) × (s : Str) × (emit f n (c ∷ out) ≡ d ∷ s)
unfolding emit
emit-cons zero n c out = (c, out, refl)
emit-cons (suc f) n c out = elim (Bool-cases (n == 0)) [
  | inl e ↦ (c, out, rw e)
  | inr e ↦ rw e (emit-cons f (n / 10) (b'0' + n % 10) (c ∷ out))
]

format_nat-cons : (n : ℕ) → (d : ℕ) × (s : Str) × (format_nat n ≡ d ∷ s)
unfolding format_nat emit
format_nat-cons n = elim (Bool-cases (n == 0)) [
  | inl e ↦ (b'0', [], rw e)
  | inr e ↦ rw e (emit-cons n (n / 10) (b'0' + n % 10) [])
]

pub digits-format_nat : (n : ℕ) → All IsDigit (format_nat n)
unfolding format_nat
digits-format_nat n = elim (Bool-cases (n == 0)) [
  | inl e ↦ rw e ((omega arith, omega arith), tt)
  | inr e ↦ rw e (digits-emit (suc n) n [] tt)
]

scan-format_nat : (n : ℕ) → scan (format_nat n) 0 ≡ some n
unfolding format_nat scan
scan-format_nat n = elim (Bool-cases (n == 0)) [
  | inl e ↦ rw e (ground arith)
  | inr e ↦ rw e (scan-emit (suc n) n [] (omega arith))
]

digits_value-scan : {d : ℕ} {s t : Str} → t ≡ d ∷ s → digits_value t ≡ scan t 0
unfolding digits_value
digits_value-scan e = rw e

value-format_nat : (n : ℕ) → digits_value (format_nat n) ≡ some n
value-format_nat n = digits_value-scan (format_nat-cons n).2 ∙ scan-format_nat n

-- A string of digits carries no sign.
atoi_unsigned : (s : Str) → All IsDigit s → atoi s ≡ in_positive_range (digits_value s)
unfolding atoi
atoi_unsigned [] h = refl
atoi_unsigned (c ∷ s) h = ground arith

-- Atoi reads back what Itoa wrote, for every Go int.
pub atoi-itoa : (z : ℤ) → IsInt z → atoi (itoa z) ≡ some z
unfolding itoa in_positive_range in_negative_range
atoi-itoa (pos n) h =
    atoi_unsigned (format_nat n) (digits-format_nat n)
    ∙ ap in_positive_range (value-format_nat n)
    ∙ ground arith
atoi-itoa (negsuc n) h = unfold atoi in ground (arith, value-format_nat (n + 1))
