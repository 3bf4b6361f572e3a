-- ===== src/ClassAd/Sample.antt =====
-- A small instance of the ClassAd interface, with literals for expressions: its laws can be met.
use golang_ap.Prelude.{
  List, [], ◌∷◌, ℤ, pos, Bool, Option, none, some, false, ◌≡◌, refl, ap, sym, ◌∙◌, ◌==ℤ◌,
  if◌then◌else◌,
}
use golang_ap.Text.{Str, str, itoa, str_eq, equal_fold}
use golang_ap.ClassAd.Interface.{Value, boolean, number, text, other, ClassAdLib, ClassAdLaws}

pub data Literal : Type 0 where
  int : ℤ → Literal
  string : Str → Literal
  bool : Bool → Literal

abbrev pub SampleAd : Type 0
SampleAd = Str → Option Literal

abbrev pub value_of : Option Literal → Value ℤ
value_of none = other
value_of (some (int v)) = number v
value_of (some (string s)) = text s
value_of (some (bool b)) = boolean b

abbrev pub int_of : Option Literal → Option ℤ
int_of (some (int v)) = some v
int_of _ = none

abbrev pub string_of : Option Literal → Option Str
string_of (some (string s)) = some s
string_of _ = none

abbrev pub text_of : Literal → Str
text_of (string s) = s
text_of (int v) = itoa v
text_of (bool b) = if b then str "true" else str "false"

abbrev pub sample : ClassAdLib
sample = record {
  Ad = SampleAd;
  Expr = Literal;
  Number = ℤ;
  zero_number = pos 0;
  is_zero = λ n. n ==ℤ pos 0;
  to_int = λ n. n;
  new = λ n. none;
  lookup = λ ad n. ad n;
  insert_expr = λ ad n e m. if equal_fold n m then some e else ad m;
  delete = λ ad n m. if equal_fold n m then none else ad m;
  int_literal = int;
  string_literal = string;
  bool_literal = bool;
  set_string = λ ad n s. some (λ m. if equal_fold n m then some (string s) else ad m);
  expr_text = text_of;
  attributes = λ ad. [];
  parse_expr = λ s. if str_eq s (str "(") then none else some (string s);
  eval = λ e ad. value_of (some e);
  eval_attr = λ ad n. value_of (ad n);
  eval_int = λ ad n. int_of (ad n);
  eval_string = λ ad n. string_of (ad n);
}

other_kept :
    (ad ad' : SampleAd) (n m v : Str)
    → sample.set_string ad n v ≡ some ad'
    → equal_fold n m ≡ false
    → ad' m ≡ ad m
other_kept ad ad' n m v h g = sym (ap (λ f. f m) (some_inj h)) ∙ rw g refl
  where
    some_inj : {x y : SampleAd} → some x ≡ some y → x ≡ y
    some_inj e = cc

pub sample-ClassAdLaws : ClassAdLaws sample
sample-ClassAdLaws = record {
  lookup-new = λ n. refl;
  lookup-insert_expr = λ ad n m e. refl;
  lookup-delete = λ ad n m. refl;
  lookup-set_string = λ ad ad' n m v h g. other_kept ad ad' n m v h g;
  eval_int-literal = λ ad n v h. ap int_of h;
  eval_string-literal = λ ad n v h. ap string_of h;
  eval_int-absent = λ ad n h. ap int_of h;
  eval_string-absent = λ ad n h. ap string_of h;
}

-- An ad from its attributes.
unfoldable pub ad_of : List (Str × Literal) → SampleAd
unfolding equal_fold
ad_of [] n = none
ad_of ((m, e) ∷ rest) n = if equal_fold m n then some e else ad_of rest n
