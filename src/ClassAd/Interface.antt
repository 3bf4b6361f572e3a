-- ===== src/ClassAd/Interface.antt =====
-- The operations of the ClassAd library that the sources call, and the documented laws they rely on.
use golang_ap.Prelude.{List, Bool, false, ℤ, Option, none, some, ◌≡◌, if◌then◌else◌}
use golang_ap.Text.{Str, equal_fold}

-- A classad.Value, as IsBool/BoolValue, IsNumber/NumberValue and IsString/StringValue tell it apart.
pub data Value (Number : Type 0) : Type 0 where
  boolean : Bool → Value Number
  number : Number → Value Number
  text : Str → Value Number
  other : Value Number

pub record ClassAdLib : Type 1 where
  pub Ad : Type 0
  pub Expr : Type 0
  -- float64, the type of NumberValue
  pub Number : Type 0
  pub zero_number : Number
  pub is_zero : Number → Bool
  pub to_int : Number → ℤ
  -- classad.New, Lookup, InsertExpr, Delete
  pub new : Ad
  pub lookup : Ad → Str → Option Expr
  pub insert_expr : Ad → Str → Expr → Ad
  pub delete : Ad → Str → Ad
  -- the literal expressions that Set and InsertAttrString store
  pub int_literal : ℤ → Expr
  pub string_literal : Str → Expr
  pub bool_literal : Bool → Expr
  -- Set with a string value, which may fail; Expr.String; GetAttributes
  pub set_string : Ad → Str → Str → Option Ad
  pub expr_text : Expr → Str
  pub attributes : Ad → List Str
  -- ParseExpr, Expr.Eval, EvaluateAttr, EvaluateAttrInt, EvaluateAttrString
  pub parse_expr : Str → Option Expr
  pub eval : Expr → Ad → Value Number
  pub eval_attr : Ad → Str → Value Number
  pub eval_int : Ad → Str → Option ℤ
  pub eval_string : Ad → Str → Option Str

-- Attribute names ignore case; a literal evaluates to itself; an absent attribute has no value.
pub record ClassAdLaws (lib : ClassAdLib) : Type 0 where
  pub lookup-new : (n : Str) → lib.lookup lib.new n ≡ none
  pub lookup-insert_expr :
      (ad : lib.Ad) (n m : Str) (e : lib.Expr)
      → lib.lookup (lib.insert_expr ad n e) m ≡ (if equal_fold n m then some e else lib.lookup ad m)
  pub lookup-delete :
      (ad : lib.Ad) (n m : Str)
      → lib.lookup (lib.delete ad n) m ≡ (if equal_fold n m then none else lib.lookup ad m)
  pub lookup-set_string :
      (ad ad' : lib.Ad) (n m v : Str)
      → lib.set_string ad n v ≡ some ad'
      → equal_fold n m ≡ false
      → lib.lookup ad' m ≡ lib.lookup ad m
  pub eval_int-literal :
      (ad : lib.Ad) (n : Str) (v : ℤ)
      → lib.lookup ad n ≡ some (lib.int_literal v)
      → lib.eval_int ad n ≡ some v
  pub eval_string-literal :
      (ad : lib.Ad) (n v : Str)
      → lib.lookup ad n ≡ some (lib.string_literal v)
      → lib.eval_string ad n ≡ some v
  pub eval_int-absent : (ad : lib.Ad) (n : Str) → lib.lookup ad n ≡ none → lib.eval_int ad n ≡ none
  pub eval_string-absent :
      (ad : lib.Ad) (n : Str) → lib.lookup ad n ≡ none → lib.eval_string ad n ≡ none
