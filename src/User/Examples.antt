-- ===== src/User/Examples.antt =====
-- The comparisons of user names on concrete names.
use golang_ap.Prelude.{true, false, [], ◌∷◌, ◌≡◌, ◌↔◌, refl, arith}
use golang_ap.Text.{str, str_eq, is_empty, equal_fold, cut_at_last}
use golang_ap.User.{
  short_name, same_user, canonical_user, qualify, has_at, build_supers, is_super_user,
}
use golang_ap.User.Sample.{sample_fqu, sample_fqu-laws}
use golang_ap.User.Same.{at, same_user_qualified}
use golang_ap.User.Super.{AnyAdmits, is_super_user-build_supers}

same_user_qualified_example :
    (same_user sample_fqu (str "pool") (at (str "bo") (str "cs")) (at (str "bo") (str "CS")) ≡ true)
    ↔ ((str "bo" ≡ str "bo") × (equal_fold (str "cs") (str "CS") ≡ true))
unfolding str is_empty
same_user_qualified_example =
    same_user_qualified sample_fqu sample_fqu-laws (str "pool") (str "bo") (str "cs") (str "bo")
      (str "CS") refl refl refl refl (omega arith) (omega arith)

-- The two spellings of the last example are the same user.
spellings : same_user sample_fqu (str "cs") (str "bo") (str "bo@CS") ≡ true
unfolding same_user canonical_user qualify has_at short_name str is_empty str_eq cut_at_last
    equal_fold
spellings = refl

is_super_user-build_supers_example :
    (is_super_user sample_fqu
        (str "cs")
        (build_supers sample_fqu (str "cs") (str " condor " ∷ str "" ∷ []))
        (str "condor@child")
      ≡ true)
    ↔ ((is_empty (str "condor@child") ≡ false)
        × AnyAdmits sample_fqu (str "cs") (str "condor@child") (str " condor " ∷ str "" ∷ []))
is_super_user-build_supers_example =
    is_super_user-build_supers sample_fqu (str "cs") (str " condor " ∷ str "" ∷ [])
      (str "condor@child")
