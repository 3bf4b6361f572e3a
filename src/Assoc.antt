-- ===== src/Assoc.antt =====
-- A Go map with string keys, as an association list in the order of insertion.
pub mod Distinct
use golang_ap.Prelude.{Option, none, some, List, [], ◌∷◌, ◌≡◌, refl, arith, if◌then◌else◌}
use golang_ap.Text.{Str, str_eq, str_eq_iff}

module _ {ℓ} {V : Type ℓ} where
  unfoldable pub find : Str → List (Str × V) → Option V
  find k [] = none
  find k ((j, v) ∷ m) = if str_eq j k then some v else find k m

  -- m[k] = v
  unfoldable pub put : Str → V → List (Str × V) → List (Str × V)
  put k v [] = (k, v) ∷ []
  put k v ((j, w) ∷ m) = if str_eq j k then (j, v) ∷ m else (j, w) ∷ put k v m

  -- delete(m, k)
  unfoldable pub drop : Str → List (Str × V) → List (Str × V)
  drop k [] = []
  drop k ((j, v) ∷ m) = let rest = drop k m in if str_eq j k then rest else (j, v) ∷ rest

  pub find-put :
      (k j : Str) (v : V) (m : List (Str × V))
      → find j (put k v m) ≡ (if str_eq k j then some v else find j m)
  unfolding find put
  find-put k j v [] = refl
  find-put k j v ((i, w) ∷ m) =
      ground (arith, str_eq_iff k j, str_eq_iff i k, str_eq_iff i j, find-put k j v m)

  pub find-drop :
      (k j : Str) (m : List (Str × V)) → find j (drop k m) ≡ (if str_eq k j then none else find j m)
  unfolding find drop
  find-drop k j [] = ground arith
  find-drop k j ((i, w) ∷ m) =
      ground (arith, str_eq_iff k j, str_eq_iff i k, str_eq_iff i j, find-drop k j m)
