-- ===== src/Assoc/Distinct.antt =====
-- Association lists with one entry for a key: what put and drop keep.
use golang_ap.Prelude.{none, List, [], ◌∷◌, ◌≡◌, refl, arith}
use golang_ap.Text.{Str, str_eq_iff}
use golang_ap.Assoc.{find, put, drop, find-put, find-drop}

module _ {ℓ} {V : Type ℓ} where
  abbrev pub IsDistinct : List (Str × V) → Type ℓ
  IsDistinct [] = Unit
  IsDistinct ((k, v) ∷ m) = (find k m ≡ none) × IsDistinct m

  pub put-IsDistinct :
      (k : Str) (v : V) (m : List (Str × V)) → IsDistinct m → IsDistinct (put k v m)
  unfolding find put
  put-IsDistinct k v [] h = (refl, tt)
  put-IsDistinct k v ((j, w) ∷ m) h =
      ground (arith, str_eq_iff j k, str_eq_iff k j, find-put k j v m, put-IsDistinct k v m h.1)

  pub drop-IsDistinct : (k : Str) (m : List (Str × V)) → IsDistinct m → IsDistinct (drop k m)
  unfolding find drop
  drop-IsDistinct k [] h = tt
  drop-IsDistinct k ((j, w) ∷ m) h = ground (arith, find-drop k j m, drop-IsDistinct k m h.1)
