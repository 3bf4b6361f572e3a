-- ===== src/Sched/Runs.antt =====
-- The registry of running jobs of internal/sched/sched.go, as a map with one entry for a job.
use golang_ap.Prelude.{
  suc, true, none, some, [], ◌∷◌, ◌≡◌, ◌↔◌, refl, arith, ==ℤ_iff, length, if◌then◌else◌, is_some,
}
use golang_ap.Sched.State.{JobKey, same_key, RunInfo, Runs, find_run, put_run, drop_run}

pub same_key_iff : (j k : JobKey) → (same_key j k ≡ true) ↔ (j ≡ k)
unfolding same_key
same_key_iff (c, p) (d, r) = ground (arith, ==ℤ_iff c d, ==ℤ_iff p r)

pub same_key_refl : (k : JobKey) → same_key k k ≡ true
same_key_refl k = (same_key_iff k k).1 refl

pub find-put_run :
    (k j : JobKey) (ri : RunInfo) (m : Runs)
    → find_run j (put_run k ri m) ≡ (if same_key k j then some ri else find_run j m)
unfolding find_run put_run
find-put_run k j ri [] = refl
find-put_run k j ri ((i, r) ∷ m) =
    ground (arith, same_key_iff k j, same_key_iff i k, same_key_iff i j, find-put_run k j ri m)

pub find-drop_run :
    (k j : JobKey) (m : Runs)
    → find_run j (drop_run k m) ≡ (if same_key k j then none else find_run j m)
unfolding find_run drop_run
find-drop_run k j [] = ground arith
find-drop_run k j ((i, r) ∷ m) =
    ground (arith, same_key_iff k j, same_key_iff i k, same_key_iff i j, find-drop_run k j m)

-- One entry for a job.
abbrev pub IsMap : Runs → Type 0
IsMap [] = Unit
IsMap ((k, ri) ∷ m) = (find_run k m ≡ none) × IsMap m

pub put-IsMap : (k : JobKey) (ri : RunInfo) (m : Runs) → IsMap m → IsMap (put_run k ri m)
unfolding find_run put_run
put-IsMap k ri [] h = (refl, tt)
put-IsMap k ri ((j, r) ∷ m) h =
    ground (arith, same_key_iff j k, same_key_iff k j, find-put_run k j ri m, put-IsMap k ri m h.1)

pub drop-IsMap : (k : JobKey) (m : Runs) → IsMap m → IsMap (drop_run k m)
unfolding find_run drop_run
drop-IsMap k [] h = tt
drop-IsMap k ((j, r) ∷ m) h = ground (arith, find-drop_run k j m, drop-IsMap k m h.1)

pub length-put_run :
    (k : JobKey) (ri : RunInfo) (m : Runs)
    → length (put_run k ri m) ≡ (if is_some (find_run k m) then length m else suc (length m))
unfolding find_run put_run
length-put_run k ri [] = refl
length-put_run k ri ((j, r) ∷ m) = ground (arith, length-put_run k ri m)

pub drop-absent : (k : JobKey) (m : Runs) → find_run k m ≡ none → drop_run k m ≡ m
unfolding find_run drop_run
drop-absent k [] h = refl
drop-absent k ((j, r) ∷ m) h = ground (arith, drop-absent k m)

pub length-drop_run :
    (k : JobKey) (ri : RunInfo) (m : Runs)
    → IsMap m
    → find_run k m ≡ some ri
    → suc (length (drop_run k m)) ≡ length m
unfolding find_run drop_run
length-drop_run k ri [] h e = cc
length-drop_run k ri ((j, r) ∷ m) h e =
    ground (arith, same_key_iff j k, drop-absent k m, length-drop_run k ri m h.1)
