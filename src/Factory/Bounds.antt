-- ===== src/Factory/Bounds.antt =====
-- The loop of materializeCluster, internal/factory/engine.go: it ends, within its limits.
use golang_ap.Prelude.{
  ℕ, zero, suc, ◌+◌, ◌≤◌, ◌<◌, ℤ, pos, negsuc, pos_part, ◌≤ℤ◌, Bool, true, false, Option, some,
  List, ◌≡◌, ◌≢◌, ◌⊎◌, refl, arith, ap, sym, subst, ◌∙◌, inl, inr, Bool-cases, ◌+ℤ◌, ltb, ltb_ℤ,
  if◌then◌else◌,
}
use golang_ap.Text.{Str}
use golang_ap.Queue.State.{World, Queue}
use golang_ap.Queue.TxnState.{Outcome, ok, denied, failed}
use golang_ap.Queue.Factory.{FactoryInfo, pause_no_more_items, materialize_late}
use golang_ap.Factory.Row.{Macros, Digest, row_index, materialize_row}
use golang_ap.Factory.Engine.{Pass, row_at, is_ok, store_proc, goes_on, top_up, begin_pass}

module _ (macros : Macros) (w : World) (d : Digest macros) (rows : List Str) (fi : FactoryInfo)
    (now : ℤ) (limit : ℕ) where
  -- MaterializeProc of proc k with its own ad, the next proc and the next row, paused at the limit.
  abbrev pub one_proc : ℕ → Queue w → Queue w × Outcome
  one_proc k q =
      materialize_late w q fi.cluster (pos k) now
        (some
          (materialize_row macros w d fi.cluster k (row_at macros w rows (row_index macros d k))))
        (pos (k + 1)) (pos (row_index macros d (k + 1)))
        (if ltb (k + 1) limit then pos 0 else pause_no_more_items)

  -- The queue q' is q with n procs more, from `from` on, each stored by its own commit.
  abbrev pub Stored : ℕ → Queue w → ℕ → Queue w → Type 0
  Stored from q zero q' = q' ≡ q
  Stored from q (suc n) q' = (r : Queue w) × Stored from q n r × (one_proc (from + n) r ≡ (q', ok))

  -- Where a pass that began at `from` stands in the queue after n procs: before the next one, or after
  -- the commit of the next one failed.
  abbrev pub IsAt : ℕ → Queue w → ℕ → Pass macros w → Type 0
  IsAt from q n s =
      ((s.returned ≡ false) × (s.next ≡ from + n) × Stored from q n s.queue)
      ⊎ ((s.returned ≡ true)
          × ((r : Queue w) × Stored from q n r
              × (s.queue ≡ (one_proc (from + n) r).0)
              × ((one_proc (from + n) r).1 ≢ ok)))

  -- Where a pass stands that began at `from` with `idle` idle procs on the queue q.
  abbrev pub IsPass : ℕ → ℤ → Queue w → Pass macros w → Type 0
  IsPass from idle q s =
      (n : ℕ) × IsAt from q n s
      × (s.idle ≡ idle +ℤ pos n)
      × ((n ≡ 0) ⊎ (from + n ≤ limit))
      × ((n ≡ 0) ⊎ ((ltb_ℤ fi.max_idle (pos 0) ≡ true) ⊎ (idle +ℤ pos n ≤ℤ fi.max_idle)))

  add_one : (a : ℤ) (n : ℕ) → (a +ℤ pos n) +ℤ pos 1 ≡ a +ℤ pos (suc n)
  add_one (pos a) n = ground arith
  add_one (negsuc a) n = ground arith

  going :
      (s : Pass macros w)
      → goes_on macros w fi limit s ≡ true
      → (s.next < limit)
        × (s.returned ≡ false)
        × ((ltb_ℤ fi.max_idle (pos 0) ≡ true) ⊎ (ltb_ℤ s.idle fi.max_idle ≡ true))
  unfolding goes_on
  going s h = elim (Bool-cases (ltb_ℤ fi.max_idle (pos 0))) [
    | inl e ↦ (ground (arith, h), ground (arith, h), inl e)
    | inr e ↦ elim (Bool-cases (ltb_ℤ s.idle fi.max_idle)) [
      | inl f ↦ (ground (arith, h), ground (arith, h), inr f)
      | inr f ↦ absurd (ground (arith, h, e, f))
    ]
  ]

  below : (k : ℤ) → ltb_ℤ k fi.max_idle ≡ true → (k +ℤ pos 1) ≤ℤ fi.max_idle
  below k g = ground arith

  -- The two ends of an iteration.
  store_proc-ok :
      (s : Pass macros w)
      → s.returned ≡ false
      → (one_proc s.next s.queue).1 ≡ ok
      → store_proc macros w d rows fi.cluster now limit s ≡ record {
        queue = (one_proc s.next s.queue).0;
        next = s.next + 1;
        idle = s.idle +ℤ pos 1;
        returned = false;
      }
  unfolding store_proc is_ok
  store_proc-ok s r h = rw (h, store_proc) refl

  store_proc-failed :
      (s : Pass macros w)
      → (one_proc s.next s.queue).1 ≢ ok
      → store_proc macros w d rows fi.cluster now limit s
        ≡ record s { queue = (one_proc s.next s.queue).0; next = s.next + 1; returned = true }
  unfolding store_proc is_ok
  store_proc-failed s h = rw (refused _ h, store_proc) refl
    where
      refused : (r : Outcome) → r ≢ ok → is_ok macros w r ≡ false
      refused ok h = absurd (h refl)
      refused denied h = refl
      refused failed h = refl

  outcome-cases : (r : Outcome) → (r ≡ ok) ⊎ (r ≢ ok)
  outcome-cases ok = inl refl
  outcome-cases denied = inr (λ e. cc)
  outcome-cases failed = inr (λ e. cc)

  store_one :
      (from : ℕ) (idle : ℤ) (q : Queue w) (s : Pass macros w)
      → IsPass from idle q s
      → goes_on macros w fi limit s ≡ true
      → IsPass from idle q (store_proc macros w d rows fi.cluster now limit s)
  store_one from idle q s (n, inr (ret, gone), count, bound, room) h =
      absurd (ground (arith, ret, (going s h).1))
  store_one from idle q s (n, inl (ret, at, stored), count, bound, room) h =
      elim (outcome-cases (one_proc s.next s.queue).1) [
        | inl good ↦ subst (IsPass from idle q) (sym (store_proc-ok s ret good)) (
          suc n,
          inl (refl, omega (arith, at), (s.queue, stored, next_one good)),
          ap (λ k. k +ℤ pos 1) count ∙ add_one idle n,
          inr (omega (arith, (going s h).0, at)),
          inr (roomy (going s h).2),
        )
        | inr bad ↦ subst (IsPass from idle q) (sym (store_proc-failed s bad)) (
          n,
          inr (
            refl,
            (
              s.queue,
              stored,
              ap (λ k. (one_proc k s.queue).0) at,
              subst (λ k. (one_proc k s.queue).1 ≢ ok) at bad,
            ),
          ),
          count,
          bound,
          room,
        )
      ]
    where
      next_one :
          (one_proc s.next s.queue).1 ≡ ok
          → one_proc (from + n) s.queue ≡ ((one_proc s.next s.queue).0, ok)
      next_one good =
          ap (λ k. one_proc k s.queue) (sym at) ∙ ap (λ r. ((one_proc s.next s.queue).0, r)) good

      roomy :
          (ltb_ℤ fi.max_idle (pos 0) ≡ true) ⊎ (ltb_ℤ s.idle fi.max_idle ≡ true)
          → (ltb_ℤ fi.max_idle (pos 0) ≡ true) ⊎ (idle +ℤ pos (suc n) ≤ℤ fi.max_idle)
      roomy (inl e) = inl e
      roomy (inr e) = inr (
          subst (λ k. k ≤ℤ fi.max_idle) (add_one idle n)
            (below (idle +ℤ pos n) (ap (λ k. ltb_ℤ k fi.max_idle) (sym count) ∙ e)))

  advanced :
      (s : Pass macros w) → (store_proc macros w d rows fi.cluster now limit s).next ≡ s.next + 1
  unfolding store_proc
  advanced s = after _ _
    where
      after :
          (good : Bool) (q : Queue w)
          → (if good
              then record { queue = q; next = s.next + 1; idle = s.idle +ℤ pos 1; returned = false }
              else record s { queue = q; next = s.next + 1; returned = true }).next
            ≡ s.next + 1
      after true q = refl
      after false q = refl

  -- A pass that came to its end.
  abbrev pub IsEnd : ℕ → ℤ → Queue w → Option (Pass macros w) → Type 0
  IsEnd from idle q o =
      (s : Pass macros w) × (o ≡ some s)
      × IsPass from idle q s
      × (goes_on macros w fi limit s ≡ false)

  top_up-IsEnd :
      (from : ℕ) (idle : ℤ) (q : Queue w) (fuel : ℕ) (s : Pass macros w)
      → IsPass from idle q s
      → limit < s.next + suc fuel
      → IsEnd from idle q (top_up macros w d rows fi now limit (suc fuel) s)
  unfolding top_up
  top_up-IsEnd from idle q zero s h b = elim (Bool-cases (goes_on macros w fi limit s)) [
    | inl e ↦ absurd (omega (arith, (going s e).0))
    | inr e ↦ rw e (s, refl, h, e)
  ]
  top_up-IsEnd from idle q (suc fuel) s h b = elim (Bool-cases (goes_on macros w fi limit s)) [
    | inl e ↦ rw e (
        top_up-IsEnd from idle q fuel (store_proc macros w d rows fi.cluster now limit s)
          (store_one from idle q s h e) (omega (arith, advanced s)))
    | inr e ↦ rw e (s, refl, h, e)
  ]

  -- A pass over a factory ends, and stops for a reason: the limit, MaxIdle or a failed commit. Its
  -- queue is the one it began with after MaterializeProc of consecutive procs from NextProcId on, each
  -- with the ad of its own row and each a success, and then, if it returned early, of one more that
  -- failed. Each stored proc is below the limit; the idle jobs are more by the number of those
  -- stored; and where there are any and MaxIdle is not negative, they are MaxIdle at most.
  pub top_up_ends :
      (q : Queue w)
      → IsEnd
          (pos_part fi.next_proc_id)
          fi.idle_procs
          q
          (top_up macros w d rows fi now limit (suc limit) (begin_pass macros w fi q))
  unfolding begin_pass
  top_up_ends q =
      top_up-IsEnd (pos_part fi.next_proc_id) fi.idle_procs q limit (begin_pass macros w fi q)
        (0, inl (refl, omega arith, refl), zero_more fi.idle_procs, inl refl, inl refl)
        (omega arith)
    where
      zero_more : (a : ℤ) → a ≡ a +ℤ pos 0
      zero_more a = ground arith
