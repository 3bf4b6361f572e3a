-- ===== src/Factory/Engine.antt =====
-- internal/factory/engine.go: one pass over a cluster.
use golang_ap.Prelude.{
  ℕ, zero, suc, ◌+◌, ◌*◌, ℤ, pos, pos_part, Bool, true, false, not, ◌&&◌, Option, none, some, List,
  [], ◌∷◌, ◌==◌, ◌==ℤ◌, ◌+ℤ◌, ltb, ltb_ℤ, length, if◌then◌else◌,
}
use golang_ap.Text.{Str, str}
use golang_ap.Queue.State.{World, Queue}
use golang_ap.Queue.TxnState.{Outcome, ok}
use golang_ap.Queue.Factory.{
  FactoryInfo, pause_no_more_items, factory_info, materialize_late, pause_factory, maybe_cleanup,
}
use golang_ap.Factory.Row.{Macros, Digest, row_index, materialize_row}

module _ (macros : Macros) where
  module _ (w : World) where
    open w use {lib}
    open lib use {Ad}

    unfoldable pub row_at : List Str → ℕ → Str
    row_at [] row = str ""
    row_at (r ∷ rows) zero = r
    row_at (r ∷ rows) (suc row) = row_at rows row

    unfoldable pub total_procs_of : Digest macros → List Str → ℕ
    total_procs_of d rows = d.queue_num * (if length rows == 0 then 1 else length rows)

    unfoldable pub limit_of : FactoryInfo → ℕ → ℕ
    limit_of fi total =
        if ltb_ℤ (pos 0) fi.limit && ltb_ℤ fi.limit (pos total) then pos_part fi.limit else total

    -- The loop's state: the queue, the next proc and the idle ones. It has returned after a failed
    -- commit.
    pub record Pass : Type 0 where
      pub queue : Queue w
      pub next : ℕ
      pub idle : ℤ
      pub returned : Bool

    unfoldable pub is_ok : Outcome → Bool
    is_ok ok = true
    is_ok _ = false

    unfoldable pub store_proc : Digest macros → List Str → ℤ → ℤ → ℕ → Pass → Pass
    unfolding materialize_row row_index row_at is_ok
    store_proc d rows c now limit s =
        let next = s.next + 1 in
        let (queue, outcome) =
          materialize_late w s.queue c (pos s.next) now
            (some (materialize_row macros w d c s.next (row_at rows (row_index macros d s.next))))
            (pos next) (pos (row_index macros d next))
            (if ltb next limit then pos 0 else pause_no_more_items) in
        if is_ok outcome
        then record { queue = queue; next = next; idle = s.idle +ℤ pos 1; returned = false }
        else record s { queue = queue; next = next; returned = true }

    -- The loop condition and the check of max_idle.
    unfoldable pub goes_on : FactoryInfo → ℕ → Pass → Bool
    goes_on fi limit s =
        (ltb s.next limit && not s.returned)
        && not (not (ltb_ℤ fi.max_idle (pos 0)) && not (ltb_ℤ s.idle fi.max_idle))

    unfoldable pub top_up : Digest macros → List Str → FactoryInfo → ℤ → ℕ → ℕ → Pass → Option Pass
    unfolding store_proc goes_on
    top_up d rows fi now limit zero s = none
    top_up d rows fi now limit (suc fuel) s =
        let rest = top_up d rows fi now limit fuel (store_proc d rows fi.cluster now limit s) in
        if goes_on fi limit s then rest else some s

    unfoldable pub begin_pass : FactoryInfo → Queue w → Pass
    begin_pass fi q = record {
      queue = q;
      next = pos_part fi.next_proc_id;
      idle = fi.idle_procs;
      returned = false;
    }

    unfoldable pub finish_pass : FactoryInfo → ℕ → Queue w → Option Pass → Queue w
    finish_pass fi limit q none = q
    finish_pass fi limit q (some s) =
        if not s.returned && not (ltb s.next limit)
        then pause_factory w fi.cluster pause_no_more_items s.queue
        else s.queue

    -- materializeCluster with what loadFactory answers, none for an error.
    unfoldable pub top_up_cluster :
        Option (Digest macros × List Str) → FactoryInfo → ℤ → Queue w → Queue w
    unfolding top_up begin_pass finish_pass limit_of total_procs_of
    top_up_cluster none fi now q = pause_factory w fi.cluster pause_no_more_items q
    top_up_cluster (some (d, rows)) fi now q =
        let limit = limit_of fi (total_procs_of d rows) in
        finish_pass fi limit q (top_up d rows fi now limit (suc limit) (begin_pass fi q))

    unfoldable pub materialize_info :
        Option (Digest macros × List Str) → Option FactoryInfo → ℤ → Queue w → Queue w
    unfolding top_up_cluster
    materialize_info loaded none now q = q
    materialize_info loaded (some fi) now q =
        if fi.paused ==ℤ pos 0
        then top_up_cluster loaded fi now q
        else (maybe_cleanup w fi.cluster q).0

    unfoldable pub materialize_cluster_now :
        Option (Digest macros × List Str) → ℤ → ℤ → Queue w → Queue w
    unfolding materialize_info
    materialize_cluster_now loaded c now q = materialize_info loaded (factory_info w q c) now q
