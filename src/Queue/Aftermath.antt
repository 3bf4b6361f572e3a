-- ===== src/Queue/Aftermath.antt =====
-- What Commit of internal/queue/txn.go does after its batch: deletions, factories, SUBMIT events.
pub mod Effects
use golang_ap.Prelude.{
  ℤ, pos, Bool, false, not, ◌&&◌, ◌||◌, Option, none, some, List, [], ◌∷◌, ◌++◌, ◌≡◌, refl, sym,
  subst, ap, ◌∙◌, arith, ◌==ℤ◌, ==ℤ_iff, ltb_ℤ, if◌then◌else◌, Option-cases, Bool-cases, inl, inr,
}
use golang_ap.Text.{Str, member}
use golang_ap.Key.{job_key, parse_job_key}
use golang_ap.Queue.State.{
  World, Queue, LogEvent, submit, write_log, member_id, drop_id, note_factory, unnote_factory,
}
use golang_ap.Queue.TxnState.{Txn}
use golang_ap.Queue.Commit.{
  attr_digest_file, has_digest, delete_all, note_all, log_submits, after_batch, unnote_key,
  note_key, log_key,
}

-- A key of the ad of cluster c.
abbrev pub is_cluster : ℤ → Option (ℤ × ℤ) → Bool
is_cluster c none = false
is_cluster c (some (d, p)) = (d ==ℤ c) && ltb_ℤ p (pos 0)

module _ (w : World) where
  open w use {lib}

  -- The collection without the keys.
  abbrev pub without : List Str → w.Coll → w.Coll
  without [] coll = coll
  without (key ∷ keys) coll = without keys (w.remove coll key)

  -- The ad of cluster c is among the keys.
  abbrev pub drops : ℤ → List Str → Bool
  drops c [] = false
  drops c (key ∷ keys) = is_cluster c (parse_job_key key) || drops c keys

  -- An ad of cluster c with a digest is written and not destroyed.
  abbrev pub enters : ℤ → List Str → List (Str × lib.Ad) → Bool
  enters c destroyed [] = false
  enters c destroyed ((key, ad) ∷ rest) =
      (not (member key destroyed)
        && (is_cluster c (parse_job_key key) && has_digest w (lib.eval_string ad attr_digest_file)))
      || enters c destroyed rest

  abbrev pub event_of : Option lib.Ad → List (LogEvent w)
  event_of none = []
  event_of (some ad) = submit ad ∷ []

  -- The SUBMIT event of a key: one if its ad is in the collection.
  abbrev pub submit_of : w.Coll → Option (ℤ × ℤ) → List (LogEvent w)
  submit_of coll none = []
  submit_of coll (some (c, p)) = event_of (w.get coll (job_key c p))

  -- The events of the new procs that are not destroyed, in their order.
  abbrev pub submits : w.Coll → List Str → List Str → List (LogEvent w)
  submits coll destroyed [] = []
  submits coll destroyed (key ∷ keys) =
      (if member key destroyed then [] else submit_of coll (parse_job_key key))
      ++ submits coll destroyed keys

  -- A log, if there is one, with more events.
  abbrev pub extended : Option (List (LogEvent w)) → List (LogEvent w) → Option (List (LogEvent w))
  extended none evs = none
  extended (some log) evs = some (log ++ evs)

  -- What a commit of transaction t leaves after its batch brought queue q to collection coll.
  abbrev pub IsAftermath : Txn w → w.Coll → Queue w → Queue w → Type 0
  IsAftermath t coll q q' =
      (q'.coll ≡ without t.destroyed coll)
      × ((c : ℤ)
          → member_id w c q'.factories ≡ (
              enters c t.destroyed t.pending
              || (not (drops c t.destroyed) && member_id w c q.factories)))
      × (q'.log ≡ extended q.log (submits q'.coll t.destroyed t.new_procs))
      × (q'.hist ≡ q.hist)
      × (q'.next_id ≡ q.next_id)
