-- ===== src/Queue/Sched.antt =====
-- internal/queue/sched.go and spool.go: what the scheduler core and the spool handlers ask of the queue.
use golang_ap.Prelude.{
  ℤ, pos, Bool, true, false, ◌&&◌, Option, none, some, List, [], ◌∷◌, ◌==ℤ◌, if◌then◌else◌,
}
use golang_ap.Text.{Str, str, is_empty, str_eq}
use golang_ap.Key.{job_key}
use golang_ap.User.{short_name}
use golang_ap.Queue.State.{World, Queue, owner_of, is_super, same}
use golang_ap.Queue.Commit.{status_idle}
use golang_ap.Queue.Actions.{int_attr}

module _ (w : World) where
  open w use {fqu, lib, get, put, scan}
  open lib use {Ad, eval_string}

  stored : Queue w → Option w.Coll → Queue w × Bool
  stored q none = (q, false)
  stored q (some coll) = (record q { coll = coll }, true)

  -- Modify; the callback `fn` is a function of the ad.
  unfoldable pub modify : ℤ → ℤ → (Ad → Ad) → Queue w → Queue w × Bool
  unfolding stored
  modify c p fn q = elim (get q.coll (job_key c p)) [
    | none ↦ (q, false)
    | some ad ↦ stored q (put q.coll (job_key c p) (fn ad))
  ]

  status_of : Option Ad → ℤ
  status_of none = pos 0
  status_of (some ad) = int_attr w ad (str "JobStatus")

  unfoldable pub job_status : ℤ → ℤ → Queue w → ℤ
  unfolding status_of
  job_status c p q = status_of (get q.coll (job_key c p))

  owner_or : Str → Option Str → Str
  owner_or user none = short_name fqu user
  owner_or user (some owner) = if is_empty owner then short_name fqu user else owner

  unfoldable pub job_owner : Queue w → Ad → Str
  unfolding owner_or
  job_owner q ad = owner_or (owner_of w q ad) (eval_string ad (str "Owner"))

  idle_of : Queue w → Str → List Ad → List Ad
  unfolding job_owner
  idle_of q owner [] = []
  idle_of q owner (ad ∷ ads) =
      let rest = idle_of q owner ads in
      if (int_attr w ad (str "JobStatus") ==ℤ status_idle) && str_eq (job_owner q ad) owner
      then ad ∷ rest
      else rest

  unfoldable pub idle_jobs_for_submitter : Queue w → Str → List Ad
  unfolding idle_of
  idle_jobs_for_submitter q submitter = idle_of q (short_name fqu submitter) (scan q.coll)

  -- A nil ad is none.
  unfoldable pub owns_job_ad : Queue w → Str → Option Ad → Bool
  owns_job_ad q user none = false
  owns_job_ad q user (some ad) = if is_super w q user then true else same w q user (owner_of w q ad)
