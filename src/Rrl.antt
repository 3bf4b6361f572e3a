-- ===== src/Rrl.antt =====
-- internal/queue/rrl.go: the resource-request list, the idle jobs of a submitter folded into groups.
mod Runs
mod Feed
mod Examples
use golang_ap.Prelude.{
  ℕ, ℤ, Bool, true, false, Option, none, some, List, [], ◌∷◌, ◌++◌, ◌==◌, if◌then◌else◌,
}
use golang_ap.Text.{Str, str}
use golang_ap.ClassAd.{ClassAdLib}
use golang_ap.User.{Fqu, short_name}

pub record JobId : Type 0 where
  pub cluster : ℤ
  pub proc : ℤ

module _ (lib : ClassAdLib) where
  open lib use {Ad, eval_int}

  pub record RequestGroup : Type 0 where
    pub checksum : ℕ
    pub rep : Ad
    pub job_ids : List JobId

  job_id_of : Option ℤ → Option ℤ → Option JobId
  job_id_of (some c) (some p) = some (record { cluster = c; proc = p })
  job_id_of _ _ = none

  -- The two attributes of an indexed ad; none where the loop body continues.
  unfoldable pub id_of : Ad → Option JobId
  unfolding job_id_of
  id_of ad = job_id_of (eval_int ad (str "ClusterId")) (eval_int ad (str "ProcId"))

  -- `collections.ProjectionChecksum` is not part of the repository.
  module _ (projection_checksum : Ad → List Str → ℕ) (projection : List Str) where
    unfoldable pub new_group : Ad → JobId → RequestGroup
    new_group ad id = record {
      checksum = projection_checksum ad projection;
      rep = ad;
      job_ids = id ∷ [];
    }

    -- `yield`, over the consumer's state: its answer false stops the iteration.
    module _ {S : Type 0} (yield : S → RequestGroup → S × Bool) where
      pub finish : S → Option RequestGroup → S
      finish s none = s
      finish s (some cur) = (yield s cur).0

      -- The loop; `cur` is none while `have` is false.
      unfoldable pub group_loop : S → Option RequestGroup → List Ad → S
      unfolding finish
      group_loop s cur [] = finish s cur
      group_loop s cur (ad ∷ ads) = elim (id_of ad) [
        | none ↦ group_loop s cur ads
        | some id ↦ elim cur [
          | none ↦ group_loop s (some (new_group ad id)) ads
          | some g ↦ elim (projection_checksum ad projection == g.checksum) [
            | true ↦ group_loop s (some (record g { job_ids = g.job_ids ++ (id ∷ []) })) ads
            | false ↦ elim (yield s g).1 [
              | true ↦ group_loop (yield s g).0 (some (new_group ad id)) ads
              | false ↦ (yield s g).0
            ]
          ]
        ]
      ]

      -- `ordered` is the index of the collection, a submitter's idle jobs in priority order.
      unfoldable pub idle_request_groups : Fqu → (Str → List Ad) → Str → S → S
      unfolding group_loop
      idle_request_groups fqu ordered submitter s =
          group_loop s none (ordered (short_name fqu submitter))
