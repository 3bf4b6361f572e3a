-- ===== src/Negotiate/Assign.antt =====
-- The jobs that a round of internal/negotiate/negotiate.go gives to matches.
use golang_ap.Prelude.{
  ℕ, zero, suc, ◌+◌, ◌≤◌, false, Option, none, some, List, [], ◌∷◌, ◌≡◌, refl, ltb_ℤ, pos, negsuc,
  ◌++◌, arith, ap, ◌∙◌, inl, inr, Bool-cases, ==ℤ_iff,
}
use golang_ap.Text.{Str, str}
use golang_ap.Rrl.{JobId, RequestGroup}
use golang_ap.Match.{ClaimLib}
use golang_ap.Queue.State.{World, Queue}
use golang_ap.Sched.State.{NegotiatedMatch}
use golang_ap.Negotiate.{
  same_job, GroupState, find_group, Round, send_group, send_requests, next_idle, begin_round,
  handle_granted, of_group, assign, forward, handle_reject, reject_group, read_match, Message,
  send_job_info, send_resource_request_list, permission_and_ad, rejected_bare, rejected_with_reason,
  serve_message,
}
use golang_ap.Negotiate.Left.{count, counted, count_cursor, left, granted, message_left}

module _ (w : World) (claims : ClaimLib) where
  open w use {lib}

  -- The messages of a round, each with the queue as it is then.
  abbrev pub serve_all : List (Queue w × Message w claims) → Round w claims → Round w claims
  serve_all [] r = r
  serve_all ((q, msg) ∷ msgs) r = serve_all msgs (serve_message w claims q msg r)

  -- The jobs of the matches that were passed to onMatch.
  abbrev pub matched_jobs : List (NegotiatedMatch w claims) → List JobId
  matched_jobs [] = []
  matched_jobs (m ∷ ms) = record { cluster = m.cluster; proc = m.proc } ∷ matched_jobs ms

  -- The negotiator matches a request that was offered: it names the representative of a group.
  abbrev pub Answers : Message w claims → Round w claims → Type 0
  Answers (permission_and_ad blob ad) r =
      let m = read_match w claims blob ad in
      (g : GroupState) × (find_group (record { cluster = m.cluster; proc = m.proc }) r.by_rep
        ≡ some g)
  Answers _ r = Unit

  abbrev pub AllAnswer : List (Queue w × Message w claims) → Round w claims → Type 0
  AllAnswer [] r = Unit
  AllAnswer ((q, msg) ∷ msgs) r = Answers msg r × AllAnswer msgs (serve_message w claims q msg r)

  count_snoc :
      (j : JobId) (m : NegotiatedMatch w claims) (ms : List (NegotiatedMatch w claims))
      → count j (matched_jobs (ms ++ (m ∷ [])))
        ≡ count j (matched_jobs ms)
          + counted w claims j (some (record { cluster = m.cluster; proc = m.proc }))
  count_snoc j m [] =
      elim (Bool-cases (same_job (record { cluster = m.cluster; proc = m.proc }) j)) [
        | inl e ↦ rw e (omega arith)
        | inr e ↦ rw e (omega arith)
      ]
  count_snoc j m (k ∷ ms) =
      elim (Bool-cases (same_job (record { cluster = k.cluster; proc = k.proc }) j)) [
        | inl e ↦ rw e (omega (arith, count_snoc j m ms))
        | inr e ↦ rw e (omega (arith, count_snoc j m ms))
      ]

  surplus :
      (j : JobId)
      → ltb_ℤ j.cluster (pos 0) ≡ false
      → same_job (record { cluster = negsuc 0; proc = negsuc 0 }) j ≡ false
  unfolding same_job
  surplus j h = ground (arith, ==ℤ_iff (negsuc 0) j.cluster)

  assigned :
      (j : JobId) (o : Option JobId) (m : NegotiatedMatch w claims) (r : Round w claims)
      → ltb_ℤ j.cluster (pos 0) ≡ false
      → count j (matched_jobs (forward w claims (assign w claims o m) r).matches)
        ≡ count j (matched_jobs r.matches) + counted w claims j o
  unfolding forward assign
  assigned j none m r h = count_snoc j _ r.matches ∙ rw (surplus j h) (omega arith)
  assigned j (some k) m r h = count_snoc j _ r.matches

  sent-matches :
      (n : ℕ) (groups : List (RequestGroup lib)) (r : Round w claims)
      → (send_requests w claims n groups r).matches ≡ r.matches
  unfolding send_requests
  sent-matches zero groups r = refl
  sent-matches (suc n) [] r = refl
  sent-matches (suc n) (g ∷ groups) r =
      sent-matches n groups (send_group w claims g g.job_ids (record r { cursor = groups }))
      ∙ offered g.job_ids (record r { cursor = groups })
    where
      offered :
          (ids : List JobId) (t : Round w claims)
          → (send_group w claims g ids t).matches ≡ t.matches
      offered [] t = unfold send_group in refl
      offered (id ∷ ids) t = unfold send_group in refl

  rejected-matches :
      (reason : Str) (r : Round w claims) → (handle_reject w claims reason r).matches ≡ r.matches
  unfolding handle_reject
  rejected-matches reason r = kept _
    where
      kept : (o : Option GroupState) → (reject_group w claims o r).matches ≡ r.matches
      kept none = unfold reject_group in refl
      kept (some g) = unfold reject_group in refl

  picked :
      (j : JobId) (q : Queue w) (m : NegotiatedMatch w claims) (o : Option GroupState)
      (g : GroupState) (r : Round w claims)
      → ltb_ℤ j.cluster (pos 0) ≡ false
      → o ≡ some g
      → count j (matched_jobs (of_group w claims q m o r).matches)
        ≡ count j (matched_jobs r.matches)
          + counted w claims j (elim o [ none ↦ none | some k ↦ (next_idle w claims q k).0 ])
  unfolding of_group
  picked j q m none g r h f = cc
  picked j q m (some k) g r h f = assigned j _ m (record r { by_rep = _ }) h

  -- A message adds to the matches the job that it gives out.
  message_matches :
      (j : JobId) (q : Queue w) (msg : Message w claims) (r : Round w claims)
      → ltb_ℤ j.cluster (pos 0) ≡ false
      → Answers msg r
      → count j (matched_jobs (serve_message w claims q msg r).matches)
        ≡ count j (matched_jobs r.matches) + counted w claims j (granted w claims q msg r)
  unfolding serve_message handle_granted
  message_matches j q send_job_info r h a =
      ap (λ ms. count j (matched_jobs ms)) (sent-matches 1 r.cursor r) ∙ omega arith
  message_matches j q (send_resource_request_list n) r h a =
      ap (λ ms. count j (matched_jobs ms)) (sent-matches n r.cursor r) ∙ omega arith
  message_matches j q (permission_and_ad blob ad) r h (g, f) =
      picked j q (read_match w claims blob ad) _ g r h f
  message_matches j q rejected_bare r h a =
      ap (λ ms. count j (matched_jobs ms)) (rejected-matches (str "") r) ∙ omega arith
  message_matches j q (rejected_with_reason reason) r h a =
      ap (λ ms. count j (matched_jobs ms)) (rejected-matches reason r) ∙ omega arith

  matched-left :
      (j : JobId) (msgs : List (Queue w × Message w claims)) (r : Round w claims)
      → ltb_ℤ j.cluster (pos 0) ≡ false
      → AllAnswer msgs r
      → count j (matched_jobs (serve_all msgs r).matches) + left w claims j (serve_all msgs r)
        ≤ count j (matched_jobs r.matches) + left w claims j r
  matched-left j [] r h a = omega arith
  matched-left j ((q, msg) ∷ msgs) r h a = omega (
    arith,
    message_left w claims j q msg r,
    message_matches j q msg r h a.0,
    matched-left j msgs (serve_message w claims q msg r) h a.1,
  )

  -- Over a whole round, however the queue changes, if each match of the negotiator names the
  -- representative of a group that was offered: a job is passed to onMatch no more often than it
  -- stands in the groups of the round, counted with what may still be given out after. With each job
  -- in one group once, it is matched once at most.
  pub given_at_most :
      (j : JobId) (groups : List (RequestGroup lib)) (msgs : List (Queue w × Message w claims))
      → ltb_ℤ j.cluster (pos 0) ≡ false
      → AllAnswer msgs (begin_round w claims groups)
      → let r = serve_all msgs (begin_round w claims groups) in
        count j (matched_jobs r.matches) + left w claims j r ≤ count_cursor w claims j groups
  unfolding begin_round
  given_at_most j groups msgs h a =
      omega (arith, matched-left j msgs (begin_round w claims groups) h a)
