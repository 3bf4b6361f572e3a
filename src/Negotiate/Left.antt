-- ===== src/Negotiate/Left.antt =====
-- How often a round of internal/negotiate/negotiate.go may still give out a job.
use golang_ap.Prelude.{
  ℕ, zero, suc, ◌+◌, ◌≤◌, true, false, Option, none, some, List, [], ◌∷◌, ◌≡◌, ◌⊎◌, ◌↔◌, refl,
  arith, ap, sym, ◌∙◌, inl, inr, Bool-cases, ◌==ℤ◌, ==ℤ_iff, if◌then◌else◌,
}
use golang_ap.Text.{Str, str}
use golang_ap.Rrl.{JobId, RequestGroup}
use golang_ap.Match.{ClaimLib}
use golang_ap.Queue.State.{World, Queue}
use golang_ap.Queue.Commit.{status_idle}
use golang_ap.Queue.Sched.{job_status}
use golang_ap.Sched.State.{NegotiatedMatch}
use golang_ap.Negotiate.{
  same_job, GroupState, find_group, put_group, Round, send_group, send_requests, first_idle,
  next_idle, handle_granted, of_group, forward, handle_reject, reject_group, or_last, group_of,
  parse_reject_rep, read_match, Message, send_job_info, send_resource_request_list,
  permission_and_ad, rejected_bare, rejected_with_reason, serve_message,
}

-- How often a job stands in a list.
abbrev pub count : JobId → List JobId → ℕ
count j [] = 0
count j (k ∷ ks) = if same_job k j then suc (count j ks) else count j ks

abbrev pub count_groups : JobId → List GroupState → ℕ
count_groups j [] = 0
count_groups j (g ∷ gs) = count j g.ids + count_groups j gs

same_job_iff : (a b : JobId) → (same_job a b ≡ true) ↔ (a ≡ b)
unfolding same_job
same_job_iff a b = ground (arith, ==ℤ_iff a.cluster b.cluster, ==ℤ_iff a.proc b.proc)

put_count :
    (j : JobId) (g : GroupState) (gs : List GroupState)
    → count_groups j (put_group g gs) ≤ count j g.ids + count_groups j gs
unfolding put_group
put_count j g [] = omega arith
put_count j g (h ∷ gs) = elim (Bool-cases (same_job h.rep g.rep)) [
  | inl e ↦ rw e (omega arith)
  | inr e ↦ rw e (omega (arith, put_count j g gs))
]

-- A group takes the place of the one found under its representative.
replace_count :
    (j rep : JobId) (g g' : GroupState) (gs : List GroupState)
    → find_group rep gs ≡ some g
    → g'.rep ≡ g.rep
    → count_groups j (put_group g' gs) + count j g.ids ≡ count j g'.ids + count_groups j gs
unfolding find_group put_group
replace_count j rep g g' [] h e = cc
replace_count j rep g g' (k ∷ gs) h e = elim (Bool-cases (same_job k.rep rep)) [
  | inl f ↦
      let same : k ≡ g = ground (arith, h, f) in
      rw ((same_job_iff k.rep g'.rep).1 (ap (λ x. x.rep) same ∙ sym e))
        (omega (arith, ap (λ x. count j x.ids) same))
  | inr f ↦
      let later : find_group rep gs ≡ some g = ground (arith, h, f) in
      rw (apart f (found_rep gs later)) (omega (arith, replace_count j rep g g' gs later e))
]
  where
    found_rep : (gs : List GroupState) → find_group rep gs ≡ some g → g.rep ≡ rep
    found_rep [] h = cc
    found_rep (k ∷ gs) h = elim (Bool-cases (same_job k.rep rep)) [
      | inl f ↦ ground (arith, h, f, same_job_iff k.rep rep)
      | inr f ↦ found_rep gs (ground (arith, h, f))
    ]

    apart : same_job k.rep rep ≡ false → g.rep ≡ rep → same_job k.rep g'.rep ≡ false
    apart f r = ground (arith, same_job_iff k.rep rep, same_job_iff k.rep g'.rep, e, r, f)

module _ (w : World) (claims : ClaimLib) where
  open w use {lib}

  abbrev pub count_cursor : JobId → List (RequestGroup lib) → ℕ
  count_cursor j [] = 0
  count_cursor j (g ∷ gs) = count j g.job_ids + count_cursor j gs

  -- How often a round may still give out the job.
  abbrev pub left : JobId → Round w claims → ℕ
  left j r = count_groups j r.by_rep + count_cursor j r.cursor

  abbrev pub counted : JobId → Option JobId → ℕ
  counted j none = 0
  counted j (some k) = if same_job k j then 1 else 0

  first_count :
      (j : JobId) (q : Queue w) (ids : List JobId)
      → counted j (first_idle w claims q ids).0 + count j (first_idle w claims q ids).1
        ≤ count j ids
  unfolding first_idle
  first_count j q [] = omega arith
  first_count j q (id ∷ ids) =
      elim (Bool-cases (job_status w id.cluster id.proc q ==ℤ status_idle)) [
        | inl e ↦ elim (Bool-cases (same_job id j)) [
          | inl f ↦ rw (e, f) (omega arith)
          | inr f ↦ rw (e, f) (omega arith)
        ]
        | inr e ↦ elim (Bool-cases (same_job id j)) [
          | inl f ↦ rw (e, f) (omega (arith, first_count j q ids))
          | inr f ↦ rw (e, f) (omega (arith, first_count j q ids))
        ]
      ]

  next_count :
      (j : JobId) (q : Queue w) (g : GroupState)
      → counted j (next_idle w claims q g).0 + count j (next_idle w claims q g).1.ids
        ≤ count j g.ids
  unfolding next_idle
  next_count j q g = elim (Bool-cases g.rejected) [
    | inl e ↦ rw e (omega arith)
    | inr e ↦ rw e (first_count j q g.ids)
  ]

  next_rep : (q : Queue w) (g : GroupState) → (next_idle w claims q g).1.rep ≡ g.rep
  unfolding next_idle
  next_rep q g = elim (Bool-cases g.rejected) [ inl e ↦ rw e refl | inr e ↦ rw e refl ]

  send_left :
      (j : JobId) (n : ℕ) (groups : List (RequestGroup lib)) (r : Round w claims)
      → r.cursor ≡ groups
      → left j (send_requests w claims n groups r) ≤ left j r
  unfolding send_requests
  send_left j zero groups r h = omega arith
  send_left j (suc n) [] r h = omega arith
  send_left j (suc n) (g ∷ groups) r h =
      let taken : Round w claims = record r { cursor = groups } in
      omega (
        arith,
        send_left j n groups (send_group w claims g g.job_ids taken)
            (offered-cursor g.job_ids taken),
        offered g.job_ids taken,
        ap (count_cursor j) h,
      )
    where
      offered-cursor :
          (ids : List JobId) (t : Round w claims) → (send_group w claims g ids t).cursor ≡ t.cursor
      offered-cursor [] t = unfold send_group in refl
      offered-cursor (id ∷ ids) t = unfold send_group in refl

      offered :
          (ids : List JobId) (t : Round w claims)
          → left j (send_group w claims g ids t) ≤ count j ids + left j t
      offered [] t = unfold send_group in omega arith
      offered (id ∷ ids) t = unfold send_group in omega (arith, put_count j _ t.by_rep)

  -- The job that a message gives to its match: the next Idle one of the group that the match is for.
  abbrev pub granted : Queue w → Message w claims → Round w claims → Option JobId
  granted q (permission_and_ad blob ad) r =
      let m = read_match w claims blob ad in
      elim (find_group (record { cluster = m.cluster; proc = m.proc }) r.by_rep) [
        | none ↦ none
        | some g ↦ (next_idle w claims q g).0
      ]
  granted q _ r = none

  granted_left :
      (j rep : JobId) (q : Queue w) (m : NegotiatedMatch w claims) (o : Option GroupState)
      (r : Round w claims)
      → find_group rep r.by_rep ≡ o
      → counted j (elim o [ none ↦ none | some g ↦ (next_idle w claims q g).0 ])
          + left j (of_group w claims q m o r)
        ≤ left j r
  unfolding of_group forward
  granted_left j rep q m none r h = omega arith
  granted_left j rep q m (some g) r h = omega (
    arith,
    next_count j q g,
    replace_count j rep g (next_idle w claims q g).1 r.by_rep h (next_rep q g),
  )

  rejected_left :
      (j : JobId) (o : Option GroupState) (r : Round w claims)
      → ((g : GroupState) → o ≡ some g → (k : JobId) × (find_group k r.by_rep ≡ some g))
      → left j (reject_group w claims o r) ≤ left j r
  unfolding reject_group
  rejected_left j none r h = omega arith
  rejected_left j (some g) r h =
      let (k, e) = h g refl in
      omega (arith, replace_count j k g (record g { rejected = true }) r.by_rep e refl)

  group_of_found :
      (o : Option JobId) (r : Round w claims) (g : GroupState)
      → group_of w claims o r ≡ some g
      → (k : JobId) × (find_group k r.by_rep ≡ some g)
  unfolding group_of
  group_of_found none r g h = cc
  group_of_found (some k) r g h = (k, h)

  or_last_found :
      (a b : Option GroupState) (g : GroupState)
      → or_last w claims a b ≡ some g
      → (a ≡ some g) ⊎ (b ≡ some g)
  unfolding or_last
  or_last_found none b g h = inr h
  or_last_found (some a) b g h = inl h

  reject_left :
      (j : JobId) (reason : Str) (r : Round w claims)
      → left j (handle_reject w claims reason r) ≤ left j r
  unfolding handle_reject
  reject_left j reason r = rejected_left j _ r (λ g e. elim (or_last_found _ _ g e) [
    | inl f ↦ group_of_found (parse_reject_rep reason) r g f
    | inr f ↦ group_of_found r.last r g f
  ])

  pub message_left :
      (j : JobId) (q : Queue w) (msg : Message w claims) (r : Round w claims)
      → counted j (granted q msg r) + left j (serve_message w claims q msg r) ≤ left j r
  unfolding serve_message handle_granted
  message_left j q send_job_info r = omega (arith, send_left j 1 r.cursor r refl)
  message_left j q (send_resource_request_list n) r = omega (arith, send_left j n r.cursor r refl)
  message_left j q (permission_and_ad blob ad) r =
      granted_left j _ q (read_match w claims blob ad) _ r refl
  message_left j q rejected_bare r = omega (arith, reject_left j (str "") r)
  message_left j q (rejected_with_reason reason) r = omega (arith, reject_left j reason r)
