-- ===== src/Queue/Aftermath/Effects.antt =====
-- after_batch of internal/queue/txn.go, operation by operation, meets its description.
use mathlib.Core.List.{append_assoc, append-nil}
use golang_ap.Prelude.{
  ℤ, pos, not, ◌&&◌, ◌||◌, Option, none, some, List, [], ◌∷◌, ◌++◌, ◌≡◌, refl, sym, subst, ap, ◌∙◌,
  arith, ◌==ℤ◌, ==ℤ_iff, ltb_ℤ, Option-cases, Bool-cases, inl, inr,
}
use golang_ap.Text.{Str, member}
use golang_ap.Key.{job_key, parse_job_key}
use golang_ap.Queue.State.{
  World, Queue, LogEvent, submit, write_log, member_id, note_factory, unnote_factory,
}
use golang_ap.Queue.TxnState.{Txn}
use golang_ap.Queue.Commit.{
  attr_digest_file, has_digest, delete_all, note_all, log_submits, after_batch, unnote_key,
  note_key, log_key,
}
use golang_ap.Queue.FactoryLaws.{drop_id-member}
use golang_ap.Queue.Aftermath.{
  is_cluster, without, drops, enters, event_of, submit_of, submits, extended, IsAftermath,
}

module _ (w : World) where
  open w use {lib}

  note-member :
      (c d : ℤ) (ids : List ℤ) → member_id w d (ids ++ (c ∷ [])) ≡ ((c ==ℤ d) || member_id w d ids)
  unfolding member_id
  note-member c d [] = refl
  note-member c d (i ∷ ids) = ground (arith, note-member c d ids)

  unnote_key-effect :
      (o : Option (ℤ × ℤ)) (q : Queue w)
      → ((unnote_key w o q).coll ≡ q.coll)
        × ((d : ℤ)
            → member_id w d (unnote_key w o q).factories
              ≡ (not (is_cluster d o) && member_id w d q.factories))
        × ((unnote_key w o q).log ≡ q.log)
        × ((unnote_key w o q).hist ≡ q.hist)
        × ((unnote_key w o q).next_id ≡ q.next_id)
  unfolding unnote_key unnote_factory
  unnote_key-effect none q = (refl, λ d. refl, refl, refl, refl)
  unnote_key-effect (some (c, p)) q = elim (Bool-cases (ltb_ℤ p (pos 0))) [
    | inl e ↦ rw e (refl, λ d. ground (arith, drop_id-member w c d q.factories), refl, refl, refl)
    | inr e ↦ rw e (refl, λ d. ground arith, refl, refl, refl)
  ]

  delete_all-effect :
      (keys : List Str) (q : Queue w)
      → ((delete_all w keys q).coll ≡ without w keys q.coll)
        × ((d : ℤ)
            → member_id w d (delete_all w keys q).factories
              ≡ (not (drops w d keys) && member_id w d q.factories))
        × ((delete_all w keys q).log ≡ q.log)
        × ((delete_all w keys q).hist ≡ q.hist)
        × ((delete_all w keys q).next_id ≡ q.next_id)
  unfolding delete_all
  delete_all-effect [] q = (refl, λ d. refl, refl, refl, refl)
  delete_all-effect (key ∷ keys) q =
      let q1 : Queue w = record q { coll = w.remove q.coll key } in
      let first = unnote_key-effect (parse_job_key key) q1 in
      let rest = delete_all-effect keys (unnote_key w (parse_job_key key) q1) in
      (
        rest.0 ∙ ap (without w keys) first.0,
        λ d. ground (arith, first.1 d, rest.1 d),
        rest.2 ∙ first.2,
        rest.3 ∙ first.3,
        rest.4 ∙ first.4,
      )

  note_key-effect :
      (o : Option (ℤ × ℤ)) (ad : lib.Ad) (q : Queue w)
      → ((note_key w o ad q).coll ≡ q.coll)
        × ((d : ℤ)
            → member_id w d (note_key w o ad q).factories ≡ (
                (is_cluster d o && has_digest w (lib.eval_string ad attr_digest_file))
                || member_id w d q.factories))
        × ((note_key w o ad q).log ≡ q.log)
        × ((note_key w o ad q).hist ≡ q.hist)
        × ((note_key w o ad q).next_id ≡ q.next_id)
  unfolding note_key note_factory
  note_key-effect none ad q = (refl, λ d. refl, refl, refl, refl)
  note_key-effect (some (c, p)) ad q = (
    ground arith,
    λ d. ground (arith, note-member c d q.factories, ==ℤ_iff c d),
    ground arith,
    ground arith,
    ground arith,
  )

  note_all-effect :
      (destroyed : List Str) (entries : List (Str × lib.Ad)) (q : Queue w)
      → ((note_all w destroyed entries q).coll ≡ q.coll)
        × ((d : ℤ)
            → member_id w d (note_all w destroyed entries q).factories
              ≡ (enters w d destroyed entries || member_id w d q.factories))
        × ((note_all w destroyed entries q).log ≡ q.log)
        × ((note_all w destroyed entries q).hist ≡ q.hist)
        × ((note_all w destroyed entries q).next_id ≡ q.next_id)
  unfolding note_all
  note_all-effect destroyed [] q = (refl, λ d. refl, refl, refl, refl)
  note_all-effect destroyed ((key, ad) ∷ entries) q = elim (Bool-cases (member key destroyed)) [
    | inl e ↦ rw (e, note_all) (note_all-effect destroyed entries q)
    | inr e ↦
        let first = note_key-effect (parse_job_key key) ad q in
        let rest = note_all-effect destroyed entries (note_key w (parse_job_key key) ad q) in
        rw (e, note_all)
          (
            rest.0 ∙ first.0,
            λ d. ground (arith, first.1 d, rest.1 d),
            rest.2 ∙ first.2,
            rest.3 ∙ first.3,
            rest.4 ∙ first.4,
          )
  ]

  extended-twice :
      (log : Option (List (LogEvent w))) (xs ys : List (LogEvent w))
      → extended w (extended w log xs) ys ≡ extended w log (xs ++ ys)
  extended-twice none xs ys = refl
  extended-twice (some log) xs ys = ap some (append_assoc log xs ys)

  extended-none : (log : Option (List (LogEvent w))) → log ≡ extended w log []
  extended-none none = refl
  extended-none (some log) = ap some (sym (append-nil log))

  abbrev Logged : List (LogEvent w) → Queue w → Queue w → Type 0
  Logged evs q q' =
      (q'.coll ≡ q.coll)
      × (q'.factories ≡ q.factories)
      × (q'.log ≡ extended w q.log evs)
      × (q'.hist ≡ q.hist)
      × (q'.next_id ≡ q.next_id)

  write_log-Logged : (ev : LogEvent w) (q : Queue w) → Logged (ev ∷ []) q (write_log w ev q)
  unfolding write_log
  write_log-Logged ev q = elim (Option-cases q.log) [
    | inl e ↦ rw e (refl, refl, refl, refl, refl)
    | inr (evs, e) ↦ rw e (refl, refl, refl, refl, refl)
  ]

  log_key-Logged :
      (o : Option (ℤ × ℤ)) (q : Queue w) → Logged (submit_of w q.coll o) q (log_key w o q)
  unfolding log_key
  log_key-Logged none q = (refl, refl, extended-none q.log, refl, refl)
  log_key-Logged (some (c, p)) q = elim (Option-cases (w.get q.coll (job_key c p))) [
    | inl e ↦
        subst (λ o. Logged (event_of w o) q (log_key w (some (c, p)) q)) (sym e)
          (rw (e, log_key) (refl, refl, extended-none q.log, refl, refl))
    | inr (ad, e) ↦
        subst (λ o. Logged (event_of w o) q (log_key w (some (c, p)) q)) (sym e)
          (rw (e, log_key) (write_log-Logged (submit ad) q))
  ]

  log_submits-Logged :
      (destroyed keys : List Str) (q : Queue w)
      → Logged (submits w q.coll destroyed keys) q (log_submits w destroyed keys q)
  unfolding log_submits
  log_submits-Logged destroyed [] q = (refl, refl, extended-none q.log, refl, refl)
  log_submits-Logged destroyed (key ∷ keys) q = elim (Bool-cases (member key destroyed)) [
    | inl e ↦ rw (e, log_submits) (log_submits-Logged destroyed keys q)
    | inr e ↦
        let first = log_key-Logged (parse_job_key key) q in
        let rest = log_submits-Logged destroyed keys (log_key w (parse_job_key key) q) in
        let evs = submit_of w q.coll (parse_job_key key) in
        rw (e, log_submits)
          (
            rest.0 ∙ first.0,
            rest.1 ∙ first.1,
            rest.2
                ∙ ap
                    (λ log.
                      extended w log
                        (submits w (log_key w (parse_job_key key) q).coll destroyed keys))
                    first.2
                ∙ ap (λ coll. extended w (extended w q.log evs) (submits w coll destroyed keys))
                    first.0
                ∙ extended-twice q.log evs (submits w q.coll destroyed keys),
            rest.3 ∙ first.3,
            rest.4 ∙ first.4,
          )
  ]

  pub after_batch-IsAftermath :
      (t : Txn w) (q : Queue w) → IsAftermath w t q.coll q (after_batch w t q)
  unfolding after_batch
  after_batch-IsAftermath t q =
      let q1 = delete_all w t.destroyed q in
      let q2 = note_all w t.destroyed t.pending q1 in
      let q3 = log_submits w t.destroyed t.new_procs q2 in
      let deleted = delete_all-effect t.destroyed q in
      let noted = note_all-effect t.destroyed t.pending q1 in
      let logged = log_submits-Logged t.destroyed t.new_procs q2 in
      (
        logged.0 ∙ noted.0 ∙ deleted.0,
        λ c. ap (member_id w c) logged.1 ∙ ground (arith, noted.1 c, deleted.1 c),
        logged.2
            ∙ ap (λ log. extended w log (submits w q2.coll t.destroyed t.new_procs))
                (noted.2 ∙ deleted.2)
            ∙ ap (λ coll. extended w q.log (submits w coll t.destroyed t.new_procs)) (sym logged.0),
        logged.3 ∙ noted.3 ∙ deleted.3,
        logged.4 ∙ noted.4 ∙ deleted.4,
      )
