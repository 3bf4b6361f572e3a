-- ===== src/Negotiate/Examples.antt =====
-- A round that offers one group of two jobs and has three matches for it.
use golang_ap.Queue.Actions.{int_attr}
use golang_ap.Key.{job_key}
use golang_ap.Assoc.{find}
use golang_ap.Queue.Sched.{job_status}
use golang_ap.Prelude.{negsuc, ◌+◌, ◌≤◌, pos, List, [], ◌∷◌, ◌≡◌, refl}
use golang_ap.Text.{
  str, itoa, emit, cut_at, equal_fold, is_empty, lower_byte, str_eq, to_lower, format_nat,
}
use golang_ap.ClassAd.Sample.{SampleAd, sample, int, ad_of}
use golang_ap.Rrl.{JobId, RequestGroup}
use golang_ap.Match.Sample.{sample_claims}
use golang_ap.Queue.State.{Queue}
use golang_ap.Queue.Sample.{sample_world}
use golang_ap.Sched.Sample.{core_queue, idle_job}
use golang_ap.Negotiate.{
  begin_round, Message, send_resource_request_list, permission_and_ad, rejected_bare, find_group,
  serve_message, send_requests, send_group, put_group, read_match, int_or_none, next_idle,
  first_idle, assign, claim_parts, forward, group_of, handle_granted, of_group, same_job, text_or,
  handle_reject, reject_group, or_last, parse_reject_rep,
}
use golang_ap.Negotiate.Left.{count, count_cursor, left}
use golang_ap.Negotiate.Assign.{matched_jobs, AllAnswer, serve_all, given_at_most}

-- 1.1 is running and 1.2 is Idle.
abbrev job_1 : JobId
job_1 = record { cluster = pos 1; proc = pos 1 }

abbrev job_2 : JobId
job_2 = record { cluster = pos 1; proc = pos 2 }

abbrev groups : List (RequestGroup sample)
groups = record { checksum = 5; rep = idle_job; job_ids = job_1 ∷ job_2 ∷ [] } ∷ []

abbrev match_ad : SampleAd
match_ad = ad_of (
    (str "_condor_RESOURCE_CLUSTER", int (pos 1)) ∷ (str "_condor_RESOURCE_PROC", int (pos 1)) ∷ [])

abbrev messages : List (Queue sample_world × Message sample_world sample_claims)
messages =
    (core_queue, send_resource_request_list 4)
    ∷ (core_queue, permission_and_ad (str "c1 c2") match_ad)
    ∷ (core_queue, permission_and_ad (str "c3") match_ad)
    ∷ (core_queue, rejected_bare)
    ∷ []

-- Both matches name the group of 1.1.
all_answer :
    AllAnswer sample_world sample_claims messages (begin_round sample_world sample_claims groups)
unfolding find_group serve_message send_requests begin_round send_group put_group read_match
    int_or_none ad_of str next_idle first_idle job_status find job_key itoa emit assign claim_parts
    forward group_of handle_granted of_group same_job text_or int_attr cut_at equal_fold is_empty
    lower_byte str_eq to_lower format_nat
all_answer = (tt, ((_, refl), ((_, refl), (tt, tt))))

given_at_most_example :
    count job_2 (
        matched_jobs sample_world sample_claims
          (serve_all sample_world sample_claims messages
            (begin_round sample_world sample_claims groups)).matches)
      + left sample_world sample_claims job_2 (
          serve_all sample_world sample_claims messages
            (begin_round sample_world sample_claims groups))
    ≤ count_cursor sample_world sample_claims job_2 groups
given_at_most_example =
    given_at_most sample_world sample_claims job_2 groups messages refl all_answer

-- The second match is surplus.
first_match_taken :
    matched_jobs sample_world sample_claims
      (serve_all sample_world sample_claims messages
        (begin_round sample_world sample_claims groups)).matches
    ≡ job_2 ∷ record { cluster = negsuc 0; proc = negsuc 0 } ∷ []
unfolding find_group serve_message send_requests begin_round send_group put_group read_match
    int_or_none ad_of str next_idle first_idle job_status find job_key itoa emit assign claim_parts
    forward group_of handle_granted of_group same_job text_or int_attr cut_at equal_fold is_empty
    lower_byte str_eq to_lower format_nat handle_reject reject_group or_last parse_reject_rep
first_match_taken = refl
