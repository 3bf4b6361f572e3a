-- ===== src/Key/Examples.antt =====
-- Keys of concrete jobs.
use golang_ap.Prelude.{pos, negsuc, some, none, ◌≡◌, refl, arith}
use golang_ap.Text.{str, itoa, emit, atoi, cut_at_last}
use golang_ap.Key.{job_key, parse_job_key}
use golang_ap.Key.RoundTrip.{parse-job_key}

key_of_job : job_key (pos 12) (pos 305) ≡ str "12.305"
unfolding job_key itoa emit str
key_of_job = refl

key_of_cluster : job_key (pos 12) (negsuc 0) ≡ str "12.-1"
unfolding job_key itoa emit str
key_of_cluster = refl

no_job_key : parse_job_key (str "12.x") ≡ none
unfolding parse_job_key cut_at_last atoi str
no_job_key = refl

parse-job_key_example : parse_job_key (job_key (pos 12) (negsuc 0)) ≡ some (pos 12, negsuc 0)
parse-job_key_example = parse-job_key (pos 12) (negsuc 0) (omega arith) (omega arith)
