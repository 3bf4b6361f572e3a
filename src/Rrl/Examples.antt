-- ===== src/Rrl/Examples.antt =====
-- The request list of a submitter with three jobs in two autoclusters.
use golang_ap.Prelude.{ℕ, pos, List, [], ◌∷◌, Option, some, ◌≡◌, refl, if◌then◌else◌, length}
use golang_ap.Text.{Str, str, str_eq, cut_at_last}
use golang_ap.ClassAd.Sample.{Literal, int, SampleAd, sample, ad_of}
use golang_ap.User.{short_name}
use golang_ap.User.Sample.{sample_fqu}
use golang_ap.Rrl.{id_of, idle_request_groups, new_group}
use golang_ap.Rrl.Runs.{all_ids, ids_of, IsMaximal, runs}
use golang_ap.Rrl.Feed.{feed, collect, all_groups, idle_request_groups-feed, all_groups_partition}

abbrev job : ℕ → ℕ → SampleAd
job proc cpus = ad_of (
    (str "ClusterId", int (pos 7))
    ∷ (str "ProcId", int (pos proc))
    ∷ (str "RequestCpus", int (pos cpus))
    ∷ [])

abbrev cpus_of : Option Literal → ℕ
cpus_of (some (int (pos n))) = n
cpus_of _ = 0

abbrev cpus : SampleAd → List Str → ℕ
cpus ad names = cpus_of (ad (str "RequestCpus"))

abbrev idle_jobs : Str → List SampleAd
idle_jobs owner = if str_eq owner (str "bo") then job 0 1 ∷ job 1 1 ∷ job 2 4 ∷ [] else []

two_groups : length (all_groups sample cpus [] sample_fqu idle_jobs (str "bo@cs")) ≡ 2
unfolding idle_request_groups id_of new_group ad_of str str_eq short_name cut_at_last
two_groups = refl

idle_request_groups-feed_example :
    idle_request_groups sample cpus [] (collect sample) sample_fqu idle_jobs (str "bo@cs") []
    ≡ feed sample
        (collect sample)
        []
        (runs sample cpus [] (idle_jobs (short_name sample_fqu (str "bo@cs"))))
idle_request_groups-feed_example =
    idle_request_groups-feed sample cpus [] (collect sample) sample_fqu idle_jobs (str "bo@cs") []

all_groups_partition_example :
    (all_ids sample (all_groups sample cpus [] sample_fqu idle_jobs (str "bo@cs"))
      ≡ ids_of sample (idle_jobs (short_name sample_fqu (str "bo@cs"))))
    × IsMaximal sample (all_groups sample cpus [] sample_fqu idle_jobs (str "bo@cs"))
all_groups_partition_example =
    all_groups_partition sample cpus [] sample_fqu idle_jobs (str "bo@cs")
