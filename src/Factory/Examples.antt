-- ===== src/Factory/Examples.antt =====
-- A factory of two procs that may have one idle.
use golang_ap.Prelude.{pos, negsuc, false, Option, none, some, List, [], ◌∷◌, ◌≡◌, refl}
use golang_ap.Text.{Str, str, split, is_empty, cut_at, is_space, trim_space}
use golang_ap.Assoc.{find, put}
use golang_ap.Key.{job_key}
use golang_ap.Queue.State.{Queue}
use golang_ap.Queue.Factory.{FactoryInfo}
use golang_ap.Queue.Sample.{sample_world, sample_queue, held_job}
use golang_ap.Factory.Row.{Macros, Digest}
use golang_ap.Factory.Engine.{top_up, begin_pass}
use golang_ap.Factory.Strings.{parse_items, split_row, unquote}
use golang_ap.Factory.Bounds.{IsEnd, top_up_ends}

value_or : Option Str → Str
value_or none = str ""
value_or (some v) = v

-- A macro engine that expands nothing.
abbrev plain_macros : Macros
plain_macros = record {
  Config = List (Str × Str);
  set = λ cfg name v. put name v cfg;
  get = λ cfg name. value_or (find name cfg);
}

abbrev two_jobs : Digest plain_macros
two_jobs = record {
  assigns = record { key = str "arguments"; value = str "$(Process)"; expr = false } ∷ [];
  queue_num = 2;
  var_names = [];
  cfg = [];
}

abbrev factory_info_1 : FactoryInfo
factory_info_1 = record {
  cluster = pos 1;
  digest_file = str "digest";
  items_file = str "";
  limit = negsuc 0;
  max_idle = pos 1;
  next_proc_id = pos 0;
  next_row = pos 0;
  item_count = pos 0;
  paused = pos 0;
  total_procs = pos 0;
  idle_procs = pos 0;
}

abbrev factory_queue : Queue sample_world
factory_queue = record sample_queue { coll = (job_key (pos 1) (negsuc 0), held_job) ∷ [] }

top_up_ends_example :
    IsEnd plain_macros sample_world two_jobs [] factory_info_1 (pos 9) 2 0 (pos 0) factory_queue (
      top_up plain_macros sample_world two_jobs [] factory_info_1
        (pos 9)
        2
        3
        (begin_pass plain_macros sample_world factory_info_1 factory_queue))
top_up_ends_example =
    top_up_ends plain_macros sample_world two_jobs [] factory_info_1 (pos 9) 2 factory_queue

rows_parsed : parse_items (str "a b\r\n\nc\n") ≡ str "a b" ∷ str "c" ∷ []
unfolding parse_items split str is_empty
rows_parsed = refl

row_split : split_row (str "a  b") 2 ≡ str "a" ∷ str "b" ∷ []
unfolding split_row is_empty str cut_at is_space
row_split = refl

value_unquoted : unquote (str " \"a \"\"b\" ") ≡ str "a \"b"
unfolding str unquote trim_space
value_unquoted = refl
