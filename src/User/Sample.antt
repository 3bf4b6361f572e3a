-- ===== src/User/Sample.antt =====
-- A splitter of names at the last '@', which meets the laws asked of SplitFQU.
use golang_ap.Prelude.{Option, none, some, ap}
use golang_ap.Text.{Str, str, cut_at_last, cut_at_last-none, cut_at_last-append}
use golang_ap.User.{Fqu, FquLaws}

abbrev split_or_bare : Str → Option (Str × Str) → Str × Str
split_or_bare s none = (s, str "")
split_or_bare s (some p) = p

abbrev pub sample_fqu : Fqu
sample_fqu = record {
  split = λ s. split_or_bare s (cut_at_last b'@' s);
  unmapped_domain = str "unmappeduser";
}

pub sample_fqu-laws : FquLaws sample_fqu
unfolding cut_at_last
sample_fqu-laws = record {
  split_bare = λ n h. ap (split_or_bare n) (cut_at_last-none b'@' n h);
  split_qualified = λ n d h. ap (split_or_bare _) (cut_at_last-append b'@' n d h);
}
