-- ===== src/Detection/Merge.antt =====
-- detection/merge_helpers.py, and `merge_adjacent_matches` of plagiarism_core/matcher.py.
pub mod Covering
pub mod Adjacent
use text.Mathlib.Text.{◌==◌ as str_eq}
use rest_api_plagiarism.Prelude.{
  ℕ, ◌+◌, ◌-◌, max, String, Bool, true, false, Option, none, some, List, [], ◌∷◌, ◌++◌, ltb, leb,
  ◌==◌, if◌then◌else◌, sort_by,
}
use rest_api_plagiarism.Detection.Match.{
  exact, same_type, SourceRegion, whole, Detail, renames, Details, Match, LineSet, no_lines,
  add_range,
}

-- The sort key of both merges: the start lines in both files.
abbrev pub starts_before : Match → Match → Bool
starts_before m n =
    if ltb m.file1.start_line n.file1.start_line
    then true
    else if m.file1.start_line == n.file1.start_line
    then leb m.file2.start_line n.file2.start_line
    else false

abbrev pub upto_line : ℕ → SourceRegion → SourceRegion
upto_line line r = record r { end_line = max r.end_line line }

abbrev pub upto : SourceRegion → SourceRegion → SourceRegion
upto s r = record r { end_line = max r.end_line s.end_line; end_col = max r.end_col s.end_col }

-- `d[k].extend(v)` where both values are lists, `d[k] = v` elsewhere; the key is in `d`.
abbrev pub join_values : Detail → Detail → Detail
join_values (renames old) (renames new) = renames (old ++ new)
join_values old new = new

unfoldable pub set_detail : String → Detail → Details → Details
set_detail k v [] = (k, v) ∷ []
set_detail k v ((j, old) ∷ d) =
    let rest = set_detail k v d in
    if str_eq j k then (j, join_values old v) ∷ d else (j, old) ∷ rest

unfoldable pub set_details : Details → Details → Details
set_details [] d = d
set_details ((k, v) ∷ new) d = set_details new (set_detail k v d)

-- An empty dict is false, as None is.
unfoldable pub join_details : Option Details → Option Details → Option Details
join_details none old = old
join_details (some []) old = old
join_details (some (n ∷ new)) none = some (n ∷ new)
join_details (some (n ∷ new)) (some []) = some (n ∷ new)
join_details (some (n ∷ new)) (some (o ∷ old)) = some (set_details (n ∷ new) (o ∷ old))

-- The three tests of `_merge_matches`.
abbrev pub mergeable : ℕ → Match → Match → Bool
mergeable gap prev m =
    if leb m.file1.start_line (prev.file1.end_line + gap + 1)
    then if leb m.file2.start_line (prev.file2.end_line + gap + 1)
      then same_type m.plagiarism_type prev.plagiarism_type
      else false
    else false

abbrev pub absorb : Match → Match → Match
absorb prev m = record prev {
  file1 = upto_line m.file1.end_line prev.file1;
  file2 = upto_line m.file2.end_line prev.file2;
  kgram_count = prev.kgram_count + m.kgram_count;
  details = join_details m.details prev.details;
}

-- The loop, with `prev` the last match of `merged`.
unfoldable pub merge_into : ℕ → Match → List Match → List Match
merge_into gap prev [] = prev ∷ []
merge_into gap prev (m ∷ ms) =
    let merged = merge_into gap (absorb prev m) ms in
    let apart = prev ∷ merge_into gap m ms in if mergeable gap prev m then merged else apart

abbrev pub merge_sorted : ℕ → List Match → List Match
merge_sorted gap [] = []
merge_sorted gap (m ∷ ms) = merge_into gap m ms

unfoldable pub merge_matches : ℕ → List Match → List Match
merge_matches gap ms = merge_sorted gap (sort_by starts_before ms)

-- `_covered_lines`
unfoldable covered_lines : List Match → Bool → LineSet
covered_lines [] is_file1 = no_lines
covered_lines (m ∷ ms) is_file1 =
    let region = if is_file1 then m.file1 else m.file2 in
    add_range region.start_line (region.end_line + 1 - region.start_line)
      (covered_lines ms is_file1)

-- `merge_adjacent_matches` builds new matches, whose other fields have the defaults of `Match`.
abbrev pub plain : Match → Match
plain m = record m {
  plagiarism_type = exact;
  similarity = whole;
  details = none;
  description = none;
}

abbrev pub adjacent : ℕ → Match → Match → Bool
adjacent gap prev m =
    if leb m.file1.start_line (prev.file1.end_line + gap)
    then leb m.file2.start_line (prev.file2.end_line + gap)
    else false

abbrev pub extend_match : Match → Match → Match
extend_match prev m = record prev {
  file1 = upto m.file1 prev.file1;
  file2 = upto m.file2 prev.file2;
  kgram_count = prev.kgram_count + m.kgram_count;
}

pub extend_into : ℕ → Match → List Match → List Match
extend_into gap prev [] = prev ∷ []
extend_into gap prev (m ∷ ms) =
    let merged = extend_into gap (extend_match prev m) ms in
    let apart = prev ∷ extend_into gap (plain m) ms in if adjacent gap prev m then merged else apart

abbrev pub extend_sorted : ℕ → List Match → List Match
extend_sorted gap [] = []
extend_sorted gap (m ∷ ms) = extend_into gap (plain m) ms

pub merge_adjacent_matches : ℕ → List Match → List Match
merge_adjacent_matches gap ms = extend_sorted gap (sort_by starts_before ms)
