-- ===== src/Detection/Pipeline.antt =====
-- detection/pipeline/api.py: `_run_phase3` and `_filter_contained_matches`; and the helpers of
-- detection/pipeline/phase1.py that compare two functions line by line.
pub mod Filter
pub mod Trimmed
use text.Mathlib.Text.{◌==◌ as str_eq}
use rest_api_plagiarism.Prelude.{
  ℕ, zero, suc, ◌+◌, ◌-◌, ◌*◌, min, String, Bool, true, false, not, Option, none, some, List, [],
  ◌∷◌, ◌++◌, map, length, drop, take, reverse, ltb, leb, ◌==◌, if◌then◌else◌, sort_by,
}
use rest_api_plagiarism.Detection.Match.{
  SourceRegion, Match, LineSet, no_lines, add_range, in_range,
}
use rest_api_plagiarism.Detection.Lines.{starts_first, line_hash}

-- The number of lines of a region.
abbrev pub lines_of : SourceRegion → ℕ
lines_of r = r.end_line + 1 - r.start_line

-- `set(range(start, start + length)).issubset(lines)`
pub within : ℕ → ℕ → LineSet → Bool
within start zero lines = true
within start (suc length) lines =
    let rest = within (start + 1) length lines in if lines start then rest else false

abbrev pub region_within : SourceRegion → LineSet → Bool
region_within r lines = within r.start_line (lines_of r) lines

abbrev pub add_region : SourceRegion → LineSet → LineSet
add_region r lines = add_range r.start_line (lines_of r) lines

-- The `size` of a match, by which the largest come first. Both end lines are no smaller than the
-- start lines, so the differences are those of the source.
abbrev pub size : Match → ℕ
size m = (m.file1.end_line - m.file1.start_line) + (m.file2.end_line - m.file2.start_line)

abbrev pub larger_first : Match → Match → Bool
larger_first x y = leb (size y) (size x)

-- The loop of `_filter_contained_matches`, with the sets `used_a` and `used_b`.
pub keep_uncontained : LineSet → LineSet → List Match → List Match
keep_uncontained used_a used_b [] = []
keep_uncontained used_a used_b (m ∷ ms) =
    let dropped = keep_uncontained used_a used_b ms in
    let kept = m ∷ keep_uncontained (add_region m.file1 used_a) (add_region m.file2 used_b) ms in
    if region_within m.file1 used_a
    then if region_within m.file2 used_b then dropped else kept
    else kept

pub filter_contained_matches : List Match → List Match
filter_contained_matches ms =
    sort_by starts_first (keep_uncontained no_lines no_lines (sort_by larger_first ms))

-- The lines of a region that are not in a set, ascending: `sorted(set(range(…)) - lines)`.
pub new_lines : ℕ → ℕ → LineSet → List ℕ
new_lines start zero lines = []
new_lines start (suc length) lines =
    let rest = new_lines (start + 1) length lines in if lines start then rest else start ∷ rest

abbrev pub last_of : ℕ → List ℕ → ℕ
last_of x [] = x
last_of x (y ∷ ys) = last_of y ys

abbrev pub narrow : ℕ → List ℕ → SourceRegion → SourceRegion
narrow first others r = record r { start_line = first; end_line = last_of first others }

abbrev pub add_lines : List ℕ → LineSet → LineSet
add_lines [] lines = lines
add_lines (x ∷ xs) lines = add_range x 1 (add_lines xs lines)

-- `new_size >= orig_size * 0.5 or new_size >= 3`
abbrev pub meaningful : ℕ → ℕ → Bool
meaningful new_size orig_size = if leb orig_size (new_size * 2) then true else leb 3 new_size

-- One line match in the loop of `_run_phase3`: the match narrowed to its new lines, where it is added.
pub phase3_step : LineSet → LineSet → Match → Option (Match × LineSet × LineSet)
unfolding new_lines
phase3_step covered_a covered_b m =
    elim (new_lines m.file1.start_line (lines_of m.file1) covered_a) [
      | [] ↦ none
      | a ∷ as_new ↦ elim (new_lines m.file2.start_line (lines_of m.file2) covered_b) [
        | [] ↦ none
        | b ∷ bs_new ↦
            if meaningful (suc (length as_new)) (lines_of m.file1)
            then some (
              record m { file1 = narrow a as_new m.file1; file2 = narrow b bs_new m.file2 },
              add_lines (a ∷ as_new) covered_a,
              add_lines (b ∷ bs_new) covered_b,
            )
            else none
      ]
    ]

-- `_run_phase3` on the line matches of the whole module.
unfoldable pub run_phase3 : LineSet → LineSet → List Match → List Match × LineSet × LineSet
unfolding phase3_step
run_phase3 covered_a covered_b [] = ([], covered_a, covered_b)
run_phase3 covered_a covered_b (m ∷ ms) = elim (phase3_step covered_a covered_b m) [
  | none ↦ run_phase3 covered_a covered_b ms
  | some (m', covered_a', covered_b') ↦
      let rest = run_phase3 covered_a' covered_b' ms in (m' ∷ rest.0, rest.1, rest.2)
]

-- A line of a function as `_find_prefix_suffix` and `_count_differing_lines` read it: stripped, and with
-- its stripped shadow line.
pub record FunctionLine : Type 0 where
  pub exact : String
  pub shadow : String

module _ (xxh64 : String → ℕ) where
  -- `sa and sb and _line_hash(sa) == _line_hash(sb)`
  abbrev pub shadow_match : FunctionLine → FunctionLine → Bool
  shadow_match x y =
      if str_eq x.shadow ""
      then false
      else if str_eq y.shadow ""
      then false
      else line_hash xxh64 x.shadow == line_hash xxh64 y.shadow

  -- `exact_a == exact_b and bool(exact_a)`
  abbrev pub exact_match : FunctionLine → FunctionLine → Bool
  exact_match x y = if str_eq x.exact y.exact then not (str_eq x.exact "") else false

  abbrev pub lines_match : FunctionLine → FunctionLine → Bool
  lines_match x y = if shadow_match x y then true else exact_match x y

  -- The `while` loop over the common prefix, which ends with the shorter function.
  unfoldable pub prefix_len : List FunctionLine → List FunctionLine → ℕ
  prefix_len [] ys = 0
  prefix_len (x ∷ xs) [] = 0
  prefix_len (x ∷ xs) (y ∷ ys) =
      let rest = suc (prefix_len xs ys) in if lines_match x y then rest else 0

  -- The `while` loop over the common suffix: the prefix of the reversed functions, `min_body -
  -- prefix_len` lines of it at most.
  unfoldable pub suffix_upto : ℕ → List FunctionLine → List FunctionLine → ℕ
  suffix_upto zero xs ys = 0
  suffix_upto (suc n) [] ys = 0
  suffix_upto (suc n) (x ∷ xs) [] = 0
  suffix_upto (suc n) (x ∷ xs) (y ∷ ys) =
      let rest = suc (suffix_upto n xs ys) in if lines_match x y then rest else 0

  unfoldable pub find_prefix_suffix : List FunctionLine → List FunctionLine → ℕ × ℕ
  unfolding prefix_len suffix_upto
  find_prefix_suffix xs ys =
      let prefix = prefix_len xs ys in
      (prefix, suffix_upto (min (length xs) (length ys) - prefix) (reverse xs) (reverse ys))

  -- The test of `_count_differing_lines`.
  abbrev pub differs : FunctionLine → FunctionLine → Bool
  differs x y = if str_eq x.exact y.exact then false else not (shadow_match x y)

  unfoldable pub count_differing : List FunctionLine → List FunctionLine → ℕ
  count_differing [] ys = 0
  count_differing (x ∷ xs) [] = 0
  count_differing (x ∷ xs) (y ∷ ys) =
      let rest = count_differing xs ys in if differs x y then suc rest else rest

  -- `_count_differing_lines`, over the offsets from the prefix up to the suffix.
  unfoldable pub count_differing_lines : List FunctionLine → List FunctionLine → ℕ → ℕ → ℕ
  unfolding count_differing
  count_differing_lines xs ys prefix suffix =
      let n = min (length xs) (length ys) - suffix - prefix in
      count_differing (take n (drop prefix xs)) (take n (drop prefix ys))
