-- ===== src/Detection/Phase2.antt =====
-- detection/pipeline/phase2.py: the line matches inside the pairs of functions of phase 1. `semantic_matches` stands
-- for `_semantic_line_matches` on the bodies of a match with the two sets of used lines.
pub mod Lines
use text.Mathlib.Text.{◌==◌ as str_eq}
use rest_api_plagiarism.Prelude.{
  ℕ, zero, suc, ◌+◌, ◌-◌, ◌*◌, max, String, Bool, true, false, Option, none, some, List, [], ◌∷◌,
  ◌++◌, map, length, take, drop, ltb, leb, ◌==◌, if◌then◌else◌,
}
use rest_api_plagiarism.Detection.Match.{
  SourceRegion, Match, Ratio, Rename, Detail, renames, word, flag, Details, same_type, LineSet,
  in_range,
}
use rest_api_plagiarism.Detection.Lines.{line_level_matches}
use rest_api_plagiarism.Detection.Functions.{mark_all}
use rest_api_plagiarism.Detection.Pipeline.{within, lines_of}

-- `lines[start : end + 1]`
abbrev pub slice : SourceRegion → List String → List String
slice r lines = take (lines_of r) (drop r.start_line lines)

abbrev pub shift_region : ℕ → SourceRegion → SourceRegion
shift_region n r = record r { start_line = r.start_line + n; end_line = r.end_line + n }

abbrev pub shift : Match → Match → Match
shift fm m = record m {
  file1 = shift_region fm.file1.start_line m.file1;
  file2 = shift_region fm.file2.start_line m.file2;
}

-- The lines of the regions of one side.
pub lines_in : (Match → SourceRegion) → List Match → LineSet
lines_in side [] line = false
lines_in side (m ∷ ms) line =
    let rest = lines_in side ms line in
    if in_range (side m).start_line (lines_of (side m)) line then true else rest

-- `set(range(n))` without the lines of the regions
abbrev pub unmatched : (Match → SourceRegion) → ℕ → List Match → LineSet
unmatched side n ms line =
    if ltb line n then if lines_in side ms line then false else true else false

-- The equality of two dataclasses: field by field, similarities as quotients.
abbrev pub region_eq : SourceRegion → SourceRegion → Bool
region_eq r s =
    if r.start_line == s.start_line
    then if r.start_col == s.start_col
      then if r.end_line == s.end_line then r.end_col == s.end_col else false
      else false
    else false

pub renames_eq : List Rename → List Rename → Bool
renames_eq [] [] = true
renames_eq [] (s ∷ ss) = false
renames_eq (r ∷ rs) [] = false
renames_eq (r ∷ rs) (s ∷ ss) =
    let rest = renames_eq rs ss in
    if str_eq r.original s.original
    then if str_eq r.renamed_to s.renamed_to
      then if r.line == s.line then rest else false
      else false
    else false

abbrev pub bool_eq : Bool → Bool → Bool
bool_eq true b = b
bool_eq false b = if b then false else true

abbrev pub detail_eq : Detail → Detail → Bool
detail_eq (renames rs) (renames ss) = renames_eq rs ss
detail_eq (word s) (word t) = str_eq s t
detail_eq (flag b) (flag c) = bool_eq b c
detail_eq d e = false

pub details_eq : Details → Details → Bool
unfolding renames_eq
details_eq [] [] = true
details_eq ((k, d) ∷ ds) ((l, e) ∷ es) =
    let rest = details_eq ds es in
    if str_eq k l then if detail_eq d e then rest else false else false
details_eq ds es = false

pub optional_eq : {A : Type 0} → (A → A → Bool) → Option A → Option A → Bool
optional_eq eq none none = true
optional_eq eq (some x) (some y) = eq x y
optional_eq eq x y = false

pub match_eq : Match → Match → Bool
unfolding details_eq optional_eq
match_eq m n =
    if region_eq m.file1 n.file1
    then if region_eq m.file2 n.file2
      then if m.kgram_count == n.kgram_count
        then if same_type m.plagiarism_type n.plagiarism_type
          then if m.similarity.num * n.similarity.den == n.similarity.num * m.similarity.den
            then if optional_eq details_eq m.details n.details
              then optional_eq str_eq m.description n.description
              else false
            else false
          else false
        else false
      else false
    else false

-- `all_matches.remove(fm)`
pub remove_match : Match → List Match → List Match
unfolding match_eq
remove_match fm [] = []
remove_match fm (m ∷ ms) = let rest = remove_match fm ms in if match_eq m fm then ms else m ∷ rest

-- `details.get("_mostly_identical", False)`
unfoldable pub is_flagged : Details → Bool
is_flagged [] = false
is_flagged ((k, d) ∷ ds) =
    let rest = is_flagged ds in
    if str_eq k "_mostly_identical"
    then elim d [ flag b ↦ b | renames rs ↦ false | word s ↦ false ]
    else rest

abbrev pub is_mostly_identical : Match → Bool
is_mostly_identical m = elim m.details [ none ↦ false | some ds ↦ is_flagged ds ]

-- `set(range(…)) == lines` of the regions of one side: every line of the range is in a region, and every region in the range.
abbrev pub region_inside : SourceRegion → SourceRegion → Bool
region_inside r fm =
    if ltb r.end_line r.start_line
    then true
    else if leb fm.start_line r.start_line
    then leb r.end_line fm.end_line
    else false

pub all_inside : (Match → SourceRegion) → SourceRegion → List Match → Bool
all_inside side fm [] = true
all_inside side fm (m ∷ ms) =
    let rest = all_inside side fm ms in if region_inside (side m) fm then rest else false

abbrev pub equals_range : (Match → SourceRegion) → SourceRegion → List Match → Bool
equals_range side fm ms =
    if within fm.start_line (lines_of fm) (lines_in side ms) then all_inside side fm ms else false

-- The number of the lines of the regions, which all lie before `bound`.
abbrev pub bound_of : (Match → SourceRegion) → List Match → ℕ
bound_of side [] = 0
bound_of side (m ∷ ms) = max ((side m).end_line + 1) (bound_of side ms)

pub count_lines : ℕ → LineSet → ℕ
count_lines zero lines = 0
count_lines (suc n) lines = count_lines n lines + (if lines n then 1 else 0)

-- `len(covered) / len(range) >= 0.9`, and 0 for an empty range.
abbrev pub mostly_covered : (Match → SourceRegion) → SourceRegion → List Match → Bool
mostly_covered side fm ms =
    if lines_of fm == 0
    then false
    else leb (9 * lines_of fm) (10 * count_lines (bound_of side ms) (lines_in side ms))

abbrev pub side1 : Match → SourceRegion
side1 m = m.file1

abbrev pub side2 : Match → SourceRegion
side2 m = m.file2

-- The condition of `_maybe_remove_function_match`; `ms` are the matches inside the function.
pub is_replaced : Match → List Match → Bool
unfolding lines_in all_inside count_lines is_flagged
is_replaced fm ms =
    if is_mostly_identical fm
    then if mostly_covered side1 fm.file1 ms then mostly_covered side2 fm.file2 ms else false
    else if equals_range side1 fm.file1 ms
    then equals_range side2 fm.file2 ms
    else false

pub maybe_remove_function_match : Match → List Match → List Match → List Match
unfolding is_replaced remove_match
maybe_remove_function_match fm ms all_matches =
    let removed = remove_match fm all_matches in if is_replaced fm ms then removed else all_matches

module _ (xxh64 : String → ℕ) (extract : ℕ → ℕ → ℕ → List Rename) (describe : List Rename → String)
    (semantic_matches : Match → LineSet → LineSet → List Match)
    (lines_a lines_b shadow_a shadow_b : List String) (min_match_lines : ℕ) where
  -- The line matches and the semantic line matches inside a pair of functions.
  pub inner_matches : Match → List Match × List Match
  unfolding lines_in
  inner_matches fm =
      let local =
        line_level_matches xxh64 extract describe (slice fm.file1 lines_a) (slice fm.file2 lines_b)
          (slice fm.file1 shadow_a) (slice fm.file2 shadow_b) min_match_lines in
      let used_a = unmatched side1 (length (slice fm.file1 lines_a)) local in
      let used_b = unmatched side2 (length (slice fm.file2 lines_b)) local in
      (map (shift fm) local, map (shift fm) (semantic_matches fm used_a used_b))

  -- The loop over the copy of the list, and the list itself with the two sets of covered lines.
  pub phase2_loop : List Match → List Match → LineSet → LineSet → List Match × LineSet × LineSet
  unfolding inner_matches maybe_remove_function_match
  phase2_loop [] all_matches covered_a covered_b = (all_matches, covered_a, covered_b)
  phase2_loop (fm ∷ fms) all_matches covered_a covered_b =
      let (by_lines, by_semantics) = inner_matches fm in
      phase2_loop fms
        (maybe_remove_function_match fm (by_lines ++ by_semantics)
          (all_matches ++ (by_lines ++ by_semantics)))
        (mark_all (mark_all covered_a by_lines) by_semantics)
        (mark_all (mark_all covered_b by_lines) by_semantics)

  -- `run_phase2`
  pub run_phase2 : List Match → LineSet → LineSet → List Match × LineSet × LineSet
  unfolding phase2_loop
  run_phase2 all_matches covered_a covered_b =
      phase2_loop all_matches all_matches covered_a covered_b
