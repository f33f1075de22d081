-- ===== src/Detection/Functions.antt =====
-- detection/function_matcher.py and detection/semantic_function_matcher.py, from the extracted functions
-- of both files on, and the test-and-mark helpers of detection/pipeline.
pub mod Pairing
pub mod Greedy
use text.Mathlib.Text.{◌==◌ as str_eq}
use rest_api_plagiarism.Prelude.{
  ℕ, ◌+◌, ◌-◌, String, str_append, Bool, true, false, not, Option, none, some, List, [], ◌∷◌, ◌++◌,
  map, ltb, ◌==◌, if◌then◌else◌, Grouped, add_to, group,
}
use rest_api_plagiarism.Detection.Match.{
  exact, renamed, reordered, semantic, whole, Detail, word, Match, LineSet, no_lines, add_range,
  meets,
}

-- The fields of an extracted function that the matchers read; a hash of 0 is false.
pub record Function : Type 0 where
  pub name : String
  pub start_line : ℕ
  pub end_line : ℕ
  pub struct_hash : ℕ
  pub semantic_hash : ℕ

-- `set(range(start_line, end_line + 1)) & lines`
abbrev pub touches : Function → LineSet → Bool
touches f lines = meets f.start_line (f.end_line + 1 - f.start_line) lines

-- A function of B with its index.
abbrev pub Indexed : Type 0
Indexed = ℕ × Function

-- The index of B by a hash, from the index `j` on.
unfoldable pub hash_index : (Function → ℕ) → ℕ → List Function → Grouped Indexed → Grouped Indexed
hash_index key j [] index = index
hash_index key j (f ∷ fs) index =
    hash_index key (j + 1) fs (if key f == 0 then index else add_to (key f) (j, f) index)

-- The loop over the candidates, up to its `break`.
unfoldable pub first_free : (Function → Bool) → LineSet → LineSet → List Indexed → Option Indexed
first_free refuses used_idx used_b [] = none
first_free refuses used_idx used_b ((j, f) ∷ candidates) =
    let rest = first_free refuses used_idx used_b candidates in
    if used_idx j
    then rest
    else if touches f used_b
    then rest
    else if refuses f
    then rest
    else some (j, f)

-- The loop over the functions of A; `refuses` is the last test of a candidate.
unfoldable pub pair_functions :
    (Function → ℕ)
    → (Function → Function → Bool)
    → LineSet
    → LineSet
    → Grouped Indexed
    → LineSet
    → List Function
    → List (Function × Indexed)
pair_functions key refuses used_a used_b index used_idx [] = []
pair_functions key refuses used_a used_b index used_idx (f ∷ fs) =
    let skipped = pair_functions key refuses used_a used_b index used_idx fs in
    let found = first_free (refuses f) used_idx used_b (group (key f) index) in
    let matched : List (Function × Indexed) = elim found [
      | none ↦ skipped
      | some (j, g) ↦
          (f, (j, g)) ∷ pair_functions key refuses used_a used_b index (add_range j 1 used_idx) fs
    ] in
    if touches f used_a then skipped else if key f == 0 then skipped else matched

abbrev pub distance : ℕ → ℕ → ℕ
distance a b = (a - b) + (b - a)

-- The two ends of a match of whole functions.
abbrev pub whole_functions : Function → Function → Match
whole_functions f g = record {
  file1 = record { start_line = f.start_line; start_col = 0; end_line = f.end_line; end_col = 0 };
  file2 = record { start_line = g.start_line; start_col = 0; end_line = g.end_line; end_col = 0 };
  kgram_count = f.end_line + 1 - f.start_line;
  plagiarism_type = semantic;
  similarity = whole;
  details = none;
  description = none;
}

unfoldable pub function_match : Function → Function → Match
function_match f g =
    let is_reordered = ltb 2 (distance f.start_line g.start_line) in
    let is_renamed = not (str_eq f.name g.name) in
    record (whole_functions f g) {
      plagiarism_type = if is_renamed then renamed else if is_reordered then reordered else exact;
      details =
          if is_renamed
          then some (("original_name", word f.name) ∷ ("renamed_name", word g.name) ∷ [])
          else none;
      description =
          if is_renamed
          then some (str_append "Function renamed: " (str_append f.name (str_append " → " g.name)))
          else if is_reordered
          then some (str_append "Function reordered: " f.name)
          else none;
    }

pub semantic_match : Function → Function → Match
semantic_match f g = record (whole_functions f g) {
  details = some (("original_function", word f.name) ∷ ("matched_function", word g.name) ∷ []);
  description =
      some (str_append "Semantic equivalent: " (str_append f.name (str_append " ↔ " g.name)));
}

-- `_function_level_matches`
abbrev pub never : Function → Function → Bool
never f g = false

abbrev pub structural_pairs :
    LineSet → LineSet → List Function → List Function → List (Function × Indexed)
structural_pairs used_a used_b funcs_a funcs_b =
    pair_functions (λ f. f.struct_hash) never used_a used_b
      (hash_index (λ f. f.struct_hash) 0 funcs_b []) no_lines funcs_a

unfoldable pub function_level_matches :
    LineSet → LineSet → List Function → List Function → List Match
unfolding function_match
function_level_matches used_a used_b funcs_a funcs_b =
    map (λ p. function_match p.0 p.1.1) (structural_pairs used_a used_b funcs_a funcs_b)

-- `_semantic_function_matches`
abbrev pub same_structure : Function → Function → Bool
same_structure f g = f.struct_hash == g.struct_hash

abbrev pub semantic_pairs :
    LineSet → LineSet → List Function → List Function → List (Function × Indexed)
semantic_pairs used_a used_b funcs_a funcs_b =
    pair_functions (λ f. f.semantic_hash) same_structure used_a used_b
      (hash_index (λ f. f.semantic_hash) 0 funcs_b []) no_lines funcs_a

unfoldable pub semantic_function_matches :
    LineSet → LineSet → List Function → List Function → List Match
unfolding semantic_match
semantic_function_matches used_a used_b funcs_a funcs_b =
    map (λ p. semantic_match p.0 p.1.1) (semantic_pairs used_a used_b funcs_a funcs_b)

-- `_mark_covered`, which marks the lines of both files in the one set.
unfoldable pub mark_covered : LineSet → Match → LineSet
mark_covered covered m =
    add_range m.file2.start_line (m.file2.end_line + 1 - m.file2.start_line)
      (add_range m.file1.start_line (m.file1.end_line + 1 - m.file1.start_line) covered)

unfoldable pub mark_all : LineSet → List Match → LineSet
unfolding mark_covered
mark_all covered [] = covered
mark_all covered (m ∷ ms) = mark_all (mark_covered covered m) ms

-- The first two steps of `run_phase1`: the matches and both sets of covered lines after them.
unfoldable pub match_functions :
    LineSet → LineSet → List Function → List Function → List Match × LineSet × LineSet
unfolding mark_all function_level_matches semantic_function_matches
match_functions covered_a covered_b funcs_a funcs_b =
    let structural = function_level_matches covered_a covered_b funcs_a funcs_b in
    let after_a = mark_all covered_a structural in
    let after_b = mark_all covered_b structural in
    let by_semantics = semantic_function_matches after_a after_b funcs_a funcs_b in
    (structural ++ by_semantics, mark_all after_a by_semantics, mark_all after_b by_semantics)
