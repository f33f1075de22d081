-- ===== src/Detection/Tests.antt =====
-- Runs of the detection on small inputs, and the theorems applied to them.
use text.Mathlib.Text.{◌==◌ as str_eq}
use rest_api_plagiarism.Prelude.{
  false, ℕ, ◌+◌, ◌-◌, ◌≤◌, ◌≡◌, refl, inl, inr, arith, List, [], ◌∷◌, String, map, if◌then◌else◌,
  none, All, Any, sum_of, add_to, group, sort_by, insert_by,
}
use rest_api_plagiarism.Detection.Match.{
  meets, Rename, SourceRegion, PlagiarismType, exact, renamed, whole, Match, no_lines,
}
use rest_api_plagiarism.Detection.Lines.{
  line_hash, selected, shadow_index, pair_map, extension, best_candidate, extend_pairs, trim_left,
  trim_right, trim, select_one, select, line_level_matches,
}
use rest_api_plagiarism.Detection.Lines.Sound.{SoundMatch, line_level_matches-Sound}
use rest_api_plagiarism.Detection.Lines.Disjoint.{holds, line_level_matches-holds}
use rest_api_plagiarism.Detection.Lines.Second.{holds_second, line_level_matches-holds_second}
use rest_api_plagiarism.Detection.Merge.{merge_matches, merge_into, join_details}
use rest_api_plagiarism.Detection.Merge.Covering.{Reports, merge_matches-Reports}
use rest_api_plagiarism.Detection.Functions.{
  Function, pair_functions, hash_index, first_free, structural_pairs, never,
}
use rest_api_plagiarism.Detection.Functions.Pairing.{Paired, DistinctB, structural_pairs-Paired}
use rest_api_plagiarism.Detection.Pipeline.{
  FunctionLine, filter_contained_matches, find_prefix_suffix, prefix_len, suffix_upto,
}
use rest_api_plagiarism.Detection.Pipeline.Filter.{Line, filter_contained_matches-lines}
use rest_api_plagiarism.Prelude.{Option, none, some, Bool, true, Any, map}
use rest_api_plagiarism.Detection.Match.{LineSet, no_lines}
use rest_api_plagiarism.Detection.Functions.{
  whole_functions, match_functions, mark_all, mark_covered, function_level_matches,
  semantic_function_matches, function_match,
}
use rest_api_plagiarism.Detection.Pipeline.{count_differing_lines, count_differing}
use rest_api_plagiarism.Detection.Phase1.{
  match_by_name, match_by_body_signature, match_loop, first_match, compare_named,
}
use rest_api_plagiarism.Detection.Phase1.Free.{reported, MarkedApart}
use rest_api_plagiarism.Detection.Phase1.Marked.{match_by_name-Apart}
use rest_api_plagiarism.Detection.Phase2.{is_mostly_identical, run_phase2}
use rest_api_plagiarism.Detection.Phase2.Lines.{run_phase2-lines}
use rest_api_plagiarism.Detection.Detect.{
  Matchers, Sources, covered_after, run_phase1, detect_plagiarism,
}
use rest_api_plagiarism.Detection.Detect.Reported.{detect_plagiarism-lines}

abbrev lines_a : List String
lines_a = "x = 1" ∷ "y = 2" ∷ "" ∷ "print(x)" ∷ "print(y)" ∷ []

abbrev lines_b : List String
lines_b = "import os" ∷ "x = 1" ∷ "y = 2" ∷ "print(x)" ∷ "print(y)" ∷ []

-- A digest that tells these lines apart.
abbrev digest : String → ℕ
digest s =
    if str_eq s "x = 1"
    then 1
    else if str_eq s "y = 2"
    then 2
    else if str_eq s "print(x)"
    then 3
    else if str_eq s "print(y)"
    then 4
    else 9

two_regions :
    selected digest lines_a lines_b 2
    ≡ record { start_a = 0; start_b = 1; len = 2 }
      ∷ record { start_a = 3; start_b = 3; len = 2 }
      ∷ []
unfolding selected line_hash shadow_index pair_map extension best_candidate extend_pairs sort_by
    insert_by trim_left trim_right trim select_one select meets add_to group
two_regions = refl

no_renames : ℕ → ℕ → ℕ → List Rename
no_renames a b n = []

no_text : List Rename → String
no_text rs = ""

line_level_matches-Sound_example :
    All
      (SoundMatch (map (line_hash digest) lines_a) (map (line_hash digest) lines_b) 2)
      (line_level_matches digest no_renames no_text lines_a lines_b lines_a lines_b 2)
line_level_matches-Sound_example =
    line_level_matches-Sound digest no_renames no_text lines_a lines_b lines_a lines_b 2

line_level_matches-holds_example :
    sum_of
      (holds 3)
      (line_level_matches digest no_renames no_text lines_a lines_b lines_a lines_b 2)
    ≤ 1
line_level_matches-holds_example =
    line_level_matches-holds digest no_renames no_text lines_a lines_b lines_a lines_b 2 3

line_level_matches-holds_second_example :
    sum_of
      (holds_second 1)
      (line_level_matches digest no_renames no_text lines_a lines_b lines_a lines_b 2)
    ≤ 1
line_level_matches-holds_second_example =
    line_level_matches-holds_second digest no_renames no_text lines_a lines_b lines_a lines_b 2 1
      (omega arith)

abbrev region : ℕ → ℕ → SourceRegion
region s e = record { start_line = s; start_col = 0; end_line = e; end_col = 4 }

abbrev test_match : PlagiarismType → ℕ → ℕ → ℕ → ℕ → Match
test_match t a b c d = record {
  file1 = region a b;
  file2 = region c d;
  kgram_count = b + 1 - a;
  plagiarism_type = t;
  similarity = whole;
  details = none;
  description = none;
}

abbrev three : List Match
three = test_match renamed 4 6 14 16 ∷ test_match exact 2 3 12 13 ∷ test_match exact 0 1 10 11 ∷ []

merged :
    merge_matches 0 three
    ≡ record (test_match exact 0 3 10 13) { kgram_count = 4 } ∷ test_match renamed 4 6 14 16 ∷ []
unfolding merge_matches merge_into sort_by insert_by join_details
merged = refl

-- The second match lies before the first one in file 2: its lines 50 to 60 there are not reported any more.
lines_lost :
    merge_matches 0 (test_match exact 10 20 100 110 ∷ test_match exact 21 31 50 60 ∷ [])
    ≡ record (test_match exact 10 31 100 110) { kgram_count = 22 } ∷ []
unfolding merge_matches merge_into sort_by insert_by join_details
lines_lost = refl

merge_matches-Reports_example : Any (Reports exact 3) (merge_matches 0 three)
merge_matches-Reports_example =
    merge_matches-Reports 0 exact 3 three (inr (inl (refl, (omega arith, omega arith))))

filter_contained_matches-lines_example :
    Any (λ m. Line 2 m.file1) (filter_contained_matches three)
    × Any (λ m. Line 12 m.file2) (filter_contained_matches three)
filter_contained_matches-lines_example =
    filter_contained_matches-lines 2 12 three (inr (inl (omega arith, omega arith)))
      (inr (inl (omega arith, omega arith)))

abbrev fun : String → ℕ → ℕ → ℕ → ℕ → Function
fun n s e h sem = record {
  name = n;
  start_line = s;
  end_line = e;
  struct_hash = h;
  semantic_hash = sem;
}

abbrev funs_a : List Function
funs_a = fun "f" 0 3 7 1 ∷ fun "g" 5 8 9 2 ∷ fun "h" 10 12 7 1 ∷ []

abbrev funs_b : List Function
funs_b = fun "k" 0 3 9 3 ∷ fun "f" 5 8 7 1 ∷ fun "m" 10 12 8 1 ∷ []

structural :
    structural_pairs no_lines no_lines funs_a funs_b
    ≡ (fun "f" 0 3 7 1, (1, fun "f" 5 8 7 1)) ∷ (fun "g" 5 8 9 2, (0, fun "k" 0 3 9 3)) ∷ []
unfolding pair_functions hash_index first_free add_to group meets
structural = refl

structural_pairs-Paired_example :
    All
      (Paired (λ f. f.struct_hash) never no_lines no_lines funs_b)
      (structural_pairs no_lines no_lines funs_a funs_b)
    × DistinctB (structural_pairs no_lines no_lines funs_a funs_b)
structural_pairs-Paired_example = structural_pairs-Paired no_lines no_lines funs_a funs_b

abbrev line : String → FunctionLine
line s = record { exact = s; shadow = s }

abbrev body_a : List FunctionLine
body_a = line "x = 1" ∷ line "y = 2" ∷ line "print(y)" ∷ []

abbrev body_b : List FunctionLine
body_b = line "x = 1" ∷ line "print(x)" ∷ line "print(y)" ∷ []

both_ends : find_prefix_suffix digest body_a body_b ≡ (1, 1)
unfolding find_prefix_suffix prefix_len suffix_upto line_hash
both_ends = refl

-- Two functions of one name, whose bodies share the first line and the last one.
abbrev named : List Function
named = fun "f" 0 2 7 1 ∷ []

abbrev no_report : Function → Function → List Match
no_report f g = []

abbrev alike : Function → Function → Bool
alike f g = true

abbrev one_signature : Function → Option String
one_signature f = some "for;return"

abbrev by_names : List (Match × Bool)
by_names =
    match_by_name digest body_a body_b no_report no_report alike no_lines no_lines named named

abbrev by_signatures : List (Match × Bool)
by_signatures =
    match_by_body_signature digest body_a body_b one_signature one_signature no_lines no_lines named
      named

match_by_name-Apart_example :
    MarkedApart no_lines no_lines by_names
    × MarkedApart no_lines no_lines by_signatures
    × All (λ m. is_mostly_identical m ≡ false) (reported by_signatures)
match_by_name-Apart_example =
    match_by_name-Apart digest body_a body_b one_signature one_signature no_report no_report alike
      no_lines no_lines named named

-- The line between them is reported.
middle_line : map (λ p. p.0.file1.start_line) by_names ≡ 1 ∷ []
unfolding match_by_name match_loop first_match compare_named find_prefix_suffix prefix_len
    suffix_upto line_hash meets count_differing_lines count_differing
middle_line = refl

abbrev no_words : List Rename → String
no_words rs = ""

abbrev nothing_inside : Match → LineSet → LineSet → List Match
nothing_inside m a b = []

abbrev pair : Match
pair = whole_functions (fun "f" 0 4 7 1) (fun "g" 1 4 7 1)

run_phase2-lines_example :
    let ms =
      (run_phase2 digest no_renames no_words nothing_inside lines_a lines_b lines_a lines_b 2
        (pair ∷ [])
        no_lines
        no_lines).0 in
    Any (λ m. Line 2 m.file1) ms × Any (λ m. Line 3 m.file2) ms
run_phase2-lines_example =
    run_phase2-lines digest no_renames no_words nothing_inside lines_a lines_b lines_a lines_b 2 2 3
      (pair ∷ []) no_lines no_lines (refl, tt) (inl (omega arith, omega arith))
      (inl (omega arith, omega arith))

abbrev matchers : Matchers
matchers = record {
  xxh64 = digest;
  extract = no_renames;
  describe = no_words;
  signature_a = one_signature;
  signature_b = one_signature;
  body_line_matches = no_report;
  body_semantic_matches = no_report;
  similar_body = alike;
  minhash_matches = λ a b. ([], a, b);
  semantic_inside = nothing_inside;
  semantic_matches = λ ms a b. [];
}

abbrev sources : Sources
sources = record {
  lines_a = lines_a;
  lines_b = lines_b;
  shadow_a = lines_a;
  shadow_b = lines_b;
  stripped_a = map line lines_a;
  stripped_b = map line lines_b;
}

detect_plagiarism-lines_example :
    Any (λ n. Line 2 n.file1) (detect_plagiarism matchers sources named named 2 true)
unfolding run_phase1 match_functions match_by_name match_by_body_signature covered_after match_loop
    mark_all mark_covered function_level_matches semantic_function_matches function_match
    pair_functions hash_index first_free meets add_to group
detect_plagiarism-lines_example =
    detect_plagiarism-lines matchers sources named named 2 2 (refl, tt)
      (inl (omega arith, omega arith))
