-- ===== src/Detection/Detect.antt =====
-- detection/pipeline/api.py: `detect_plagiarism`, the phases one after the other. Parameters are the matchers that are not
-- modelled: `minhash_matches` for `_match_by_minhash`, with the two sets of covered lines behind it, and the semantic
-- line matcher inside a pair of functions and on the whole files.
pub mod Reported
use rest_api_plagiarism.Prelude.{
  ℕ, String, Bool, true, false, Option, List, [], ◌∷◌, ◌++◌, map, if◌then◌else◌, sort_by,
}
use rest_api_plagiarism.Detection.Match.{SourceRegion, Match, Rename, LineSet, no_lines}
use rest_api_plagiarism.Detection.Lines.{line_level_matches, starts_first}
use rest_api_plagiarism.Detection.Functions.{Function, match_functions}
use rest_api_plagiarism.Detection.Merge.{merge_matches}
use rest_api_plagiarism.Detection.Pipeline.{FunctionLine, run_phase3, filter_contained_matches}
use rest_api_plagiarism.Detection.Phase1.{cover, match_by_name, match_by_body_signature}
use rest_api_plagiarism.Detection.Phase2.{side1, side2, run_phase2}

-- The list of matches and the two sets of covered lines.
abbrev pub Detected : Type 0
Detected = List Match × LineSet × LineSet

unfoldable pub covered_after : (Match → SourceRegion) → List (Match × Bool) → LineSet → LineSet
covered_after side [] covered = covered
covered_after side ((m, marks) ∷ ms) covered = covered_after side ms (cover marks (side m) covered)

abbrev pub matches_of : List (Match × Bool) → List Match
matches_of ms = map (λ p. p.0) ms

pub record Matchers : Type 0 where
  pub xxh64 : String → ℕ
  pub extract : ℕ → ℕ → ℕ → List Rename
  pub describe : List Rename → String
  pub signature_a : Function → Option String
  pub signature_b : Function → Option String
  pub body_line_matches : Function → Function → List Match
  pub body_semantic_matches : Function → Function → List Match
  pub similar_body : Function → Function → Bool
  pub minhash_matches : LineSet → LineSet → Detected
  pub semantic_inside : Match → LineSet → LineSet → List Match
  pub semantic_matches : List Match → LineSet → LineSet → List Match

-- The lines of both files, their shadow lines, and what the bodies of functions are compared by.
pub record Sources : Type 0 where
  pub lines_a : List String
  pub lines_b : List String
  pub shadow_a : List String
  pub shadow_b : List String
  pub stripped_a : List FunctionLine
  pub stripped_b : List FunctionLine

module _ (m : Matchers) (s : Sources) (funcs_a funcs_b : List Function) (min_match_lines : ℕ) where
  -- `run_phase1`, on empty sets of covered lines.
  unfoldable pub run_phase1 : Detected
  unfolding match_functions match_by_name match_by_body_signature covered_after
  run_phase1 =
      let (whole_functions, a1, b1) = match_functions no_lines no_lines funcs_a funcs_b in
      let by_name =
        match_by_name m.xxh64 s.stripped_a s.stripped_b m.body_line_matches m.body_semantic_matches
          m.similar_body a1 b1 funcs_a funcs_b in
      let a2 = covered_after side1 by_name a1 in
      let b2 = covered_after side2 by_name b1 in
      let by_signature =
        match_by_body_signature m.xxh64 s.stripped_a s.stripped_b m.signature_a m.signature_b a2 b2
          funcs_a funcs_b in
      let a3 = covered_after side1 by_signature a2 in
      let b3 = covered_after side2 by_signature b2 in
      let (by_minhash, a4, b4) = m.minhash_matches a3 b3 in
      (whole_functions ++ (matches_of by_name ++ (matches_of by_signature ++ by_minhash)), a4, b4)

  -- `run_phase2`, `_run_phase3` and `_run_phase4`
  abbrev pub inside_functions : Detected → Detected
  inside_functions (ms, a, b) =
      run_phase2 m.xxh64 m.extract m.describe m.semantic_inside s.lines_a s.lines_b s.shadow_a
        s.shadow_b min_match_lines ms a b

  abbrev pub on_lines : Detected → Detected
  on_lines (ms, a, b) =
      let by_lines =
        line_level_matches m.xxh64 m.extract m.describe s.lines_a s.lines_b s.shadow_a s.shadow_b
          min_match_lines in
      let (new, a', b') = run_phase3 a b by_lines in (ms ++ new, a', b')

  abbrev pub on_semantics : Detected → List Match
  on_semantics (ms, a, b) = ms ++ m.semantic_matches ms a b

  -- `detect_plagiarism`; `parsed` is false where one of the files has no syntax tree.
  pub detect_plagiarism : Bool → List Match
  unfolding run_phase1
  detect_plagiarism parsed =
      let functions : Detected =
        if parsed then inside_functions run_phase1 else ([], no_lines, no_lines) in
      filter_contained_matches
        (sort_by starts_first (merge_matches 0 (on_semantics (on_lines functions))))
