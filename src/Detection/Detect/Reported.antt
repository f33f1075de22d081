-- ===== src/Detection/Detect/Reported.antt =====
-- The lines that `detect_plagiarism` of detection/pipeline/api.py reports in the end.
use rest_api_plagiarism.Prelude.{
  ℕ, ◌≡◌, refl, inl, inr, true, false, List, [], ◌∷◌, ◌++◌, Any, All, sort_by, sort_by-Any,
}
use rest_api_plagiarism.Detection.Match.{PlagiarismType, Match}
use rest_api_plagiarism.Detection.Lines.{line_level_matches, starts_first}
use rest_api_plagiarism.Detection.Functions.{Function}
use rest_api_plagiarism.Detection.Merge.{merge_matches}
use rest_api_plagiarism.Detection.Merge.Covering.{Reports, merge_matches-Reports}
use rest_api_plagiarism.Detection.Pipeline.{run_phase3}
use rest_api_plagiarism.Detection.Pipeline.Filter.{Line, filter_contained_matches-file1}
use rest_api_plagiarism.Detection.Phase2.{is_mostly_identical}
use rest_api_plagiarism.Detection.Phase2.Lines.{Any-before, run_phase2-file1}
use rest_api_plagiarism.Detection.Detect.{
  Detected, Matchers, Sources, run_phase1, inside_functions, on_lines, on_semantics,
  detect_plagiarism,
}

typed :
    (x : ℕ) (ms : List Match)
    → Any (λ m. Line x m.file1) ms
    → (t : PlagiarismType) × Any (Reports t x) ms
typed x [] p = absurd p
typed x (m ∷ ms) (inl p) = (m.plagiarism_type, inl (refl, p))
typed x (m ∷ ms) (inr p) = let (t, q) = typed x ms p in (t, inr q)

untyped :
    (x : ℕ) (t : PlagiarismType) (ms : List Match)
    → Any (Reports t x) ms
    → Any (λ m. Line x m.file1) ms
untyped x t [] p = absurd p
untyped x t (m ∷ ms) (inl (e, p)) = inl p
untyped x t (m ∷ ms) (inr p) = inr (untyped x t ms p)

module _ (m : Matchers) (s : Sources) (funcs_a funcs_b : List Function) (min_match_lines : ℕ) where
  abbrev later : Detected → List Match
  later d =
      on_semantics m s funcs_a funcs_b min_match_lines
        (on_lines m s funcs_a funcs_b min_match_lines d)

  -- The third and the fourth phase only add matches.
  later-Any : (P : Match → Type 0) (d : Detected) → Any P d.0 → Any P (later d)
  later-Any P (ms, a, b) p =
      let by_lines =
        line_level_matches m.xxh64 m.extract m.describe s.lines_a s.lines_b s.shadow_a s.shadow_b
          min_match_lines in
      let found = run_phase3 a b by_lines in
      Any-before P (ms ++ found.0) (m.semantic_matches (ms ++ found.0) found.1 found.2)
        (Any-before P ms found.0 p)

  -- Every line of file 1 that the first phase reports, in pairs of functions of which none is mostly identical, is
  -- reported by a match that `detect_plagiarism` returns: neither the phases behind it nor the merge nor the filter of
  -- contained matches loses it, whatever the other matchers report.
  pub detect_plagiarism-lines :
      (x : ℕ)
      → All
          (λ fm. is_mostly_identical fm ≡ false)
          (run_phase1 m s funcs_a funcs_b min_match_lines).0
      → Any (λ n. Line x n.file1) (run_phase1 m s funcs_a funcs_b min_match_lines).0
      → Any (λ n. Line x n.file1) (detect_plagiarism m s funcs_a funcs_b min_match_lines true)
  unfolding detect_plagiarism
  detect_plagiarism-lines x none_is p =
      let first = run_phase1 m s funcs_a funcs_b min_match_lines in
      let second = inside_functions m s funcs_a funcs_b min_match_lines first in
      let inside : Any (λ n. Line x n.file1) second.0 =
        run_phase2-file1 m.xxh64 m.extract m.describe m.semantic_inside s.lines_a s.lines_b
          s.shadow_a s.shadow_b min_match_lines x first.0 first.1 first.2 none_is p in
      let (t, q) = typed x (later second) (later-Any (λ n. Line x n.file1) second inside) in
      let merged =
        untyped x t (merge_matches 0 (later second))
          (merge_matches-Reports 0 t x (later second) q) in
      filter_contained_matches-file1 x (sort_by starts_first (merge_matches 0 (later second)))
        (sort_by-Any starts_first (λ n. Line x n.file1) (merge_matches 0 (later second)) merged)
