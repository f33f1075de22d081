-- ===== src/Detection/Merge/Adjacent.antt =====
-- What `merge_adjacent_matches` of plagiarism_core/matcher.py keeps of the lines and counts.
use rest_api_plagiarism.Prelude.{
  ℕ, ◌≤◌, ◌⊎◌, inl, inr, List, [], ◌∷◌, arith, Bool-cases, Any, sort_by, sort_by-Any,
  sort_by-Ascending,
}
use rest_api_plagiarism.Detection.Match.{Match}
use rest_api_plagiarism.Detection.Merge.{
  starts_before, adjacent, extend_match, extend_into, extend_sorted, merge_adjacent_matches, plain,
}
use rest_api_plagiarism.Detection.Merge.Covering.{
  After, StartsAscend, Ascending-StartsAscend, starts_before-total, starts_before_trans,
}

-- Line `x` of file 1 stands in the match.
abbrev pub Holds : ℕ → Match → Type 0
Holds x m = (m.file1.start_line ≤ x) × (x ≤ m.file1.end_line)

extend_into-Holds :
    (gap x : ℕ) (p : Match) (ms : List Match)
    → After p ms
    → StartsAscend ms
    → Holds x p ⊎ Any (Holds x) ms
    → Any (Holds x) (extend_into gap p ms)
unfolding extend_into
extend_into-Holds gap x p [] a s r = r
extend_into-Holds gap x p (m ∷ ms) (a, later) (b, bs) r = elim (Bool-cases (adjacent gap p m)) [
  | inl h ↦ rw h (
      extend_into-Holds gap x (extend_match p m) ms later bs (elim r [
        | inl (lo, hi) ↦ inl (lo, omega arith)
        | inr (inl (lo, hi)) ↦ inl (omega arith, omega arith)
        | inr (inr qs) ↦ inr qs
      ]))
  | inr h ↦
      rw h (elim r [ inl q ↦ inl q | inr qs ↦ inr (extend_into-Holds gap x (plain m) ms b bs qs) ])
]

extend_sorted-Holds :
    (gap x : ℕ) (ms : List Match)
    → StartsAscend ms
    → Any (Holds x) ms
    → Any (Holds x) (extend_sorted gap ms)
extend_sorted-Holds gap x [] s q = q
extend_sorted-Holds gap x (m ∷ ms) (a, s) q = extend_into-Holds gap x (plain m) ms a s q

-- A line of file 1 that some match holds is held by a match that `merge_adjacent_matches` returns.
pub merge_adjacent_matches-Holds :
    (gap x : ℕ) (ms : List Match) → Any (Holds x) ms → Any (Holds x) (merge_adjacent_matches gap ms)
unfolding merge_adjacent_matches
merge_adjacent_matches-Holds gap x ms r =
    extend_sorted-Holds gap x (sort_by starts_before ms)
      (Ascending-StartsAscend (sort_by starts_before ms)
        (sort_by-Ascending starts_before starts_before-total starts_before_trans ms))
      (sort_by-Any starts_before (Holds x) ms r)
