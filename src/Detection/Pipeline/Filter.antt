-- ===== src/Detection/Pipeline/Filter.antt =====
-- What `_filter_contained_matches` of detection/pipeline/api.py keeps of the reported lines.
use rest_api_plagiarism.Prelude.{
  ℕ, zero, suc, ◌+◌, ◌≤◌, ◌<◌, true, ◌≡◌, ◌⊎◌, inl, inr, List, [], ◌∷◌, arith, ◌==◌, Bool-cases,
  Any, sort_by, sort_by-Any,
}
use rest_api_plagiarism.Detection.Match.{SourceRegion, Match, LineSet, no_lines}
use rest_api_plagiarism.Detection.Lines.{starts_first}
use rest_api_plagiarism.Detection.Pipeline.{
  lines_of, within, region_within, add_region, larger_first, keep_uncontained,
  filter_contained_matches,
}

-- Line `x` stands in the region.
abbrev pub Line : ℕ → SourceRegion → Type 0
Line x r = (r.start_line ≤ x) × (x ≤ r.end_line)

pub within-true :
    (x start length : ℕ) (lines : LineSet)
    → within start length lines ≡ true
    → start ≤ x
    → x < start + length
    → lines x ≡ true
unfolding within
within-true x start zero lines h lo hi = absurd (omega arith)
within-true x start (suc length) lines h lo hi = elim (Bool-cases (lines start)) [
  | inr out ↦ let h' = rw out at h in absurd (cc)
  | inl here ↦ elim (Bool-cases (start == x)) [
    | inl e ↦ let e' : x ≡ start = ground arith in rw e' here
    | inr ne ↦ within-true x (start + 1) length lines (rw here at h) (ground arith) (omega arith)
  ]
]

region_within-true :
    (x : ℕ) (r : SourceRegion) (lines : LineSet)
    → region_within r lines ≡ true
    → Line x r
    → lines x ≡ true
region_within-true x r lines h (lo, hi) =
    within-true x r.start_line (lines_of r) lines h lo (omega arith)

add_region-cases :
    (x : ℕ) (r : SourceRegion) (lines : LineSet)
    → add_region r lines x ≡ true
    → Line x r ⊎ (lines x ≡ true)
add_region-cases x r lines h = elim (Bool-cases (lines x)) [
  | inl e ↦ inr e
  | inr e ↦ inl (ground arith, ground arith)
]

-- A match is dropped where all its lines of both files are reported already, and kept elsewhere.
keep_uncontained-step :
    (ua ub : LineSet) (m : Match) (ms : List Match)
    → ((region_within m.file1 ua ≡ true)
        × ((region_within m.file2 ub ≡ true)
            × (keep_uncontained ua ub (m ∷ ms) ≡ keep_uncontained ua ub ms)))
      ⊎ (keep_uncontained ua ub (m ∷ ms)
          ≡ m ∷ keep_uncontained (add_region m.file1 ua) (add_region m.file2 ub) ms)
unfolding keep_uncontained
keep_uncontained-step ua ub m ms = elim (Bool-cases (region_within m.file1 ua)) [
  | inr a ↦ inr (rw a)
  | inl a ↦ elim (Bool-cases (region_within m.file2 ub)) [
    | inr b ↦ inr (rw (a, b))
    | inl b ↦ inl (a, (b, rw (a, b)))
  ]
]

keep_uncontained-file1 :
    (x : ℕ) (ua ub : LineSet) (ms : List Match)
    → Any (λ m. Line x m.file1) ms
    → (ua x ≡ true) ⊎ Any (λ m. Line x m.file1) (keep_uncontained ua ub ms)
keep_uncontained-file1 x ua ub [] p = elim p [ ]
keep_uncontained-file1 x ua ub (m ∷ ms) p = elim (keep_uncontained-step ua ub m ms) [
  | inl (a, (b, e)) ↦ rw e (elim p [
    | inl here ↦ inl (region_within-true x m.file1 ua a here)
    | inr later ↦ keep_uncontained-file1 x ua ub ms later
  ])
  | inr e ↦ rw e (elim p [
    | inl here ↦ inr (inl here)
    | inr later ↦
        elim (keep_uncontained-file1 x (add_region m.file1 ua) (add_region m.file2 ub) ms later) [
          | inr found ↦ inr (inr found)
          | inl marked ↦ elim (add_region-cases x m.file1 ua marked) [
            | inl here ↦ inr (inl here)
            | inr before ↦ inl before
          ]
        ]
  ])
]

keep_uncontained-file2 :
    (x : ℕ) (ua ub : LineSet) (ms : List Match)
    → Any (λ m. Line x m.file2) ms
    → (ub x ≡ true) ⊎ Any (λ m. Line x m.file2) (keep_uncontained ua ub ms)
keep_uncontained-file2 x ua ub [] p = elim p [ ]
keep_uncontained-file2 x ua ub (m ∷ ms) p = elim (keep_uncontained-step ua ub m ms) [
  | inl (a, (b, e)) ↦ rw e (elim p [
    | inl here ↦ inl (region_within-true x m.file2 ub b here)
    | inr later ↦ keep_uncontained-file2 x ua ub ms later
  ])
  | inr e ↦ rw e (elim p [
    | inl here ↦ inr (inl here)
    | inr later ↦
        elim (keep_uncontained-file2 x (add_region m.file1 ua) (add_region m.file2 ub) ms later) [
          | inr found ↦ inr (inr found)
          | inl marked ↦ elim (add_region-cases x m.file2 ub marked) [
            | inl here ↦ inr (inl here)
            | inr before ↦ inl before
          ]
        ]
  ])
]

-- The half of it about file 1.
pub filter_contained_matches-file1 :
    (x : ℕ) (ms : List Match)
    → Any (λ m. Line x m.file1) ms
    → Any (λ m. Line x m.file1) (filter_contained_matches ms)
unfolding filter_contained_matches
filter_contained_matches-file1 x ms p =
    let by_size = sort_by larger_first ms in
    let kept = keep_uncontained no_lines no_lines by_size in
    let a : Any (λ m. Line x m.file1) kept =
      elim (keep_uncontained-file1 x no_lines no_lines by_size
        (sort_by-Any larger_first (λ m. Line x m.file1) ms p)) [
          | inl none_used ↦ absurd (cc)
          | inr found ↦ found
        ] in
    sort_by-Any starts_first (λ m. Line x m.file1) kept a

-- The filter loses no reported line: what some match reports of file 1, and what some match reports of
-- file 2, is reported by a match that stays.
pub filter_contained_matches-lines :
    (x y : ℕ) (ms : List Match)
    → Any (λ m. Line x m.file1) ms
    → Any (λ m. Line y m.file2) ms
    → Any (λ m. Line x m.file1) (filter_contained_matches ms)
      × Any (λ m. Line y m.file2) (filter_contained_matches ms)
unfolding filter_contained_matches
filter_contained_matches-lines x y ms p q =
    let by_size = sort_by larger_first ms in
    let p' = sort_by-Any larger_first (λ m. Line x m.file1) ms p in
    let q' = sort_by-Any larger_first (λ m. Line y m.file2) ms q in
    let kept = keep_uncontained no_lines no_lines by_size in
    let a : Any (λ m. Line x m.file1) kept =
      elim (keep_uncontained-file1 x no_lines no_lines by_size p') [
        | inl none_used ↦ absurd (cc)
        | inr found ↦ found
      ] in
    let b : Any (λ m. Line y m.file2) kept =
      elim (keep_uncontained-file2 y no_lines no_lines by_size q') [
        | inl none_used ↦ absurd (cc)
        | inr found ↦ found
      ] in
    (
      sort_by-Any starts_first (λ m. Line x m.file1) kept a,
      sort_by-Any starts_first (λ m. Line y m.file2) kept b,
    )
