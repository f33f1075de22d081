-- ===== src/Detection/Phase1/Free.antt =====
-- The lines that the matchers of detection/pipeline/phase1.py report.
use rest_api_plagiarism.Prelude.{
  ℕ, zero, suc, ◌+◌, ◌-◌, ◌≤◌, ◌≡◌, refl, ap, ◌∙◌, subst, inl, inr, arith, Bool, true, false, some,
  some-injective, Option-cases, List, [], ◌∷◌, ltb, if◌then◌else◌, Bool-cases, All, map,
}
use rest_api_plagiarism.Detection.Match.{SourceRegion, Match, LineSet, add_range, meets}
use rest_api_plagiarism.Detection.Lines.Trim.{meets-false}
use rest_api_plagiarism.Detection.Functions.{Function, Indexed, touches}
use rest_api_plagiarism.Detection.Pipeline.{lines_of, add_region}
use rest_api_plagiarism.Detection.Phase2.{is_mostly_identical, side1, side2}
use rest_api_plagiarism.Detection.Phase1.{Attempt, first_match, cover, match_loop}

-- Both regions of a match lie in the two functions.
abbrev pub Inside : Function → Function → Match → Type 0
Inside f g m =
    (f.start_line ≤ m.file1.start_line)
    × (m.file1.end_line ≤ f.end_line)
    × (g.start_line ≤ m.file2.start_line)
    × (m.file2.end_line ≤ g.end_line)

-- No region of one side has a line that is in `covered` or in a region before it, where the regions of mostly
-- identical functions do not count.
abbrev pub Apart : (Match → SourceRegion) → LineSet → List Match → Type 0
Apart side covered [] = Unit
Apart side covered (m ∷ ms) =
    (meets (side m).start_line (lines_of (side m)) covered ≡ false)
    × Apart side (if is_mostly_identical m then covered else add_region (side m) covered) ms

-- The matches alone.
abbrev pub reported : List (Match × Bool) → List Match
reported ms = map (λ p. p.0) ms

abbrev pub opposite : Bool → Bool
opposite b = if b then false else true

-- Whether a match covers its lines.
abbrev pub MarksRight : Match → Bool → Type 0
MarksRight m marks = marks ≡ opposite (is_mostly_identical m)

-- The lines that two matchers report, and which of them they cover.
abbrev pub MarkedApart : LineSet → LineSet → List (Match × Bool) → Type 0
MarkedApart covered_a covered_b ms =
    Apart side1 covered_a (reported ms)
    × Apart side2 covered_b (reported ms)
    × All (λ p. MarksRight p.0 p.1) ms

meets-inner :
    (start n s k : ℕ) (covered : LineSet)
    → meets start n covered ≡ false
    → start ≤ s
    → s + k ≤ start + n
    → meets s k covered ≡ false
unfolding meets
meets-inner start n s zero covered h le lt = refl
meets-inner start n s (suc k) covered h le lt =
    let first = meets-false start n covered h s le (omega arith) in
    rw first (meets-inner start n (s + 1) k covered h (omega arith) (omega arith))

-- A region in a function that touches no covered line has none.
inner-free :
    (f : Function) (r : SourceRegion) (covered : LineSet)
    → touches f covered ≡ false
    → f.start_line ≤ r.start_line
    → r.end_line ≤ f.end_line
    → meets r.start_line (lines_of r) covered ≡ false
unfolding meets
inner-free f r covered free le lt = elim (Bool-cases (ltb r.end_line r.start_line)) [
  | inl empty_region ↦ let z : lines_of r ≡ 0 = ground arith in rw z
  | inr some_lines ↦
      meets-inner f.start_line (f.end_line + 1 - f.start_line) r.start_line (lines_of r) covered
        free le (ground arith)
]

first_match-free :
    (compare_with : Function → Attempt) (candidate : Indexed → Bool) (covered : LineSet)
    (funcs : List Indexed) (j : ℕ) (m : Match) (marks : Bool)
    → first_match compare_with candidate covered funcs ≡ some (j, (m, marks))
    → (g : Function) × (touches g covered ≡ false) × (compare_with g ≡ some (m, marks))
unfolding first_match
first_match-free compare_with candidate covered [] j m marks h = absurd (cc)
first_match-free compare_with candidate covered ((i, g) ∷ funcs) j m marks h =
    elim (Bool-cases (candidate (i, g))) [
      | inr n ↦ first_match-free compare_with candidate covered funcs j m marks (rw n at h)
      | inl y ↦ elim (Bool-cases (touches g covered)) [
        | inl t ↦ first_match-free compare_with candidate covered funcs j m marks (rw (y, t) at h)
        | inr t ↦ elim (Option-cases (compare_with g)) [
          | inl e ↦
              first_match-free compare_with candidate covered funcs j m marks (rw (y, t, e) at h)
          | inr (r, e) ↦
              let h' = rw (y, t, e) at h in
              let same = some-injective h' in
              (g, t, e ∙ ap (λ (p : ℕ × (Match × Bool)). some p.1) same)
        ]
      ]
    ]

-- What is proved of every comparison of two functions.
abbrev pub Proper : Function → Function → Match × Bool → Type 0
Proper f g (m, marks) = Inside f g m × MarksRight m marks

abbrev pub KeepsProper : (Function → Function → Attempt) → Type 0
KeepsProper compare_bodies =
    (f g : Function) (p : Match × Bool) → compare_bodies f g ≡ some p → Proper f g p

-- The lines that `cover` covers are those of a match that is not of mostly identical functions.
covered_by :
    (m : Match) (marks : Bool) (r : SourceRegion) (covered : LineSet)
    → MarksRight m marks
    → cover marks r covered ≡ (if is_mostly_identical m then covered else add_region r covered)
covered_by m marks r covered right = elim (Bool-cases (is_mostly_identical m)) [
  | inl y ↦ rw (right, y)
  | inr n ↦ rw (right, n)
]

pub match_loop-Apart :
    (compare_bodies : Function → Function → Attempt)
    (candidate : LineSet → Function → Indexed → Bool)
    → KeepsProper compare_bodies
    → (covered_a covered_b removed : LineSet) (funcs_b : List Indexed) (funcs_a : List Function)
    → MarkedApart covered_a covered_b
        (match_loop compare_bodies candidate covered_a covered_b removed funcs_b funcs_a)
unfolding match_loop
match_loop-Apart compare_bodies candidate proper covered_a covered_b removed funcs_b [] =
    (tt, tt, tt)
match_loop-Apart compare_bodies candidate proper covered_a covered_b removed funcs_b (f ∷ funcs_a) =
    let skipped =
      match_loop-Apart compare_bodies candidate proper covered_a covered_b removed funcs_b
        funcs_a in
    elim (Bool-cases (touches f covered_a)) [
      | inl y ↦ rw y skipped
      | inr n ↦
          elim (Option-cases
            (first_match (compare_bodies f) (candidate removed f) covered_b funcs_b)) [
              | inl e ↦ rw (n, e) skipped
              | inr ((j, (m, marks)), e) ↦
                  let (g, free, pair) =
                    first_match-free (compare_bodies f) (candidate removed f) covered_b funcs_b j m
                      marks e in
                  let ((a, b, c, d), right) = proper f g (m, marks) pair in
                  let (rest_a, rest_b, rest) =
                    match_loop-Apart compare_bodies candidate proper (cover marks m.file1 covered_a)
                      (cover marks m.file2 covered_b) (add_range j 1 removed) funcs_b funcs_a in
                  let ms = reported (
                    match_loop compare_bodies candidate (cover marks m.file1 covered_a)
                      (cover marks m.file2 covered_b) (add_range j 1 removed) funcs_b funcs_a) in
                  rw (n, e)
                    (
                      (
                        inner-free f m.file1 covered_a n a b,
                        subst (λ l. Apart side1 l ms) (covered_by m marks m.file1 covered_a right)
                            rest_a,
                      ),
                      (
                        inner-free g m.file2 covered_b free c d,
                        subst (λ l. Apart side2 l ms) (covered_by m marks m.file2 covered_b right)
                            rest_b,
                      ),
                      (right, rest),
                    )
            ]
    ]

-- What holds of each comparison holds of each match.
pub match_loop-All :
    (P : Match → Type 0) (compare_bodies : Function → Function → Attempt)
    (candidate : LineSet → Function → Indexed → Bool)
    → ((f g : Function) (p : Match × Bool) → compare_bodies f g ≡ some p → P p.0)
    → (covered_a covered_b removed : LineSet) (funcs_b : List Indexed) (funcs_a : List Function)
    → All P
        (reported (match_loop compare_bodies candidate covered_a covered_b removed funcs_b funcs_a))
unfolding match_loop
match_loop-All P compare_bodies candidate each covered_a covered_b removed funcs_b [] = tt
match_loop-All P compare_bodies candidate each covered_a covered_b removed funcs_b (f ∷ funcs_a) =
    let skipped =
      match_loop-All P compare_bodies candidate each covered_a covered_b removed funcs_b funcs_a in
    elim (Bool-cases (touches f covered_a)) [
      | inl y ↦ rw y skipped
      | inr n ↦
          elim (Option-cases
            (first_match (compare_bodies f) (candidate removed f) covered_b funcs_b)) [
              | inl e ↦ rw (n, e) skipped
              | inr ((j, (m, marks)), e) ↦
                  let (g, free, pair) =
                    first_match-free (compare_bodies f) (candidate removed f) covered_b funcs_b j m
                      marks e in
                  rw (n, e)
                    (
                      each f g (m, marks) pair,
                      match_loop-All P compare_bodies candidate each (cover marks m.file1 covered_a)
                          (cover marks m.file2 covered_b) (add_range j 1 removed) funcs_b funcs_a,
                    )
            ]
    ]
