-- ===== src/Detection/Phase1/Marked.antt =====
-- The matches of the two matchers of detection/pipeline/phase1.py, and which of them cover their lines.
use rest_api_plagiarism.Prelude.{
  ℕ, ◌+◌, ◌-◌, ◌*◌, ◌≡◌, refl, subst, inl, inr, arith, min, max, String, Bool, true, false, Option,
  none, some, some-injective, Option-cases, List, length, ltb, if◌then◌else◌, Bool-cases,
  str_append, All,
}
use rest_api_plagiarism.Detection.Match.{Match, LineSet, no_lines}
use rest_api_plagiarism.Detection.Functions.{Function}
use rest_api_plagiarism.Detection.Pipeline.{FunctionLine, count_differing_lines}
use rest_api_plagiarism.Detection.Phase2.{is_flagged, is_mostly_identical}
use rest_api_plagiarism.Detection.Phase1.{
  trimmed_match, Attempt, covering, enumerated, ends, same_signature, compare_signatures,
  any_function, match_by_body_signature, bodies_match, named_match, compare_named, indexed_name,
  match_by_name, arrow, body_of,
}
use rest_api_plagiarism.Detection.Phase1.Free.{
  Inside, reported, MarkedApart, Proper, KeepsProper, match_loop-Apart, match_loop-All,
}

trimmed_match-Inside :
    (ps : ℕ × ℕ) (f g : Function) (d : String) (m : Match)
    → trimmed_match ps f g d ≡ some m
    → Inside f g m
trimmed_match-Inside (prefix, suffix) f g d m h =
    elim (Bool-cases (ltb f.end_line (f.start_line + prefix + suffix))) [
      | inl y ↦ let h' = rw y at h in absurd (cc)
      | inr n ↦ elim (Bool-cases (ltb g.end_line (g.start_line + prefix + suffix))) [
        | inl y ↦ let h' = rw (n, y) at h in absurd (cc)
        | inr n' ↦
            subst (Inside f g) (some-injective (rw (n, n') at h))
              (omega arith, omega arith, omega arith, omega arith)
      ]
    ]

-- A trimmed match is not of mostly identical functions.
trimmed_match-flag :
    (ps : ℕ × ℕ) (f g : Function) (d : String) (m : Match)
    → trimmed_match ps f g d ≡ some m
    → is_mostly_identical m ≡ false
unfolding is_flagged
trimmed_match-flag (prefix, suffix) f g d m h =
    elim (Bool-cases (ltb f.end_line (f.start_line + prefix + suffix))) [
      | inl y ↦ let h' = rw y at h in absurd (cc)
      | inr n ↦ elim (Bool-cases (ltb g.end_line (g.start_line + prefix + suffix))) [
        | inl y ↦ let h' = rw (n, y) at h in absurd (cc)
        | inr n' ↦
            subst (λ x. is_mostly_identical x ≡ false) (some-injective (rw (n, n') at h)) refl
      ]
    ]

trimmed-Proper :
    (ps : ℕ × ℕ) (f g : Function) (d : String) (m : Match)
    → trimmed_match ps f g d ≡ some m
    → Proper f g (m, true)
trimmed-Proper ps f g d m h =
    let plain = trimmed_match-flag ps f g d m h in (trimmed_match-Inside ps f g d m h, rw plain)

-- A match by signature is not of mostly identical functions, and covers its lines.
covering-Proper :
    (ps : ℕ × ℕ) (f g : Function) (d : String) (p : Match × Bool)
    → covering (trimmed_match ps f g d) ≡ some p
    → Proper f g p × (is_mostly_identical p.0 ≡ false)
covering-Proper ps f g d p h = elim (Option-cases (trimmed_match ps f g d)) [
  | inl e ↦ let h' = rw e at h in absurd (cc)
  | inr (n, e) ↦
      let same : (n, true) ≡ p = some-injective (rw e at h) in
      subst (λ x. Proper f g x × (is_mostly_identical x.0 ≡ false)) same
        (trimmed-Proper ps f g d n e, trimmed_match-flag ps f g d n e)
]

not_then :
    (b : Bool) (x : Attempt) (r : Match × Bool) → (if b then none else x) ≡ some r → x ≡ some r
not_then true x r h = absurd (cc)
not_then false x r h = h

then_only :
    (b : Bool) (x : Attempt) (r : Match × Bool) → (if b then x else none) ≡ some r → x ≡ some r
then_only true x r h = h
then_only false x r h = absurd (cc)

module _ (xxh64 : String → ℕ) (lines_a lines_b : List FunctionLine) where
  compare_signatures-Proper :
      (signature_a signature_b : Function → Option String) (f g : Function) (p : Match × Bool)
      → compare_signatures xxh64 lines_a lines_b signature_a signature_b f g ≡ some p
      → Proper f g p × (is_mostly_identical p.0 ≡ false)
  unfolding compare_signatures
  compare_signatures-Proper signature_a signature_b f g p h =
      let size_a = f.end_line + 1 - f.start_line in
      let size_b = g.end_line + 1 - g.start_line in
      let d = str_append "Semantic equivalent (cross-name): " (arrow f g) in
      let pair = ends xxh64 lines_a lines_b f g in
      let x3 = covering (trimmed_match pair f g d) in
      let x2 : Attempt = if same_signature (signature_a f) (signature_b g) then x3 else none in
      let x1 : Attempt = if ltb (2 * min size_a size_b) (max size_a size_b) then none else x2 in
      let x0 : Attempt = if ltb size_b 3 then none else x1 in
      let h0 = not_then (ltb size_a 3) x0 p h in
      let h1 = not_then (ltb size_b 3) x1 p h0 in
      let h2 = not_then (ltb (2 * min size_a size_b) (max size_a size_b)) x2 p h1 in
      let same = same_signature (signature_a f) (signature_b g) in
      covering-Proper pair f g d p (then_only same x3 p h2)

  module _ (line_matches semantic_matches : Function → Function → List Match)
      (similar_body : Function → Function → Bool) where
    named_match-Proper :
        (ps : ℕ × ℕ) (f g : Function) (o : Option Match) (p : Match × Bool)
        → ((n : Match) → o ≡ some n → Proper f g (n, true))
        → named_match xxh64 lines_a lines_b line_matches semantic_matches similar_body ps f g o
          ≡ some p
        → Proper f g p
    unfolding is_flagged
    named_match-Proper (prefix, suffix) f g none p proper h = absurd (cc)
    named_match-Proper (prefix, suffix) f g (some n) p proper h =
        let body_a = body_of f lines_a in
        let body_b = body_of g lines_b in
        let differing = count_differing_lines xxh64 body_a body_b prefix suffix in
        let total = min (length body_a) (length body_b) - prefix - suffix in
        elim (Bool-cases (ltb 0 total)) [
          | inr z ↦ subst (Proper f g) (some-injective (rw z at h)) (proper n refl)
          | inl z ↦ elim (Bool-cases (ltb (differing * 10) total)) [
            | inr w ↦ subst (Proper f g) (some-injective (rw (z, w) at h)) (proper n refl)
            | inl w ↦
                subst (Proper f g) (some-injective (rw (z, w) at h))
                  ((omega arith, omega arith, omega arith, omega arith), refl)
          ]
        ]

  compare_named-Proper :
      (line_matches semantic_matches : Function → Function → List Match)
      (similar_body : Function → Function → Bool)
      → KeepsProper (compare_named xxh64 lines_a lines_b line_matches semantic_matches similar_body)
  unfolding compare_named
  compare_named-Proper line_matches semantic_matches similar_body f g p h =
      let d = str_append "Semantic equivalent: " (str_append (arrow f g) " (name-based)") in
      let pair = ends xxh64 lines_a lines_b f g in
      let o = trimmed_match pair f g d in
      let x =
        named_match xxh64 lines_a lines_b line_matches semantic_matches similar_body pair f g o in
      let both =
        bodies_match xxh64 lines_a lines_b line_matches semantic_matches similar_body f g in
      named_match-Proper line_matches semantic_matches similar_body pair f g o p
        (trimmed-Proper pair f g d) (then_only both x p h)

  -- The matches by name have, in either file, no line that is covered before them or in the region of an earlier match by
  -- name that is not of mostly identical functions; the loop covers the lines of exactly these latter. The matches by
  -- body signature have no line that is covered before them or in the region of any earlier match by body signature,
  -- none of them is of mostly identical functions, and the loop covers the lines of each.
  pub match_by_name-Apart :
      (signature_a signature_b : Function → Option String)
      (line_matches semantic_matches : Function → Function → List Match)
      (similar_body : Function → Function → Bool) (covered_a covered_b : LineSet)
      (funcs_a funcs_b : List Function)
      → let by_name =
          match_by_name xxh64 lines_a lines_b line_matches semantic_matches similar_body covered_a
            covered_b funcs_a funcs_b in
        let by_signature =
          match_by_body_signature xxh64 lines_a lines_b signature_a signature_b covered_a covered_b
            funcs_a funcs_b in
        MarkedApart covered_a covered_b by_name
        × MarkedApart covered_a covered_b by_signature
        × All (λ m. is_mostly_identical m ≡ false) (reported by_signature)
  unfolding match_by_name match_by_body_signature
  match_by_name-Apart signature_a signature_b line_matches semantic_matches similar_body covered_a
        covered_b funcs_a funcs_b =
      (
        match_loop-Apart
            (compare_named xxh64 lines_a lines_b line_matches semantic_matches similar_body)
            (indexed_name covered_b)
            (compare_named-Proper line_matches semantic_matches similar_body) covered_a covered_b
            no_lines (enumerated 0 funcs_b) funcs_a,
        match_loop-Apart (compare_signatures xxh64 lines_a lines_b signature_a signature_b)
            any_function (λ f g p h. (compare_signatures-Proper signature_a signature_b f g p h).0)
            covered_a covered_b no_lines (enumerated 0 funcs_b) funcs_a,
        match_loop-All (λ m. is_mostly_identical m ≡ false)
            (compare_signatures xxh64 lines_a lines_b signature_a signature_b) any_function
            (λ f g p h. (compare_signatures-Proper signature_a signature_b f g p h).1) covered_a
            covered_b no_lines (enumerated 0 funcs_b) funcs_a,
      )
