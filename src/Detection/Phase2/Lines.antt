-- ===== src/Detection/Phase2/Lines.antt =====
-- What detection/pipeline/phase2.py keeps of the reported lines.
use rest_api_plagiarism.Prelude.{
  ℕ, ◌*◌, ◌≡◌, refl, sym, ap, ◌∙◌, subst, ◌⊎◌, inl, inr, arith, String, str_eq, str_eq_refl, Bool,
  true, false, Option, none, some, List, [], ◌∷◌, ◌++◌, append_assoc, append-nil, ◌==◌, Bool-cases,
  Any, All,
}
use rest_api_plagiarism.Detection.Match.{
  SourceRegion, Match, Rename, Detail, renames, word, flag, Details, LineSet, in_range, type_value,
}
use rest_api_plagiarism.Detection.Functions.{mark_all}
use rest_api_plagiarism.Detection.Pipeline.{within, lines_of}
use rest_api_plagiarism.Detection.Pipeline.Filter.{Line, within-true}
use rest_api_plagiarism.Detection.Phase2.{
  lines_in, region_eq, renames_eq, detail_eq, details_eq, optional_eq, match_eq, remove_match,
  is_mostly_identical, equals_range, side1, side2, is_replaced, maybe_remove_function_match,
  inner_matches, phase2_loop, run_phase2,
}

num_eq_refl : (n : ℕ) → (n == n) ≡ true
num_eq_refl n = ground arith

renames_eq_refl : (rs : List Rename) → renames_eq rs rs ≡ true
unfolding renames_eq
renames_eq_refl [] = refl
renames_eq_refl (r ∷ rs) =
    rw (str_eq_refl r.original, str_eq_refl r.renamed_to, num_eq_refl r.line) (renames_eq_refl rs)

detail_eq_refl : (d : Detail) → detail_eq d d ≡ true
detail_eq_refl (renames rs) = renames_eq_refl rs
detail_eq_refl (word s) = str_eq_refl s
detail_eq_refl (flag true) = refl
detail_eq_refl (flag false) = refl

details_eq_refl : (ds : Details) → details_eq ds ds ≡ true
unfolding details_eq
details_eq_refl [] = refl
details_eq_refl ((k, d) ∷ ds) = rw (str_eq_refl k, detail_eq_refl d) (details_eq_refl ds)

optional_eq_refl :
    {A : Type 0} (eq : A → A → Bool)
    → ((x : A) → eq x x ≡ true)
    → (o : Option A) → optional_eq eq o o ≡ true
unfolding optional_eq
optional_eq_refl eq r none = refl
optional_eq_refl eq r (some x) = r x

match_eq_refl : (m : Match) → match_eq m m ≡ true
unfolding match_eq
match_eq_refl m =
    rw
      (
        num_eq_refl m.file1.start_line,
        num_eq_refl m.file1.start_col,
        num_eq_refl m.file1.end_line,
        num_eq_refl m.file1.end_col,
        num_eq_refl m.file2.start_line,
        num_eq_refl m.file2.start_col,
        num_eq_refl m.file2.end_line,
        num_eq_refl m.file2.end_col,
        num_eq_refl m.kgram_count,
        num_eq_refl (type_value m.plagiarism_type),
        optional_eq_refl details_eq details_eq_refl m.details,
        optional_eq_refl str_eq str_eq_refl m.description,
        num_eq_refl (m.similarity.num * m.similarity.den),
      )
      refl

region_eq-Line : (r s : SourceRegion) (x : ℕ) → region_eq r s ≡ true → Line x r → Line x s
region_eq-Line r s x h (lo, hi) = elim (Bool-cases (r.start_line == s.start_line)) [
  | inr n ↦ let h' = rw n at h in absurd (cc)
  | inl a ↦ elim (Bool-cases (r.start_col == s.start_col)) [
    | inr n ↦ let h' = rw (a, n) at h in absurd (cc)
    | inl b ↦ elim (Bool-cases (r.end_line == s.end_line)) [
      | inr n ↦ let h' = rw (a, b, n) at h in absurd (cc)
      | inl c ↦ (ground arith, ground arith)
    ]
  ]
]

match_eq-regions :
    (m n : Match)
    → match_eq m n ≡ true
    → (region_eq m.file1 n.file1 ≡ true) × (region_eq m.file2 n.file2 ≡ true)
unfolding match_eq
match_eq-regions m n h = elim (Bool-cases (region_eq m.file1 n.file1)) [
  | inr no_first ↦ let h' = rw no_first at h in absurd (cc)
  | inl a ↦ elim (Bool-cases (region_eq m.file2 n.file2)) [
    | inr no_second ↦ let h' = rw (a, no_second) at h in absurd (cc)
    | inl b ↦ (a, b)
  ]
]

lines_in-Any :
    (side : Match → SourceRegion) (ms : List Match) (x : ℕ)
    → lines_in side ms x ≡ true
    → Any (λ m. Line x (side m)) ms
unfolding lines_in
lines_in-Any side [] x h = absurd (cc)
lines_in-Any side (m ∷ ms) x h =
    elim (Bool-cases (in_range (side m).start_line (lines_of (side m)) x)) [
      | inl y ↦ inl (ground arith)
      | inr n ↦ inr (lines_in-Any side ms x (rw n at h))
    ]

equals_range-Any :
    (side : Match → SourceRegion) (fm : SourceRegion) (ms : List Match) (x : ℕ)
    → equals_range side fm ms ≡ true
    → Line x fm
    → Any (λ m. Line x (side m)) ms
equals_range-Any side fm ms x h (lo, hi) =
    elim (Bool-cases (within fm.start_line (lines_of fm) (lines_in side ms))) [
      | inr n ↦ let h' = rw n at h in absurd (cc)
      | inl y ↦
          lines_in-Any side ms x
            (within-true x fm.start_line (lines_of fm) (lines_in side ms) y lo (omega arith))
    ]

-- A replaced match that is not mostly identical has all its lines in the matches inside it.
is_replaced-Any :
    (fm : Match) (ms : List Match) (x : ℕ)
    → is_mostly_identical fm ≡ false
    → is_replaced fm ms ≡ true
    → (Line x fm.file1 → Any (λ m. Line x m.file1) ms)
      × (Line x fm.file2 → Any (λ m. Line x m.file2) ms)
unfolding is_replaced
is_replaced-Any fm ms x mostly h =
    let h' = rw mostly at h in
    elim (Bool-cases (equals_range side1 fm.file1 ms)) [
      | inr n ↦ let h'' = rw n at h' in absurd (cc)
      | inl y ↦ (
        equals_range-Any side1 fm.file1 ms x y,
        equals_range-Any side2 fm.file2 ms x (rw y at h'),
      )
    ]

module _ (P : Match → Type 0) where
  pub Any-before : (xs ys : List Match) → Any P xs → Any P (xs ++ ys)
  Any-before [] ys p = absurd p
  Any-before (x ∷ xs) ys (inl p) = inl p
  Any-before (x ∷ xs) ys (inr ps) = inr (Any-before xs ys ps)

  Any-after : (xs ys : List Match) → Any P ys → Any P (xs ++ ys)
  Any-after [] ys p = p
  Any-after (x ∷ xs) ys p = inr (Any-after xs ys p)

  Any-either : (xs ys : List Match) → Any P (xs ++ ys) → Any P xs ⊎ Any P ys
  Any-either [] ys p = inr p
  Any-either (x ∷ xs) ys (inl p) = inl (inl p)
  Any-either (x ∷ xs) ys (inr ps) = elim (Any-either xs ys ps) [
    | inl q ↦ inl (inr q)
    | inr q ↦ inr q
  ]

  -- The element that is removed is `fm` or one before it that is equal.
  remove_match-split :
      (fm : Match)
      → ((m : Match) → match_eq m fm ≡ true → P m → P fm)
      → (K Z : List Match)
      → (K' : List Match) × (remove_match fm (K ++ fm ∷ Z) ≡ K' ++ Z)
        × (Any P (K ++ fm ∷ []) → Any P K' ⊎ P fm)
  unfolding remove_match
  remove_match-split fm resp [] Z = ([], rw (match_eq_refl fm), only)
    where
      only : P fm ⊎ Any P [] → Any P [] ⊎ P fm
      only (inl p) = inr p
      only (inr p) = inl p
  remove_match-split fm resp (k ∷ K) Z = elim (Bool-cases (match_eq k fm)) [
    | inl y ↦ (K ++ fm ∷ [], rw y (sym (append_assoc K (fm ∷ []) Z)), λ p. first y p)
    | inr n ↦
        let (K', e, f) = remove_match-split fm resp K Z in
        (k ∷ K', rw n (ap (λ (l : List Match). k ∷ l) e), λ p. later K' f p)
  ]
    where
      first : match_eq k fm ≡ true → P k ⊎ Any P (K ++ fm ∷ []) → Any P (K ++ fm ∷ []) ⊎ P fm
      first y (inl p) = inr (resp k y p)
      first y (inr ps) = inl ps

      later :
          (K' : List Match)
          → (Any P (K ++ fm ∷ []) → Any P K' ⊎ P fm)
          → P k ⊎ Any P (K ++ fm ∷ [])
          → Any P (k ∷ K') ⊎ P fm
      later K' f (inl p) = inl (inl p)
      later K' f (inr ps) = elim (f ps) [ inl q ↦ inl (inr q) | inr q ↦ inr q ]

-- The list once the matches `ms` inside `fm` are appended, in terms of what is processed, `K`, what is left, `R`, and the
-- matches inside functions, `S`.
appended :
    (fm : Match) (K R S ms : List Match) → (K ++ (fm ∷ (R ++ S))) ++ ms ≡ K ++ fm ∷ (R ++ (S ++ ms))
appended fm K R S ms =
    append_assoc K (fm ∷ (R ++ S)) ms ∙ ap (λ (l : List Match). K ++ fm ∷ l) (append_assoc R S ms)

step_list :
    (P : Match → Type 0) (fm : Match) (K R S ms : List Match)
    → ((m : Match) → match_eq m fm ≡ true → P m → P fm)
    → (is_replaced fm ms ≡ true → P fm → Any P ms)
    → Any P (K ++ (fm ∷ (R ++ S)))
    → (K' : List Match) × (maybe_remove_function_match fm ms ((K ++ (fm ∷ (R ++ S))) ++ ms)
        ≡ K' ++ (R ++ (S ++ ms)))
      × Any P (K' ++ (R ++ (S ++ ms)))
unfolding maybe_remove_function_match
step_list P fm K R S ms respects replaced p = elim (Bool-cases (is_replaced fm ms)) [
  | inr n ↦
      let e = appended fm K R S ms ∙ sym (append_assoc K (fm ∷ []) (R ++ (S ++ ms))) in
      (K ++ fm ∷ [], rw n e, subst (Any P) e (Any-before P (K ++ (fm ∷ (R ++ S))) ms p))
  | inl y ↦
      let (K', e, f) = remove_match-split P fm respects K (R ++ (S ++ ms)) in
      let here : Any P (K ++ fm ∷ []) ⊎ Any P (R ++ S) =
        Any-either P (K ++ fm ∷ []) (R ++ S)
          (subst (Any P) (sym (append_assoc K (fm ∷ []) (R ++ S))) p) in
      (K', rw y (ap (remove_match fm) (appended fm K R S ms) ∙ e), stays y K' f here)
]
  where
    new_ones : Any P ms → Any P (R ++ (S ++ ms))
    new_ones q = Any-after P R (S ++ ms) (Any-after P S ms q)

    stays :
        is_replaced fm ms ≡ true
        → (K' : List Match) → (Any P (K ++ fm ∷ []) → Any P K' ⊎ P fm)
        → Any P (K ++ fm ∷ []) ⊎ Any P (R ++ S)
        → Any P (K' ++ (R ++ (S ++ ms)))
    stays y K' f (inr q) =
        Any-after P K' (R ++ (S ++ ms))
          (subst (Any P) (append_assoc R S ms) (Any-before P (R ++ S) ms q))
    stays y K' f (inl q) = elim (f q) [
      | inl before ↦ Any-before P K' (R ++ (S ++ ms)) before
      | inr itself ↦ Any-after P K' (R ++ (S ++ ms)) (new_ones (replaced y itself))
    ]

module _ (xxh64 : String → ℕ) (extract : ℕ → ℕ → ℕ → List Rename) (describe : List Rename → String)
    (semantic_matches : Match → LineSet → LineSet → List Match)
    (lines_a lines_b shadow_a shadow_b : List String) (min_match_lines : ℕ) where
  abbrev pub loop : List Match → List Match → LineSet → LineSet → List Match × LineSet × LineSet
  loop fms ms ca cb =
      phase2_loop xxh64 extract describe semantic_matches lines_a lines_b shadow_a shadow_b
        min_match_lines fms ms ca cb

  module _ (P : Match → Type 0) (respects : (m fm : Match) → match_eq m fm ≡ true → P m → P fm)
      (replaced : (fm : Match) (ms : List Match)
        → is_mostly_identical fm ≡ false
        → is_replaced fm ms ≡ true
        → P fm
        → Any P ms) where
    phase2_loop-Any :
        (R K S : List Match) (ca cb : LineSet)
        → All (λ fm. is_mostly_identical fm ≡ false) R
        → Any P (K ++ (R ++ S))
        → Any P (loop R (K ++ (R ++ S)) ca cb).0
    unfolding phase2_loop
    phase2_loop-Any [] K S ca cb none_is p = p
    phase2_loop-Any (fm ∷ R) K S ca cb (mostly, none_is) p =
        let inner =
          inner_matches xxh64 extract describe semantic_matches lines_a lines_b shadow_a shadow_b
            min_match_lines fm in
        let ms = inner.0 ++ inner.1 in
        let ca' = mark_all (mark_all ca inner.0) inner.1 in
        let cb' = mark_all (mark_all cb inner.0) inner.1 in
        let (K', e, p') = step_list P fm K R S ms (λ m. respects m fm) (replaced fm ms mostly) p in
        subst (λ l. Any P (loop R l ca' cb').0) (sym e)
          (phase2_loop-Any R K' (S ++ ms) ca' cb' none_is p')

  respects1 : (x : ℕ) (m fm : Match) → match_eq m fm ≡ true → Line x m.file1 → Line x fm.file1
  respects1 x m fm e = region_eq-Line m.file1 fm.file1 x (match_eq-regions m fm e).0

  respects2 : (x : ℕ) (m fm : Match) → match_eq m fm ≡ true → Line x m.file2 → Line x fm.file2
  respects2 x m fm e = region_eq-Line m.file2 fm.file2 x (match_eq-regions m fm e).1

  abbrev phase2_of : List Match → LineSet → LineSet → List Match
  phase2_of ms ca cb =
      (run_phase2 xxh64 extract describe semantic_matches lines_a lines_b shadow_a shadow_b
        min_match_lines ms ca cb).0

  run_phase2-Any :
      (P : Match → Type 0)
      → ((m fm : Match) → match_eq m fm ≡ true → P m → P fm)
      → ((fm : Match) (ns : List Match)
          → is_mostly_identical fm ≡ false
          → is_replaced fm ns ≡ true
          → P fm
          → Any P ns)
      → (ms : List Match) (ca cb : LineSet) → All (λ fm. is_mostly_identical fm ≡ false) ms
      → Any P ms
      → Any P (phase2_of ms ca cb)
  unfolding run_phase2
  run_phase2-Any P respects replaced ms ca cb none_is p =
      subst (λ l. Any P (loop ms l ca cb).0) (append-nil ms)
        (phase2_loop-Any P respects replaced ms [] [] ca cb none_is
          (subst (Any P) (sym (append-nil ms)) p))

  pub run_phase2-file1 :
      (x : ℕ) (ms : List Match) (ca cb : LineSet)
      → All (λ fm. is_mostly_identical fm ≡ false) ms
      → Any (λ m. Line x m.file1) ms
      → Any (λ m. Line x m.file1) (phase2_of ms ca cb)
  run_phase2-file1 x =
      run_phase2-Any (λ m. Line x m.file1) (respects1 x)
        (λ fm ns a b. (is_replaced-Any fm ns x a b).0)

  -- The second phase loses no reported line: a pair of functions is taken out of the list only where the matches inside
  -- it report all its lines, so a line of file 1 and a line of file 2 that matches report are reported afterwards. No match
  -- is mostly identical, since of those the second phase keeps nine tenths of the lines only.
  pub run_phase2-lines :
      (x y : ℕ) (ms : List Match) (covered_a covered_b : LineSet)
      → All (λ fm. is_mostly_identical fm ≡ false) ms
      → Any (λ m. Line x m.file1) ms
      → Any (λ m. Line y m.file2) ms
      → let ms' =
          (run_phase2 xxh64 extract describe semantic_matches lines_a lines_b shadow_a shadow_b
            min_match_lines ms covered_a covered_b).0 in
        Any (λ m. Line x m.file1) ms' × Any (λ m. Line y m.file2) ms'
  run_phase2-lines x y ms ca cb none_is p q = (
    run_phase2-file1 x ms ca cb none_is p,
    run_phase2-Any (λ m. Line y m.file2) (respects2 y)
        (λ fm ns a b. (is_replaced-Any fm ns y a b).1) ms ca cb none_is q,
  )
