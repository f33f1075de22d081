-- ===== src/Detection/Lines/Sound.antt =====
-- The regions that detection/line_matcher.py selects hold equal lines, and enough of them.
use rest_api_plagiarism.Prelude.{
  ℕ, zero, suc, ◌+◌, ◌-◌, ◌≤◌, ◌<◌, ◌≡◌, ◌≢◌, refl, sym, subst, inl, inr, String, arith, Bool-cases,
  some, Option-cases, List, [], ◌∷◌, map, ltb, leb, ◌==◌, leb→le, get_or, drop, All, sort_by,
  sort_by-All,
}
use rest_api_plagiarism.Detection.Match.{Match, Rename, LineSet, no_lines, add_range}
use rest_api_plagiarism.Detection.Lines.{
  Raw, line_hash, shadow_index, pair_map, extension, best_candidate, extend_pairs, longer_first,
  trim, select_one, select, selected, line_match, line_level_matches, starts_first,
}
use rest_api_plagiarism.Detection.Lines.Chosen.{Inside, trim-Inside, select_one-cases}

get_or-drop : (n i : ℕ) (xs : List ℕ) → get_or (drop n xs) i 0 ≡ get_or xs (n + i) 0
get_or-drop zero i xs = let e : zero + i ≡ i = omega arith in rw e
get_or-drop (suc n) i [] = refl
get_or-drop (suc n) i (x ∷ xs) =
    let e : suc n + i ≡ suc (n + i) = omega arith in rw e (get_or-drop n i xs)

-- The two hashes are equal and not 0, which is what `len` lines from the starts on have.
abbrev pub Equal : List ℕ → List ℕ → ℕ → ℕ → ℕ → Type 0
Equal ha hb sa sb len =
    (i : ℕ) → i < len → (get_or ha (sa + i) 0 ≡ get_or hb (sb + i) 0) × (get_or ha (sa + i) 0 ≢ 0)

-- An entry whose lines are equal and at least `min_lines` many.
abbrev pub Sound : List ℕ → List ℕ → ℕ → Raw → Type 0
Sound ha hb min_lines r = Equal ha hb r.start_a r.start_b r.len × (min_lines ≤ r.len)

-- One step of the loop over equal hashes.
extension-step :
    (g h i : ℕ) (gs hs : List ℕ)
    → i < extension (g ∷ gs) (h ∷ hs)
    → (g ≡ h) × ((g ≢ 0) × (i < suc (extension gs hs)))
unfolding extension
extension-step g h i gs hs lt = elim (Bool-cases (g == 0)) [
  | inl e ↦ let lt' = rw e at lt in absurd (omega arith)
  | inr ne ↦ elim (Bool-cases (h == 0)) [
    | inl e ↦ let lt' = rw (ne, e) at lt in absurd (omega arith)
    | inr ne' ↦ elim (Bool-cases (g == h)) [
      | inl e ↦ let lt' = rw (ne, ne', e) at lt in (ground arith, (ground arith, lt'))
      | inr e ↦ let lt' = rw (ne, ne', e) at lt in absurd (omega arith)
    ]
  ]
]

extension-equal :
    (gs hs : List ℕ) (i : ℕ)
    → i < extension gs hs
    → (get_or gs i 0 ≡ get_or hs i 0) × (get_or gs i 0 ≢ 0)
extension-equal [] hs i lt = absurd (unfold extension in omega arith)
extension-equal (g ∷ gs) [] i lt = absurd (unfold extension in omega arith)
extension-equal (g ∷ gs) (h ∷ hs) zero lt =
    let (e, (ne, _)) = extension-step g h zero gs hs lt in (e, ne)
extension-equal (g ∷ gs) (h ∷ hs) (suc i) lt =
    let (_, (_, lt')) = extension-step g h (suc i) gs hs lt in extension-equal gs hs i (omega arith)

extension-Equal :
    (ha hb : List ℕ) (sa sb : ℕ) → Equal ha hb sa sb (extension (drop sa ha) (drop sb hb))
extension-Equal ha hb sa sb i lt =
    rw (sym (get_or-drop sa i ha), sym (get_or-drop sb i hb))
      (extension-equal (drop sa ha) (drop sb hb) i lt)

best_candidate-Equal :
    (ha hb : List ℕ) (sa b n : ℕ) (candidates : List ℕ)
    → Equal ha hb sa b n
    → Equal ha hb sa
        (best_candidate ha hb sa b n candidates).0
        (best_candidate ha hb sa b n candidates).1
unfolding best_candidate
best_candidate-Equal ha hb sa b n [] e = e
best_candidate-Equal ha hb sa b n (c ∷ cs) e =
    let len = extension (drop sa ha) (drop c hb) in
    elim (Bool-cases (ltb n len)) [
      | inl t ↦
          rw (t, best_candidate)
            (best_candidate-Equal ha hb sa c len cs (extension-Equal ha hb sa c))
      | inr t ↦ rw (t, best_candidate) (best_candidate-Equal ha hb sa b n cs e)
    ]

extend_pairs-Sound :
    (ha hb : List ℕ) (min_lines : ℕ) (pairs : List (ℕ × ℕ × List ℕ)) (visited : LineSet)
    → All (Sound ha hb min_lines) (extend_pairs ha hb min_lines pairs visited)
unfolding extend_pairs
extend_pairs-Sound ha hb min_lines [] visited = tt
extend_pairs-Sound ha hb min_lines ((a, b, cs) ∷ pairs) visited =
    let best = best_candidate ha hb a b 0 (b ∷ cs) in
    let skipped = extend_pairs-Sound ha hb min_lines pairs visited in
    elim (Bool-cases (visited a)) [
      | inl seen ↦ rw seen skipped
      | inr new ↦ elim (Bool-cases (leb min_lines best.1)) [
        | inr short ↦ rw (new, short) skipped
        | inl long ↦
            let same = best_candidate-Equal ha hb a b 0 (b ∷ cs) (λ i lt. absurd (omega arith)) in
            rw (new, long)
              (
                (same, leb→le min_lines best.1 long),
                extend_pairs-Sound ha hb min_lines pairs (add_range a best.1 visited),
              )
      ]
    ]

Inside-Equal :
    (ha hb : List ℕ) (r t : Raw) (d : ℕ)
    → Inside r t d
    → Equal ha hb r.start_a r.start_b r.len
    → Equal ha hb t.start_a t.start_b t.len
Inside-Equal ha hb r t d c e i lt =
    let at_a : t.start_a + i ≡ r.start_a + (d + i) = omega (arith, c.in_a) in
    let at_b : t.start_b + i ≡ r.start_b + (d + i) = omega (arith, c.in_b) in
    rw (at_a, at_b) (e (d + i) (omega (arith, c.size)))

select_one-Sound :
    (ha hb : List ℕ) (min_lines : ℕ) (ua ub : LineSet) (r t : Raw)
    → Sound ha hb min_lines r
    → select_one min_lines ua ub r ≡ some t
    → Sound ha hb min_lines t
select_one-Sound ha hb min_lines ua ub r t (e, le) h =
    elim (select_one-cases min_lines ua ub r t h) [
      | inl (eq, _) ↦ subst (Sound ha hb min_lines) eq (e, le)
      | inr (eq, le') ↦
          let (d, c) = trim-Inside ua ub r in
          let sound : Sound ha hb min_lines (trim ua ub r) =
            (Inside-Equal ha hb r (trim ua ub r) d c e, le') in
          subst (Sound ha hb min_lines) eq sound
    ]

select-Sound :
    (ha hb : List ℕ) (min_lines : ℕ) (ua ub : LineSet) (raw : List Raw)
    → All (Sound ha hb min_lines) raw
    → All (Sound ha hb min_lines) (select min_lines ua ub raw)
unfolding select
select-Sound ha hb min_lines ua ub [] p = tt
select-Sound ha hb min_lines ua ub (r ∷ raw) (p, ps) =
    elim (Option-cases (select_one min_lines ua ub r)) [
      | inl e ↦ rw (e, All, select) (select-Sound ha hb min_lines ua ub raw ps)
      | inr (t, e) ↦
          let sound = select_one-Sound ha hb min_lines ua ub r t p e in
          rw (e, All, select)
            (
              sound,
              select-Sound ha hb min_lines (add_range t.start_a t.len ua)
                  (add_range t.start_b t.len ub) raw ps,
            )
    ]

selected-Sound :
    (xxh64 : String → ℕ) (shadow_a shadow_b : List String) (min_lines : ℕ)
    → All
        (Sound (map (line_hash xxh64) shadow_a) (map (line_hash xxh64) shadow_b) min_lines)
        (selected xxh64 shadow_a shadow_b min_lines)
unfolding selected
selected-Sound xxh64 shadow_a shadow_b min_lines =
    let ha = map (line_hash xxh64) shadow_a in
    let hb = map (line_hash xxh64) shadow_b in
    let pairs = pair_map xxh64 (shadow_index xxh64 0 shadow_b []) 0 shadow_a in
    let raw = extend_pairs ha hb min_lines pairs no_lines in
    select-Sound ha hb min_lines no_lines no_lines (sort_by longer_first raw) (
      sort_by-All longer_first (Sound ha hb min_lines) raw
        (extend_pairs-Sound ha hb min_lines pairs no_lines))

-- A match whose regions hold `kgram_count` lines, at least `min_lines` of them, with equal hashes.
pub record SoundMatch (ha hb : List ℕ) (min_lines : ℕ) (m : Match) : Type 0 where
  pub same_lines : Equal ha hb m.file1.start_line m.file2.start_line m.kgram_count
  pub long_enough : min_lines ≤ m.kgram_count
  pub end_a : m.file1.end_line ≡ m.file1.start_line + m.kgram_count - 1
  pub end_b : m.file2.end_line ≡ m.file2.start_line + m.kgram_count - 1

module _ (extract : ℕ → ℕ → ℕ → List Rename) (describe : List Rename → String) where
  line_match-Sound :
      (ha hb ea eb : List ℕ) (min_lines : ℕ) (rs : List Raw)
      → All (Sound ha hb min_lines) rs
      → All (SoundMatch ha hb min_lines) (map (line_match extract describe ea eb) rs)
  unfolding line_match
  line_match-Sound ha hb ea eb min_lines [] p = tt
  line_match-Sound ha hb ea eb min_lines (r ∷ rs) ((e, le), ps) = (
    record { same_lines = e; long_enough = le; end_a = refl; end_b = refl },
    line_match-Sound ha hb ea eb min_lines rs ps,
  )

-- Every match of `_line_level_matches` spans `kgram_count` lines in both files, at least `min_lines` of
-- them, and each of its lines in A has the shadow hash of the line at the same offset in B, which is
-- not the hash 0 of an empty line.
pub line_level_matches-Sound :
    (xxh64 : String → ℕ) (extract : ℕ → ℕ → ℕ → List Rename) (describe : List Rename → String)
    (lines_a lines_b shadow_a shadow_b : List String) (min_lines : ℕ)
    → All
        (SoundMatch (map (line_hash xxh64) shadow_a) (map (line_hash xxh64) shadow_b) min_lines)
        (line_level_matches xxh64 extract describe lines_a lines_b shadow_a shadow_b min_lines)
unfolding line_level_matches
line_level_matches-Sound xxh64 extract describe lines_a lines_b shadow_a shadow_b min_lines =
    let found = selected xxh64 shadow_a shadow_b min_lines in
    let ea = map (line_hash xxh64) lines_a in
    let eb = map (line_hash xxh64) lines_b in
    let ha = map (line_hash xxh64) shadow_a in
    let hb = map (line_hash xxh64) shadow_b in
    sort_by-All starts_first (SoundMatch ha hb min_lines)
      (map (line_match extract describe ea eb) found)
      (line_match-Sound extract describe ha hb ea eb min_lines found
        (selected-Sound xxh64 shadow_a shadow_b min_lines))
