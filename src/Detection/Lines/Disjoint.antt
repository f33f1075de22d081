-- ===== src/Detection/Lines/Disjoint.antt =====
-- The regions that detection/line_matcher.py selects do not overlap in the first file.
use rest_api_plagiarism.Prelude.{
  ℕ, ◌+◌, ◌≤◌, ◌<◌, ◌≡◌, refl, ap, inl, inr, String, str_eq, Bool, true, false, arith, Bool-cases,
  if◌then◌else◌, some, Option-cases, List, [], ◌∷◌, map, leb, Grouped, group, sum_of, sort_by,
  sort_by-sum_of,
}
use rest_api_plagiarism.Detection.Match.{Match, Rename, LineSet, no_lines, in_range, add_range}
use rest_api_plagiarism.Detection.Lines.{
  Raw, line_hash, shadow_index, add_pair, pair_map, best_candidate, extend_pairs, longer_first,
  trim, select_one, select, line_match, starts_first, selected, line_level_matches,
}
use rest_api_plagiarism.Detection.Lines.Chosen.{Inside, trim-Inside, select_one-cases}

abbrev pub one_if : Bool → ℕ
one_if b = if b then 1 else 0

-- 1 for an entry that holds line `x` of file A.
abbrev pub covers : ℕ → Raw → ℕ
covers x r = one_if (in_range r.start_a r.len x)

-- The keys ascend, from `lo` on.
abbrev Keys : ℕ → List (ℕ × ℕ × List ℕ) → Type 0
Keys lo [] = Unit
Keys lo ((a, _, _) ∷ pairs) = (lo ≤ a) × Keys (a + 1) pairs

Keys-lower : (lo hi : ℕ) (pairs : List (ℕ × ℕ × List ℕ)) → lo ≤ hi → Keys hi pairs → Keys lo pairs
Keys-lower lo hi [] le k = tt
Keys-lower lo hi ((a, b, cs) ∷ pairs) le (h, k) = (omega arith, k)

add_pair-Keys :
    (i : ℕ) (candidates : List ℕ) (pairs : List (ℕ × ℕ × List ℕ))
    → Keys (i + 1) pairs
    → Keys i (add_pair i candidates pairs)
add_pair-Keys i [] pairs k = Keys-lower i (i + 1) pairs (omega arith) k
add_pair-Keys i (b ∷ cs) pairs k = (omega arith, k)

pair_map-Keys :
    (xxh64 : String → ℕ) (index : Grouped ℕ) (i : ℕ) (shadow : List String)
    → Keys i (pair_map xxh64 index i shadow)
unfolding pair_map
pair_map-Keys xxh64 index i [] = tt
pair_map-Keys xxh64 index i (s ∷ shadow) =
    let rest = pair_map xxh64 index (i + 1) shadow in
    let ih = pair_map-Keys xxh64 index (i + 1) shadow in
    elim (Bool-cases (str_eq s "")) [
      | inl e ↦ rw e (Keys-lower i (i + 1) rest (omega arith) ih)
      | inr n ↦ rw n (add_pair-Keys i (group (line_hash xxh64 s) index) rest ih)
    ]

-- From `lo` on no visited line lies behind an unvisited one.
abbrev Closed : ℕ → LineSet → Type 0
Closed lo visited = (a x : ℕ) → lo ≤ a → a ≤ x → visited x ≡ true → visited a ≡ true

Closed-add :
    (lo a len : ℕ) (visited : LineSet)
    → Closed lo visited
    → lo ≤ a
    → visited a ≡ false
    → Closed (a + 1) (add_range a len visited)
Closed-add lo a len visited c le fresh k x lo' le' h = elim (Bool-cases (visited x)) [
  | inl v ↦ let v' = c a x le (omega arith) v in absurd (cc)
  | inr v ↦
      let hi : x < a + len = ground arith in
      let inside : in_range a len k ≡ true = ground arith in rw inside
]

extend_pairs-covers :
    (x : ℕ) (ha hb : List ℕ) (min_lines lo : ℕ) (pairs : List (ℕ × ℕ × List ℕ)) (visited : LineSet)
    → Keys lo pairs
    → Closed lo visited
    → sum_of (covers x) (extend_pairs ha hb min_lines pairs visited) ≤ (if visited x then 0 else 1)
unfolding extend_pairs
extend_pairs-covers x ha hb min_lines lo [] visited k c = omega arith
extend_pairs-covers x ha hb min_lines lo ((a, b, cs) ∷ pairs) visited (le, k) c =
    let best = best_candidate ha hb a b 0 (b ∷ cs) in
    let skipped =
      extend_pairs-covers x ha hb min_lines (a + 1) pairs visited k
        (λ i y h h' v. c i y (omega arith) h' v) in
    elim (Bool-cases (visited a)) [
      | inl seen ↦ rw seen skipped
      | inr new ↦ elim (Bool-cases (leb min_lines best.1)) [
        | inr short ↦ rw (new, short) skipped
        | inl long ↦
            let rest =
              extend_pairs-covers x ha hb min_lines (a + 1) pairs (add_range a best.1 visited) k
                (Closed-add lo a best.1 visited c le new) in
            rw (new, long)
              (elim (Bool-cases (in_range a best.1 x)) [
                | inr out ↦ rw out (let rest' = rw out at rest in omega (arith, rest'))
                | inl within ↦
                    let here : a ≤ x = ground arith in
                    let fresh : visited x ≡ false = elim (Bool-cases (visited x)) [
                      | inl v ↦ let v' = c a x le here v in absurd (cc)
                      | inr v ↦ v
                    ] in
                    let rest' = rw within at rest in rw (within, fresh) (omega (arith, rest'))
              ])
      ]
    ]

covers-Inside : (x d : ℕ) (r t : Raw) → Inside r t d → covers x t ≤ covers x r
covers-Inside x d r t i = elim (Bool-cases (in_range t.start_a t.len x)) [
  | inr out ↦ rw out (omega arith)
  | inl within ↦
      let a = i.in_a in
      let s = i.size in
      let lo : t.start_a ≤ x = ground arith in
      let hi : x < t.start_a + t.len = ground arith in
      let lo' : r.start_a ≤ x = omega (arith, a) in
      let hi' : x < r.start_a + r.len = omega (arith, a, s) in
      let within' : in_range r.start_a r.len x ≡ true = ground arith in
      rw (within, within') (omega arith)
]

pub select_one-covers :
    (x min_lines : ℕ) (ua ub : LineSet) (r t : Raw)
    → select_one min_lines ua ub r ≡ some t
    → covers x t ≤ covers x r
select_one-covers x min_lines ua ub r t h = elim (select_one-cases min_lines ua ub r t h) [
  | inl (e, _) ↦ let e' = ap (covers x) e in omega (arith, e')
  | inr (e, _) ↦
      let (d, i) = trim-Inside ua ub r in
      let le = covers-Inside x d r (trim ua ub r) i in
      let e' = ap (covers x) e in omega (arith, e', le)
]

select-covers :
    (x min_lines : ℕ) (ua ub : LineSet) (raw : List Raw)
    → sum_of (covers x) (select min_lines ua ub raw) ≤ sum_of (covers x) raw
unfolding select
select-covers x min_lines ua ub [] = omega arith
select-covers x min_lines ua ub (r ∷ raw) = elim (Option-cases (select_one min_lines ua ub r)) [
  | inl e ↦ let ih = select-covers x min_lines ua ub raw in rw (e, select) (omega (arith, ih))
  | inr (t, e) ↦
      let ih =
        select-covers x min_lines (add_range t.start_a t.len ua) (add_range t.start_b t.len ub)
          raw in
      let here = select_one-covers x min_lines ua ub r t e in
      rw (e, select) (omega (arith, ih, here))
]

-- No line of A stands in two of the entries of `raw`.
pub raw-covers :
    (x : ℕ) (xxh64 : String → ℕ) (shadow_a shadow_b : List String) (min_lines : ℕ)
    → sum_of (covers x) (
        extend_pairs
          (map (line_hash xxh64) shadow_a)
          (map (line_hash xxh64) shadow_b)
          min_lines
          (pair_map xxh64 (shadow_index xxh64 0 shadow_b []) 0 shadow_a)
          no_lines)
      ≤ 1
raw-covers x xxh64 shadow_a shadow_b min_lines =
    let index = shadow_index xxh64 0 shadow_b [] in
    extend_pairs-covers x (map (line_hash xxh64) shadow_a) (map (line_hash xxh64) shadow_b)
      min_lines 0 (pair_map xxh64 index 0 shadow_a) no_lines (pair_map-Keys xxh64 index 0 shadow_a)
      (λ a y lo le v. v)

selected-covers :
    (x : ℕ) (xxh64 : String → ℕ) (shadow_a shadow_b : List String) (min_lines : ℕ)
    → sum_of (covers x) (selected xxh64 shadow_a shadow_b min_lines) ≤ 1
unfolding selected
selected-covers x xxh64 shadow_a shadow_b min_lines =
    let ha = map (line_hash xxh64) shadow_a in
    let hb = map (line_hash xxh64) shadow_b in
    let pairs = pair_map xxh64 (shadow_index xxh64 0 shadow_b []) 0 shadow_a in
    let raw = extend_pairs ha hb min_lines pairs no_lines in
    let one = raw-covers x xxh64 shadow_a shadow_b min_lines in
    let same = sort_by-sum_of longer_first (covers x) raw in
    let fewer = select-covers x min_lines no_lines no_lines (sort_by longer_first raw) in
    omega (arith, one, same, fewer)

-- 1 for a match that holds line `x` of file A.
abbrev pub holds : ℕ → Match → ℕ
holds x m = one_if (in_range m.file1.start_line m.kgram_count x)

module _ (extract : ℕ → ℕ → ℕ → List Rename) (describe : List Rename → String) where
  line_match-holds :
      (x : ℕ) (ea eb : List ℕ) (rs : List Raw)
      → sum_of (holds x) (map (line_match extract describe ea eb) rs) ≡ sum_of (covers x) rs
  unfolding line_match
  line_match-holds x ea eb [] = refl
  line_match-holds x ea eb (r ∷ rs) = let ih = line_match-holds x ea eb rs in omega (arith, ih)

-- The matches of `_line_level_matches` do not overlap in the first file: no line of it stands in two.
pub line_level_matches-holds :
    (xxh64 : String → ℕ) (extract : ℕ → ℕ → ℕ → List Rename) (describe : List Rename → String)
    (lines_a lines_b shadow_a shadow_b : List String) (min_lines x : ℕ)
    → sum_of
        (holds x)
        (line_level_matches xxh64 extract describe lines_a lines_b shadow_a shadow_b min_lines)
      ≤ 1
unfolding line_level_matches
line_level_matches-holds xxh64 extract describe lines_a lines_b shadow_a shadow_b min_lines x =
    let found = selected xxh64 shadow_a shadow_b min_lines in
    let ea = map (line_hash xxh64) lines_a in
    let eb = map (line_hash xxh64) lines_b in
    let ms = map (line_match extract describe ea eb) found in
    let same = sort_by-sum_of starts_first (holds x) ms in
    let count = line_match-holds extract describe x ea eb found in
    let one = selected-covers x xxh64 shadow_a shadow_b min_lines in omega (arith, same, count, one)
