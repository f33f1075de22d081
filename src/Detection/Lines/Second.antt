-- ===== src/Detection/Lines/Second.antt =====
-- The regions that detection/line_matcher.py selects do not overlap in the second file either: the entries
-- come in descending length.
use rest_api_plagiarism.Prelude.{
  ℕ, ◌+◌, ◌≤◌, ◌≡◌, refl, inl, inr, String, true, false, arith, Bool-cases, if◌then◌else◌, some,
  Option-cases, List, [], ◌∷◌, map, leb, All, sum_of, sort_by, sort_by-sum_of, Ascending,
  sort_by-Ascending,
}
use rest_api_plagiarism.Detection.Match.{Match, Rename, LineSet, no_lines, in_range, add_range}
use rest_api_plagiarism.Detection.Lines.{
  Raw, line_hash, shadow_index, pair_map, extend_pairs, longer_first, select_one, select,
  line_match, starts_first, selected, line_level_matches,
}
use rest_api_plagiarism.Detection.Lines.Disjoint.{one_if, covers, select_one-covers, raw-covers}
use rest_api_plagiarism.Detection.Lines.Trim.{Unused}
use rest_api_plagiarism.Detection.Lines.Growth.{add_range-Blocks}
use rest_api_plagiarism.Detection.Lines.Blocks.{Blocks, Blocks-shorter, select_one-Placed}

-- 1 for an entry that holds line `y` of file B.
abbrev covers_second : ℕ → Raw → ℕ
covers_second y r = one_if (in_range r.start_b r.len y)

-- Every line of A is used or stands in one of the entries, but never twice.
abbrev Once : LineSet → List Raw → Type 0
Once used raw = (x : ℕ) → one_if (used x) + sum_of (covers x) raw ≤ 1

Once-Unused :
    (used : LineSet) (r : Raw) (raw : List Raw) → Once used (r ∷ raw) → Unused used r.start_a r.len
Once-Unused used r raw once x lo hi = elim (Bool-cases (used x)) [
  | inr free ↦ free
  | inl u ↦
      let here : in_range r.start_a r.len x ≡ true = ground arith in
      let o = once x in let o' = rw (u, here) at o in absurd (omega (arith, o'))
]

Once-skip : (used : LineSet) (r : Raw) (raw : List Raw) → Once used (r ∷ raw) → Once used raw
Once-skip used r raw once x = let o = once x in omega (arith, o)

Once-take :
    (min_lines : ℕ) (ua ub : LineSet) (r t : Raw) (raw : List Raw)
    → Once ua (r ∷ raw)
    → select_one min_lines ua ub r ≡ some t
    → Once (add_range t.start_a t.len ua) raw
Once-take min_lines ua ub r t raw once h x =
    let o = once x in
    let le = select_one-covers x min_lines ua ub r t h in
    elim (Bool-cases (in_range t.start_a t.len x)) [
      | inr out ↦ rw out (omega (arith, o))
      | inl within ↦ let le' = rw within at le in rw within (omega (arith, o, le'))
    ]

-- The lengths descend, from `top` on.
abbrev Descending : ℕ → List Raw → Type 0
Descending top [] = Unit
Descending top (r ∷ raw) = (r.len ≤ top) × Descending r.len raw

Ascending-Descending :
    (top : ℕ) (raw : List Raw)
    → Ascending longer_first raw
    → All (λ r. leb r.len top ≡ true) raw
    → Descending top raw
Ascending-Descending top [] s below = tt
Ascending-Descending top (r ∷ raw) (first, s) (b, bs) =
    (ground arith, Ascending-Descending r.len raw s first)

select-covers_second :
    (y min_lines top : ℕ) (ua ub : LineSet) (raw : List Raw)
    → 1 ≤ min_lines
    → Once ua raw
    → Descending top raw
    → Blocks top ub
    → sum_of (covers_second y) (select min_lines ua ub raw) ≤ (if ub y then 0 else 1)
unfolding select
select-covers_second y min_lines top ua ub [] pos once desc blocks = omega arith
select-covers_second y min_lines top ua ub (r ∷ raw) pos once (shorter, desc) blocks =
    let blocks' = Blocks-shorter r.len top ub shorter blocks in
    elim (Option-cases (select_one min_lines ua ub r)) [
      | inl e ↦
          rw (e, select)
            (select-covers_second y min_lines r.len ua ub raw pos (Once-skip ua r raw once) desc
              blocks')
      | inr (t, e) ↦
          let placed =
            select_one-Placed min_lines ua ub r t pos (Once-Unused ua r raw once) blocks' e in
          let ih =
            select-covers_second y min_lines r.len (add_range t.start_a t.len ua)
              (add_range t.start_b t.len ub) raw pos (Once-take min_lines ua ub r t raw once e) desc
              (add_range-Blocks ub r t blocks' placed) in
          rw (e, select)
            (elim (Bool-cases (in_range t.start_b t.len y)) [
              | inr out ↦ rw out (let ih' = rw out at ih in omega (arith, ih'))
              | inl within ↦
                  let free : ub y ≡ false = placed.0 y (ground arith) (ground arith) in
                  let ih' = rw within at ih in rw (within, free) (omega (arith, ih'))
            ])
    ]

abbrev longest : List Raw → ℕ
longest [] = 0
longest (r ∷ raw) = r.len

Ascending-longest : (raw : List Raw) → Ascending longer_first raw → Descending (longest raw) raw
Ascending-longest [] s = tt
Ascending-longest (r ∷ raw) (first, s) = (omega arith, Ascending-Descending r.len raw s first)

raw_sorted : (raw : List Raw) → Ascending longer_first (sort_by longer_first raw)
raw_sorted raw =
    sort_by-Ascending longer_first (λ x y h. ground arith) (λ x y z h h'. ground arith) raw

selected-covers_second :
    (y : ℕ) (xxh64 : String → ℕ) (shadow_a shadow_b : List String) (min_lines : ℕ)
    → 1 ≤ min_lines
    → sum_of (covers_second y) (selected xxh64 shadow_a shadow_b min_lines) ≤ 1
unfolding selected
selected-covers_second y xxh64 shadow_a shadow_b min_lines pos =
    let ha = map (line_hash xxh64) shadow_a in
    let hb = map (line_hash xxh64) shadow_b in
    let pairs = pair_map xxh64 (shadow_index xxh64 0 shadow_b []) 0 shadow_a in
    let raw = extend_pairs ha hb min_lines pairs no_lines in
    let sorted = sort_by longer_first raw in
    let once : Once no_lines sorted = λ x.
      let one = raw-covers x xxh64 shadow_a shadow_b min_lines in
      let same = sort_by-sum_of longer_first (covers x) raw in omega (arith, one, same) in
    select-covers_second y min_lines (longest sorted) no_lines no_lines sorted pos once
      (Ascending-longest sorted (raw_sorted raw)) (λ x h. absurd (cc))

-- 1 for a match that holds line `y` of file B.
abbrev pub holds_second : ℕ → Match → ℕ
holds_second y m = one_if (in_range m.file2.start_line m.kgram_count y)

module _ (extract : ℕ → ℕ → ℕ → List Rename) (describe : List Rename → String) where
  line_match-holds_second :
      (y : ℕ) (ea eb : List ℕ) (rs : List Raw)
      → sum_of (holds_second y) (map (line_match extract describe ea eb) rs)
        ≡ sum_of (covers_second y) rs
  unfolding line_match
  line_match-holds_second y ea eb [] = refl
  line_match-holds_second y ea eb (r ∷ rs) =
      let ih = line_match-holds_second y ea eb rs in omega (arith, ih)

-- Where `min_lines` is at least 1, the matches of `_line_level_matches` do not overlap in the second file
-- either: no line of it stands in two.
pub line_level_matches-holds_second :
    (xxh64 : String → ℕ) (extract : ℕ → ℕ → ℕ → List Rename) (describe : List Rename → String)
    (lines_a lines_b shadow_a shadow_b : List String) (min_lines y : ℕ)
    → 1 ≤ min_lines
    → sum_of
        (holds_second y)
        (line_level_matches xxh64 extract describe lines_a lines_b shadow_a shadow_b min_lines)
      ≤ 1
unfolding line_level_matches
line_level_matches-holds_second xxh64 extract describe lines_a lines_b shadow_a shadow_b min_lines y
      pos =
    let found = selected xxh64 shadow_a shadow_b min_lines in
    let ea = map (line_hash xxh64) lines_a in
    let eb = map (line_hash xxh64) lines_b in
    let ms = map (line_match extract describe ea eb) found in
    let same = sort_by-sum_of starts_first (holds_second y) ms in
    let count = line_match-holds_second extract describe y ea eb found in
    let one = selected-covers_second y xxh64 shadow_a shadow_b min_lines pos in
    omega (arith, same, count, one)
