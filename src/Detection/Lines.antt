-- ===== src/Detection/Lines.antt =====
-- detection/line_matcher.py: `_line_level_matches`, loop by loop, with `_line_hash` of line_helpers.py.
-- `extract` stands for `_extract_line_renames`, which reads identifiers by a regular expression, and
-- `describe` for the text made of its result; both are called as the source calls them.
pub mod Chosen
pub mod Sound
pub mod Disjoint
pub mod Trim
pub mod Blocks
pub mod Growth
pub mod Second
use text.Mathlib.Text.{◌==◌ as str_eq}
use rest_api_plagiarism.Prelude.{
  ℕ, zero, suc, ◌+◌, ◌-◌, String, Bool, true, false, Option, none, some, List, [], ◌∷◌, ◌++◌, map,
  ltb, leb, ◌==◌, if◌then◌else◌, length, get_or, drop, Grouped, add_to, group, sort_by,
}
use rest_api_plagiarism.Detection.Match.{
  PlagiarismType, exact, renamed, whole, Rename, renames, Match, LineSet, no_lines, add_range,
  meets,
}

-- An empty line hashes to 0.
unfoldable pub line_hash : (String → ℕ) → String → ℕ
line_hash xxh64 line = if str_eq line "" then 0 else xxh64 line

-- `shadow_b_index`, from the line `j` on: hash -> the lines with that hash, empty lines left out.
unfoldable pub shadow_index : (String → ℕ) → ℕ → List String → Grouped ℕ → Grouped ℕ
shadow_index xxh64 j [] index = index
shadow_index xxh64 j (s ∷ shadow) index =
    shadow_index xxh64 (j + 1) shadow
      (if str_eq s "" then index else add_to (line_hash xxh64 s) j index)

-- A key with an empty group is no key: `h in shadow_b_index`.
abbrev pub add_pair : ℕ → List ℕ → List (ℕ × ℕ × List ℕ) → List (ℕ × ℕ × List ℕ)
add_pair i [] pairs = pairs
add_pair i (b ∷ candidates) pairs = (i, b, candidates) ∷ pairs

-- `pair_map` from the line `i` on, as (line, first candidate, other candidates). Its keys ascend, so
-- `sorted(pair_map.keys())` is their order here.
unfoldable pub pair_map : (String → ℕ) → Grouped ℕ → ℕ → List String → List (ℕ × ℕ × List ℕ)
pair_map xxh64 index i [] = []
pair_map xxh64 index i (s ∷ shadow) =
    let rest = pair_map xxh64 index (i + 1) shadow in
    if str_eq s "" then rest else add_pair i (group (line_hash xxh64 s) index) rest

-- The `while` loop over equal shadow hashes, on what is left of both files; 0 is false.
unfoldable pub extension : List ℕ → List ℕ → ℕ
extension [] hs = 0
extension (g ∷ gs) [] = 0
extension (g ∷ gs) (h ∷ hs) =
    let more = suc (extension gs hs) in
    if g == 0 then 0 else if h == 0 then 0 else if g == h then more else 0

-- The loop over the candidates, from the best start in B and the best length so far.
unfoldable pub best_candidate : List ℕ → List ℕ → ℕ → ℕ → ℕ → List ℕ → ℕ × ℕ
best_candidate ha hb start_a best_b best_len [] = (best_b, best_len)
best_candidate ha hb start_a best_b best_len (start_b ∷ candidates) =
    let len = extension (drop start_a ha) (drop start_b hb) in
    let longer = ltb best_len len in
    best_candidate ha hb start_a (if longer then start_b else best_b)
      (if longer then len else best_len) candidates

-- An entry of `raw`: the start in A, the start in B and the length.
pub record Raw : Type 0 where
  pub start_a : ℕ
  pub start_b : ℕ
  pub len : ℕ

-- The loop over `pair_map`, with the set `visited`.
unfoldable pub extend_pairs : List ℕ → List ℕ → ℕ → List (ℕ × ℕ × List ℕ) → LineSet → List Raw
extend_pairs ha hb min_lines [] visited = []
extend_pairs ha hb min_lines ((start_a, first, others) ∷ pairs) visited =
    let best = best_candidate ha hb start_a first 0 (first ∷ others) in
    let skipped = extend_pairs ha hb min_lines pairs visited in
    let taken =
      record { start_a = start_a; start_b = best.0; len = best.1 }
      ∷ extend_pairs ha hb min_lines pairs (add_range start_a best.1 visited) in
    if visited start_a then skipped else if leb min_lines best.1 then taken else skipped

-- `raw.sort(key=lambda x: -x[2])`: the longest first.
abbrev pub longer_first : Raw → Raw → Bool
longer_first x y = leb y.len x.len

-- `while (sa in used_a or sb in used_b) and length > 0`
unfoldable pub trim_left : LineSet → LineSet → ℕ → ℕ → ℕ → Raw
trim_left used_a used_b sa sb zero = record { start_a = sa; start_b = sb; len = zero }
trim_left used_a used_b sa sb (suc len) =
    let trimmed = trim_left used_a used_b (sa + 1) (sb + 1) len in
    let stays : Raw = record { start_a = sa; start_b = sb; len = suc len } in
    if used_a sa then trimmed else if used_b sb then trimmed else stays

-- `while (sa + length - 1 in used_a or sb + length - 1 in used_b) and length > 0`
unfoldable pub trim_right : LineSet → LineSet → ℕ → ℕ → ℕ → ℕ
trim_right used_a used_b sa sb zero = zero
trim_right used_a used_b sa sb (suc len) =
    let trimmed = trim_right used_a used_b sa sb len in
    if used_a (sa + len) then trimmed else if used_b (sb + len) then trimmed else suc len

-- Both trims of an entry.
unfoldable pub trim : LineSet → LineSet → Raw → Raw
unfolding trim_left trim_right
trim used_a used_b r =
    let l = trim_left used_a used_b r.start_a r.start_b r.len in
    record l { len = trim_right used_a used_b l.start_a l.start_b l.len }

-- What is selected of an entry: nothing, or the entry, trimmed where it meets used lines.
unfoldable pub select_one : ℕ → LineSet → LineSet → Raw → Option Raw
unfolding trim
select_one min_lines used_a used_b r =
    let t = trim used_a used_b r in
    let trimmed = if ltb t.len min_lines then none else some t in
    if meets r.start_a r.len used_a
    then trimmed
    else if meets r.start_b r.len used_b
    then trimmed
    else some r

-- The selection loop, with the sets `used_a` and `used_b`.
unfoldable pub select : ℕ → LineSet → LineSet → List Raw → List Raw
select min_lines used_a used_b [] = []
select min_lines used_a used_b (r ∷ raw) = elim (select_one min_lines used_a used_b r) [
  | none ↦ select min_lines used_a used_b raw
  | some t ↦
      t ∷ select min_lines (add_range t.start_a t.len used_a) (add_range t.start_b t.len used_b) raw
]

-- `all_exact`, over the offsets of the region; a line out of range is not exact.
pub all_exact : List ℕ → List ℕ → ℕ → Bool
all_exact es fs zero = true
all_exact [] fs (suc len) = false
all_exact (e ∷ es) [] (suc len) = false
all_exact (e ∷ es) (f ∷ fs) (suc len) =
    let rest = all_exact es fs len in if e == 0 then false else if e == f then rest else false

module _ (extract : ℕ → ℕ → ℕ → List Rename) (describe : List Rename → String) where
  -- The renames of a region, and the two fields that they fill; an empty list is false.
  abbrev renames_found : List Rename → Option (List Rename)
  renames_found [] = none
  renames_found (r ∷ rs) = some (r ∷ rs)

  pub line_match : List ℕ → List ℕ → Raw → Match
  unfolding all_exact
  line_match ea eb r =
      let is_exact = all_exact (drop r.start_a ea) (drop r.start_b eb) r.len in
      let found = if is_exact then none else renames_found (extract r.start_a r.start_b r.len) in
      record {
        file1 = record {
          start_line = r.start_a;
          start_col = 0;
          end_line = r.start_a + r.len - 1;
          end_col = 0;
        };
        file2 = record {
          start_line = r.start_b;
          start_col = 0;
          end_line = r.start_b + r.len - 1;
          end_col = 0;
        };
        kgram_count = r.len;
        plagiarism_type = if is_exact then exact else renamed;
        similarity = whole;
        details = elim found [ none ↦ none | some rs ↦ some (("renames", renames rs) ∷ []) ];
        description = elim found [ none ↦ none | some rs ↦ some (describe rs) ];
      }

-- `matches.sort(key=lambda m: m.file1["start_line"])`
abbrev pub starts_first : Match → Match → Bool
starts_first x y = leb x.file1.start_line y.file1.start_line

-- The entries that become matches, in the order of their selection.
unfoldable pub selected : (String → ℕ) → List String → List String → ℕ → List Raw
unfolding line_hash
selected xxh64 shadow_a shadow_b min_lines =
    let index = shadow_index xxh64 0 shadow_b [] in
    let pairs = pair_map xxh64 index 0 shadow_a in
    let ha = map (line_hash xxh64) shadow_a in
    let hb = map (line_hash xxh64) shadow_b in
    select min_lines no_lines no_lines
      (sort_by longer_first (extend_pairs ha hb min_lines pairs no_lines))

pub line_level_matches :
    (String → ℕ)
    → (ℕ → ℕ → ℕ → List Rename)
    → (List Rename → String)
    → List String
    → List String
    → List String
    → List String
    → ℕ
    → List Match
line_level_matches xxh64 extract describe lines_a lines_b shadow_a shadow_b min_lines =
    sort_by starts_first (
      map
        (line_match extract describe (map (line_hash xxh64) lines_a)
          (map (line_hash xxh64) lines_b))
        (selected xxh64 shadow_a shadow_b min_lines))
