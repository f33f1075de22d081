-- ===== src/Detection/Occurrences.antt =====
-- `PairedOccurrence` and `find_paired_occurrences` of plagiarism_core/matcher.py: under each common hash
-- the k-grams of A take, one after the other, the closest k-gram of B that is not used yet. The order in
-- which a Python set gives the common hashes is an argument.
pub mod Closest
pub mod Count
pub mod Greedy
mod Tests
use rest_api_plagiarism.Prelude.{
  ℕ, ◌+◌, ◌-◌, Bool, true, false, Option, none, some, List, [], ◌∷◌, ◌++◌, ltb, leb, ◌==◌,
  if◌then◌else◌, get_or, Grouped, group, sort_by,
}
use rest_api_plagiarism.Fingerprint.Core.{Fp, Point}

pub record PairedOccurrence : Type 0 where
  pub left_index : ℕ
  pub right_index : ℕ
  pub left_start : Point
  pub left_end : Point
  pub right_start : Point
  pub right_end : Point
  pub fingerprint_hash : ℕ

-- `used_b`, by its membership test.
abbrev pub IndexSet : Type 0
IndexSet = ℕ → Bool

abbrev pub nothing_used : IndexSet
nothing_used i = false

-- `used_b.add(best_b)`
abbrev pub mark : ℕ → IndexSet → IndexSet
mark j used i = if j == i then true else used i

-- `abs(a_idx - b_idx)`
abbrev pub index_distance : ℕ → ℕ → ℕ
index_distance x y = x - y + (y - x)

-- `best_b` and `best_dist`; the distance before the first one is infinite.
abbrev pub closer : Option (ℕ × ℕ) → ℕ → ℕ → Option (ℕ × ℕ)
closer none bi dist = some (bi, dist)
closer (some (best_b, best_dist)) bi dist =
    if ltb dist best_dist then some (bi, dist) else some (best_b, best_dist)

-- The loop over `b_list`, from the position `bi` on.
pub closest : ℕ → IndexSet → ℕ → Option (ℕ × ℕ) → List Fp → Option (ℕ × ℕ)
closest a_idx used bi best [] = best
closest a_idx used bi best (b ∷ bs) =
    let dist = index_distance a_idx b.kgram_idx in
    let next = closer best bi dist in
    let skipped = closest a_idx used (bi + 1) best bs in
    let further = closest a_idx used (bi + 1) next bs in
    if used bi then skipped else if dist == 0 then next else further

abbrev pub occurrence : ℕ → Fp → Fp → PairedOccurrence
occurrence h a b = record {
  left_index = a.kgram_idx;
  right_index = b.kgram_idx;
  left_start = a.start;
  left_end = a.end;
  right_start = b.start;
  right_end = b.end;
  fingerprint_hash = h;
}

-- Stands for `b_list[best_b]` out of range, which the loop never reads.
abbrev pub no_fp : Fp
no_fp = record { hash = 0; start = (0, 0); end = (0, 0); kgram_idx = 0 }

-- The loop over `index_a[h]`.
pub pair_from : ℕ → List Fp → IndexSet → List Fp → List PairedOccurrence
pair_from h b_list used [] = []
pair_from h b_list used (a ∷ rest) = elim (closest a.kgram_idx used 0 none b_list) [
  | none ↦ pair_from h b_list used rest
  | some (j, dist) ↦ occurrence h a (get_or b_list j no_fp) ∷ pair_from h b_list (mark j used) rest
]

-- `sorted(index_b[h], key=lambda x: x.get("kgram_idx", 0))`
abbrev pub by_kgram : Fp → Fp → Bool
by_kgram x y = leb x.kgram_idx y.kgram_idx

pub find_paired_occurrences : List ℕ → Grouped Fp → Grouped Fp → List PairedOccurrence
find_paired_occurrences [] index_a index_b = []
find_paired_occurrences (h ∷ common) index_a index_b =
    pair_from h (sort_by by_kgram (group h index_b)) nothing_used (group h index_a)
    ++ find_paired_occurrences common index_a index_b
