-- ===== src/Detection/Occurrences/Greedy.antt =====
-- Which k-grams `find_paired_occurrences` of plagiarism_core/matcher.py pairs.
use rest_api_plagiarism.Prelude.{
  ℕ, ◌+◌, ◌≤◌, ◌<◌, ◌≡◌, refl, sym, subst, inl, inr, false, arith, none, List, [], ◌∷◌, ◌++◌,
  length, get_or, Grouped, group, sort_by,
}
use rest_api_plagiarism.Fingerprint.Core.{Fp}
use rest_api_plagiarism.Detection.Occurrences.{
  IndexSet, nothing_used, mark, PairedOccurrence, occurrence, no_fp, pair_from, by_kgram,
  find_paired_occurrences,
}
use rest_api_plagiarism.Detection.Occurrences.Closest.{dist_at, Nearest, Exhausted, closest-Outcome}
use rest_api_plagiarism.Detection.Occurrences.Count.{free_count-Exhausted, pair_from-length}

-- `o` pairs `a` with an unused k-gram of B, at position `j`, that no unused one is closer than.
pub record Choice (h : ℕ) (bs : List Fp) (used : IndexSet) (a : Fp) (o : PairedOccurrence) (j : ℕ)
    : Type 0 where
  pub inside : j < length bs
  pub fresh : used j ≡ false
  pub pair : o ≡ occurrence h a (get_or bs j no_fp)
  pub near :
      (i : ℕ) → i < length bs → used i ≡ false → dist_at a.kgram_idx bs j ≤ dist_at a.kgram_idx bs i

-- The k-grams of A choose in turn; where the pairs end, A is at its end or all of B is used.
abbrev pub Matched : ℕ → List Fp → IndexSet → List Fp → List PairedOccurrence → Type 0
Matched h bs used [] [] = Unit
Matched h bs used [] (o ∷ os) = ⊥
Matched h bs used (a ∷ rest) [] = Exhausted used 0 bs
Matched h bs used (a ∷ rest) (o ∷ os) =
    (j : ℕ) × Choice h bs used a o j × Matched h bs (mark j used) rest os

pair_from-Exhausted :
    (h : ℕ) (bs : List Fp) (used : IndexSet) (rest : List Fp)
    → Exhausted used 0 bs
    → pair_from h bs used rest ≡ []
pair_from-Exhausted h bs used rest all =
    let n = pair_from-length h bs used rest in
    let z = free_count-Exhausted used 0 bs all in
    none_left (pair_from h bs used rest) (omega (arith, n, z))
  where
    none_left : (os : List PairedOccurrence) → length os ≡ 0 → os ≡ []
    none_left [] e = refl
    none_left (o ∷ os) e = absurd (omega (arith, e))

chosen :
    (h : ℕ) (bs : List Fp) (used : IndexSet) (a : Fp) (j d : ℕ)
    → Nearest a.kgram_idx used 0 none bs j d
    → Choice h bs used a (occurrence h a (get_or bs j no_fp)) j
chosen h bs used a j d n = elim n.origin [
  | inl none_yet ↦ absurd (cc)
  | inr (i, ji, lt, free, at) ↦
      let e : j ≡ i = omega (arith, ji) in
      let here : d ≡ dist_at a.kgram_idx bs j =
        subst (λ x. d ≡ dist_at a.kgram_idx bs x) (sym e) at in
      record {
        inside = omega (arith, e, lt);
        fresh = free;
        pair = refl;
        near = λ k hi unused.
            let z : 0 + k ≡ k = omega arith in
            let le = n.near k hi (subst (λ x. used x ≡ false) (sym z) unused) in
            omega (arith, le, here);
      }
]

pair_from-Matched :
    (h : ℕ) (bs : List Fp) (used : IndexSet) (rest : List Fp)
    → Matched h bs used rest (pair_from h bs used rest)
unfolding pair_from
pair_from-Matched h bs used [] = tt
pair_from-Matched h bs used (a ∷ rest) = elim (closest-Outcome a.kgram_idx used 0 none bs) [
  | inl (e, _, all) ↦
      let done = pair_from-Exhausted h bs used rest all in rw (e, pair_from, done) all
  | inr (j, d, e, n) ↦
      rw (e, pair_from) (j, chosen h bs used a j d n, pair_from-Matched h bs (mark j used) rest)
]

-- The pairs come hash by hash, and those of one hash are as `Matched` says.
abbrev pub Paired : List ℕ → Grouped Fp → Grouped Fp → List PairedOccurrence → Type 0
Paired [] index_a index_b os = os ≡ []
Paired (h ∷ common) index_a index_b os =
    (here : List PairedOccurrence) × (later : List PairedOccurrence) × (os ≡ here ++ later)
    × Matched h (sort_by by_kgram (group h index_b)) nothing_used (group h index_a) here
    × Paired common index_a index_b later

-- Under each common hash the k-grams of A, in the order of the index, choose in turn: each takes an unused
-- k-gram of B that no other unused one is closer than, and goes without only where all of B are used.
pub find_paired_occurrences-Paired :
    (common : List ℕ) (index_a index_b : Grouped Fp)
    → Paired common index_a index_b (find_paired_occurrences common index_a index_b)
unfolding find_paired_occurrences
find_paired_occurrences-Paired [] index_a index_b = refl
find_paired_occurrences-Paired (h ∷ common) index_a index_b =
    let bs = sort_by by_kgram (group h index_b) in
    (
      pair_from h bs nothing_used (group h index_a),
      find_paired_occurrences common index_a index_b,
      refl,
      pair_from-Matched h bs nothing_used (group h index_a),
      find_paired_occurrences-Paired common index_a index_b,
    )
