-- ===== src/Detection/Occurrences/Count.antt =====
-- What `find_paired_occurrences` of plagiarism_core/matcher.py pairs under one hash, and how many pairs it makes.
use rest_api_plagiarism.Prelude.{
  ℕ, zero, suc, ◌+◌, ◌<◌, ◌≡◌, refl, sym, ap, subst, inl, inr, true, false, arith, if◌then◌else◌,
  none, List, [], ◌∷◌, ◌==◌, min, length, Grouped, group, sum_of, sort_by, sort_by-sum_of,
  length-append,
}
use rest_api_plagiarism.Fingerprint.Core.{Fp}
use rest_api_plagiarism.Detection.Occurrences.{
  IndexSet, nothing_used, mark, pair_from, by_kgram, find_paired_occurrences,
}
use rest_api_plagiarism.Detection.Occurrences.Closest.{Exhausted, closest-Outcome}

-- The number of unused positions from `bi` on.
abbrev pub free_count : IndexSet → ℕ → List Fp → ℕ
free_count used bi [] = 0
free_count used bi (b ∷ bs) = (if used bi then 0 else 1) + free_count used (bi + 1) bs

free_count-all : (bi : ℕ) (bs : List Fp) → free_count nothing_used bi bs ≡ length bs
free_count-all bi [] = refl
free_count-all bi (b ∷ bs) = let ih = free_count-all (bi + 1) bs in omega (arith, ih)

pub free_count-Exhausted :
    (used : IndexSet) (bi : ℕ) (bs : List Fp) → Exhausted used bi bs → free_count used bi bs ≡ 0
free_count-Exhausted used bi [] all = refl
free_count-Exhausted used bi (b ∷ bs) all =
    let at : bi + 0 ≡ bi = omega arith in
    let here : used bi ≡ true = subst (λ x. used x ≡ true) at (all 0 (omega arith)) in
    let ih = free_count-Exhausted used (bi + 1) bs later in rw here (omega (arith, ih))
  where
    later : (i : ℕ) → i < length bs → used (bi + 1 + i) ≡ true
    later i lt =
        let at : bi + 1 + i ≡ bi + suc i = omega arith in rw at (all (suc i) (omega (arith, lt)))

free_count-mark_before :
    (used : IndexSet) (j bi : ℕ) (bs : List Fp)
    → j < bi
    → free_count (mark j used) bi bs ≡ free_count used bi bs
free_count-mark_before used j bi [] lt = refl
free_count-mark_before used j bi (b ∷ bs) lt =
    let other : (j == bi) ≡ false = ground arith in
    let ih = free_count-mark_before used j (bi + 1) bs (omega (arith, lt)) in
    rw other (omega (arith, ih))

free_count-mark :
    (used : IndexSet) (bi i : ℕ) (bs : List Fp)
    → i < length bs
    → used (bi + i) ≡ false
    → free_count used bi bs ≡ suc (free_count (mark (bi + i) used) bi bs)
free_count-mark used bi i [] lt free = absurd (omega (arith, lt))
free_count-mark used bi zero (b ∷ bs) lt free =
    let at : bi + 0 ≡ bi = omega arith in
    let free' : used bi ≡ false = rw at at free in
    let this : (bi + 0 == bi) ≡ true = ground arith in
    let rest = free_count-mark_before used (bi + 0) (bi + 1) bs (omega arith) in
    rw (this, free') (omega (arith, rest))
free_count-mark used bi (suc i) (b ∷ bs) lt free =
    let at : bi + suc i ≡ bi + 1 + i = omega arith in
    let other : (bi + suc i == bi) ≡ false = ground arith in
    let ih = free_count-mark used (bi + 1) i bs (omega (arith, lt)) (rw at at free) in
    let same = ap (λ j. free_count (mark j used) (bi + 1) bs) at in
    rw other (omega (arith, ih, same))

pub pair_from-length :
    (h : ℕ) (bs : List Fp) (used : IndexSet) (as' : List Fp)
    → length (pair_from h bs used as') ≡ min (length as') (free_count used 0 bs)
unfolding pair_from
pair_from-length h bs used [] = omega arith
pair_from-length h bs used (a ∷ rest) = elim (closest-Outcome a.kgram_idx used 0 none bs) [
  | inl (e, _, all) ↦
      let z = free_count-Exhausted used 0 bs all in
      let ih = pair_from-length h bs used rest in rw (e, pair_from) (omega (arith, ih, z))
  | inr (j, d, e, n) ↦
      let ih = pair_from-length h bs (mark j used) rest in
      elim n.origin [
        | inl none_yet ↦ absurd (cc)
        | inr (i, ji, lt, free, _) ↦
            let step : free_count used 0 bs ≡ suc (free_count (mark j used) 0 bs) =
              subst (λ x. free_count used 0 bs ≡ suc (free_count (mark x used) 0 bs)) (sym ji)
                (free_count-mark used 0 i bs lt (subst (λ x. used x ≡ false) ji free)) in
            rw (e, pair_from) (omega (arith, ih, step))
      ]
]

sort_by-length : (bs : List Fp) → length (sort_by by_kgram bs) ≡ length bs
sort_by-length bs =
    let same = sort_by-sum_of by_kgram (λ b. 1) bs in
    let x = ones (sort_by by_kgram bs) in let y = ones bs in omega (arith, same, x, y)
  where
    ones : (xs : List Fp) → sum_of (λ b. 1) xs ≡ length xs
    ones [] = refl
    ones (x ∷ xs) = let ih = ones xs in omega (arith, ih)

-- Under each common hash as many pairs are made as the file with fewer k-grams of that hash has.
pub find_paired_occurrences-length :
    (common : List ℕ) (index_a index_b : Grouped Fp)
    → length (find_paired_occurrences common index_a index_b)
      ≡ sum_of (λ h. min (length (group h index_a)) (length (group h index_b))) common
unfolding find_paired_occurrences
find_paired_occurrences-length [] index_a index_b = refl
find_paired_occurrences-length (h ∷ common) index_a index_b =
    let bs = sort_by by_kgram (group h index_b) in
    let here = pair_from-length h bs nothing_used (group h index_a) in
    let all = free_count-all 0 bs in
    let sorted = sort_by-length (group h index_b) in
    let ih = find_paired_occurrences-length common index_a index_b in
    let both =
      length-append (pair_from h bs nothing_used (group h index_a))
        (find_paired_occurrences common index_a index_b) in
    omega (arith, here, all, sorted, ih, both)
