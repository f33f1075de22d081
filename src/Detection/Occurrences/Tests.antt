-- ===== src/Detection/Occurrences/Tests.antt =====
-- Pairings on small indexes, and the theorems applied to them.
use rest_api_plagiarism.Prelude.{ℕ, ◌≡◌, refl, [], ◌∷◌, map, Grouped, group, sort_by, insert_by}
use rest_api_plagiarism.Fingerprint.Core.{Fp}
use rest_api_plagiarism.Detection.Occurrences.{closest, pair_from, find_paired_occurrences}
use rest_api_plagiarism.Detection.Occurrences.Greedy.{Paired, find_paired_occurrences-Paired}

abbrev fp : ℕ → ℕ → Fp
fp h i = record { hash = h; start = (i, 0); end = (i, 4); kgram_idx = i }

abbrev left : Grouped Fp
left = (7, fp 7 0 ∷ fp 7 5 ∷ []) ∷ (8, fp 8 2 ∷ []) ∷ (9, fp 9 3 ∷ []) ∷ []

abbrev right : Grouped Fp
right = (9, fp 9 6 ∷ fp 9 3 ∷ []) ∷ (7, fp 7 4 ∷ fp 7 1 ∷ fp 7 9 ∷ []) ∷ []

-- The k-gram 0 takes 1 and not 4, and 5 takes 4.
pairs_found :
    map {B = ℕ × ℕ}
      (λ o. (o.left_index, o.right_index))
      (find_paired_occurrences (7 ∷ 9 ∷ []) left right)
    ≡ (0, 1) ∷ (5, 4) ∷ (3, 3) ∷ []
unfolding find_paired_occurrences pair_from closest group sort_by insert_by
pairs_found = refl

find_paired_occurrences-Paired_example :
    Paired (7 ∷ 9 ∷ []) left right (find_paired_occurrences (7 ∷ 9 ∷ []) left right)
find_paired_occurrences-Paired_example = find_paired_occurrences-Paired (7 ∷ 9 ∷ []) left right
