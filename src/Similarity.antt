-- ===== src/Similarity.antt =====
-- The score of a pair: `ast_similarity` of plagiarism_core/ast_hash.py, with Python's Counter written out.
pub mod Jaccard
mod Tests
use rest_api_plagiarism.Prelude.{
  ℕ, zero, suc, ◌+◌, min, max, Bool, true, false, List, [], ◌∷◌, ◌==◌, if◌then◌else◌, sum_of,
}
use rest_api_plagiarism.Detection.Match.{Ratio}

-- `Counter(xs)[k]`
pub times : ℕ → List ℕ → ℕ
times k [] = 0
times k (x ∷ xs) = let rest = times k xs in if k == x then suc rest else rest

pub without : ℕ → List ℕ → List ℕ
without x [] = []
without x (y ∷ ys) = let rest = without x ys in if x == y then rest else y ∷ rest

-- The keys of `Counter(xs)`, in the order of their first sight.
pub distinct : List ℕ → List ℕ
unfolding without
distinct [] = []
distinct (x ∷ xs) = x ∷ without x (distinct xs)

-- `sum((ca & cb).values())`: the lesser count of each key of `ca`.
pub intersection : List ℕ → List ℕ → ℕ
unfolding distinct times
intersection a b = sum_of (λ k. min (times k a) (times k b)) (distinct a)

-- `sum((ca | cb).values())`: the greater count of each key of `ca`, and the count of each key of `cb` alone.
pub union : List ℕ → List ℕ → ℕ
unfolding distinct times
union a b =
    sum_of (λ k. max (times k a) (times k b)) (distinct a)
    + sum_of (λ k. if times k a == 0 then times k b else 0) (distinct b)

-- `intersection / union if union else 0.0`
pub ast_similarity : List ℕ → List ℕ → Ratio
unfolding intersection union
ast_similarity a b =
    if union a b == 0
    then record { num = 0; den = 1 }
    else record { num = intersection a b; den = union a b }
