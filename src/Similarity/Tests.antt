-- ===== src/Similarity/Tests.antt =====
-- Runs of the score on small lists, and the theorems applied to them.
use rest_api_plagiarism.Prelude.{◌≡◌, refl, [], ◌∷◌}
use rest_api_plagiarism.Similarity.{times, without, distinct, intersection, union, ast_similarity}

-- A hash that one file holds twice and the other once counts once for both and twice for either.
two_of_four : ast_similarity (5 ∷ 6 ∷ 5 ∷ []) (5 ∷ 6 ∷ 7 ∷ []) ≡ record { num = 2; den = 4 }
unfolding ast_similarity intersection union times without distinct
two_of_four = refl

-- A file with a repeated hash, scored against itself by the set that the cache returns, is not a full match.
cached_against_parsed : ast_similarity (5 ∷ 6 ∷ 5 ∷ []) (5 ∷ 6 ∷ []) ≡ record { num = 2; den = 3 }
unfolding ast_similarity intersection union times without distinct
cached_against_parsed = refl
