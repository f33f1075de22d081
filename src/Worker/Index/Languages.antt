-- ===== src/Worker/Index/Languages.antt =====
-- The language that `_should_filter_by_count` of worker/infrastructure/inverted_index.py reads counts under.
use rest_api_plagiarism.Prelude.{
  ℕ, max, ◌*◌, ◌/◌, String, str_eq, true, ◌≡◌, refl, ◌⊎◌, inl, inr, none, some, List, [], ◌∷◌,
  length, Bool-cases,
}
use rest_api_plagiarism.Detection.Match.{Ratio}
use rest_api_plagiarism.Worker.Index.{
  file_key, Index, set_count, should_filter_by_count, overlaps, scored, keep_similar,
  find_candidates,
}

-- No file has a count other than 0, neither in the cache nor in Redis under "python".
record Uncounted (index : Index) : Type 0 where
  cached : (f : String) → (index.counts f ≡ none) ⊎ (index.counts f ≡ some 0)
  stored : (f : String) → index.redis (file_key "python" f) ≡ []

should_filter-Uncounted :
    (file : String) (query_count : ℕ) (index : Index)
    → Uncounted index
    → ((should_filter_by_count file query_count index).0 ≡ true)
      × Uncounted ((should_filter_by_count file query_count index).1)
unfolding should_filter_by_count
should_filter-Uncounted file query_count index u = elim (u.cached file) [
  | inr e ↦ rw e (refl, u)
  | inl e ↦
      let empty = u.stored file in
      let cached' : (f : String)
          → (set_count file 0 index.counts f ≡ none) ⊎ (set_count file 0 index.counts f ≡ some 0) =
        λ f. elim (Bool-cases (str_eq f file)) [ inl t ↦ inr (rw t) | inr t ↦ rw t (u.cached f) ] in
      rw (e, empty) (refl, record { cached = cached'; stored = u.stored })
]

keep_similar-Uncounted :
    (query_count : ℕ) (flat : List (String × Ratio)) (index : Index)
    → Uncounted index
    → (keep_similar query_count flat index).0 ≡ []
unfolding keep_similar
keep_similar-Uncounted query_count [] index u = refl
keep_similar-Uncounted query_count ((f, sim) ∷ flat) index u =
    let (filtered, u') = should_filter-Uncounted f query_count index u in
    rw filtered
      (keep_similar-Uncounted query_count flat (should_filter_by_count f query_count index).1 u')

-- A worker that has counted no file yet finds no candidate in any language where no file is indexed under
-- "python", whatever is indexed under the language that it searches.
pub find_candidates-python_only :
    (threshold : Ratio) (hs : List String) (lang : String) (index : Index)
    → ((f : String) → index.counts f ≡ none)
    → ((f : String) → index.redis (file_key "python" f) ≡ [])
    → (find_candidates threshold hs lang index).0 ≡ []
unfolding find_candidates
find_candidates-python_only threshold [] lang index fresh no_python = refl
find_candidates-python_only threshold (h ∷ hs) lang index fresh no_python =
    let query_count = length (h ∷ hs) in
    let min_overlap = max 1 (query_count * threshold.num / threshold.den) in
    keep_similar-Uncounted query_count
      (scored index.redis lang query_count min_overlap (overlaps index.redis lang (h ∷ hs) []))
      index (record { cached = λ f. inl (fresh f); stored = no_python })
