-- ===== src/Worker/Candidates.antt =====
-- worker/services/candidate_service.py: `find_candidate_pairs`, over the interface `CandidateIndex` of
-- shared/interfaces.py.
pub mod Intra
pub mod Cross
use rest_api_plagiarism.Prelude.{
  ℕ, zero, suc, ◌+◌, ◌/◌, ◌%◌, max, String, str_eq, Bool, true, false, ◌&&◌, ◌||◌, Option, none,
  some, List, [], ◌∷◌, ◌++◌, length, ◌==◌, if◌then◌else◌,
}
use rest_api_plagiarism.Detection.Match.{Ratio}
use rest_api_plagiarism.Worker.Calls.{FileInfo, Pair}

-- The operations of the interface that the service calls, for one language: the fingerprints of a file, where
-- no list and an empty list are alike, and the entries of the dict of candidates.
pub record CandidateIndex : Type 0 where
  pub fingerprints : String → List String
  pub candidates : List String → List (String × Ratio)

-- `f.get("hash") or f.get("file_hash")`; an empty text is false.
abbrev pub hash_of : FileInfo → String
hash_of f = if str_eq f.hash "" then f.file_hash else f.hash

-- `files_b_by_hash.get(h)`: of files with the same hash the last one.
unfoldable pub by_hash : String → List FileInfo → Option FileInfo
by_hash h [] = none
by_hash h (f ∷ fs) = elim (by_hash h fs) [
  | some g ↦ some g
  | none ↦ if str_eq (hash_of f) "" then none else if str_eq (hash_of f) h then some f else none
]

-- `frozenset([a, b]) == frozenset([c, d])` and `frozenset([a, b]) in all_seen`
abbrev pub same_pair : String → String → String → String → Bool
same_pair a b c d = str_eq a c && str_eq b d || str_eq a d && str_eq b c

unfoldable pub seen_pair : String → String → List (String × String) → Bool
seen_pair a b [] = false
seen_pair a b ((c, d) ∷ seen) = same_pair a b c d || seen_pair a b seen

-- The pairs found, with `all_seen` after them.
abbrev pub Found : Type 0
Found = List Pair × List (String × String)

abbrev pub found_one : Pair → Found → Found
found_one p (pairs, seen) = (p ∷ pairs, seen)

-- The loop over the candidates of one file within the task.
unfoldable pub intra_candidates :
    Bool → List FileInfo → FileInfo → List (String × Ratio) → List (String × String) → Found
unfolding by_hash
intra_candidates deduplicate files_b a [] seen = ([], seen)
intra_candidates deduplicate files_b a ((h, sim) ∷ cands) seen =
    let skipped = intra_candidates deduplicate files_b a cands seen in
    if str_eq h (hash_of a) then skipped else elim (by_hash h files_b) [
      | none ↦ skipped
      | some b ↦
          let marked = intra_candidates deduplicate files_b a cands ((hash_of a, h) ∷ seen) in
          if deduplicate
          then if seen_pair (hash_of a) h seen then skipped else found_one (a, (b, sim)) marked
          else found_one (a, (b, sim)) skipped
    ]

-- The loop over the candidates of one file among the files of other tasks.
pub cross_candidates : List FileInfo → FileInfo → List (String × Ratio) → List Pair
unfolding by_hash
cross_candidates files_b a [] = []
cross_candidates files_b a ((h, sim) ∷ cands) =
    let rest = cross_candidates files_b a cands in
    elim (by_hash h files_b) [ none ↦ rest | some b ↦ (a, (b, sim)) ∷ rest ]

-- The candidates of a file; none without fingerprints.
unfoldable pub candidates_of : CandidateIndex → FileInfo → List (String × Ratio)
candidates_of index a = elim (index.fingerprints (hash_of a)) [
  | [] ↦ []
  | fp ∷ fps ↦ index.candidates (fp ∷ fps)
]

abbrev pub valid_files : List FileInfo → List FileInfo
valid_files [] = []
valid_files (f ∷ fs) = if str_eq (hash_of f) "" then valid_files fs else f ∷ valid_files fs

-- The loop over the valid files.
unfoldable pub intra_files :
    CandidateIndex → Bool → List FileInfo → List FileInfo → List (String × String) → List Pair
unfolding intra_candidates candidates_of
intra_files index deduplicate files_b [] seen = []
intra_files index deduplicate files_b (a ∷ files) seen =
    let found = intra_candidates deduplicate files_b a (candidates_of index a) seen in
    found.0 ++ intra_files index deduplicate files_b files found.1

pub cross_files : CandidateIndex → List FileInfo → List FileInfo → List Pair
unfolding cross_candidates candidates_of
cross_files index files_b [] = []
cross_files index files_b (a ∷ files) =
    cross_candidates files_b a (candidates_of index a) ++ cross_files index files_b files

-- `find_candidate_pairs`: without `files_b` the files of the task are compared with each other.
unfoldable pub find_candidate_pairs :
    CandidateIndex → List FileInfo → Option (List FileInfo) → Bool → List Pair
unfolding intra_files cross_files
find_candidate_pairs index files_a none deduplicate =
    intra_files index deduplicate files_a (valid_files files_a) []
find_candidate_pairs index files_a (some files_b) deduplicate =
    cross_files index files_b (valid_files files_a)

-- The progress reports of the loop, from `checked` files on; a file without fingerprints is counted only.
pub progress : CandidateIndex → ℕ → ℕ → List FileInfo → ℕ → List (ℕ × ℕ)
progress index interval total [] checked = []
progress index interval total (a ∷ files) checked =
    let rest = progress index interval total files (checked + 1) in
    elim (index.fingerprints (hash_of a)) [
      | [] ↦ rest
      | fp ∷ fps ↦ if ((checked + 1) % interval) == 0 then (checked + 1, total) ∷ rest else rest
    ]

unfoldable progress_reports : CandidateIndex → List FileInfo → List (ℕ × ℕ)
unfolding progress
progress_reports index files_a =
    let files = valid_files files_a in
    progress index (max 1 (length files / 20)) (length files) files 0
