-- ===== src/Worker/Tests.antt =====
-- Runs of the worker on small inputs, and the theorems applied to them.
use rest_api_plagiarism.Prelude.{
  ℕ, ◌+◌, ◌*◌, ltb, inl, String, str_eq, true, ◌≡◌, refl, none, some, List, [], ◌∷◌, arith,
  if◌then◌else◌, All,
}
use rest_api_plagiarism.Detection.Match.{Ratio}
use rest_api_plagiarism.Worker.Index.{
  hash_key, file_key, has, Store, Index, add_file_fingerprints, find_candidates, keep_similar,
  should_filter_by_count, overlaps, scored, tally_all, tally,
}
use rest_api_plagiarism.Worker.Index.Agreement.{Consistent, add_file_fingerprints-Consistent}
use rest_api_plagiarism.Worker.Index.Languages.{find_candidates-python_only}
use rest_api_plagiarism.Worker.Calls.{
  FileInfo, Pair, update, completed, insert, indexing, finding_intra_pairs, storing_results, done,
  raised, Repository, inserted,
}
use rest_api_plagiarism.Worker.Results.{rows, store_batches, store_similarity_scores}
use rest_api_plagiarism.Worker.Results.Stored.{store_similarity_scores-inserted}
use rest_api_plagiarism.Worker.Tasks.{
  Services, report, find_cross, finish, find_and_finish, try_task, process_task,
}
use rest_api_plagiarism.Worker.Tasks.Statuses.{Climbs, process_task-Climbs}
use rest_api_plagiarism.Worker.Tasks.Once.{EndsOnce, process_task-EndsOnce}
use rest_api_plagiarism.Worker.Candidates.{
  CandidateIndex, find_candidate_pairs, intra_files, intra_candidates, candidates_of, by_hash,
  seen_pair,
}
use rest_api_plagiarism.Worker.Candidates.Intra.{New, Apart, find_candidate_pairs-Apart}
use rest_api_plagiarism.Fingerprint.Core.{Fp}
use rest_api_plagiarism.Worker.Cache.{
  Moment, Moments, Cache, generated, cache_fingerprints, get_fingerprints, get_ast_hashes,
  sadd_hashes, member, ensure_fingerprinted,
}
use rest_api_plagiarism.Worker.Cache.RoundTrip.{get_fingerprints-cache_fingerprints}
use rest_api_plagiarism.Worker.Cache.Reuse.{ensure_fingerprinted-again}
use rest_api_plagiarism.Worker.Calls.{Outcome}
use rest_api_plagiarism.Worker.Indexing.{ensure_files_indexed}
use rest_api_plagiarism.Worker.Indexing.Pipelined.{
  sequentially, ensure_files_indexed-sequentially, ensure_files_indexed-Consistent,
}

abbrev empty_index : Index
empty_index = record { redis = λ k. []; counts = λ f. none }

empty_index-Consistent : Consistent empty_index.redis
unfolding has
empty_index-Consistent l h f = refl

abbrev one_file : Index
one_file = add_file_fingerprints "one" (4 ∷ 7 ∷ []) "python" empty_index

one_file-Consistent : Consistent one_file.redis
one_file-Consistent =
    add_file_fingerprints-Consistent "one" (4 ∷ 7 ∷ []) "python" empty_index empty_index-Consistent

-- A copy of the file that is searched, indexed under "cpp".
abbrev cpp_store : Store
cpp_store (hash_key l h) = "copy" ∷ []
cpp_store (file_key l f) = if str_eq l "cpp" then "4" ∷ "7" ∷ [] else []

abbrev cpp_index : Index
cpp_index = record { redis = cpp_store; counts = λ f. none }

abbrev threshold : Ratio
threshold = record { num = 15; den = 100 }

find_candidates-python_only_example :
    (find_candidates threshold ("4" ∷ "7" ∷ []) "cpp" cpp_index).0 ≡ []
find_candidates-python_only_example =
    find_candidates-python_only threshold ("4" ∷ "7" ∷ []) "cpp" cpp_index (λ f. refl) (λ f. refl)

-- The same index finds the copy where its count is known.
copy_found :
    (find_candidates threshold ("4" ∷ "7" ∷ []) "cpp" (record cpp_index { counts = λ f. some 2 })).0
    ≡ ("copy", record { num = 2; den = 2 }) ∷ []
unfolding find_candidates keep_similar should_filter_by_count overlaps scored tally_all tally
copy_found = refl

abbrev file : String → FileInfo
file h = record { id = h; hash = h; file_hash = ""; path = h }

abbrev half : Ratio
half = record { num = 1; den = 2 }

abbrev pairs : List Pair
pairs =
    (file "a", (file "b", half))
    ∷ (file "a", (file "", half))
    ∷ (file "a", (file "c", half))
    ∷ (file "b", (file "c", half))
    ∷ []

abbrev accepts_all : Repository
accepts_all = record { refuse = λ c. none; max_similarity = done half }

store_similarity_scores-inserted_example :
    inserted (store_similarity_scores accepts_all 2 pairs).0 ≡ rows pairs
unfolding store_similarity_scores store_batches rows
store_similarity_scores-inserted_example =
    store_similarity_scores-inserted accepts_all 2 pairs (omega arith) refl

abbrev services : Services
services = record {
  existing_files = done [];
  ensure_files_indexed = λ existing. ((2, 2) ∷ [], done tt);
  intra_pairs = ([], done pairs);
  cross_pairs = λ existing. ([], done []);
  ast_similarities = λ ps. done ps;
}

abbrev files : List FileInfo
files = file "a" ∷ file "b" ∷ []

calls_made :
    (process_task accepts_all services files).0
    ≡ update indexing 0 2
      ∷ update indexing 2 2
      ∷ update finding_intra_pairs 0 2
      ∷ update storing_results 0 4
      ∷ insert (rows pairs)
      ∷ update storing_results 3 3
      ∷ completed half 4 4
      ∷ []
unfolding process_task try_task find_and_finish find_cross finish report store_similarity_scores
    store_batches rows
calls_made = refl

process_task-Climbs_example : Climbs 0 5 (process_task accepts_all services files).0
process_task-Climbs_example = process_task-Climbs accepts_all services files

abbrev broken : Services
broken = record services { intra_pairs = ([], raised "no index") }

process_task-EndsOnce_example : EndsOnce (process_task accepts_all broken files)
process_task-EndsOnce_example = process_task-EndsOnce accepts_all broken files (λ text. refl)

-- Every file is a candidate of every file.
abbrev all_alike : CandidateIndex
all_alike = record {
  fingerprints = λ h. "7" ∷ [];
  candidates = λ fps. ("a", half) ∷ ("b", half) ∷ ("c", half) ∷ [];
}

abbrev three_files : List FileInfo
three_files = file "a" ∷ file "b" ∷ file "c" ∷ []

three_pairs :
    find_candidate_pairs all_alike three_files none true
    ≡ (file "a", (file "b", half))
      ∷ (file "a", (file "c", half))
      ∷ (file "b", (file "c", half))
      ∷ []
unfolding find_candidate_pairs intra_files intra_candidates candidates_of by_hash seen_pair
three_pairs = refl

find_candidate_pairs-Apart_example :
    All (New []) (find_candidate_pairs all_alike three_files none true)
    × Apart (find_candidate_pairs all_alike three_files none true)
find_candidate_pairs-Apart_example = find_candidate_pairs-Apart all_alike three_files

abbrev empty_cache : Cache
empty_cache = record { tokens = λ f. none; ast = λ f. none; ttl = 60 }

-- Redis answers, so many milliseconds after the start.
abbrev moment : ℕ → Moment
moment n = record { online = true; now = n }

abbrev print : ℕ → Fp
print h = record { hash = h; start = (0, 0); end = (0, 4); kgram_idx = h }

-- The second 5 of the subtree hashes is lost, and after a minute all of them.
hashes_are_a_set :
    let cached =
      (cache_fingerprints (moment 0) "a" (print 7 ∷ []) (5 ∷ 6 ∷ 5 ∷ []) empty_cache).1 in
    (get_ast_hashes (moment 59999) "a" cached ≡ some (6 ∷ 5 ∷ []))
    × (get_ast_hashes (moment 60000) "a" cached ≡ none)
unfolding get_ast_hashes cache_fingerprints sadd_hashes member
hashes_are_a_set = (refl, refl)

get_fingerprints-cache_fingerprints_example :
    get_fingerprints
      (moment 50000)
      "a"
      (cache_fingerprints (moment 1000) "a" (print 7 ∷ print 7 ∷ []) (5 ∷ []) empty_cache).1
    ≡ (if str_eq "a" "a"
        then if ltb 50000 (1000 + 60 * 1000) then some (print 7 ∷ print 7 ∷ []) else none
        else get_fingerprints (moment 50000) "a" empty_cache)
get_fingerprints-cache_fingerprints_example =
    get_fingerprints-cache_fingerprints 1000 50000 "a" "a" (print 7) (print 7 ∷ []) (5 ∷ [])
      empty_cache

abbrev parsed_once : Outcome (List Fp) × Cache
parsed_once =
    ensure_fingerprinted (moment 0, moment 1000) (done (print 7 ∷ [], 5 ∷ []))
      (record (file "") { file_hash = "a"; path = "a.py" }) empty_cache

-- A second call fifty seconds later, when the file would not parse any more.
ensure_fingerprinted-again_example :
    (parsed_once.0 ≡ done (print 7 ∷ []))
    × (ensure_fingerprinted
          (moment 51000, moment 52000)
          (raised "parser")
          (record (file "") { file_hash = "a"; path = "a.py" })
          parsed_once.1
        ≡ (if ltb 51000 (1000 + 60 * 1000)
            then parsed_once
            else generated (moment 52000) "a" (raised "parser") parsed_once.1))
ensure_fingerprinted-again_example =
    ensure_fingerprinted-again (moment 0) (moment 1000) (moment 51000) (moment 52000)
      (record (file "") { file_hash = "a"; path = "a.py" }) (print 7) [] 5 [] (raised "parser")
      empty_cache refl refl refl refl refl (inl refl)

-- Two files that parse, one of them twice, and one that does not.
abbrev info_of : String → FileInfo
info_of name = record { id = name; hash = name; file_hash = ""; path = name }

abbrev parses : FileInfo → Outcome (List Fp × List ℕ)
parses info =
    if str_eq info.hash "broken"
    then raised "syntax error"
    else done (print 4 ∷ print 7 ∷ [], 9 ∷ [])

abbrev at_work : FileInfo → Moments
at_work info = (moment 10, moment 20)

abbrev some_files : List FileInfo
some_files = info_of "one" ∷ info_of "broken" ∷ info_of "two" ∷ info_of "one" ∷ []

ensure_files_indexed-sequentially_example :
    ensure_files_indexed (moment 0) at_work parses "python" some_files empty_cache empty_index.redis
    ≡ (
      (sequentially (moment 0) at_work parses "python" some_files empty_cache empty_index).prints,
      (sequentially (moment 0) at_work parses "python" some_files empty_cache empty_index).cache,
      (sequentially
          (moment 0)
          at_work
          parses
          "python"
          some_files
          empty_cache
          empty_index).index.redis,
    )
ensure_files_indexed-sequentially_example =
    ensure_files_indexed-sequentially (moment 0) at_work parses "python" some_files empty_cache
      empty_index

ensure_files_indexed-Consistent_example :
    Consistent
      (ensure_files_indexed
        (moment 0)
        at_work
        parses
        "python"
        some_files
        empty_cache
        empty_index.redis).2
ensure_files_indexed-Consistent_example =
    ensure_files_indexed-Consistent (moment 0) at_work parses "python" some_files empty_cache
      empty_index empty_index-Consistent
