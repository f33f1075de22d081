-- ===== src/Worker/Index.antt =====
-- worker/infrastructure/inverted_index.py: `RedisInvertedIndex`, with the Lua script that it runs in Redis.
-- The sets of Redis are lists without duplicates under keys; two keys with different kinds, languages or
-- names are different texts, since no language holds a colon.
pub mod Sets
pub mod Agreement
pub mod Languages
use rest_api_plagiarism.Prelude.{
  ℕ, ◌+◌, ◌-◌, ◌*◌, ◌/◌, max, min, String, str, str_eq, Bool, true, false, not, ◌&&◌, ◌||◌, Option,
  none, some, List, [], ◌∷◌, ◌++◌, map, length, ltb, leb, ◌==◌, if◌then◌else◌,
}
use rest_api_plagiarism.Detection.Match.{Ratio}

-- `inv:hash:{lang}:{hash}` and `inv:file:{lang}:{file_hash}`
pub data Key : Type 0 where
  hash_key file_key : String → String → Key

abbrev pub key_eq : Key → Key → Bool
key_eq (hash_key l h) (hash_key l' h') = str_eq l l' && str_eq h h'
key_eq (file_key l f) (file_key l' f') = str_eq l l' && str_eq f f'
key_eq k k' = false

unfoldable pub has : String → List String → Bool
has x [] = false
has x (y ∷ ys) = str_eq x y || has x ys

abbrev pub set_add : String → List String → List String
set_add m xs = if has m xs then xs else m ∷ xs

pub set_remove : String → List String → List String
set_remove m [] = []
set_remove m (x ∷ xs) = let rest = set_remove m xs in if str_eq x m then rest else x ∷ rest

abbrev pub Store : Type 0
Store = Key → List String

-- SADD, SREM and DEL
abbrev pub sadd : Key → String → Store → Store
sadd k m s k' = if key_eq k' k then set_add m (s k') else s k'

abbrev pub srem : Key → String → Store → Store
srem k m s k' = if key_eq k' k then set_remove m (s k') else s k'

abbrev pub delete : Key → Store → Store
delete k s k' = if key_eq k' k then [] else s k'

-- Redis and `_fp_count_cache`.
pub record Index : Type 0 where
  pub redis : Store
  pub counts : String → Option ℕ

abbrev pub set_count : String → ℕ → (String → Option ℕ) → String → Option ℕ
set_count file n counts f = if str_eq f file then some n else counts f

abbrev pub drop_count : String → (String → Option ℕ) → String → Option ℕ
drop_count file counts f = if str_eq f file then none else counts f

-- The set of `hash_values` of a file.
pub hash_set : List ℕ → List String
hash_set [] = []
hash_set (h ∷ hs) = set_add (str h) (hash_set hs)

-- The file added to, and removed from, the set of each hash.
unfoldable pub sadd_file : String → String → List String → Store → Store
sadd_file lang file [] s = s
sadd_file lang file (h ∷ hs) s = sadd_file lang file hs (sadd (hash_key lang h) file s)

pub srem_file : String → String → List String → Store → Store
srem_file lang file [] s = s
srem_file lang file (h ∷ hs) s = srem_file lang file hs (srem (hash_key lang h) file s)

-- SADD of several members
unfoldable pub sadd_all : Key → List String → Store → Store
sadd_all k [] s = s
sadd_all k (m ∷ ms) s = sadd_all k ms (sadd k m s)

-- `add_file_fingerprints`, by the hashes of the fingerprints.
unfoldable pub add_file_fingerprints : String → List ℕ → String → Index → Index
unfolding sadd_file sadd_all hash_set
add_file_fingerprints file [] lang index = index
add_file_fingerprints file (h ∷ hs) lang index =
    let values = hash_set (h ∷ hs) in
    record {
      redis =
          sadd_all (file_key lang file) values (sadd_file lang file (map str (h ∷ hs)) index.redis);
      counts = set_count file (length values) index.counts;
    }

abbrev pub removed : String → String → List String → Index → Index
removed file lang [] index = index
removed file lang (h ∷ hs) index = record {
  redis = delete (file_key lang file) (srem_file lang file (h ∷ hs) index.redis);
  counts = drop_count file index.counts;
}

-- `remove_file`
pub remove_file : String → String → Index → Index
unfolding srem_file
remove_file file lang index = removed file lang (index.redis (file_key lang file)) index

abbrev pub fetched : String → List String → Index → Option (List String) × Index
fetched file [] index = (none, index)
fetched file (h ∷ hs) index =
    (some (h ∷ hs), record index { counts = set_count file (length (h ∷ hs)) index.counts })

-- `get_file_fingerprints`; an empty set is None.
pub get_file_fingerprints : String → String → Index → Option (List String) × Index
get_file_fingerprints file lang index = fetched file (index.redis (file_key lang file)) index

-- `get_file_fingerprints_batch`, as the entries of the dict in the order of the files.
unfoldable get_file_fingerprints_batch :
    List String → String → Index → List (String × Option (List String)) × Index
unfolding get_file_fingerprints
get_file_fingerprints_batch [] lang index = ([], index)
get_file_fingerprints_batch (file ∷ files) lang index =
    let (found, index') = get_file_fingerprints file lang index in
    let (rest, index'') = get_file_fingerprints_batch files lang index' in
    ((file, found) ∷ rest, index'')

-- `cands[fh] = (cands[fh] or 0) + 1`
unfoldable pub tally : String → List (String × ℕ) → List (String × ℕ)
tally file [] = (file, 1) ∷ []
tally file ((f, n) ∷ cands) =
    let rest = tally file cands in if str_eq f file then (f, n + 1) ∷ cands else (f, n) ∷ rest

unfoldable pub tally_all : List String → List (String × ℕ) → List (String × ℕ)
unfolding tally
tally_all [] cands = cands
tally_all (f ∷ files) cands = tally_all files (tally f cands)

-- The first loop of the script: SSCAN visits each member of a set.
unfoldable pub overlaps : Store → String → List String → List (String × ℕ) → List (String × ℕ)
unfolding tally_all
overlaps s lang [] cands = cands
overlaps s lang (h ∷ hs) cands = overlaps s lang hs (tally_all (s (hash_key lang h)) cands)

-- `overlap / union`, no more than 1.
abbrev pub jaccard : ℕ → ℕ → Ratio
jaccard overlap union = record { num = min overlap union; den = union }

-- The second loop of the script.
unfoldable pub scored : Store → String → ℕ → ℕ → List (String × ℕ) → List (String × Ratio)
scored s lang qcount min_overlap [] = []
scored s lang qcount min_overlap ((f, overlap) ∷ cands) =
    let rest = scored s lang qcount min_overlap cands in
    let union = qcount + length (s (file_key lang f)) - overlap in
    if leb min_overlap overlap
    then if ltb 0 union then (f, jaccard overlap union) ∷ rest else rest
    else rest

-- `ratio > 4.0`, and a count of 0, which filters too.
abbrev pub too_different : ℕ → ℕ → Bool
too_different query_count count =
    if count == 0 then true else ltb (4 * min query_count count) (max query_count count)

-- The count that is not cached is read from the key of the language "python", and cached.
abbrev pub filter_counted : String → ℕ → Index → Option ℕ → Bool × Index
filter_counted file query_count index (some n) = (too_different query_count n, index)
filter_counted file query_count index none =
    let n = length (index.redis (file_key "python" file)) in
    (too_different query_count n, record index { counts = set_count file n index.counts })

-- `_should_filter_by_count`
unfoldable pub should_filter_by_count : String → ℕ → Index → Bool × Index
should_filter_by_count file query_count index =
    filter_counted file query_count index (index.counts file)

-- The loop over what the script returns.
unfoldable pub keep_similar : ℕ → List (String × Ratio) → Index → List (String × Ratio) × Index
unfolding should_filter_by_count
keep_similar query_count [] index = ([], index)
keep_similar query_count ((f, sim) ∷ flat) index =
    let (filtered, index') = should_filter_by_count f query_count index in
    let (rest, index'') = keep_similar query_count flat index' in
    (if filtered then rest else (f, sim) ∷ rest, index'')

-- `find_candidates`, with `min_overlap_threshold` as a ratio.
unfoldable pub find_candidates :
    Ratio → List String → String → Index → List (String × Ratio) × Index
unfolding overlaps scored keep_similar
find_candidates threshold [] lang index = ([], index)
find_candidates threshold (h ∷ hs) lang index =
    let query_count = length (h ∷ hs) in
    let min_overlap = max 1 (query_count * threshold.num / threshold.den) in
    keep_similar query_count
      (scored index.redis lang query_count min_overlap (overlaps index.redis lang (h ∷ hs) []))
      index
