-- ===== src/Worker/Cache.antt =====
-- worker/infrastructure/redis_cache.py: `RedisFingerprintCache`, and worker/services/fingerprint_service.py:
-- `FingerprintService`. Each call meets Redis at one moment; where Redis does not answer, each command raises a
-- RedisError. A text of JSON is the list of dicts that the json module reads from it.
pub mod Dicts
pub mod RoundTrip
pub mod Reuse
use rest_api_plagiarism.Prelude.{
  ℕ, ◌+◌, ◌*◌, ltb, String, str_eq, Bool, true, false, ◌||◌, Option, none, some, List, [], ◌∷◌, map,
  length, ◌==◌, if◌then◌else◌,
}
use rest_api_plagiarism.Fingerprint.Core.{Fp}
use rest_api_plagiarism.Worker.Cache.Dicts.{JsonDict, dict_of, fps_of}
use rest_api_plagiarism.Worker.Calls.{FileInfo, Outcome, done, raised}

-- A set of Redis, as `smembers` lists it.
unfoldable pub member : ℕ → List ℕ → Bool
member x [] = false
member x (y ∷ ys) = x == y || member x ys

unfoldable pub sadd_hashes : List ℕ → List ℕ → List ℕ
unfolding member
sadd_hashes [] set = set
sadd_hashes (h ∷ hs) set = sadd_hashes hs (if member h set then set else h ∷ set)

-- Whether Redis answers, and its time in milliseconds.
pub record Moment : Type 0 where
  pub online : Bool
  pub now : ℕ

-- The keys fp:token:{hash}:data and fp:ast:{hash}:hashes, each with the time at which it expires, and the time to live
-- of both in seconds.
pub record Cache : Type 0 where
  pub tokens : String → Option (List JsonDict × ℕ)
  pub ast : String → Option (List ℕ × ℕ)
  pub ttl : ℕ

-- A value that has not expired.
abbrev pub live {ℓ} : {A : Type ℓ} → ℕ → Option (A × ℕ) → Option A
live now none = none
live now (some (x, until)) = if ltb now until then some x else none

-- SMEMBERS
abbrev pub members : ℕ → Option (List ℕ × ℕ) → List ℕ
members now none = []
members now (some (hs, until)) = if ltb now until then hs else []

abbrev pub expiry : ℕ → Cache → ℕ
expiry now cache = now + cache.ttl * 1000

-- SET with EX
abbrev pub set_tokens : ℕ → String → List Fp → Cache → Cache
set_tokens now file [] cache = cache
set_tokens now file (fp ∷ fps) cache = record cache {
  tokens = λ f.
      if str_eq f file
      then some (dict_of fp ∷ map dict_of fps, expiry now cache)
      else cache.tokens f;
}

-- SADD and EXPIRE
abbrev pub add_ast : ℕ → String → List ℕ → Cache → Cache
add_ast now file [] cache = cache
add_ast now file (h ∷ hs) cache = record cache {
  ast = λ f.
      if str_eq f file
      then some (sadd_hashes (h ∷ hs) (members now (cache.ast file)), expiry now cache)
      else cache.ast f;
}

abbrev pub store : ℕ → String → List Fp → List ℕ → Cache → Cache
store now file fps hs cache = add_ast now file hs (set_tokens now file fps cache)

-- `not fingerprints and not ast_hashes`
abbrev pub is_empty : List Fp → List ℕ → Bool
is_empty [] [] = true
is_empty fps hs = false

-- `cache_fingerprints`, with what it returns.
unfoldable pub cache_fingerprints : Moment → String → List Fp → List ℕ → Cache → Bool × Cache
unfolding sadd_hashes
cache_fingerprints moment file fps hs cache =
    if is_empty fps hs
    then (false, cache)
    else if moment.online
    then (true, store moment.now file fps hs cache)
    else (false, cache)

abbrev pub nonempty {ℓ} : {A : Type ℓ} → List A → Option (List A)
nonempty [] = none
nonempty (x ∷ xs) = some (x ∷ xs)

-- `json.loads` of a text that is there.
abbrev pub loaded : Option (List JsonDict) → Option (List Fp)
loaded none = none
loaded (some ds) = fps_of ds

abbrev pub nonempty_in : Option (List Fp) → Option (List Fp)
nonempty_in none = none
nonempty_in (some fps) = nonempty fps

-- `get_fingerprints`, `get_ast_hashes` and `has_fingerprints`
pub get_fingerprints : Moment → String → Cache → Option (List Fp)
unfolding fps_of
get_fingerprints moment file cache =
    if moment.online then nonempty_in (loaded (live moment.now (cache.tokens file))) else none

unfoldable pub get_ast_hashes : Moment → String → Cache → Option (List ℕ)
get_ast_hashes moment file cache =
    if moment.online then nonempty (members moment.now (cache.ast file)) else none

unfoldable has_fingerprints : Moment → String → Cache → Bool
has_fingerprints moment file cache =
    if moment.online
    then elim (live moment.now (cache.tokens file)) [ none ↦ false | some ds ↦ true ]
    else false

-- What `batch_get` returns of a file.
pub record FileData : Type 0 where
  pub fingerprints : Option (List Fp)
  pub ast_hashes : Option (List ℕ)
  pub fingerprint_count : ℕ

abbrev pub no_data : FileData
no_data = record { fingerprints = none; ast_hashes = none; fingerprint_count = 0 }

abbrev pub count_in : Option (List Fp) → ℕ
count_in none = 0
count_in (some fps) = length fps

abbrev pub data_of : Moment → Cache → String → FileData
data_of moment cache file =
    if moment.online
    then record {
      fingerprints = loaded (live moment.now (cache.tokens file));
      ast_hashes = nonempty (members moment.now (cache.ast file));
      fingerprint_count = count_in (loaded (live moment.now (cache.tokens file)));
    }
    else no_data

-- `batch_get`, as the entries of the dict.
unfoldable pub batch_get : Moment → List String → Cache → List (String × FileData)
unfolding fps_of
batch_get moment [] cache = []
batch_get moment (f ∷ fs) cache = (f, data_of moment cache f) ∷ batch_get moment fs cache

-- `batch_cache`
pub batch_cache : Moment → List (String × (List Fp × List ℕ)) → Cache → Cache
unfolding sadd_hashes
batch_cache moment [] cache = cache
batch_cache moment ((file, (fps, hs)) ∷ items) cache =
    batch_cache moment items (if moment.online then store moment.now file fps hs cache else cache)

-- `file_info.get("file_hash") or file_info.get("hash")`
abbrev pub file_hash_of : FileInfo → String
file_hash_of f = if str_eq f.file_hash "" then f.hash else f.file_hash

abbrev pub cached_data : List (String × FileData) → FileData
cached_data [] = no_data
cached_data ((f, found) ∷ rest) = found

-- The part of `ensure_fingerprinted` behind the look into the cache.
abbrev pub generated :
    Moment → String → Outcome (List Fp × List ℕ) → Cache → Outcome (List Fp) × Cache
generated moment file (raised e) cache = (raised e, cache)
generated moment file (done (fps, hs)) cache =
    (done fps, batch_cache moment ((file, (fps, hs)) ∷ []) cache)

abbrev pub ensured :
    Moment
    → String
    → Outcome (List Fp × List ℕ)
    → Option (List Fp)
    → Option (List ℕ)
    → Cache
    → Outcome (List Fp) × Cache
ensured moment file generate (some fps) (some hs) cache = (done fps, cache)
ensured moment file generate (some fps) none cache = generated moment file generate cache
ensured moment file generate none hs cache = generated moment file generate cache

-- The moment of the look into the cache, and that at which a parsed file is cached.
abbrev pub Moments : Type 0
Moments = Moment × Moment

-- `ensure_fingerprinted`; `generate` is the outcome of parsing, hashing and winnowing the file.
pub ensure_fingerprinted :
    Moments → Outcome (List Fp × List ℕ) → FileInfo → Cache → Outcome (List Fp) × Cache
unfolding batch_get batch_cache
ensure_fingerprinted (look, end) generate info cache =
    let file = file_hash_of info in
    let found = cached_data (batch_get look (file ∷ []) cache) in
    let invalid : Outcome (List Fp) = raised "Invalid file info: missing hash or path" in
    let result = ensured end file generate found.fingerprints found.ast_hashes cache in
    if str_eq file ""
    then (invalid, cache)
    else if str_eq info.path ""
    then (invalid, cache)
    else result
