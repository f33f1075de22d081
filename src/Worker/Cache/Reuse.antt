-- ===== src/Worker/Cache/Reuse.antt =====
-- When `ensure_fingerprinted` of worker/services/fingerprint_service.py reuses what it cached.
use rest_api_plagiarism.Prelude.{
  ℕ, ◌+◌, ◌*◌, ltb, String, str_eq, str_eq_refl, true, false, ◌≡◌, refl, ◌⊎◌, inl, inr, none, some,
  Option-cases, List, [], ◌∷◌, map, if◌then◌else◌, Bool-cases,
}
use rest_api_plagiarism.Fingerprint.Core.{Fp}
use rest_api_plagiarism.Worker.Calls.{FileInfo, Outcome, done}
use rest_api_plagiarism.Worker.Cache.Dicts.{dict_of}
use rest_api_plagiarism.Worker.Cache.{
  Moment, Cache, live, members, loaded, member, sadd_hashes, batch_get, batch_cache, file_hash_of,
  generated, ensure_fingerprinted,
}
use rest_api_plagiarism.Worker.Cache.RoundTrip.{fps_of-dict_of}

sadd_hashes-grows :
    (hs : List ℕ) (y : ℕ) (ys : List ℕ)
    → (z : ℕ) × (zs : List ℕ) × (sadd_hashes hs (y ∷ ys) ≡ z ∷ zs)
unfolding sadd_hashes
sadd_hashes-grows [] y ys = (y, ys, refl)
sadd_hashes-grows (h ∷ hs) y ys = elim (Bool-cases (member h (y ∷ ys))) [
  | inl m ↦ rw m (sadd_hashes-grows hs y ys)
  | inr m ↦ rw m (sadd_hashes-grows hs h (y ∷ ys))
]

sadd_hashes-cons :
    (h : ℕ) (hs set : List ℕ)
    → (z : ℕ) × (zs : List ℕ) × (sadd_hashes hs (if member h set then set else h ∷ set) ≡ z ∷ zs)
unfolding sadd_hashes member
sadd_hashes-cons h hs [] = sadd_hashes-grows hs h []
sadd_hashes-cons h hs (y ∷ ys) = elim (Bool-cases (member h (y ∷ ys))) [
  | inl m ↦ rw m (sadd_hashes-grows hs y ys)
  | inr m ↦ rw m (sadd_hashes-grows hs h (y ∷ ys))
]

-- The cache holds no fingerprints of a file, or no subtree hashes.
abbrev pub Missing : ℕ → String → Cache → Type 0
Missing now file cache = (live now (cache.tokens file) ≡ none) ⊎ (members now (cache.ast file) ≡ [])

-- A file that the cache does not hold is parsed.
first_call :
    (look end : Moment) (info : FileInfo) (o : Outcome (List Fp × List ℕ)) (cache : Cache)
    → look.online ≡ true
    → str_eq (file_hash_of info) "" ≡ false
    → str_eq info.path "" ≡ false
    → Missing look.now (file_hash_of info) cache
    → ensure_fingerprinted (look, end) o info cache ≡ generated end (file_hash_of info) o cache
unfolding ensure_fingerprinted batch_get
first_call look end info o cache online has_hash has_path (inl no_tokens) =
    rw (has_hash, has_path, online, no_tokens)
first_call look end info o cache online has_hash has_path (inr no_ast) =
    elim (Option-cases (loaded (live look.now (cache.tokens (file_hash_of info))))) [
      | inl e ↦ rw (has_hash, has_path, online, e)
      | inr (fps, e) ↦ rw (has_hash, has_path, online, e, no_ast)
    ]

-- A cache whose entries of a file expire at one time.
Holding : String → List Fp → List ℕ → ℕ → Cache → Type 0
Holding file fps hs until cache =
    (cache.tokens file ≡ some (map dict_of fps, until)) × (cache.ast file ≡ some (hs, until))

-- A look at such a cache: what it holds until then, and the outcome of parsing from then on.
second_call :
    (look end : Moment) (info : FileInfo) (fps : List Fp) (z : ℕ) (zs : List ℕ) (until : ℕ)
    (now : Outcome (List Fp × List ℕ)) (cache : Cache)
    → look.online ≡ true
    → str_eq (file_hash_of info) "" ≡ false
    → str_eq info.path "" ≡ false
    → Holding (file_hash_of info) fps (z ∷ zs) until cache
    → ensure_fingerprinted (look, end) now info cache ≡ (
        if ltb look.now until
        then (done fps, cache)
        else generated end (file_hash_of info) now cache)
unfolding ensure_fingerprinted batch_get Holding
second_call look end info fps z zs until now cache online has_hash has_path (tokens, ast) =
    let back = fps_of-dict_of fps in
    elim (Bool-cases (ltb look.now until)) [
      | inl l ↦ rw (has_hash, has_path, online, tokens, ast, l, back)
      | inr l ↦ rw (has_hash, has_path, online, tokens, ast, l)
    ]

-- A file with a hash and a path, of which the cache has no fingerprints or no subtree hashes that have not expired, is
-- parsed by the first call, to at least one fingerprint and one subtree hash, and cached with a time to live; Redis
-- answers both calls. Until that time is over a second call does not parse: whatever parsing would give now, it returns
-- what the first call returned and leaves the cache as it is. From then on it parses again.
pub ensure_fingerprinted-again :
    (look end look' end' : Moment) (info : FileInfo) (fp : Fp) (fps : List Fp) (h : ℕ) (hs : List ℕ)
    (now : Outcome (List Fp × List ℕ)) (cache : Cache)
    → look.online ≡ true
    → end.online ≡ true
    → look'.online ≡ true
    → str_eq (file_hash_of info) "" ≡ false
    → str_eq info.path "" ≡ false
    → Missing look.now (file_hash_of info) cache
    → let first = ensure_fingerprinted (look, end) (done (fp ∷ fps, h ∷ hs)) info cache in
      (first.0 ≡ done (fp ∷ fps))
      × (ensure_fingerprinted (look', end') now info first.1 ≡ (
          if ltb look'.now (end.now + cache.ttl * 1000)
          then first
          else generated end' (file_hash_of info) now first.1))
unfolding batch_cache Holding
ensure_fingerprinted-again look end look' end' info fp fps h hs now cache online stored online'
      has_hash has_path missing =
    let file = file_hash_of info in
    let until = end.now + cache.ttl * 1000 in
    let parsed =
      first_call look end info (done (fp ∷ fps, h ∷ hs)) cache online has_hash has_path missing in
    let (z, zs, grown) = sadd_hashes-cons h hs (members end.now (cache.ast file)) in
    let after_first = batch_cache end ((file, (fp ∷ fps, h ∷ hs)) ∷ []) cache in
    let holding : Holding file (fp ∷ fps) (z ∷ zs) until after_first =
      rw (stored, str_eq_refl file, grown) (refl, refl) in
    rw parsed (
      refl,
      second_call look' end' info (fp ∷ fps) z zs until now after_first online' has_hash has_path
          holding,
    )
