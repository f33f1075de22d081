-- ===== src/Worker/Cache/RoundTrip.antt =====
-- What is read back from the cache, and which subtree hashes are added to a set, of worker/infrastructure/redis_cache.py.
use rest_api_plagiarism.Prelude.{
  ℕ, ◌+◌, ◌*◌, ltb, String, str_eq, Bool, true, false, ◌||◌, ◌≡◌, refl, ap, inl, inr, none, some,
  List, [], ◌∷◌, map, List-cases, arith, ◌==◌, if◌then◌else◌, Bool-cases,
}
use rest_api_plagiarism.Fingerprint.Core.{Fp}
use rest_api_plagiarism.Worker.Cache.Dicts.{field, dict_of, fps_of}
use rest_api_plagiarism.Worker.Cache.{
  Moment, Cache, member, sadd_hashes, cache_fingerprints, get_fingerprints,
}

-- The dicts that are dumped give the fingerprints back.
pub fps_of-dict_of : (fps : List Fp) → fps_of (map dict_of fps) ≡ some fps
unfolding fps_of field
fps_of-dict_of [] = refl
fps_of-dict_of (fp ∷ fps) = rw (fps_of-dict_of fps)

-- What is cached under a file, as dicts with lists for points in a text of JSON, is read back until the time to live is
-- over: each fingerprint with its positions, in order, duplicates too. From then on nothing is read. What is cached
-- under another file is as before. The list is not empty, and Redis answers both calls.
pub get_fingerprints-cache_fingerprints :
    (stored read : ℕ) (file other : String) (fp : Fp) (fps : List Fp) (hs : List ℕ) (cache : Cache)
    → let write : Moment = record { online = true; now = stored } in
      let look : Moment = record { online = true; now = read } in
      get_fingerprints look other (cache_fingerprints write file (fp ∷ fps) hs cache).1 ≡ (
        if str_eq other file
        then if ltb read (stored + cache.ttl * 1000) then some (fp ∷ fps) else none
        else get_fingerprints look other cache)
unfolding get_fingerprints cache_fingerprints
get_fingerprints-cache_fingerprints stored read file other fp fps hs cache =
    let back = fps_of-dict_of (fp ∷ fps) in
    elim (Bool-cases (str_eq other file)) [
      | inr e ↦ elim (List-cases hs) [ inl z ↦ rw (z, e) | inr (h, hs', c) ↦ rw (c, e) ]
      | inl e ↦ elim (Bool-cases (ltb read (stored + cache.ttl * 1000))) [
        | inl l ↦ elim (List-cases hs) [
          | inl z ↦ rw (z, e, l, back)
          | inr (h, hs', c) ↦ rw (c, e, l, back)
        ]
        | inr l ↦ elim (List-cases hs) [ inl z ↦ rw (z, e, l) | inr (h, hs', c) ↦ rw (c, e, l) ]
      ]
    ]

equal-member : (x y : ℕ) (xs : List ℕ) → (x == y) ≡ true → member x xs ≡ member y xs
equal-member x y xs h = let e : x ≡ y = ground arith in ap (λ z. member z xs) e

move_in : (a b c : Bool) → a || (b || c) ≡ (b || a) || c
move_in true true c = refl
move_in true false c = refl
move_in false true c = refl
move_in false false c = refl

member-add :
    (x h : ℕ) (set : List ℕ)
    → member x (if member h set then set else h ∷ set) ≡ (x == h) || member x set
unfolding member
member-add x h set = elim (Bool-cases (member h set)) [
  | inr n ↦ rw n
  | inl m ↦ elim (Bool-cases (x == h)) [
    | inl e ↦ let e' = equal-member x h set e in rw (m, e, e', m)
    | inr e ↦ rw (m, e)
  ]
]

-- A hash is in the set behind SADD where it was before or is in the list; how often the list holds it is lost.
pub member-sadd_hashes :
    (x : ℕ) (hs set : List ℕ) → member x (sadd_hashes hs set) ≡ member x hs || member x set
unfolding member sadd_hashes
member-sadd_hashes x [] set = refl
member-sadd_hashes x (h ∷ hs) set =
    rw (member-sadd_hashes x hs (if member h set then set else h ∷ set), member-add x h set)
      (move_in (member x hs) (x == h) (member x set))
