-- ===== src/Worker/Index/Agreement.antt =====
-- The two directions of the inverted index of worker/infrastructure/inverted_index.py agree.
use rest_api_plagiarism.Prelude.{
  ℕ, String, str, str_eq, str_eq_iff, str_eq_refl, false, and-false, and-true, and-not_self,
  or-false, or_comm, ◌||◌, ◌≡◌, refl, sym, ◌∙◌, List, [], ◌∷◌, map, inl, inr, Bool-cases,
}
use rest_api_plagiarism.Worker.Index.{
  hash_key, file_key, has, Store, Index, hash_set, sadd_file, add_file_fingerprints, removed,
  remove_file,
}
use rest_api_plagiarism.Worker.Index.Sets.{
  swap_inner, has-set_add, sadd_file-listed, srem_file-listed, sadd_file-file_key,
  srem_file-file_key, sadd_all-hash_key, sadd_all-recorded,
}

-- The file stands in the set of a hash where the hash stands in the set of the file.
abbrev pub Consistent : Store → Type 0
Consistent s = (l h f : String) → has f (s (hash_key l h)) ≡ has h (s (file_key l f))

has-hash_set : (x : String) (hs : List ℕ) → has x (hash_set hs) ≡ has x (map str hs)
unfolding has hash_set
has-hash_set x [] = refl
has-hash_set x (h ∷ hs) =
    rw (has-set_add x (str h) (hash_set hs), has-hash_set x hs)
      (or_comm (has x (map str hs)) (str_eq x (str h)))

-- Indexing a file keeps the two directions of the index in agreement.
pub add_file_fingerprints-Consistent :
    (file : String) (hs : List ℕ) (lang : String) (index : Index)
    → Consistent index.redis
    → Consistent (add_file_fingerprints file hs lang index).redis
unfolding add_file_fingerprints
add_file_fingerprints-Consistent file [] lang index c l x f = c l x f
add_file_fingerprints-Consistent file (h ∷ hs) lang index c l x f =
    let s = index.redis in
    let strs = map str (h ∷ hs) in
    let values = hash_set (h ∷ hs) in
    let s' = sadd_file lang file strs s in
    let at_hash = sadd_all-hash_key lang file values s' l x in
    let a = sadd_file-listed lang file strs s l x f in
    let b = sadd_all-recorded lang file values s' l x f in
    let at_file = sadd_file-file_key lang file strs s l f in
    rw (at_hash, a, b, at_file, has-hash_set x (h ∷ hs), c l x f)
      (swap_inner (has x (s (file_key l f))) (str_eq l lang) (has x strs) (str_eq f file))

removed-Consistent :
    (file lang : String) (hs : List String) (index : Index)
    → index.redis (file_key lang file) ≡ hs
    → Consistent index.redis
    → Consistent (removed file lang hs index).redis
unfolding has
removed-Consistent file lang [] index e c l x f = c l x f
removed-Consistent file lang (g ∷ gs) index e c l x f =
    let s = index.redis in
    let hs = g ∷ gs in
    let a = srem_file-listed lang file hs s l x f in
    let at_file = srem_file-file_key lang file hs s l f in
    elim (Bool-cases (str_eq l lang)) [
      | inr n ↦ rw (a, n, at_file, c l x f) (and-true (has x (s (file_key l f))))
      | inl y ↦ elim (Bool-cases (str_eq f file)) [
        | inr n ↦
            rw (a, y, n, at_file, c l x f)
              (rw (and-false (has x hs)) (and-true (has x (s (file_key l f)))))
        | inl z ↦
            let at : s (file_key l f) ≡ hs =
              rw ((str_eq_iff l lang).0 y, (str_eq_iff f file).0 z) e in
            rw (a, y, z, c l x f, at) (rw (and-true (has x hs)) (and-not_self (has x hs)))
      ]
    ]

-- Removing a file keeps the two directions of the index in agreement.
pub remove_file-Consistent :
    (file lang : String) (index : Index)
    → Consistent index.redis
    → Consistent (remove_file file lang index).redis
unfolding remove_file
remove_file-Consistent file lang index c =
    removed-Consistent file lang (index.redis (file_key lang file)) index refl c

removed-empty :
    (file lang : String) (hs : List String) (h : String) (index : Index)
    → index.redis (file_key lang file) ≡ hs
    → has h ((removed file lang hs index).redis (file_key lang file)) ≡ false
unfolding has
removed-empty file lang [] h index e = rw e
removed-empty file lang (g ∷ gs) h index e = rw (str_eq_refl lang, str_eq_refl file)

-- After its removal a file stands in no set of the language and has no hashes.
pub remove_file-forgets :
    (file lang h : String) (index : Index)
    → Consistent index.redis
    → (has file ((remove_file file lang index).redis (hash_key lang h)) ≡ false)
      × (has h ((remove_file file lang index).redis (file_key lang file)) ≡ false)
unfolding remove_file
remove_file-forgets file lang h index c =
    let hs = index.redis (file_key lang file) in
    let gone = removed-empty file lang hs h index refl in
    (remove_file-Consistent file lang index c lang h file ∙ gone, gone)

-- After a file is indexed its set holds the hashes of its fingerprints and those that it held before.
pub add_file_fingerprints-recorded :
    (file : String) (hs : List ℕ) (lang h : String) (index : Index)
    → has h ((add_file_fingerprints file hs lang index).redis (file_key lang file))
      ≡ has h (index.redis (file_key lang file)) || has h (map str hs)
unfolding add_file_fingerprints has
add_file_fingerprints-recorded file [] lang h index =
    sym (or-false (has h (index.redis (file_key lang file))))
add_file_fingerprints-recorded file (g ∷ gs) lang h index =
    let values = hash_set (g ∷ gs) in
    let s' = sadd_file lang file (map str (g ∷ gs)) index.redis in
    let b = sadd_all-recorded lang file values s' lang h file in
    let at_file = sadd_file-file_key lang file (map str (g ∷ gs)) index.redis lang file in
    rw (b, at_file, str_eq_refl lang, str_eq_refl file, has-hash_set h (g ∷ gs))
