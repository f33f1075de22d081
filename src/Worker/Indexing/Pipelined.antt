-- ===== src/Worker/Indexing/Pipelined.antt =====
-- `ensure_files_indexed` of worker/services/indexing_service.py against indexing one file after the other.
use rest_api_plagiarism.Prelude.{
  ℕ, ◌+◌, String, str, Option, none, some, List, [], ◌∷◌, ◌++◌, map, length, leb, ◌≡◌, refl, sym,
  ap, ◌∙◌, inl, inr, Bool-cases, subst,
}
use rest_api_plagiarism.Fingerprint.Core.{Fp}
use rest_api_plagiarism.Worker.Calls.{FileInfo, Outcome, done, raised}
use rest_api_plagiarism.Worker.Cache.{
  Moment, Moments, Cache, batch_get, file_hash_of, ensure_fingerprinted,
}
use rest_api_plagiarism.Worker.Index.{
  hash_key, file_key, Store, sadd, sadd_all, sadd_file, Index, hash_set, add_file_fingerprints,
}
use rest_api_plagiarism.Worker.Index.Agreement.{Consistent, add_file_fingerprints-Consistent}
use rest_api_plagiarism.Worker.Indexing.{
  hashes_of, Command, queued_sadd, execute, file_commands, Prints, prints_of, put_prints, Indexing,
  flushed, queue_file, fingerprinted, index_known, index_loop, valid_infos, cached_prints,
  ensure_files_indexed, max_pipe_count,
}

-- The indexing of one file after the other, without a pipeline, is the specification.
pub record Sequential : Type 0 where
  pub cache : Cache
  pub prints : Prints
  pub index : Index

abbrev pub added : String → String → List Fp → Sequential → Sequential
added file lang fps p = record p { index = add_file_fingerprints file (hashes_of fps) lang p.index }

abbrev pub each_new : String → String → Outcome (List Fp) × Cache → Sequential → Sequential
each_new file lang (raised e, cache) p = record p { cache = cache }
each_new file lang (done fps, cache) p =
    added file lang fps (record p { cache = cache; prints = put_prints file fps p.prints })

module _ (moments : FileInfo → Moments) (generate : FileInfo → Outcome (List Fp × List ℕ))
    (lang : String) where
  abbrev pub each_known : FileInfo → Option (List Fp) → Sequential → Sequential
  each_known info (some fps) p = added (file_hash_of info) lang fps p
  each_known info none p =
      each_new (file_hash_of info) lang
        (ensure_fingerprinted (moments info) (generate info) info p.cache) p

  abbrev pub index_each : List FileInfo → Sequential → Sequential
  index_each [] p = p
  index_each (info ∷ infos) p =
      index_each infos (each_known info (prints_of (file_hash_of info) p.prints) p)

-- The files indexed one after the other, from what the cache has of them.
abbrev pub sequentially :
    Moment
    → (FileInfo → Moments)
    → (FileInfo → Outcome (List Fp × List ℕ))
    → String
    → List FileInfo
    → Cache
    → Index
    → Sequential
sequentially first moments generate lang files cache index =
    let infos = valid_infos files in
    index_each moments generate lang infos (record {
      cache = cache;
      prints = cached_prints (batch_get first (map file_hash_of infos) cache) [];
      index = index;
    })

execute-append : (a b : List Command) (s : Store) → execute (a ++ b) s ≡ execute b (execute a s)
unfolding execute
execute-append [] b s = refl
execute-append (queued_sadd k ms ∷ a) b s = execute-append a b (sadd_all k ms s)

execute-files :
    (file lang : String) (hs : List ℕ) (cs : List Command) (s : Store)
    → execute (map (λ h. queued_sadd (hash_key lang (str h)) (file ∷ [])) hs ++ cs) s
      ≡ execute cs (sadd_file lang file (map str hs) s)
unfolding execute sadd_file sadd_all
execute-files file lang [] cs s = refl
execute-files file lang (h ∷ hs) cs s =
    execute-files file lang hs cs (sadd (hash_key lang (str h)) file s)

execute-file_commands :
    (file lang : String) (h : ℕ) (hs : List ℕ) (index : Index)
    → execute (file_commands file lang (h ∷ hs)) index.redis
      ≡ (add_file_fingerprints file (h ∷ hs) lang index).redis
unfolding execute file_commands add_file_fingerprints
execute-file_commands file lang h hs index =
    execute-files file lang (h ∷ hs) (queued_sadd (file_key lang file) (hash_set (h ∷ hs)) ∷ [])
      index.redis

-- The commands that wait lead from the sets of Redis to the sets of the specification.
pub record Agrees (st : Indexing) (p : Sequential) : Type 0 where
  pub same_cache : st.cache ≡ p.cache
  pub same_prints : st.prints ≡ p.prints
  pub pending : execute st.pipe st.redis ≡ p.index.redis

flushed-Agrees :
    (count : ℕ) (commands : List Command) (st : Indexing) (p : Sequential)
    → st.cache ≡ p.cache
    → st.prints ≡ p.prints
    → execute commands st.redis ≡ p.index.redis
    → Agrees (flushed count commands st) p
unfolding execute
flushed-Agrees count commands st p c d e = elim (Bool-cases (leb max_pipe_count count)) [
  | inl y ↦ rw y (record { same_cache = c; same_prints = d; pending = e })
  | inr n ↦ rw n (record { same_cache = c; same_prints = d; pending = e })
]

queue_file-Agrees :
    (file lang : String) (fps : List Fp) (st : Indexing) (p : Sequential)
    → Agrees st p
    → Agrees (queue_file file lang fps st) (added file lang fps p)
unfolding queue_file add_file_fingerprints
queue_file-Agrees file lang [] st p a = record {
  same_cache = a.same_cache;
  same_prints = a.same_prints;
  pending = a.pending;
}
queue_file-Agrees file lang (fp ∷ fps) st p a =
    let hs = hashes_of (fp ∷ fps) in
    flushed-Agrees (st.pipe_count + length hs + 1) (st.pipe ++ file_commands file lang hs) st
      (added file lang (fp ∷ fps) p) a.same_cache a.same_prints
      (execute-append st.pipe (file_commands file lang hs) st.redis
        ∙ ap (execute (file_commands file lang hs)) a.pending
        ∙ execute-file_commands file lang fp.hash (hashes_of fps) p.index)

module _ (moments : FileInfo → Moments) (generate : FileInfo → Outcome (List Fp × List ℕ))
    (lang : String) where
  fingerprinted-Agrees :
      (file : String) (result : Outcome (List Fp) × Cache) (st : Indexing) (p : Sequential)
      → Agrees st p
      → Agrees (fingerprinted file lang result st) (each_new file lang result p)
  fingerprinted-Agrees file (raised e, cache) st p a = record {
    same_cache = refl;
    same_prints = a.same_prints;
    pending = a.pending;
  }
  fingerprinted-Agrees file (done fps, cache) st p a =
      queue_file-Agrees file lang fps
        (record st { cache = cache; prints = put_prints file fps st.prints })
        (record p { cache = cache; prints = put_prints file fps p.prints })
        (record {
          same_cache = refl;
          same_prints = ap (put_prints file fps) a.same_prints;
          pending = a.pending;
        })

  index_known-Agrees :
      (info : FileInfo) (known : Option (List Fp)) (st : Indexing) (p : Sequential)
      → Agrees st p
      → Agrees
          (index_known moments generate lang info known st)
          (each_known moments generate lang info known p)
  index_known-Agrees info (some fps) st p a = queue_file-Agrees (file_hash_of info) lang fps st p a
  index_known-Agrees info none st p a =
      let file = file_hash_of info in
      subst
        (λ c.
          Agrees
            (fingerprinted file lang (ensure_fingerprinted (moments info) (generate info) info c)
              st)
            (each_known moments generate lang info none p))
        (sym a.same_cache)
        (fingerprinted-Agrees file
          (ensure_fingerprinted (moments info) (generate info) info p.cache) st p a)

  index_loop-Agrees :
      (infos : List FileInfo) (st : Indexing) (p : Sequential)
      → Agrees st p
      → Agrees
          (index_loop moments generate lang infos st)
          (index_each moments generate lang infos p)
  unfolding index_loop
  index_loop-Agrees [] st p a = a
  index_loop-Agrees (info ∷ infos) st p a =
      let known = prints_of (file_hash_of info) p.prints in
      subst
        (λ ps.
          Agrees
            (index_loop moments generate lang infos
              (index_known moments generate lang info (prints_of (file_hash_of info) ps) st))
            (index_each moments generate lang (info ∷ infos) p))
        (sym a.same_prints)
        (index_loop-Agrees infos (index_known moments generate lang info known st)
          (each_known moments generate lang info known p) (index_known-Agrees info known st p a))

triple :
    {A B C : Type 0} {a a' : A} {b b' : B} {c c' : C}
    → a ≡ a'
    → b ≡ b'
    → c ≡ c'
    → ◌≡◌ {A = A × B × C} (a, b, c) (a', b', c')
triple e f g = rw (e, f, g)

-- `ensure_files_indexed` returns what indexing the files one after the other returns, and leaves the same cache and
-- the same sets in Redis, wherever its pipeline is sent.
pub ensure_files_indexed-sequentially :
    (first : Moment) (moments : FileInfo → Moments)
    (generate : FileInfo → Outcome (List Fp × List ℕ)) (lang : String) (files : List FileInfo)
    (cache : Cache) (index : Index)
    → let p = sequentially first moments generate lang files cache index in
      ensure_files_indexed first moments generate lang files cache index.redis
      ≡ (p.prints, p.cache, p.index.redis)
unfolding ensure_files_indexed execute
ensure_files_indexed-sequentially first moments generate lang files cache index =
    let infos = valid_infos files in
    let prints = cached_prints (batch_get first (map file_hash_of infos) cache) [] in
    let st : Indexing = record {
      cache = cache;
      prints = prints;
      redis = index.redis;
      pipe = [];
      pipe_count = 0;
    } in
    let p : Sequential = record { cache = cache; prints = prints; index = index } in
    let start : Agrees st p = record { same_cache = refl; same_prints = refl; pending = refl } in
    let a = index_loop-Agrees moments generate lang infos st p start in
    triple a.same_prints a.same_cache a.pending

module _ (moments : FileInfo → Moments) (generate : FileInfo → Outcome (List Fp × List ℕ))
    (lang : String) where
  each_known-Consistent :
      (info : FileInfo) (known : Option (List Fp)) (p : Sequential)
      → Consistent p.index.redis
      → Consistent (each_known moments generate lang info known p).index.redis
  each_known-Consistent info (some fps) p c =
      add_file_fingerprints-Consistent (file_hash_of info) (hashes_of fps) lang p.index c
  each_known-Consistent info none p c =
      each_new-Consistent (ensure_fingerprinted (moments info) (generate info) info p.cache)
    where
      each_new-Consistent :
          (result : Outcome (List Fp) × Cache)
          → Consistent (each_new (file_hash_of info) lang result p).index.redis
      each_new-Consistent (raised e, cache) = c
      each_new-Consistent (done fps, cache) =
          add_file_fingerprints-Consistent (file_hash_of info) (hashes_of fps) lang p.index c

  index_each-Consistent :
      (infos : List FileInfo) (p : Sequential)
      → Consistent p.index.redis
      → Consistent (index_each moments generate lang infos p).index.redis
  index_each-Consistent [] p c = c
  index_each-Consistent (info ∷ infos) p c =
      let known = prints_of (file_hash_of info) p.prints in
      index_each-Consistent infos (each_known moments generate lang info known p)
        (each_known-Consistent info known p c)

-- `ensure_files_indexed` keeps the two directions of the inverted index in agreement, the files of which parsing
-- raises an exception included.
pub ensure_files_indexed-Consistent :
    (first : Moment) (moments : FileInfo → Moments)
    (generate : FileInfo → Outcome (List Fp × List ℕ)) (lang : String) (files : List FileInfo)
    (cache : Cache) (index : Index)
    → Consistent index.redis
    → Consistent (ensure_files_indexed first moments generate lang files cache index.redis).2
ensure_files_indexed-Consistent first moments generate lang files cache index c =
    let infos = valid_infos files in
    let prints = cached_prints (batch_get first (map file_hash_of infos) cache) [] in
    let p : Sequential = record { cache = cache; prints = prints; index = index } in
    rw (ensure_files_indexed-sequentially first moments generate lang files cache index)
      (index_each-Consistent moments generate lang infos p c)
