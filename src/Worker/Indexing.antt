-- ===== src/Worker/Indexing.antt =====
-- worker/services/indexing_service.py: `index_file` and `ensure_files_indexed`, which indexes through a pipeline.
-- `generate` gives the outcome of parsing, hashing and winnowing a file, `first` is the moment of the look for all
-- files, and `moments` are those at which a file that is left is looked for and cached; Redis answers the pipeline.
pub mod Pipelined
use rest_api_plagiarism.Prelude.{
  ℕ, ◌+◌, String, str, str_eq, Bool, true, false, Option, none, some, List, [], ◌∷◌, ◌++◌, map,
  length, leb, if◌then◌else◌,
}
use rest_api_plagiarism.Fingerprint.Core.{Fp}
use rest_api_plagiarism.Worker.Calls.{FileInfo, Outcome, done, raised}
use rest_api_plagiarism.Worker.Cache.{
  Moment, Moments, Cache, FileData, batch_get, file_hash_of, ensure_fingerprinted,
}
use rest_api_plagiarism.Worker.Index.{
  Key, hash_key, file_key, Store, sadd_all, Index, hash_set, add_file_fingerprints,
}

abbrev pub hashes_of : List Fp → List ℕ
hashes_of fps = map (λ fp. fp.hash) fps

abbrev pub indexed : String → String → Outcome (List Fp) × Cache → Index → Cache × Index
indexed file lang (done fps, cache) index =
    (cache, add_file_fingerprints file (hashes_of fps) lang index)
indexed file lang (raised e, cache) index = (cache, index)

-- `index_file`
unfoldable index_file :
    Moments → Outcome (List Fp × List ℕ) → FileInfo → String → Cache → Index → Cache × Index
index_file moments generate info lang cache index =
    let file = file_hash_of info in
    let result = indexed file lang (ensure_fingerprinted moments generate info cache) index in
    if str_eq file ""
    then (cache, index)
    else if str_eq info.path ""
    then (cache, index)
    else result

-- SADD as it waits in the pipeline.
pub data Command : Type 0 where
  queued_sadd : Key → List String → Command

abbrev pub run_command : Command → Store → Store
run_command (queued_sadd k ms) s = sadd_all k ms s

pub execute : List Command → Store → Store
execute [] s = s
execute (c ∷ cs) s = execute cs (run_command c s)

abbrev pub max_pipe_count : ℕ
max_pipe_count = 200

-- The commands of one file.
pub file_commands : String → String → List ℕ → List Command
file_commands file lang hs =
    map (λ h. queued_sadd (hash_key lang (str h)) (file ∷ [])) hs
    ++ queued_sadd (file_key lang file) (hash_set hs) ∷ []

-- A dict of fingerprints.
abbrev pub Prints : Type 0
Prints = List (String × List Fp)

unfoldable pub prints_of : String → Prints → Option (List Fp)
prints_of file [] = none
prints_of file ((f, fps) ∷ rest) = if str_eq f file then some fps else prints_of file rest

pub put_prints : String → List Fp → Prints → Prints
put_prints file fps [] = (file, fps) ∷ []
put_prints file fps ((f, old) ∷ rest) =
    if str_eq f file then (f, fps) ∷ rest else (f, old) ∷ put_prints file fps rest

-- The variables of the loop.
pub record Indexing : Type 0 where
  pub cache : Cache
  pub prints : Prints
  pub redis : Store
  pub pipe : List Command
  pub pipe_count : ℕ

-- The pipeline once a file is in it.
abbrev pub flushed : ℕ → List Command → Indexing → Indexing
flushed count commands st =
    if leb max_pipe_count count
    then record st { redis = execute commands st.redis; pipe = []; pipe_count = 0 }
    else record st { pipe = commands; pipe_count = count }

pub queue_file : String → String → List Fp → Indexing → Indexing
queue_file file lang [] st = st
queue_file file lang (fp ∷ fps) st =
    let hs = hashes_of (fp ∷ fps) in
    flushed (st.pipe_count + length hs + 1) (st.pipe ++ file_commands file lang hs) st

-- A file that is not in the dict is fingerprinted; where that fails it is left out.
abbrev pub fingerprinted : String → String → Outcome (List Fp) × Cache → Indexing → Indexing
fingerprinted file lang (raised e, cache) st = record st { cache = cache }
fingerprinted file lang (done fps, cache) st =
    queue_file file lang fps (record st { cache = cache; prints = put_prints file fps st.prints })

module _ (moments : FileInfo → Moments) (generate : FileInfo → Outcome (List Fp × List ℕ))
    (lang : String) where
  abbrev pub index_known : FileInfo → Option (List Fp) → Indexing → Indexing
  index_known info (some fps) st = queue_file (file_hash_of info) lang fps st
  index_known info none st =
      fingerprinted (file_hash_of info) lang
        (ensure_fingerprinted (moments info) (generate info) info st.cache) st

  -- The loop over the files.
  pub index_loop : List FileInfo → Indexing → Indexing
  index_loop [] st = st
  index_loop (info ∷ infos) st =
      index_loop infos (index_known info (prints_of (file_hash_of info) st.prints) st)

unfoldable pub valid_infos : List FileInfo → List FileInfo
valid_infos [] = []
valid_infos (info ∷ infos) =
    let rest = valid_infos infos in if str_eq (file_hash_of info) "" then rest else info ∷ rest

abbrev pub cached_entry : String → Option (List Fp) → Option (List ℕ) → Prints → Prints
cached_entry file (some fps) (some hs) prints = put_prints file fps prints
cached_entry file (some fps) none prints = prints
cached_entry file none hs prints = prints

-- What the cache has of the files, both fingerprints and subtree hashes.
unfoldable pub cached_prints : List (String × FileData) → Prints → Prints
unfolding put_prints
cached_prints [] prints = prints
cached_prints ((file, found) ∷ rest) prints =
    cached_prints rest (cached_entry file found.fingerprints found.ast_hashes prints)

-- `ensure_files_indexed`: the dict that it returns, and the cache and the sets of Redis behind it.
pub ensure_files_indexed :
    Moment
    → (FileInfo → Moments)
    → (FileInfo → Outcome (List Fp × List ℕ))
    → String
    → List FileInfo
    → Cache
    → Store
    → Prints × Cache × Store
unfolding batch_get
ensure_files_indexed first moments generate lang files cache redis =
    let infos = valid_infos files in
    let st = index_loop moments generate lang infos (record {
      cache = cache;
      prints = cached_prints (batch_get first (map file_hash_of infos) cache) [];
      redis = redis;
      pipe = [];
      pipe_count = 0;
    }) in
    (st.prints, st.cache, execute st.pipe st.redis)
