-- ===== src/Worker/Cache/Dicts.antt =====
-- The dicts in which worker/infrastructure/redis_cache.py keeps fingerprints as JSON, and how they are read back.
use rest_api_plagiarism.Prelude.{
  ℕ, String, str_eq, Option, none, some, List, [], ◌∷◌, if◌then◌else◌,
}
use rest_api_plagiarism.Fingerprint.Core.{Point, Fp}

-- What the dicts of the JSON texts hold.
pub data Json : Type 0 where
  number : ℕ → Json
  array : List ℕ → Json

abbrev pub JsonDict : Type 0
JsonDict = List (String × Json)

-- The dict that is dumped for a fingerprint; `list` makes lists of its points.
abbrev pub dict_of : Fp → JsonDict
dict_of fp =
    ("hash", number fp.hash)
    ∷ ("start", array (fp.start.0 ∷ fp.start.1 ∷ []))
    ∷ ("end", array (fp.end.0 ∷ fp.end.1 ∷ []))
    ∷ ("kgram_idx", number fp.kgram_idx)
    ∷ []

unfoldable pub field : String → JsonDict → Option Json
field key [] = none
field key ((k, v) ∷ rest) = let later = field key rest in if str_eq k key then some v else later

abbrev pub number_of : Option Json → Option ℕ
number_of none = none
number_of (some (number n)) = some n
number_of (some (array ns)) = none

-- `tuple` of a point.
abbrev pub point_of : Option Json → Option Point
point_of none = none
point_of (some (number n)) = none
point_of (some (array [])) = none
point_of (some (array (x ∷ []))) = none
point_of (some (array (x ∷ y ∷ []))) = some (x, y)
point_of (some (array (x ∷ y ∷ z ∷ ns))) = none

-- `fp.get('kgram_idx', 0)`
abbrev pub index_of : Option Json → Option ℕ
index_of none = some 0
index_of (some v) = number_of (some v)

abbrev pub built : Option ℕ → Option Point → Option Point → Option ℕ → Option Fp
built (some h) (some s) (some e) (some i) =
    some (record { hash = h; start = s; end = e; kgram_idx = i })
built none s e i = none
built (some h) none e i = none
built (some h) (some s) none i = none
built (some h) (some s) (some e) none = none

abbrev pub fp_of : JsonDict → Option Fp
fp_of d =
    built (number_of (field "hash" d)) (point_of (field "start" d)) (point_of (field "end" d))
      (index_of (field "kgram_idx" d))

abbrev pub cons_fp : Option Fp → Option (List Fp) → Option (List Fp)
cons_fp none fps = none
cons_fp (some fp) none = none
cons_fp (some fp) (some fps) = some (fp ∷ fps)

-- The fingerprints of a text. A text with other dicts, on which the source raises, is read as none; no method of the
-- cache writes one.
unfoldable pub fps_of : List JsonDict → Option (List Fp)
unfolding field
fps_of [] = some []
fps_of (d ∷ ds) = cons_fp (fp_of d) (fps_of ds)
