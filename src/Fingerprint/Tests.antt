-- ===== src/Fingerprint/Tests.antt =====
-- Runs of the fingerprinting functions, and their theorems at concrete inputs. The digest here is
-- the code of the first character.
use Prim.Native.Char.{code}
use Prim.Native.String.{String}
use mathlib.Core.Option
use rest_api_plagiarism.Prelude.{
  ℕ, ◌+◌, ◌-◌, ◌≡◌, refl, some, List, [], ◌∷◌, map, arith, length, Occurs,
}
use rest_api_plagiarism.Fingerprint.Rolling.{seed_hash, roll}
use rest_api_plagiarism.Fingerprint.Core.{
  Token, Fp, compute_fingerprints, winnow_fingerprints, compute_and_winnow, process_kgram, least,
  push_new,
}
use rest_api_plagiarism.Fingerprint.Kgrams.{kgrams_from, compute_fingerprints-eq-kgrams}
use rest_api_plagiarism.Fingerprint.Feed.{hashes_of}
use rest_api_plagiarism.Fingerprint.Winnow.{compute_and_winnow-eq-winnow_fingerprints}
use rest_api_plagiarism.Fingerprint.Shared.{shared_run_shares_hash}

abbrev first_code : String → ℕ
first_code String.[] = 0
first_code (String.◌∷◌ c s) = code c

abbrev token : String → ℕ → Token
token kind col = record { kind = kind; start = (0, col); end = (0, col + 1) }

abbrev left_file : List Token
left_file =
    token "c" 0
    ∷ token "a" 1
    ∷ token "d" 2
    ∷ token "a" 3
    ∷ token "b" 4
    ∷ token "e" 5
    ∷ token "a" 6
    ∷ []

abbrev right_file : List Token
right_file = token "z" 0 ∷ token "a" 1 ∷ token "d" 2 ∷ token "a" 3 ∷ token "b" 4 ∷ []

kgram_hashes :
    hashes_of (compute_fingerprints first_code left_file 2 10 1000)
    ≡ 87 ∷ 70 ∷ 97 ∷ 68 ∷ 81 ∷ 107 ∷ []
unfolding compute_fingerprints seed_hash roll
kgram_hashes = refl

compute_fingerprints-eq-kgrams_example :
    compute_fingerprints first_code left_file 2 10 1000
    ≡ kgrams_from first_code left_file 2 10 1000 (length left_file + 1 - 2) 0
compute_fingerprints-eq-kgrams_example =
    compute_fingerprints-eq-kgrams first_code left_file 2 10 1000 (omega arith) (omega arith)

compute_and_winnow-eq-winnow_fingerprints_example :
    (out : List Fp) × (winnow_fingerprints (compute_fingerprints first_code left_file 2 10 1000) 3
      ≡ some out)
    × (hashes_of out ≡ hashes_of (compute_and_winnow first_code left_file 2 10 1000 3))
compute_and_winnow-eq-winnow_fingerprints_example =
    compute_and_winnow-eq-winnow_fingerprints first_code left_file 2 10 1000 3 (omega arith)
      (omega arith) (omega arith)

-- The run "a d a b" stands at token 1 of both files.
shared_run_shares_hash_example :
    (h : ℕ) × Occurs h (hashes_of (compute_and_winnow first_code left_file 2 10 1000 3))
    × Occurs h (hashes_of (compute_and_winnow first_code right_file 2 10 1000 3))
shared_run_shares_hash_example =
    shared_run_shares_hash first_code left_file right_file 2 10 1000 3 1 1 (omega arith)
      (omega arith) (omega arith) (omega arith) (omega arith) refl

selected_hashes : hashes_of (compute_and_winnow first_code left_file 2 10 1000 3) ≡ 70 ∷ 68 ∷ []
unfolding compute_and_winnow process_kgram seed_hash roll
selected_hashes = refl

-- Among equal hashes the scan keeps the first and the deque the last, so the positions differ.
abbrev repeated : List Token
repeated = token "a" 0 ∷ token "a" 1 ∷ token "a" 2 ∷ []

scan_takes_first :
    Option.map
      (map (λ f. f.kgram_idx))
      (winnow_fingerprints (compute_fingerprints first_code repeated 1 10 1000) 2)
    ≡ some (0 ∷ [])
unfolding winnow_fingerprints compute_fingerprints least push_new seed_hash roll
scan_takes_first = refl

deque_takes_last :
    map (λ f. f.kgram_idx) (compute_and_winnow first_code repeated 1 10 1000 2) ≡ 1 ∷ []
unfolding compute_and_winnow process_kgram seed_hash roll
deque_takes_last = refl

abbrev indexed : List Fp
indexed = compute_and_winnow first_code left_file 2 10 1000 3
