-- ===== src/Fingerprint/Kgrams.antt =====
-- The k-grams of fingerprinting/core.py: the rolling loop computes each window's own polynomial.
use native.Mathlib.Nat.{zero-mod}
use rest_api_plagiarism.Prelude.{
  ℕ, zero, suc, ◌+◌, ◌-◌, ◌%◌, ◌^◌, ◌<◌, ◌≤◌, ◌≡◌, refl, ap, sym, String, List, [], ◌∷◌, ◌++◌, map,
  arith, ltb, Bool-cases, inl, inr, length, get_or, take, drop, length-map, get_or-map,
  take-drop-cons, take-drop-snoc, length-take-drop,
}
use rest_api_plagiarism.Fingerprint.Rolling.{roll, horner, seed_hash-eq-horner, roll-eq-horner}
use rest_api_plagiarism.Fingerprint.Core.{
  Token, Fp, no_token, token_at, kind_hash, roll_fingerprints, first_hash, compute_fingerprints,
}

module _ (xxh64 : String → ℕ) (tokens : List Token) (k base m : ℕ) where
  -- The polynomial of the k tokens from `i` on, computed with no rolling.
  abbrev pub window_hash : ℕ → ℕ
  window_hash i = horner base 0 (take k (drop i (map (kind_hash xxh64) tokens))) % m

  -- The k-gram that begins at token `i`.
  abbrev pub kgram_at : ℕ → Fp
  kgram_at i = record {
    hash = window_hash i;
    start = (token_at tokens i).start;
    end = (token_at tokens (i + k - 1)).end;
    kgram_idx = i;
  }

  -- The k-grams of `rounds` consecutive positions from `i` on.
  unfoldable pub kgrams_from : ℕ → ℕ → List Fp
  kgrams_from zero i = []
  kgrams_from (suc rounds) i = kgram_at i ∷ kgrams_from rounds (i + 1)

module _ (xxh64 : String → ℕ) (tokens : List Token) (k base m : ℕ) (pos_m : 0 < m) where
  abbrev hashes : List ℕ
  hashes = map (kind_hash xxh64) tokens

  hash_at :
      (i : ℕ) → kind_hash xxh64 (token_at tokens i) ≡ get_or hashes i (kind_hash xxh64 no_token)
  hash_at i = sym (get_or-map (kind_hash xxh64) tokens i no_token)

  -- One round takes the hash of the window at `j` to that of the window at `j + 1`.
  pub roll-window :
      (j : ℕ)
      → j + suc k < length tokens
      → roll base m
          (base ^ k % m)
          (window_hash xxh64 tokens (suc k) base m j)
          (kind_hash xxh64 (token_at tokens j))
          (kind_hash xxh64 (token_at tokens (j + suc k)))
        ≡ window_hash xxh64 tokens (suc k) base m (j + 1)
  roll-window j h =
      let d : ℕ = kind_hash xxh64 no_token in
      let w : List ℕ = take k (drop (suc j) hashes) in
      let x : ℕ = get_or hashes j d in
      let t : ℕ = get_or hashes (suc j + k) d in
      let len : length hashes ≡ length tokens = length-map (kind_hash xxh64) tokens in
      let len_w : length w ≡ k = length-take-drop k (suc j) hashes (omega arith) in
      let before : take (suc k) (drop j hashes) ≡ x ∷ w =
        take-drop-cons k j hashes d (omega arith) in
      let after : take (suc k) (drop (suc j) hashes) ≡ w ++ t ∷ [] =
        take-drop-snoc k (suc j) hashes d (omega arith) in
      let core = rw len_w at (roll-eq-horner base m x w t pos_m) in
      let e : j + suc k ≡ suc j + k = omega arith in
      let e' : j + 1 ≡ suc j = omega arith in
      rw (hash_at j, e, hash_at (suc j + k), e', before, after) core

  roll_fingerprints-eq-kgrams :
      (rounds i j : ℕ) (h : ℕ)
      → i ≡ j + suc k
      → i + rounds ≤ length tokens
      → h ≡ window_hash xxh64 tokens (suc k) base m j
      → roll_fingerprints xxh64 tokens (suc k) base m (base ^ k % m) rounds i h
        ≡ kgrams_from xxh64 tokens (suc k) base m rounds (j + 1)
  unfolding roll_fingerprints kgrams_from
  roll_fingerprints-eq-kgrams zero i j h e le eh = refl
  roll_fingerprints-eq-kgrams (suc rounds) i j h e le eh =
      let old : i - suc k ≡ j = omega arith in
      let last : j + 1 + suc k - 1 ≡ j + suc k = omega arith in
      let next = roll-window j (omega arith) in
      let rest =
        roll_fingerprints-eq-kgrams rounds (i + 1) (j + 1)
          (window_hash xxh64 tokens (suc k) base m (j + 1)) (omega arith) (omega arith) refl in
      rw (old, last, eh, e, next)
        (ap
          (◌∷◌ (record (kgram_at xxh64 tokens (suc k) base m (j + 1)) {
            end = (token_at tokens (j + suc k)).end;
          }))
          (rw e at rest))

  first_hash-eq-window :
      first_hash xxh64 tokens (suc k) base m ≡ window_hash xxh64 tokens (suc k) base m 0
  first_hash-eq-window = rw zero-mod at (seed_hash-eq-horner base m 0 (take (suc k) hashes))

  compute_fingerprints-suc :
      compute_fingerprints xxh64 tokens (suc k) base m
      ≡ kgrams_from xxh64 tokens (suc k) base m (length tokens - k) 0
  unfolding compute_fingerprints kgrams_from
  compute_fingerprints-suc = elim (Bool-cases (ltb (length tokens) (suc k))) [
    | inl short ↦ let none_left : length tokens - k ≡ 0 = ground arith in rw (short, none_left)
    | inr long ↦
        let more : length tokens - k ≡ suc (length tokens - suc k) = ground arith in
        let k' : suc k - 1 ≡ k = omega arith in
        let last : 0 + suc k - 1 ≡ k = omega arith in
        let one : 0 + 1 ≡ 1 = refl in
        let rest =
          roll_fingerprints-eq-kgrams (length tokens - suc k) (suc k) 0
            (first_hash xxh64 tokens (suc k) base m) (omega arith) (ground arith)
            first_hash-eq-window in
        rw (long, more, k', first_hash-eq-window, last)
          (ap
            (◌∷◌
              (record (kgram_at xxh64 tokens (suc k) base m 0) { end = (token_at tokens k).end }))
            (rw first_hash-eq-window at rest))
  ]

-- With at least one token to a k-gram and a positive modulus, `compute_fingerprints` returns one
-- fingerprint for each position at which k tokens are left, none when the file is shorter than k:
-- its hash is the window's own polynomial modulo `m`, computed with no rolling, its start is that of
-- the window's first token, its end that of the last, and its index is the position.
pub compute_fingerprints-eq-kgrams :
    (xxh64 : String → ℕ) (tokens : List Token) (k base m : ℕ)
    → 0 < k
    → 0 < m
    → compute_fingerprints xxh64 tokens k base m
      ≡ kgrams_from xxh64 tokens k base m (length tokens + 1 - k) 0
compute_fingerprints-eq-kgrams xxh64 tokens zero base m pos_k pos_m = elim pos_k [ ]
compute_fingerprints-eq-kgrams xxh64 tokens (suc k) base m pos_k pos_m =
    let e : length tokens + 1 - suc k ≡ length tokens - k = omega arith in
    rw e (compute_fingerprints-suc xxh64 tokens k base m pos_m)
