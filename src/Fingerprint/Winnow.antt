-- ===== src/Fingerprint/Winnow.antt =====
-- The single pass of `compute_and_winnow` against the two passes of `compute_fingerprints` and
-- `winnow_fingerprints`: the deque and the scan of each window select the same hashes.
use rest_api_plagiarism.Prelude.{
  ℕ, zero, suc, ◌+◌, ◌-◌, ◌<◌, ◌≤◌, ◌%◌, ◌^◌, ◌≡◌, refl, ap, ◌∙◌, String, some, List, map, arith,
  ltb, Bool-cases, inl, inr, length, length-map, get_or, get_or-map, get_or_in_range,
}
use rest_api_plagiarism.Fingerprint.Rolling.{roll}
use rest_api_plagiarism.Fingerprint.Core.{
  Token, Fp, no_token, token_at, kind_hash, first_hash, compute_fingerprints, roll_fingerprints,
  winnow_fingerprints, Winnowing, process_kgram, roll_and_winnow, compute_and_winnow,
}
use rest_api_plagiarism.Fingerprint.Kgrams.{kgrams_from, compute_fingerprints-eq-kgrams}
use rest_api_plagiarism.Fingerprint.Minima.{Numbered}
use rest_api_plagiarism.Fingerprint.Feed.{
  hashes_of, feed, feed_all, start_state, winnow_fingerprints-feed_all,
}

hash_lookup :
    (xxh64 : String → ℕ) (tokens : List Token) (i : ℕ)
    → i < length tokens
    → get_or (map (kind_hash xxh64) tokens) i 0 ≡ kind_hash xxh64 (token_at tokens i)
hash_lookup xxh64 tokens i lt =
    get_or_in_range (map (kind_hash xxh64) tokens) i 0 (kind_hash xxh64 no_token)
      (omega (arith, length-map (kind_hash xxh64) tokens))
    ∙ get_or-map (kind_hash xxh64) tokens i no_token

process_kgram-feed :
    (tokens : List Token) (k w h idx e : ℕ) (s : Winnowing)
    → idx + k - 1 ≡ e
    → process_kgram tokens k w h idx s
      ≡ feed w s (record {
        hash = h;
        start = (token_at tokens idx).start;
        end = (token_at tokens e).end;
        kgram_idx = idx;
      })
unfolding process_kgram feed
process_kgram-feed tokens k w h idx e s eq = rw eq

module _ (xxh64 : String → ℕ) (tokens : List Token) (k base m power w : ℕ) where
  roll_and_winnow-feed_all :
      (rounds i h : ℕ) (s : Winnowing)
      → 0 < k
      → k ≤ i
      → i + rounds ≤ length tokens
      → roll_and_winnow tokens (map (kind_hash xxh64) tokens) k base m power w rounds i h s
        ≡ feed_all w s (roll_fingerprints xxh64 tokens k base m power rounds i h)
  unfolding roll_and_winnow roll_fingerprints feed_all
  roll_and_winnow-feed_all zero i h s pk le lt = refl
  roll_and_winnow-feed_all (suc rounds) i h s pk le lt =
      let old = hash_lookup xxh64 tokens (i - k) (omega arith) in
      let new = hash_lookup xxh64 tokens i (omega arith) in
      let h' : ℕ =
        roll base m power h (kind_hash xxh64 (token_at tokens (i - k)))
          (kind_hash xxh64 (token_at tokens i)) in
      rw (old, new, process_kgram-feed tokens k w h' (i - k + 1) i s (omega arith))
        (roll_and_winnow-feed_all rounds (i + 1) h' _ pk (omega arith) (omega arith))

module _ (xxh64 : String → ℕ) (tokens : List Token) (k base m w : ℕ) where
  -- The single pass feeds the k-grams of `compute_fingerprints` to the deque.
  compute_and_winnow-feed_all :
      0 < k
      → compute_and_winnow xxh64 tokens k base m w
        ≡ (feed_all w start_state (compute_fingerprints xxh64 tokens k base m)).winnowed
  unfolding compute_and_winnow compute_fingerprints
  compute_and_winnow-feed_all pk = elim (Bool-cases (ltb (length tokens) k)) [
    | inl short ↦ rw short (unfold feed_all in refl)
    | inr long ↦
        let h : ℕ = first_hash xxh64 tokens k base m in
        let power : ℕ = base ^ (k - 1) % m in
        let first = process_kgram-feed tokens k w h 0 (k - 1) start_state (omega arith) in
        rw (long, first)
          (ap (λ s. s.winnowed)
              (roll_and_winnow-feed_all xxh64 tokens k base m power w (length tokens - k) k h _ pk
                (omega arith) (ground arith))
            ∙ (unfold feed_all in refl))
  ]

kgrams_from-Numbered :
    (xxh64 : String → ℕ) (tokens : List Token) (k base m rounds i : ℕ)
    → Numbered i (kgrams_from xxh64 tokens k base m rounds i)
unfolding kgrams_from
kgrams_from-Numbered xxh64 tokens k base m zero i = tt
kgrams_from-Numbered xxh64 tokens k base m (suc rounds) i =
    let e : suc i ≡ i + 1 = omega arith in
    (refl, rw e (kgrams_from-Numbered xxh64 tokens k base m rounds (i + 1)))

-- With at least one token to a k-gram, a positive modulus and windows of one k-gram or more, the
-- scan of `winnow_fingerprints` over `compute_fingerprints` raises no error, and it selects the same
-- sequence of hashes as the single pass of `compute_and_winnow` does.
pub compute_and_winnow-eq-winnow_fingerprints :
    (xxh64 : String → ℕ) (tokens : List Token) (k base m w : ℕ)
    → 0 < k
    → 0 < m
    → 0 < w
    → (out : List Fp) × (winnow_fingerprints (compute_fingerprints xxh64 tokens k base m) w
        ≡ some out)
      × (hashes_of out ≡ hashes_of (compute_and_winnow xxh64 tokens k base m w))
compute_and_winnow-eq-winnow_fingerprints xxh64 tokens k base m zero pk pm pw = elim pw [ ]
compute_and_winnow-eq-winnow_fingerprints xxh64 tokens k base m (suc w) pk pm pw =
    let spec = compute_fingerprints-eq-kgrams xxh64 tokens k base m pk pm in
    let numbered : Numbered 0 (compute_fingerprints xxh64 tokens k base m) =
      rw spec (kgrams_from-Numbered xxh64 tokens k base m (length tokens + 1 - k) 0) in
    rw (compute_and_winnow-feed_all xxh64 tokens k base m (suc w) pk)
      (winnow_fingerprints-feed_all w (compute_fingerprints xxh64 tokens k base m) numbered)
