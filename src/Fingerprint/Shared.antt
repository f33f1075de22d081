-- ===== src/Fingerprint/Shared.antt =====
-- What winnowing guarantees: a run of tokens that two files share, long enough to fill one window,
-- leaves the two files with a common fingerprint hash.
use rest_api_plagiarism.Prelude.{
  ℕ, zero, suc, ◌+◌, ◌-◌, ◌<◌, ◌≤◌, ◌%◌, min, ◌≡◌, refl, ap, sym, ◌∙◌, String, none, some, List, [],
  ◌∷◌, map, arith, false, Bool-cases, Option-cases, inl, inr, length, take, drop, Occurs,
  Occurs-append_left, Occurs-append_right, drop-drop, take-drop-take, map-take, map-drop,
}
use rest_api_plagiarism.Fingerprint.Rolling.{horner}
use rest_api_plagiarism.Fingerprint.Core.{
  Token, Fp, kind_hash, least, least_from, is_new, push_new, winnow_windows, winnow_fingerprints,
  compute_and_winnow,
}
use rest_api_plagiarism.Fingerprint.Kgrams.{
  kgrams_from, kgram_at, window_hash, compute_fingerprints-eq-kgrams,
}
use rest_api_plagiarism.Fingerprint.Minima.{lowest, least_from-eq-lowest}
use rest_api_plagiarism.Fingerprint.Feed.{hashes_of, hashes_of-append, winnow_windows_step}
use rest_api_plagiarism.Fingerprint.Winnow.{compute_and_winnow-eq-winnow_fingerprints}

not_new-Occurs : (ws : List Fp) (h : ℕ) → is_new ws h ≡ false → Occurs h (hashes_of ws)
not_new-Occurs [] h e = cc
not_new-Occurs (x ∷ []) h e = ground arith
not_new-Occurs (x ∷ y ∷ ws) h e = inr (not_new-Occurs (y ∷ ws) h e)

push_new-Occurs_self : (ws : List Fp) (fp : Fp) → Occurs fp.hash (hashes_of (push_new ws fp))
unfolding push_new
push_new-Occurs_self ws fp = elim (Bool-cases (is_new ws fp.hash)) [
  | inl e ↦
      rw (e, hashes_of-append)
        (Occurs-append_right fp.hash (hashes_of ws) (fp.hash ∷ []) (inl refl))
  | inr e ↦ rw e (not_new-Occurs ws fp.hash e)
]

push_new-Occurs :
    (ws : List Fp) (fp : Fp) (h : ℕ)
    → Occurs h (hashes_of ws)
    → Occurs h (hashes_of (push_new ws fp))
unfolding push_new
push_new-Occurs ws fp h o = elim (Bool-cases (is_new ws fp.hash)) [
  | inl e ↦ rw (e, hashes_of-append) (Occurs-append_left h (hashes_of ws) (fp.hash ∷ []) o)
  | inr e ↦ rw e o
]

winnow_windows_fails :
    (fps ws : List Fp) (w rounds i : ℕ)
    → least (take w (drop i fps)) ≡ none
    → winnow_windows fps w (suc rounds) i ws ≡ none
unfolding winnow_windows
winnow_windows_fails fps ws w rounds i e = rw (e, winnow_windows)

-- A round that returns has a least element, and the other rounds go on from it.
winnow_windows_round :
    (fps : List Fp) (w rounds i : ℕ) (ws out : List Fp)
    → winnow_windows fps w (suc rounds) i ws ≡ some out
    → (fp : Fp) × (least (take w (drop i fps)) ≡ some fp)
      × (winnow_windows fps w rounds (i + 1) (push_new ws fp) ≡ some out)
winnow_windows_round fps w rounds i ws out e = elim (Option-cases (least (take w (drop i fps)))) [
  | inl fails ↦ absurd (cc (winnow_windows_fails fps ws w rounds i fails))
  | inr (fp, found) ↦ (fp, found, sym (winnow_windows_step fps ws w rounds i fp found) ∙ e)
]

winnow_windows-Occurs :
    (fps : List Fp) (w rounds i : ℕ) (ws out : List Fp) (h : ℕ)
    → winnow_windows fps w rounds i ws ≡ some out
    → Occurs h (hashes_of ws)
    → Occurs h (hashes_of out)
winnow_windows-Occurs fps w zero i ws out h e o =
    let same : ws ≡ out = unfold winnow_windows in cc e in rw (← same) o
winnow_windows-Occurs fps w (suc rounds) i ws out h e o =
    let (fp, _, e') = winnow_windows_round fps w rounds i ws out e in
    winnow_windows-Occurs fps w rounds (i + 1) (push_new ws fp) out h e' (push_new-Occurs ws fp h o)

-- Each window of the scan has its least hash in the output.
winnow_windows_selects :
    (fps : List Fp) (w rounds i t : ℕ) (ws out : List Fp)
    → winnow_windows fps w rounds i ws ≡ some out
    → t < rounds
    → (fp : Fp) × (least (take w (drop (i + t) fps)) ≡ some fp) × Occurs fp.hash (hashes_of out)
winnow_windows_selects fps w zero i t ws out e lt = elim lt [ ]
winnow_windows_selects fps w (suc rounds) i zero ws out e lt =
    let (fp, found, e') = winnow_windows_round fps w rounds i ws out e in
    let here : i + zero ≡ i = omega arith in
    (
      fp,
      (rw here found),
      winnow_windows-Occurs fps w rounds (i + 1) (push_new ws fp) out fp.hash e'
          (push_new-Occurs_self ws fp),
    )
winnow_windows_selects fps w (suc rounds) i (suc t) ws out e lt =
    let (fp, _, e') = winnow_windows_round fps w rounds i ws out e in
    let next : i + suc t ≡ i + 1 + t = omega arith in
    rw next (winnow_windows_selects fps w rounds (i + 1) t (push_new ws fp) out e' (omega arith))

lowest-hashes : (b : ℕ) (xs ys : List Fp) → hashes_of xs ≡ hashes_of ys → lowest b xs ≡ lowest b ys
unfolding lowest
lowest-hashes b [] [] e = refl
lowest-hashes b [] (y ∷ ys) e = absurd (cc)
lowest-hashes b (x ∷ xs) [] e = absurd (cc)
lowest-hashes b (x ∷ xs) (y ∷ ys) e =
    let head : x.hash ≡ y.hash = cc in
    let tail : hashes_of xs ≡ hashes_of ys = cc in rw head (lowest-hashes (min b y.hash) xs ys tail)

-- The least hash of a window depends on the hashes alone.
least-hashes :
    (xs ys : List Fp) (a b : Fp)
    → hashes_of xs ≡ hashes_of ys
    → least xs ≡ some a
    → least ys ≡ some b
    → a.hash ≡ b.hash
unfolding least
least-hashes [] ys a b e p q = absurd (cc)
least-hashes (x ∷ xs) [] a b e p q = absurd (cc)
least-hashes (x ∷ xs) (y ∷ ys) a b e p q =
    let head : x.hash ≡ y.hash = cc in
    let tail : hashes_of xs ≡ hashes_of ys = cc in
    let pa : a ≡ least_from x xs = cc in
    let pb : b ≡ least_from y ys = cc in
    ap (λ f. f.hash) pa
    ∙ least_from-eq-lowest x xs
    ∙ ap (λ h. lowest h xs) head
    ∙ lowest-hashes y.hash xs ys tail
    ∙ sym (least_from-eq-lowest y ys)
    ∙ sym (ap (λ f. f.hash) pb)

module _ (xxh64 : String → ℕ) (tokens : List Token) (k base m : ℕ) where
  drop-kgrams :
      (t n j : ℕ)
      → drop t (kgrams_from xxh64 tokens k base m n j)
        ≡ kgrams_from xxh64 tokens k base m (n - t) (j + t)
  unfolding kgrams_from
  drop-kgrams zero n j =
      let e : n - zero ≡ n = omega arith in let e' : j + zero ≡ j = omega arith in rw (e, e')
  drop-kgrams (suc t) zero j = let e : zero - suc t ≡ zero = omega arith in rw e
  drop-kgrams (suc t) (suc n) j =
      let e : suc n - suc t ≡ n - t = omega arith in
      let e' : j + suc t ≡ j + 1 + t = omega arith in rw (e, e') (drop-kgrams t n (j + 1))

  take-kgrams :
      (w n j : ℕ)
      → w ≤ n
      → take w (kgrams_from xxh64 tokens k base m n j) ≡ kgrams_from xxh64 tokens k base m w j
  unfolding kgrams_from
  take-kgrams zero n j le = refl
  take-kgrams (suc w) zero j le = absurd (omega arith)
  take-kgrams (suc w) (suc n) j le =
      ap (◌∷◌ (kgram_at xxh64 tokens k base m j)) (take-kgrams w n (j + 1) (omega arith))

  -- A window of the k-grams is the k-grams of a window.
  window-kgrams :
      (w n i : ℕ)
      → i + w ≤ n
      → take w (drop i (kgrams_from xxh64 tokens k base m n 0))
        ≡ kgrams_from xxh64 tokens k base m w i
  window-kgrams w n i le =
      let e : 0 + i ≡ i = omega arith in
      rw (drop-kgrams i n 0, e) (take-kgrams w (n - i) i (omega arith))

  window_hash-slice :
      (i t n : ℕ)
      → t + k ≤ n
      → window_hash xxh64 tokens k base m (i + t)
        ≡ horner base 0 (take k (drop t (take n (drop i (map (kind_hash xxh64) tokens))))) % m
  window_hash-slice i t n le =
      rw
        (
          take-drop-take k t n (drop i (map (kind_hash xxh64) tokens)) le,
          drop-drop t i (map (kind_hash xxh64) tokens),
        )
        refl

-- The node types of the tokens.
abbrev pub kinds : List Token → List String
kinds = map (λ t. t.kind)

hashes-kinds :
    (xxh64 : String → ℕ) (tokens : List Token)
    → map (kind_hash xxh64) tokens ≡ map xxh64 (kinds tokens)
hashes-kinds xxh64 [] = refl
hashes-kinds xxh64 (t ∷ ts) = ap (◌∷◌ (xxh64 t.kind)) (hashes-kinds xxh64 ts)

slice-kinds :
    (xxh64 : String → ℕ) (tokens : List Token) (n i : ℕ)
    → take n (drop i (map (kind_hash xxh64) tokens)) ≡ map xxh64 (take n (drop i (kinds tokens)))
slice-kinds xxh64 tokens n i =
    rw
      (
        hashes-kinds xxh64 tokens,
        map-take xxh64 n (drop i (kinds tokens)),
        map-drop xxh64 i (kinds tokens),
      )
      refl

module _ (xxh64 : String → ℕ) (left right : List Token) (k base m i j n : ℕ)
    (same : take n (drop i (kinds left)) ≡ take n (drop j (kinds right))) where
  same_slices :
      take n (drop i (map (kind_hash xxh64) left)) ≡ take n (drop j (map (kind_hash xxh64) right))
  same_slices = slice-kinds xxh64 left n i ∙ ap (map xxh64) same ∙ sym (slice-kinds xxh64 right n j)

  shared_hashes :
      (r t : ℕ)
      → t + r + k ≤ n + 1
      → hashes_of (kgrams_from xxh64 left k base m r (i + t))
        ≡ hashes_of (kgrams_from xxh64 right k base m r (j + t))
  unfolding kgrams_from
  shared_hashes zero t le = refl
  shared_hashes (suc r) t le =
      let here : window_hash xxh64 left k base m (i + t)
          ≡ window_hash xxh64 right k base m (j + t) =
        window_hash-slice xxh64 left k base m i t n (omega arith)
        ∙ ap (λ l. horner base 0 (take k (drop t l)) % m) same_slices
        ∙ sym (window_hash-slice xxh64 right k base m j t n (omega arith)) in
      let ei : i + t + 1 ≡ i + (t + 1) = omega arith in
      let ej : j + t + 1 ≡ j + (t + 1) = omega arith in
      rw (here, ei, ej)
        (ap (◌∷◌ (window_hash xxh64 right k base m (j + t)))
          (shared_hashes r (t + 1) (omega arith)))

module _ (xxh64 : String → ℕ) (tokens : List Token) (k base m w i : ℕ) (pk : 0 < k) (pm : 0 < m)
    (pw : 0 < w) (room : i + (k + w - 1) ≤ length tokens) where
  length-kgrams : (n j : ℕ) → length (kgrams_from xxh64 tokens k base m n j) ≡ n
  unfolding kgrams_from
  length-kgrams zero j = refl
  length-kgrams (suc n) j = ap suc (length-kgrams n (j + 1))

  -- The window of k-grams at `i` has its least hash among the selected ones.
  window_selected :
      (fp : Fp) × (least (kgrams_from xxh64 tokens k base m w i) ≡ some fp)
      × Occurs fp.hash (hashes_of (compute_and_winnow xxh64 tokens k base m w))
  window_selected =
      let n : ℕ = length tokens + 1 - k in
      let spec = compute_fingerprints-eq-kgrams xxh64 tokens k base m pk pm in
      let (out, ran, same) =
        compute_and_winnow-eq-winnow_fingerprints xxh64 tokens k base m w pk pm pw in
      let len = length-kgrams n 0 in
      let scan : winnow_windows (kgrams_from xxh64 tokens k base m n 0) w (n + 1 - w) 0 []
          ≡ some out =
        unfold winnow_fingerprints in rw len at (rw spec at ran) in
      let (fp, found, o) =
        winnow_windows_selects (kgrams_from xxh64 tokens k base m n 0) w (n + 1 - w) 0 i [] out scan
          (omega arith) in
      let e : 0 + i ≡ i = omega arith in
      (
        fp,
        sym (ap least (window-kgrams xxh64 tokens k base m w n i (omega arith))) ∙ (rw e at found),
        rw (← same) o,
      )

-- Two files with a run of `k + w - 1` equal node types, wherever it stands in each, get at least one
-- common hash from `compute_and_winnow`, whatever the digest is, for k-grams of one token or more,
-- windows of one k-gram or more and a positive modulus.
pub shared_run_shares_hash :
    (xxh64 : String → ℕ) (left right : List Token) (k base m w i j : ℕ)
    → 0 < k
    → 0 < m
    → 0 < w
    → i + (k + w - 1) ≤ length left
    → j + (k + w - 1) ≤ length right
    → take (k + w - 1) (drop i (kinds left)) ≡ take (k + w - 1) (drop j (kinds right))
    → (h : ℕ) × Occurs h (hashes_of (compute_and_winnow xxh64 left k base m w))
      × Occurs h (hashes_of (compute_and_winnow xxh64 right k base m w))
shared_run_shares_hash xxh64 left right k base m w i j pk pm pw room_l room_r same =
    let (a, least_a, oa) = window_selected xxh64 left k base m w i pk pm pw room_l in
    let (b, least_b, ob) = window_selected xxh64 right k base m w j pk pm pw room_r in
    let ei : i + 0 ≡ i = omega arith in
    let ej : j + 0 ≡ j = omega arith in
    let hashes =
      rw (ei, ej) at
        (shared_hashes xxh64 left right k base m i j (k + w - 1) same w 0 (omega arith)) in
    let e : a.hash ≡ b.hash = least-hashes _ _ a b hashes least_a least_b in (a.hash, oa, rw e ob)
