-- ===== src/Detection/Pipeline/Trimmed.antt =====
-- The bounds of `_find_prefix_suffix` and `_count_differing_lines` of detection/pipeline/phase1.py.
use rest_api_plagiarism.Prelude.{
  ℕ, zero, suc, ◌+◌, ◌-◌, ◌≤◌, min, String, true, false, ◌≡◌, inl, inr, List, [], ◌∷◌, arith,
  length, take, drop, reverse, Bool-cases,
}
use rest_api_plagiarism.Detection.Pipeline.{
  FunctionLine, lines_match, prefix_len, suffix_upto, find_prefix_suffix, differs, count_differing,
  count_differing_lines,
}

module _ (xxh64 : String → ℕ) where
  prefix_len-le :
      (xs ys : List FunctionLine)
      → (prefix_len xxh64 xs ys ≤ length xs) × (prefix_len xxh64 xs ys ≤ length ys)
  unfolding prefix_len
  prefix_len-le [] ys = (omega arith, omega arith)
  prefix_len-le (x ∷ xs) [] = (omega arith, omega arith)
  prefix_len-le (x ∷ xs) (y ∷ ys) =
      let (a, b) = prefix_len-le xs ys in
      elim (Bool-cases (lines_match xxh64 x y)) [
        | inl m ↦ rw m (omega (arith, a), omega (arith, b))
        | inr m ↦ rw m (omega arith, omega arith)
      ]

  suffix_upto-le : (n : ℕ) (xs ys : List FunctionLine) → suffix_upto xxh64 n xs ys ≤ n
  unfolding suffix_upto
  suffix_upto-le zero xs ys = omega arith
  suffix_upto-le (suc n) [] ys = omega arith
  suffix_upto-le (suc n) (x ∷ xs) [] = omega arith
  suffix_upto-le (suc n) (x ∷ xs) (y ∷ ys) =
      let ih = suffix_upto-le n xs ys in
      elim (Bool-cases (lines_match xxh64 x y)) [
        | inl m ↦ rw m (omega (arith, ih))
        | inr m ↦ rw m (omega arith)
      ]

  -- The common prefix and the common suffix never overlap: together they are no longer than the
  -- shorter function.
  pub find_prefix_suffix-le :
      (xs ys : List FunctionLine)
      → (find_prefix_suffix xxh64 xs ys).0 + (find_prefix_suffix xxh64 xs ys).1
        ≤ min (length xs) (length ys)
  unfolding find_prefix_suffix
  find_prefix_suffix-le xs ys =
      let p = prefix_len xxh64 xs ys in
      let (a, b) = prefix_len-le xs ys in
      let c = suffix_upto-le (min (length xs) (length ys) - p) (reverse xs) (reverse ys) in
      omega (arith, a, b, c)

  count_differing-le :
      (n : ℕ) (xs ys : List FunctionLine) → count_differing xxh64 (take n xs) (take n ys) ≤ n
  unfolding count_differing
  count_differing-le zero xs ys = omega arith
  count_differing-le (suc n) [] ys = omega arith
  count_differing-le (suc n) (x ∷ xs) [] = omega arith
  count_differing-le (suc n) (x ∷ xs) (y ∷ ys) =
      let ih = count_differing-le n xs ys in
      elim (Bool-cases (differs xxh64 x y)) [
        | inl d ↦ rw d (omega (arith, ih))
        | inr d ↦ rw d (omega (arith, ih))
      ]

  -- The share of differing lines that phase 1 compares with its bound is at most 1: no more lines
  -- differ than the trimmed functions have.
  pub count_differing_lines-le :
      (xs ys : List FunctionLine) (prefix suffix : ℕ)
      → count_differing_lines xxh64 xs ys prefix suffix
        ≤ min (length xs) (length ys) - prefix - suffix
  unfolding count_differing_lines
  count_differing_lines-le xs ys prefix suffix =
      let n = min (length xs) (length ys) - suffix - prefix in
      let c = count_differing-le n (drop prefix xs) (drop prefix ys) in omega (arith, c)

  lines_match-same : (x y : FunctionLine) → lines_match xxh64 x y ≡ true → differs xxh64 x y ≡ false
  lines_match-same x y h = ground arith

  skip_prefix :
      (p n : ℕ) (xs ys : List FunctionLine)
      → p ≤ prefix_len xxh64 xs ys
      → count_differing xxh64 (take (p + n) xs) (take (p + n) ys)
        ≡ count_differing xxh64 (take n (drop p xs)) (take n (drop p ys))
  unfolding count_differing prefix_len
  skip_prefix zero n xs ys h = let e : zero + n ≡ n = omega arith in rw e
  skip_prefix (suc p) n [] ys h = absurd (omega arith)
  skip_prefix (suc p) n (x ∷ xs) [] h = absurd (omega arith)
  skip_prefix (suc p) n (x ∷ xs) (y ∷ ys) h =
      let e : suc p + n ≡ suc (p + n) = omega arith in
      elim (Bool-cases (lines_match xxh64 x y)) [
        | inr m ↦ let h' = rw m at h in absurd (omega arith)
        | inl m ↦
            let h' = rw m at h in
            let d = lines_match-same x y m in rw (e, d) (skip_prefix p n xs ys (omega arith))
      ]

  -- The lines that phase 1 cuts off in front hold no differing line: where the prefix and a suffix
  -- leave the shorter function, counting from the first line on gives the number counted behind the
  -- prefix.
  pub count_differing_lines-prefix :
      (xs ys : List FunctionLine) (suffix : ℕ)
      → (find_prefix_suffix xxh64 xs ys).0 + suffix ≤ min (length xs) (length ys)
      → count_differing_lines xxh64 xs ys 0 suffix
        ≡ count_differing_lines xxh64 xs ys (find_prefix_suffix xxh64 xs ys).0 suffix
  unfolding count_differing_lines find_prefix_suffix
  count_differing_lines-prefix xs ys suffix h =
      let p = prefix_len xxh64 xs ys in
      let n = min (length xs) (length ys) - suffix - p in
      let e : min (length xs) (length ys) - suffix - 0 ≡ p + n = omega arith in
      rw e (skip_prefix p n xs ys (omega arith))
