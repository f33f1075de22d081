-- ===== src/Similarity/Jaccard.antt =====
-- The counts behind `ast_similarity` of plagiarism_core/ast_hash.py.
use rest_api_plagiarism.Prelude.{
  ℕ, suc, ◌+◌, ◌≤◌, min, max, Bool, true, false, ◌≡◌, refl, sym, ap, ◌∙◌, ◌⊎◌, inl, inr, List, [],
  ◌∷◌, arith, ◌==◌, length, if◌then◌else◌, Bool-cases, sum_of,
}
use rest_api_plagiarism.Similarity.{times, without, distinct, intersection, union, ast_similarity}

times-without :
    (k x : ℕ) (ys : List ℕ) → times k (without x ys) ≡ (if k == x then 0 else times k ys)
unfolding times without
times-without k x [] = elim (Bool-cases (k == x)) [ inl e ↦ rw e | inr n ↦ rw n ]
times-without k x (y ∷ ys) =
    let ih = times-without k x ys in
    elim (Bool-cases (x == y)) [
      | inl e ↦ rw e (elim (Bool-cases (k == x)) [
        | inl s ↦ rw s (rw s at ih)
        | inr n ↦ let n' : (k == y) ≡ false = ground arith in rw (n, n') (rw n at ih)
      ])
      | inr d ↦ rw d (elim (Bool-cases (k == x)) [
        | inl s ↦ let n' : (k == y) ≡ false = ground arith in rw (s, n') (rw s at ih)
        | inr n ↦ elim (Bool-cases (k == y)) [
          | inl s ↦ rw (n, s) (ap suc (rw n at ih))
          | inr n' ↦ rw (n, n') (rw n at ih)
        ]
      ])
    ]

-- A key stands once among the distinct ones, or not at all where the list does not hold it.
times-distinct :
    (k : ℕ) (xs : List ℕ)
    → ((times k xs ≡ 0) × (times k (distinct xs) ≡ 0))
      ⊎ ((times k (distinct xs) ≡ 1) × (1 ≤ times k xs))
unfolding times distinct
times-distinct k [] = inl (refl, refl)
times-distinct k (x ∷ xs) = elim (Bool-cases (k == x)) [
  | inl e ↦ let w = rw e at (times-without k x (distinct xs)) in rw (e, w) (inr (refl, omega arith))
  | inr n ↦ let w = rw n at (times-without k x (distinct xs)) in rw (n, w) (times-distinct k xs)
]

module _ (f : ℕ → ℕ) where
  sum-absent : (x : ℕ) (ys : List ℕ) → times x ys ≡ 0 → sum_of f ys ≡ sum_of f (without x ys)
  unfolding times without
  sum-absent x [] h = refl
  sum-absent x (y ∷ ys) h = elim (Bool-cases (x == y)) [
    | inl e ↦ let h' = rw e at h in absurd (omega arith)
    | inr n ↦ let ih = sum-absent x ys (rw n at h) in rw n (omega (arith, ih))
  ]

  sum-present : (x : ℕ) (ys : List ℕ) → times x ys ≡ 1 → sum_of f ys ≡ f x + sum_of f (without x ys)
  unfolding times without
  sum-present x [] h = absurd (omega arith)
  sum-present x (y ∷ ys) h = elim (Bool-cases (x == y)) [
    | inl e ↦
        let h' = rw e at h in
        let rest = sum-absent x ys (omega arith) in
        let same : f x ≡ f y = let e' : x ≡ y = ground arith in ap f e' in
        rw e (omega (arith, rest, same))
    | inr n ↦ let ih = sum-present x ys (rw n at h) in rw n (omega (arith, ih))
  ]

  sum-same_without :
      (g : ℕ → ℕ) (x : ℕ) (ys : List ℕ)
      → ((k : ℕ) → (x == k) ≡ false → f k ≡ g k)
      → sum_of f (without x ys) ≡ sum_of g (without x ys)
  unfolding without
  sum-same_without g x [] h = refl
  sum-same_without g x (y ∷ ys) h = elim (Bool-cases (x == y)) [
    | inl e ↦ rw e (sum-same_without g x ys h)
    | inr n ↦
        let ih = sum-same_without g x ys h in let here = h y n in rw n (omega (arith, ih, here))
  ]

-- The counts of the keys that `g` takes, summed over the distinct keys, count the elements that it takes.
sum-times :
    (g : ℕ → Bool) (xs : List ℕ)
    → sum_of (λ k. if g k then times k xs else 0) (distinct xs)
      ≡ sum_of (λ x. if g x then 1 else 0) xs
unfolding distinct times
sum-times g [] = refl
sum-times g (x ∷ xs) =
    let f : ℕ → ℕ = λ k. if g k then times k xs else 0 in
    let more : ℕ → ℕ = λ k. if g k then times k (x ∷ xs) else 0 in
    let ih = sum-times g xs in
    let same =
      sum-same_without more f x (distinct xs)
        (λ k n. unfold times in let n' : (k == x) ≡ false = ground arith in rw n') in
    let here : more x ≡ (if g x then 1 else 0) + f x =
      let self : (x == x) ≡ true = ground arith in
      elim (Bool-cases (g x)) [ inl e ↦ rw (e, self) (omega arith) | inr e ↦ rw e ] in
    elim (times-distinct x xs) [
      | inl (none_in, absent) ↦
          let r = sum-absent f x (distinct xs) absent in
          let nothing : f x ≡ 0 = elim (Bool-cases (g x)) [ inl e ↦ rw e none_in | inr e ↦ rw e ] in
          omega (arith, same, here, ih, r, nothing)
      | inr (present, some_in) ↦
          let r = sum-present f x (distinct xs) present in omega (arith, same, here, ih, r)
    ]

sum-times_nil : (b : List ℕ) → sum_of (λ x. times x []) b ≡ 0
unfolding times
sum-times_nil [] = refl
sum-times_nil (y ∷ b) = let ih = sum-times_nil b in omega (arith, ih)

sum-times_cons :
    (k : ℕ) (ks b : List ℕ)
    → sum_of (λ x. times x (k ∷ ks)) b ≡ times k b + sum_of (λ x. times x ks) b
unfolding times
sum-times_cons k ks [] = refl
sum-times_cons k ks (y ∷ b) =
    let ih = sum-times_cons k ks b in
    elim (Bool-cases (k == y)) [
      | inl e ↦ let e' : (y == k) ≡ true = ground arith in rw (e, e') (omega (arith, ih))
      | inr n ↦ let n' : (y == k) ≡ false = ground arith in rw (n, n') (omega (arith, ih))
    ]

-- Counting pairs of an element of `b` and an equal one of `ks` by the one or by the other.
sum-swap : (ks b : List ℕ) → sum_of (λ k. times k b) ks ≡ sum_of (λ x. times x ks) b
sum-swap [] b = sym (sum-times_nil b)
sum-swap (k ∷ ks) b =
    let ih = sum-swap ks b in let e = sum-times_cons k ks b in omega (arith, ih, e)

sum-min-max :
    (f g : ℕ → ℕ) (ks : List ℕ)
    → sum_of (λ k. min (f k) (g k)) ks + sum_of (λ k. max (f k) (g k)) ks
      ≡ sum_of f ks + sum_of g ks
sum-min-max f g [] = refl
sum-min-max f g (k ∷ ks) = let ih = sum-min-max f g ks in omega (arith, ih)

sum-ones : (xs : List ℕ) → sum_of (λ x. 1) xs ≡ length xs
sum-ones [] = refl
sum-ones (x ∷ xs) = let ih = sum-ones xs in omega (arith, ih)

-- An element of `b` is a key of `a` or is not.
sum-split :
    (a b : List ℕ)
    → sum_of (λ x. times x (distinct a)) b + sum_of (λ x. if times x a == 0 then 1 else 0) b
      ≡ length b
sum-split a [] = refl
sum-split a (x ∷ b) =
    let ih = sum-split a b in
    let one : times x (distinct a) + (if times x a == 0 then 1 else 0) ≡ 1 =
      elim (times-distinct x a) [
        | inl (none_in, absent) ↦ rw (none_in, absent)
        | inr (present, some_in) ↦
            let n : (times x a == 0) ≡ false = ground arith in rw (present, n)
      ] in
    omega (arith, ih, one)

-- The intersection and the union of two counters have together as many elements as the two lists.
pub intersection-union : (a b : List ℕ) → intersection a b + union a b ≡ length a + length b
unfolding intersection union
intersection-union a b =
    let both = sum-min-max (λ k. times k a) (λ k. times k b) (distinct a) in
    let of_a = sum-times (λ k. true) a ∙ sum-ones a in
    let swapped = sum-swap (distinct a) b in
    let alone = sum-times (λ k. times k a == 0) b in
    let split = sum-split a b in omega (arith, both, of_a, swapped, alone, split)

sum-min_le :
    (f g : ℕ → ℕ) (ks : List ℕ)
    → sum_of (λ k. min (f k) (g k)) ks ≤ sum_of (λ k. max (f k) (g k)) ks
sum-min_le f g [] = omega arith
sum-min_le f g (k ∷ ks) = let ih = sum-min_le f g ks in omega (arith, ih)

-- A score is a quotient between 0 and 1, with a denominator that is not 0.
pub ast_similarity-le :
    (a b : List ℕ)
    → ((ast_similarity a b).num ≤ (ast_similarity a b).den) × (1 ≤ (ast_similarity a b).den)
unfolding ast_similarity intersection union
ast_similarity-le a b = elim (Bool-cases (union a b == 0)) [
  | inl e ↦ rw e (omega arith, omega arith)
  | inr n ↦
      let le = sum-min_le (λ k. times k a) (λ k. times k b) (distinct a) in
      rw n (omega (arith, le), ground arith)
]
