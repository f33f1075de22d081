-- ===== src/Prelude/Lists.antt =====
-- Lists measured, sliced and indexed by native numbers, under the library's names.
use Prim.Native.Nat.{ℕ, zero, suc, ◌+◌, ◌-◌, ◌<◌, ◌≤◌}
use mathlib.Core.Path.{◌≡◌, refl, ap}
use mathlib.Core.List.{List, [], ◌∷◌, ◌++◌, map}
use mathlib.Core.Option.{Option, none, some}
use mathlib.Core.Logic.{◌⊎◌, inl, inr}
use native.Mathlib.Omega.{arith}

module _ {ℓ} {A : Type ℓ} where
  abbrev pub length : List A → ℕ
  length [] = 0
  length (x ∷ xs) = suc (length xs)

  abbrev pub get_elem? : List A → ℕ → Option A
  get_elem? [] i = none
  get_elem? (x ∷ xs) zero = some x
  get_elem? (x ∷ xs) (suc i) = get_elem? xs i

  abbrev pub get_or : List A → ℕ → A → A
  get_or [] i d = d
  get_or (x ∷ xs) zero d = x
  get_or (x ∷ xs) (suc i) d = get_or xs i d

  -- `xs[:n]`
  abbrev pub take : ℕ → List A → List A
  take zero xs = []
  take (suc n) [] = []
  take (suc n) (x ∷ xs) = x ∷ take n xs

  -- `xs[n:]`
  abbrev pub drop : ℕ → List A → List A
  drop zero xs = xs
  drop (suc n) [] = []
  drop (suc n) (x ∷ xs) = drop n xs

  -- `xs[-1]`
  abbrev pub get_last? : List A → Option A
  get_last? [] = none
  get_last? (x ∷ xs) = elim xs [ [] ↦ some x | _ ∷ _ ↦ get_last? xs ]

  pub length-append : (xs ys : List A) → length (xs ++ ys) ≡ length xs + length ys
  length-append [] ys = omega arith
  length-append (x ∷ xs) ys = omega (arith, length-append xs ys)

  -- Every element has the property.
  abbrev pub All {κ} : (A → Type κ) → List A → Type κ
  All P [] = Unit
  All P (x ∷ xs) = P x × All P xs

module _ {A : Type 0} where
  pub All-map : {P Q : A → Type 0} → ((x : A) → P x → Q x) → (xs : List A) → All P xs → All Q xs
  All-map f [] ps = tt
  All-map f (x ∷ xs) (p, ps) = (f x p, All-map f xs ps)

  pub All-append : (P : A → Type 0) (xs ys : List A) → All P xs → All P ys → All P (xs ++ ys)
  All-append P [] ys p q = q
  All-append P (x ∷ xs) ys (p, ps) q = (p, All-append P xs ys ps q)

  -- `x` stands in the list.
  abbrev pub Occurs : A → List A → Type 0
  Occurs x [] = ⊥
  Occurs x (y ∷ ys) = (x ≡ y) ⊎ Occurs x ys

  pub Occurs-append_left : (x : A) (xs ys : List A) → Occurs x xs → Occurs x (xs ++ ys)
  Occurs-append_left x [] ys h = elim h [ ]
  Occurs-append_left x (z ∷ xs) ys (inl e) = inl e
  Occurs-append_left x (z ∷ xs) ys (inr h) = inr (Occurs-append_left x xs ys h)

  pub Occurs-append_right : (x : A) (xs ys : List A) → Occurs x ys → Occurs x (xs ++ ys)
  Occurs-append_right x [] ys h = h
  Occurs-append_right x (z ∷ xs) ys h = inr (Occurs-append_right x xs ys h)

module _ {ℓ} {A : Type ℓ} where
  pub take-drop-cons :
      (k j : ℕ) (xs : List A) (d : A)
      → j < length xs
      → take (suc k) (drop j xs) ≡ get_or xs j d ∷ take k (drop (suc j) xs)
  take-drop-cons k j [] d h = elim h [ ]
  take-drop-cons k zero (x ∷ xs) d h = refl
  take-drop-cons k (suc j) (x ∷ xs) d h = take-drop-cons k j xs d (omega arith)

  pub take-drop-snoc :
      (k j : ℕ) (xs : List A) (d : A)
      → j + k < length xs
      → take (suc k) (drop j xs) ≡ take k (drop j xs) ++ get_or xs (j + k) d ∷ []
  take-drop-snoc k j [] d h = elim h [ ]
  take-drop-snoc zero zero (x ∷ xs) d h = refl
  take-drop-snoc (suc k) zero (x ∷ xs) d h =
      let ih = take-drop-snoc k zero xs d (omega arith) in
      let e : zero + k ≡ k = omega arith in
      let e' : zero + suc k ≡ suc k = omega arith in rw e' (ap (◌∷◌ x) (rw e at ih))
  take-drop-snoc k (suc j) (x ∷ xs) d h =
      let e : suc j + k ≡ suc (j + k) = omega arith in rw e (take-drop-snoc k j xs d (omega arith))

  pub length-take-drop :
      (k j : ℕ) (xs : List A) → j + k ≤ length xs → length (take k (drop j xs)) ≡ k
  length-take-drop zero j xs h = refl
  length-take-drop (suc k) zero [] h = absurd (omega arith)
  length-take-drop (suc k) zero (x ∷ xs) h = ap suc (length-take-drop k zero xs (omega arith))
  length-take-drop (suc k) (suc j) [] h = absurd (omega arith)
  length-take-drop (suc k) (suc j) (x ∷ xs) h = length-take-drop (suc k) j xs (omega arith)

module _ {ℓ κ} {A : Type ℓ} {B : Type κ} (f : A → B) where
  pub length-map : (xs : List A) → length (map f xs) ≡ length xs
  length-map [] = refl
  length-map (x ∷ xs) = ap suc (length-map xs)

  pub get_or-map : (xs : List A) (i : ℕ) (d : A) → get_or (map f xs) i (f d) ≡ f (get_or xs i d)
  get_or-map [] i d = refl
  get_or-map (x ∷ xs) zero d = refl
  get_or-map (x ∷ xs) (suc i) d = get_or-map xs i d

module _ {ℓ} {A : Type ℓ} where
  pub List-cases : (l : List A) → (l ≡ []) ⊎ ((x : A) × (xs : List A) × (l ≡ x ∷ xs))
  List-cases [] = inl refl
  List-cases (x ∷ xs) = inr (x, xs, refl)

  pub take-append-drop : (n : ℕ) (xs : List A) → take n xs ++ drop n xs ≡ xs
  take-append-drop zero xs = refl
  take-append-drop (suc n) [] = refl
  take-append-drop (suc n) (x ∷ xs) = ap (◌∷◌ x) (take-append-drop n xs)

  pub length-drop : (n : ℕ) (xs : List A) → length (drop n xs) ≡ length xs - n
  length-drop zero xs = omega arith
  length-drop (suc n) [] = omega arith
  length-drop (suc n) (x ∷ xs) = omega (arith, length-drop n xs)

  -- In range the default is not read.
  pub get_or_in_range :
      (xs : List A) (i : ℕ) (c d : A) → i < length xs → get_or xs i c ≡ get_or xs i d
  get_or_in_range [] i c d h = elim h [ ]
  get_or_in_range (x ∷ xs) zero c d h = refl
  get_or_in_range (x ∷ xs) (suc i) c d h = get_or_in_range xs i c d (omega arith)

  pub drop-drop : (i j : ℕ) (xs : List A) → drop i (drop j xs) ≡ drop (j + i) xs
  drop-drop i zero xs = let e : zero + i ≡ i = omega arith in rw e
  drop-drop zero (suc j) [] = let e : suc j + zero ≡ suc j = omega arith in rw e
  drop-drop (suc i) (suc j) [] = let e : suc j + suc i ≡ suc (j + suc i) = omega arith in rw e
  drop-drop i (suc j) (x ∷ xs) =
      let e : suc j + i ≡ suc (j + i) = omega arith in rw e (drop-drop i j xs)

  -- A slice of a slice that lies within it is a slice of the whole.
  pub take-drop-take :
      (k t n : ℕ) (xs : List A) → t + k ≤ n → take k (drop t (take n xs)) ≡ take k (drop t xs)
  take-drop-take zero t n xs h = refl
  take-drop-take (suc k) zero zero xs h = absurd (omega arith)
  take-drop-take (suc k) (suc t) zero xs h = absurd (omega arith)
  take-drop-take (suc k) zero (suc n) [] h = refl
  take-drop-take (suc k) zero (suc n) (x ∷ xs) h =
      ap (◌∷◌ x) (take-drop-take k zero n xs (omega arith))
  take-drop-take (suc k) (suc t) (suc n) [] h = refl
  take-drop-take (suc k) (suc t) (suc n) (x ∷ xs) h = take-drop-take (suc k) t n xs (omega arith)

module _ {ℓ κ} {A : Type ℓ} {B : Type κ} (f : A → B) where
  pub map-take : (n : ℕ) (xs : List A) → map f (take n xs) ≡ take n (map f xs)
  map-take zero xs = refl
  map-take (suc n) [] = refl
  map-take (suc n) (x ∷ xs) = ap (◌∷◌ (f x)) (map-take n xs)

  pub map-drop : (n : ℕ) (xs : List A) → map f (drop n xs) ≡ drop n (map f xs)
  map-drop zero xs = refl
  map-drop (suc n) [] = refl
  map-drop (suc n) (x ∷ xs) = map-drop n xs
