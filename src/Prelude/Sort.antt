-- ===== src/Prelude/Sort.antt =====
-- Python's stable sort as an insertion sort, and what it keeps.
use Prim.Native.Nat.{ℕ, ◌+◌}
use mathlib.Core.Path.{◌≡◌, refl}
use mathlib.Core.Logic.{◌⊎◌, inl, inr}
use mathlib.Core.Bool.{Bool, true, false}
use mathlib.Core.List.{List, [], ◌∷◌}
use native.Mathlib.Omega.{arith}
use rest_api_plagiarism.Prelude.Tests.{if◌then◌else◌, Bool-cases}
use rest_api_plagiarism.Prelude.Lists.{All}

module _ {ℓ} {A : Type ℓ} where
  -- Some element has the property.
  abbrev pub Any : (A → Type 0) → List A → Type 0
  Any P [] = ⊥
  Any P (x ∷ xs) = P x ⊎ Any P xs

  abbrev pub sum_of : (A → ℕ) → List A → ℕ
  sum_of f [] = 0
  sum_of f (x ∷ xs) = f x + sum_of f xs

module _ {A : Type 0} (le : A → A → Bool) where
  -- The element stands before the first one that it need not follow.
  unfoldable pub insert_by : A → List A → List A
  insert_by x [] = x ∷ []
  insert_by x (y ∷ ys) = if le x y then x ∷ y ∷ ys else y ∷ insert_by x ys

  unfoldable pub sort_by : List A → List A
  unfolding insert_by
  sort_by [] = []
  sort_by (x ∷ xs) = insert_by x (sort_by xs)

  abbrev pub Ascending : List A → Type 0
  Ascending [] = Unit
  Ascending (x ∷ xs) = All (λ y. le x y ≡ true) xs × Ascending xs

  module _ (P : A → Type 0) where
    insert_by-All : (x : A) (ys : List A) → P x → All P ys → All P (insert_by x ys)
    unfolding insert_by
    insert_by-All x [] p ps = (p, tt)
    insert_by-All x (y ∷ ys) p (q, qs) = elim (Bool-cases (le x y)) [
      | inl t ↦ rw t (p, (q, qs))
      | inr t ↦ rw t (q, insert_by-All x ys p qs)
    ]

    pub sort_by-All : (xs : List A) → All P xs → All P (sort_by xs)
    unfolding sort_by
    sort_by-All [] ps = tt
    sort_by-All (x ∷ xs) (p, ps) = insert_by-All x (sort_by xs) p (sort_by-All xs ps)

    insert_by-Any : (x : A) (ys : List A) → P x ⊎ Any P ys → Any P (insert_by x ys)
    unfolding insert_by
    insert_by-Any x [] p = p
    insert_by-Any x (y ∷ ys) p = elim (Bool-cases (le x y)) [
      | inl t ↦ rw t p
      | inr t ↦ rw t (elim p [
        | inl here ↦ inr (insert_by-Any x ys (inl here))
        | inr (inl q) ↦ inl q
        | inr (inr qs) ↦ inr (insert_by-Any x ys (inr qs))
      ])
    ]

    pub sort_by-Any : (xs : List A) → Any P xs → Any P (sort_by xs)
    unfolding sort_by
    sort_by-Any [] p = elim p [ ]
    sort_by-Any (x ∷ xs) (inl p) = insert_by-Any x (sort_by xs) (inl p)
    sort_by-Any (x ∷ xs) (inr ps) = insert_by-Any x (sort_by xs) (inr (sort_by-Any xs ps))

  insert_by-sum_of :
      (f : A → ℕ) (x : A) (ys : List A) → sum_of f (insert_by x ys) ≡ f x + sum_of f ys
  unfolding insert_by
  insert_by-sum_of f x [] = refl
  insert_by-sum_of f x (y ∷ ys) = elim (Bool-cases (le x y)) [
    | inl t ↦ rw t
    | inr t ↦ let ih = insert_by-sum_of f x ys in rw t (omega (arith, ih))
  ]

  pub sort_by-sum_of : (f : A → ℕ) (xs : List A) → sum_of f (sort_by xs) ≡ sum_of f xs
  unfolding sort_by
  sort_by-sum_of f [] = refl
  sort_by-sum_of f (x ∷ xs) =
      let here = insert_by-sum_of f x (sort_by xs) in
      let ih = sort_by-sum_of f xs in omega (arith, here, ih)

  module _ (total : (x y : A) → le x y ≡ false → le y x ≡ true)
      (trans : (x y z : A) → le x y ≡ true → le y z ≡ true → le x z ≡ true) where
    below :
        (x y : A) (ys : List A)
        → le x y ≡ true
        → All (λ z. le y z ≡ true) ys
        → All (λ z. le x z ≡ true) ys
    below x y [] xy p = tt
    below x y (z ∷ zs) xy (p, ps) = (trans x y z xy p, below x y zs xy ps)

    insert_by-Ascending : (x : A) (ys : List A) → Ascending ys → Ascending (insert_by x ys)
    unfolding insert_by
    insert_by-Ascending x [] s = (tt, tt)
    insert_by-Ascending x (y ∷ ys) (p, ps) = elim (Bool-cases (le x y)) [
      | inl t ↦ rw t ((t, below x y ys t p), (p, ps))
      | inr t ↦
          rw t
            (insert_by-All (λ z. le y z ≡ true) x ys (total x y t) p, insert_by-Ascending x ys ps)
    ]

    pub sort_by-Ascending : (xs : List A) → Ascending (sort_by xs)
    unfolding sort_by
    sort_by-Ascending [] = tt
    sort_by-Ascending (x ∷ xs) = insert_by-Ascending x (sort_by xs) (sort_by-Ascending xs)
