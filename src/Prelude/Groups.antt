-- ===== src/Prelude/Groups.antt =====
-- A dict from numbers to lists that grow at the end: a defaultdict(list), or `setdefault(k, [])`.
-- The keys stand in the order of their first sight.
use Prim.Native.Nat.{ℕ}
use mathlib.Core.Path.{◌≡◌}
use mathlib.Core.Logic.{inl, inr}
use mathlib.Core.Bool.{false}
use mathlib.Core.List.{List, [], ◌∷◌, ◌++◌, append-nil}
use native.Mathlib.Omega.{arith}
use rest_api_plagiarism.Prelude.Tests.{◌==◌, if◌then◌else◌, Bool-cases}

abbrev pub Grouped {ℓ} : Type ℓ → Type ℓ
Grouped V = List (ℕ × List V)

module _ {ℓ} {V : Type ℓ} where
  -- `d[k].append(v)`
  unfoldable pub add_to : ℕ → V → Grouped V → Grouped V
  add_to k v [] = (k, v ∷ []) ∷ []
  add_to k v ((j, l) ∷ d) = if j == k then (j, l ++ v ∷ []) ∷ d else (j, l) ∷ add_to k v d

  -- `d.get(k, [])`
  unfoldable pub group : ℕ → Grouped V → List V
  group k [] = []
  group k ((j, l) ∷ d) = if j == k then l else group k d

  pub group-add_to :
      (k j : ℕ) (v : V) (d : Grouped V)
      → group k (add_to j v d) ≡ group k d ++ (if j == k then v ∷ [] else [])
  unfolding add_to group
  group-add_to k j v [] = ground arith
  group-add_to k j v ((i, l) ∷ d) =
      let ih = group-add_to k j v d in
      elim (Bool-cases (i == j)) [
        | inl e ↦
            let e' : (j == k) ≡ (i == k) = ground arith in
            elim (Bool-cases (i == k)) [
              | inl this ↦ rw (e, e', this)
              | inr other ↦ rw (e, e', other, append-nil)
            ]
        | inr ne ↦ elim (Bool-cases (i == k)) [
          | inl this ↦ let e' : (j == k) ≡ false = ground arith in rw (ne, this, e', append-nil)
          | inr other ↦ rw (ne, other) ih
        ]
      ]
