-- ===== src/Detection/Functions/Pairing.antt =====
-- Which functions detection/function_matcher.py and detection/semantic_function_matcher.py pair.
use rest_api_plagiarism.Prelude.{
  some-injective, ℕ, suc, ◌+◌, Bool, false, ◌≡◌, ◌≢◌, subst, inl, inr, some, Option-cases, List, [],
  ◌∷◌, arith, ◌==◌, if◌then◌else◌, Bool-cases, All, All-map, All-append, get_elem?, Grouped, add_to,
  group, group-add_to,
}
use rest_api_plagiarism.Detection.Match.{LineSet, no_lines, add_range}
use rest_api_plagiarism.Detection.Functions.{
  Function, Indexed, touches, hash_index, first_free, pair_functions, structural_pairs,
  semantic_pairs, never, same_structure,
}

-- Every entry of a group has the group's hash and stands in B at its index.
abbrev pub Places : (Function → ℕ) → List Function → ℕ → Indexed → Type 0
Places key funcs h p = (key p.1 ≡ h) × (get_elem? funcs p.0 ≡ some p.1)

hash_index-Places :
    (key : Function → ℕ) (funcs : List Function) (h n : ℕ) (fs : List Function)
    (index : Grouped Indexed)
    → ((i : ℕ) → get_elem? funcs (n + i) ≡ get_elem? fs i)
    → All (Places key funcs h) (group h index)
    → All (Places key funcs h) (group h (hash_index key n fs index))
unfolding hash_index
hash_index-Places key funcs h n [] index at p = p
hash_index-Places key funcs h n (f ∷ fs) index at p =
    let next : (i : ℕ) → get_elem? funcs (n + 1 + i) ≡ get_elem? fs i =
      λ i. let e : n + 1 + i ≡ n + suc i = omega arith in rw e (at (suc i)) in
    let here : get_elem? funcs n ≡ some f = let e : n ≡ n + 0 = omega arith in rw e (at 0) in
    let grown : All (Places key funcs h) (group h (add_to (key f) (n, f) index)) =
      rw (group-add_to h (key f) (n, f) index) (
        All-append (Places key funcs h) (group h index) (if key f == h then (n, f) ∷ [] else []) p
          (elim (Bool-cases (key f == h)) [
            | inl k ↦ rw k (((ground arith, here), tt))
            | inr k ↦ rw k tt
          ])) in
    elim (Bool-cases (key f == 0)) [
      | inl e ↦ rw e (hash_index-Places key funcs h (n + 1) fs index next p)
      | inr e ↦
          rw e (hash_index-Places key funcs h (n + 1) fs (add_to (key f) (n, f) index) next grown)
    ]

-- A candidate that may be paired.
record Free (refuses : Function → Bool) (used_idx used_b : LineSet) (p : Indexed) : Type 0 where
  unused : used_idx p.0 ≡ false
  clear : touches p.1 used_b ≡ false
  accepted : refuses p.1 ≡ false

first_free-Free :
    (refuses : Function → Bool) (used_idx used_b : LineSet) (Q : Indexed → Type 0)
    (cs : List Indexed) (p : Indexed)
    → All Q cs
    → first_free refuses used_idx used_b cs ≡ some p
    → Free refuses used_idx used_b p × Q p
unfolding first_free
first_free-Free refuses used_idx used_b Q [] p q e = absurd (cc)
first_free-Free refuses used_idx used_b Q ((j, g) ∷ cs) p (q, qs) e =
    elim (Bool-cases (used_idx j)) [
      | inl u ↦ first_free-Free refuses used_idx used_b Q cs p qs (rw u at e)
      | inr u ↦ elim (Bool-cases (touches g used_b)) [
        | inl t ↦ first_free-Free refuses used_idx used_b Q cs p qs (rw (u, t) at e)
        | inr t ↦ elim (Bool-cases (refuses g)) [
          | inl r ↦ first_free-Free refuses used_idx used_b Q cs p qs (rw (u, t, r) at e)
          | inr r ↦
              let eq = some-injective (rw (u, t, r) at e) in
              let free : Free refuses used_idx used_b (j, g) = record {
                unused = u;
                clear = t;
                accepted = r;
              } in
              subst (λ o. Free refuses used_idx used_b o × Q o) eq (free, q)
        ]
      ]
    ]

-- What the pairing of one function promises.
pub record Paired (key : Function → ℕ) (refuses : Function → Function → Bool)
    (used_a used_b : LineSet) (funcs_b : List Function) (p : Function × Indexed) : Type 0 where
  pub same_hash : key p.1.1 ≡ key p.0
  pub hashed : key p.0 ≢ 0
  pub in_b : get_elem? funcs_b p.1.0 ≡ some p.1.1
  pub clear_a : touches p.0 used_a ≡ false
  pub clear_b : touches p.1.1 used_b ≡ false
  pub accepted : refuses p.0 p.1.1 ≡ false

-- No index of B stands in two pairs.
abbrev pub DistinctB : List (Function × Indexed) → Type 0
DistinctB [] = Unit
DistinctB (p ∷ ps) = All (λ q. p.1.0 ≢ q.1.0) ps × DistinctB ps

module _ (key : Function → ℕ) (refuses : Function → Function → Bool) (used_a used_b : LineSet)
    (funcs_b : List Function) (index : Grouped Indexed)
    (places : (h : ℕ) → All (Places key funcs_b h) (group h index)) where
  pairs : LineSet → List Function → List (Function × Indexed)
  pairs used_idx fs = pair_functions key refuses used_a used_b index used_idx fs

  abbrev Fresh : LineSet → Function × Indexed → Type 0
  Fresh used_idx p = Paired key refuses used_a used_b funcs_b p × (used_idx p.1.0 ≡ false)

  add_range-one :
      (j x : ℕ) (used : LineSet) → add_range j 1 used x ≡ false → (j ≢ x) × (used x ≡ false)
  add_range-one j x used h = (λ e. ground arith, ground arith)

  pair_functions-Fresh :
      (used_idx : LineSet) (fs : List Function)
      → All (Fresh used_idx) (pair_functions key refuses used_a used_b index used_idx fs)
        × DistinctB (pair_functions key refuses used_a used_b index used_idx fs)
  unfolding pair_functions
  pair_functions-Fresh used_idx [] = (tt, tt)
  pair_functions-Fresh used_idx (f ∷ fs) =
      let skipped = pair_functions-Fresh used_idx fs in
      elim (Bool-cases (touches f used_a)) [
        | inl t ↦ rw t skipped
        | inr t ↦ elim (Bool-cases (key f == 0)) [
          | inl z ↦ rw (t, z) skipped
          | inr z ↦
              elim (Option-cases (first_free (refuses f) used_idx used_b (group (key f) index))) [
                | inl none_free ↦ rw (t, z, none_free) skipped
                | inr ((j, g), e) ↦
                    let (free, place) =
                      first_free-Free (refuses f) used_idx used_b (Places key funcs_b (key f))
                        (group (key f) index) (j, g) (places (key f)) e in
                    let now : Fresh used_idx (f, (j, g)) = (
                      record {
                        same_hash = place.0;
                        hashed = ground arith;
                        in_b = place.1;
                        clear_a = t;
                        clear_b = free.clear;
                        accepted = free.accepted;
                      },
                      free.unused,
                    ) in
                    let later =
                      pair_functions (key) refuses used_a used_b index (add_range j 1 used_idx)
                        fs in
                    let (rest, distinct) = pair_functions-Fresh (add_range j 1 used_idx) fs in
                    rw (t, z, e)
                      (
                        (
                          now,
                          All-map (λ p q. (q.0, (add_range-one j p.1.0 used_idx q.1).1)) later rest,
                        ),
                        (
                          All-map (λ p q. (add_range-one j p.1.0 used_idx q.1).0) later rest,
                          distinct,
                        ),
                      )
              ]
        ]
      ]

index-Places :
    (key : Function → ℕ) (funcs_b : List Function) (h : ℕ)
    → All (Places key funcs_b h) (group h (hash_index key 0 funcs_b []))
unfolding group
index-Places key funcs_b h =
    hash_index-Places key funcs_b h 0 funcs_b [] (λ i. let e : 0 + i ≡ i = omega arith in rw e) tt

-- Each pair of the structural matcher joins two functions of equal hash that is not 0, the second
-- one from B at its index, both free of used lines; and no function of B stands in two pairs.
pub structural_pairs-Paired :
    (used_a used_b : LineSet) (funcs_a funcs_b : List Function)
    → All
        (Paired (λ f. f.struct_hash) never used_a used_b funcs_b)
        (structural_pairs used_a used_b funcs_a funcs_b)
      × DistinctB (structural_pairs used_a used_b funcs_a funcs_b)
structural_pairs-Paired used_a used_b funcs_a funcs_b =
    let index = hash_index (λ f. f.struct_hash) 0 funcs_b [] in
    let (all, distinct) =
      pair_functions-Fresh (λ f. f.struct_hash) never used_a used_b funcs_b index
        (index-Places (λ f. f.struct_hash) funcs_b) no_lines funcs_a in
    (All-map (λ p q. q.0) (structural_pairs used_a used_b funcs_a funcs_b) all, distinct)

-- Each pair of the semantic matcher joins two functions of equal semantic hash that is not 0 and of
-- different structure, both free of used lines; and no function of B stands in two pairs.
pub semantic_pairs-Paired :
    (used_a used_b : LineSet) (funcs_a funcs_b : List Function)
    → All
        (Paired (λ f. f.semantic_hash) same_structure used_a used_b funcs_b)
        (semantic_pairs used_a used_b funcs_a funcs_b)
      × DistinctB (semantic_pairs used_a used_b funcs_a funcs_b)
semantic_pairs-Paired used_a used_b funcs_a funcs_b =
    let index = hash_index (λ f. f.semantic_hash) 0 funcs_b [] in
    let (all, distinct) =
      pair_functions-Fresh (λ f. f.semantic_hash) same_structure used_a used_b funcs_b index
        (index-Places (λ f. f.semantic_hash) funcs_b) no_lines funcs_a in
    (All-map (λ p q. q.0) (semantic_pairs used_a used_b funcs_a funcs_b) all, distinct)
