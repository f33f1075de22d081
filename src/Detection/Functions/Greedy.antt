-- ===== src/Detection/Functions/Greedy.antt =====
-- No pair of functions that detection/function_matcher.py could make is left.
use rest_api_plagiarism.Prelude.{
  ℕ, Bool, true, false, ◌≡◌, ◌≢◌, refl, sym, ap, ◌⊎◌, inl, inr, none, Option-cases, List, [], ◌∷◌,
  arith, ◌==◌, Bool-cases, Any, Occurs, Grouped, group,
}
use rest_api_plagiarism.Detection.Match.{LineSet, no_lines, add_range}
use rest_api_plagiarism.Detection.Functions.{
  Function, Indexed, touches, hash_index, first_free, pair_functions, structural_pairs, never,
}

first_free-none :
    (refuses : Function → Bool) (used_idx used_b : LineSet) (cs : List Indexed) (c : Indexed)
    → first_free refuses used_idx used_b cs ≡ none
    → Occurs c cs
    → touches c.1 used_b ≡ false
    → refuses c.1 ≡ false
    → used_idx c.0 ≡ true
unfolding first_free
first_free-none refuses used_idx used_b [] c e o t r = elim o [ ]
first_free-none refuses used_idx used_b ((j, g) ∷ cs) c e (inl eq) t r =
    let j≡ : c.0 ≡ j = ap (λ p. p.0) eq in
    let g≡ : c.1 ≡ g = ap (λ p. p.1) eq in
    let t' : touches g used_b ≡ false = rw g≡ at t in
    let r' : refuses g ≡ false = rw g≡ at r in
    elim (Bool-cases (used_idx j)) [
      | inl u ↦ rw j≡ u
      | inr u ↦ let e' = rw (u, t', r') at e in absurd (cc)
    ]
first_free-none refuses used_idx used_b ((j, g) ∷ cs) c e (inr o) t r =
    let rest : first_free refuses used_idx used_b cs ≡ none → used_idx c.0 ≡ true =
      λ e'. first_free-none refuses used_idx used_b cs c e' o t r in
    elim (Bool-cases (used_idx j)) [
      | inl u ↦ rest (rw u at e)
      | inr u ↦ elim (Bool-cases (touches g used_b)) [
        | inl t' ↦ rest (rw (u, t') at e)
        | inr t' ↦ elim (Bool-cases (refuses g)) [
          | inl r' ↦ rest (rw (u, t', r') at e)
          | inr r' ↦ let e' = rw (u, t', r') at e in absurd (cc)
        ]
      ]
    ]

-- The function of A or the index of B stands in the pair.
abbrev pub Takes : Function → ℕ → Function × Indexed → Type 0
Takes f j p = (p.0 ≡ f) ⊎ (p.1.0 ≡ j)

add_range-one_true :
    (j x : ℕ) (used : LineSet) → add_range j 1 used x ≡ true → (j ≡ x) ⊎ (used x ≡ true)
add_range-one_true j x used h = elim (Bool-cases (used x)) [
  | inl u ↦ inr u
  | inr u ↦ inl (ground arith)
]

pair_functions-Takes :
    (key : Function → ℕ) (refuses : Function → Function → Bool) (used_a used_b : LineSet)
    (index : Grouped Indexed) (used_idx : LineSet) (fs : List Function) (f : Function) (c : Indexed)
    → Occurs f fs
    → touches f used_a ≡ false
    → key f ≢ 0
    → Occurs c (group (key f) index)
    → touches c.1 used_b ≡ false
    → refuses f c.1 ≡ false
    → (used_idx c.0 ≡ true)
      ⊎ Any (Takes f c.0) (pair_functions key refuses used_a used_b index used_idx fs)
unfolding pair_functions
pair_functions-Takes key refuses used_a used_b index used_idx [] f c o ta h oc tb r = elim o [ ]
pair_functions-Takes key refuses used_a used_b index used_idx (f' ∷ fs) f c (inl eq) ta h oc tb r =
    let ta' : touches f' used_a ≡ false = rw eq at ta in
    let h' : (key f' == 0) ≡ false = let h2 : key f' ≢ 0 = rw eq at h in ground arith in
    let oc' : Occurs c (group (key f') index) = rw eq at oc in
    let r' : refuses f' c.1 ≡ false = rw eq at r in
    elim (Option-cases (first_free (refuses f') used_idx used_b (group (key f') index))) [
      | inl e ↦
          inl (first_free-none (refuses f') used_idx used_b (group (key f') index) c e oc' tb r')
      | inr ((j, g), e) ↦ inr (rw (ta', h', e) (inl (inl (sym eq))))
    ]
pair_functions-Takes key refuses used_a used_b index used_idx (f' ∷ fs) f c (inr o) ta h oc tb r =
    let skipped =
      pair_functions-Takes key refuses used_a used_b index used_idx fs f c o ta h oc tb r in
    elim (Bool-cases (touches f' used_a)) [
      | inl t ↦ rw t skipped
      | inr t ↦ elim (Bool-cases (key f' == 0)) [
        | inl z ↦ rw (t, z) skipped
        | inr z ↦
            elim (Option-cases (first_free (refuses f') used_idx used_b (group (key f') index))) [
              | inl e ↦ rw (t, z, e) skipped
              | inr ((j, g), e) ↦
                  let later =
                    pair_functions-Takes key refuses used_a used_b index (add_range j 1 used_idx) fs
                      f c o ta h oc tb r in
                  rw (t, z, e)
                    (elim later [
                      | inl u ↦ elim (add_range-one_true j c.0 used_idx u) [
                        | inl same ↦ inr (inl (inr same))
                        | inr before ↦ inl before
                      ]
                      | inr found ↦ inr (inr found)
                    ])
            ]
      ]
    ]

-- The structural matcher is greedy to the end: of a function of A and one of B with the same hash, both
-- free of used lines, one stands in a pair.
pub structural_pairs-Takes :
    (used_a used_b : LineSet) (funcs_a funcs_b : List Function) (f : Function) (c : Indexed)
    → Occurs f funcs_a
    → touches f used_a ≡ false
    → f.struct_hash ≢ 0
    → Occurs c (group f.struct_hash (hash_index (λ g. g.struct_hash) 0 funcs_b []))
    → touches c.1 used_b ≡ false
    → Any (Takes f c.0) (structural_pairs used_a used_b funcs_a funcs_b)
structural_pairs-Takes used_a used_b funcs_a funcs_b f c o ta h oc tb =
    elim (pair_functions-Takes (λ g. g.struct_hash) never used_a used_b
      (hash_index (λ g. g.struct_hash) 0 funcs_b []) no_lines funcs_a f c o ta h oc tb refl) [
        | inl taken ↦ absurd (cc)
        | inr found ↦ found
      ]
