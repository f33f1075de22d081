-- ===== src/Canonical/Renaming.antt =====
-- The placeholders of plagiarism_core/canonicalizer/identifier_norm.py under renaming.
use rest_api_plagiarism.Prelude.{
  ℕ, suc, String, str_eq, ◌≡◌, refl, sym, ap, ◌∙◌, Option, none, some, List, [], ◌∷◌, map,
  map-append, length,
}
use rest_api_plagiarism.Canonical.{
  Given, lookup, add_name, number_names, as_placeholder, assign_placeholders,
}

module _ (f : String → String) (injective : (x y : String) → str_eq (f x) (f y) ≡ str_eq x y) where
  abbrev rename : {V : Type 0} → String × V → String × V
  rename (n, v) = (f n, v)

  lookup-rename : {V : Type 0} (n : String) (d : Given V) → lookup (f n) (map rename d) ≡ lookup n d
  unfolding lookup
  lookup-rename n [] = refl
  lookup-rename n ((m, v) ∷ d) = let ih = lookup-rename n d in rw (injective n m, ih)

  length-rename : {V : Type 0} (d : Given V) → length (map rename d) ≡ length d
  length-rename [] = refl
  length-rename (x ∷ d) = ap suc (length-rename d)

  add_name-rename :
      (n : String) (o : Option ℕ) (seen : Given ℕ)
      → add_name (f n) o (map rename seen) ≡ map rename (add_name n o seen)
  add_name-rename n (some i) seen = refl
  add_name-rename n none seen =
      rw (length-rename seen) (sym (map-append rename seen ((n, length seen) ∷ [])))

  add_name-step :
      (n : String) (seen : Given ℕ)
      → add_name (f n) (lookup (f n) (map rename seen)) (map rename seen)
        ≡ map rename (add_name n (lookup n seen) seen)
  add_name-step n seen =
      ap (λ o. add_name (f n) o (map rename seen)) (lookup-rename n seen)
      ∙ add_name-rename n (lookup n seen) seen

  number_names-rename :
      (seen : Given ℕ) (names : List String)
      → number_names (map rename seen) (map f names) ≡ map rename (number_names seen names)
  unfolding number_names
  number_names-rename seen [] = refl
  number_names-rename seen (n ∷ names) =
      ap (λ s. number_names s (map f names)) (add_name-step n seen)
      ∙ number_names-rename (add_name n (lookup n seen) seen) names

  map-as_placeholder :
      (d : Given ℕ) → map as_placeholder (map rename d) ≡ map rename (map as_placeholder d)
  map-as_placeholder [] = refl
  map-as_placeholder (x ∷ d) = ap (◌∷◌ (rename (as_placeholder x))) (map-as_placeholder d)

  -- Renaming the identifiers of a source, different ones to different ones, changes no placeholder: what a
  -- name was given its new name is given.
  pub assign_placeholders-rename :
      (names : List String) (n : String)
      → lookup (f n) (assign_placeholders (map f names)) ≡ lookup n (assign_placeholders names)
  unfolding assign_placeholders
  assign_placeholders-rename names n =
      let e = number_names-rename [] names in
      let e' = map-as_placeholder (number_names [] names) in
      ap (λ d. lookup (f n) (map as_placeholder d)) e
      ∙ (ap (lookup (f n)) e' ∙ lookup-rename n (map as_placeholder (number_names [] names)))
