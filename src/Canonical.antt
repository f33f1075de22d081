-- ===== src/Canonical.antt =====
-- plagiarism_core/canonicalizer/identifier_norm.py: `_assign_placeholders`, `_replace_identifiers` and the
-- order of first sight that `get_identifier_renames` compares, from the collected identifiers on.
pub mod Renaming
mod Tests
use rest_api_plagiarism.Prelude.{
  ℕ, ◌+◌, String, str, str_append, str_eq, Bool, true, false, Option, none, some, List, [], ◌∷◌,
  ◌++◌, map, take, drop, length, leb, ◌==◌, if◌then◌else◌, sort_by,
}

-- An entry of the dict from names to what they are given.
abbrev pub Given : Type 0 → Type 0
Given V = List (String × V)

pub lookup : {V : Type 0} → String → Given V → Option V
lookup name [] = none
lookup name ((n, v) ∷ d) = let rest = lookup name d in if str_eq name n then some v else rest

abbrev pub add_name : String → Option ℕ → Given ℕ → Given ℕ
add_name name (some i) seen = seen
add_name name none seen = seen ++ (name, length seen) ∷ []

-- The loop of `_assign_placeholders` over the names.
pub number_names : Given ℕ → List String → Given ℕ
unfolding lookup
number_names seen [] = seen
number_names seen (name ∷ names) = number_names (add_name name (lookup name seen) seen) names

abbrev pub as_placeholder : String × ℕ → String × String
as_placeholder (name, i) = (name, str_append "VAR_" (str i))

pub assign_placeholders : List String → Given String
unfolding number_names
assign_placeholders names = map as_placeholder (number_names [] names)

-- An identifier: its bytes from `start` up to `end`, and its name.
pub record Identifier : Type 0 where
  pub start : ℕ
  pub end : ℕ
  pub name : String

-- A replacement of the bytes from `start` up to `end`.
pub record Edit : Type 0 where
  pub start : ℕ
  pub end : ℕ
  pub text : List ℕ

module _ (encode : String → List ℕ) where
  pub replacements : Given String → List Identifier → List Edit
  unfolding lookup
  replacements placeholders [] = []
  replacements placeholders (x ∷ xs) =
      let rest = replacements placeholders xs in
      elim (lookup x.name placeholders) [
        | none ↦ rest
        | some p ↦ record { start = x.start; end = x.end; text = encode p } ∷ rest
      ]

pub seen_start : ℕ → List ℕ → Bool
seen_start start [] = false
seen_start start (s ∷ seen) = let rest = seen_start start seen in if start == s then true else rest

-- The first replacement at each position.
pub unique : List ℕ → List Edit → List Edit
unfolding seen_start
unique seen [] = []
unique seen (e ∷ es) =
    let dropped = unique seen es in
    let kept = e ∷ unique (e.start ∷ seen) es in if seen_start e.start seen then dropped else kept

-- `unique.sort(key=lambda x: x[0], reverse=True)`, which is stable too.
abbrev pub last_first : Edit → Edit → Bool
last_first x y = leb y.start x.start

-- `result[start:end] = replacement`, from the last position to the first.
pub apply_edits : List Edit → List ℕ → List ℕ
apply_edits [] bytes = bytes
apply_edits (e ∷ es) bytes = apply_edits es (take e.start bytes ++ e.text ++ drop e.end bytes)

-- `_replace_identifiers` on the bytes of the source.
pub replace_identifiers : (String → List ℕ) → List ℕ → List Identifier → Given String → List ℕ
unfolding replacements unique apply_edits
replace_identifiers encode bytes identifiers placeholders =
    apply_edits (sort_by last_first (unique [] (replacements encode placeholders identifiers)))
      bytes
