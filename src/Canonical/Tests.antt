-- ===== src/Canonical/Tests.antt =====
-- Runs of the placeholders on small inputs, and the theorem applied to them.
use Prim.Native.String.compare
use Prim.Native.String.{◌∷◌ as char_cons}
use text.Mathlib.Text.{is_eq}
use rest_api_plagiarism.Prelude.{
  ℕ, String, str, str_eq, ap, ◌≡◌, refl, List, [], ◌∷◌, map, if◌then◌else◌, sort_by, insert_by,
}
use rest_api_plagiarism.Canonical.{
  lookup, number_names, assign_placeholders, Identifier, replacements, unique, seen_start,
  apply_edits, replace_identifiers,
}
use rest_api_plagiarism.Canonical.Renaming.{assign_placeholders-rename}

abbrev names : List String
names = "total" ∷ "item" ∷ "total" ∷ []

given : assign_placeholders names ≡ ("total", "VAR_0") ∷ ("item", "VAR_1") ∷ []
unfolding assign_placeholders number_names lookup str
given = refl

abbrev identifier : ℕ → ℕ → String → Identifier
identifier s e n = record { start = s; end = e; name = n }

-- One byte for each placeholder.
abbrev encode : String → List ℕ
encode p = if str_eq p "VAR_0" then 90 ∷ [] else 91 ∷ []

-- "ab+c" with the names at 0 and 3.
replaced :
    replace_identifiers encode
      (1 ∷ 2 ∷ 3 ∷ 4 ∷ [])
      (identifier 0 2 "ab" ∷ identifier 3 4 "c" ∷ [])
      (assign_placeholders ("ab" ∷ "c" ∷ []))
    ≡ 90 ∷ 3 ∷ 91 ∷ []
unfolding replace_identifiers replacements unique seen_start apply_edits assign_placeholders
    number_names lookup sort_by insert_by str
replaced = refl

-- Every name with a letter put before it.
abbrev marked : String → String
marked n = char_cons "v" n

marked-injective : (x y : String) → str_eq (marked x) (marked y) ≡ str_eq x y
marked-injective x y = ap is_eq (compare.cons-cons "v" "v" x y)

assign_placeholders-rename_example :
    lookup "vitem" (assign_placeholders (map marked names))
    ≡ lookup "item" (assign_placeholders names)
assign_placeholders-rename_example = assign_placeholders-rename marked marked-injective names "item"
