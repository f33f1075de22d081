-- ===== src/Detection/Phase1.antt =====
-- detection/pipeline/phase1.py: `_match_by_name` and `_match_by_body_signature`, the two matchers that compare the
-- bodies of functions that no matcher has covered. Parameters are what other parts report of two bodies: the line
-- matches, the semantic line matches, `_check_body_similarity` and `_extract_body_signature`, which is none where it
-- raises an exception.
pub mod Free
pub mod Marked
use text.Mathlib.Text.{◌==◌ as str_eq}
use rest_api_plagiarism.Prelude.{
  ℕ, ◌+◌, ◌-◌, ◌*◌, min, max, String, str_append, Bool, true, false, Option, none, some, List, [],
  ◌∷◌, ◌++◌, length, take, drop, ltb, leb, if◌then◌else◌, sum_of,
}
use rest_api_plagiarism.Detection.Match.{
  SourceRegion, Match, Ratio, renamed, semantic, whole, Detail, word, flag, LineSet, no_lines,
  add_range,
}
use rest_api_plagiarism.Detection.Functions.{Function, Indexed, touches, whole_functions}
use rest_api_plagiarism.Detection.Pipeline.{
  lines_of, add_region, FunctionLine, find_prefix_suffix, count_differing_lines,
}

-- `lines[f["start_line"] : f["end_line"] + 1]`
abbrev pub body_of : Function → List FunctionLine → List FunctionLine
body_of f lines = take (f.end_line + 1 - f.start_line) (drop f.start_line lines)

-- A region between two lines, from column 0.
abbrev pub region : ℕ → ℕ → SourceRegion
region start end = record { start_line = start; start_col = 0; end_line = end; end_col = 0 }

abbrev pub both_names : Function → Function → List (String × Detail)
both_names f g = ("original_function", word f.name) ∷ ("matched_function", word g.name) ∷ []

abbrev pub arrow : Function → Function → String
arrow f g = str_append f.name (str_append " ↔ " g.name)

-- Two functions without their common prefix and suffix; none where nothing of one is left.
abbrev pub trimmed_match : ℕ × ℕ → Function → Function → String → Option Match
trimmed_match (prefix, suffix) f g description =
    let m : Match = record {
      file1 = region (f.start_line + prefix) (f.end_line - suffix);
      file2 = region (g.start_line + prefix) (g.end_line - suffix);
      kgram_count = f.end_line - suffix + 1 - (f.start_line + prefix);
      plagiarism_type = semantic;
      similarity = whole;
      details = some (both_names f g);
      description = some description;
    } in
    if ltb f.end_line (f.start_line + prefix + suffix)
    then none
    else if ltb g.end_line (g.start_line + prefix + suffix)
    then none
    else some m

-- A match, and whether its lines are covered from then on.
abbrev pub Attempt : Type 0
Attempt = Option (Match × Bool)

abbrev pub covering : Option Match → Attempt
covering none = none
covering (some m) = some (m, true)

-- The loop over the candidates, up to its `break`.
unfoldable pub first_match :
    (Function → Attempt) → (Indexed → Bool) → LineSet → List Indexed → Option (ℕ × (Match × Bool))
first_match compare_with candidate covered_b [] = none
first_match compare_with candidate covered_b ((j, g) ∷ funcs_b) =
    let rest = first_match compare_with candidate covered_b funcs_b in
    let found : Option (ℕ × (Match × Bool)) = elim (compare_with g) [
      | none ↦ rest
      | some r ↦ some (j, r)
    ] in
    if candidate (j, g) then if touches g covered_b then rest else found else rest

abbrev pub cover : Bool → SourceRegion → LineSet → LineSet
cover marks r covered = if marks then add_region r covered else covered

-- The loop over the functions of A: the matches, each with whether it covers its lines. `removed` holds the indices
-- that are taken out of the index of names.
unfoldable pub match_loop :
    (Function → Function → Attempt)
    → (LineSet → Function → Indexed → Bool)
    → LineSet
    → LineSet
    → LineSet
    → List Indexed
    → List Function
    → List (Match × Bool)
unfolding first_match
match_loop compare_bodies candidate covered_a covered_b removed funcs_b [] = []
match_loop compare_bodies candidate covered_a covered_b removed funcs_b (f ∷ funcs_a) =
    let skipped = match_loop compare_bodies candidate covered_a covered_b removed funcs_b funcs_a in
    let matched : List (Match × Bool) =
      elim (first_match (compare_bodies f) (candidate removed f) covered_b funcs_b) [
        | none ↦ skipped
        | some (j, (m, marks)) ↦
            (m, marks)
            ∷ match_loop compare_bodies candidate (cover marks m.file1 covered_a)
                (cover marks m.file2 covered_b) (add_range j 1 removed) funcs_b funcs_a
      ] in
    if touches f covered_a then skipped else matched

-- `enumerate(funcs_b)`
abbrev pub enumerated : ℕ → List Function → List Indexed
enumerated j [] = []
enumerated j (f ∷ fs) = (j, f) ∷ enumerated (j + 1) fs

abbrev pub same_signature : Option String → Option String → Bool
same_signature none t = false
same_signature (some s) none = false
same_signature (some s) (some t) =
    if str_eq s "" then false else if str_eq t "" then false else str_eq s t

abbrev pub any_function : LineSet → Function → Indexed → Bool
any_function removed f p = true

-- The index of names, of the functions of B that are free at the start.
abbrev pub indexed_name : LineSet → LineSet → Function → Indexed → Bool
indexed_name initial_b removed f (j, g) =
    if str_eq f.name g.name
    then if touches g initial_b then false else if removed j then false else true
    else false

abbrev pub matched_lines : List Match → ℕ
matched_lines ms = sum_of (λ m. lines_of m.file1) ms

abbrev pub no_matches : List Match → List Match → Bool
no_matches [] [] = true
no_matches ms ns = false

-- The match of two functions that are the same but for less than a tenth of what is left of them.
abbrev pub mostly_identical : Function → Function → ℕ → ℕ → Match
mostly_identical f g differing total = record (whole_functions f g) {
  plagiarism_type = renamed;
  similarity = record { num = total - differing; den = total };
  details = some (both_names f g ++ ("_mostly_identical", flag true) ∷ []);
  description =
      some (str_append "Renamed function: " (str_append (arrow f g) " (mostly identical)"));
}

module _ (xxh64 : String → ℕ) (lines_a lines_b : List FunctionLine) where
  abbrev pub ends : Function → Function → ℕ × ℕ
  ends f g = find_prefix_suffix xxh64 (body_of f lines_a) (body_of g lines_b)

  module _ (signature_a signature_b : Function → Option String) where
    -- The tests of `_match_by_body_signature` of two functions.
    pub compare_signatures : Function → Function → Attempt
    compare_signatures f g =
        let size_a = f.end_line + 1 - f.start_line in
        let size_b = g.end_line + 1 - g.start_line in
        let found = covering (
          trimmed_match (ends f g) f g
            (str_append "Semantic equivalent (cross-name): " (arrow f g))) in
        if ltb size_a 3
        then none
        else if ltb size_b 3
        then none
        else if ltb (2 * min size_a size_b) (max size_a size_b)
        then none
        else if same_signature (signature_a f) (signature_b g)
        then found
        else none

    -- `_match_by_body_signature`
    unfoldable pub match_by_body_signature :
        LineSet → LineSet → List Function → List Function → List (Match × Bool)
    unfolding match_loop compare_signatures
    match_by_body_signature covered_a covered_b funcs_a funcs_b =
        match_loop compare_signatures any_function covered_a covered_b no_lines
          (enumerated 0 funcs_b) funcs_a

  module _ (line_matches semantic_matches : Function → Function → List Match)
      (similar_body : Function → Function → Bool) where
    -- Whether the body matches count: in large functions they must make up 0.4 of the shorter one.
    abbrev pub bodies_match : Function → Function → Bool
    bodies_match f g =
        let shorter = min (length (body_of f lines_a)) (length (body_of g lines_b)) in
        let total = matched_lines (line_matches f g) + matched_lines (semantic_matches f g) in
        let similar = similar_body f g in
        if no_matches (line_matches f g) (semantic_matches f g)
        then similar
        else if ltb 50 shorter
        then if ltb (total * 10) (shorter * 4) then similar else true
        else true

    abbrev pub named_match : ℕ × ℕ → Function → Function → Option Match → Attempt
    named_match (prefix, suffix) f g none = none
    named_match (prefix, suffix) f g (some m) =
        let body_a = body_of f lines_a in
        let body_b = body_of g lines_b in
        let differing = count_differing_lines xxh64 body_a body_b prefix suffix in
        let total = min (length body_a) (length body_b) - prefix - suffix in
        if ltb 0 total
        then if ltb (differing * 10) total
          then some (mostly_identical f g differing total, false)
          else some (m, true)
        else some (m, true)

    -- The tests of `_match_by_name` of two functions of one name.
    unfoldable pub compare_named : Function → Function → Attempt
    compare_named f g =
        let found = named_match (ends f g) f g (
          trimmed_match (ends f g) f g
            (str_append "Semantic equivalent: " (str_append (arrow f g) " (name-based)"))) in
        if bodies_match f g then found else none

    -- `_match_by_name`
    unfoldable pub match_by_name :
        LineSet → LineSet → List Function → List Function → List (Match × Bool)
    unfolding match_loop compare_named
    match_by_name covered_a covered_b funcs_a funcs_b =
        match_loop compare_named (indexed_name covered_b) covered_a covered_b no_lines
          (enumerated 0 funcs_b) funcs_a
