-- ===== src/Fingerprint/Positions.antt =====
-- The index of positions that `index_fingerprints` of fingerprinting/core.py builds.
use rest_api_plagiarism.Prelude.{
  ℕ, ◌≡◌, ◌∙◌, ap, List, [], ◌∷◌, ◌++◌, ◌==◌, ◌⊎◌, true, false, Bool-cases, if◌then◌else◌, inl, inr,
  append-nil, append_assoc, group, group-add_to, add_to,
}
use rest_api_plagiarism.Fingerprint.Core.{Fp, Index, index_from, index_fingerprints}

-- The fingerprints with the hash `h`, in their order.
abbrev pub with_hash : ℕ → List Fp → List Fp
with_hash h [] = []
with_hash h (fp ∷ fps) = if fp.hash == h then fp ∷ with_hash h fps else with_hash h fps

group-index_from :
    (h : ℕ) (index : Index) (fps : List Fp)
    → group h (index_from index fps) ≡ group h index ++ with_hash h fps
unfolding index_from
group-index_from h index [] = rw append-nil
group-index_from h index (fp ∷ fps) =
    group-index_from h (add_to fp.hash fp index) fps
    ∙ ap (λ l. l ++ with_hash h fps) (group-add_to h fp.hash fp index)
    ∙ append_assoc (group h index) (if fp.hash == h then fp ∷ [] else []) (with_hash h fps)
    ∙ ap (λ l. group h index ++ l) (split (Bool-cases (fp.hash == h)))
  where
    split :
        ((fp.hash == h) ≡ true) ⊎ ((fp.hash == h) ≡ false)
        → (if fp.hash == h then fp ∷ [] else []) ++ with_hash h fps ≡ with_hash h (fp ∷ fps)
    split (inl e) = rw e
    split (inr e) = rw e

-- Under every hash the index holds the fingerprints with that hash, all of them, in the order in
-- which they stand in the file, and nothing for a hash that does not occur.
pub index_fingerprints-positions :
    (fps : List Fp) (h : ℕ) → group h (index_fingerprints fps) ≡ with_hash h fps
unfolding index_fingerprints
index_fingerprints-positions fps h = unfold group in group-index_from h [] fps
