-- ===== src/Worker/Candidates/Cross.antt =====
-- The pairs of worker/services/candidate_service.py across tasks.
use rest_api_plagiarism.Prelude.{
  String, str_eq, str_eq_iff, Bool, ◌≡◌, refl, sym, subst, ap, ◌∙◌, inl, inr, none, some,
  Option-cases, List, [], ◌∷◌, if◌then◌else◌, Bool-cases, All, All-append, Occurs,
}
use rest_api_plagiarism.Detection.Match.{Ratio}
use rest_api_plagiarism.Worker.Calls.{FileInfo, Pair}
use rest_api_plagiarism.Worker.Candidates.{
  CandidateIndex, hash_of, by_hash, cross_candidates, candidates_of, valid_files, cross_files,
  find_candidate_pairs,
}

pub some-same : {A : Type 0} {x y : A} → some x ≡ some y → x ≡ y
some-same e = cc

by_hash-here :
    (h : String) (f g : FileInfo)
    → (if str_eq (hash_of f) "" then none else if str_eq (hash_of f) h then some f else none)
      ≡ some g
    → (f ≡ g) × (hash_of g ≡ h)
by_hash-here h f g e = elim (Bool-cases (str_eq (hash_of f) "")) [
  | inl t ↦ let e' = rw t at e in absurd (cc)
  | inr t ↦ elim (Bool-cases (str_eq (hash_of f) h)) [
    | inr n ↦ let e' = rw (t, n) at e in absurd (cc)
    | inl y ↦
        let same : f ≡ g = some-same (rw (t, y) at e) in
        (same, ap hash_of (sym same) ∙ (str_eq_iff (hash_of f) h).0 y)
  ]
]

-- What the lookup by hash finds stands among the files and has the hash.
pub by_hash-some :
    (h : String) (fs : List FileInfo) (g : FileInfo)
    → by_hash h fs ≡ some g
    → Occurs g fs × (hash_of g ≡ h)
unfolding by_hash
by_hash-some h [] g e = absurd (cc)
by_hash-some h (f ∷ fs) g e = elim (Option-cases (by_hash h fs)) [
  | inl n ↦ let (same, at) = by_hash-here h f g (rw n at e) in (inl (sym same), at)
  | inr (g', s) ↦
      let same : g' ≡ g = some-same (rw s at e) in
      let (o, at) = by_hash-some h fs g' s in
      (inr (subst (λ x. Occurs x fs) same o), subst (λ x. hash_of x ≡ h) same at)
]

-- A pair of a file of A with a file of B that is the candidate of some hash.
abbrev pub Drawn : List FileInfo → List FileInfo → Pair → Type 0
Drawn files_a files_b p = Occurs p.0 files_a × Occurs p.1.0 files_b

cross_candidates-Drawn :
    (files_a files_b : List FileInfo) (a : FileInfo) (cands : List (String × Ratio))
    → Occurs a files_a
    → All (Drawn files_a files_b) (cross_candidates files_b a cands)
unfolding cross_candidates
cross_candidates-Drawn files_a files_b a [] o = tt
cross_candidates-Drawn files_a files_b a ((h, sim) ∷ cands) o =
    let rest = cross_candidates-Drawn files_a files_b a cands o in
    elim (Option-cases (by_hash h files_b)) [
      | inl n ↦ rw (n, All, cross_candidates) rest
      | inr (b, s) ↦ rw (s, All, cross_candidates) ((o, (by_hash-some h files_b b s).0), rest)
    ]

valid_files-Occurs : (f : FileInfo) (fs : List FileInfo) → Occurs f (valid_files fs) → Occurs f fs
valid_files-Occurs f [] o = o
valid_files-Occurs f (g ∷ fs) o = elim (Bool-cases (str_eq (hash_of g) "")) [
  | inl t ↦ inr (valid_files-Occurs f fs (rw t at o))
  | inr t ↦ elim (rw t at o) [ inl e ↦ inl e | inr o' ↦ inr (valid_files-Occurs f fs o') ]
]

cross_files-Drawn :
    (index : CandidateIndex) (files_a files_b files : List FileInfo)
    → ((f : FileInfo) → Occurs f files → Occurs f files_a)
    → All (Drawn files_a files_b) (cross_files index files_b files)
unfolding cross_files
cross_files-Drawn index files_a files_b [] sub = tt
cross_files-Drawn index files_a files_b (a ∷ files) sub =
    All-append (Drawn files_a files_b) (cross_candidates files_b a (candidates_of index a))
      (cross_files index files_b files)
      (cross_candidates-Drawn files_a files_b a (candidates_of index a) (sub a (inl refl)))
      (cross_files-Drawn index files_a files_b files (λ f o. sub f (inr o)))

-- Whatever the index answers, each pair across tasks joins a file of the task with one of the files
-- of the other tasks.
pub find_candidate_pairs-Drawn :
    (index : CandidateIndex) (files_a files_b : List FileInfo) (deduplicate : Bool)
    → All (Drawn files_a files_b) (find_candidate_pairs index files_a (some files_b) deduplicate)
unfolding find_candidate_pairs
find_candidate_pairs-Drawn index files_a files_b deduplicate =
    cross_files-Drawn index files_a files_b (valid_files files_a)
      (λ f o. valid_files-Occurs f files_a o)
