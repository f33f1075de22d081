-- ===== src/Worker/Candidates/Intra.antt =====
-- The pairs of worker/services/candidate_service.py within a task, where pairs are deduplicated.
use rest_api_plagiarism.Prelude.{
  String, str_eq, Bool, true, false, ◌||◌, ◌≡◌, refl, sym, subst, ◌⊎◌, inl, inr, none, Option-cases,
  List, [], ◌∷◌, ◌++◌, Bool-cases, All, All-map, All-append,
}
use rest_api_plagiarism.Detection.Match.{Ratio}
use rest_api_plagiarism.Worker.Calls.{FileInfo, Pair}
use rest_api_plagiarism.Worker.Candidates.{
  CandidateIndex, hash_of, by_hash, same_pair, seen_pair, Found, found_one, intra_candidates,
  candidates_of, valid_files, intra_files, find_candidate_pairs,
}
use rest_api_plagiarism.Worker.Candidates.Cross.{by_hash-some}

abbrev Seen : Type 0
Seen = List (String × String)

abbrev pub alike : Pair → Pair → Bool
alike q p = same_pair (hash_of q.0) (hash_of q.1.0) (hash_of p.0) (hash_of p.1.0)

-- No pair joins a file with one of the same content, and none is in `seen`.
abbrev pub New : List (String × String) → Pair → Type 0
New seen p =
    (str_eq (hash_of p.1.0) (hash_of p.0) ≡ false)
    × (seen_pair (hash_of p.0) (hash_of p.1.0) seen ≡ false)

-- No two pairs join the same two contents.
abbrev pub Apart : List Pair → Type 0
Apart [] = Unit
Apart (p ∷ ps) = All (λ q. alike q p ≡ false) ps × Apart ps

-- One candidate is skipped, or its pair is new and is marked.
intra_candidates-step :
    (files_b : List FileInfo) (a : FileInfo) (h : String) (sim : Ratio)
    (cands : List (String × Ratio)) (seen : Seen)
    → (intra_candidates true files_b a ((h, sim) ∷ cands) seen
        ≡ intra_candidates true files_b a cands seen)
      ⊎ ((b : FileInfo) × ((hash_of b ≡ h)
            × ((str_eq h (hash_of a) ≡ false)
                × ((seen_pair (hash_of a) h seen ≡ false)
                    × (intra_candidates true files_b a ((h, sim) ∷ cands) seen
                        ≡ found_one
                            (a, (b, sim))
                            (intra_candidates true files_b a cands ((hash_of a, h) ∷ seen)))))))
unfolding intra_candidates
intra_candidates-step files_b a h sim cands seen = elim (Bool-cases (str_eq h (hash_of a))) [
  | inl self ↦ inl (rw self)
  | inr other ↦ elim (Option-cases (by_hash h files_b)) [
    | inl missing ↦ inl (rw (other, missing))
    | inr (b, s) ↦ elim (Bool-cases (seen_pair (hash_of a) h seen)) [
      | inl again ↦ inl (rw (other, s, again))
      | inr fresh ↦
          inr (b, ((by_hash-some h files_b b s).1, (other, (fresh, rw (other, s, fresh)))))
    ]
  ]
]

-- What holds of the pairs found from `seen` on.
record Dedup (seen : Seen) (found : Found) : Type 0 where
  new : All (New seen) found.0
  apart : Apart found.0
  kept : (x y : String) → seen_pair x y found.1 ≡ false → seen_pair x y seen ≡ false
  marked :
      (x y : String)
      → seen_pair x y found.1 ≡ false
      → All (λ p. same_pair x y (hash_of p.0) (hash_of p.1.0) ≡ false) found.0

or-false_left : (a b : Bool) → a || b ≡ false → a ≡ false
or-false_left true b h = h
or-false_left false b h = refl

or-false_right : (a b : Bool) → a || b ≡ false → b ≡ false
or-false_right true b h = absurd (cc)
or-false_right false b h = h

found_one-Dedup :
    (a b : FileInfo) (sim : Ratio) (seen : Seen) (found : Found)
    → str_eq (hash_of b) (hash_of a) ≡ false
    → seen_pair (hash_of a) (hash_of b) seen ≡ false
    → Dedup ((hash_of a, hash_of b) ∷ seen) found
    → Dedup seen (found_one (a, (b, sim)) found)
unfolding seen_pair
found_one-Dedup a b sim seen found other fresh d = record {
  new = (
    (other, fresh),
    All-map
        (λ p n. (
          n.0,
          or-false_right (same_pair (hash_of p.0) (hash_of p.1.0) (hash_of a) (hash_of b)) _ n.1,
        ))
        found.0 d.new,
  );
  apart = (
    All-map
        (λ p n.
          or-false_left (same_pair (hash_of p.0) (hash_of p.1.0) (hash_of a) (hash_of b)) _ n.1)
        found.0 d.new,
    d.apart,
  );
  kept = λ x y h. or-false_right (same_pair x y (hash_of a) (hash_of b)) _ (d.kept x y h);
  marked = λ x y h.
      (or-false_left (same_pair x y (hash_of a) (hash_of b)) _ (d.kept x y h), d.marked x y h);
}

intra_candidates-Dedup :
    (files_b : List FileInfo) (a : FileInfo) (cands : List (String × Ratio)) (seen : Seen)
    → Dedup seen (intra_candidates true files_b a cands seen)
intra_candidates-Dedup files_b a [] seen =
    unfold intra_candidates in
    record { new = tt; apart = tt; kept = λ x y h. h; marked = λ x y h. tt }
intra_candidates-Dedup files_b a ((h, sim) ∷ cands) seen =
    elim (intra_candidates-step files_b a h sim cands seen) [
      | inl e ↦ subst (Dedup seen) (sym e) (intra_candidates-Dedup files_b a cands seen)
      | inr (b, (at, (other, (fresh, e)))) ↦
          let rest = intra_candidates true files_b a cands ((hash_of a, h) ∷ seen) in
          subst (Dedup seen) (sym e) (
            found_one-Dedup a b sim seen rest
              (subst (λ x. str_eq x (hash_of a) ≡ false) (sym at) other)
              (subst (λ x. seen_pair (hash_of a) x seen ≡ false) (sym at) fresh)
              (subst (λ x. Dedup ((hash_of a, x) ∷ seen) rest) (sym at)
                (intra_candidates-Dedup files_b a cands ((hash_of a, h) ∷ seen))))
    ]

Apart-append :
    (ps qs : List Pair)
    → Apart ps
    → Apart qs
    → All (λ q. All (λ p. alike q p ≡ false) ps) qs
    → Apart (ps ++ qs)
Apart-append [] qs a b c = b
Apart-append (p ∷ ps) qs (a, as') b c = (
  All-append (λ q. alike q p ≡ false) ps qs a (All-map (λ q h. h.0) qs c),
  Apart-append ps qs as' b (All-map (λ q h. h.1) qs c),
)

intra_files-Apart :
    (index : CandidateIndex) (files_b files : List FileInfo) (seen : Seen)
    → All (New seen) (intra_files index true files_b files seen)
      × Apart (intra_files index true files_b files seen)
unfolding intra_files
intra_files-Apart index files_b [] seen = (tt, tt)
intra_files-Apart index files_b (a ∷ files) seen =
    let found = intra_candidates true files_b a (candidates_of index a) seen in
    let rest = intra_files index true files_b files found.1 in
    let d = intra_candidates-Dedup files_b a (candidates_of index a) seen in
    let (new, apart) = intra_files-Apart index files_b files found.1 in
    (
      All-append (New seen) found.0 rest d.new
          (All-map (λ p n. (n.0, d.kept (hash_of p.0) (hash_of p.1.0) n.1)) rest new),
      Apart-append found.0 rest d.apart apart
          (All-map (λ q n. d.marked (hash_of q.0) (hash_of q.1.0) n.1) rest new),
    )

-- Whatever the index answers, no pair found within a task joins two files of the same content, and no two
-- pairs join the same two contents, in this order or the other.
pub find_candidate_pairs-Apart :
    (index : CandidateIndex) (files : List FileInfo)
    → All (New []) (find_candidate_pairs index files none true)
      × Apart (find_candidate_pairs index files none true)
unfolding find_candidate_pairs
find_candidate_pairs-Apart index files = intra_files-Apart index files (valid_files files) []
