-- ===== src/Detection/Merge/Covering.antt =====
-- What `_merge_matches` of detection/merge_helpers.py keeps of the lines and counts.
use rest_api_plagiarism.Prelude.{
  ℕ, ◌+◌, ◌≤◌, true, false, ◌≡◌, refl, ◌⊎◌, inl, inr, List, [], ◌∷◌, arith, if◌then◌else◌,
  Bool-cases, All, Any, sum_of, sort_by, Ascending, sort_by-Any, sort_by-sum_of, sort_by-Ascending,
}
use rest_api_plagiarism.Detection.Match.{PlagiarismType, same_type, type_value, Match}
use rest_api_plagiarism.Detection.Merge.{
  starts_before, mergeable, absorb, merge_into, merge_sorted, merge_matches,
}

-- The match reports line `x` of file 1 under the type `t`.
abbrev pub Reports : PlagiarismType → ℕ → Match → Type 0
Reports t x m =
    (type_value m.plagiarism_type ≡ type_value t)
    × ((m.file1.start_line ≤ x) × (x ≤ m.file1.end_line))

pub starts_before-total : (m n : Match) → starts_before m n ≡ false → starts_before n m ≡ true
starts_before-total m n h = ground arith

pub starts_before_trans :
    (m n o : Match) → starts_before m n ≡ true → starts_before n o ≡ true → starts_before m o ≡ true
starts_before_trans m n o h k = ground arith

starts_before-le :
    (m n : Match) → starts_before m n ≡ true → m.file1.start_line ≤ n.file1.start_line
starts_before-le m n h = ground arith

mergeable-type :
    (gap : ℕ) (p m : Match)
    → mergeable gap p m ≡ true
    → type_value m.plagiarism_type ≡ type_value p.plagiarism_type
mergeable-type gap p m h = ground arith

absorb-Reports :
    (gap : ℕ) (t : PlagiarismType) (x : ℕ) (p m : Match)
    → mergeable gap p m ≡ true
    → p.file1.start_line ≤ m.file1.start_line
    → Reports t x p ⊎ Reports t x m
    → Reports t x (absorb p m)
absorb-Reports gap t x p m h le (inl (e, (lo, hi))) = (e, (lo, omega arith))
absorb-Reports gap t x p m h le (inr (e, (lo, hi))) =
    (omega (arith, mergeable-type gap p m h, e), (omega arith, omega arith))

abbrev pub After : Match → List Match → Type 0
After p ms = All (λ m. p.file1.start_line ≤ m.file1.start_line) ms

abbrev pub StartsAscend : List Match → Type 0
StartsAscend [] = Unit
StartsAscend (m ∷ ms) = After m ms × StartsAscend ms

pub Ascending-StartsAscend : (ms : List Match) → Ascending starts_before ms → StartsAscend ms
Ascending-StartsAscend [] s = tt
Ascending-StartsAscend (m ∷ ms) (p, ps) = (after ms p, Ascending-StartsAscend ms ps)
  where
    after : (ns : List Match) → All (λ n. starts_before m n ≡ true) ns → After m ns
    after [] q = tt
    after (n ∷ ns) (q, qs) = (starts_before-le m n q, after ns qs)

merge_into-Reports :
    (gap : ℕ) (t : PlagiarismType) (x : ℕ) (p : Match) (ms : List Match)
    → After p ms
    → StartsAscend ms
    → Reports t x p ⊎ Any (Reports t x) ms
    → Any (Reports t x) (merge_into gap p ms)
unfolding merge_into
merge_into-Reports gap t x p [] a s r = r
merge_into-Reports gap t x p (m ∷ ms) (a, later) (b, bs) r = elim (Bool-cases (mergeable gap p m)) [
  | inl h ↦ rw h (
      merge_into-Reports gap t x (absorb p m) ms later bs (elim r [
        | inl q ↦ inl (absorb-Reports gap t x p m h a (inl q))
        | inr (inl q) ↦ inl (absorb-Reports gap t x p m h a (inr q))
        | inr (inr qs) ↦ inr qs
      ]))
  | inr h ↦ rw h (elim r [ inl q ↦ inl q | inr qs ↦ inr (merge_into-Reports gap t x m ms b bs qs) ])
]

-- A line of file 1 that some match reports under a type is reported under that type by a match that
-- `_merge_matches` returns.
pub merge_matches-Reports :
    (gap : ℕ) (t : PlagiarismType) (x : ℕ) (ms : List Match)
    → Any (Reports t x) ms
    → Any (Reports t x) (merge_matches gap ms)
unfolding merge_matches
merge_matches-Reports gap t x ms r =
    go (sort_by starts_before ms)
      (Ascending-StartsAscend (sort_by starts_before ms)
        (sort_by-Ascending starts_before starts_before-total starts_before_trans ms))
      (sort_by-Any starts_before (Reports t x) ms r)
  where
    go :
        (ns : List Match)
        → StartsAscend ns
        → Any (Reports t x) ns
        → Any (Reports t x) (merge_sorted gap ns)
    go [] s q = q
    go (n ∷ ns) (a, s) q = merge_into-Reports gap t x n ns a s q

-- The k-grams of a match of type `t`; 0 for another type.
abbrev pub count_of : PlagiarismType → Match → ℕ
count_of t m = if same_type m.plagiarism_type t then m.kgram_count else 0

absorb-count_of :
    (gap : ℕ) (t : PlagiarismType) (p m : Match)
    → mergeable gap p m ≡ true
    → count_of t (absorb p m) ≡ count_of t p + count_of t m
absorb-count_of gap t p m h = let e = mergeable-type gap p m h in ground arith

merge_into-count_of :
    (gap : ℕ) (t : PlagiarismType) (p : Match) (ms : List Match)
    → sum_of (count_of t) (merge_into gap p ms) ≡ count_of t p + sum_of (count_of t) ms
unfolding merge_into
merge_into-count_of gap t p [] = refl
merge_into-count_of gap t p (m ∷ ms) = elim (Bool-cases (mergeable gap p m)) [
  | inl h ↦
      let ih = merge_into-count_of gap t (absorb p m) ms in
      let e = absorb-count_of gap t p m h in rw h (omega (arith, ih, e))
  | inr h ↦ let ih = merge_into-count_of gap t m ms in rw h (omega (arith, ih))
]

merge_sorted-count_of :
    (gap : ℕ) (t : PlagiarismType) (ms : List Match)
    → sum_of (count_of t) (merge_sorted gap ms) ≡ sum_of (count_of t) ms
merge_sorted-count_of gap t [] = refl
merge_sorted-count_of gap t (m ∷ ms) = merge_into-count_of gap t m ms

-- `_merge_matches` neither loses nor invents k-grams: their number is kept for each type.
pub merge_matches-count_of :
    (gap : ℕ) (t : PlagiarismType) (ms : List Match)
    → sum_of (count_of t) (merge_matches gap ms) ≡ sum_of (count_of t) ms
unfolding merge_matches
merge_matches-count_of gap t ms =
    let e = sort_by-sum_of starts_before (count_of t) ms in
    let here = merge_sorted-count_of gap t (sort_by starts_before ms) in omega (arith, e, here)
