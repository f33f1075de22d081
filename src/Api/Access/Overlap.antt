-- ===== src/Api/Access/Overlap.antt =====
-- Grants of src/assignments/subject_access.py that overlap.
use rest_api_plagiarism.Prelude.{
  ◌≡◌, refl, sym, ap, subst, inl, inr, String, true, Bool-cases, Option, some, List, [], ◌∷◌, ◌++◌,
  map, All,
}
use rest_api_plagiarism.Api.Access.{
  SubjectAccess, same, matching, Scalar, no_row, scalar_one_or_none, Reply, value, integrity_error,
  commit_grant, delete_row, revoke_access, has_access,
}
use rest_api_plagiarism.Api.Access.Rights.{same_self}

-- The commits of grants that all looked before the first of them, and saw the same.
abbrev pub commit_grants :
    Scalar
    → List SubjectAccess
    → List SubjectAccess
    → List (Reply SubjectAccess) × List SubjectAccess
commit_grants seen [] rows = ([], rows)
commit_grants seen (a ∷ grants) rows =
    let (reply, rows') = commit_grant a seen rows in
    let (replies, rows'') = commit_grants seen grants rows' in (reply ∷ replies, rows'')

-- A row is for the pair of another.
abbrev pub SamePair : SubjectAccess → SubjectAccess → Type 0
SamePair a b = (b.user_id ≡ a.user_id) × (b.subject_id ≡ a.subject_id)

matching-append :
    (a : SubjectAccess) (rows : List SubjectAccess)
    → matching a.user_id a.subject_id rows ≡ []
    → (matching a.user_id a.subject_id (rows ++ a ∷ []) ≡ a ∷ [])
      × (delete_row a.user_id a.subject_id (rows ++ a ∷ []) ≡ rows)
unfolding matching delete_row
matching-append a [] h = let mine = same_self a.user_id a.subject_id in rw mine (refl, refl)
matching-append a (r ∷ rows) h =
    elim (Bool-cases (same r.user_id r.subject_id a.user_id a.subject_id)) [
      | inl y ↦ let h' = rw y at h in absurd (cc)
      | inr n ↦
          let (found, kept) = matching-append a rows (rw n at h) in
          rw n (found, ap (λ (rs : List SubjectAccess). r ∷ rs) kept)
    ]

-- Every commit behind the first one breaks the constraint.
later_commits :
    (a : SubjectAccess) (grants rows : List SubjectAccess)
    → All (SamePair a) grants
    → matching a.user_id a.subject_id rows ≡ a ∷ []
    → commit_grants no_row grants rows ≡ (map (λ b. integrity_error) grants, rows)
later_commits a [] rows each h = refl
later_commits a (b ∷ grants) rows ((eu, es), each) h =
    let there : matching b.user_id b.subject_id rows ≡ a ∷ [] = rw (eu, es) h in
    rw (there, later_commits a grants rows each h)

-- Any number of grants of one pair that all look before the first of them commits, and find no row: the first commit is
-- answered with its row, each later one raises an IntegrityError, and the table has that one row more. `has_access`
-- then finds it, and a revocation takes it away again and leaves the rows that were there before the grants.
pub overlapping_grants-once :
    (uuid : String → Option String) (user_id subject_id : String) (a : SubjectAccess)
    (grants rows : List SubjectAccess)
    → uuid user_id ≡ some a.user_id
    → uuid subject_id ≡ some a.subject_id
    → All (SamePair a) grants
    → matching a.user_id a.subject_id rows ≡ []
    → let seen = scalar_one_or_none (matching a.user_id a.subject_id rows) in
      let rows' = rows ++ a ∷ [] in
      (commit_grants seen (a ∷ grants) rows ≡ (value a ∷ map (λ b. integrity_error) grants, rows'))
      × (has_access uuid user_id subject_id rows' ≡ value true)
      × (revoke_access uuid user_id subject_id rows' ≡ (value true, rows))
unfolding has_access revoke_access
overlapping_grants-once uuid user_id subject_id a grants rows is_user is_subject each none_yet =
    let (found, back) = matching-append a rows none_yet in
    let saw_none : scalar_one_or_none (matching a.user_id a.subject_id rows) ≡ no_row =
      rw none_yet in
    let later = later_commits a grants (rows ++ a ∷ []) each found in
    let outcome : List (Reply SubjectAccess) × List SubjectAccess =
      (value a ∷ map (λ b. integrity_error) grants, rows ++ a ∷ []) in
    let first : commit_grants no_row (a ∷ grants) rows ≡ outcome = rw (none_yet, later) in
    (
      subst (λ seen. commit_grants seen (a ∷ grants) rows ≡ outcome) (sym saw_none) first,
      rw (is_user, is_subject, found),
      rw (is_user, is_subject, found, back),
    )
