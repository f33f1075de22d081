-- ===== src/Api/Access/Refined.antt =====
-- The rows of src/assignments/subject_access.py answer as the set of rights does.
use rest_api_plagiarism.Prelude.{
  ◌≡◌, refl, sym, ap, ap₂, ◌∙◌, arith, length, inl, inr, String, Bool, true, false, Option, none,
  some, List, [], ◌∷◌,
}
use rest_api_plagiarism.Auth.Users.{Time}
use rest_api_plagiarism.Api.Access.{
  SubjectAccess, matching, scalar_one_or_none, Reply, value, optional_uuid, commit_grant,
  granted_pair, revoked_pair, found_pair, grant_access, revoke_access, has_access,
}
use rest_api_plagiarism.Api.Access.Rights.{
  Rights, Holds, Request, grants, revokes, asks, perform, perform_abstractly, answers,
  answers_abstractly, granted_abstractly, revoked_abstractly, asked, answer_of, set_right, one_if,
  scalar-cases, unchanged-Holds, granted-Holds, revoked-Holds,
}

-- The same answer, and rows that hold the rights behind it.
abbrev Refines : Reply Bool × List SubjectAccess → Reply Bool × Rights → Type 0
Refines (reply, rows) (reply', rights) = (reply ≡ reply') × Holds rows rights

abbrev answer_first : Reply SubjectAccess × List SubjectAccess → Reply Bool × List SubjectAccess
answer_first (reply, rows) = (answer_of reply, rows)

-- Rows without a length are none.
pub empty-matching : (rows : List SubjectAccess) → length rows ≡ 0 → rows ≡ []
empty-matching [] e = refl
empty-matching (x ∷ rows) e = absurd (omega (arith, e))

commit_grant-Refines :
    (access : SubjectAccess) (rows : List SubjectAccess) (rights : Rights)
    → Holds rows rights
    → Refines
        (answer_first (
          commit_grant access
            (scalar_one_or_none (matching access.user_id access.subject_id rows))
            rows))
        (value true, set_right access.user_id access.subject_id true rights)
commit_grant-Refines access rows rights h =
    let u = access.user_id in
    let s = access.subject_id in
    elim (scalar-cases (rights u s) (matching u s rows) (h u s)) [
      | inl (given, existing, e) ↦ rw e (refl, unchanged-Holds u s rows rights h true given)
      | inr (none_yet, e) ↦
          let free = empty-matching (matching u s rows) (h u s ∙ ap one_if none_yet) in
          rw (e, free) (refl, granted-Holds u s rows rights h access refl refl none_yet)
    ]

granted_pair-Refines :
    (id : String) (now : Time) (user subject : Option String) (by : Option (Option String))
    (rows : List SubjectAccess) (rights : Rights)
    → Holds rows rights
    → Refines
        (answer_first (granted_pair id now user subject by rows))
        (granted_abstractly user subject by rights)
granted_pair-Refines id now (some u) (some s) (some by) rows rights h =
    commit_grant-Refines
      (record { id = id; user_id = u; subject_id = s; granted_by = by; granted_at = now }) rows
      rights h
granted_pair-Refines id now none s by rows rights h = (refl, h)
granted_pair-Refines id now (some u) none by rows rights h = (refl, h)
granted_pair-Refines id now (some u) (some s) none rows rights h = (refl, h)

revoked_pair-Refines :
    (user subject : Option String) (rows : List SubjectAccess) (rights : Rights)
    → Holds rows rights
    → Refines (revoked_pair user subject rows) (revoked_abstractly user subject rights)
revoked_pair-Refines (some u) (some s) rows rights h =
    elim (scalar-cases (rights u s) (matching u s rows) (h u s)) [
      | inl (given, access, e) ↦ rw e (ap value (sym given), revoked-Holds u s rows rights h given)
      | inr (none_yet, e) ↦
          rw e (ap value (sym none_yet), unchanged-Holds u s rows rights h false none_yet)
    ]
revoked_pair-Refines none s rows rights h = (refl, h)
revoked_pair-Refines (some u) none rows rights h = (refl, h)

found_pair-Refines :
    (user subject : Option String) (rows : List SubjectAccess) (rights : Rights)
    → Holds rows rights
    → found_pair user subject rows ≡ asked user subject rights
found_pair-Refines (some u) (some s) rows rights h =
    elim (scalar-cases (rights u s) (matching u s rows) (h u s)) [
      | inl (given, access, e) ↦ rw e (ap value (sym given))
      | inr (none_yet, e) ↦ rw e (ap value (sym none_yet))
    ]
found_pair-Refines none s rows rights h = refl
found_pair-Refines (some u) none rows rights h = refl

module _ (uuid : String → Option String) where
  perform-Refines :
      (r : Request) (rows : List SubjectAccess) (rights : Rights)
      → Holds rows rights
      → Refines (perform uuid r rows) (perform_abstractly uuid r rights)
  unfolding grant_access revoke_access has_access
  perform-Refines (grants id now user subject by) rows rights h =
      granted_pair-Refines id now (uuid user) (uuid subject) (optional_uuid uuid by) rows rights h
  perform-Refines (revokes user subject) rows rights h =
      revoked_pair-Refines (uuid user) (uuid subject) rows rights h
  perform-Refines (asks user subject) rows rights h =
      (found_pair-Refines (uuid user) (uuid subject) rows rights h, h)

  -- Grants, revocations and questions that come one after the other are answered as a set of pairs answers them: after a
  -- grant the user has access until a revocation, a revocation tells whether there was one, and none of them finds
  -- several rows. At the start the table has one row for each pair with the right and none for another pair.
  pub answers-abstractly :
      (requests : List Request) (rows : List SubjectAccess) (rights : Rights)
      → Holds rows rights
      → answers uuid requests rows ≡ answers_abstractly uuid requests rights
  answers-abstractly [] rows rights h = refl
  answers-abstractly (r ∷ requests) rows rights h =
      let (e, h') = perform-Refines r rows rights h in
      let rest =
        answers-abstractly requests (perform uuid r rows).1 (perform_abstractly uuid r rights).1
          h' in
      ap₂ (λ x xs. x ∷ xs) e rest
