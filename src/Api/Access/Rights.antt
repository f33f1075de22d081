-- ===== src/Api/Access/Rights.antt =====
-- The accesses of src/assignments/subject_access.py as a relation between users and subjects.
use rest_api_plagiarism.Prelude.{
  ℕ, ◌+◌, ◌-◌, ◌≡◌, refl, ap, subst, ◌∙◌, ◌⊎◌, inl, inr, arith, String, str_eq, str_eq_iff,
  str_eq_refl, Bool, true, false, Option, none, some, List, [], ◌∷◌, ◌++◌, length, if◌then◌else◌,
  Bool-cases,
}
use rest_api_plagiarism.Auth.Users.{Time}
use rest_api_plagiarism.Api.Access.{
  SubjectAccess, same, matching, no_row, one_row, scalar_one_or_none, Reply, value, value_error,
  multiple_results_found, integrity_error, optional_uuid, delete_row, grant_access, revoke_access,
  has_access,
}

-- Who may use what.
abbrev pub Rights : Type 0
Rights = String → String → Bool

abbrev pub set_right : String → String → Bool → Rights → Rights
set_right user subject b rights user' subject' =
    if same user subject user' subject' then b else rights user' subject'

abbrev pub one_if : Bool → ℕ
one_if b = if b then 1 else 0

-- Each pair has one row where the right is given, and none otherwise.
abbrev pub Holds : List SubjectAccess → Rights → Type 0
Holds rows rights =
    (user subject : String) → length (matching user subject rows) ≡ one_if (rights user subject)

pub data Request : Type 0 where
  grants : String → Time → String → String → Option String → Request
  revokes asks : String → String → Request

abbrev pub answer_of : Reply SubjectAccess → Reply Bool
answer_of (value access) = value true
answer_of value_error = value_error
answer_of multiple_results_found = multiple_results_found
answer_of integrity_error = integrity_error

abbrev pub granted_abstractly :
    Option String → Option String → Option (Option String) → Rights → Reply Bool × Rights
granted_abstractly (some user) (some subject) (some by) rights =
    (value true, set_right user subject true rights)
granted_abstractly none subject by rights = (value_error, rights)
granted_abstractly (some user) none by rights = (value_error, rights)
granted_abstractly (some user) (some subject) none rights = (value_error, rights)

abbrev pub revoked_abstractly : Option String → Option String → Rights → Reply Bool × Rights
revoked_abstractly (some user) (some subject) rights =
    (value (rights user subject), set_right user subject false rights)
revoked_abstractly none subject rights = (value false, rights)
revoked_abstractly (some user) none rights = (value false, rights)

abbrev pub asked : Option String → Option String → Rights → Reply Bool
asked (some user) (some subject) rights = value (rights user subject)
asked none subject rights = value false
asked (some user) none rights = value false

module _ (uuid : String → Option String) where
  abbrev pub perform : Request → List SubjectAccess → Reply Bool × List SubjectAccess
  perform (grants id now user subject by) rows =
      let (reply, rows') = grant_access uuid id now user subject by rows in (answer_of reply, rows')
  perform (revokes user subject) rows = revoke_access uuid user subject rows
  perform (asks user subject) rows = (has_access uuid user subject rows, rows)

  -- The specification: a set of rights.
  abbrev pub perform_abstractly : Request → Rights → Reply Bool × Rights
  perform_abstractly (grants id now user subject by) rights =
      granted_abstractly (uuid user) (uuid subject) (optional_uuid uuid by) rights
  perform_abstractly (revokes user subject) rights =
      revoked_abstractly (uuid user) (uuid subject) rights
  perform_abstractly (asks user subject) rights = (asked (uuid user) (uuid subject) rights, rights)

  -- The answers to a sequence of requests.
  abbrev pub answers : List Request → List SubjectAccess → List (Reply Bool)
  answers [] rows = []
  answers (r ∷ requests) rows =
      let (reply, rows') = perform r rows in reply ∷ answers requests rows'

  abbrev pub answers_abstractly : List Request → Rights → List (Reply Bool)
  answers_abstractly [] rights = []
  answers_abstractly (r ∷ requests) rights =
      let (reply, rights') = perform_abstractly r rights in
      reply ∷ answers_abstractly requests rights'

same-eq : (u s u' s' : String) → same u s u' s' ≡ true → (u ≡ u') × (s ≡ s')
same-eq u s u' s' h = elim (Bool-cases (str_eq u u')) [
  | inl y ↦ ((str_eq_iff u u').0 y, (str_eq_iff s s').0 (rw y at h))
  | inr n ↦ let h' = rw n at h in absurd (cc)
]

pub same_self : (u s : String) → same u s u s ≡ true
same_self u s = rw (str_eq_refl u, str_eq_refl s)

pub length-matching_append :
    (user subject : String) (rows : List SubjectAccess) (a : SubjectAccess)
    → length (matching user subject (rows ++ a ∷ []))
      ≡ length (matching user subject rows) + one_if (same a.user_id a.subject_id user subject)
unfolding matching
length-matching_append user subject [] a =
    elim (Bool-cases (same a.user_id a.subject_id user subject)) [
      | inl y ↦ rw y (omega arith)
      | inr n ↦ rw n (omega arith)
    ]
length-matching_append user subject (r ∷ rows) a =
    let ih = length-matching_append user subject rows a in
    elim (Bool-cases (same r.user_id r.subject_id user subject)) [
      | inl y ↦ rw y (omega (arith, ih))
      | inr n ↦ rw n ih
    ]

length-matching_delete :
    (user subject : String) (rows : List SubjectAccess)
    → length (matching user subject (delete_row user subject rows))
      ≡ length (matching user subject rows) - 1
unfolding matching delete_row
length-matching_delete user subject [] = omega arith
length-matching_delete user subject (r ∷ rows) =
    let ih = length-matching_delete user subject rows in
    elim (Bool-cases (same r.user_id r.subject_id user subject)) [
      | inl y ↦ rw y (omega arith)
      | inr n ↦ rw n (rw n ih)
    ]

length-matching_other :
    (user subject user' subject' : String) (rows : List SubjectAccess)
    → same user subject user' subject' ≡ false
    → length (matching user' subject' (delete_row user subject rows))
      ≡ length (matching user' subject' rows)
unfolding matching delete_row
length-matching_other user subject user' subject' [] ne = refl
length-matching_other user subject user' subject' (r ∷ rows) ne =
    let ih = length-matching_other user subject user' subject' rows ne in
    elim (Bool-cases (same r.user_id r.subject_id user subject)) [
      | inl y ↦
          let (eu, es) = same-eq r.user_id r.subject_id user subject y in
          let not_theirs : same r.user_id r.subject_id user' subject' ≡ false = rw (eu, es) ne in
          rw (y, not_theirs)
      | inr n ↦ elim (Bool-cases (same r.user_id r.subject_id user' subject')) [
        | inl z ↦ rw (n, z) (omega (arith, ih))
        | inr z ↦ rw (n, z) ih
      ]
    ]

-- The row of a pair, as its right tells.
pub scalar-cases :
    (b : Bool) (rows : List SubjectAccess)
    → length rows ≡ one_if b
    → ((b ≡ true) × (x : SubjectAccess) × (scalar_one_or_none rows ≡ one_row x))
      ⊎ ((b ≡ false) × (scalar_one_or_none rows ≡ no_row))
scalar-cases true [] e = absurd (omega (arith, e))
scalar-cases true (x ∷ []) e = inl (refl, x, refl)
scalar-cases true (x ∷ y ∷ rows) e = absurd (omega (arith, e))
scalar-cases false [] e = inr (refl, refl)
scalar-cases false (x ∷ rows) e = absurd (omega (arith, e))

module _ (user subject : String) (rows : List SubjectAccess) (rights : Rights)
    (h : Holds rows rights) where
  -- A right that is set to what it is.
  pub unchanged-Holds :
      (b : Bool) → rights user subject ≡ b → Holds rows (set_right user subject b rights)
  unchanged-Holds b e user' subject' = elim (Bool-cases (same user subject user' subject')) [
    | inl y ↦
        let (eu, es) = same-eq user subject user' subject' y in
        let there : rights user' subject' ≡ b =
          subst (λ s. rights user' s ≡ b) es (subst (λ u. rights u subject ≡ b) eu e) in
        rw (y) (h user' subject' ∙ ap one_if there)
    | inr n ↦ rw n (h user' subject')
  ]

  pub granted-Holds :
      (a : SubjectAccess)
      → a.user_id ≡ user
      → a.subject_id ≡ subject
      → rights user subject ≡ false
      → Holds (rows ++ a ∷ []) (set_right user subject true rights)
  granted-Holds a eu es none_yet user' subject' =
      let both = length-matching_append user' subject' rows a in
      let mine : same a.user_id a.subject_id user' subject' ≡ same user subject user' subject' =
        rw (eu, es) in
      let before = h user' subject' in
      elim (Bool-cases (same user subject user' subject')) [
        | inl y ↦
            let no : length (matching user' subject' rows) ≡ 0 =
              unchanged-Holds false none_yet user' subject' ∙ zero_at user' subject' y in
            let counted : one_if (same a.user_id a.subject_id user' subject') ≡ 1 = rw (mine, y) in
            rw y (omega (arith, both, no, counted))
        | inr n ↦
            let counted : one_if (same a.user_id a.subject_id user' subject') ≡ 0 = rw (mine, n) in
            rw n (omega (arith, both, before, counted))
      ]
    where
      zero_at :
          (user' subject' : String)
          → same user subject user' subject' ≡ true
          → one_if (set_right user subject false rights user' subject') ≡ 0
      zero_at user' subject' y = rw y

  pub revoked-Holds :
      rights user subject ≡ true
      → Holds (delete_row user subject rows) (set_right user subject false rights)
  revoked-Holds given user' subject' = elim (Bool-cases (same user subject user' subject')) [
    | inl y ↦
        let (eu, es) = same-eq user subject user' subject' y in
        let here = length-matching_delete user subject rows in
        let one : length (matching user subject rows) ≡ 1 = h user subject ∙ ap one_if given in
        let gone : length (matching user subject (delete_row user subject rows)) ≡ 0 =
          omega (arith, here, one) in
        rw y (
          subst (λ s. length (matching user' s (delete_row user subject rows)) ≡ 0) es
            (subst (λ u. length (matching u subject (delete_row user subject rows)) ≡ 0) eu gone))
    | inr n ↦ rw n (length-matching_other user subject user' subject' rows n ∙ h user' subject')
  ]
