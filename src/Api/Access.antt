-- ===== src/Api/Access.antt =====
-- src/assignments/subject_access.py, and the checks of src/assignments/dependencies.py. `uuid` stands for
-- `uuid.UUID`, which reads a text or raises a ValueError; equal identifiers are equal texts behind it.
pub mod Rights
pub mod Refined
pub mod Overlap
use rest_api_plagiarism.Prelude.{
  ℕ, String, str_eq, Bool, true, false, Option, none, some, List, [], ◌∷◌, ◌++◌, if◌then◌else◌,
}
use rest_api_plagiarism.Auth.Users.{Time, User}

pub record SubjectAccess : Type 0 where
  pub id : String
  pub user_id : String
  pub subject_id : String
  pub granted_by : Option String
  pub granted_at : Time

-- One pair of a user and a subject is another.
abbrev pub same : String → String → String → String → Bool
same user subject user' subject' = if str_eq user user' then str_eq subject subject' else false

-- The rows that the SELECT of a user and a subject finds.
unfoldable pub matching : String → String → List SubjectAccess → List SubjectAccess
matching user subject [] = []
matching user subject (r ∷ rows) =
    let rest = matching user subject rows in
    if same r.user_id r.subject_id user subject then r ∷ rest else rest

-- `scalar_one_or_none`, which raises MultipleResultsFound for several rows.
pub data Scalar : Type 0 where
  no_row many_rows : Scalar
  one_row : SubjectAccess → Scalar

abbrev pub scalar_one_or_none : List SubjectAccess → Scalar
scalar_one_or_none [] = no_row
scalar_one_or_none (r ∷ []) = one_row r
scalar_one_or_none (r ∷ r' ∷ rows) = many_rows

-- What a method returns, or the exception that it raises.
pub data Reply {ℓ} (A : Type ℓ) : Type ℓ where
  value : A → Reply A
  value_error multiple_results_found integrity_error : Reply A

-- `uuid.UUID(granted_by) if granted_by else None`
abbrev pub optional_uuid : (String → Option String) → Option String → Option (Option String)
optional_uuid uuid none = some none
optional_uuid uuid (some s) =
    if str_eq s "" then some none else elim (uuid s) [ none ↦ none | some u ↦ some (some u) ]

-- INSERT at the commit, under the constraint `uq_subject_access_user_subject`: a second row of one pair is refused, and
-- the table is left as it is. The second argument holds the rows of the pair.
abbrev pub insert_row :
    SubjectAccess
    → List SubjectAccess
    → List SubjectAccess
    → Reply SubjectAccess × List SubjectAccess
insert_row access [] rows = (value access, rows ++ access ∷ [])
insert_row access (r ∷ same_pair) rows = (integrity_error, rows)

-- The rest of a grant behind its look for a row that is there.
abbrev pub commit_grant :
    SubjectAccess → Scalar → List SubjectAccess → Reply SubjectAccess × List SubjectAccess
commit_grant access no_row rows =
    insert_row access (matching access.user_id access.subject_id rows) rows
commit_grant access (one_row existing) rows = (value existing, rows)
commit_grant access many_rows rows = (multiple_results_found, rows)

abbrev pub granted_pair :
    String
    → Time
    → Option String
    → Option String
    → Option (Option String)
    → List SubjectAccess
    → Reply SubjectAccess × List SubjectAccess
granted_pair id now (some user) (some subject) (some by) rows =
    let access : SubjectAccess = record {
      id = id;
      user_id = user;
      subject_id = subject;
      granted_by = by;
      granted_at = now;
    } in
    commit_grant access (scalar_one_or_none (matching user subject rows)) rows
granted_pair id now none subject by rows = (value_error, rows)
granted_pair id now (some user) none by rows = (value_error, rows)
granted_pair id now (some user) (some subject) none rows = (value_error, rows)

-- `session.delete` of the row that was found.
pub delete_row : String → String → List SubjectAccess → List SubjectAccess
delete_row user subject [] = []
delete_row user subject (r ∷ rows) =
    let rest = delete_row user subject rows in
    if same r.user_id r.subject_id user subject then rows else r ∷ rest

abbrev pub commit_revoke :
    String → String → Scalar → List SubjectAccess → Reply Bool × List SubjectAccess
commit_revoke user subject no_row rows = (value false, rows)
commit_revoke user subject (one_row access) rows = (value true, delete_row user subject rows)
commit_revoke user subject many_rows rows = (multiple_results_found, rows)

abbrev pub revoked_pair :
    Option String → Option String → List SubjectAccess → Reply Bool × List SubjectAccess
revoked_pair (some user) (some subject) rows =
    commit_revoke user subject (scalar_one_or_none (matching user subject rows)) rows
revoked_pair none subject rows = (value false, rows)
revoked_pair (some user) none rows = (value false, rows)

abbrev pub is_found : Scalar → Reply Bool
is_found no_row = value false
is_found (one_row access) = value true
is_found many_rows = multiple_results_found

abbrev pub found_pair : Option String → Option String → List SubjectAccess → Reply Bool
found_pair (some user) (some subject) rows =
    is_found (scalar_one_or_none (matching user subject rows))
found_pair none subject rows = value false
found_pair (some user) none rows = value false

-- What an endpoint lets a user do.
pub data Decision : Type 0 where
  allowed_to forbidden fails : Decision

abbrev pub decided : Reply Bool → Decision
decided (value true) = allowed_to
decided (value false) = forbidden
decided value_error = fails
decided multiple_results_found = fails
decided integrity_error = fails

module _ (uuid : String → Option String) where
  pub grant_access :
      String
      → Time
      → String
      → String
      → Option String
      → List SubjectAccess
      → Reply SubjectAccess × List SubjectAccess
  unfolding matching
  grant_access id now user_id subject_id granted_by rows =
      granted_pair id now (uuid user_id) (uuid subject_id) (optional_uuid uuid granted_by) rows

  pub revoke_access : String → String → List SubjectAccess → Reply Bool × List SubjectAccess
  unfolding matching
  revoke_access user_id subject_id rows = revoked_pair (uuid user_id) (uuid subject_id) rows

  pub has_access : String → String → List SubjectAccess → Reply Bool
  unfolding matching
  has_access user_id subject_id rows = found_pair (uuid user_id) (uuid subject_id) rows

  -- `require_subject_access_by_id`, `valid_subject_with_access` of a subject that is there, and `can_manage_subject`
  unfoldable require_subject_access_by_id : User → String → List SubjectAccess → Decision
  unfolding has_access
  require_subject_access_by_id u subject_id rows =
      if u.is_global_admin then allowed_to else decided (has_access u.id subject_id rows)

  abbrev pub by_assignment : User → Option String → List SubjectAccess → Decision
  by_assignment u none rows = forbidden
  by_assignment u (some subject_id) rows =
      if str_eq subject_id "" then forbidden else decided (has_access u.id subject_id rows)

  -- `require_subject_access`, by the subject of the assignment.
  unfoldable require_subject_access : User → Option String → List SubjectAccess → Decision
  unfolding has_access
  require_subject_access u subject_id rows =
      if u.is_global_admin then allowed_to else by_assignment u subject_id rows

-- The subjects of a user, and the rows of the members of a subject.
unfoldable get_user_subjects : String → List SubjectAccess → List String
get_user_subjects user [] = []
get_user_subjects user (r ∷ rows) =
    let rest = get_user_subjects user rows in
    if str_eq r.user_id user then r.subject_id ∷ rest else rest
