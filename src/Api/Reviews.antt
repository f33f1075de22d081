-- ===== src/Api/Reviews.antt =====
-- The reviews of src/results/service.py, over the rows of `similarity_results` and `files`. A similarity and a
-- threshold are only compared, so they are numbers. A result or a file holds the assignment of its task.
pub mod Marks
pub mod Actions
use rest_api_plagiarism.Prelude.{
  ℕ, ◌+◌, ◌*◌, ◌/◌, String, str_eq, Bool, true, false, Option, none, some, List, [], ◌∷◌, ◌++◌, map,
  leb, ltb, ◌==◌, if◌then◌else◌, length, take, drop,
}
use rest_api_plagiarism.Auth.Users.{Time, second}

pub data Disposition : Type 0 where
  plagiarism bulk_confirmed clear : Disposition

pub record Result : Type 0 where
  pub id : String
  pub assignment_id : String
  pub file_a_id : String
  pub file_b_id : String
  pub ast_similarity : Option ℕ
  pub review_disposition : Option Disposition
  pub reviewed_at : Option Time
  pub reviewed_by : Option String
  pub detection_source : Option String

pub record FileRow : Type 0 where
  pub id : String
  pub assignment_id : String
  pub is_confirmed : Bool
  pub is_deleted : Bool

pub record Db : Type 0 where
  pub results : List Result
  pub files : List FileRow

-- `self.db.get(SimilarityResult, UUID(result_id))`, and the commit of a changed row.
unfoldable pub find_result : String → List Result → Option Result
find_result id [] = none
find_result id (r ∷ rs) = if str_eq r.id id then some r else find_result id rs

unfoldable pub save_result : Result → List Result → List Result
save_result s [] = []
save_result s (r ∷ rs) = if str_eq r.id s.id then s ∷ rs else r ∷ save_result s rs

-- `file.is_confirmed = value` of the row with this id, if there is one.
unfoldable pub set_confirmed : String → Bool → List FileRow → List FileRow
set_confirmed id value [] = []
set_confirmed id value (f ∷ fs) =
    let rest = set_confirmed id value fs in
    if str_eq f.id id then record f { is_confirmed = value } ∷ rest else f ∷ rest

abbrev pub set_both : Result → Bool → List FileRow → List FileRow
set_both r value fs = set_confirmed r.file_b_id value (set_confirmed r.file_a_id value fs)

abbrev pub reviewed : Disposition → Time → String → Result → Result
reviewed d now user r = record r {
  review_disposition = some d;
  reviewed_at = some now;
  reviewed_by = some user;
  detection_source = some "manual";
}

abbrev pub unreviewed : Result → Result
unreviewed r = record r {
  review_disposition = none;
  reviewed_at = none;
  reviewed_by = none;
  detection_source = none;
}

-- The database after a review, or no result of that id.
abbrev pub confirmed_pair : Time → String → Option Result → Db → Option Db
confirmed_pair now user none db = none
confirmed_pair now user (some r) db = some (record {
  results = save_result (reviewed plagiarism now user r) db.results;
  files = set_both r true db.files;
})

unfoldable pub confirm_plagiarism : Time → String → String → Db → Option Db
confirm_plagiarism now user id db = confirmed_pair now user (find_result id db.results) db

abbrev pub cleared_pair : Time → String → Option Result → Db → Option Db
cleared_pair now user none db = none
cleared_pair now user (some r) db =
    some (record db { results = save_result (reviewed clear now user r) db.results })

pub clear_pair : Time → String → String → Db → Option Db
clear_pair now user id db = cleared_pair now user (find_result id db.results) db

abbrev pub is_plagiarism : Option Disposition → Bool
is_plagiarism (some plagiarism) = true
is_plagiarism d = false

abbrev pub undone : Option Result → Db → Option Db
undone none db = none
undone (some r) db = some (record {
  results = save_result (unreviewed r) db.results;
  files = if is_plagiarism r.review_disposition then set_both r false db.files else db.files;
})

unfoldable pub undo_review : String → Db → Option Db
undo_review id db = undone (find_result id db.results) db

-- The WHERE of an assignment's results without a review.
abbrev pub is_none : Option Disposition → Bool
is_none none = true
is_none (some d) = false

abbrev pub is_open : String → Result → Bool
is_open assignment r =
    if str_eq r.assignment_id assignment then is_none r.review_disposition else false

-- UPDATE of the rows with a property, and its `rowcount`
abbrev pub update_where : (Result → Bool) → (Result → Result) → List Result → List Result
update_where p change rs = map (λ r. if p r then change r else r) rs

unfoldable pub count_where : (Result → Bool) → List Result → ℕ
count_where p [] = 0
count_where p (r ∷ rs) = (if p r then 1 else 0) + count_where p rs

-- `ast_similarity > threshold` and `ast_similarity <= threshold`; NULL is neither.
abbrev pub exceeds : ℕ → Option ℕ → Bool
exceeds threshold none = false
exceeds threshold (some s) = ltb threshold s

abbrev pub at_most : ℕ → Option ℕ → Bool
at_most threshold none = false
at_most threshold (some s) = leb s threshold

abbrev pub is_above : String → ℕ → Result → Bool
is_above assignment threshold r =
    if is_open assignment r then exceeds threshold r.ast_similarity else false

abbrev pub is_bulk : Option Disposition → Bool
is_bulk (some bulk_confirmed) = true
is_bulk d = false

abbrev pub since : Time → Option Time → Bool
since start none = false
since start (some t) = leb start t

-- `datetime.now(UTC).replace(microsecond=0)`
abbrev pub whole_second : Time → Time
whole_second t = t / second * second

-- The rows that the second query of `bulk_confirm` finds.
abbrev pub is_fresh : String → Time → Result → Bool
is_fresh assignment later r =
    if str_eq r.assignment_id assignment
    then if is_bulk r.review_disposition then since (whole_second later) r.reviewed_at else false
    else false

-- UPDATE of the files of these rows
pub confirm_files : (Result → Bool) → List Result → List FileRow → List FileRow
confirm_files p [] fs = fs
confirm_files p (r ∷ rs) fs =
    let rest = confirm_files p rs fs in if p r then set_both r true rest else rest

-- `bulk_confirm`, which reads the clock at the update, `now`, and again at the query, `later`.
pub bulk_confirm : Time → Time → String → String → ℕ → Db → ℕ × Db
unfolding count_where confirm_files
bulk_confirm now later user assignment threshold db =
    let p = is_above assignment threshold in
    let n = count_where p db.results in
    let rs = update_where p (reviewed bulk_confirmed now user) db.results in
    let fs = if n == 0 then db.files else confirm_files (is_fresh assignment later) rs db.files in
    (n, record { results = rs; files = fs })

abbrev pub is_below : String → ℕ → Result → Bool
is_below assignment threshold r =
    if is_open assignment r
    then if threshold == 0 then true else at_most threshold r.ast_similarity
    else false

pub bulk_clear : Time → String → String → ℕ → Db → ℕ × Db
unfolding count_where
bulk_clear now user assignment threshold db =
    let p = is_below assignment threshold in
    (
      count_where p db.results,
      record db { results = update_where p (reviewed clear now user) db.results },
    )

-- `get_review_status`: the counts of an assignment
pub record StatusSummary : Type 0 where
  pub total_pairs : ℕ
  pub unreviewed_pairs : ℕ
  pub confirmed : ℕ
  pub bulk : ℕ
  pub cleared : ℕ

abbrev pub is_clear : Option Disposition → Bool
is_clear (some clear) = true
is_clear d = false

abbrev pub of_assignment : String → (Option Disposition → Bool) → Result → Bool
of_assignment assignment q r =
    if str_eq r.assignment_id assignment then q r.review_disposition else false

unfoldable pub get_review_status : String → Db → StatusSummary
unfolding count_where
get_review_status assignment db = record {
  total_pairs = count_where (of_assignment assignment (λ d. true)) db.results;
  unreviewed_pairs = count_where (of_assignment assignment is_none) db.results;
  confirmed = count_where (of_assignment assignment is_plagiarism) db.results;
  bulk = count_where (of_assignment assignment is_bulk) db.results;
  cleared = count_where (of_assignment assignment is_clear) db.results;
}
