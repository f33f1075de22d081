-- ===== src/Api/ReviewQueue.antt =====
-- The lists of pairs of src/results/service.py: the review queue and the pairs by status. ORDER BY ... DESC puts NULL
-- first, and rows of the same similarity stay in the order of the table.
pub mod Ranked
pub mod Totals
use rest_api_plagiarism.Prelude.{
  ℕ, ◌+◌, ◌-◌, ◌*◌, String, str_eq, Bool, true, false, Option, none, some, List, [], ◌∷◌, ◌++◌, leb,
  ◌==◌, if◌then◌else◌, length, take, drop, sort_by,
}
use rest_api_plagiarism.Api.Reviews.{
  Disposition, Result, FileRow, Db, is_open, count_where, is_plagiarism, is_bulk, is_clear,
  of_assignment,
}

abbrev pub null_or_most : Option ℕ → Option ℕ → Bool
null_or_most none b = true
null_or_most (some a) none = false
null_or_most (some a) (some b) = leb b a

-- ORDER BY ast_similarity DESC
abbrev pub most_similar : Result → Result → Bool
most_similar r s = null_or_most r.ast_similarity s.ast_similarity

-- WHERE
unfoldable pub where_rows {ℓ} : {A : Type ℓ} → (A → Bool) → List A → List A
where_rows p [] = []
where_rows p (x ∷ xs) = let rest = where_rows p xs in if p x then x ∷ rest else rest

abbrev pub is_file_of : String → FileRow → Bool
is_file_of assignment f =
    if str_eq f.assignment_id assignment then if f.is_deleted then false else true else false

abbrev pub is_confirmed_of : String → FileRow → Bool
is_confirmed_of assignment f = if is_file_of assignment f then f.is_confirmed else false

-- `id in confirmed_files`
unfoldable pub in_files : String → List FileRow → Bool
in_files id [] = false
in_files id (f ∷ fs) = if str_eq f.id id then true else in_files id fs

-- The bucket of a pair: 0 where neither file is confirmed, 2 where both are.
unfoldable pub bucket : List FileRow → Result → ℕ
unfolding in_files
bucket confirmed r =
    if in_files r.file_a_id confirmed
    then if in_files r.file_b_id confirmed then 2 else 1
    else if in_files r.file_b_id confirmed
    then 1
    else 0

-- `both_unconfirmed + one_unconfirmed + both_confirmed`
unfoldable pub buckets : (Result → ℕ) → List Result → List Result
unfolding where_rows
buckets b rs =
    where_rows (λ r. b r == 0) rs
    ++ (where_rows (λ r. b r == 1) rs ++ where_rows (λ r. b r == 2) rs)

-- `xs[offset : offset + limit]`
abbrev pub page : ℕ → ℕ → List Result → List Result
page limit offset rs = take limit (drop offset rs)

pub record ReviewQueue : Type 0 where
  pub total_files : ℕ
  pub confirmed_files : ℕ
  pub remaining_files : ℕ
  pub queue : List Result
  pub estimated_reviews : ℕ

-- The rows that the query of the pairs gives.
unfoldable pub fetched_pairs : String → ℕ → Db → List Result
unfolding where_rows
fetched_pairs assignment count db =
    take count (sort_by most_similar (where_rows (is_open assignment) db.results))

unfoldable pub get_review_queue : String → ℕ → ℕ → Db → ReviewQueue
unfolding fetched_pairs bucket buckets
get_review_queue assignment limit offset db =
    let all_files = where_rows (is_file_of assignment) db.files in
    let confirmed = where_rows (is_confirmed_of assignment) db.files in
    let queue = buckets (bucket confirmed) (fetched_pairs assignment (limit * 2 + offset) db) in
    record {
      total_files = length all_files;
      confirmed_files = length confirmed;
      remaining_files = length all_files - length confirmed;
      queue = page limit offset queue;
      estimated_reviews = length queue;
    }

-- The condition that a status adds; an unknown one, "unreviewed" and "all" add none.
abbrev pub status_condition : String → Option Disposition → Bool
status_condition status d =
    if str_eq status "unreviewed"
    then true
    else if str_eq status "all"
    then true
    else if str_eq status "confirmed"
    then is_plagiarism d
    else if str_eq status "plagiarism"
    then is_plagiarism d
    else if str_eq status "bulk_confirmed"
    then is_bulk d
    else if str_eq status "cleared"
    then is_clear d
    else if str_eq status "clear"
    then is_clear d
    else true

-- `get_pairs_by_status`: the total and the page.
pub get_pairs_by_status : String → String → ℕ → ℕ → Db → ℕ × List Result
unfolding where_rows count_where
get_pairs_by_status assignment status limit offset db =
    let p = of_assignment assignment (status_condition status) in
    (count_where p db.results, page limit offset (sort_by most_similar (where_rows p db.results)))

abbrev pub has_file : String → Result → Bool
has_file file r = if str_eq r.file_a_id file then true else str_eq r.file_b_id file

-- `get_top_similar_pairs`: the total and the pairs.
unfoldable get_top_similar_pairs : String → ℕ → Db → ℕ × List Result
unfolding where_rows
get_top_similar_pairs file limit db =
    let rs = take limit (sort_by most_similar (where_rows (has_file file) db.results)) in
    (length rs, rs)
