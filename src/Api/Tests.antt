-- ===== src/Api/Tests.antt =====
-- Runs of the parts of src beside the accounts, and the theorems applied to them.
use rest_api_plagiarism.Prelude.{ℕ, ◌≤◌, ◌≡◌, refl, String, str_eq, arith, List, [], ◌∷◌, length}
use rest_api_plagiarism.Api.Websockets.{
  Manager, may_connect, clients, contains, add_client, check, accept, Reach, here, next,
}
use rest_api_plagiarism.Prelude.{
  ◌+◌, Bool, true, false, Option, none, some, map, if◌then◌else◌, insert_by, sort_by,
}
use rest_api_plagiarism.Auth.Users.{Time}
use rest_api_plagiarism.Api.Reviews.{
  Disposition, plagiarism, Result, FileRow, Db, find_result, save_result, set_confirmed,
  confirm_plagiarism, undo_review, get_review_status,
}
use rest_api_plagiarism.Api.Reviews.Marks.{Marked, is_marked}
use rest_api_plagiarism.Api.Reviews.Actions.{
  Action, confirms, clears, bulk_confirms, bulk_clears, act, or_same, review, review-Marked,
}
use rest_api_plagiarism.Api.ReviewQueue.{
  where_rows, is_confirmed_of, in_files, bucket, buckets, page, fetched_pairs, get_review_queue,
  get_pairs_by_status,
}
use rest_api_plagiarism.Api.ReviewQueue.Ranked.{by_bucket, get_review_queue-sort_by}
use rest_api_plagiarism.Api.ReviewQueue.Totals.{get_review_status-totals}
use rest_api_plagiarism.Api.Access.{
  SubjectAccess, matching, no_row, value, integrity_error, has_access, revoke_access,
}
use rest_api_plagiarism.Api.Access.Rights.{
  Request, grants, revokes, asks, answers, answers_abstractly,
}
use rest_api_plagiarism.Api.Access.Refined.{answers-abstractly}
use rest_api_plagiarism.Api.Access.Overlap.{commit_grants, overlapping_grants-once}
use rest_api_plagiarism.Api.SlidingWindow.{window_of, request_key, is_in}
use rest_api_plagiarism.Api.SlidingWindow.Windows.{count_in}
use rest_api_plagiarism.Api.SlidingWindow.Arrivals.{Arrival, passes, passes_bounds}
use rest_api_plagiarism.Api.Websockets.Limits.{Within, Reach-Within}

-- Two connects overlap, and both are entered.
abbrev both : Manager
both = record { connections = ("t", 2 ∷ 1 ∷ []) ∷ []; accepting = [] }

both-Reach : Reach 2 both
unfolding may_connect clients add_client contains
both-Reach =
    next
      (next (next (next here (check "t" 1 refl (omega arith))) (check "t" 2 refl (omega arith)))
        (accept "t" 1 [] (("t", 2) ∷ []) refl))
      (accept "t" 2 [] [] refl)

Reach-Within_example : Within 2 both
Reach-Within_example = Reach-Within 2 both-Reach

abbrev pair_of : String → String → String → Option ℕ → Option Disposition → Result
pair_of id a b similarity d = record {
  id = id;
  assignment_id = "hw";
  file_a_id = a;
  file_b_id = b;
  ast_similarity = similarity;
  review_disposition = d;
  reviewed_at = none;
  reviewed_by = none;
  detection_source = none;
}

abbrev file_row : String → Bool → FileRow
file_row id is_confirmed = record {
  id = id;
  assignment_id = "hw";
  is_confirmed = is_confirmed;
  is_deleted = false;
}

-- Three pairs without a review: the files of the two most similar ones are confirmed already.
abbrev db : Db
db = record {
  results =
      pair_of "r1" "a" "b" (some 95) none
      ∷ pair_of "r2" "a" "c" (some 90) none
      ∷ pair_of "r3" "d" "e" (some 80) none
      ∷ pair_of "r4" "b" "c" (some 99) (some plagiarism)
      ∷ [];
  files =
      file_row "a" true
      ∷ file_row "b" true
      ∷ file_row "c" true
      ∷ file_row "d" false
      ∷ file_row "e" false
      ∷ [];
}

abbrev actions : List Action
actions =
    confirms 5 "u" "r3"
    ∷ clears 6 "u" "r1"
    ∷ bulk_confirms 1900000 1950000 "u" "hw" 85
    ∷ bulk_clears 7 "u" "hw" 0
    ∷ []

review-Marked_example : Marked (review actions db)
review-Marked_example =
    review-Marked actions db (tt, (tt, (omega arith, (tt, tt))))
      ((λ e. absurd (cc)), ((λ e. absurd (cc)), ((λ e. absurd (cc)), ((λ e. (refl, refl)), tt))))

get_review_queue-sort_by_example :
    (get_review_queue "hw" 2 1 db).queue
    ≡ page 2 1 (
        sort_by
          (by_bucket (bucket (where_rows (is_confirmed_of "hw") db.files)))
          (fetched_pairs "hw" 5 db))
get_review_queue-sort_by_example = get_review_queue-sort_by "hw" 2 1 db

abbrev page_ids : List Result → List String
page_ids rs = map (λ r. r.id) rs

-- The pages of one pair each: "r1" stands on two pages, and "r3", the only pair of files that are not confirmed, on none.
pages :
    (page_ids (get_review_queue "hw" 1 0 db).queue ≡ "r1" ∷ [])
    × (page_ids (get_review_queue "hw" 1 1 db).queue ≡ "r1" ∷ [])
    × (page_ids (get_review_queue "hw" 1 2 db).queue ≡ "r2" ∷ [])
    × (page_ids (get_review_queue "hw" 1 3 db).queue ≡ [])
unfolding get_review_queue fetched_pairs where_rows bucket buckets in_files sort_by insert_by
pages = (refl, refl, refl, refl)

get_review_status-totals_example :
    let summary = get_review_status "hw" db in
    let listed = λ (status : String). (get_pairs_by_status "hw" status 10 0 db).0 in
    (summary.total_pairs
      ≡ summary.unreviewed_pairs + summary.confirmed + summary.bulk + summary.cleared)
    × (listed "confirmed" ≡ summary.confirmed)
    × (listed "bulk_confirmed" ≡ summary.bulk)
    × (listed "cleared" ≡ summary.cleared)
    × (listed "unreviewed" ≡ summary.total_pairs)
get_review_status-totals_example = get_review_status-totals "hw" 10 0 db

-- Undoing one review takes the mark off a file of another confirmed pair.
undo_unmarks :
    is_marked "b" (or_same (undo_review "r1" (act (confirms 5 "u" "r1") db)) db).files ≡ false
unfolding confirm_plagiarism undo_review find_result save_result set_confirmed
undo_unmarks = refl

abbrev uuid : String → Option String
uuid s = if str_eq s "" then none else some s

abbrev requests : List Request
requests =
    grants "1" 5 "ann" "math" none
    ∷ asks "ann" "math"
    ∷ grants "2" 6 "ann" "math" (some "bob")
    ∷ revokes "ann" "math"
    ∷ asks "ann" "math"
    ∷ revokes "ann" "math"
    ∷ []

nobody : (user subject : String) → length (matching user subject []) ≡ 0
unfolding matching
nobody user subject = refl

answers-abstractly_example :
    answers uuid requests [] ≡ answers_abstractly uuid requests (λ user subject. false)
answers-abstractly_example = answers-abstractly uuid requests [] (λ user subject. false) nobody

abbrev access_of : String → SubjectAccess
access_of id = record {
  id = id;
  user_id = "ann";
  subject_id = "math";
  granted_by = none;
  granted_at = 5;
}

-- Three grants to Ann that overlap.
overlapping_grants-once_example :
    (commit_grants no_row (access_of "1" ∷ access_of "2" ∷ access_of "3" ∷ []) []
      ≡ (value (access_of "1") ∷ integrity_error ∷ integrity_error ∷ [], access_of "1" ∷ []))
    × (has_access uuid "ann" "math" (access_of "1" ∷ []) ≡ value true)
    × (revoke_access uuid "ann" "math" (access_of "1" ∷ []) ≡ (value true, []))
unfolding matching
overlapping_grants-once_example =
    overlapping_grants-once uuid "ann" "math" (access_of "1") (access_of "2" ∷ access_of "3" ∷ [])
      [] refl refl ((refl, refl), ((refl, refl), tt)) refl

abbrev arrival : String → Time → Arrival
arrival client_ip time = record { path = "/files"; client_ip = client_ip; time = time }

abbrev arrivals_ : List Arrival
arrivals_ =
    arrival "10.0.0.1" 1000000
    ∷ arrival "10.0.0.2" 1500000
    ∷ arrival "10.0.0.1" 2000000
    ∷ arrival "10.0.0.1" 2500000
    ∷ arrival "10.0.0.1" 3500000
    ∷ []

passes_bounds_example :
    count_in
      (window_of 2)
      3500000
      (passes 2 2 ("/docs" ∷ []) (request_key "/files" "10.0.0.1") arrivals_ (λ k. none))
    ≤ 2
unfolding is_in
passes_bounds_example =
    passes_bounds 2 2 ("/docs" ∷ []) (request_key "/files" "10.0.0.1") arrivals_ (λ k. none) 3500000
      refl (refl, (refl, (refl, (refl, (refl, tt)))))
      (omega arith, (omega arith, (omega arith, (omega arith, (omega arith, tt))))) refl
