-- ===== src/Api/ReviewQueue/Totals.antt =====
-- The counts of src/results/service.py: the status summary against the lists by status.
use rest_api_plagiarism.Prelude.{
  ℕ, ◌+◌, ◌≡◌, refl, arith, String, str_eq, Bool, true, false, Option, none, some, List, [], ◌∷◌,
  if◌then◌else◌,
}
use rest_api_plagiarism.Api.Reviews.{
  Disposition, plagiarism, bulk_confirmed, clear, Result, Db, count_where, is_none, is_plagiarism,
  is_bulk, is_clear, of_assignment, get_review_status,
}
use rest_api_plagiarism.Api.ReviewQueue.{get_pairs_by_status}

abbrev one_where : Bool → (Option Disposition → Bool) → Option Disposition → ℕ
one_where here q d = if (if here then q d else false) then 1 else 0

module _ (assignment : String) where
  one_disposition :
      (here : Bool) (d : Option Disposition)
      → one_where here (λ d. true) d
        ≡ one_where here is_none d
          + one_where here is_plagiarism d
          + one_where here is_bulk d
          + one_where here is_clear d
  one_disposition false d = omega arith
  one_disposition true none = omega arith
  one_disposition true (some plagiarism) = omega arith
  one_disposition true (some bulk_confirmed) = omega arith
  one_disposition true (some clear) = omega arith

  count_where-split :
      (rs : List Result)
      → count_where (of_assignment assignment (λ d. true)) rs
        ≡ count_where (of_assignment assignment is_none) rs
          + count_where (of_assignment assignment is_plagiarism) rs
          + count_where (of_assignment assignment is_bulk) rs
          + count_where (of_assignment assignment is_clear) rs
  unfolding count_where
  count_where-split [] = omega arith
  count_where-split (r ∷ rs) =
      let ih = count_where-split rs in
      let one = one_disposition (str_eq r.assignment_id assignment) r.review_disposition in
      omega (arith, ih, one)

-- The four counts of the status summary add up to its total, and the lists of confirmed, of bulk confirmed and of
-- cleared pairs have the totals that the summary gives them, while the list of "unreviewed" pairs has the total of all
-- pairs.
pub get_review_status-totals :
    (assignment : String) (limit offset : ℕ) (db : Db)
    → let summary = get_review_status assignment db in
      let listed = λ (status : String). (get_pairs_by_status assignment status limit offset db).0 in
      (summary.total_pairs
        ≡ summary.unreviewed_pairs + summary.confirmed + summary.bulk + summary.cleared)
      × (listed "confirmed" ≡ summary.confirmed)
      × (listed "bulk_confirmed" ≡ summary.bulk)
      × (listed "cleared" ≡ summary.cleared)
      × (listed "unreviewed" ≡ summary.total_pairs)
unfolding get_review_status get_pairs_by_status
get_review_status-totals assignment limit offset db =
    (count_where-split assignment db.results, refl, refl, refl, refl)
