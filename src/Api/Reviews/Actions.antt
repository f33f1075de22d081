-- ===== src/Api/Reviews/Actions.antt =====
-- Sequences of reviews of src/results/service.py.
use rest_api_plagiarism.Prelude.{
  ℕ, ◌≤◌, ◌≡◌, ◌⊎◌, inl, inr, arith, String, str_eq, true, Option, none, some, List, [], ◌∷◌, leb,
  ◌==◌, Bool-cases, Option-cases, All,
}
use rest_api_plagiarism.Auth.Users.{Time}
use rest_api_plagiarism.Api.Reviews.{
  bulk_confirmed, Result, Db, reviewed, confirm_plagiarism, clear_pair, update_where, count_where,
  is_above, whole_second, is_fresh, confirm_files, bulk_confirm, bulk_clear,
}
use rest_api_plagiarism.Api.Reviews.Marks.{
  BothMarked, Marked, Found, files_mono, confirm_files-Found, confirm_plagiarism-Marked,
  clear_pair-Marked, update_where-none, update_where-All, bulk_clear-Marked,
}

is_above-assignment :
    (assignment : String) (threshold : ℕ) (r : Result)
    → is_above assignment threshold r ≡ true
    → str_eq r.assignment_id assignment ≡ true
is_above-assignment assignment threshold r h =
    elim (Bool-cases (str_eq r.assignment_id assignment)) [
      | inl y ↦ y
      | inr n ↦ let h' = rw n at h in absurd (cc)
    ]

All-join :
    (P Q R : Result → Type 0) (rs : List Result)
    → ((r : Result) → P r → Q r → R r)
    → All P rs
    → All Q rs
    → All R rs
All-join P Q R [] f ps qs = tt
All-join P Q R (r ∷ rs) f (p, ps) (q, qs) = (f r p q, All-join P Q R rs f ps qs)

bulk_confirm-Marked :
    (now later : Time) (user assignment : String) (threshold : ℕ) (db : Db)
    → whole_second later ≤ now
    → Marked db
    → Marked (bulk_confirm now later user assignment threshold db).1
unfolding bulk_confirm
bulk_confirm-Marked now later user assignment threshold db same_second m =
    let p = is_above assignment threshold in
    let change = reviewed bulk_confirmed now user in
    let q = is_fresh assignment later in
    let rs = update_where p change db.results in
    let fs = confirm_files q rs db.files in
    elim (Bool-cases (count_where p db.results == 0)) [
      | inl z ↦
          let none_above = update_where-none p change db.results (ground arith) in
          rw (z, none_above) m
      | inr n ↦
          let fresh_or_old : All (λ r. (q r ≡ true) ⊎ BothMarked fs r) rs =
            update_where-All (BothMarked db.files) (λ r. (q r ≡ true) ⊎ BothMarked fs r) p change
              db.results (λ r y. inl (is_found r y))
              (λ r h. inr (λ k.
                let (a, b) = h k in
                (files_mono r.file_a_id q rs db.files a, files_mono r.file_b_id q rs db.files b)))
              m in
          rw n (
            All-join (Found q fs) (λ r. (q r ≡ true) ⊎ BothMarked fs r) (BothMarked fs) rs join
              (confirm_files-Found q rs db.files) fresh_or_old)
    ]
  where
    is_found :
        (r : Result)
        → is_above assignment threshold r ≡ true
        → is_fresh assignment later (reviewed bulk_confirmed now user r) ≡ true
    is_found r y =
        let recent : leb (whole_second later) now ≡ true = ground arith in
        rw (is_above-assignment assignment threshold r y, recent)

    join :
        (r : Result)
        → Found
            (is_fresh assignment later)
            (confirm_files
              (is_fresh assignment later)
              (update_where
                (is_above assignment threshold)
                (reviewed bulk_confirmed now user)
                db.results)
              db.files)
            r
        → (is_fresh assignment later r ≡ true)
          ⊎ BothMarked
              (confirm_files
                (is_fresh assignment later)
                (update_where
                  (is_above assignment threshold)
                  (reviewed bulk_confirmed now user)
                  db.results)
                db.files)
              r
        → BothMarked
            (confirm_files
              (is_fresh assignment later)
              (update_where
                (is_above assignment threshold)
                (reviewed bulk_confirmed now user)
                db.results)
              db.files)
            r
    join r found (inl y) k = found y
    join r found (inr old) k = old k

-- The requests that review pairs, but for `undo_review`; each with its times and its user.
pub data Action : Type 0 where
  confirms : Time → String → String → Action
  clears : Time → String → String → Action
  bulk_confirms : Time → Time → String → String → ℕ → Action
  bulk_clears : Time → String → String → ℕ → Action

-- Where there is no result of the id the database stays as it is.
abbrev pub or_same : Option Db → Db → Db
or_same none db = db
or_same (some db') db = db'

abbrev pub act : Action → Db → Db
act (confirms now user id) db = or_same (confirm_plagiarism now user id db) db
act (clears now user id) db = or_same (clear_pair now user id db) db
act (bulk_confirms now later user assignment threshold) db =
    (bulk_confirm now later user assignment threshold db).1
act (bulk_clears now user assignment threshold) db = (bulk_clear now user assignment threshold db).1

abbrev pub review : List Action → Db → Db
review [] db = db
review (a ∷ actions) db = review actions (act a db)

-- The two readings of the clock in `bulk_confirm` fall into one second.
abbrev pub OneSecond : Action → Type 0
OneSecond (bulk_confirms now later user assignment threshold) = whole_second later ≤ now
OneSecond a = Unit

act-Marked : (a : Action) (db : Db) → OneSecond a → Marked db → Marked (act a db)
act-Marked (confirms now user id) db one m =
    elim (Option-cases (confirm_plagiarism now user id db)) [
      | inl e ↦ rw (e, or_same) m
      | inr (db', e) ↦ rw (e, or_same) (confirm_plagiarism-Marked now user id db db' m e)
    ]
act-Marked (clears now user id) db one m = elim (Option-cases (clear_pair now user id db)) [
  | inl e ↦ rw (e, or_same) m
  | inr (db', e) ↦ rw (e, or_same) (clear_pair-Marked now user id db db' m e)
]
act-Marked (bulk_confirms now later user assignment threshold) db one m =
    bulk_confirm-Marked now later user assignment threshold db one m
act-Marked (bulk_clears now user assignment threshold) db one m =
    bulk_clear-Marked now user assignment threshold db m

-- Reviews other than `undo_review`, in any order, keep the files of every confirmed pair confirmed, where the clock of
-- `bulk_confirm` does not pass into another second between its update and its query.
pub review-Marked :
    (actions : List Action) (db : Db)
    → All OneSecond actions
    → Marked db
    → Marked (review actions db)
review-Marked [] db one m = m
review-Marked (a ∷ actions) db (o, one) m =
    review-Marked actions (act a db) one (act-Marked a db o m)
