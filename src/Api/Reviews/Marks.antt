-- ===== src/Api/Reviews/Marks.antt =====
-- Which files the reviews of src/results/service.py mark as confirmed.
use rest_api_plagiarism.Prelude.{
  some-injective, ℕ, ◌≡◌, refl, sym, ap, subst, inl, inr, arith, String, str_eq, Bool, true, false,
  Option, none, some, List, [], ◌∷◌, if◌then◌else◌, Bool-cases, Option-cases, All, All-map,
}
use rest_api_plagiarism.Auth.Users.{Time}
use rest_api_plagiarism.Api.Reviews.{
  Disposition, plagiarism, bulk_confirmed, clear, Result, FileRow, Db, find_result, save_result,
  set_confirmed, set_both, reviewed, confirmed_pair, confirm_plagiarism, cleared_pair, clear_pair,
  update_where, count_where, confirm_files, is_below, bulk_clear,
}

-- All rows with this id are confirmed.
abbrev pub is_marked : String → List FileRow → Bool
is_marked id [] = true
is_marked id (f ∷ fs) =
    if str_eq f.id id then if f.is_confirmed then is_marked id fs else false else is_marked id fs

-- A pair found to be plagiarism, alone or in bulk.
abbrev pub is_confirmed_pair : Option Disposition → Bool
is_confirmed_pair none = false
is_confirmed_pair (some plagiarism) = true
is_confirmed_pair (some bulk_confirmed) = true
is_confirmed_pair (some clear) = false

abbrev pub BothMarked : List FileRow → Result → Type 0
BothMarked fs r =
    is_confirmed_pair r.review_disposition ≡ true
    → (is_marked r.file_a_id fs ≡ true) × (is_marked r.file_b_id fs ≡ true)

-- The files of every confirmed pair are confirmed.
abbrev pub Marked : Db → Type 0
Marked db = All (BothMarked db.files) db.results

marked_self : (id : String) (fs : List FileRow) → is_marked id (set_confirmed id true fs) ≡ true
unfolding set_confirmed
marked_self id [] = refl
marked_self id (f ∷ fs) = elim (Bool-cases (str_eq f.id id)) [
  | inl y ↦ rw (y, y) (marked_self id fs)
  | inr n ↦ rw (n, n) (marked_self id fs)
]

marked_mono :
    (x id : String) (fs : List FileRow)
    → is_marked x fs ≡ true
    → is_marked x (set_confirmed id true fs) ≡ true
unfolding set_confirmed
marked_mono x id [] h = refl
marked_mono x id (f ∷ fs) h = elim (Bool-cases (str_eq f.id x)) [
  | inr n ↦
      let ih = marked_mono x id fs (rw n at h) in
      elim (Bool-cases (str_eq f.id id)) [ inl y ↦ rw (y, n) ih | inr m ↦ rw (m, n) ih ]
  | inl e ↦ elim (Bool-cases f.is_confirmed) [
    | inr c ↦ let h' = rw (e, c) at h in absurd (cc)
    | inl c ↦
        let ih = marked_mono x id fs (rw (e, c) at h) in
        elim (Bool-cases (str_eq f.id id)) [ inl y ↦ rw (y, e) ih | inr m ↦ rw (m, e, c) ih ]
  ]
]

pub both_mono :
    (x : String) (r : Result) (fs : List FileRow)
    → is_marked x fs ≡ true
    → is_marked x (set_both r true fs) ≡ true
both_mono x r fs h =
    marked_mono x r.file_b_id (set_confirmed r.file_a_id true fs) (marked_mono x r.file_a_id fs h)

both_self :
    (r : Result) (fs : List FileRow)
    → (is_marked r.file_a_id (set_both r true fs) ≡ true)
      × (is_marked r.file_b_id (set_both r true fs) ≡ true)
both_self r fs = (
  marked_mono r.file_a_id r.file_b_id (set_confirmed r.file_a_id true fs)
      (marked_self r.file_a_id fs),
  marked_self r.file_b_id (set_confirmed r.file_a_id true fs),
)

pub files_mono :
    (x : String) (p : Result → Bool) (rs : List Result) (fs : List FileRow)
    → is_marked x fs ≡ true
    → is_marked x (confirm_files p rs fs) ≡ true
unfolding confirm_files
files_mono x p [] fs h = h
files_mono x p (r ∷ rs) fs h =
    let ih = files_mono x p rs fs h in
    elim (Bool-cases (p r)) [
      | inl y ↦ rw y (both_mono x r (confirm_files p rs fs) ih)
      | inr n ↦ rw n ih
    ]

-- The files of the rows that a query finds.
abbrev pub Found : (Result → Bool) → List FileRow → Result → Type 0
Found p fs r = p r ≡ true → (is_marked r.file_a_id fs ≡ true) × (is_marked r.file_b_id fs ≡ true)

confirm_files-cons :
    (p : Result → Bool) (r : Result) (rs : List Result) (fs : List FileRow)
    → confirm_files p (r ∷ rs) fs
      ≡ (if p r then set_both r true (confirm_files p rs fs) else confirm_files p rs fs)
unfolding confirm_files
confirm_files-cons p r rs fs = refl

pub confirm_files-Found :
    (p : Result → Bool) (rs : List Result) (fs : List FileRow)
    → All (Found p (confirm_files p rs fs)) rs
confirm_files-Found p [] fs = tt
confirm_files-Found p (r ∷ rs) fs =
    let rest = confirm_files p rs fs in
    let ih = confirm_files-Found p rs fs in
    elim (Bool-cases (p r)) [
      | inl y ↦
          let step : confirm_files p (r ∷ rs) fs ≡ set_both r true rest =
            rw (confirm_files-cons p r rs fs, y) in
          let later =
            All-map {P = Found p rest} {Q = Found p (set_both r true rest)}
              (λ s h q.
                let (a, b) = h q in
                (both_mono s.file_a_id r rest a, both_mono s.file_b_id r rest b))
              rs ih in
          subst (λ fs'. All (Found p fs') (r ∷ rs)) (sym step) ((λ q. both_self r rest), later)
      | inr n ↦
          let step : confirm_files p (r ∷ rs) fs ≡ rest = rw (confirm_files-cons p r rs fs, n) in
          subst (λ fs'. All (Found p fs') (r ∷ rs)) (sym step) ((λ q. absurd (cc)), ih)
    ]

pub save_result-All :
    (P : Result → Type 0) (s : Result) (rs : List Result)
    → P s
    → All P rs
    → All P (save_result s rs)
unfolding save_result
save_result-All P s [] p ps = tt
save_result-All P s (r ∷ rs) p (q, qs) = elim (Bool-cases (str_eq r.id s.id)) [
  | inl y ↦ rw y (p, qs)
  | inr n ↦ rw n (q, save_result-All P s rs p qs)
]

pub BothMarked-mono :
    (fs gs : List FileRow)
    → ((x : String) → is_marked x fs ≡ true → is_marked x gs ≡ true)
    → (rs : List Result) → All (BothMarked fs) rs
    → All (BothMarked gs) rs
BothMarked-mono fs gs mono rs ms =
    All-map {P = BothMarked fs} {Q = BothMarked gs}
      (λ r h q. let (a, b) = h q in (mono r.file_a_id a, mono r.file_b_id b)) rs ms

pub confirm_plagiarism-Marked :
    (now : Time) (user id : String) (db db' : Db)
    → Marked db
    → confirm_plagiarism now user id db ≡ some db'
    → Marked db'
unfolding confirm_plagiarism
confirm_plagiarism-Marked now user id db db' m h = elim (Option-cases (find_result id db.results)) [
  | inl e ↦ let h' = rw e at h in absurd (cc)
  | inr (r, e) ↦
      let s = reviewed plagiarism now user r in
      let fs = set_both r true db.files in
      let old = BothMarked-mono db.files fs (λ x k. both_mono x r db.files k) db.results m in
      let new : All (BothMarked fs) (save_result s db.results) =
        save_result-All (BothMarked fs) s db.results (λ q. both_self r db.files) old in
      let h' = rw (e, confirmed_pair) at h in subst Marked (some-injective h') new
]

pub clear_pair-Marked :
    (now : Time) (user id : String) (db db' : Db)
    → Marked db
    → clear_pair now user id db ≡ some db'
    → Marked db'
unfolding clear_pair
clear_pair-Marked now user id db db' m h = elim (Option-cases (find_result id db.results)) [
  | inl e ↦ let h' = rw e at h in absurd (cc)
  | inr (r, e) ↦
      let s = reviewed clear now user r in
      let new : All (BothMarked db.files) (save_result s db.results) =
        save_result-All (BothMarked db.files) s db.results (λ q. absurd (cc)) m in
      let h' = rw (e, cleared_pair) at h in subst Marked (some-injective h') new
]

-- Nothing to update leaves the rows as they are.
pub update_where-none :
    (p : Result → Bool) (change : Result → Result) (rs : List Result)
    → count_where p rs ≡ 0
    → update_where p change rs ≡ rs
unfolding count_where
update_where-none p change [] z = refl
update_where-none p change (r ∷ rs) z = elim (Bool-cases (p r)) [
  | inl y ↦ let z' = rw y at z in absurd (omega (arith, z'))
  | inr n ↦
      let z' = rw n at z in
      rw n (ap (λ (xs : List Result). r ∷ xs) (update_where-none p change rs (omega (arith, z'))))
]

-- A row is as before, or was changed by the update.
pub update_where-All :
    (P Q : Result → Type 0) (p : Result → Bool) (change : Result → Result) (rs : List Result)
    → ((r : Result) → p r ≡ true → Q (change r))
    → ((r : Result) → P r → Q r)
    → All P rs
    → All Q (update_where p change rs)
update_where-All P Q p change [] new old ps = tt
update_where-All P Q p change (r ∷ rs) new old (x, ps) = elim (Bool-cases (p r)) [
  | inl y ↦ rw y (new r y, update_where-All P Q p change rs new old ps)
  | inr n ↦ rw n (old r x, update_where-All P Q p change rs new old ps)
]

pub bulk_clear-Marked :
    (now : Time) (user assignment : String) (threshold : ℕ) (db : Db)
    → Marked db
    → Marked (bulk_clear now user assignment threshold db).1
unfolding bulk_clear
bulk_clear-Marked now user assignment threshold db m =
    update_where-All (BothMarked db.files) (BothMarked db.files) (is_below assignment threshold)
      (reviewed clear now user) db.results (λ r y q. absurd (cc)) (λ r h. h) m
