-- ===== src/Api/ReviewQueue/Ranked.antt =====
-- The order of the review queue of src/results/service.py.
use rest_api_plagiarism.Prelude.{
  ℕ, ◌+◌, ◌*◌, ◌≤◌, ◌≡◌, refl, sym, ap, ◌∙◌, inl, inr, arith, String, Bool, true, false, List, [],
  ◌∷◌, ◌++◌, leb, ◌==◌, Bool-cases, All, sort_by, insert_by,
}
use rest_api_plagiarism.Api.Reviews.{Result, FileRow, Db}
use rest_api_plagiarism.Api.ReviewQueue.{
  where_rows, is_confirmed_of, bucket, buckets, page, fetched_pairs, get_review_queue,
}

module _ (b : Result → ℕ) where
  -- The order of the buckets.
  abbrev pub by_bucket : Result → Result → Bool
  by_bucket r s = leb (b r) (b s)

  insert_first :
      (x : Result) (ys : List Result) → All (λ y. b x ≤ b y) ys → insert_by by_bucket x ys ≡ x ∷ ys
  unfolding insert_by
  insert_first x [] ps = refl
  insert_first x (y ∷ ys) (p, ps) = let le : leb (b x) (b y) ≡ true = ground arith in rw le

  insert_behind :
      (x : Result) (ys zs : List Result)
      → All (λ y. b y + 1 ≤ b x) ys
      → insert_by by_bucket x (ys ++ zs) ≡ ys ++ insert_by by_bucket x zs
  unfolding insert_by
  insert_behind x [] zs ps = refl
  insert_behind x (y ∷ ys) zs (p, ps) =
      let gt : leb (b x) (b y) ≡ false = ground arith in
      rw gt (ap (λ (l : List Result). y ∷ l) (insert_behind x ys zs ps))

  where-All :
      (P : ℕ → Type 0) (n : ℕ) (rs : List Result)
      → P n
      → All (λ r. P (b r)) (where_rows (λ r. b r == n) rs)
  unfolding where_rows
  where-All P n [] p = tt
  where-All P n (r ∷ rs) p = elim (Bool-cases (b r == n)) [
    | inl y ↦ let e : b r ≡ n = ground arith in rw y (rw e p, where-All P n rs p)
    | inr n' ↦ rw n' (where-All P n rs p)
  ]

  both_All : (P : Result → Type 0) (xs ys : List Result) → All P xs → All P ys → All P (xs ++ ys)
  both_All P [] ys ps qs = qs
  both_All P (x ∷ xs) ys (p, ps) qs = (p, both_All P xs ys ps qs)

  any_All : (xs : List Result) → All (λ y. 0 ≤ b y) xs
  any_All [] = tt
  any_All (x ∷ xs) = (omega arith, any_All xs)

  -- A new element goes to the front of its bucket.
  insert_bucket :
      (x : Result) (rs : List Result)
      → b x ≤ 2
      → insert_by by_bucket x (buckets b rs) ≡ buckets b (x ∷ rs)
  unfolding buckets where_rows
  insert_bucket x rs le =
      let f0 = where_rows (λ r. b r == 0) rs in
      let f1 = where_rows (λ r. b r == 1) rs in
      let f2 = where_rows (λ r. b r == 2) rs in
      elim (Bool-cases (b x == 0)) [
        | inl zeroth ↦
            let n1 : (b x == 1) ≡ false = ground arith in
            let n2 : (b x == 2) ≡ false = ground arith in
            let e : b x ≡ 0 = ground arith in
            rw (zeroth, n1, n2)
              (insert_first x (f0 ++ (f1 ++ f2)) (rw e (any_All (f0 ++ (f1 ++ f2)))))
        | inr n0 ↦ elim (Bool-cases (b x == 1)) [
          | inl first ↦
              let n2 : (b x == 2) ≡ false = ground arith in
              let e : b x ≡ 1 = ground arith in
              let before : All (λ y. b y + 1 ≤ b x) f0 =
                where-All (λ n. n + 1 ≤ b x) 0 rs (omega (arith, e)) in
              let in_f1 : All (λ y. b x ≤ b y) f1 =
                where-All (λ n. b x ≤ n) 1 rs (omega (arith, e)) in
              let in_f2 : All (λ y. b x ≤ b y) f2 =
                where-All (λ n. b x ≤ n) 2 rs (omega (arith, e)) in
              let skip = insert_behind x f0 (f1 ++ f2) before in
              let stop = insert_first x (f1 ++ f2) (both_All (λ y. b x ≤ b y) f1 f2 in_f1 in_f2) in
              rw (n0, first, n2) (skip ∙ ap (λ (l : List Result). f0 ++ l) stop)
          | inr n1 ↦
              let last : (b x == 2) ≡ true = ground arith in
              let e : b x ≡ 2 = ground arith in
              let before : All (λ y. b y + 1 ≤ b x) f0 =
                where-All (λ n. n + 1 ≤ b x) 0 rs (omega (arith, e)) in
              let before1 : All (λ y. b y + 1 ≤ b x) f1 =
                where-All (λ n. n + 1 ≤ b x) 1 rs (omega (arith, e)) in
              let in_f2 : All (λ y. b x ≤ b y) f2 =
                where-All (λ n. b x ≤ n) 2 rs (omega (arith, e)) in
              let skip = insert_behind x f0 (f1 ++ f2) before in
              let skip1 = insert_behind x f1 f2 before1 in
              let stop = insert_first x f2 in_f2 in
              rw (n0, n1, last)
                (skip
                  ∙ ap (λ (l : List Result). f0 ++ l)
                      (skip1 ∙ ap (λ (l : List Result). f1 ++ l) stop))
        ]
      ]

  no_rows : buckets b [] ≡ []
  unfolding buckets where_rows
  no_rows = refl

  -- The three buckets are the stable sort by their number.
  buckets-sort_by : (rs : List Result) → All (λ r. b r ≤ 2) rs → buckets b rs ≡ sort_by by_bucket rs
  unfolding sort_by
  buckets-sort_by [] ps = no_rows
  buckets-sort_by (x ∷ rs) (p, ps) =
      sym (insert_bucket x rs p) ∙ ap (insert_by by_bucket x) (buckets-sort_by rs ps)

bucket-le : (confirmed : List FileRow) (rs : List Result) → All (λ r. bucket confirmed r ≤ 2) rs
unfolding bucket
bucket-le confirmed [] = tt
bucket-le confirmed (r ∷ rs) = (ground arith, bucket-le confirmed rs)

-- A page of the review queue is the part from `offset` on, of at most `limit` pairs, of the first 2 * limit + offset
-- pairs without a review in the order of their similarity, sorted again, with ties as they are, by the number of their
-- files that are confirmed.
pub get_review_queue-sort_by :
    (assignment : String) (limit offset : ℕ) (db : Db)
    → let confirmed = where_rows (is_confirmed_of assignment) db.files in
      let pairs = fetched_pairs assignment (limit * 2 + offset) db in
      (get_review_queue assignment limit offset db).queue
      ≡ page limit offset (sort_by (by_bucket (bucket confirmed)) pairs)
unfolding get_review_queue
get_review_queue-sort_by assignment limit offset db =
    let confirmed = where_rows (is_confirmed_of assignment) db.files in
    let pairs = fetched_pairs assignment (limit * 2 + offset) db in
    ap (page limit offset) (buckets-sort_by (bucket confirmed) pairs (bucket-le confirmed pairs))
