-- ===== src/Detection/Lines/Growth.antt =====
-- The blocks of used lines of file B when detection/line_matcher.py adds the lines of a selected entry.
use rest_api_plagiarism.Prelude.{ℕ, ◌+◌, ◌-◌, ◌≤◌, ◌<◌, ◌≡◌, inl, inr, true, arith, Bool-cases, leb}
use rest_api_plagiarism.Detection.Match.{LineSet, in_range, add_range}
use rest_api_plagiarism.Detection.Lines.{Raw}
use rest_api_plagiarism.Detection.Lines.Trim.{Unused}
use rest_api_plagiarism.Detection.Lines.Blocks.{Block, Blocks, Placed}

in_range-step :
    (start n x : ℕ) (used : LineSet) → start ≤ x → x < start + n → add_range start n used x ≡ true
in_range-step start n x used lo hi =
    let inside : in_range start n x ≡ true = ground arith in rw inside

kept : (start n x : ℕ) (used : LineSet) → used x ≡ true → add_range start n used x ≡ true
kept start n x used h = elim (Bool-cases (in_range start n x)) [ inl e ↦ rw e | inr e ↦ rw e h ]

module _ (used : LineSet) (start n : ℕ) where
  add_range-full :
      (lo size x : ℕ)
      → ((x : ℕ) → lo ≤ x → x < lo + size → used x ≡ true)
      → lo ≤ x
      → x < lo + size
      → add_range start n used x ≡ true
  add_range-full lo size x full from below = kept start n x used (full x from below)

  -- The block of a used line is a block still.
  Block-kept : (least y : ℕ) → Block used least y → Block (add_range start n used) least y
  Block-kept least y k = record {
    start = k.start;
    size = k.size;
    from = k.from;
    below = k.below;
    long = k.long;
    full = λ x lo hi. add_range-full k.start k.size x k.full lo hi;
  }

  -- The block that ends before the range is longer by the range.
  Block-before :
      (least y : ℕ)
      → Unused used start n
      → 1 ≤ n
      → 1 ≤ start
      → start ≤ y
      → y < start + n
      → Block used least (start - 1)
      → Block (add_range start n used) least y
  Block-before least y free some_left far lo hi k =
      let from = k.from in
      let below = k.below in
      let long = k.long in
      let ends : k.start + k.size ≤ start = elim (Bool-cases (leb (k.start + k.size) start)) [
        | inl e ↦ ground arith
        | inr e ↦
            let u = k.full start (omega (arith, from)) (ground arith) in
            let f = free start (omega arith) (omega (arith, some_left)) in absurd (cc)
      ] in
      record {
        start = k.start;
        size = k.size + n;
        from = omega (arith, from, lo, far);
        below = omega (arith, below, hi, far);
        long = omega (arith, long);
        full = λ x from' below'. elim (Bool-cases (leb start x)) [
          | inl e ↦ in_range-step start n x used (ground arith) (omega (arith, ends, below'))
          | inr e ↦
              let before : x < start = ground arith in
              kept start n x used (k.full x from' (omega (arith, below, before, far)))
        ];
      }

  -- The block that begins behind the range is longer by the range.
  Block-behind :
      (least y : ℕ)
      → Unused used start n
      → 1 ≤ n
      → start ≤ y
      → y < start + n
      → Block used least (start + n)
      → Block (add_range start n used) least y
  Block-behind least y free some_left lo hi k =
      let from = k.from in
      let below = k.below in
      let long = k.long in
      let begins : start + n ≤ k.start = elim (Bool-cases (leb (start + n) k.start)) [
        | inl e ↦ ground arith
        | inr e ↦
            let u = k.full (start + n - 1) (ground arith) (omega (arith, below, some_left)) in
            let f = free (start + n - 1) (omega (arith, some_left)) (omega (arith, some_left)) in
            absurd (cc)
      ] in
      record {
        start = start;
        size = n + k.size;
        from = lo;
        below = omega (arith, hi);
        long = omega (arith, long);
        full = λ x from' below'. elim (Bool-cases (leb (start + n) x)) [
          | inr e ↦ in_range-step start n x used from' (ground arith)
          | inl e ↦
              let after : start + n ≤ x = ground arith in
              kept start n x used
                (k.full x (omega (arith, from, after)) (omega (arith, begins, from, below')))
        ];
      }

-- With a selected entry added, the used lines still stand in blocks as long as the entry it comes from.
pub add_range-Blocks :
    (used : LineSet) (r t : Raw)
    → Blocks r.len used
    → Placed used r t
    → Blocks r.len (add_range t.start_b t.len used)
add_range-Blocks used r t blocks (free, beside) y h =
    elim (Bool-cases (in_range t.start_b t.len y)) [
      | inr out ↦ Block-kept used t.start_b t.len r.len y (blocks y (rw out at h))
      | inl within ↦
          let lo : t.start_b ≤ y = ground arith in
          let hi : y < t.start_b + t.len = ground arith in
          elim beside [
            | inl long ↦ record {
              start = t.start_b;
              size = t.len;
              from = lo;
              below = hi;
              long = long;
              full = λ x from below. in_range-step t.start_b t.len x used from below;
            }
            | inr (inl (some_left, far, u)) ↦
                Block-before used t.start_b t.len r.len y free some_left far lo hi
                  (blocks (t.start_b - 1) u)
            | inr (inr (some_left, u)) ↦
                Block-behind used t.start_b t.len r.len y free some_left lo hi
                  (blocks (t.start_b + t.len) u)
          ]
    ]
