-- ===== src/Detection/Lines/Blocks.antt =====
-- The used lines of file B in the selection loop of detection/line_matcher.py: they stand in blocks that
-- are at least as long as the entry at hand, so the two trims of an entry leave only unused lines.
use rest_api_plagiarism.Prelude.{
  ℕ, ◌+◌, ◌-◌, ◌≤◌, ◌<◌, ◌≡◌, subst, ◌⊎◌, inl, inr, true, false, arith, Bool-cases, some, leb,
}
use rest_api_plagiarism.Detection.Match.{LineSet}
use rest_api_plagiarism.Detection.Lines.{Raw, trim_left, trim_right, trim, select_one}
use rest_api_plagiarism.Detection.Lines.Trim.{
  Unused, trim_left-CutLeft, trim_right-CutRight, meets-false,
}
use rest_api_plagiarism.Detection.Lines.Chosen.{select_one-cases}

-- A run of at least `least` used lines, `y` among them.
pub record Block (used : LineSet) (least y : ℕ) : Type 0 where
  pub start : ℕ
  pub size : ℕ
  pub from : start ≤ y
  pub below : y < start + size
  pub long : least ≤ size
  pub full : (x : ℕ) → start ≤ x → x < start + size → used x ≡ true

abbrev pub Blocks : ℕ → LineSet → Type 0
Blocks least used = (y : ℕ) → used y ≡ true → Block used least y

pub Blocks-shorter : (m n : ℕ) (used : LineSet) → m ≤ n → Blocks n used → Blocks m used
Blocks-shorter m n used le b y h =
    let k = b y h in
    let l = k.long in
    record {
      start = k.start;
      size = k.size;
      from = k.from;
      below = k.below;
      long = omega (arith, l, le);
      full = k.full;
    }

-- Between two unused lines that are less than `least` apart every line is unused.
between :
    (least start n : ℕ) (used : LineSet)
    → Blocks least used
    → n ≤ least
    → used start ≡ false
    → used (start + n - 1) ≡ false
    → Unused used start n
between least start n used blocks short first last x lo hi = elim (Bool-cases (used x)) [
  | inr free ↦ free
  | inl u ↦
      let k = blocks x u in
      let from = k.from in
      let below = k.below in
      let long = k.long in
      elim (Bool-cases (leb k.start start)) [
        | inl behind ↦ let f = k.full start (ground arith) (omega (arith, below)) in absurd (cc)
        | inr inner ↦
            let s : start < k.start = ground arith in
            let f = k.full (start + n - 1) (omega (arith, from)) (omega (arith, s, long)) in
            absurd (cc)
      ]
]

-- How a selected entry `t` lies: as long as the entry it comes from, or next to a used line.
abbrev pub Beside : LineSet → Raw → Raw → Type 0
Beside used_b r t =
    (r.len ≤ t.len)
    ⊎ (((1 ≤ t.len) × (1 ≤ t.start_b) × (used_b (t.start_b - 1) ≡ true))
        ⊎ ((1 ≤ t.len) × (used_b (t.start_b + t.len) ≡ true)))

abbrev pub Placed : LineSet → Raw → Raw → Type 0
Placed used_b r t = Unused used_b t.start_b t.len × Beside used_b r t

trim-Placed :
    (min_lines : ℕ) (ua ub : LineSet) (r : Raw)
    → 1 ≤ min_lines
    → Unused ua r.start_a r.len
    → Blocks r.len ub
    → min_lines ≤ (trim ua ub r).len
    → Placed ub r (trim ua ub r)
unfolding trim
trim-Placed min_lines ua ub r pos ua_free blocks enough =
    let l = trim_left ua ub r.start_a r.start_b r.len in
    let (d, c) = trim_left-CutLeft ua ub r.start_a r.start_b r.len ua_free in
    let la = c.in_a in
    let lb = c.in_b in
    let ls = c.size in
    let inner : Unused ua l.start_a l.len =
      λ x lo hi. ua_free x (omega (arith, la, lo)) (omega (arith, la, ls, hi)) in
    let (e, k) = trim_right-CutRight ua ub l.start_a l.start_b l.len inner in
    let ks = k.size in
    let n = trim_right ua ub l.start_a l.start_b l.len in
    let some_left : 1 ≤ n = omega (arith, pos, enough) in
    let first : ub l.start_b ≡ false = elim c.clean [
      | inl z ↦ absurd (omega (arith, some_left, ks, z))
      | inr f ↦ f
    ] in
    let last : ub (l.start_b + n - 1) ≡ false = elim k.clean [
      | inl z ↦ absurd (omega (arith, some_left, z))
      | inr f ↦ f
    ] in
    let short : n ≤ r.len = omega (arith, ks, ls) in
    let beside : Beside ub r (record l { len = n }) = elim k.edge [
      | inr right ↦ inr (inr (some_left, right))
      | inl ze ↦ elim c.edge [
        | inr left ↦ elim (Bool-cases (leb 1 l.start_b)) [
          | inl far ↦
              let at : r.start_b + d - 1 ≡ l.start_b - 1 = omega (arith, lb) in
              inr (inl (some_left, ground arith, rw at at left))
          | inr near ↦
              let none_cut : r.start_b + d - 1 ≡ l.start_b = ground arith in
              let left' = rw none_cut at left in absurd (cc)
        ]
        | inl zd ↦ inl (omega (arith, ks, ls, ze, zd))
      ]
    ] in
    (between r.len l.start_b n ub blocks short first last, beside)

pub select_one-Placed :
    (min_lines : ℕ) (ua ub : LineSet) (r t : Raw)
    → 1 ≤ min_lines
    → Unused ua r.start_a r.len
    → Blocks r.len ub
    → select_one min_lines ua ub r ≡ some t
    → Placed ub r t
select_one-Placed min_lines ua ub r t pos ua_free blocks h =
    elim (select_one-cases min_lines ua ub r t h) [
      | inl (eq, free) ↦
          let whole_entry : Placed ub r r =
            (meets-false r.start_b r.len ub free, inl (omega arith)) in
          subst (Placed ub r) eq whole_entry
      | inr (eq, enough) ↦
          subst (Placed ub r) eq (trim-Placed min_lines ua ub r pos ua_free blocks enough)
    ]
