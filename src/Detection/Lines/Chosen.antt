-- ===== src/Detection/Lines/Chosen.antt =====
-- What the selection loop of detection/line_matcher.py makes of one entry: its trims, and its choice.
use rest_api_plagiarism.Prelude.{
  some-injective, ℕ, zero, suc, ◌+◌, ◌≤◌, ◌≡◌, ◌⊎◌, inl, inr, false, arith, Bool-cases,
  if◌then◌else◌, none, some, ltb,
}
use rest_api_plagiarism.Detection.Match.{LineSet, meets}
use rest_api_plagiarism.Detection.Lines.{Raw, trim_left, trim_right, trim, select_one}

-- `t` is `r` without its first `d` lines and perhaps some of its last.
pub record Inside (r t : Raw) (d : ℕ) : Type 0 where
  pub in_a : t.start_a ≡ r.start_a + d
  pub in_b : t.start_b ≡ r.start_b + d
  pub size : d + t.len ≤ r.len

trim_left-Inside :
    (ua ub : LineSet) (sa sb len : ℕ)
    → (d : ℕ) × Inside
        (record { start_a = sa; start_b = sb; len = len })
        (trim_left ua ub sa sb len)
        d
unfolding trim_left
trim_left-Inside ua ub sa sb zero =
    (0, record { in_a = omega arith; in_b = omega arith; size = omega arith })
trim_left-Inside ua ub sa sb (suc len) =
    let (d, c) = trim_left-Inside ua ub (sa + 1) (sb + 1) len in
    let cut : Inside (record { start_a = sa; start_b = sb; len = suc len })
        (trim_left ua ub (sa + 1) (sb + 1) len) (suc d) =
      record {
        in_a = omega (arith, c.in_a);
        in_b = omega (arith, c.in_b);
        size = omega (arith, c.size);
      } in
    elim (Bool-cases (ua sa)) [
      | inl t ↦ (suc d, rw t cut)
      | inr t ↦ elim (Bool-cases (ub sb)) [
        | inl t' ↦ (suc d, rw (t, t') cut)
        | inr t' ↦
            (0, rw (t, t') (record { in_a = omega arith; in_b = omega arith; size = omega arith }))
      ]
    ]

trim_right-le : (ua ub : LineSet) (sa sb len : ℕ) → trim_right ua ub sa sb len ≤ len
unfolding trim_right
trim_right-le ua ub sa sb zero = omega arith
trim_right-le ua ub sa sb (suc len) =
    let ih = trim_right-le ua ub sa sb len in
    elim (Bool-cases (ua (sa + len))) [
      | inl t ↦ rw t (omega arith)
      | inr t ↦ elim (Bool-cases (ub (sb + len))) [
        | inl t' ↦ rw (t, t') (omega arith)
        | inr t' ↦ rw (t, t') (omega arith)
      ]
    ]

pub trim-Inside : (ua ub : LineSet) (r : Raw) → (d : ℕ) × Inside r (trim ua ub r) d
unfolding trim
trim-Inside ua ub r =
    let (d, c) = trim_left-Inside ua ub r.start_a r.start_b r.len in
    let l = trim_left ua ub r.start_a r.start_b r.len in
    let le = trim_right-le ua ub l.start_a l.start_b l.len in
    (d, record { in_a = c.in_a; in_b = c.in_b; size = omega (arith, c.size, le) })

trimmed-cases :
    (min_lines : ℕ) (r t : Raw)
    → (if ltb r.len min_lines then none else some r) ≡ some t
    → (r ≡ t) × (min_lines ≤ r.len)
trimmed-cases min_lines r t h = elim (Bool-cases (ltb r.len min_lines)) [
  | inl short ↦ let h' = rw short at h in absurd (cc)
  | inr long ↦ let h' = rw long at h in (some-injective h', ground arith)
]

-- An entry is selected whole, or its trimmed form is, where that is long enough.
pub select_one-cases :
    (min_lines : ℕ) (ua ub : LineSet) (r t : Raw)
    → select_one min_lines ua ub r ≡ some t
    → ((r ≡ t) × (meets r.start_b r.len ub ≡ false))
      ⊎ ((trim ua ub r ≡ t) × (min_lines ≤ (trim ua ub r).len))
unfolding select_one
select_one-cases min_lines ua ub r t h = elim (Bool-cases (meets r.start_a r.len ua)) [
  | inl m ↦ inr (trimmed-cases min_lines (trim ua ub r) t (rw m at h))
  | inr m ↦ elim (Bool-cases (meets r.start_b r.len ub)) [
    | inl m' ↦ inr (trimmed-cases min_lines (trim ua ub r) t (rw (m, m') at h))
    | inr m' ↦ inl (some-injective (rw (m, m') at h), m')
  ]
]
