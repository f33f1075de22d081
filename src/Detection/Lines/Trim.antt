-- ===== src/Detection/Lines/Trim.antt =====
-- What the trims of the selection loop of detection/line_matcher.py keep of an entry whose lines of A are unused.
use rest_api_plagiarism.Prelude.{
  ℕ, zero, suc, ◌+◌, ◌-◌, ◌≤◌, ◌<◌, ◌≡◌, refl, ◌⊎◌, inl, inr, true, false, arith, Bool-cases, ◌==◌,
}
use rest_api_plagiarism.Detection.Match.{LineSet, meets}
use rest_api_plagiarism.Detection.Lines.{Raw, trim_left, trim_right}

abbrev pub Unused : LineSet → ℕ → ℕ → Type 0
Unused used start len = (x : ℕ) → start ≤ x → x < start + len → used x ≡ false

-- `l` is what is left behind the first `d` lines; if any was cut, the last one cut is used in B, and if
-- any is left, its first one is unused in B.
pub record CutLeft (used_b : LineSet) (sa sb len : ℕ) (l : Raw) (d : ℕ) : Type 0 where
  pub in_a : l.start_a ≡ sa + d
  pub in_b : l.start_b ≡ sb + d
  pub size : l.len + d ≡ len
  pub edge : (d ≡ 0) ⊎ (used_b (sb + d - 1) ≡ true)
  pub clean : (l.len ≡ 0) ⊎ (used_b l.start_b ≡ false)

edge-suc :
    (used_b : LineSet) (sb d : ℕ)
    → used_b sb ≡ true
    → (d ≡ 0) ⊎ (used_b (sb + 1 + d - 1) ≡ true)
    → used_b (sb + suc d - 1) ≡ true
edge-suc used_b sb d cut (inl e) = let at : sb + suc d - 1 ≡ sb = omega (arith, e) in rw at cut
edge-suc used_b sb d cut (inr u) = let at : sb + suc d - 1 ≡ sb + 1 + d - 1 = omega arith in rw at u

pub trim_left-CutLeft :
    (used_a used_b : LineSet) (sa sb len : ℕ)
    → Unused used_a sa len
    → (d : ℕ) × CutLeft used_b sa sb len (trim_left used_a used_b sa sb len) d
unfolding trim_left
trim_left-CutLeft used_a used_b sa sb zero u = (
  0,
  record {
    in_a = omega arith;
    in_b = omega arith;
    size = omega arith;
    edge = inl refl;
    clean = inl refl;
  },
)
trim_left-CutLeft used_a used_b sa sb (suc len) u =
    let free : used_a sa ≡ false = u sa (omega arith) (omega arith) in
    elim (Bool-cases (used_b sb)) [
      | inr stays ↦ (
        0,
        rw (free, stays)
            (record {
              in_a = omega arith;
              in_b = omega arith;
              size = omega arith;
              edge = inl refl;
              clean = inr stays;
            }),
      )
      | inl cut ↦
          let (d, c) =
            trim_left-CutLeft used_a used_b (sa + 1) (sb + 1) len
              (λ x lo hi. u x (omega arith) (omega arith)) in
          (
            suc d,
            rw (free, cut)
                (record {
                  in_a = omega (arith, c.in_a);
                  in_b = omega (arith, c.in_b);
                  size = omega (arith, c.size);
                  edge = inr (edge-suc used_b sb d cut c.edge);
                  clean = c.clean;
                }),
          )
    ]

-- `n` of the lines are left before the last `e`; if any was cut, the first one cut is used in B, and if any
-- is left, its last one is unused in B.
pub record CutRight (used_b : LineSet) (sb len n e : ℕ) : Type 0 where
  pub size : n + e ≡ len
  pub edge : (e ≡ 0) ⊎ (used_b (sb + n) ≡ true)
  pub clean : (n ≡ 0) ⊎ (used_b (sb + n - 1) ≡ false)

pub trim_right-CutRight :
    (used_a used_b : LineSet) (sa sb len : ℕ)
    → Unused used_a sa len
    → (e : ℕ) × CutRight used_b sb len (trim_right used_a used_b sa sb len) e
unfolding trim_right
trim_right-CutRight used_a used_b sa sb zero u =
    (0, record { size = omega arith; edge = inl refl; clean = inl refl })
trim_right-CutRight used_a used_b sa sb (suc len) u =
    let free : used_a (sa + len) ≡ false = u (sa + len) (omega arith) (omega arith) in
    elim (Bool-cases (used_b (sb + len))) [
      | inr stays ↦
          let at : sb + suc len - 1 ≡ sb + len = omega arith in
          (
            0,
            rw (free, stays)
                (record { size = omega arith; edge = inl refl; clean = inr (rw at stays) }),
          )
      | inl cut ↦
          let (e, c) =
            trim_right-CutRight used_a used_b sa sb len (λ x lo hi. u x lo (omega arith)) in
          let s = c.size in
          let edge' : used_b (sb + trim_right used_a used_b sa sb len) ≡ true = elim c.edge [
            | inl z ↦
                let at : trim_right used_a used_b sa sb len ≡ len = omega (arith, s, z) in rw at cut
            | inr h ↦ h
          ] in
          (
            suc e,
            rw (free, cut) (record { size = omega (arith, s); edge = inr edge'; clean = c.clean }),
          )
    ]

pub meets-false :
    (start len : ℕ) (lines : LineSet) → meets start len lines ≡ false → Unused lines start len
unfolding meets
meets-false start zero lines h x lo hi = absurd (omega arith)
meets-false start (suc len) lines h x lo hi = elim (Bool-cases (lines start)) [
  | inl used ↦ let h' = rw used at h in absurd (cc)
  | inr free ↦ elim (Bool-cases (start == x)) [
    | inl e ↦ let e' : x ≡ start = ground arith in rw e' free
    | inr ne ↦ meets-false (start + 1) len lines (rw free at h) x (ground arith) (omega arith)
  ]
]

pub Unused-meets :
    (start len : ℕ) (lines : LineSet) → Unused lines start len → meets start len lines ≡ false
unfolding meets
Unused-meets start zero lines u = refl
Unused-meets start (suc len) lines u =
    let free = u start (omega arith) (omega arith) in
    rw free (Unused-meets (start + 1) len lines (λ x lo hi. u x (omega arith) (omega arith)))
