-- ===== src/Detection/Occurrences/Closest.antt =====
-- The inner loop of `find_paired_occurrences` of plagiarism_core/matcher.py finds the closest unused k-gram.
use rest_api_plagiarism.Prelude.{
  ℕ, zero, suc, ◌+◌, ◌≤◌, ◌<◌, ◌≡◌, refl, ◌∙◌, ◌⊎◌, inl, inr, true, false, arith, Bool-cases,
  Option, none, some, List, [], ◌∷◌, ltb, ◌==◌, length, get_or,
}
use rest_api_plagiarism.Fingerprint.Core.{Fp}
use rest_api_plagiarism.Detection.Occurrences.{IndexSet, index_distance, closer, closest, no_fp}

-- No farther than the best one before.
abbrev pub Below : Option (ℕ × ℕ) → ℕ → Type 0
Below none dist = Unit
Below (some (b, e)) dist = dist ≤ e

-- The result of `closer` is one of the two, and no farther than either.
pub record Improved (best : Option (ℕ × ℕ)) (bi dist j d : ℕ) : Type 0 where
  pub here : closer best bi dist ≡ some (j, d)
  pub origin : (best ≡ some (j, d)) ⊎ ((j ≡ bi) × (d ≡ dist))
  pub near : d ≤ dist
  pub below : Below best d

closer-Improved :
    (best : Option (ℕ × ℕ)) (bi dist : ℕ) → (j : ℕ) × (d : ℕ) × Improved best bi dist j d
closer-Improved none bi dist =
    (bi, dist, record { here = refl; origin = inr (refl, refl); near = omega arith; below = tt })
closer-Improved (some (b, e)) bi dist = elim (Bool-cases (ltb dist e)) [
  | inl t ↦ (
    bi,
    dist,
    record { here = rw t; origin = inr (refl, refl); near = omega arith; below = ground arith },
  )
  | inr f ↦
      (b, e, record { here = rw f; origin = inl refl; near = ground arith; below = omega arith })
]

-- The unused positions, seen from `bi` on, and the distance of each.
abbrev pub dist_at : ℕ → List Fp → ℕ → ℕ
dist_at a_idx bs i = index_distance a_idx (get_or bs i no_fp).kgram_idx

pub record Nearest (a_idx : ℕ) (used : IndexSet) (bi : ℕ) (best : Option (ℕ × ℕ)) (bs : List Fp)
    (j d : ℕ) : Type 0 where
  pub origin :
      (best ≡ some (j, d))
      ⊎ ((i : ℕ) × (j ≡ bi + i) × (i < length bs) × (used j ≡ false) × (d ≡ dist_at a_idx bs i))
  pub near : (i : ℕ) → i < length bs → used (bi + i) ≡ false → d ≤ dist_at a_idx bs i
  pub below : Below best d

abbrev pub Exhausted : IndexSet → ℕ → List Fp → Type 0
Exhausted used bi bs = (i : ℕ) → i < length bs → used (bi + i) ≡ true

abbrev pub Outcome : ℕ → IndexSet → ℕ → Option (ℕ × ℕ) → List Fp → Type 0
Outcome a_idx used bi best bs =
    ((closest a_idx used bi best bs ≡ none) × (best ≡ none) × Exhausted used bi bs)
    ⊎ ((j : ℕ) × (d : ℕ) × (closest a_idx used bi best bs ≡ some (j, d))
        × Nearest a_idx used bi best bs j d)

-- A used position changes nothing.
Outcome-skip :
    (a_idx : ℕ) (used : IndexSet) (bi : ℕ) (best : Option (ℕ × ℕ)) (b : Fp) (bs : List Fp) (j d : ℕ)
    → used bi ≡ true
    → Nearest a_idx used (bi + 1) best bs j d
    → Nearest a_idx used bi best (b ∷ bs) j d
Outcome-skip a_idx used bi best b bs j d u n = record {
  origin = elim n.origin [
    | inl e ↦ inl e
    | inr (i, e, lt, free, at) ↦ inr (suc i, omega (arith, e), omega (arith, lt), free, at)
  ];
  near = skipped;
  below = n.below;
}
  where
    skipped : (i : ℕ) → i < length (b ∷ bs) → used (bi + i) ≡ false → d ≤ dist_at a_idx (b ∷ bs) i
    skipped zero lt free =
        let at : bi + 0 ≡ bi = omega arith in let free' = rw at at free in absurd (cc)
    skipped (suc i) lt free =
        let at : bi + suc i ≡ bi + 1 + i = omega arith in
        n.near i (omega (arith, lt)) (rw at at free)

-- An unused position is the new best one or is no closer than the best one.
Outcome-further :
    (a_idx : ℕ) (used : IndexSet) (bi : ℕ) (best : Option (ℕ × ℕ)) (b : Fp) (bs : List Fp)
    (k e j d : ℕ)
    → used bi ≡ false
    → Improved best bi (index_distance a_idx b.kgram_idx) k e
    → Nearest a_idx used (bi + 1) (some (k, e)) bs j d
    → Nearest a_idx used bi best (b ∷ bs) j d
Outcome-further a_idx used bi best b bs k e j d u c n =
    let le : d ≤ e = n.below in
    let le' = c.near in
    record {
      origin = elim n.origin [
        | inr (i, e, lt, free, at) ↦ inr (suc i, omega (arith, e), omega (arith, lt), free, at)
        | inl same ↦
            let sj : k ≡ j = cc in
            let sd : e ≡ d = cc in
            elim c.origin [
              | inl old ↦ inl (old ∙ same)
              | inr (kj, ed) ↦
                  let jb : j ≡ bi = omega (arith, sj, kj) in
                  inr (0, omega (arith, jb), omega arith, rw jb u, omega (arith, sd, ed))
            ]
      ];
      near = further;
      below = below_le best e d c.below le;
    }
  where
    below_le : (best : Option (ℕ × ℕ)) (e d : ℕ) → Below best e → d ≤ e → Below best d
    below_le none e d h le = tt
    below_le (some (b, x)) e d h le = omega (arith, h, le)

    further : (i : ℕ) → i < length (b ∷ bs) → used (bi + i) ≡ false → d ≤ dist_at a_idx (b ∷ bs) i
    further zero lt free = let le : d ≤ e = n.below in let le' = c.near in omega (arith, le, le')
    further (suc i) lt free =
        let at : bi + suc i ≡ bi + 1 + i = omega arith in
        n.near i (omega (arith, lt)) (rw at at free)

-- At distance 0 the loop stops.
Outcome-stop :
    (a_idx : ℕ) (used : IndexSet) (bi : ℕ) (best : Option (ℕ × ℕ)) (b : Fp) (bs : List Fp) (k e : ℕ)
    → used bi ≡ false
    → index_distance a_idx b.kgram_idx ≡ 0
    → Improved best bi (index_distance a_idx b.kgram_idx) k e
    → Nearest a_idx used bi best (b ∷ bs) k e
Outcome-stop a_idx used bi best b bs k e u z c =
    let near = c.near in
    record {
      origin = elim c.origin [
        | inl old ↦ inl old
        | inr (kb, ed) ↦ inr (0, omega (arith, kb), omega arith, rw kb u, ed)
      ];
      near = λ i lt free. omega (arith, near, z);
      below = c.below;
    }

pub closest-Outcome :
    (a_idx : ℕ) (used : IndexSet) (bi : ℕ) (best : Option (ℕ × ℕ)) (bs : List Fp)
    → Outcome a_idx used bi best bs
unfolding closest
closest-Outcome a_idx used bi none [] = inl (refl, refl, λ i lt. absurd (omega (arith, lt)))
closest-Outcome a_idx used bi (some (k, e)) [] = inr (
  k,
  e,
  refl,
  record { origin = inl refl; near = λ i lt free. absurd (omega (arith, lt)); below = omega arith },
)
closest-Outcome a_idx used bi best (b ∷ bs) = elim (Bool-cases (used bi)) [
  | inl u ↦ elim (closest-Outcome a_idx used (bi + 1) best bs) [
    | inl (e, none_yet, all) ↦ inl (rw u e, none_yet, exhausted u all)
    | inr (j, d, e, n) ↦ inr (j, d, rw u e, Outcome-skip a_idx used bi best b bs j d u n)
  ]
  | inr u ↦
      let dist = index_distance a_idx b.kgram_idx in
      let (k, x, c) = closer-Improved best bi dist in
      let here = c.here in
      elim (Bool-cases (dist == 0)) [
        | inl z ↦
            inr (k, x, rw (u, z) here, Outcome-stop a_idx used bi best b bs k x u (ground arith) c)
        | inr nz ↦ elim (closest-Outcome a_idx used (bi + 1) (some (k, x)) bs) [
          | inl (e, never_none, all) ↦ absurd (cc)
          | inr (j, d, e, n) ↦
              inr (j, d, rw (u, nz, here) e, Outcome-further a_idx used bi best b bs k x j d u c n)
        ]
      ]
]
  where
    exhausted : used bi ≡ true → Exhausted used (bi + 1) bs → Exhausted used bi (b ∷ bs)
    exhausted u all zero lt = let at : bi + 0 ≡ bi = omega arith in rw at u
    exhausted u all (suc i) lt =
        let at : bi + suc i ≡ bi + 1 + i = omega arith in rw at (all i (omega (arith, lt)))
