-- ===== src/Fingerprint/Minima.antt =====
-- What the deque of `compute_and_winnow` holds: the elements of the window below all later ones.
use rest_api_plagiarism.Prelude.{
  ℕ, suc, ◌+◌, ◌<◌, ◌≤◌, min, ◌≡◌, refl, ap, sym, ◌∙◌, List, [], ◌∷◌, ◌++◌, arith, ltb, leb,
  Bool-cases, if◌then◌else◌, ◌⊎◌, inl, inr, List-cases,
}
use rest_api_plagiarism.Fingerprint.Core.{Fp, pop_left, pop_right, least_from}

-- Keeps `x` in front of later minima only if it is below them.
pub push_front : Fp → List Fp → List Fp
push_front x [] = x ∷ []
push_front x (y ∷ r) = if ltb x.hash y.hash then x ∷ y ∷ r else y ∷ r

unfoldable pub minima : List Fp → List Fp
minima [] = []
minima (x ∷ xs) = push_front x (minima xs)

-- The indices of the list are `i`, `i + 1` and so on.
abbrev pub Numbered : ℕ → List Fp → Type 0
Numbered i [] = Unit
Numbered i (x ∷ xs) = (x.kgram_idx ≡ i) × Numbered (suc i) xs

pop_right-cons :
    (h : ℕ) (x : Fp) (l : List Fp)
    → ((pop_right h (x ∷ l) ≡ []) × (h ≤ x.hash)) ⊎ ((r : List Fp) × (pop_right h (x ∷ l) ≡ x ∷ r))
unfolding pop_right
pop_right-cons h x l = elim (List-cases (pop_right h l)) [
  | inl e ↦ elim (Bool-cases (leb h x.hash)) [
    | inl le ↦ inl (rw (e, le) refl, ground arith)
    | inr gt ↦ inr ([], rw (e, gt))
  ]
  | inr (y, r, e) ↦ inr (y ∷ r, rw e)
]

pop_right-push_front :
    (y x : Fp) (l : List Fp)
    → pop_right y.hash (push_front x l) ++ y ∷ [] ≡ push_front x (pop_right y.hash l ++ y ∷ [])
unfolding push_front
pop_right-push_front y x [] = unfold pop_right in ground arith
pop_right-push_front y x (z ∷ r) = elim (Bool-cases (ltb x.hash z.hash)) [
  | inl lt ↦ elim (pop_right-cons y.hash z r) [
    | inl (e, le) ↦ rw (lt, e) (unfold pop_right in rw e (ground arith))
    | inr (s, e) ↦ rw (lt, e) (unfold pop_right in rw e (ground arith))
  ]
  | inr ge ↦ elim (pop_right-cons y.hash z r) [
    | inl (e, le) ↦ rw (ge, e) (ground arith)
    | inr (s, e) ↦ rw (ge, e) (ground arith)
  ]
]

-- Pushing an element at the back, as the deque does, gives the minima of the longer list.
pub minima-append :
    (y : Fp) (xs : List Fp) → pop_right y.hash (minima xs) ++ y ∷ [] ≡ minima (xs ++ y ∷ [])
unfolding minima
minima-append y [] = unfold pop_right push_front in refl
minima-append y (x ∷ xs) =
    pop_right-push_front y x (minima xs) ∙ ap (push_front x) (minima-append y xs)

-- The indices of all elements are at least `i`.
abbrev From : ℕ → List Fp → Type 0
From i [] = Unit
From i (x ∷ xs) = (i ≤ x.kgram_idx) × From i xs

push_front-From :
    (i : ℕ) (x : Fp) (l : List Fp) → i ≤ x.kgram_idx → From i l → From i (push_front x l)
unfolding push_front
push_front-From i x [] h f = (h, tt)
push_front-From i x (y ∷ r) h f = ground arith

minima-From : (i j : ℕ) (xs : List Fp) → i ≤ j → Numbered j xs → From i (minima xs)
unfolding minima
minima-From i j [] h n = tt
minima-From i j (x ∷ xs) h n =
    push_front-From i x (minima xs) (omega arith) (minima-From i (suc j) xs (omega arith) n.1)

pop_left-From : (i j w : ℕ) (l : List Fp) → From i l → j < i + w → pop_left j w l ≡ l
unfolding pop_left
pop_left-From i j w [] f lt = refl
pop_left-From i j w (x ∷ l) f lt = ground arith

-- While no element of the window has left it, the front of the deque stays.
pub pop_left-minima :
    (i j w : ℕ) (xs : List Fp) → Numbered i xs → j < i + w → pop_left j w (minima xs) ≡ minima xs
pop_left-minima i j w xs n lt =
    pop_left-From i j w (minima xs) (minima-From i i xs (omega arith) n) lt

pop_left-push_front :
    (i j w : ℕ) (x : Fp) (l : List Fp)
    → x.kgram_idx ≡ i
    → From (suc i) l
    → j ≡ i + w
    → pop_left j w (push_front x l) ≡ l
unfolding push_front pop_left
pop_left-push_front i j w x [] e f ej = ground arith
pop_left-push_front i j w x (y ∷ r) e f ej =
    ground (arith, pop_left-From (suc i) j w (y ∷ r) f (omega arith))

-- When the oldest element leaves the window, the deque keeps the minima of the others.
pub pop_left-minima_cons :
    (i j w : ℕ) (x : Fp) (xs : List Fp)
    → Numbered i (x ∷ xs)
    → j ≡ i + w
    → pop_left j w (minima (x ∷ xs)) ≡ minima xs
unfolding minima
pop_left-minima_cons i j w x xs n e =
    pop_left-push_front i j w x (minima xs) n.0 (minima-From (suc i) (suc i) xs (omega arith) n.1) e

-- The least hash of `b` and the hashes of the list.
unfoldable pub lowest : ℕ → List Fp → ℕ
lowest b [] = b
lowest b (x ∷ xs) = lowest (min b x.hash) xs

hash-if : (b x : Fp) → (if ltb x.hash b.hash then x else b).hash ≡ min b.hash x.hash
hash-if b x = ground arith

pub least_from-eq-lowest : (b : Fp) (xs : List Fp) → (least_from b xs).hash ≡ lowest b.hash xs
unfolding least_from lowest
least_from-eq-lowest b [] = refl
least_from-eq-lowest b (x ∷ xs) =
    least_from-eq-lowest (if ltb x.hash b.hash then x else b) xs
    ∙ ap (λ h. lowest h xs) (hash-if b x)

abbrev front_or : ℕ → List Fp → ℕ
front_or b [] = b
front_or b (x ∷ _) = min b x.hash

front_or-push_front :
    (b : ℕ) (x : Fp) (l : List Fp) → front_or b (push_front x l) ≡ front_or (min b x.hash) l
unfolding push_front
front_or-push_front b x [] = refl
front_or-push_front b x (y ∷ r) = ground arith

lowest-eq-front : (b : ℕ) (xs : List Fp) → lowest b xs ≡ front_or b (minima xs)
unfolding lowest minima
lowest-eq-front b [] = refl
lowest-eq-front b (x ∷ xs) =
    lowest-eq-front (min b x.hash) xs ∙ sym (front_or-push_front b x (minima xs))

push_front-cons :
    (x : Fp) (l : List Fp)
    → (z : Fp) × (r : List Fp) × (push_front x l ≡ z ∷ r) × (z.hash ≡ front_or x.hash l)
unfolding push_front
push_front-cons x [] = (x, [], refl, refl)
push_front-cons x (y ∷ r) = elim (Bool-cases (ltb x.hash y.hash)) [
  | inl lt ↦ (x, y ∷ r, rw lt, ground arith)
  | inr ge ↦ (y, r, rw ge, ground arith)
]

-- The front of the deque has the window's least hash.
pub minima_front :
    (x : Fp) (xs : List Fp)
    → (z : Fp) × (r : List Fp) × (minima (x ∷ xs) ≡ z ∷ r) × (z.hash ≡ (least_from x xs).hash)
unfolding minima
minima_front x xs =
    let (z, r, e, h) = push_front-cons x (minima xs) in
    (z, r, e, h ∙ sym (lowest-eq-front x.hash xs) ∙ sym (least_from-eq-lowest x xs))
