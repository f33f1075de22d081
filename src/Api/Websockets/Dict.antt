-- ===== src/Api/Websockets/Dict.antt =====
-- How the dict of src/websocket_manager.py grows and shrinks.
use rest_api_plagiarism.Prelude.{
  str_eq_flip, ℕ, ◌+◌, ◌≤◌, ◌≡◌, refl, subst, inl, inr, arith, String, str_eq, str_eq_iff, Bool,
  false, List, [], ◌∷◌, if◌then◌else◌, Bool-cases, length, All,
}
use rest_api_plagiarism.Api.Websockets.{
  Connections, contains, clients, total, add_client, without_closed, keep_entry, discard_clients,
}

-- The keys of a dict are distinct, and no task has an empty set.
abbrev pub Proper : Connections → Type 0
Proper [] = Unit
Proper ((t, ws) ∷ d) =
    (1 ≤ length ws) × All (λ (e : String × List ℕ). str_eq e.0 t ≡ false) d × Proper d

length-without : (closed : ℕ → Bool) (ws : List ℕ) → length (without_closed closed ws) ≤ length ws
unfolding without_closed
length-without closed [] = omega arith
length-without closed (w ∷ ws) = elim (Bool-cases (closed w)) [
  | inl y ↦ rw y (omega (arith, length-without closed ws))
  | inr n ↦ rw n (omega (arith, length-without closed ws))
]

length-added : (w : ℕ) (ws : List ℕ) → length (if contains w ws then ws else w ∷ ws) ≤ length ws + 1
length-added w ws = elim (Bool-cases (contains w ws)) [
  | inl y ↦ rw y (omega arith)
  | inr n ↦ rw n (omega arith)
]

pub total-add_client :
    (task : String) (w : ℕ) (d : Connections) → total (add_client task w d) ≤ total d + 1
unfolding add_client
total-add_client task w [] = omega arith
total-add_client task w ((t, ws) ∷ d) = elim (Bool-cases (str_eq t task)) [
  | inl y ↦ rw y (omega (arith, length-added w ws))
  | inr n ↦ rw n (omega (arith, total-add_client task w d))
]

total-keep_entry :
    (t : String) (ws : List ℕ) (d : Connections) → total (keep_entry t ws d) ≡ length ws + total d
total-keep_entry t [] d = omega arith
total-keep_entry t (w ∷ ws) d = refl

pub total-discard_clients :
    (closed : ℕ → Bool) (task : String) (d : Connections)
    → total (discard_clients closed task d) ≤ total d
unfolding discard_clients
total-discard_clients closed task [] = omega arith
total-discard_clients closed task ((t, ws) ∷ d) = elim (Bool-cases (str_eq t task)) [
  | inl y ↦
      rw y
        (omega (arith, total-keep_entry t (without_closed closed ws) d, length-without closed ws))
  | inr n ↦ rw n (omega (arith, total-discard_clients closed task d))
]

pub clients-add_client :
    (task other : String) (w : ℕ) (d : Connections)
    → length (clients other (add_client task w d))
      ≤ length (clients other d) + (if str_eq task other then 1 else 0)
unfolding clients add_client
clients-add_client task other w [] = elim (Bool-cases (str_eq task other)) [
  | inl y ↦ rw y (omega arith)
  | inr n ↦ rw n (omega arith)
]
clients-add_client task other w ((t, ws) ∷ d) = elim (Bool-cases (str_eq t task)) [
  | inl y ↦
      let e = (str_eq_iff t task).0 y in
      elim (Bool-cases (str_eq task other)) [
        | inl z ↦ rw (y, e, z) (length-added w ws)
        | inr n ↦ rw (y, e, n) (omega arith)
      ]
  | inr n ↦ elim (Bool-cases (str_eq t other)) [
    | inl z ↦ rw (n, z) (omega arith)
    | inr k ↦ rw (n, k) (clients-add_client task other w d)
  ]
]

-- A key that the rest of the dict does not have finds nothing there.
clients-absent :
    (task : String) (d : Connections)
    → All (λ (e : String × List ℕ). str_eq e.0 task ≡ false) d
    → clients task d ≡ []
unfolding clients
clients-absent task [] a = refl
clients-absent task ((t, ws) ∷ d) (n, a) = rw n (clients-absent task d a)

clients-keep_entry :
    (other t : String) (ws : List ℕ) (d : Connections)
    → All (λ (e : String × List ℕ). str_eq e.0 t ≡ false) d
    → length (clients other (keep_entry t ws d))
      ≤ (if str_eq t other then length ws else length (clients other d))
unfolding clients
clients-keep_entry other t (w ∷ ws) d a = elim (Bool-cases (str_eq t other)) [
  | inl y ↦ rw y (omega arith)
  | inr n ↦ rw n (omega arith)
]
clients-keep_entry other t [] d a = elim (Bool-cases (str_eq t other)) [
  | inl y ↦
      let e = (str_eq_iff t other).0 y in
      let none_left =
        clients-absent other d
          (subst (λ x. All (λ (e : String × List ℕ). str_eq e.0 x ≡ false) d) e a) in
      rw (y, none_left) (omega arith)
  | inr n ↦ rw n (omega arith)
]

pub clients-discard_clients :
    (closed : ℕ → Bool) (task other : String) (d : Connections)
    → Proper d
    → length (clients other (discard_clients closed task d)) ≤ length (clients other d)
unfolding clients discard_clients
clients-discard_clients closed task other [] p = omega arith
clients-discard_clients closed task other ((t, ws) ∷ d) (some_client, a, p) =
    elim (Bool-cases (str_eq t task)) [
      | inl y ↦
          let kept = clients-keep_entry other t (without_closed closed ws) d a in
          let fewer = length-without closed ws in
          elim (Bool-cases (str_eq t other)) [
            | inl z ↦ let kept' = rw z at kept in rw (y, z) (omega (arith, kept', fewer))
            | inr n ↦ let kept' = rw n at kept in rw (y, n) (omega (arith, kept'))
          ]
      | inr n ↦ elim (Bool-cases (str_eq t other)) [
        | inl z ↦ rw (n, z) (omega arith)
        | inr k ↦ rw (n, k) (clients-discard_clients closed task other d p)
      ]
    ]

add_client-absent :
    (t task : String) (w : ℕ) (d : Connections)
    → str_eq task t ≡ false
    → All (λ (e : String × List ℕ). str_eq e.0 t ≡ false) d
    → All (λ (e : String × List ℕ). str_eq e.0 t ≡ false) (add_client task w d)
unfolding add_client
add_client-absent t task w [] n a = (n, tt)
add_client-absent t task w ((u, ws) ∷ d) n (m, a) = elim (Bool-cases (str_eq u task)) [
  | inl y ↦ rw y (m, a)
  | inr k ↦ rw k (m, add_client-absent t task w d n a)
]

discard_clients-absent :
    (closed : ℕ → Bool) (t task : String) (d : Connections)
    → All (λ (e : String × List ℕ). str_eq e.0 t ≡ false) d
    → All (λ (e : String × List ℕ). str_eq e.0 t ≡ false) (discard_clients closed task d)
unfolding discard_clients
discard_clients-absent closed t task [] a = tt
discard_clients-absent closed t task ((u, ws) ∷ d) (m, a) = elim (Bool-cases (str_eq u task)) [
  | inl y ↦ rw y (kept (without_closed closed ws))
  | inr k ↦ rw k (m, discard_clients-absent closed t task d a)
]
  where
    kept : (vs : List ℕ) → All (λ (e : String × List ℕ). str_eq e.0 t ≡ false) (keep_entry u vs d)
    kept [] = a
    kept (v ∷ vs) = (m, a)

-- An entry leaves the dict proper.
pub add_client-Proper :
    (task : String) (w : ℕ) (d : Connections) → Proper d → Proper (add_client task w d)
unfolding add_client
add_client-Proper task w [] p = (omega arith, tt, tt)
add_client-Proper task w ((t, ws) ∷ d) (c, a, p) = elim (Bool-cases (str_eq t task)) [
  | inl y ↦ rw y (elim (Bool-cases (contains w ws)) [
    | inl z ↦ rw z (c, a, p)
    | inr n ↦ rw n (omega arith, a, p)
  ])
  | inr n ↦
      rw n (c, add_client-absent t task w d (str_eq_flip t task n) a, add_client-Proper task w d p)
]

-- So does the removal of websockets: a task whose last one goes is no key any more.
pub discard_clients-Proper :
    (closed : ℕ → Bool) (task : String) (d : Connections)
    → Proper d
    → Proper (discard_clients closed task d)
unfolding discard_clients
discard_clients-Proper closed task [] p = tt
discard_clients-Proper closed task ((t, ws) ∷ d) (c, a, p) = elim (Bool-cases (str_eq t task)) [
  | inl y ↦ rw y (kept (without_closed closed ws))
  | inr n ↦
      rw n (c, discard_clients-absent closed t task d a, discard_clients-Proper closed task d p)
]
  where
    kept : (vs : List ℕ) → Proper (keep_entry t vs d)
    kept [] = p
    kept (v ∷ vs) = (omega arith, a, p)
