-- ===== src/Api/SlidingWindow/Windows.antt =====
-- How many requests src/middleware/rate_limit.py lets pass in a window.
use rest_api_plagiarism.Prelude.{
  Bool-cases, ℕ, ◌+◌, ◌≤◌, ◌<◌, ◌≡◌, refl, sym, ap, inl, inr, arith, true, false, none, some, List,
  [], ◌∷◌, ◌++◌, leb, ltb, length, if◌then◌else◌, All,
}
use rest_api_plagiarism.Auth.Users.{Time}
use rest_api_plagiarism.Api.SlidingWindow.{Log, entries, within_window, trimmed_log, window_of, hit}

abbrev pub counted : Time → Time → Time → ℕ
counted window t a = if leb a t then if ltb t (a + window) then 1 else 0 else 0

-- How many of the times lie in the window that ends at `t`: not later than `t`, and less than `window` before it.
unfoldable pub count_in : Time → Time → List Time → ℕ
count_in window t [] = 0
count_in window t (a ∷ times) = counted window t a + count_in window t times

-- The times of the requests to one key that are allowed.
unfoldable pub passing : ℕ → ℕ → List Time → Log → List Time
passing max_requests rate_limit_window [] log = []
passing max_requests rate_limit_window (now ∷ times) log =
    let (ok, log') = hit max_requests rate_limit_window now log in
    let rest = passing max_requests rate_limit_window times log' in if ok then now ∷ rest else rest

-- The clock does not go back.
abbrev pub NotBefore : Time → List Time → Type 0
NotBefore last [] = Unit
NotBefore last (now ∷ times) = (last ≤ now) × NotBefore now times

abbrev pub logged : Log → List Time
logged none = []
logged (some (times, until)) = times

-- An entry leaves the window before its set expires.
abbrev pub Lasting : Time → Log → Type 0
Lasting window none = Unit
Lasting window (some (times, until)) = All (λ a. a + window ≤ until) times

count_in-append :
    (window t : Time) (xs : List Time) (a : Time)
    → count_in window t (xs ++ a ∷ []) ≡ count_in window t xs + count_in window t (a ∷ [])
unfolding count_in
count_in-append window t [] a = omega arith
count_in-append window t (x ∷ xs) a = let ih = count_in-append window t xs a in omega (arith, ih)

count_in-length : (window t : Time) (xs : List Time) → count_in window t xs ≤ length xs
unfolding count_in
count_in-length window t [] = omega arith
count_in-length window t (x ∷ xs) =
    let ih = count_in-length window t xs in
    elim (Bool-cases (leb x t)) [
      | inl y ↦ elim (Bool-cases (ltb t (x + window))) [
        | inl z ↦ rw (y, z) (omega (arith, ih))
        | inr z ↦ rw (y, z) (omega (arith, ih))
      ]
      | inr y ↦ rw y (omega (arith, ih))
    ]

-- A time that is removed at `now` lies in no window that ends at `now` or later.
gone : (window now t x : Time) → now ≤ t → leb (x + window) now ≡ true → counted window t x ≡ 0
gone window now t x le y =
    let late : ltb t (x + window) ≡ false = ground arith in
    elim (Bool-cases (leb x t)) [ inl z ↦ rw (z, late) | inr z ↦ rw z ]

count_in-within_window :
    (window now t : Time) (xs : List Time)
    → now ≤ t
    → count_in window t (within_window window now xs) ≡ count_in window t xs
unfolding count_in within_window
count_in-within_window window now t [] le = refl
count_in-within_window window now t (x ∷ xs) le =
    let ih = count_in-within_window window now t xs le in
    elim (Bool-cases (leb (x + window) now)) [
      | inl y ↦ let none_of = gone window now t x le y in rw (y, none_of) (omega (arith, ih))
      | inr n ↦ rw n (omega (arith, ih))
    ]

count_in-within_le :
    (window now t : Time) (xs : List Time)
    → count_in window t (within_window window now xs) ≤ count_in window t xs
unfolding count_in within_window
count_in-within_le window now t [] = omega arith
count_in-within_le window now t (x ∷ xs) =
    let ih = count_in-within_le window now t xs in
    elim (Bool-cases (leb (x + window) now)) [
      | inl y ↦ rw y (omega (arith, ih))
      | inr n ↦ rw n (omega (arith, ih))
    ]

count_in-over :
    (window now t : Time) (xs : List Time)
    → All (λ a. a + window ≤ now) xs
    → now ≤ t
    → count_in window t xs ≡ 0
unfolding count_in
count_in-over window now t [] over le = refl
count_in-over window now t (x ∷ xs) (o, over) le =
    let none_of = gone window now t x le (ground arith) in
    let ih = count_in-over window now t xs over le in omega (arith, none_of, ih)

-- Nothing that passes at `last` or later lies in a window that ended before.
count_in-passing_early :
    (window t : Time) (m w : ℕ) (last : Time) (times : List Time) (log : Log)
    → t < last
    → NotBefore last times
    → count_in window t (passing m w times log) ≡ 0
unfolding count_in passing
count_in-passing_early window t m w last [] log early b = refl
count_in-passing_early window t m w last (now ∷ times) log early (le, b) =
    let later : t < now = omega arith in
    let not_yet : leb now t ≡ false = ground arith in
    let ih = count_in-passing_early window t m w now times (hit m w now log).1 later b in
    elim (Bool-cases (hit m w now log).0) [
      | inl y ↦ rw (y, not_yet) (omega (arith, ih))
      | inr n ↦ rw n ih
    ]

within_window-All :
    (P : Time → Type 0) (window now : Time) (xs : List Time)
    → All P xs
    → All P (within_window window now xs)
unfolding within_window
within_window-All P window now [] ps = tt
within_window-All P window now (x ∷ xs) (p, ps) = elim (Bool-cases (leb (x + window) now)) [
  | inl y ↦ rw y (within_window-All P window now xs ps)
  | inr n ↦ rw n (p, within_window-All P window now xs ps)
]

entries-All :
    (P : Time → Type 0) (now : Time) (log : Log) → All P (logged log) → All P (entries now log)
entries-All P now none ps = tt
entries-All P now (some (times, until)) ps = elim (Bool-cases (ltb now until)) [
  | inl y ↦ rw y ps
  | inr n ↦ rw n tt
]

count_in-entries_le :
    (window now t : Time) (log : Log)
    → count_in window t (entries now log) ≤ count_in window t (logged log)
unfolding count_in
count_in-entries_le window now t none = omega arith
count_in-entries_le window now t (some (times, until)) = elim (Bool-cases (ltb now until)) [
  | inl y ↦ rw y (omega arith)
  | inr n ↦ rw n (omega arith)
]

All-weaken :
    (a b window : Time) (xs : List Time)
    → a ≤ b
    → All (λ x. x + window ≤ a) xs
    → All (λ x. x + window ≤ b) xs
All-weaken a b window [] le ps = tt
All-weaken a b window (x ∷ xs) le (p, ps) = (omega arith, All-weaken a b window xs le ps)

count_in-entries :
    (window now t : Time) (log : Log)
    → Lasting window log
    → now ≤ t
    → count_in window t (entries now log) ≡ count_in window t (logged log)
unfolding count_in
count_in-entries window now t none l le = refl
count_in-entries window now t (some (times, until)) l le = elim (Bool-cases (ltb now until)) [
  | inl y ↦ rw y
  | inr n ↦
      let over = All-weaken until now window times (ground arith) l in
      rw n (sym (count_in-over window now t times over le))
]

-- What holds of a set between two requests, the last of them at `last`.
pub record Held (window : Time) (m : ℕ) (last : Time) (log : Log) : Type 0 where
  pub counts : (t : Time) → count_in window t (logged log) ≤ m
  pub lasting : Lasting window log
  pub past : All (λ a. a ≤ last) (logged log)

current_length :
    (window now t : Time) (m : ℕ) (log : Log)
    → length (within_window window now (entries now log)) < m
    → count_in window t (within_window window now (entries now log) ++ now ∷ []) ≤ m
unfolding count_in
current_length window now t m log few =
    let current = within_window window now (entries now log) in
    let both = count_in-append window t current now in
    let bound = count_in-length window t current in
    let one = count_in-length window t (now ∷ []) in omega (arith, both, bound, one, few)

All-append : (P : Time → Type 0) (xs : List Time) (x : Time) → All P xs → P x → All P (xs ++ x ∷ [])
All-append P [] x ps p = (p, tt)
All-append P (y ∷ ys) x (q, qs) p = (q, All-append P ys x qs p)

All-later : (a b : Time) (xs : List Time) → a ≤ b → All (λ x. x ≤ a) xs → All (λ x. x ≤ b) xs
All-later a b [] le ps = tt
All-later a b (x ∷ xs) le (p, ps) = (omega arith, All-later a b xs le ps)

All-lasting :
    (now w : Time) (xs : List Time)
    → All (λ x. x ≤ now) xs
    → All (λ x. x + window_of w ≤ now + window_of (w + 10)) xs
All-lasting now w [] ps = tt
All-lasting now w (x ∷ xs) (p, ps) = (omega arith, All-lasting now w xs ps)

logged-trimmed_log :
    (window now : Time) (log : Log)
    → logged (trimmed_log window now log) ≡ within_window window now (entries now log)
unfolding within_window
logged-trimmed_log window now none = refl
logged-trimmed_log window now (some (times, until)) = refl

trimmed_log-Lasting :
    (window now : Time) (log : Log)
    → Lasting window log
    → Lasting window (trimmed_log window now log)
trimmed_log-Lasting window now none l = l
trimmed_log-Lasting window now (some (times, until)) l =
    within_window-All (λ a. a + window ≤ until) window now (entries now (some (times, until)))
      (entries-All (λ a. a + window ≤ until) now (some (times, until)) l)

entered-Held :
    (m w last now : ℕ) (log : Log)
    → last ≤ now
    → length (within_window (window_of w) now (entries now log)) < m
    → Held (window_of w) m last log
    → Held (window_of w) m now (
        some
          (within_window (window_of w) now (entries now log) ++ now ∷ [], now + window_of (w + 10)))
entered-Held m w last now log le few held =
    let window = window_of w in
    let current = within_window window now (entries now log) in
    let earlier : All (λ x. x ≤ now) (logged log) = All-later last now (logged log) le held.past in
    let past =
      All-append (λ x. x ≤ now) current now
        (within_window-All (λ x. x ≤ now) window now (entries now log)
          (entries-All (λ x. x ≤ now) now log earlier))
        (omega arith) in
    record {
      counts = λ t. current_length window now t m log few;
      lasting = All-lasting now w (current ++ now ∷ []) past;
      past = past;
    }

trimmed_log-Held :
    (window m last now : ℕ) (log : Log)
    → last ≤ now
    → Held window m last log
    → Held window m now (trimmed_log window now log)
trimmed_log-Held window m last now log le held =
    let earlier : All (λ x. x ≤ now) (logged log) = All-later last now (logged log) le held.past in
    let same = logged-trimmed_log window now log in
    record {
      counts = λ t. rw same (
          let a = count_in-within_le window now t (entries now log) in
          let b = count_in-entries_le window now t log in
          let c = held.counts t in omega (arith, a, b, c));
      lasting = trimmed_log-Lasting window now log held.lasting;
      past = rw same (
          within_window-All (λ x. x ≤ now) window now (entries now log)
            (entries-All (λ x. x ≤ now) now log earlier));
    }

-- Where the clock does not go back, no window holds more allowed requests than the limit.
pub passing_counts :
    (m w last : ℕ) (times : List Time) (log : Log) (t : Time)
    → NotBefore last times
    → Held (window_of w) m last log
    → count_in (window_of w) t (logged log) + count_in (window_of w) t (passing m w times log) ≤ m
unfolding passing count_in hit
passing_counts m w last [] log t b held = let c = held.counts t in omega (arith, c)
passing_counts m w last (now ∷ times) log t (le, b) held =
    let window = window_of w in
    let current = within_window window now (entries now log) in
    elim (Bool-cases (ltb t now)) [
      | inl early ↦
          let c = held.counts t in
          let none_of =
            count_in-passing_early window t m w now (now ∷ times) log (ground arith)
              (omega arith, b) in
          omega (arith, c, none_of)
      | inr late ↦
          let t_late : now ≤ t = ground arith in
          let same = count_in-entries window now t log held.lasting t_late in
          let left = count_in-within_window window now t (entries now log) t_late in
          elim (Bool-cases (ltb (length current) m)) [
            | inl few ↦
                let held' = entered-Held m w last now log le (ground arith) held in
                let ih =
                  passing_counts m w now times
                    (some (current ++ now ∷ [], now + window_of (w + 10))) t b held' in
                let both = count_in-append window t current now in
                rw few (omega (arith, ih, both, same, left))
            | inr many ↦
                let held' = trimmed_log-Held window m last now log le held in
                let ih = passing_counts m w now times (trimmed_log window now log) t b held' in
                let kept = ap (count_in window t) (logged-trimmed_log window now log) in
                rw many (omega (arith, ih, kept, same, left))
          ]
    ]
