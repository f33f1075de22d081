-- ===== src/Auth/RateLimit.antt =====
-- src/auth/rate_limit.py: a counter of Redis that expires a window after the last request. Where Redis does
-- not answer every request is allowed.
use rest_api_plagiarism.Prelude.{
  ℕ, ◌+◌, ◌-◌, ◌*◌, ◌<◌, ◌≡◌, refl, ap, arith, String, str_eq, str_eq_refl, Bool, true, false,
  Option, none, some, List, [], ◌∷◌, leb, ltb, if◌then◌else◌,
}
use rest_api_plagiarism.Auth.Users.{Time, second}

-- The counters of Redis, each with the time at which it expires.
abbrev pub Counters : Type 0
Counters = String → Option (ℕ × Time)

-- INCR of a counter; one that has expired is none.
abbrev pub incremented : Time → Option (ℕ × Time) → ℕ
incremented now none = 1
incremented now (some (n, until)) = if ltb now until then n + 1 else 1

-- INCR and EXPIRE in one pipeline
abbrev pub count_request : Time → String → ℕ → Counters → Counters
count_request now key window_seconds counters k =
    if str_eq k key
    then some (incremented now (counters key), now + window_seconds * second)
    else counters k

-- `check_rate_limit`; EXPIRE has found the key that INCR has made.
pub check_rate_limit : Bool → Time → String → ℕ → ℕ → Counters → Bool × Counters
check_rate_limit online now key max_requests window_seconds counters =
    if online
    then (
      leb (incremented now (counters key)) max_requests,
      count_request now key window_seconds counters,
    )
    else (true, counters)

-- A request: whether Redis answers it, and when it comes.
abbrev pub Arrival : Type 0
Arrival = Bool × Time

-- The answers to the requests for one key, one after the other.
pub allowed : String → ℕ → ℕ → List Arrival → Counters → List Bool
allowed key max_requests window_seconds [] counters = []
allowed key max_requests window_seconds ((online, now) ∷ requests) counters =
    let (ok, counters') = check_rate_limit online now key max_requests window_seconds counters in
    ok ∷ allowed key max_requests window_seconds requests counters'

-- Each request that Redis answers comes less than a window after the one before.
abbrev pub Busy : ℕ → Time → List Arrival → Type 0
Busy window_seconds last [] = Unit
Busy window_seconds last ((true, now) ∷ requests) =
    (now < last + window_seconds * second) × Busy window_seconds now requests
Busy window_seconds last ((false, now) ∷ requests) = Busy window_seconds last requests

-- The first `n` of the requests that Redis answers, and all that it does not answer.
abbrev pub first_answered : ℕ → List Arrival → List Bool
first_answered n [] = []
first_answered n ((true, now) ∷ requests) = ltb 0 n ∷ first_answered (n - 1) requests
first_answered n ((false, now) ∷ requests) = true ∷ first_answered n requests

counted : (n m : ℕ) → leb (n + 1) m ≡ ltb 0 (m - n)
counted n m = ground arith

allowed-counted :
    (key : String) (m w last n : ℕ) (requests : List Arrival) (counters : Counters)
    → counters key ≡ some (n, last + w * second)
    → Busy w last requests
    → allowed key m w requests counters ≡ first_answered (m - n) requests
unfolding allowed check_rate_limit
allowed-counted key m w last n [] counters at b = refl
allowed-counted key m w last n ((false, now) ∷ requests) counters at b =
    ap (λ bs. true ∷ bs) (allowed-counted key m w last n requests counters at b)
allowed-counted key m w last n ((true, now) ∷ requests) counters at (soon, b) =
    let live : ltb now (last + w * second) ≡ true = ground arith in
    let here : count_request now key w counters key ≡ some (n + 1, now + w * second) =
      rw (str_eq_refl key, at, live) in
    let ih =
      allowed-counted key m w now (n + 1) requests (count_request now key w counters) here b in
    let fewer : m - (n + 1) ≡ m - n - 1 = omega arith in rw (at, live, counted n m, ih, fewer)

-- Requests for one key come one after the other; the first finds no running counter and is answered by Redis, and of
-- those that Redis answers each comes less than a window after the one before. Then the first `max_requests` of the
-- answered ones are allowed and every later one is refused, however long they go on. A request that Redis does not
-- answer is allowed and not counted.
pub allowed-first_answered :
    (key : String) (max_requests window_seconds : ℕ) (now : Time) (requests : List Arrival)
    (counters : Counters)
    → incremented now (counters key) ≡ 1
    → Busy window_seconds now requests
    → allowed key max_requests window_seconds ((true, now) ∷ requests) counters
      ≡ first_answered max_requests ((true, now) ∷ requests)
unfolding allowed check_rate_limit
allowed-first_answered key m w now requests counters fresh b =
    let here : count_request now key w counters key ≡ some (1, now + w * second) =
      rw (str_eq_refl key, fresh) in
    let ih = allowed-counted key m w now 1 requests (count_request now key w counters) here b in
    let first : leb 1 m ≡ ltb 0 m = ground arith in rw (fresh, first, ih)
