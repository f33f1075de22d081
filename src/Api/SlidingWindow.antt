-- ===== src/Api/SlidingWindow.antt =====
-- src/middleware/rate_limit.py: `RateLimitMiddleware`, with the Lua script that it runs in Redis. A sorted set is
-- the list of the scores, the times of requests; each member is different, since it ends with the request's id.
pub mod Windows
pub mod Arrivals
use rest_api_plagiarism.Prelude.{
  ℕ, ◌+◌, ◌-◌, ◌*◌, ◌/◌, max, min, String, str_eq, str_append, Bool, true, false, Option, none,
  some, List, [], ◌∷◌, ◌++◌, leb, ltb, ◌==◌, length, if◌then◌else◌,
}
use rest_api_plagiarism.Auth.Users.{Time, second}

-- The sorted set of a key, with the time at which it expires.
abbrev pub Log : Type 0
Log = Option (List Time × Time)

abbrev pub Logs : Type 0
Logs = String → Log

abbrev pub entries : Time → Log → List Time
entries now none = []
entries now (some (times, until)) = if ltb now until then times else []

-- ZREMRANGEBYSCORE key 0 (now - window)
pub within_window : Time → Time → List Time → List Time
within_window window now [] = []
within_window window now (t ∷ times) =
    let rest = within_window window now times in if leb (t + window) now then rest else t ∷ rest

-- What is left of the set of a key: its expiry stays as it was.
abbrev pub trimmed_log : Time → Time → Log → Log
trimmed_log window now none = none
trimmed_log window now (some (times, until)) =
    some (within_window window now (entries now (some (times, until))), until)

abbrev pub window_of : ℕ → Time
window_of rate_limit_window = rate_limit_window * second

-- The script: whether the request is allowed, and the set behind it.
pub hit : ℕ → ℕ → Time → Log → Bool × Log
unfolding within_window
hit rate_limit_requests rate_limit_window now log =
    let window = window_of rate_limit_window in
    let current = within_window window now (entries now log) in
    if ltb (length current) rate_limit_requests
    then (true, some (current ++ now ∷ [], now + window_of (rate_limit_window + 10)))
    else (false, trimmed_log window now log)

-- ZRANGE key 0 0
abbrev pub oldest_from : Time → List Time → Time
oldest_from t [] = t
oldest_from t (s ∷ times) = min t (oldest_from s times)

-- The answer: passed on, or the status 429 with the seconds to wait.
pub data Answer : Type 0 where
  passed : Answer
  limited : ℕ → Answer

abbrev pub retry_after : ℕ → Time → List Time → ℕ
retry_after rate_limit_window now [] = max 1 rate_limit_window
retry_after rate_limit_window now (t ∷ times) =
    max 1 ((oldest_from t times + window_of rate_limit_window - now) / second)

abbrev pub answer_of_hit : ℕ → Time → Bool × Log → Answer
answer_of_hit rate_limit_window now (true, log) = passed
answer_of_hit rate_limit_window now (false, log) =
    limited (retry_after rate_limit_window now (entries now log))

unfoldable pub is_in : String → List String → Bool
is_in s [] = false
is_in s (t ∷ ts) = if str_eq t s then true else is_in s ts

abbrev pub set_log : String → Log → Logs → Logs
set_log key log logs k = if str_eq key k then log else logs k

abbrev pub request_key : String → String → String
request_key path client_ip = str_append "rate_limit:" (str_append path (str_append ":" client_ip))

module _ (rate_limit_requests rate_limit_window : ℕ) (exclude_paths : List String) where
  -- `dispatch` of a request; `online` is false where there is no client or Redis raises an exception.
  pub dispatch : Bool → String → String → Time → Logs → Answer × Logs
  unfolding hit is_in
  dispatch online path client_ip now logs =
      let key = request_key path client_ip in
      let result = hit rate_limit_requests rate_limit_window now (logs key) in
      if is_in path exclude_paths
      then (passed, logs)
      else if online
      then if rate_limit_requests == 0
        then (passed, logs)
        else (answer_of_hit rate_limit_window now result, set_log key result.1 logs)
      else (passed, logs)
