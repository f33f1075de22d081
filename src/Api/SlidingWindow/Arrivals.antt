-- ===== src/Api/SlidingWindow/Arrivals.antt =====
-- What `dispatch` of src/middleware/rate_limit.py lets pass of the requests of all clients.
use rest_api_plagiarism.Prelude.{
  String, str_eq, str_eq_iff, ◌==◌, Bool-cases, ℕ, ◌≤◌, ◌≡◌, refl, sym, ap, inl, inr, arith, Bool,
  true, false, none, List, [], ◌∷◌, if◌then◌else◌, All,
}
use rest_api_plagiarism.Auth.Users.{Time}
use rest_api_plagiarism.Api.SlidingWindow.{
  Log, Logs, window_of, hit, Answer, passed, limited, is_in, set_log, request_key, dispatch,
  answer_of_hit,
}
use rest_api_plagiarism.Api.SlidingWindow.Windows.{
  count_in, passing, NotBefore, Held, passing_counts,
}

-- A request: its path, its address and its time.
pub record Arrival : Type 0 where
  pub path : String
  pub client_ip : String
  pub time : Time

abbrev pub key_of : Arrival → String
key_of r = request_key r.path r.client_ip

abbrev pub is_passed : Answer → Bool
is_passed passed = true
is_passed (limited n) = false

module _ (max_requests rate_limit_window : ℕ) (exclude_paths : List String) where
  -- The times of the requests under one key that are passed on.
  pub passes : String → List Arrival → Logs → List Time
  passes key [] logs = []
  passes key (r ∷ requests) logs =
      let (answer, logs') =
        dispatch max_requests rate_limit_window exclude_paths true r.path r.client_ip r.time logs in
      let rest = passes key requests logs' in
      if is_passed answer then if str_eq (key_of r) key then r.time ∷ rest else rest else rest

  -- The times of all requests under one key.
  arrivals : String → List Arrival → List Time
  arrivals key [] = []
  arrivals key (r ∷ requests) =
      let rest = arrivals key requests in if str_eq (key_of r) key then r.time ∷ rest else rest

  -- The times do not go back.
  abbrev pub InOrder : Time → List Arrival → Type 0
  InOrder last [] = Unit
  InOrder last (r ∷ requests) = (last ≤ r.time) × InOrder r.time requests

  InOrder-earlier :
      (a b : Time) (requests : List Arrival) → a ≤ b → InOrder b requests → InOrder a requests
  InOrder-earlier a b [] le o = tt
  InOrder-earlier a b (r ∷ requests) le (p, o) = (omega arith, o)

  arrivals-NotBefore :
      (key : String) (last : Time) (requests : List Arrival)
      → InOrder last requests
      → NotBefore last (arrivals key requests)
  unfolding arrivals
  arrivals-NotBefore key last [] o = tt
  arrivals-NotBefore key last (r ∷ requests) (p, o) = elim (Bool-cases (str_eq (key_of r) key)) [
    | inl y ↦ rw y (p, arrivals-NotBefore key r.time requests o)
    | inr n ↦ rw n (arrivals-NotBefore key last requests (InOrder-earlier last r.time requests p o))
  ]

  answer_of_hit-passed :
      (now : Time) (result : Bool × Log)
      → is_passed (answer_of_hit rate_limit_window now result) ≡ result.0
  answer_of_hit-passed now (true, log) = refl
  answer_of_hit-passed now (false, log) = refl

  dispatch-hit :
      (r : Arrival) (logs : Logs)
      → (max_requests == 0) ≡ false
      → is_in r.path exclude_paths ≡ false
      → let result = hit max_requests rate_limit_window r.time (logs (key_of r)) in
        dispatch max_requests rate_limit_window exclude_paths true r.path r.client_ip r.time logs
        ≡ (answer_of_hit rate_limit_window r.time result, set_log (key_of r) result.1 logs)
  unfolding dispatch
  dispatch-hit r logs pos limits = rw (limits, pos)

  passes-arrivals :
      (key : String) (requests : List Arrival) (logs : Logs)
      → (max_requests == 0) ≡ false
      → All (λ r. is_in r.path exclude_paths ≡ false) requests
      → passes key requests logs
        ≡ passing max_requests rate_limit_window (arrivals key requests) (logs key)
  unfolding passes arrivals passing
  passes-arrivals key [] logs pos all = refl
  passes-arrivals key (r ∷ requests) logs pos (limits, all) =
      let result = hit max_requests rate_limit_window r.time (logs (key_of r)) in
      let d = dispatch-hit r logs pos limits in
      let p = answer_of_hit-passed r.time result in
      let ih = passes-arrivals key requests (set_log (key_of r) result.1 logs) pos all in
      elim (Bool-cases (str_eq (key_of r) key)) [
        | inl y ↦
            let ih' = rw y at ih in
            let same : logs key ≡ logs (key_of r) =
              ap logs (sym ((str_eq_iff (key_of r) key).0 y)) in
            rw (d, p, y, ih', same)
        | inr n ↦
            let ih' = rw n at ih in
            rw (d, p, n)
              (elim (Bool-cases result.0) [ inl ok ↦ rw ok ih' | inr no_more ↦ rw no_more ih' ])
      ]

  empty_log : (log : Log) → log ≡ none → Held (window_of rate_limit_window) max_requests 0 log
  unfolding count_in
  empty_log log e = rw e (record { counts = λ t. omega arith; lasting = tt; past = tt })

  -- Whatever requests come to the API, in any order of clients, the requests of one client to one path that are
  -- passed on number at most `max_requests` in every window of `rate_limit_window` seconds. The clock does not go back,
  -- Redis answers, the limit is not 0, no path is excluded, and the client is not known at the start.
  pub passes_bounds :
      (key : String) (requests : List Arrival) (logs : Logs) (t : Time)
      → (max_requests == 0) ≡ false
      → All (λ r. is_in r.path exclude_paths ≡ false) requests
      → InOrder 0 requests
      → logs key ≡ none
      → count_in (window_of rate_limit_window) t (passes key requests logs) ≤ max_requests
  passes_bounds key requests logs t pos all o new =
      let same = passes-arrivals key requests logs pos all in
      let bound =
        passing_counts max_requests rate_limit_window 0 (arrivals key requests) (logs key) t
          (arrivals-NotBefore key 0 requests o) (empty_log (logs key) new) in
      rw same (omega (arith, bound))
