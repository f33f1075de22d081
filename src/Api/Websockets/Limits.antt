-- ===== src/Api/Websockets/Limits.antt =====
-- The limits of src/websocket_manager.py, in every interleaving of its coroutines.
use rest_api_plagiarism.Prelude.{
  ℕ, ◌+◌, ◌≤◌, ◌<◌, ◌≡◌, ap, subst, inl, inr, arith, String, str_eq, str_eq_iff, ◌==◌, Bool, true,
  List, [], ◌∷◌, ◌++◌, if◌then◌else◌, Bool-cases, length, length-append, sum_of,
}
use rest_api_plagiarism.Api.Websockets.{
  Connections, clients, total, add_client, may_connect, discard_clients, disconnect,
  broadcast_to_task, max_total_connections, max_connections_per_task, Manager, Step, check, accept,
  accept_fails, disconnects, broadcasts, Reach, here, next,
}
use rest_api_plagiarism.Api.Websockets.Dict.{
  Proper, total-add_client, total-discard_clients, clients-add_client, clients-discard_clients,
  add_client-Proper, discard_clients-Proper,
}

-- How many websockets are being accepted for a task.
abbrev pub waiting : String → List (String × ℕ) → ℕ
waiting task ws = sum_of (λ (e : String × ℕ). if str_eq e.0 task then 1 else 0) ws

waiting-append :
    (task : String) (xs ys : List (String × ℕ))
    → waiting task (xs ++ ys) ≡ waiting task xs + waiting task ys
waiting-append task [] ys = omega arith
waiting-append task (x ∷ xs) ys = omega (arith, waiting-append task xs ys)

waiting-le-length : (task : String) (xs : List (String × ℕ)) → waiting task xs ≤ length xs
waiting-le-length task [] = omega arith
waiting-le-length task ((t, w) ∷ xs) = elim (Bool-cases (str_eq t task)) [
  | inl y ↦ rw y (omega (arith, waiting-le-length task xs))
  | inr n ↦ rw n (omega (arith, waiting-le-length task xs))
]

-- With what is being accepted, no more than the limits and the connects that overlap, less one.
pub record Within (at_once : ℕ) (m : Manager) : Type 0 where
  pub proper : Proper m.connections
  pub all_tasks : total m.connections + length m.accepting + 1 ≤ max_total_connections + at_once
  pub each_task :
      (task : String)
      → length (clients task m.connections) + waiting task m.accepting + 1
        ≤ max_connections_per_task + at_once

may_connect-room :
    (task : String) (d : Connections)
    → may_connect task d ≡ true
    → (total d < max_total_connections) × (length (clients task d) < max_connections_per_task)
unfolding may_connect
may_connect-room task d h = ground arith

check-Within :
    (at_once : ℕ) (m : Manager) (task : String) (w : ℕ)
    → may_connect task m.connections ≡ true
    → length m.accepting + 1 ≤ at_once
    → Within at_once m
    → Within at_once (record m { accepting = m.accepting ++ (task, w) ∷ [] })
check-Within at_once m task w may few v =
    let room = may_connect-room task m.connections may in
    record {
      proper = v.proper;
      all_tasks = omega (arith, room, few, length-append m.accepting ((task, w) ∷ []));
      each_task = λ other.
          let old = v.each_task other in
          let more = waiting-append other m.accepting ((task, w) ∷ []) in
          let most = waiting-le-length other m.accepting in
          elim (Bool-cases (str_eq task other)) [
            | inr n ↦ let more' = rw n at more in omega (arith, old, more')
            | inl y ↦
                let more' = rw y at more in
                let room' = may_connect-room other m.connections (
                  subst (λ t. may_connect t m.connections ≡ true) ((str_eq_iff task other).0 y)
                    may) in
                omega (arith, room', more', most, few)
          ];
    }

-- One websocket leaves the list of those that are being accepted.
module _ (before after : List (String × ℕ)) (task : String) (w : ℕ) (m : Manager)
    (e : m.accepting ≡ before ++ (task, w) ∷ after) where
  one_fewer : length (before ++ after) + 1 ≡ length m.accepting
  one_fewer =
      let a = length-append before after in
      let b = length-append before ((task, w) ∷ after) in
      let c = ap (λ (ws : List (String × ℕ)). length ws) e in omega (arith, a, b, c)

  waits_less :
      (other : String)
      → waiting other (before ++ after) + (if str_eq task other then 1 else 0)
        ≡ waiting other m.accepting
  waits_less other =
      let a = waiting-append other before after in
      let b = waiting-append other before ((task, w) ∷ after) in
      let c = ap (λ (ws : List (String × ℕ)). waiting other ws) e in omega (arith, a, b, c)

  accept-Within :
      (at_once : ℕ)
      → Within at_once m
      → Within at_once
          (record { connections = add_client task w m.connections; accepting = before ++ after })
  accept-Within at_once v =
      let old = v.all_tasks in
      record {
        proper = add_client-Proper task w m.connections v.proper;
        all_tasks = omega (arith, old, one_fewer, total-add_client task w m.connections);
        each_task = λ other.
            let old' = v.each_task other in
            omega (arith, old', waits_less other, clients-add_client task other w m.connections);
      }

  fails-Within :
      (at_once : ℕ) → Within at_once m → Within at_once (record m { accepting = before ++ after })
  fails-Within at_once v =
      let old = v.all_tasks in
      record {
        proper = v.proper;
        all_tasks = omega (arith, old, one_fewer);
        each_task = λ other. let old' = v.each_task other in omega (arith, old', waits_less other);
      }

discard-Within :
    (at_once : ℕ) (m : Manager) (closed : ℕ → Bool) (task : String)
    → Within at_once m
    → Within at_once (record m { connections = discard_clients closed task m.connections })
discard-Within at_once m closed task v =
    let old = v.all_tasks in
    record {
      proper = discard_clients-Proper closed task m.connections v.proper;
      all_tasks = omega (arith, old, total-discard_clients closed task m.connections);
      each_task = λ other.
          let old' = v.each_task other in
          omega (arith, old', clients-discard_clients closed task other m.connections v.proper);
    }

Step-Within : (at_once : ℕ) {m n : Manager} → Step at_once m n → Within at_once m → Within at_once n
unfolding disconnect broadcast_to_task
Step-Within at_once {m} (check task w may few) v = check-Within at_once m task w may few v
Step-Within at_once {m} (accept task w before after e) v =
    accept-Within before after task w m e at_once v
Step-Within at_once {m} (accept_fails task w before after e) v =
    fails-Within before after task w m e at_once v
Step-Within at_once {m} (disconnects task w) v = discard-Within at_once m (λ x. x == w) task v
Step-Within at_once {m} (broadcasts broken task) v = discard-Within at_once m broken task v

-- In every interleaving in which at most `at_once` connects are between their checks and their entry, the registered
-- websockets and those that are being accepted are together at most 99 + at_once, and for each task at most 9 + at_once:
-- the limits of 100 and 10 hold where connects do not overlap. The dict has distinct keys and no empty set.
pub Reach-Within : (at_once : ℕ) {m : Manager} → Reach at_once m → Within at_once m
unfolding clients
Reach-Within at_once here = record {
  proper = tt;
  all_tasks = omega arith;
  each_task = λ task. omega arith;
}
Reach-Within at_once (next r s) = Step-Within at_once s (Reach-Within at_once r)
