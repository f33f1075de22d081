-- ===== src/Api/Websockets.antt =====
-- src/websocket_manager.py: the connections of `ConnectionManager`, and how its coroutines interleave. A
-- websocket is a number. `connect` gives up control at `await websocket.accept()`, between its checks and
-- the entry into the dict, so the websockets that are being accepted are part of the state.
pub mod Dict
pub mod Limits
use rest_api_plagiarism.Prelude.{
  ℕ, ◌+◌, ◌≤◌, ◌≡◌, String, str_eq, Bool, true, false, List, [], ◌∷◌, ◌++◌, leb, ltb, ◌==◌,
  if◌then◌else◌, length, sum_of,
}

-- dict[str, set[WebSocket]]
abbrev pub Connections : Type 0
Connections = List (String × List ℕ)

abbrev pub max_total_connections : ℕ
max_total_connections = 100

abbrev pub max_connections_per_task : ℕ
max_connections_per_task = 10

unfoldable pub contains : ℕ → List ℕ → Bool
contains w [] = false
contains w (v ∷ ws) = if v == w then true else contains w ws

-- `self._connections.get(task_id, set())`
unfoldable pub clients : String → Connections → List ℕ
clients task [] = []
clients task ((t, ws) ∷ d) = if str_eq t task then ws else clients task d

-- `sum(len(s) for s in self._connections.values())`
abbrev pub total : Connections → ℕ
total d = sum_of (λ (e : String × List ℕ). length e.1) d

-- `self._connections.setdefault(task_id, set()).add(websocket)`
unfoldable pub add_client : String → ℕ → Connections → Connections
unfolding contains
add_client task w [] = (task, w ∷ []) ∷ []
add_client task w ((t, ws) ∷ d) =
    if str_eq t task
    then (t, if contains w ws then ws else w ∷ ws) ∷ d
    else (t, ws) ∷ add_client task w d

pub without_closed : (ℕ → Bool) → List ℕ → List ℕ
without_closed closed [] = []
without_closed closed (w ∷ ws) =
    let rest = without_closed closed ws in if closed w then rest else w ∷ rest

-- A task whose set has become empty is no key any more.
abbrev pub keep_entry : String → List ℕ → Connections → Connections
keep_entry task [] d = d
keep_entry task (w ∷ ws) d = (task, w ∷ ws) ∷ d

pub discard_clients : (ℕ → Bool) → String → Connections → Connections
unfolding without_closed
discard_clients closed task [] = []
discard_clients closed task ((t, ws) ∷ d) =
    if str_eq t task
    then keep_entry t (without_closed closed ws) d
    else (t, ws) ∷ discard_clients closed task d

-- `disconnect`
pub disconnect : ℕ → String → Connections → Connections
unfolding discard_clients
disconnect w task d = discard_clients (λ v. v == w) task d

-- `_broadcast_to_task`, where `send_json` raises an exception for the websockets in `broken`.
pub broadcast_to_task : (ℕ → Bool) → String → Connections → Connections
unfolding discard_clients
broadcast_to_task broken task d = discard_clients broken task d

-- The two checks of `connect`.
unfoldable pub may_connect : String → Connections → Bool
unfolding clients
may_connect task d =
    if leb max_total_connections (total d)
    then false
    else if leb max_connections_per_task (length (clients task d))
    then false
    else true

-- The websockets that are registered, and those that are being accepted, each with its task.
pub record Manager : Type 0 where
  pub connections : Connections
  pub accepting : List (String × ℕ)

abbrev pub start : Manager
start = record { connections = []; accepting = [] }

-- What one coroutine does between two points at which it gives up control; `at_once` bounds how many connects
-- are between their checks and their entry.
pub data Step (at_once : ℕ) (m : Manager) : Manager → Type 0 where
  check :
      (task : String) (w : ℕ)
      → may_connect task m.connections ≡ true
      → length m.accepting + 1 ≤ at_once
      → Step at_once m (record m { accepting = m.accepting ++ (task, w) ∷ [] })
  accept :
      (task : String) (w : ℕ) (before after : List (String × ℕ))
      → m.accepting ≡ before ++ (task, w) ∷ after
      → Step at_once m
          (record { connections = add_client task w m.connections; accepting = before ++ after })
  accept_fails :
      (task : String) (w : ℕ) (before after : List (String × ℕ))
      → m.accepting ≡ before ++ (task, w) ∷ after
      → Step at_once m (record m { accepting = before ++ after })
  disconnects :
      (task : String) (w : ℕ)
      → Step at_once m (record m { connections = disconnect w task m.connections })
  broadcasts :
      (broken : ℕ → Bool) (task : String)
      → Step at_once m (record m { connections = broadcast_to_task broken task m.connections })

pub data Reach (at_once : ℕ) : Manager → Type 0 where
  here : Reach at_once start
  next : {m n : Manager} → Reach at_once m → Step at_once m n → Reach at_once n
