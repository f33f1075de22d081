-- ===== src/Worker/Tasks/Statuses.antt =====
-- The order of the statuses that worker/services/task_service.py writes for a task.
use rest_api_plagiarism.Prelude.{
  ℕ, zero, suc, ◌+◌, ◌/◌, ◌≤◌, max, min, String, Bool, true, false, Option, none, some, List, [],
  ◌∷◌, ◌++◌, arith, take, drop, length, if◌then◌else◌,
}
use rest_api_plagiarism.Worker.Calls.{
  FileInfo, Pair, Row, Status, indexing, finding_intra_pairs, finding_cross_pairs, storing_results,
  Call, update, completed, failed, insert, Outcome, done, raised, Act, Repository, answered, ◌>>=◌,
  lift, skip, perform,
}
use rest_api_plagiarism.Worker.Results.{
  rows, is_due, store_batches, store_similarity_scores, finalize_task, mark_failed,
}
use rest_api_plagiarism.Worker.Tasks.{
  Services, report, service, find_cross, finish, find_and_finish, try_task, caught, process_task,
}

abbrev pub status_phase : Status → ℕ
status_phase indexing = 0
status_phase finding_intra_pairs = 1
status_phase finding_cross_pairs = 2
status_phase storing_results = 3

-- The phase of a call; rows are inserted while the results are stored.
abbrev pub phase : Call → ℕ
phase (update status p t) = status_phase status
phase (insert rs) = 3
phase (completed s t p) = 4
phase (failed e) = 5

-- The phases of the calls ascend from `lo` to no more than `hi`.
abbrev pub Climbs : ℕ → ℕ → List Call → Type 0
Climbs lo hi [] = lo ≤ hi
Climbs lo hi (c ∷ cs) = (lo ≤ phase c) × Climbs (phase c) hi cs

Climbs-append :
    (lo mid hi : ℕ) (cs ds : List Call)
    → Climbs lo mid cs
    → Climbs mid hi ds
    → Climbs lo hi (cs ++ ds)
Climbs-append lo mid hi [] [] p q = omega arith
Climbs-append lo mid hi [] (d ∷ ds) p (q, qs) = (omega arith, qs)
Climbs-append lo mid hi (c ∷ cs) ds (p, ps) q = (p, Climbs-append (phase c) mid hi cs ds ps q)

Climbs-wider : (lo mid hi : ℕ) (cs : List Call) → Climbs lo mid cs → mid ≤ hi → Climbs lo hi cs
Climbs-wider lo mid hi [] p q = omega arith
Climbs-wider lo mid hi (c ∷ cs) (p, ps) q = (p, Climbs-wider (phase c) mid hi cs ps q)

-- Two parts that climb, one after the other.
bind-Climbs :
    {A B : Type 0} (lo mid hi : ℕ) (m : Act A) (f : A → Act B)
    → mid ≤ hi
    → Climbs lo mid m.0
    → ((a : A) → Climbs mid hi ((f a).0))
    → Climbs lo hi ((m >>= f).0)
bind-Climbs lo mid hi (cs, done a) f le p q = Climbs-append lo mid hi cs (f a).0 p (q a)
bind-Climbs lo mid hi (cs, raised e) f le p q = Climbs-wider lo mid hi cs p le

perform-Climbs :
    (repo : Repository) (lo : ℕ) (c : Call)
    → lo ≤ phase c
    → Climbs lo (phase c) ((perform repo c).0)
perform-Climbs repo lo c le = go (repo.refuse c)
  where
    go : (o : Option String) → Climbs lo (phase c) ((answered c o).0)
    go none = (le, omega arith)
    go (some e) = le

report-Climbs :
    {A : Type 0} (repo : Repository) (status : Status) (progress : List (ℕ × ℕ))
    (result : Outcome A)
    → Climbs (status_phase status) (status_phase status) (report repo status progress result).0
unfolding report
report-Climbs repo status [] result = omega arith
report-Climbs repo status ((p, t) ∷ progress) result =
    let k = status_phase status in
    bind-Climbs k k k (perform repo (update status p t)) (λ _. report repo status progress result)
      (omega arith) (perform-Climbs repo k (update status p t) (omega arith))
      (λ _. report-Climbs repo status progress result)

if_due-Climbs :
    (repo : Repository) (due : Bool) (processed total : ℕ)
    → Climbs 3 3 (if due then perform repo (update storing_results processed total) else skip).0
if_due-Climbs repo true processed total =
    perform-Climbs repo 3 (update storing_results processed total) (omega arith)
if_due-Climbs repo false processed total = omega arith

store_batches-Climbs :
    (repo : Repository) (bs interval total fuel start last : ℕ) (left : List Row)
    → Climbs 3 3 (store_batches repo bs interval total fuel start last left).0
unfolding store_batches
store_batches-Climbs repo bs interval total zero start last left = omega arith
store_batches-Climbs repo bs interval total (suc fuel) start last [] = omega arith
store_batches-Climbs repo bs interval total (suc fuel) start last (r ∷ left) =
    let processed = min (start + bs) total in
    let due = is_due interval total last processed in
    let first = perform repo (insert (take bs (r ∷ left))) in
    let report : Act Unit =
      if due then perform repo (update storing_results processed total) else skip in
    bind-Climbs 3 3 3 (first >>= (λ _. report))
      (λ _.
        store_batches repo bs interval total fuel (start + bs) (if due then processed else last)
          (drop bs (r ∷ left)))
      (omega arith)
      (bind-Climbs 3 3 3 first (λ _. report) (omega arith)
        (perform-Climbs repo 3 (insert (take bs (r ∷ left))) (omega arith))
        (λ _. if_due-Climbs repo due processed total))
      (λ _.
        store_batches-Climbs repo bs interval total fuel (start + bs)
          (if due then processed else last) (drop bs (r ∷ left)))

store-Climbs :
    (repo : Repository) (bs : ℕ) (pairs : List Pair)
    → Climbs 3 3 (store_similarity_scores repo bs pairs).0
unfolding store_similarity_scores
store-Climbs repo bs pairs =
    let total = length (rows pairs) in
    store_batches-Climbs repo bs (max 1 (total / 50)) total total 0 0 (rows pairs)

finalize-Climbs :
    (repo : Repository) (lo total count : ℕ)
    → lo ≤ 4
    → Climbs lo 4 (finalize_task repo total count).0
finalize-Climbs repo lo total count le =
    bind-Climbs lo lo 4 (lift repo.max_similarity) (λ sim. perform repo (completed sim total count))
      le (omega arith) (λ sim. perform-Climbs repo lo (completed sim total count) le)

module _ (repo : Repository) (services : Services) where
  find_cross-Climbs :
      (total : ℕ) (existing : List FileInfo)
      → Climbs 1 2 (find_cross repo services total existing).0
  unfolding find_cross
  find_cross-Climbs total [] = omega arith
  find_cross-Climbs total (f ∷ existing) =
      let (progress, result) = services.cross_pairs (f ∷ existing) in
      bind-Climbs 1 2 2 (perform repo (update finding_cross_pairs 0 total))
        (λ _. report repo finding_cross_pairs progress result) (omega arith)
        (perform-Climbs repo 1 (update finding_cross_pairs 0 total) (omega arith))
        (λ _. report-Climbs repo finding_cross_pairs progress result)

  finish-Climbs : (pairs : List Pair) → Climbs 2 4 (finish repo services pairs).0
  unfolding finish
  finish-Climbs [] = finalize-Climbs repo 2 0 0 (omega arith)
  finish-Climbs (p ∷ pairs) =
      bind-Climbs 2 2 4 (lift (services.ast_similarities (p ∷ pairs))) _ (omega arith) (omega arith)
        (λ scored.
          bind-Climbs 2 3 4
            (perform repo (update storing_results 0 (length scored))
              >>= (λ _. store_similarity_scores repo 20000 scored))
            (λ _. finalize_task repo (length scored) (length scored)) (omega arith)
            (bind-Climbs 2 3 3 (perform repo (update storing_results 0 (length scored)))
              (λ _. store_similarity_scores repo 20000 scored) (omega arith)
              (perform-Climbs repo 2 (update storing_results 0 (length scored)) (omega arith))
              (λ _. store-Climbs repo 20000 scored))
            (λ _. finalize-Climbs repo 3 (length scored) (length scored) (omega arith)))

  find_and_finish-Climbs :
      (total : ℕ) (existing : List FileInfo)
      → Climbs 0 4 (find_and_finish repo services total existing).0
  unfolding find_and_finish
  find_and_finish-Climbs total existing =
      let (progress, result) = services.intra_pairs in
      bind-Climbs 0 1 4
        (perform repo (update finding_intra_pairs 0 total)
          >>= (λ _. service repo finding_intra_pairs services.intra_pairs))
        (λ intra.
          find_cross repo services total existing
          >>= (λ cross. finish repo services (intra ++ cross)))
        (omega arith)
        (bind-Climbs 0 1 1 (perform repo (update finding_intra_pairs 0 total))
          (λ _. report repo finding_intra_pairs progress result) (omega arith)
          (perform-Climbs repo 0 (update finding_intra_pairs 0 total) (omega arith))
          (λ _. report-Climbs repo finding_intra_pairs progress result))
        (λ intra.
          bind-Climbs 1 2 4 (find_cross repo services total existing)
            (λ cross. finish repo services (intra ++ cross)) (omega arith)
            (find_cross-Climbs total existing) (λ cross. finish-Climbs (intra ++ cross)))

  try_task-Climbs : (files : List FileInfo) → Climbs 0 4 (try_task repo services files).0
  unfolding try_task
  try_task-Climbs files =
      let total = length files in
      bind-Climbs 0 0 4
        (perform repo (update indexing 0 total) >>= (λ _. lift services.existing_files))
        (λ existing.
          service repo indexing (services.ensure_files_indexed existing)
          >>= (λ _. find_and_finish repo services total existing))
        (omega arith)
        (bind-Climbs 0 0 0 (perform repo (update indexing 0 total))
          (λ _. lift services.existing_files) (omega arith)
          (perform-Climbs repo 0 (update indexing 0 total) (omega arith)) (λ _. omega arith))
        (λ existing.
          let (progress, result) = services.ensure_files_indexed existing in
          bind-Climbs 0 0 4 (report repo indexing progress result)
            (λ _. find_and_finish repo services total existing) (omega arith)
            (report-Climbs repo indexing progress result)
            (λ _. find_and_finish-Climbs total existing))

  caught-Climbs : (m : Act Unit) → Climbs 0 4 m.0 → Climbs 0 5 (caught repo services m).0
  caught-Climbs (calls, done u) p = Climbs-wider 0 4 5 calls p (omega arith)
  caught-Climbs (calls, raised e) p = Climbs-append 0 4 5 calls _ p (
      bind-Climbs 4 5 5 (mark_failed repo e) (λ _. lift (raised e)) (omega arith)
        (perform-Climbs repo 4 _ (omega arith)) (λ _. omega arith))

  -- Whatever the repository refuses and the services raise, the statuses of a task never go back: indexing,
  -- intra pairs, cross pairs, storing with the inserts, completed, and failed behind any of these.
  pub process_task-Climbs :
      (files : List FileInfo) → Climbs 0 5 (process_task repo services files).0
  unfolding process_task
  process_task-Climbs files = caught-Climbs (try_task repo services files) (try_task-Climbs files)
