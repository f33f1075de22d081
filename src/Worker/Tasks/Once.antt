-- ===== src/Worker/Tasks/Once.antt =====
-- How often worker/services/task_service.py writes that a task has ended.
use rest_api_plagiarism.Prelude.{
  ℕ, zero, suc, ◌+◌, ◌/◌, ◌≡◌, refl, arith, max, min, String, Bool, true, false, Option, none, some,
  List, [], ◌∷◌, ◌++◌, take, drop, length, get_last?, if◌then◌else◌,
}
use rest_api_plagiarism.Worker.Calls.{
  FileInfo, Pair, Row, Status, indexing, finding_intra_pairs, finding_cross_pairs, storing_results,
  Call, update, completed, failed, insert, Outcome, done, raised, Act, Repository, after, answered,
  ◌>>=◌, lift, skip, perform,
}
use rest_api_plagiarism.Worker.Results.{
  rows, is_due, store_batches, store_similarity_scores, finalize_task, take_chars,
}
use rest_api_plagiarism.Worker.Tasks.{
  Services, report, service, find_cross, finish, find_and_finish, try_task, caught, process_task,
}
use rest_api_plagiarism.Worker.Tasks.Endings.{Completes, get_last-append, try_task-Completes}

-- 1 for a call that ends the task.
abbrev pub is_final : Call → ℕ
is_final (update status p t) = 0
is_final (completed sim t p) = 1
is_final (failed e) = 1
is_final (insert rs) = 0

pub finals : List Call → ℕ
finals [] = 0
finals (c ∷ cs) = is_final c + finals cs

finals-append : (cs ds : List Call) → finals (cs ++ ds) ≡ finals cs + finals ds
unfolding finals
finals-append [] ds = omega arith
finals-append (c ∷ cs) ds = let ih = finals-append cs ds in omega (arith, ih)

-- Code that ends no task, and code that ends it once where it returns, and not where it raises.
abbrev Quiet : {A : Type 0} → Act A → Type 0
Quiet m = finals m.0 ≡ 0

abbrev expected : Outcome Unit → ℕ
expected (done u) = 1
expected (raised e) = 0

abbrev Once : Act Unit → Type 0
Once m = finals m.0 ≡ expected m.1

bind-Quiet :
    {A B : Type 0} (m : Act A) (f : A → Act B) → Quiet m → ((a : A) → Quiet (f a)) → Quiet (m >>= f)
bind-Quiet (cs, done a) f q each =
    let both = finals-append cs (f a).0 in let r = each a in omega (arith, both, q, r)
bind-Quiet (cs, raised e) f q each = q

bind-Once :
    {A : Type 0} (m : Act A) (f : A → Act Unit) → Quiet m → ((a : A) → Once (f a)) → Once (m >>= f)
bind-Once (cs, done a) f q each =
    let both = finals-append cs (f a).0 in let r = each a in omega (arith, both, q, r)
bind-Once (cs, raised e) f q each = q

perform-Quiet : (repo : Repository) (c : Call) → is_final c ≡ 0 → Quiet (perform repo c)
unfolding finals
perform-Quiet repo c z = go (repo.refuse c)
  where
    go : (o : Option String) → Quiet (answered c o)
    go none = omega (arith, z)
    go (some e) = refl

lift-Quiet : {A : Type 0} (o : Outcome A) → Quiet (lift o)
unfolding finals
lift-Quiet o = refl

report-Quiet :
    {A : Type 0} (repo : Repository) (status : Status) (progress : List (ℕ × ℕ))
    (result : Outcome A)
    → Quiet (report repo status progress result)
unfolding report
report-Quiet repo status [] result = lift-Quiet result
report-Quiet repo status ((p, t) ∷ progress) result =
    bind-Quiet (perform repo (update status p t)) (λ _. report repo status progress result)
      (perform-Quiet repo (update status p t) refl) (λ _. report-Quiet repo status progress result)

if_due-Quiet :
    (repo : Repository) (due : Bool) (processed total : ℕ)
    → Quiet (if due then perform repo (update storing_results processed total) else skip)
if_due-Quiet repo true processed total =
    perform-Quiet repo (update storing_results processed total) refl
if_due-Quiet repo false processed total = lift-Quiet (done tt)

store_batches-Quiet :
    (repo : Repository) (bs interval total fuel start last : ℕ) (left : List Row)
    → Quiet (store_batches repo bs interval total fuel start last left)
unfolding store_batches
store_batches-Quiet repo bs interval total zero start last left = lift-Quiet (done tt)
store_batches-Quiet repo bs interval total (suc fuel) start last [] = lift-Quiet (done tt)
store_batches-Quiet repo bs interval total (suc fuel) start last (r ∷ left) =
    let processed = min (start + bs) total in
    let due = is_due interval total last processed in
    let first = perform repo (insert (take bs (r ∷ left))) in
    let update_due : Act Unit =
      if due then perform repo (update storing_results processed total) else skip in
    bind-Quiet (first >>= (λ _. update_due))
      (λ _.
        store_batches repo bs interval total fuel (start + bs) (if due then processed else last)
          (drop bs (r ∷ left)))
      (bind-Quiet first (λ _. update_due) (perform-Quiet repo (insert (take bs (r ∷ left))) refl)
        (λ _. if_due-Quiet repo due processed total))
      (λ _.
        store_batches-Quiet repo bs interval total fuel (start + bs)
          (if due then processed else last) (drop bs (r ∷ left)))

store-Quiet :
    (repo : Repository) (bs : ℕ) (pairs : List Pair) → Quiet (store_similarity_scores repo bs pairs)
unfolding store_similarity_scores
store-Quiet repo bs pairs =
    let total = length (rows pairs) in
    store_batches-Quiet repo bs (max 1 (total / 50)) total total 0 0 (rows pairs)

finalize-Once : (repo : Repository) (total count : ℕ) → Once (finalize_task repo total count)
unfolding finals
finalize-Once repo total count =
    bind-Once (lift repo.max_similarity) (λ sim. perform repo (completed sim total count))
      (lift-Quiet repo.max_similarity)
      (λ sim. go (completed sim total count) (repo.refuse (completed sim total count)) refl)
  where
    go : (c : Call) (o : Option String) → is_final c ≡ 1 → Once (answered c o)
    go c none one = omega (arith, one)
    go c (some e) one = refl

-- The calls of a run: one of them ends the task, it is the last, and tells how the run ended.
abbrev pub EndsOnce : Act Unit → Type 0
EndsOnce (calls, done u) = (finals calls ≡ 1) × Completes (calls, done u)
EndsOnce (calls, raised e) =
    (finals calls ≡ 1) × (get_last? calls ≡ some (failed (take_chars 1000 e)))

module _ (repo : Repository) (services : Services) where
  find_cross-Quiet :
      (total : ℕ) (existing : List FileInfo) → Quiet (find_cross repo services total existing)
  unfolding find_cross
  find_cross-Quiet total [] = lift-Quiet {A = List Pair} (done [])
  find_cross-Quiet total (f ∷ existing) =
      let (progress, result) = services.cross_pairs (f ∷ existing) in
      bind-Quiet (perform repo (update finding_cross_pairs 0 total))
        (λ _. report repo finding_cross_pairs progress result)
        (perform-Quiet repo (update finding_cross_pairs 0 total) refl)
        (λ _. report-Quiet repo finding_cross_pairs progress result)

  finish-Once : (pairs : List Pair) → Once (finish repo services pairs)
  unfolding finish
  finish-Once [] = finalize-Once repo 0 0
  finish-Once (p ∷ pairs) =
      bind-Once (lift (services.ast_similarities (p ∷ pairs))) _
        (lift-Quiet (services.ast_similarities (p ∷ pairs)))
        (λ scored.
          bind-Once
            (perform repo (update storing_results 0 (length scored))
              >>= (λ _. store_similarity_scores repo 20000 scored))
            (λ _. finalize_task repo (length scored) (length scored))
            (bind-Quiet (perform repo (update storing_results 0 (length scored)))
              (λ _. store_similarity_scores repo 20000 scored)
              (perform-Quiet repo (update storing_results 0 (length scored)) refl)
              (λ _. store-Quiet repo 20000 scored))
            (λ _. finalize-Once repo (length scored) (length scored)))

  find_and_finish-Once :
      (total : ℕ) (existing : List FileInfo) → Once (find_and_finish repo services total existing)
  unfolding find_and_finish
  find_and_finish-Once total existing =
      let (progress, result) = services.intra_pairs in
      bind-Once
        (perform repo (update finding_intra_pairs 0 total)
          >>= (λ _. service repo finding_intra_pairs services.intra_pairs))
        (λ intra.
          find_cross repo services total existing
          >>= (λ cross. finish repo services (intra ++ cross)))
        (bind-Quiet (perform repo (update finding_intra_pairs 0 total))
          (λ _. report repo finding_intra_pairs progress result)
          (perform-Quiet repo (update finding_intra_pairs 0 total) refl)
          (λ _. report-Quiet repo finding_intra_pairs progress result))
        (λ intra.
          bind-Once (find_cross repo services total existing)
            (λ cross. finish repo services (intra ++ cross)) (find_cross-Quiet total existing)
            (λ cross. finish-Once (intra ++ cross)))

  try_task-Once : (files : List FileInfo) → Once (try_task repo services files)
  unfolding try_task
  try_task-Once files =
      let total = length files in
      bind-Once (perform repo (update indexing 0 total) >>= (λ _. lift services.existing_files))
        (λ existing.
          service repo indexing (services.ensure_files_indexed existing)
          >>= (λ _. find_and_finish repo services total existing))
        (bind-Quiet (perform repo (update indexing 0 total)) (λ _. lift services.existing_files)
          (perform-Quiet repo (update indexing 0 total) refl)
          (λ _. lift-Quiet services.existing_files))
        (λ existing.
          let (progress, result) = services.ensure_files_indexed existing in
          bind-Once (report repo indexing progress result)
            (λ _. find_and_finish repo services total existing)
            (report-Quiet repo indexing progress result) (λ _. find_and_finish-Once total existing))

  marked-Once :
      (calls : List Call) (e : String) (o : Option String)
      → o ≡ none
      → finals calls ≡ 0
      → EndsOnce (after calls (answered (failed (take_chars 1000 e)) o >>= (λ _. lift (raised e))))
  unfolding finals
  marked-Once calls e (some x) accepts z = absurd (cc)
  marked-Once calls e none accepts z =
      let both = finals-append calls (failed (take_chars 1000 e) ∷ []) in
      (
        omega (arith, both, z),
        get_last-append calls (failed (take_chars 1000 e) ∷ []) (failed (take_chars 1000 e)) refl,
      )

  caught-EndsOnce :
      (m : Act Unit)
      → ((text : String) → repo.refuse (failed text) ≡ none)
      → Once m
      → (m.1 ≡ done tt → Completes m)
      → EndsOnce (caught repo services m)
  caught-EndsOnce (calls, done u) accepts one ends = (one, ends refl)
  caught-EndsOnce (calls, raised e) accepts none_yet ends =
      marked-Once calls e (repo.refuse (failed (take_chars 1000 e))) (accepts (take_chars 1000 e))
        none_yet

  -- Whatever the services report and return, and whatever the repository refuses but the update to "failed": among the
  -- calls of a task there is exactly one that ends it, and it is the last. It is the update to "completed" where
  -- `process_task` returns, and the update to "failed", with the first 1000 characters of the exception, where
  -- it raises. So no task is left open, none is marked as failed behind its completion, and none is completed twice.
  pub process_task-EndsOnce :
      (files : List FileInfo)
      → ((text : String) → repo.refuse (failed text) ≡ none)
      → EndsOnce (process_task repo services files)
  unfolding process_task
  process_task-EndsOnce files accepts =
      caught-EndsOnce (try_task repo services files) accepts (try_task-Once files)
        (try_task-Completes repo services files)
