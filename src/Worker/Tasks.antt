-- ===== src/Worker/Tasks.antt =====
-- worker/services/task_service.py: `process_task`, and worker/message_handler.py: `on_message`.
-- What the indexing and the candidate service do is an argument: the progress that they report, which becomes
-- updates of the task, and their result.
pub mod Statuses
pub mod Endings
pub mod Once
use rest_api_plagiarism.Prelude.{
  ℕ, zero, suc, ◌<◌, String, str_eq, Option, none, some, List, [], ◌∷◌, ◌++◌, length, if◌then◌else◌,
}
use rest_api_plagiarism.Worker.Calls.{
  FileInfo, Pair, Status, indexing, finding_intra_pairs, finding_cross_pairs, storing_results, Call,
  update, Outcome, done, raised, Act, Repository, after, ◌>>=◌, lift, skip, perform,
}
use rest_api_plagiarism.Worker.Results.{store_similarity_scores, finalize_task, mark_failed}

-- What a service reports by `on_progress`, as processed and total, and how it ends.
abbrev pub Run : Type 0 → Type 0
Run A = List (ℕ × ℕ) × Outcome A

-- The answers of the services to the calls of one task.
pub record Services : Type 0 where
  pub existing_files : Outcome (List FileInfo)
  pub ensure_files_indexed : List FileInfo → Run Unit
  pub intra_pairs : Run (List Pair)
  pub cross_pairs : List FileInfo → Run (List Pair)
  pub ast_similarities : List Pair → Outcome (List Pair)

-- The updates that the progress callback makes; an exception of one ends the service.
unfoldable pub report : {A : Type 0} → Repository → Status → List (ℕ × ℕ) → Outcome A → Act A
report repo status [] result = lift result
report repo status ((processed, total) ∷ progress) result =
    perform repo (update status processed total) >>= (λ _. report repo status progress result)

abbrev pub service : {A : Type 0} → Repository → Status → Run A → Act A
service repo status (progress, result) = report repo status progress result

module _ (repo : Repository) (services : Services) where
  -- Phase 2b, which is skipped without existing files.
  unfoldable pub find_cross : ℕ → List FileInfo → Act (List Pair)
  unfolding report
  find_cross total_files [] = lift (done [])
  find_cross total_files (f ∷ existing) =
      perform repo (update finding_cross_pairs 0 total_files)
      >>= (λ _. service repo finding_cross_pairs (services.cross_pairs (f ∷ existing)))

  -- Phases 2.5 to 4.
  unfoldable pub finish : List Pair → Act Unit
  unfolding store_similarity_scores
  finish [] = finalize_task repo 0 0
  finish (p ∷ pairs) = lift (services.ast_similarities (p ∷ pairs)) >>= (λ scored.
      perform repo (update storing_results 0 (length scored))
      >>= (λ _. store_similarity_scores repo 20000 scored)
      >>= (λ _. finalize_task repo (length scored) (length scored)))

  -- The body of the `try` block, on the existing files and from phase 2a on.
  unfoldable pub find_and_finish : ℕ → List FileInfo → Act Unit
  unfolding find_cross finish report
  find_and_finish total_files existing =
      perform repo (update finding_intra_pairs 0 total_files)
      >>= (λ _. service repo finding_intra_pairs services.intra_pairs)
      >>= (λ intra. find_cross total_files existing >>= (λ cross. finish (intra ++ cross)))

  -- The body of the `try` block.
  unfoldable pub try_task : List FileInfo → Act Unit
  unfolding find_and_finish report
  try_task files =
      let total_files = length files in
      perform repo (update indexing 0 total_files)
      >>= (λ _. lift services.existing_files)
      >>= (λ existing.
          service repo indexing (services.ensure_files_indexed existing)
          >>= (λ _. find_and_finish total_files existing))

  -- The `except` clause: the task is marked as failed and the exception raised again.
  abbrev pub caught : Act Unit → Act Unit
  caught (calls, done u) = (calls, done u)
  caught (calls, raised e) = after calls (mark_failed repo e >>= (λ _. lift (raised e)))

  unfoldable pub process_task : List FileInfo → Act Unit
  unfolding try_task
  process_task files = caught (try_task files)

-- A message whose body parsed: None where a key is missing; the language defaults to "python".
pub record Message : Type 0 where
  pub task_id : Option String
  pub files : Option (List FileInfo)

-- `on_message` from the parsed message on, with the services that the task of the message has.
unfoldable on_message : Repository → (String → Services) → Message → Act Unit
unfolding process_task
on_message repo services message = start message.task_id message.files
  where
    with_id : String → Option (List FileInfo) → Act Unit
    with_id task_id (some (f ∷ files)) = process_task repo (services task_id) (f ∷ files)
    with_id task_id other = lift (raised "Need at least 1 file")

    start : Option String → Option (List FileInfo) → Act Unit
    start none files = lift (raised "Missing task_id in message")
    start (some task_id) files =
        let started = with_id task_id files in
        if str_eq task_id "" then lift (raised "Missing task_id in message") else started
