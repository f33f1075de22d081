-- ===== src/Worker/Tasks/Endings.antt =====
-- How `process_task` of worker/services/task_service.py ends.
use rest_api_plagiarism.Prelude.{ℕ, ◌≡◌, some, List, [], ◌∷◌, ◌++◌, length, get_last?}
use rest_api_plagiarism.Detection.Match.{Ratio}
use rest_api_plagiarism.Worker.Calls.{
  FileInfo, Pair, indexing, finding_intra_pairs, storing_results, Call, update, completed, done,
  raised, Act, Repository, ◌>>=◌, lift, perform, bind-done, perform-done, raised≢done,
}
use rest_api_plagiarism.Worker.Results.{store_similarity_scores, finalize_task, mark_failed}
use rest_api_plagiarism.Worker.Tasks.{
  Services, service, find_cross, finish, find_and_finish, try_task, caught, process_task,
}

pub get_last-append :
    (cs ds : List Call) (c : Call) → get_last? ds ≡ some c → get_last? (cs ++ ds) ≡ some c
get_last-append [] ds c h = h
get_last-append (b ∷ []) [] c h = absurd (cc)
get_last-append (b ∷ []) (d ∷ ds) c h = h
get_last-append (b ∷ b' ∷ cs) ds c h = get_last-append (b' ∷ cs) ds c h

-- The last call marks the task as completed.
abbrev pub Completes : Act Unit → Type 0
Completes m =
    (sim : Ratio) × (total : ℕ) × (count : ℕ) × (get_last? m.0 ≡ some (completed sim total count))

bind-Completes :
    {A : Type 0} (m : Act A) (f : A → Act Unit)
    → ((a : A) → (f a).1 ≡ done tt → Completes (f a))
    → (m >>= f).1 ≡ done tt
    → Completes (m >>= f)
bind-Completes m f ends h =
    let (a, (e, (d, calls))) = bind-done m f tt h in
    let (sim, total, count, last) = ends a d in
    (sim, total, count, rw calls (get_last-append m.0 (f a).0 (completed sim total count) last))

finalize-Completes :
    (repo : Repository) (total count : ℕ)
    → (finalize_task repo total count).1 ≡ done tt
    → Completes (finalize_task repo total count)
finalize-Completes repo total count h =
    bind-Completes (lift repo.max_similarity) (λ sim. perform repo (completed sim total count))
      (λ sim d. (sim, total, count, rw (perform-done repo (completed sim total count) d))) h

module _ (repo : Repository) (services : Services) where
  finish-Completes :
      (pairs : List Pair)
      → (finish repo services pairs).1 ≡ done tt
      → Completes (finish repo services pairs)
  unfolding finish
  finish-Completes [] h = finalize-Completes repo 0 0 h
  finish-Completes (p ∷ pairs) h =
      bind-Completes (lift (services.ast_similarities (p ∷ pairs))) _
        (λ scored.
          bind-Completes
            (perform repo (update storing_results 0 (length scored))
              >>= (λ _. store_similarity_scores repo 20000 scored))
            (λ _. finalize_task repo (length scored) (length scored))
            (λ _. finalize-Completes repo (length scored) (length scored)))
        h

  find_and_finish-Completes :
      (total : ℕ) (existing : List FileInfo)
      → (find_and_finish repo services total existing).1 ≡ done tt
      → Completes (find_and_finish repo services total existing)
  unfolding find_and_finish
  find_and_finish-Completes total existing h =
      bind-Completes
        (perform repo (update finding_intra_pairs 0 total)
          >>= (λ _. service repo finding_intra_pairs services.intra_pairs))
        (λ intra.
          find_cross repo services total existing
          >>= (λ cross. finish repo services (intra ++ cross)))
        (λ intra.
          bind-Completes (find_cross repo services total existing)
            (λ cross. finish repo services (intra ++ cross))
            (λ cross. finish-Completes (intra ++ cross)))
        h

  pub try_task-Completes :
      (files : List FileInfo)
      → (try_task repo services files).1 ≡ done tt
      → Completes (try_task repo services files)
  unfolding try_task
  try_task-Completes files h =
      let total = length files in
      bind-Completes
        (perform repo (update indexing 0 total) >>= (λ _. lift services.existing_files))
        (λ existing.
          service repo indexing (services.ensure_files_indexed existing)
          >>= (λ _. find_and_finish repo services total existing))
        (λ existing.
          bind-Completes (service repo indexing (services.ensure_files_indexed existing))
            (λ _. find_and_finish repo services total existing)
            (λ _. find_and_finish-Completes total existing))
        h

  caught-Completes :
      (m : Act Unit)
      → (m.1 ≡ done tt → Completes m)
      → (caught repo services m).1 ≡ done tt
      → Completes (caught repo services m)
  caught-Completes (calls, done u) ends h = ends h
  caught-Completes (calls, raised e) ends h =
      let (u, (marked, (again, rest))) =
        bind-done (mark_failed repo e) (λ _. lift (raised e)) tt h in
      absurd (raised≢done again)

  -- A task that ends without an exception ends with the call that marks it as completed.
  pub process_task-Completes :
      (files : List FileInfo)
      → (process_task repo services files).1 ≡ done tt
      → Completes (process_task repo services files)
  unfolding process_task
  process_task-Completes files h =
      caught-Completes (try_task repo services files) (try_task-Completes files) h
