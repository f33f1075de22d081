-- ===== src/Worker/Results.antt =====
-- worker/services/result_service.py: `ResultService`.
pub mod Stored
use Prim.Native.String.{[] as empty, ◌∷◌ as char_cons}
use rest_api_plagiarism.Prelude.{
  ℕ, zero, suc, ◌+◌, ◌-◌, ◌/◌, max, min, String, str_eq, Bool, true, false, List, [], ◌∷◌, take,
  drop, length, leb, ◌==◌, if◌then◌else◌,
}
use rest_api_plagiarism.Worker.Calls.{
  Pair, Row, Status, storing_results, Call, update, completed, failed, insert, Act, Repository,
  ◌>>=◌, lift, skip, perform,
}

-- The rows of the pairs whose files have both ids.
unfoldable pub rows : List Pair → List Row
rows [] = []
rows ((a, (b, similarity)) ∷ pairs) =
    let rest = rows pairs in
    let row : Row = record { file_a_id = a.id; file_b_id = b.id; ast_similarity = similarity } in
    if str_eq a.id "" then rest else if str_eq b.id "" then rest else row ∷ rest

-- `processed == total or processed - last_progress_sent >= progress_update_interval`
abbrev pub is_due : ℕ → ℕ → ℕ → ℕ → Bool
is_due interval total last processed =
    if processed == total then true else leb interval (processed - last)

-- The loop over the batches, on the rows that are left; `fuel` is no less than their number, and each
-- batch takes one at least.
unfoldable pub store_batches : Repository → ℕ → ℕ → ℕ → ℕ → ℕ → ℕ → List Row → Act Unit
store_batches repo batch_size interval total zero start last left = skip
store_batches repo batch_size interval total (suc fuel) start last [] = skip
store_batches repo batch_size interval total (suc fuel) start last (r ∷ left) =
    let processed = min (start + batch_size) total in
    let due = is_due interval total last processed in
    perform repo (insert (take batch_size (r ∷ left)))
    >>= (λ _. if due then perform repo (update storing_results processed total) else skip)
    >>= (λ _.
        store_batches repo batch_size interval total fuel (start + batch_size)
          (if due then processed else last) (drop batch_size (r ∷ left)))

-- `store_similarity_scores`; without rows the loop has nothing to do.
unfoldable pub store_similarity_scores : Repository → ℕ → List Pair → Act Unit
unfolding rows
store_similarity_scores repo batch_size pairs =
    let results = rows pairs in
    let total = length results in
    store_batches repo batch_size (max 1 (total / 50)) total total 0 0 results

-- `finalize_task`
abbrev pub finalize_task : Repository → ℕ → ℕ → Act Unit
finalize_task repo total_pairs processed_count =
    lift repo.max_similarity >>= (λ sim. perform repo (completed sim total_pairs processed_count))

-- `error[:n]`
unfoldable pub take_chars : ℕ → String → String
take_chars zero s = ""
take_chars (suc n) empty = ""
take_chars (suc n) (char_cons c s) = char_cons c (take_chars n s)

-- `mark_failed`
abbrev pub mark_failed : Repository → String → Act Unit
mark_failed repo error = perform repo (failed (take_chars 1000 error))
