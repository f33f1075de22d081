-- ===== src/Worker/Results/Stored.antt =====
-- What `store_similarity_scores` of worker/services/result_service.py has stored when it returns.
use rest_api_plagiarism.Prelude.{
  ℕ, zero, suc, ◌+◌, ◌/◌, ◌≤◌, max, min, Bool, true, false, ◌≡◌, refl, List, [], ◌∷◌, arith, take,
  drop, take-append-drop, length, length-drop, append-nil, if◌then◌else◌,
}
use rest_api_plagiarism.Worker.Calls.{
  Pair, Row, update, insert, storing_results, done, Act, Repository, perform, skip, ◌>>=◌, inserted,
  inserted-append, bind-done, perform-done,
}
use rest_api_plagiarism.Worker.Results.{rows, is_due, store_batches, store_similarity_scores}

report-done :
    (repo : Repository) (due : Bool) (processed total : ℕ)
    → (if due then perform repo (update storing_results processed total) else skip).1 ≡ done tt
    → inserted (if due then perform repo (update storing_results processed total) else skip).0 ≡ []
report-done repo true processed total h =
    rw (perform-done repo (update storing_results processed total) h)
report-done repo false processed total h = refl

store_batches-inserted :
    (repo : Repository) (batch_size interval total fuel start last : ℕ) (left : List Row)
    → 1 ≤ batch_size
    → length left ≤ fuel
    → (store_batches repo batch_size interval total fuel start last left).1 ≡ done tt
    → inserted (store_batches repo batch_size interval total fuel start last left).0 ≡ left
unfolding store_batches
store_batches-inserted repo bs interval total zero start last [] b f h = refl
store_batches-inserted repo bs interval total zero start last (r ∷ left) b f h =
    absurd (omega arith)
store_batches-inserted repo bs interval total (suc fuel) start last [] b f h = refl
store_batches-inserted repo bs interval total (suc fuel) start last (r ∷ left) b f h =
    let all = r ∷ left in
    let processed = min (start + bs) total in
    let due = is_due interval total last processed in
    let first = perform repo (insert (take bs all)) in
    let report : Act Unit =
      if due then perform repo (update storing_results processed total) else skip in
    let next =
      store_batches repo bs interval total fuel (start + bs) (if due then processed else last)
        (drop bs all) in
    let (u, (e, (n, calls))) = bind-done (first >>= (λ _. report)) (λ _. next) tt h in
    let (v, (e', (r_done, calls'))) = bind-done first (λ _. report) u e in
    let shorter : length (drop bs all) ≤ fuel = let d = length-drop bs all in omega (arith, d) in
    let ih =
      store_batches-inserted repo bs interval total fuel (start + bs)
        (if due then processed else last) (drop bs all) b shorter n in
    let stored = perform-done repo (insert (take bs all)) e' in
    let reported = report-done repo due processed total r_done in
    rw
      (
        calls,
        inserted-append (first >>= (λ _. report)).0 next.0,
        calls',
        inserted-append first.0 report.0,
        stored,
        reported,
        ih,
      )
      (rw (append-nil (take bs all)) (rw (append-nil (take bs all)) (take-append-drop bs all)))

-- Where `store_similarity_scores` returns without an exception, the batches that it inserted are together
-- the rows of the pairs, in their order, each once; the batch size is at least 1.
pub store_similarity_scores-inserted :
    (repo : Repository) (batch_size : ℕ) (pairs : List Pair)
    → 1 ≤ batch_size
    → (store_similarity_scores repo batch_size pairs).1 ≡ done tt
    → inserted (store_similarity_scores repo batch_size pairs).0 ≡ rows pairs
unfolding store_similarity_scores
store_similarity_scores-inserted repo batch_size pairs b h =
    let total = length (rows pairs) in
    store_batches-inserted repo batch_size (max 1 (total / 50)) total total 0 0 (rows pairs) b
      (omega arith) h
