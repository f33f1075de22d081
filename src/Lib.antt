-- ===== src/Lib.antt =====
-- RestAPI-plagiarism finds copied code: the API takes files, a worker fingerprints them, finds candidate
-- pairs in an inverted index, scores them by their syntax trees and stores the scores, and the core
-- library compares the two files of a pair line by line and function by function.
--
-- The parts and their files (paths from the repository's root):
-- - Prelude: Boolean tests, lists by native numbers, Python's stable sort (`sort_by`), dicts of lists
--   (`Grouped`), decimal texts. It models the language, no file of the repository.
-- - Fingerprint: plagiarism_core/fingerprinting/core.py and hashing.py. Core has compute_fingerprints,
--   winnow_fingerprints, compute_and_winnow with its deque, and index_fingerprints; Rolling and Kgrams the
--   rolling hash, Minima, Feed, Winnow and Shared the winnowing, Positions the index.
-- - Ast: plagiarism_core/ast_hash.py, the tree walks of fingerprinting/core.py and of minhash.py.
-- - Detection.Match: plagiarism_core/models.py. Detection.Lines: detection/line_matcher.py,
--   _line_level_matches loop by loop; its children Chosen and Trim are about the trims of one entry, Sound
--   about the regions, Disjoint about file A, and Blocks, Growth and Second about file B.
--   Detection.Merge: detection/merge_helpers.py and
--   merge_adjacent_matches of plagiarism_core/matcher.py. Detection.Functions: detection/function_matcher.py,
--   semantic_function_matcher.py and the steps of run_phase1 that call them. Detection.Pipeline:
--   _run_phase3 and _filter_contained_matches of detection/pipeline/api.py, and _find_prefix_suffix and
--   _count_differing_lines of detection/pipeline/phase1.py.
--   Detection.Phase1: _match_by_name and _match_by_body_signature of that file. Detection.Phase2:
--   detection/pipeline/phase2.py. Detection.Detect: detect_plagiarism of detection/pipeline/api.py, the
--   phases one after the other.
-- - Detection.Occurrences: PairedOccurrence and find_paired_occurrences of plagiarism_core/matcher.py;
--   Closest is about its inner loop, Greedy and Count about the pairs.
-- - Similarity: ast_similarity of plagiarism_core/ast_hash.py, with Python's Counter written out.
-- - Canonical: plagiarism_core/canonicalizer/identifier_norm.py, the placeholders and the replacement of
--   identifiers.
-- - Worker.Cache: worker/infrastructure/redis_cache.py, with the times to live of its entries, and
--   worker/services/fingerprint_service.py. A JSON text is the list of dicts that the json module reads.
-- - Worker.Index: worker/infrastructure/inverted_index.py with its Lua script; the state is the sets of
--   Redis and the cache of counts. Worker.Candidates: worker/services/candidate_service.py over the
--   interface CandidateIndex. Worker.Calls: the repository as a trace of calls that ends with a value or
--   an exception. Worker.Results: worker/services/result_service.py. Worker.Tasks:
--   worker/services/task_service.py and worker/message_handler.py.
-- - Worker.Indexing: worker/services/indexing_service.py, ensure_files_indexed with its pipeline; its child
--   Pipelined has the specification, one file after the other.
-- - Auth: src/auth. Users and Login are about models.py and service.py, Passwords about
--   password_validation.py, Tokens about blacklist_service.py and the tokens, ApiKeys about the API keys,
--   Sessions about dependencies.py and whatever ends a session, RateLimit about rate_limit.py. A table is
--   the list of its rows, and each request runs whole, from its SELECT to its commit.
-- - Api.Websockets: src/websocket_manager.py as a relation between the states of ConnectionManager, since
--   its coroutines interleave. Api.Reviews and Api.ReviewQueue: src/results/service.py.
--   Api.SlidingWindow: src/middleware/rate_limit.py with its Lua script. Api.Access:
--   src/assignments/subject_access.py and dependencies.py; its child Rights has the specification, a set of
--   pairs of a user and a subject, and Overlap is about grants that overlap under the unique constraint of
--   database/migration/versions/update_auth_simple_subject_access.py.
--
-- How they interact: a message starts process_task, which has the files indexed (their tokens and subtree
-- hashes come from Ast, their fingerprints from Fingerprint), asks the candidate service for pairs, and
-- hands the scored pairs to the result service; each step writes the task's status. A pair that is looked
-- at in detail goes through the function matchers, the line matcher, the merge and the filter of
-- Detection. On the side of the API a request passes the sliding window, get_current_user finds whom it
-- speaks for, and the routes of assignments look up the access to the subject; the reviews of pairs ask
-- for no access.
--
-- Bounds and fuel: numbers are the natural numbers of the source's unbounded integers; a hash modulo
-- `mod` keeps the modulus written out, and a difference that may be negative is moved to the other side
-- of its comparison. Recursion is on the data, on the number of rounds that a `range` has, or, for the
-- batches of the result service, on the number of rows, since each batch takes at least one.
--
-- Parameters: the 64-bit digest of the xxhash package, whether the task repository refuses a call, and
-- what the services of a task report and return. `extract` and `describe` stand for the rename report of
-- a region (_extract_line_renames reads identifiers by regular expressions). Syntax trees come from
-- tree-sitter; extracted functions are the dicts that detection/ast_helpers.py makes. Of
-- detect_plagiarism: the signatures of bodies, _check_body_similarity, _match_by_minhash and the
-- semantic line matcher. Of the API: bcrypt, the JWT library, SHA-256, fresh ids, the lower case of an
-- address, uuid.UUID and the clock, which gives microseconds.
--
-- Not modelled: floating-point rounding (a similarity is a quotient), logging, timing, the tree-sitter
-- parsers and the tables of languages, the rest of the canonicalizer, the semantic line matcher, MinHash
-- signatures, numpy and scipy, the connection of the worker to RabbitMQ, the routes of the
-- FastAPI application under src/ beside what their services decide, the reports, the other
-- constraints of the database, requests on one account that overlap, the command line and the frontend.
pub mod Prelude
pub mod Fingerprint
pub mod Ast
pub mod Detection
pub mod Similarity
pub mod Canonical
pub mod Worker
pub mod Auth
pub mod Api
