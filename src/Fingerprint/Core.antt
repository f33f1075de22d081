-- ===== src/Fingerprint/Core.antt =====
-- plagiarism_core/fingerprinting/core.py and hashing.py: k-gram fingerprints, winnowing by a scan of
-- each window and by a monotonic queue, and the index of positions. `xxh64` is the digest of the
-- xxhash package, on the text that the source encodes.
use rest_api_plagiarism.Prelude.{
  Grouped, add_to, ℕ, zero, suc, ◌+◌, ◌-◌, ◌%◌, ◌^◌, String, Bool, true, not, Option, none, some,
  List, [], ◌∷◌, ◌++◌, map, ltb, leb, ◌==◌, if◌then◌else◌, length, get_or, take, drop, get_last?,
}
use rest_api_plagiarism.Fingerprint.Rolling.{seed_hash, roll}

-- A tree-sitter position: row and column.
abbrev pub Point : Type 0
Point = ℕ × ℕ

-- The triple (node.type, start_point, end_point).
pub record Token : Type 0 where
  pub kind : String
  pub start : Point
  pub end : Point

-- The fingerprint dict with keys "hash", "start", "end" and "kgram_idx".
pub record Fp : Type 0 where
  pub hash : ℕ
  pub start : Point
  pub end : Point
  pub kgram_idx : ℕ

-- Stands for `tokens[i]` out of range, which the loops below never read.
abbrev pub no_token : Token
no_token = record { kind = ""; start = (0, 0); end = (0, 0) }

abbrev pub token_at : List Token → ℕ → Token
token_at tokens i = get_or tokens i no_token

module _ (xxh64 : String → ℕ) where
  -- The cache in front of it does not change its value.
  abbrev pub stable_hash : String → ℕ
  stable_hash s = xxh64 s

  abbrev pub kind_hash : Token → ℕ
  kind_hash t = stable_hash t.kind

  -- The rounds of `for i in range(k, len(tokens))` from `i` on.
  unfoldable pub roll_fingerprints : List Token → ℕ → ℕ → ℕ → ℕ → ℕ → ℕ → ℕ → List Fp
  roll_fingerprints tokens k base m power zero i h = []
  roll_fingerprints tokens k base m power (suc rounds) i h =
      let h' =
        roll base m power h (kind_hash (token_at tokens (i - k))) (kind_hash (token_at tokens i)) in
      record {
        hash = h';
        start = (token_at tokens (i - k + 1)).start;
        end = (token_at tokens i).end;
        kgram_idx = i - k + 1;
      }
      ∷ roll_fingerprints tokens k base m power rounds (i + 1) h'

  -- `for i in range(k): h = (h * base + ...) % mod`, from h = 0
  abbrev pub first_hash : List Token → ℕ → ℕ → ℕ → ℕ
  first_hash tokens k base m = seed_hash base m 0 (take k (map kind_hash tokens))

  unfoldable pub compute_fingerprints : List Token → ℕ → ℕ → ℕ → List Fp
  unfolding roll_fingerprints
  compute_fingerprints tokens k base m =
      if ltb (length tokens) k
      then []
      else let h = first_hash tokens k base m in
        record {
          hash = h;
          start = (token_at tokens 0).start;
          end = (token_at tokens (k - 1)).end;
          kgram_idx = 0;
        }
        ∷ roll_fingerprints tokens k base m (base ^ (k - 1) % m) (length tokens - k) k h

-- `min(window, key=lambda x: x["hash"])`: the first of the least; `best` is the least so far.
unfoldable pub least_from : Fp → List Fp → Fp
least_from best [] = best
least_from best (x ∷ xs) = least_from (if ltb x.hash best.hash then x else best) xs

-- `min` raises ValueError on an empty window.
unfoldable pub least : List Fp → Option Fp
unfolding least_from
least [] = none
least (x ∷ xs) = some (least_from x xs)

-- `not winnowed or fp["hash"] != winnowed[-1]["hash"]`
abbrev pub is_new : List Fp → ℕ → Bool
is_new winnowed h = elim (get_last? winnowed) [ none ↦ true | some l ↦ not (h == l.hash) ]

unfoldable pub push_new : List Fp → Fp → List Fp
push_new winnowed fp = if is_new winnowed fp.hash then winnowed ++ fp ∷ [] else winnowed

-- The rounds of `for i in range(len(fingerprints) - window_size + 1)` from `i` on.
unfoldable pub winnow_windows : List Fp → ℕ → ℕ → ℕ → List Fp → Option (List Fp)
winnow_windows fps w zero i winnowed = some winnowed
winnow_windows fps w (suc rounds) i winnowed = elim (least (take w (drop i fps))) [
  | none ↦ none
  | some fp ↦ winnow_windows fps w rounds (i + 1) (push_new winnowed fp)
]

-- `none` is the ValueError of an empty window.
unfoldable pub winnow_fingerprints : List Fp → ℕ → Option (List Fp)
unfolding winnow_windows
winnow_fingerprints fps w = winnow_windows fps w (length fps + 1 - w) 0 []

-- `while dq and dq[0][1] <= kgram_idx - window_size: dq.popleft()`, the difference moved over since
-- it may be negative
unfoldable pub pop_left : ℕ → ℕ → List Fp → List Fp
pop_left idx w [] = []
pop_left idx w (x ∷ dq) =
    let rest = pop_left idx w dq in if leb (x.kgram_idx + w) idx then rest else x ∷ dq

-- `while dq and dq[-1][0] >= kg_hash: dq.pop()`
unfoldable pub pop_right : ℕ → List Fp → List Fp
pop_right h [] = []
pop_right h (x ∷ dq) = elim (pop_right h dq) [
  | [] ↦ if leb h x.hash then [] else x ∷ []
  | y ∷ rest ↦ x ∷ y ∷ rest
]

-- The local state of `compute_and_winnow`: the deque, front first, and the output.
pub record Winnowing : Type 0 where
  pub dq : List Fp
  pub winnowed : List Fp

-- The queue's entry is (hash, index, start, end), which is what `Fp` holds.
abbrev pub emit_front : List Fp → List Fp → List Fp
emit_front [] winnowed = winnowed
emit_front (front ∷ _) winnowed = push_new winnowed front

-- `_process_kgram`
unfoldable pub process_kgram : List Token → ℕ → ℕ → ℕ → ℕ → Winnowing → Winnowing
unfolding pop_left pop_right push_new
process_kgram tokens k w kg_hash idx s =
    let entry : Fp = record {
      hash = kg_hash;
      start = (token_at tokens idx).start;
      end = (token_at tokens (idx + k - 1)).end;
      kgram_idx = idx;
    } in
    let dq = pop_right kg_hash (pop_left idx w s.dq) ++ entry ∷ [] in
    record { dq = dq; winnowed = if leb w (idx + 1) then emit_front dq s.winnowed else s.winnowed }

-- The rounds of `for i in range(k, n)` from `i` on; the token hashes are computed up front.
unfoldable pub roll_and_winnow :
    List Token → List ℕ → ℕ → ℕ → ℕ → ℕ → ℕ → ℕ → ℕ → ℕ → Winnowing → Winnowing
roll_and_winnow tokens hs k base m power w zero i h s = s
roll_and_winnow tokens hs k base m power w (suc rounds) i h s =
    let h' = roll base m power h (get_or hs (i - k) 0) (get_or hs i 0) in
    roll_and_winnow tokens hs k base m power w rounds (i + 1) h'
      (process_kgram tokens k w h' (i - k + 1) s)

module _ (xxh64 : String → ℕ) where
  unfoldable pub compute_and_winnow : List Token → ℕ → ℕ → ℕ → ℕ → List Fp
  unfolding roll_and_winnow
  compute_and_winnow tokens k base m w =
      if ltb (length tokens) k
      then []
      else let hs = map (kind_hash xxh64) tokens in
        let h = seed_hash base m 0 (take k hs) in
        (roll_and_winnow tokens hs k base m (base ^ (k - 1) % m) w (length tokens - k) k h
          (process_kgram tokens k w h 0 (record { dq = []; winnowed = [] }))).winnowed

-- The defaultdict: hash -> the fingerprints with that hash.
abbrev pub Index : Type 0
Index = Grouped Fp

unfoldable pub index_from : Index → List Fp → Index
index_from index [] = index
index_from index (fp ∷ fps) = index_from (add_to fp.hash fp index) fps

unfoldable pub index_fingerprints : List Fp → Index
unfolding index_from add_to
index_fingerprints fps = index_from [] fps
