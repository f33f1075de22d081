-- ===== src/Ast/Tree.antt =====
-- The walks over a tree-sitter tree: `tokenize_with_tree_sitter` and `tokenize_and_hash_ast` of
-- fingerprinting/core.py, `hash_ast_subtrees` and `hash_ast_subtrees_with_positions` of ast_hash.py,
-- `extract_node_types` and `extract_kgrams` of fingerprinting/minhash.py. A tree is data, since the
-- walks read nothing of a node but its type, its two points and its children. A list that a walk
-- appends to is what the walk returns.
use text.Mathlib.Text.{◌==◌ as str_eq}
use rest_api_plagiarism.Prelude.{
  ℕ, zero, suc, ◌+◌, ◌-◌, max, String, Bool, Option, none, some, List, [], ◌∷◌, ◌++◌, leb, ltb,
  if◌then◌else◌, length, take, drop, str_append, str, join,
}
use rest_api_plagiarism.Fingerprint.Core.{Point, Token}

mutual
  pub data Node : Type 0 where
    node : String → Point → Point → Nodes → Node

  pub data Nodes : Type 0 where
    nil : Nodes
    cons : Node → Nodes → Nodes

abbrev pub is_comment : String → Bool
is_comment kind = str_eq kind "comment"

-- `visit` of `tokenize_with_tree_sitter`: the leaves that are no comments, in order.
unfoldable mutual
  pub leaf_tokens : Node → List Token
  leaf_tokens (node kind s e nil) =
      if is_comment kind then [] else record { kind = kind; start = s; end = e } ∷ []
  leaf_tokens (node kind s e (cons c cs)) = leaf_tokens c ++ leaf_tokens_all cs

  pub leaf_tokens_all : Nodes → List Token
  leaf_tokens_all nil = []
  leaf_tokens_all (cons c cs) = leaf_tokens c ++ leaf_tokens_all cs

unfoldable pub tokenize_with_tree_sitter : Node → List Token
unfolding leaf_tokens
tokenize_with_tree_sitter root = leaf_tokens root

-- What `visit` returns, the depth and the text of the hash: "" is `none`, `str(h)` is `some h`.
pub record Visit : Type 0 where
  pub depth : ℕ
  pub digest : Option ℕ

-- `[d for d, _ in child_results if d > 0]`
abbrev pub positive_depths : List Visit → List ℕ
positive_depths [] = []
positive_depths (v ∷ vs) =
    if ltb 0 v.depth then v.depth ∷ positive_depths vs else positive_depths vs

abbrev pub add_digest : Option ℕ → List String → List String
add_digest none hs = hs
add_digest (some h) hs = str h ∷ hs

-- `[h for _, h in child_results if h]`
abbrev pub digests : List Visit → List String
digests [] = []
digests (v ∷ vs) = add_digest v.digest (digests vs)

abbrev pub max_of : ℕ → List ℕ → ℕ
max_of m [] = m
max_of m (d ∷ ds) = max_of (max m d) ds

-- The rest of `visit`, from the hash `h` of the subtree's text: no child with a depth, or one more
-- than the deepest.
abbrev pub close_depths : ℕ → ℕ → List ℕ → Visit × Option ℕ
close_depths min_depth h [] = (record { depth = 1; digest = none }, none)
close_depths min_depth h (d ∷ ds) =
    let depth = 1 + max_of d ds in
    (record { depth = depth; digest = some h }, (if leb min_depth depth then some h else none))

module _ (xxh64 : String → ℕ) where
  -- `node.type + "(" + ",".join(child_hashes) + ")"`, hashed
  pub subtree_hash : String → List Visit → ℕ
  subtree_hash kind results =
      xxh64 (str_append kind (str_append "(" (str_append (join "," (digests results)) ")")))

  -- What `visit` returns for a node with these children's results, and whether it kept the hash.
  unfoldable pub close : ℕ → String → List Visit → Visit × Option ℕ
  unfolding subtree_hash
  close min_depth kind results =
      close_depths min_depth (subtree_hash kind results) (positive_depths results)

abbrev pub kept {ℓ} : {A : Type ℓ} → Option A → List A
kept none = []
kept (some a) = a ∷ []

abbrev pub skipped : Visit
skipped = record { depth = 0; digest = none }

abbrev pub leaf : Visit
leaf = record { depth = 1; digest = none }

-- `visit` of `hash_ast_subtrees`, with what it appends to `hashes`.
unfoldable mutual
  pub visit_hashes : (String → ℕ) → ℕ → Node → Visit × List ℕ
  visit_hashes xxh64 min_depth (node kind s e nil) =
      ((if is_comment kind then skipped else leaf), [])
  visit_hashes xxh64 min_depth (node kind s e (cons c cs)) =
      let first = visit_hashes xxh64 min_depth c in
      let rest = visit_hashes_all xxh64 min_depth cs in
      let (v, own) = close xxh64 min_depth kind (first.0 ∷ rest.0) in
      if is_comment kind then (skipped, []) else (v, (first.1 ++ rest.1) ++ kept own)

  pub visit_hashes_all : (String → ℕ) → ℕ → Nodes → List Visit × List ℕ
  visit_hashes_all xxh64 min_depth nil = ([], [])
  visit_hashes_all xxh64 min_depth (cons c cs) =
      let first = visit_hashes xxh64 min_depth c in
      let rest = visit_hashes_all xxh64 min_depth cs in (first.0 ∷ rest.0, first.1 ++ rest.1)

unfoldable pub hash_ast_subtrees : (String → ℕ) → ℕ → Node → List ℕ
unfolding visit_hashes close
hash_ast_subtrees xxh64 min_depth root = (visit_hashes xxh64 min_depth root).1

-- A hash with the points of its node.
abbrev pub Placed : Type 0
Placed = ℕ × Point × Point

abbrev pub place : Point → Point → Option ℕ → List Placed
place s e none = []
place s e (some h) = (h, s, e) ∷ []

-- `visit` of `hash_ast_subtrees_with_positions`.
unfoldable mutual
  pub visit_placed : (String → ℕ) → ℕ → Node → Visit × List Placed
  visit_placed xxh64 min_depth (node kind s e nil) =
      ((if is_comment kind then skipped else leaf), [])
  visit_placed xxh64 min_depth (node kind s e (cons c cs)) =
      let first = visit_placed xxh64 min_depth c in
      let rest = visit_placed_all xxh64 min_depth cs in
      let (v, own) = close xxh64 min_depth kind (first.0 ∷ rest.0) in
      if is_comment kind then (skipped, []) else (v, (first.1 ++ rest.1) ++ place s e own)

  pub visit_placed_all : (String → ℕ) → ℕ → Nodes → List Visit × List Placed
  visit_placed_all xxh64 min_depth nil = ([], [])
  visit_placed_all xxh64 min_depth (cons c cs) =
      let first = visit_placed xxh64 min_depth c in
      let rest = visit_placed_all xxh64 min_depth cs in (first.0 ∷ rest.0, first.1 ++ rest.1)

unfoldable pub hash_ast_subtrees_with_positions : (String → ℕ) → ℕ → Node → List Placed
unfolding visit_placed close
hash_ast_subtrees_with_positions xxh64 min_depth root = (visit_placed xxh64 min_depth root).1

-- `visit` of `tokenize_and_hash_ast`, with what it appends to `tokens` and to `ast_hashes`.
unfoldable mutual
  pub visit_both : (String → ℕ) → ℕ → Node → Visit × List Token × List ℕ
  visit_both xxh64 min_depth (node kind s e nil) =
      if is_comment kind
      then (skipped, [], [])
      else (leaf, record { kind = kind; start = s; end = e } ∷ [], [])
  visit_both xxh64 min_depth (node kind s e (cons c cs)) =
      let first = visit_both xxh64 min_depth c in
      let rest = visit_both_all xxh64 min_depth cs in
      let (v, own) = close xxh64 min_depth kind (first.0 ∷ rest.0) in
      if is_comment kind
      then (skipped, [], [])
      else (v, first.1 ++ rest.1, (first.2 ++ rest.2) ++ kept own)

  pub visit_both_all : (String → ℕ) → ℕ → Nodes → List Visit × List Token × List ℕ
  visit_both_all xxh64 min_depth nil = ([], [], [])
  visit_both_all xxh64 min_depth (cons c cs) =
      let first = visit_both xxh64 min_depth c in
      let rest = visit_both_all xxh64 min_depth cs in
      (first.0 ∷ rest.0, first.1 ++ rest.1, first.2 ++ rest.2)

-- The tokens and the subtree hashes.
unfoldable pub tokenize_and_hash_ast : (String → ℕ) → ℕ → Node → List Token × List ℕ
unfolding visit_both close
tokenize_and_hash_ast xxh64 min_depth root = let r = visit_both xxh64 min_depth root in (r.1, r.2)

-- `extract_node_types`: the types in pre-order.
unfoldable mutual
  pub extract_node_types : Node → List String
  extract_node_types (node kind s e cs) = kind ∷ extract_node_types_all cs

  pub extract_node_types_all : Nodes → List String
  extract_node_types_all nil = []
  extract_node_types_all (cons c cs) = extract_node_types c ++ extract_node_types_all cs

-- The rounds of `for i in range(len(node_types) - k + 1)` from `i` on.
pub type_kgrams : List String → ℕ → ℕ → ℕ → List String
type_kgrams types k zero i = []
type_kgrams types k (suc rounds) i =
    join "," (take k (drop i types)) ∷ type_kgrams types k rounds (i + 1)

unfoldable extract_kgrams : Node → ℕ → List String
unfolding extract_node_types type_kgrams join
extract_kgrams root k =
    let types = extract_node_types root in
    if ltb (length types) k
    then elim types [ [] ↦ [] | t ∷ ts ↦ join "," (t ∷ ts) ∷ [] ]
    else type_kgrams types k (length types + 1 - k) 0
