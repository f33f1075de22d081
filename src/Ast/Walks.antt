-- ===== src/Ast/Walks.antt =====
-- The walks of ast_hash.py and fingerprinting/core.py agree: the combined walk returns what the
-- separate walks return, and the positions stand beside the same hashes.
use rest_api_plagiarism.Prelude.{
  ℕ, ◌≡◌, refl, ap, String, Option, none, some, false, List, ◌∷◌, ◌++◌, map, Bool-cases, inl, inr,
  map-append,
}
use rest_api_plagiarism.Fingerprint.Core.{Point}
use rest_api_plagiarism.Ast.Tree.{
  Node, Nodes, node, nil, cons, is_comment, Placed, place, kept, close, leaf_tokens,
  leaf_tokens_all, tokenize_with_tree_sitter, visit_hashes, visit_hashes_all, hash_ast_subtrees,
  visit_placed, visit_placed_all, hash_ast_subtrees_with_positions, visit_both, visit_both_all,
  tokenize_and_hash_ast,
}

module _ (xxh64 : String → ℕ) (min_depth : ℕ) where
  mutual
    unfolding visit_both visit_hashes

    both-visit : (n : Node) → (visit_both xxh64 min_depth n).0 ≡ (visit_hashes xxh64 min_depth n).0
    both-visit (node kind s e nil) = elim (Bool-cases (is_comment kind)) [
      | inl c ↦ rw c
      | inr c ↦ rw c
    ]
    both-visit (node kind s e (cons c cs)) = elim (Bool-cases (is_comment kind)) [
      | inl c' ↦ rw c'
      | inr c' ↦ rw (c', both-visit c, both-visit_all cs)
    ]

    both-visit_all :
        (ns : Nodes)
        → (visit_both_all xxh64 min_depth ns).0 ≡ (visit_hashes_all xxh64 min_depth ns).0
    both-visit_all nil = refl
    both-visit_all (cons c cs) = rw (both-visit c, both-visit_all cs)

    both-hashes : (n : Node) → (visit_both xxh64 min_depth n).2 ≡ (visit_hashes xxh64 min_depth n).1
    both-hashes (node kind s e nil) = elim (Bool-cases (is_comment kind)) [
      | inl c ↦ rw c
      | inr c ↦ rw c
    ]
    both-hashes (node kind s e (cons c cs)) = elim (Bool-cases (is_comment kind)) [
      | inl c' ↦ rw c'
      | inr c' ↦ rw (c', both-visit c, both-visit_all cs, both-hashes c, both-hashes_all cs)
    ]

    both-hashes_all :
        (ns : Nodes)
        → (visit_both_all xxh64 min_depth ns).2 ≡ (visit_hashes_all xxh64 min_depth ns).1
    both-hashes_all nil = refl
    both-hashes_all (cons c cs) = rw (both-hashes c, both-hashes_all cs)

  mutual
    unfolding visit_placed visit_hashes

    placed-visit :
        (n : Node) → (visit_placed xxh64 min_depth n).0 ≡ (visit_hashes xxh64 min_depth n).0
    placed-visit (node kind s e nil) = refl
    placed-visit (node kind s e (cons c cs)) = elim (Bool-cases (is_comment kind)) [
      | inl c' ↦ rw c'
      | inr c' ↦ rw (c', placed-visit c, placed-visit_all cs)
    ]

    placed-visit_all :
        (ns : Nodes)
        → (visit_placed_all xxh64 min_depth ns).0 ≡ (visit_hashes_all xxh64 min_depth ns).0
    placed-visit_all nil = refl
    placed-visit_all (cons c cs) = rw (placed-visit c, placed-visit_all cs)

-- The hashes of placed hashes.
abbrev pub placed_hashes : List Placed → List ℕ
placed_hashes = map (λ p. p.0)

placed_hashes-place : (s e : Point) (o : Option ℕ) → placed_hashes (place s e o) ≡ kept o
placed_hashes-place s e none = refl
placed_hashes-place s e (some h) = refl

-- A comment of the grammar is a leaf.
abbrev mutual
  pub CommentsAreLeaves : Node → Type 0
  CommentsAreLeaves (node kind s e nil) = Unit
  CommentsAreLeaves (node kind s e (cons c cs)) =
      (is_comment kind ≡ false) × CommentsAreLeaves c × CommentsAreLeavesAll cs

  pub CommentsAreLeavesAll : Nodes → Type 0
  CommentsAreLeavesAll nil = Unit
  CommentsAreLeavesAll (cons c cs) = CommentsAreLeaves c × CommentsAreLeavesAll cs

module _ (xxh64 : String → ℕ) (min_depth : ℕ) where
  mutual
    unfolding visit_placed visit_hashes

    placed-hashes :
        (n : Node)
        → placed_hashes (visit_placed xxh64 min_depth n).1 ≡ (visit_hashes xxh64 min_depth n).1
    placed-hashes (node kind s e nil) = refl
    placed-hashes (node kind s e (cons c cs)) =
        let results =
          (visit_hashes xxh64 min_depth c).0 ∷ (visit_hashes_all xxh64 min_depth cs).0 in
        elim (Bool-cases (is_comment kind)) [
          | inl c' ↦ rw c'
          | inr c' ↦
              rw (c', placed-visit xxh64 min_depth c, placed-visit_all xxh64 min_depth cs)
                (rw (map-append, map-append, placed-hashes c, placed-hashes_all cs)
                  (ap (◌++◌ _) (placed_hashes-place s e (close xxh64 min_depth kind results).1)))
        ]

    placed-hashes_all :
        (ns : Nodes)
        → placed_hashes (visit_placed_all xxh64 min_depth ns).1
          ≡ (visit_hashes_all xxh64 min_depth ns).1
    placed-hashes_all nil = refl
    placed-hashes_all (cons c cs) = rw (map-append, placed-hashes c, placed-hashes_all cs)

  mutual
    unfolding visit_both leaf_tokens

    both-tokens :
        (n : Node) → CommentsAreLeaves n → (visit_both xxh64 min_depth n).1 ≡ leaf_tokens n
    both-tokens (node kind s e nil) h = elim (Bool-cases (is_comment kind)) [
      | inl c ↦ rw c
      | inr c ↦ rw c
    ]
    both-tokens (node kind s e (cons c cs)) h = rw (h.0, both-tokens c h.1, both-tokens_all cs h.2)

    both-tokens_all :
        (ns : Nodes)
        → CommentsAreLeavesAll ns
        → (visit_both_all xxh64 min_depth ns).1 ≡ leaf_tokens_all ns
    both-tokens_all nil h = refl
    both-tokens_all (cons c cs) h = rw (both-tokens c h.0, both-tokens_all cs h.1)

-- In its one walk `tokenize_and_hash_ast` returns the hashes that `hash_ast_subtrees` returns, in the
-- same order, for every tree, digest and minimal depth.
pub tokenize_and_hash_ast-hashes :
    (xxh64 : String → ℕ) (min_depth : ℕ) (root : Node)
    → (tokenize_and_hash_ast xxh64 min_depth root).1 ≡ hash_ast_subtrees xxh64 min_depth root
unfolding tokenize_and_hash_ast hash_ast_subtrees
tokenize_and_hash_ast-hashes xxh64 min_depth root = both-hashes xxh64 min_depth root

-- Where every comment of the tree is a leaf, the tokens of that walk are those of
-- `tokenize_with_tree_sitter`.
pub tokenize_and_hash_ast-tokens :
    (xxh64 : String → ℕ) (min_depth : ℕ) (root : Node)
    → CommentsAreLeaves root
    → (tokenize_and_hash_ast xxh64 min_depth root).0 ≡ tokenize_with_tree_sitter root
unfolding tokenize_and_hash_ast tokenize_with_tree_sitter
tokenize_and_hash_ast-tokens xxh64 min_depth root h = both-tokens xxh64 min_depth root h

-- `hash_ast_subtrees_with_positions` places exactly the hashes of `hash_ast_subtrees`, in the same
-- order.
pub hash_ast_subtrees_with_positions-hashes :
    (xxh64 : String → ℕ) (min_depth : ℕ) (root : Node)
    → placed_hashes (hash_ast_subtrees_with_positions xxh64 min_depth root)
      ≡ hash_ast_subtrees xxh64 min_depth root
unfolding hash_ast_subtrees_with_positions hash_ast_subtrees
hash_ast_subtrees_with_positions-hashes xxh64 min_depth root = placed-hashes xxh64 min_depth root
