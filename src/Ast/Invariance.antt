-- ===== src/Ast/Invariance.antt =====
-- What the subtree hashes of ast_hash.py do not see: comments, positions and the types of leaves.
use rest_api_plagiarism.Prelude.{
  ℕ, ◌≡◌, refl, ap, ◌∙◌, String, true, List, [], ◌∷◌, ◌++◌, Bool-cases, if◌then◌else◌, inl, inr,
  ltb, str_append, join,
}
use rest_api_plagiarism.Ast.Tree.{
  Node, Nodes, node, nil, cons, Visit, is_comment, positive_depths, digests, close, close_depths,
  add_digest, subtree_hash, kept, skipped, visit_hashes, visit_hashes_all, hash_ast_subtrees,
}

abbrev kind_of : Node → String
kind_of (node kind s e cs) = kind

-- The tree with every comment below the root taken out.
unfoldable mutual
  pub without_comments : Node → Node
  without_comments (node kind s e cs) = node kind s e (without_comments_all cs)

  pub without_comments_all : Nodes → Nodes
  without_comments_all nil = nil
  without_comments_all (cons c cs) =
      if is_comment (kind_of c)
      then without_comments_all cs
      else cons (without_comments c) (without_comments_all cs)

module _ (xxh64 : String → ℕ) (min_depth : ℕ) where
  abbrev visits : Nodes → List Visit × List ℕ
  visits cs = visit_hashes_all xxh64 min_depth cs

  -- One equation for nodes with and without children.
  visit_hashes-node :
      (kind : String) (s e : ℕ × ℕ) (cs : Nodes)
      → visit_hashes xxh64 min_depth (node kind s e cs) ≡ (
          if is_comment kind then (skipped, []) else (
            (close xxh64 min_depth kind (visits cs).0).0,
            (visits cs).1 ++ kept (close xxh64 min_depth kind (visits cs).0).1,
          ))
  unfolding visit_hashes
  visit_hashes-node kind s e nil =
      unfold close in elim (Bool-cases (is_comment kind)) [ inl c ↦ rw c | inr c ↦ rw c ]
  visit_hashes-node kind s e (cons c cs) = refl

  -- Children with the same depths and digests give a node the same result.
  close-same :
      (kind : String) (vs ws : List Visit)
      → positive_depths vs ≡ positive_depths ws
      → digests vs ≡ digests ws
      → close xxh64 min_depth kind vs ≡ close xxh64 min_depth kind ws
  unfolding close
  close-same kind vs ws p q =
      ap
        (λ hs.
          close_depths min_depth
            (xxh64 (str_append kind (str_append "(" (str_append (join "," hs) ")"))))
            (positive_depths vs))
        q
      ∙ ap (close_depths min_depth (subtree_hash xxh64 kind ws)) p

  -- What a node's result depends on, of its children's.
  abbrev SameVisits : List Visit × List ℕ → List Visit × List ℕ → Type 0
  SameVisits (vs, l) (ws, m) =
      (positive_depths vs ≡ positive_depths ws) × (digests vs ≡ digests ws) × (l ≡ m)

  visit_hashes-same :
      (kind : String) (s e s' e' : ℕ × ℕ) (cs ds : Nodes)
      → SameVisits (visits cs) (visits ds)
      → visit_hashes xxh64 min_depth (node kind s e cs)
        ≡ visit_hashes xxh64 min_depth (node kind s' e' ds)
  visit_hashes-same kind s e s' e' cs ds (p, q, r) =
      rw
        (
          visit_hashes-node kind s e cs,
          visit_hashes-node kind s' e' ds,
          close-same kind (visits cs).0 (visits ds).0 p q,
          r,
        )
        refl

  comment_skipped :
      (n : Node) → is_comment (kind_of n) ≡ true → visit_hashes xxh64 min_depth n ≡ (skipped, [])
  comment_skipped (node kind s e cs) h = rw (visit_hashes-node kind s e cs, h)

  SameVisits-cons :
      (v w : Visit × List ℕ) (vs ws : List Visit × List ℕ)
      → v ≡ w
      → SameVisits vs ws
      → SameVisits (v.0 ∷ vs.0, v.1 ++ vs.1) (w.0 ∷ ws.0, w.1 ++ ws.1)
  SameVisits-cons v w vs ws e (p, q, r) = (
    ap (λ u. positive_depths (u.0 ∷ vs.0)) e
        ∙ ap (λ ds. if ltb 0 w.0.depth then w.0.depth ∷ ds else ds) p,
    ap (λ u. digests (u.0 ∷ vs.0)) e ∙ ap (add_digest w.0.digest) q,
    ap (λ u. u.1 ++ vs.1) e ∙ ap (λ l. w.1 ++ l) r,
  )

  drop_comment :
      (c : Node) (cs : Nodes) (vs : List Visit × List ℕ)
      → is_comment (kind_of c) ≡ true
      → SameVisits vs (visits cs)
      → SameVisits vs (visits (cons c cs))
  unfolding visit_hashes
  drop_comment c cs vs h s = rw (comment_skipped c h) s

  keep_child :
      (b c : Node) (bs cs : Nodes)
      → visit_hashes xxh64 min_depth b ≡ visit_hashes xxh64 min_depth c
      → SameVisits (visits bs) (visits cs)
      → SameVisits (visits (cons b bs)) (visits (cons c cs))
  unfolding visit_hashes
  keep_child b c bs cs e s =
      SameVisits-cons (visit_hashes xxh64 min_depth b) (visit_hashes xxh64 min_depth c) (visits bs)
        (visits cs) e s

  mutual
    unfolding without_comments

    visit-without_comments :
        (n : Node)
        → visit_hashes xxh64 min_depth (without_comments n) ≡ visit_hashes xxh64 min_depth n
    visit-without_comments (node kind s e cs) =
        visit_hashes-same kind s e s e (without_comments_all cs) cs (visits-without_comments cs)

    visits-without_comments :
        (cs : Nodes) → SameVisits (visits (without_comments_all cs)) (visits cs)
    visits-without_comments nil = (refl, refl, refl)
    visits-without_comments (cons c cs) =
        let ih = visits-without_comments cs in
        elim (Bool-cases (is_comment (kind_of c))) [
          | inl h ↦ rw h (drop_comment c cs (visits (without_comments_all cs)) h ih)
          | inr h ↦ rw h (
              keep_child (without_comments c) c (without_comments_all cs) cs
                (visit-without_comments c) ih)
        ]

-- Two trees of one shape: the same types at the nodes with children, any types and points
-- otherwise, but a comment only where the other has one.
abbrev mutual
  pub SameShape : Node → Node → Type 0
  SameShape (node k s e nil) (node k' s' e' nil) = is_comment k ≡ is_comment k'
  SameShape (node k s e nil) (node k' s' e' (cons d ds)) = ⊥
  SameShape (node k s e (cons c cs)) (node k' s' e' nil) = ⊥
  SameShape (node k s e (cons c cs)) (node k' s' e' (cons d ds)) =
      (k ≡ k') × SameShape c d × SameShapeAll cs ds

  pub SameShapeAll : Nodes → Nodes → Type 0
  SameShapeAll nil nil = Unit
  SameShapeAll nil (cons d ds) = ⊥
  SameShapeAll (cons c cs) nil = ⊥
  SameShapeAll (cons c cs) (cons d ds) = SameShape c d × SameShapeAll cs ds

module _ (xxh64 : String → ℕ) (min_depth : ℕ) where
  mutual
    unfolding visit_hashes

    visit-SameShape :
        (m n : Node)
        → SameShape m n
        → visit_hashes xxh64 min_depth m ≡ visit_hashes xxh64 min_depth n
    visit-SameShape (node k s e nil) (node k' s' e' nil) h = rw h
    visit-SameShape (node k s e nil) (node k' s' e' (cons d ds)) h = elim h [ ]
    visit-SameShape (node k s e (cons c cs)) (node k' s' e' nil) h = elim h [ ]
    visit-SameShape (node k s e (cons c cs)) (node k' s' e' (cons d ds)) h =
        rw (h.0, visit-SameShape c d h.1, visits-SameShape cs ds h.2)

    visits-SameShape :
        (ms ns : Nodes)
        → SameShapeAll ms ns
        → visit_hashes_all xxh64 min_depth ms ≡ visit_hashes_all xxh64 min_depth ns
    visits-SameShape nil nil h = refl
    visits-SameShape nil (cons d ds) h = elim h [ ]
    visits-SameShape (cons c cs) nil h = elim h [ ]
    visits-SameShape (cons c cs) (cons d ds) h =
        rw (visit-SameShape c d h.0, visits-SameShape cs ds h.1)

-- Taking every comment out of a tree, however deep, changes none of the hashes.
pub hash_ast_subtrees-without_comments :
    (xxh64 : String → ℕ) (min_depth : ℕ) (root : Node)
    → hash_ast_subtrees xxh64 min_depth (without_comments root)
      ≡ hash_ast_subtrees xxh64 min_depth root
unfolding hash_ast_subtrees
hash_ast_subtrees-without_comments xxh64 min_depth root =
    ap (λ v. v.1) (visit-without_comments xxh64 min_depth root)

-- Trees of one shape have the same hashes in the same order: neither another type of a leaf, as long as the leaf is a
-- comment in both trees or in none, nor other points of the nodes change any. The types of the nodes with children
-- are the same in both trees.
pub hash_ast_subtrees-SameShape :
    (xxh64 : String → ℕ) (min_depth : ℕ) (m n : Node)
    → SameShape m n
    → hash_ast_subtrees xxh64 min_depth m ≡ hash_ast_subtrees xxh64 min_depth n
unfolding hash_ast_subtrees
hash_ast_subtrees-SameShape xxh64 min_depth m n h =
    ap (λ v. v.1) (visit-SameShape xxh64 min_depth m n h)
