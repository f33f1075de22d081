-- ===== src/Ast/Tests.antt =====
-- The walks over small trees, and their theorems at concrete inputs. The digest here is the length
-- of the text.
use Prim.Native.String.{len, String}
use rest_api_plagiarism.Prelude.{ℕ, ◌+◌, ◌≡◌, refl, [], ◌∷◌, join, str}
use rest_api_plagiarism.Ast.Tree.{Node, node, nil, cons, hash_ast_subtrees}
use rest_api_plagiarism.Ast.Invariance.{
  without_comments, hash_ast_subtrees-SameShape, hash_ast_subtrees-without_comments,
}

abbrev leaf_at : String → ℕ → Node
leaf_at kind col = node kind (0, col) (0, col + 1) nil

-- `x = 1 + y  # note`
abbrev assignment : Node
assignment =
    node "assignment" (0, 0) (0, 17)
      (cons (leaf_at "identifier" 0) (
        cons (leaf_at "=" 2) (
          cons
            (node "binary_operator" (0, 4) (0, 9)
              (cons (leaf_at "integer" 4)
                (cons (leaf_at "+" 6) (cons (leaf_at "identifier" 8) nil))))
            (cons (leaf_at "comment" 11) nil))))

-- `f = y * 2`, three lines below
abbrev renamed : Node
renamed =
    node "assignment" (3, 0) (3, 17)
      (cons (leaf_at "identifier" 0) (
        cons (leaf_at "=" 2) (
          cons
            (node "binary_operator" (3, 4) (3, 9)
              (cons (leaf_at "identifier" 4)
                (cons (leaf_at "*" 6) (cons (leaf_at "integer" 8) nil))))
            (cons (leaf_at "comment" 11) nil))))

assignment_hashes : hash_ast_subtrees len 2 assignment ≡ 17 ∷ 14 ∷ []
unfolding hash_ast_subtrees join str
assignment_hashes = refl

hash_ast_subtrees-SameShape_example :
    hash_ast_subtrees len 2 assignment ≡ hash_ast_subtrees len 2 renamed
hash_ast_subtrees-SameShape_example =
    hash_ast_subtrees-SameShape len 2 assignment renamed
      (refl, refl, (refl, ((refl, refl, (refl, (refl, tt))), (refl, tt))))

hash_ast_subtrees-without_comments_example :
    hash_ast_subtrees len 2 (without_comments assignment) ≡ hash_ast_subtrees len 2 assignment
hash_ast_subtrees-without_comments_example = hash_ast_subtrees-without_comments len 2 assignment
