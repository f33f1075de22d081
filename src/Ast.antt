-- ===== src/Ast.antt =====
-- The syntax trees of tree-sitter and the walks over them: plagiarism_core/ast_hash.py, and the tree
-- walks of plagiarism_core/fingerprinting.
pub mod Tree
pub mod Walks
pub mod Invariance
mod Tests
