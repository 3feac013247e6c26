-- ===== src/Parser/Programs/Shape.antt =====
-- The trees of commands are not NULL.
use tatlang.Prelude.{ℕ, zero, suc, ◌≡◌, refl, false, Option, arith}
use tatlang.Double.{Double}
use tatlang.Tree.{Tree, null, node, is_null}
use tatlang.Parser.{append_right, manage_scopes, pay_debt_scope, pay_debt}
use tatlang.Parser.State.{ParseState, Parser}
use tatlang.Parser.Descent.Commands.{unless_no_scope}
use tatlang.Parser.Programs.{
  Stmt, block, assign, print, read, perform, cond, give, define, entry, Stmts, debt_stmt, tree_stmt,
  tree_stmts,
}

append_right-is_null :
    {F : Type 0} (t r : Tree F) → is_null t ≡ false → is_null (append_right t r) ≡ false
unfolding append_right
append_right-is_null null r h = cc
append_right-is_null (node ty v l r) r' h = refl

module _ {F : Type 0} ⦃d : Double F⦄ where
  manage_scopes-is_null : (t : Tree F) → is_null t ≡ false → is_null (manage_scopes t) ≡ false
  unfolding manage_scopes
  manage_scopes-is_null null h = cc
  manage_scopes-is_null (node ty v l r) h = ground arith

  pay_debt_scope-is_null :
      (n : ℕ) (t : Tree F) → is_null t ≡ false → is_null (pay_debt_scope t n) ≡ false
  unfolding pay_debt_scope
  pay_debt_scope-is_null zero t h = h
  pay_debt_scope-is_null (suc n) t h = pay_debt_scope-is_null n _ refl

  pub pay_debt-is_null : (t : Tree F) (n : ℕ) → is_null (pay_debt t n) ≡ false
  unfolding pay_debt
  pay_debt-is_null t zero = refl
  pay_debt-is_null t (suc zero) = refl
  pay_debt-is_null t (suc (suc n)) = refl

  pub tree_stmt-is_null : (s : Stmt F) (debt : ℕ) → is_null (tree_stmt s debt) ≡ false
  unfolding tree_stmt
  tree_stmt-is_null (block s ss) debt =
      pay_debt_scope-is_null debt _
        (manage_scopes-is_null _ (append_right-is_null _ _ (tree_stmt-is_null s 0)))
  tree_stmt-is_null (assign x e) debt = pay_debt-is_null _ debt
  tree_stmt-is_null (print e) debt = pay_debt-is_null _ debt
  tree_stmt-is_null (read x) debt = pay_debt-is_null _ debt
  tree_stmt-is_null (perform x e args) debt = pay_debt-is_null _ debt
  tree_stmt-is_null (cond b e s) debt = pay_debt-is_null _ debt
  tree_stmt-is_null (give e) debt = pay_debt-is_null _ debt
  tree_stmt-is_null (define x p ps s) debt = pay_debt-is_null _ debt
  tree_stmt-is_null (entry s) debt = pay_debt-is_null _ debt

  -- The tree of the commands of a scope, or of a program.
  abbrev pub tree_scopes : Stmt F → Stmts F → ℕ → Tree F
  tree_scopes s ss debt = append_right (tree_stmt s debt) (tree_stmts ss (debt_stmt s))

  pub tree_scopes-is_null :
      (s : Stmt F) (ss : Stmts F) (debt : ℕ) → is_null (tree_scopes s ss debt) ≡ false
  tree_scopes-is_null s ss debt = append_right-is_null _ _ (tree_stmt-is_null s debt)

  pub scope_node :
      (t : Tree F) (p : Parser F (Option (Tree F))) (s : ParseState F)
      → is_null t ≡ false
      → unless_no_scope t p s ≡ p s
  scope_node null p s h = cc
  scope_node (node ty v l r) p s h = refl
