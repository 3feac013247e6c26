-- ===== src/Parser/Programs/Compiles.antt =====
-- The trees of programs are ones that the backend accepts.
use tatlang.Prelude.{ℕ, zero, suc, true, false}
use tatlang.Double.{Double}
use tatlang.Tree.{NodeType, Tree, null, node, is_type}
use tatlang.Parser.{append_right, manage_scopes, pay_debt_scope, pay_debt_cmd, pay_debt}
use tatlang.Parser.Grammar.{
  plus, minus, times, over, logarithm, sine, cosine, square_root, gt, lt, ge, le, eq, ne, Atom,
  paren, number, unary, invoke, ident, Power, power, Powers, no_powers, raised, Product, product,
  Factors, no_factors, factor, Expr, sum, compare, Terms, no_terms, term, Args, no_args, arg,
  tree_atom, tree_power, tree_powers, tree_product, tree_factors, tree_expr, tree_terms, tree_args,
}
use tatlang.Parser.Programs.{
  Stmt, block, assign, print, read, perform, cond, give, define, entry, Stmts, stop, then_,
  debt_stmt, tree_stmt, tree_stmts,
}
use tatlang.Backend.Labels.{Valid, ValidArgs}

module _ {F : Type 0} ⦃d : Double F⦄ where
  mutual
    unfolding tree_atom

    tree_atom-Valid : (a : Atom F) → Valid (tree_atom a)
    tree_atom-Valid (paren e) = tree_expr-Valid e
    tree_atom-Valid (number x) = tt
    tree_atom-Valid (unary logarithm e) = (tt, tree_expr-Valid e)
    tree_atom-Valid (unary sine e) = (tt, tree_expr-Valid e)
    tree_atom-Valid (unary cosine e) = (tt, tree_expr-Valid e)
    tree_atom-Valid (unary square_root e) = (tt, tree_expr-Valid e)
    tree_atom-Valid (invoke x e args) = (tt, tree_expr-Valid e, tree_args-Valid args)
    tree_atom-Valid (ident x) = tt

    tree_powers-Valid : (p : Powers F) (t : Tree F) → Valid t → Valid (tree_powers t p)
    tree_powers-Valid no_powers t h = h
    tree_powers-Valid (raised a p) t h = tree_powers-Valid p _ (h, tree_atom-Valid a)

    tree_power-Valid : (p : Power F) → Valid (tree_power p)
    tree_power-Valid (power a p) = tree_powers-Valid p (tree_atom a) (tree_atom-Valid a)

    tree_factors-Valid : (fs : Factors F) (t : Tree F) → Valid t → Valid (tree_factors t fs)
    tree_factors-Valid no_factors t h = h
    tree_factors-Valid (factor times p fs) t h = tree_factors-Valid fs _ (h, tree_power-Valid p)
    tree_factors-Valid (factor over p fs) t h = tree_factors-Valid fs _ (h, tree_power-Valid p)

    tree_product-Valid : (p : Product F) → Valid (tree_product p)
    tree_product-Valid (product p fs) = tree_factors-Valid fs (tree_power p) (tree_power-Valid p)

    tree_terms-Valid : (xs : Terms F) (t : Tree F) → Valid t → Valid (tree_terms t xs)
    tree_terms-Valid no_terms t h = h
    tree_terms-Valid (term plus p xs) t h = tree_terms-Valid xs _ (h, tree_product-Valid p)
    tree_terms-Valid (term minus p xs) t h = tree_terms-Valid xs _ (h, tree_product-Valid p)

    pub tree_expr-Valid : (e : Expr F) → Valid (tree_expr e)
    tree_expr-Valid (sum p xs) = tree_terms-Valid xs (tree_product p) (tree_product-Valid p)
    tree_expr-Valid (compare p gt q) = (tree_product-Valid p, tree_product-Valid q)
    tree_expr-Valid (compare p lt q) = (tree_product-Valid p, tree_product-Valid q)
    tree_expr-Valid (compare p ge q) = (tree_product-Valid p, tree_product-Valid q)
    tree_expr-Valid (compare p le q) = (tree_product-Valid p, tree_product-Valid q)
    tree_expr-Valid (compare p eq q) = (tree_product-Valid p, tree_product-Valid q)
    tree_expr-Valid (compare p ne q) = (tree_product-Valid p, tree_product-Valid q)

    tree_args-Valid : (args : Args F) → ValidArgs (tree_args args)
    tree_args-Valid no_args = tt
    tree_args-Valid (arg e args) = (tt, tree_expr-Valid e, tree_args-Valid args)

  -- The nodes that may stand on the right spine of a list of commands.
  abbrev Link : NodeType → Tree F → Type 0
  Link NodeType.scope_start l = Valid l
  Link NodeType.scope_end l = Valid l
  Link NodeType.semicolon l = Valid l
  Link _ l = ⊥

  abbrev Spine : Tree F → Type 0
  Spine null = Unit
  Spine (node ty v l r) = Link ty l × Spine r

  Spine-Valid : (t : Tree F) → Spine t → Valid t
  Spine-Valid null h = tt
  Spine-Valid (node NodeType.scope_start v l r) h = (h.0, Spine-Valid r h.1)
  Spine-Valid (node NodeType.scope_end v l r) h = (h.0, Spine-Valid r h.1)
  Spine-Valid (node NodeType.semicolon v l r) h = (h.0, Spine-Valid r h.1)
  Spine-Valid (node _ v l r) h = absurd h.0

  append_right-Spine : (t r : Tree F) → Spine t → Spine r → Spine (append_right t r)
  unfolding append_right
  append_right-Spine null r h k = k
  append_right-Spine (node ty v l r) r' h k = (h.0, append_right-Spine r r' h.1 k)

  manage_scopes-Spine : (t : Tree F) → Spine t → Spine (manage_scopes t)
  unfolding manage_scopes is_type
  manage_scopes-Spine null h = tt
  manage_scopes-Spine (node NodeType.scope_start v l r) h = (tt, h)
  manage_scopes-Spine (node NodeType.scope_end v l r) h = h
  manage_scopes-Spine (node NodeType.semicolon v l r) h = h
  manage_scopes-Spine (node _ v l r) h = absurd h.0

  pay_debt_scope-Spine : (n : ℕ) (t : Tree F) → Spine t → Spine (pay_debt_scope t n)
  unfolding pay_debt_scope
  pay_debt_scope-Spine zero t h = h
  pay_debt_scope-Spine (suc n) t h = pay_debt_scope-Spine n _ (tt, h)

  pay_debt_cmd-Spine : (n : ℕ) (t : Tree F) → Valid t → Spine (pay_debt_cmd t n)
  unfolding pay_debt_cmd
  pay_debt_cmd-Spine zero t h = (h, tt)
  pay_debt_cmd-Spine (suc zero) t h = (h, tt)
  pay_debt_cmd-Spine (suc (suc n)) t h = (tt, pay_debt_cmd-Spine (suc n) t h)

  pay_debt-Spine : (n : ℕ) (t : Tree F) → Valid t → Spine (pay_debt t n)
  unfolding pay_debt
  pay_debt-Spine zero t h = (h, tt)
  pay_debt-Spine (suc n) t h = pay_debt_cmd-Spine (suc n) t h

  mutual
    unfolding tree_stmt

    tree_stmt-Spine : (s : Stmt F) (debt : ℕ) → Spine (tree_stmt s debt)
    tree_stmt-Spine (block s ss) debt = pay_debt_scope-Spine debt _ (
        manage_scopes-Spine _
          (append_right-Spine _ _ (tree_stmt-Spine s 0) (tree_stmts-Spine ss (debt_stmt s))))
    tree_stmt-Spine (assign x e) debt = pay_debt-Spine debt _ (tree_expr-Valid e)
    tree_stmt-Spine (print e) debt = pay_debt-Spine debt _ (tree_expr-Valid e)
    tree_stmt-Spine (read x) debt = pay_debt-Spine debt _ tt
    tree_stmt-Spine (perform x e args) debt =
        pay_debt-Spine debt _ (tt, tree_expr-Valid e, tree_args-Valid args)
    tree_stmt-Spine (cond true e s) debt =
        pay_debt-Spine debt _ (tree_expr-Valid e, Spine-Valid _ (tree_stmt-Spine s 0))
    tree_stmt-Spine (cond false e s) debt =
        pay_debt-Spine debt _ (tree_expr-Valid e, Spine-Valid _ (tree_stmt-Spine s 0))
    tree_stmt-Spine (give e) debt = pay_debt-Spine debt _ (tree_expr-Valid e)
    tree_stmt-Spine (define x p ps s) debt =
        pay_debt-Spine debt _ (Spine-Valid _ (tree_stmt-Spine s 0))
    tree_stmt-Spine (entry s) debt = pay_debt-Spine debt _ (Spine-Valid _ (tree_stmt-Spine s 0))

    tree_stmts-Spine : (ss : Stmts F) (debt : ℕ) → Spine (tree_stmts ss debt)
    tree_stmts-Spine stop debt = tt
    tree_stmts-Spine (then_ s ss) debt =
        append_right-Spine _ _ (tree_stmt-Spine s debt) (tree_stmts-Spine ss (debt_stmt s))

  pub program-Valid :
      (s : Stmt F) (ss : Stmts F) (debt : ℕ)
      → Valid (append_right (tree_stmt s debt) (tree_stmts ss (debt_stmt s)))
  program-Valid s ss debt =
      Spine-Valid _
        (append_right-Spine _ _ (tree_stmt-Spine s debt) (tree_stmts-Spine ss (debt_stmt s)))
