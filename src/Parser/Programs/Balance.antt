-- ===== src/Parser/Programs/Balance.antt =====
-- The scopes of a program in its tree: as many ends as beginnings, but for the last debt.
use tatlang.Prelude.{ℕ, zero, suc, ◌+◌, ◌≡◌, refl, sym, subst, ◌∙◌, true, false, List, ◌∷◌, arith}
use tatlang.Double.{Double}
use tatlang.Tree.{NodeType, Tree, null, node, is_type}
use tatlang.Parser.{append_right, manage_scopes, pay_debt_scope, pay_debt_cmd, pay_debt, plain}
use tatlang.Parser.State.{Token, ParseState, Parsed, parsed}
use tatlang.Parser.Descent.Commands.{parse_tokens}
use tatlang.Parser.Grammar.{sign}
use tatlang.Parser.Programs.{
  Stmt, block, assign, print, read, perform, cond, give, define, entry, Stmts, stop, then_,
  emit_stmt, emit_stmts, debt_stmt, debt_stmts, tree_stmt, tree_stmts,
}
use tatlang.Parser.Programs.Read.{parse_tokens-emit_stmts}
use tatlang.Parser.Programs.Flat.{starts, ends, tree_params-Flat, tree_expr-Flat, tree_args-Flat}

-- A tree that begins a list of commands for which no debt is paid.
abbrev Opens : {F : Type 0} → Tree F → Type 0
Opens (node NodeType.semicolon v l r) = Unit
Opens (node NodeType.scope_start v l r) = Unit
Opens _ = ⊥

append_right-starts : {F : Type 0} (t r : Tree F) → starts (append_right t r) ≡ starts t + starts r
unfolding append_right
append_right-starts null r = omega arith
append_right-starts (node ty v l r) r' = omega (arith, append_right-starts r r')

append_right-ends : {F : Type 0} (t r : Tree F) → ends (append_right t r) ≡ ends t + ends r
unfolding append_right
append_right-ends null r = omega arith
append_right-ends (node ty v l r) r' = omega (arith, append_right-ends r r')

append_right-Opens : {F : Type 0} (t r : Tree F) → Opens t → Opens (append_right t r)
unfolding append_right
append_right-Opens null r h = absurd h
append_right-Opens (node NodeType.semicolon v l r) r' h = tt
append_right-Opens (node NodeType.scope_start v l r) r' h = tt
append_right-Opens (node _ v l r) r' h = absurd h

module _ {F : Type 0} ⦃d : Double F⦄ where
  manage_scopes-starts :
      (t : Tree F)
      → Opens t
      → (starts (manage_scopes t) ≡ suc (starts t))
        × (ends (manage_scopes t) ≡ ends t)
        × Opens (manage_scopes t)
  unfolding manage_scopes is_type
  manage_scopes-starts null h = absurd h
  manage_scopes-starts (node NodeType.semicolon v l r) h = (omega arith, refl, tt)
  manage_scopes-starts (node NodeType.scope_start v l r) h = (omega arith, omega arith, tt)
  manage_scopes-starts (node _ v l r) h = absurd h

  pay_debt_scope-ends :
      (n : ℕ) (t : Tree F)
      → (starts (pay_debt_scope t n) ≡ starts t) × (ends (pay_debt_scope t n) ≡ ends t + n)
  unfolding pay_debt_scope
  pay_debt_scope-ends zero t = ground arith
  pay_debt_scope-ends (suc n) t =
      ground (arith, pay_debt_scope-ends n (plain NodeType.scope_end null t))

  pay_debt_cmd-ends :
      (n : ℕ) (t : Tree F)
      → (starts (pay_debt_cmd t (suc n)) ≡ starts t)
        × (ends (pay_debt_cmd t (suc n)) ≡ ends t + suc n)
  unfolding pay_debt_cmd
  pay_debt_cmd-ends zero t = ground arith
  pay_debt_cmd-ends (suc n) t = ground (arith, pay_debt_cmd-ends n t)

  pay_debt-ends :
      (n : ℕ) (t : Tree F) → (starts (pay_debt t n) ≡ starts t) × (ends (pay_debt t n) ≡ ends t + n)
  unfolding pay_debt
  pay_debt-ends zero t = ground arith
  pay_debt-ends (suc n) t = pay_debt_cmd-ends n t

  tree_stmt-Opens : (s : Stmt F) → Opens (tree_stmt s 0)
  unfolding tree_stmt pay_debt pay_debt_scope
  tree_stmt-Opens (block s ss) =
      (manage_scopes-starts _ (append_right-Opens _ _ (tree_stmt-Opens s))).2
  tree_stmt-Opens _ = tt

  -- Between the debt in front of a tree and the one behind it, the ends make up for the starts.
  abbrev Balanced : ℕ → Tree F → ℕ → Type 0
  Balanced debt t debt' = starts t + debt ≡ ends t + debt'

  -- A command around a tree that is balanced by itself.
  pay_debt-Balanced :
      (t : Tree F) (debt debt' : ℕ) → Balanced 0 t debt' → Balanced debt (pay_debt t debt) debt'
  pay_debt-Balanced t debt debt' h = ground (arith, h, pay_debt-ends debt t)

  block-Balanced :
      (t r : Tree F) (debt debt₁ debt₂ : ℕ)
      → Opens t
      → Balanced 0 t debt₁
      → Balanced debt₁ r debt₂
      → Balanced debt (pay_debt_scope (manage_scopes (append_right t r)) debt) (suc debt₂)
  block-Balanced t r debt debt₁ debt₂ opens h k =
      let managed = manage_scopes-starts (append_right t r) (append_right-Opens t r opens) in
      let paid = pay_debt_scope-ends debt (manage_scopes (append_right t r)) in
      omega (
        arith,
        h,
        k,
        managed.0,
        managed.1,
        paid.0,
        paid.1,
        append_right-starts t r,
        append_right-ends t r,
      )

  mutual
    unfolding tree_stmt debt_stmt

    tree_stmt-Balanced : (s : Stmt F) (debt : ℕ) → Balanced debt (tree_stmt s debt) (debt_stmt s)
    tree_stmt-Balanced (block s ss) debt =
        block-Balanced (tree_stmt s 0) (tree_stmts ss (debt_stmt s)) debt (debt_stmt s)
          (debt_stmts ss (debt_stmt s)) (tree_stmt-Opens s) (tree_stmt-Balanced s 0)
          (tree_stmts-Balanced ss (debt_stmt s))
    tree_stmt-Balanced (assign x e) debt =
        pay_debt-Balanced _ debt 0 (ground (arith, tree_expr-Flat e))
    tree_stmt-Balanced (print e) debt =
        pay_debt-Balanced _ debt 0 (ground (arith, tree_expr-Flat e))
    tree_stmt-Balanced (read x) debt = pay_debt-Balanced _ debt 0 (ground arith)
    tree_stmt-Balanced (perform x e args) debt =
        pay_debt-Balanced _ debt 0 (ground (arith, tree_expr-Flat e, tree_args-Flat args))
    tree_stmt-Balanced (cond true e s) debt =
        pay_debt-Balanced _ debt (debt_stmt s)
          (ground (arith, tree_expr-Flat e, tree_stmt-Balanced s 0))
    tree_stmt-Balanced (cond false e s) debt =
        pay_debt-Balanced _ debt (debt_stmt s)
          (ground (arith, tree_expr-Flat e, tree_stmt-Balanced s 0))
    tree_stmt-Balanced (give e) debt = pay_debt-Balanced _ debt 0 (ground (arith, tree_expr-Flat e))
    tree_stmt-Balanced (define x p ps s) debt =
        pay_debt-Balanced _ debt (debt_stmt s)
          (ground (arith, tree_params-Flat F ps, tree_stmt-Balanced s 0))
    tree_stmt-Balanced (entry s) debt =
        pay_debt-Balanced _ debt (debt_stmt s) (ground (arith, tree_stmt-Balanced s 0))

    tree_stmts-Balanced :
        (ss : Stmts F) (debt : ℕ) → Balanced debt (tree_stmts ss debt) (debt_stmts ss debt)
    tree_stmts-Balanced stop debt = omega arith
    tree_stmts-Balanced (then_ s ss) debt = omega (
      arith,
      tree_stmt-Balanced s debt,
      tree_stmts-Balanced ss (debt_stmt s),
      append_right-starts (tree_stmt s debt) (tree_stmts ss (debt_stmt s)),
      append_right-ends (tree_stmt s debt) (tree_stmts ss (debt_stmt s)),
    )

-- In the tree of a parsed program of the grammar, the nodes that begin a scope and the debt at first
-- are as many as the nodes that end one and the debt that the parser is left with.
pub parse_tokens-balance :
    {F : Type 0} ⦃d : Double F⦄ (s : Stmt F) (ss : Stmts F) (debt : ℕ) (ts : List (Token F))
    (root : Tree F) (st : ParseState F)
    → parse_tokens debt (emit_stmt s (emit_stmts ss (sign NodeType.end ∷ ts))) ≡ parsed root st
    → starts root + debt ≡ ends root + st.sce_debt
parse_tokens-balance {F} s ss debt ts root st h =
    subst Fits (sym (parse_tokens-emit_stmts s ss debt ts) ∙ h) (
      omega (
        arith,
        tree_stmt-Balanced s debt,
        tree_stmts-Balanced ss (debt_stmt s),
        append_right-starts (tree_stmt s debt) (tree_stmts ss (debt_stmt s)),
        append_right-ends (tree_stmt s debt) (tree_stmts ss (debt_stmt s)),
      ))
  where
    Fits : Parsed F (Tree F) → Type 0
    Fits (parsed t s) = starts t + debt ≡ ends t + s.sce_debt
    Fits _ = Unit
