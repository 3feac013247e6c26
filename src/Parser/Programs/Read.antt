-- ===== src/Parser/Programs/Read.antt =====
-- The descent reads every program of the grammar to its end.
use tatlang.Prelude.{
  ℕ, zero, suc, ◌+◌, ◌*◌, ◌≤◌, ◌≡◌, refl, ap, ◌∙◌, Bool, true, false, some, List, ◌∷◌, length,
  arith,
}
use tatlang.Double.{Double}
use tatlang.Tree.{NodeType, Ops, Tree, null, node, var, putexpr, op_val, func_val}
use tatlang.Parser.{append_right, plain, get_params, finish_func}
use tatlang.Parser.State.{Token, parsed, bind, ◌>>=◌, pure, check, expect}
use tatlang.Parser.Descent.{get_expr, get_func}
use tatlang.Parser.Descent.Commands.{
  get_scope, get_all_scopes, get_more_scopes, hang, hang_more, unless_no_scope, unless_failed,
  parse_tokens,
}
use tatlang.Parser.Grammar.{tok, sign, name_val, emit_expr, emit_args, tree_expr}
use tatlang.Parser.Steps.{at, check_node, close_step, func_step}
use tatlang.Parser.Ends.{close-Ends, emit_args-Ends, tree_expr-is_null}
use tatlang.Parser.Reads.{get_expr-emit_expr, get_args-emit_args}
use tatlang.Parser.Programs.{
  Stmt, block, assign, print, read, perform, cond, give, define, entry, Stmts, stop, then_,
  loop_type, emit_params, tree_params, emit_stmt, emit_stmts, debt_stmt, debt_stmts, tree_stmt,
  tree_stmts, cost_stmt, cost_stmts,
}
use tatlang.Parser.Programs.Starts.{
  closing, semicolon-Ends, block_step, scopes_step, more_step, assign_step, print_step, read_step,
  perform_step, cond_step, give_step, define_step, entry_step, close_enter, general_step,
}
use tatlang.Parser.Programs.Shape.{tree_stmt-is_null, tree_scopes, tree_scopes-is_null, scope_node}
use tatlang.Parser.Programs.Fuel.{fuel_stmt, fuel_stmts}
use tatlang.Parser.Programs.Parts.{get_params-emit_params, command, compound, after, end_of_more}

module _ {F : Type 0} ⦃d : Double F⦄ where
  mutual
    unfolding emit_stmt debt_stmt tree_stmt cost_stmt

    pub get_scope-emit_stmt :
        (s : Stmt F) (f : ℕ) (ts : List (Token F)) (debt : ℕ)
        → cost_stmt s ≤ f
        → get_scope f (at (emit_stmt s ts) debt) ≡ parsed (tree_stmt s debt) (at ts (debt_stmt s))
    get_scope-emit_stmt (block s ss) zero ts debt h = absurd (omega arith)
    get_scope-emit_stmt (block s ss) (suc f) ts debt h =
        block_step f _ debt
        ∙ check_node (get_all_scopes f true NodeType.close_cbr) _ _ _ _
            (get_all_scopes-emit_stmts s ss true f ts 0 (omega arith)) (tree_scopes-is_null s ss 0)
    get_scope-emit_stmt (assign x e) zero ts debt h = absurd (omega arith)
    get_scope-emit_stmt (assign x e) (suc zero) ts debt h = absurd (omega arith)
    get_scope-emit_stmt (assign x e) (suc (suc f)) ts debt h =
        assign_step f x _ debt
        ∙ command
            (check (get_expr f)
              (λ v. pure (node NodeType.op (op_val Ops.ass) (node var (name_val x) null null) v)))
            debt _ (at (emit_expr e (sign NodeType.semicolon ∷ ts)) 0) ts 0
            (check_node (get_expr f) _ _ _ _
              (get_expr-emit_expr e f (sign NodeType.semicolon ∷ ts) 0 (omega arith)
                (semicolon-Ends ts))
              (tree_expr-is_null e))
            refl
    get_scope-emit_stmt (print e) zero ts debt h = absurd (omega arith)
    get_scope-emit_stmt (print e) (suc zero) ts debt h = absurd (omega arith)
    get_scope-emit_stmt (print e) (suc (suc f)) ts debt h =
        print_step f _ debt
        ∙ command
            (check (get_expr f) (λ v.
              expect NodeType.close_br null
                (pure (node NodeType.std_func (func_val putexpr) null v))))
            debt _ (at (emit_expr e (sign NodeType.close_br ∷ sign NodeType.semicolon ∷ ts)) 0) ts 0
            (check_node (get_expr f) _ _ _ _
                (get_expr-emit_expr e f (sign NodeType.close_br ∷ sign NodeType.semicolon ∷ ts) 0
                  (omega arith) (close-Ends (sign NodeType.semicolon ∷ ts)))
                (tree_expr-is_null e)
              ∙ close_step (node NodeType.std_func (func_val putexpr) null (tree_expr e)) _ 0)
            refl
    get_scope-emit_stmt (read x) zero ts debt h = absurd (omega arith)
    get_scope-emit_stmt (read x) (suc zero) ts debt h = absurd (omega arith)
    get_scope-emit_stmt (read x) (suc (suc f)) ts debt h = read_step f x ts debt
    get_scope-emit_stmt (perform x e args) zero ts debt h = absurd (omega arith)
    get_scope-emit_stmt (perform x e args) (suc zero) ts debt h = absurd (omega arith)
    get_scope-emit_stmt (perform x e args) (suc (suc zero)) ts debt h = absurd (omega arith)
    get_scope-emit_stmt (perform x e args) (suc (suc (suc f))) ts debt h =
        perform_step (suc f) x _ debt
        ∙ command (get_func (suc f) true) debt _
            (at
              (tok NodeType.func (name_val x)
                ∷ sign NodeType.open_br
                ∷ emit_expr e (emit_args args (sign NodeType.semicolon ∷ ts)))
              0)
            ts 0
            (func_step f true x _ 0
              ∙ check_node (get_expr f) _ _ _ _
                  (get_expr-emit_expr e f (emit_args args (sign NodeType.semicolon ∷ ts)) 0
                    (omega arith) (emit_args-Ends args (sign NodeType.semicolon ∷ ts)))
                  (tree_expr-is_null e)
              ∙ ap (λ r. bind r (λ rest. pure (finish_func true (name_val x) (tree_expr e) rest)))
                  (get_args-emit_args args f (sign NodeType.semicolon ∷ ts) 0 (omega arith)))
            refl
    get_scope-emit_stmt (cond b e s) zero ts debt h = absurd (omega arith)
    get_scope-emit_stmt (cond b e s) (suc zero) ts debt h = absurd (omega arith)
    get_scope-emit_stmt (cond b e s) (suc (suc zero)) ts debt h = absurd (omega arith)
    get_scope-emit_stmt (cond b e s) (suc (suc (suc f))) ts debt h =
        cond_step f b _ debt
        ∙ compound
            (check (get_expr f) (λ v.
              expect NodeType.close_br null
                (check (get_scope f) (λ scope. pure (plain (loop_type b) v scope)))))
            debt _ (at (emit_expr e (sign NodeType.close_br ∷ emit_stmt s ts)) 0) _
            (check_node (get_expr f) _ _ _ _
                (get_expr-emit_expr e f (sign NodeType.close_br ∷ emit_stmt s ts) 0 (omega arith)
                  (close-Ends (emit_stmt s ts)))
                (tree_expr-is_null e)
              ∙ close_enter
                  (check (get_scope f) (λ scope. pure (plain (loop_type b) (tree_expr e) scope)))
                  (emit_stmt s ts) 0
              ∙ check_node (get_scope f) _ _ _ _ (get_scope-emit_stmt s f ts 0 (omega arith))
                  (tree_stmt-is_null s 0))
            refl
    get_scope-emit_stmt (give e) zero ts debt h = absurd (omega arith)
    get_scope-emit_stmt (give e) (suc zero) ts debt h = absurd (omega arith)
    get_scope-emit_stmt (give e) (suc (suc f)) ts debt h =
        give_step f _ debt
        ∙ command (get_expr f >>= λ v. pure (plain NodeType.return_node null v)) debt _
            (at (emit_expr e (sign NodeType.semicolon ∷ ts)) 0) ts 0
            (ap (λ r. bind r (λ v. pure (plain NodeType.return_node null v)))
              (get_expr-emit_expr e f (sign NodeType.semicolon ∷ ts) 0 (omega arith)
                (semicolon-Ends ts)))
            refl
    get_scope-emit_stmt (define x p ps s) zero ts debt h = absurd (omega arith)
    get_scope-emit_stmt (define x p ps s) (suc zero) ts debt h = absurd (omega arith)
    get_scope-emit_stmt (define x p ps s) (suc (suc zero)) ts debt h = absurd (omega arith)
    get_scope-emit_stmt (define x p ps s) (suc (suc (suc f))) ts debt h =
        let decl : Tree F → Tree F → Tree F = λ r body.
          node NodeType.func_decl (name_val x)
            (plain NodeType.comma (node var (name_val p) null null) r) body in
        define_step f x p _ debt
        ∙ compound
            (get_params f >>= λ rest.
              unless_failed rest (λ r. get_scope f >>= λ body. pure (decl r body)))
            debt _ (at (emit_params ps (emit_stmt s ts)) 0) _
            (ap
                (λ r.
                  bind r
                    (λ rest. unless_failed rest (λ r. get_scope f >>= λ body. pure (decl r body))))
                (get_params-emit_params ps f (emit_stmt s ts) 0 (omega arith))
              ∙ ap (λ r. bind r (λ body. pure (decl (tree_params ps) body)))
                  (get_scope-emit_stmt s f ts 0 (omega arith)))
            refl
    get_scope-emit_stmt (entry s) zero ts debt h = absurd (omega arith)
    get_scope-emit_stmt (entry s) (suc zero) ts debt h = absurd (omega arith)
    get_scope-emit_stmt (entry s) (suc (suc zero)) ts debt h = absurd (omega arith)
    get_scope-emit_stmt (entry s) (suc (suc (suc f))) ts debt h =
        entry_step f _ debt
        ∙ compound (get_scope f >>= λ body. pure (plain NodeType.main null body)) debt _
            (at (emit_stmt s ts) 0) _
            (ap (λ r. bind r (λ body. pure (plain NodeType.main null body)))
              (get_scope-emit_stmt s f ts 0 (omega arith)))
            refl

    pub get_all_scopes-emit_stmts :
        (s : Stmt F) (ss : Stmts F) (b : Bool) (f : ℕ) (ts : List (Token F)) (debt : ℕ)
        → 1 + cost_stmt s + cost_stmts ss ≤ f
        → get_all_scopes f b
            (closing b)
            (at (emit_stmt s (emit_stmts ss (sign (closing b) ∷ ts))) debt)
          ≡ parsed (tree_scopes s ss debt) (after b ts (debt_stmts ss (debt_stmt s)))
    get_all_scopes-emit_stmts s ss b zero ts debt h = absurd (omega arith)
    get_all_scopes-emit_stmts s ss b (suc f) ts debt h =
        scopes_step f b (closing b) _
        ∙ check_node (get_scope f) _ _ _ _ (get_scope-emit_stmt s f _ debt (omega arith))
            (tree_stmt-is_null s debt)
        ∙ ap (λ r. bind r (λ rest. pure (hang (tree_stmt s debt) rest)))
            (get_more_scopes-emit_stmts ss b f ts (debt_stmt s) (omega arith))

    pub get_more_scopes-emit_stmts :
        (ss : Stmts F) (b : Bool) (f : ℕ) (ts : List (Token F)) (debt : ℕ)
        → cost_stmts ss ≤ f
        → get_more_scopes f b (closing b) (at (emit_stmts ss (sign (closing b) ∷ ts)) debt)
          ≡ parsed (some (tree_stmts ss debt)) (after b ts (debt_stmts ss debt))
    get_more_scopes-emit_stmts stop b zero ts debt h = absurd (omega arith)
    get_more_scopes-emit_stmts stop b (suc f) ts debt h = end_of_more b f ts debt
    get_more_scopes-emit_stmts (then_ s ss) b zero ts debt h = absurd (omega arith)
    get_more_scopes-emit_stmts (then_ s ss) b (suc f) ts debt h =
        more_step b s f _ debt
        ∙ ap
            (λ r. bind r (λ root.
              unless_no_scope root
                (get_more_scopes f b (closing b) >>= λ rest. pure (hang_more root rest))))
            (get_scope-emit_stmt s f _ debt (omega arith))
        ∙ scope_node (tree_stmt s debt) _ _ (tree_stmt-is_null s debt)
        ∙ ap (λ r. bind r (λ rest. pure (hang_more (tree_stmt s debt) rest)))
            (get_more_scopes-emit_stmts ss b f ts (debt_stmt s) (omega arith))

  -- `parse_tokens`, with any debt at first, reads the tokens of every program of the grammar in
  -- Parser/Grammar and Parser/Programs, up to the END behind them, to the tree of the program, and is
  -- left with the debt of the scopes that ended last. This grammar is not all of that of README.md: an
  -- expression is a sum of products or one comparison of two products, and every call and declaration
  -- has an argument.
  pub parse_tokens-emit_stmts :
      (s : Stmt F) (ss : Stmts F) (debt : ℕ) (ts : List (Token F))
      → parse_tokens debt (emit_stmt s (emit_stmts ss (sign NodeType.end ∷ ts)))
        ≡ parsed
            (append_right (tree_stmt s debt) (tree_stmts ss (debt_stmt s)))
            (at (sign NodeType.end ∷ ts) (debt_stmts ss (debt_stmt s)))
  unfolding parse_tokens
  parse_tokens-emit_stmts s ss debt ts =
      let rest = emit_stmts ss (sign NodeType.end ∷ ts) in
      general_step s (10 * length (emit_stmt s rest) + 10) debt rest
      ∙ get_all_scopes-emit_stmts s ss false _ ts debt
          (omega (arith, fuel_stmt s rest, fuel_stmts ss (sign NodeType.end ∷ ts)))
