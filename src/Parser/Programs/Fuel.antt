-- ===== src/Parser/Programs/Fuel.antt =====
-- The fuel of `parse_tokens` is enough for every phrase of the grammar.
use tatlang.Prelude.{◌+◌, ◌*◌, ◌≤◌, List, [], ◌∷◌, length, arith}
use tatlang.Double.{Double}
use tatlang.Tree.{Name, NodeType}
use tatlang.Parser.State.{Token}
use tatlang.Parser.Grammar.{
  Atom, paren, number, unary, invoke, ident, Power, power, Powers, no_powers, raised, Product,
  product, Factors, no_factors, factor, Expr, sum, compare, Terms, no_terms, term, Args, no_args,
  arg, sign, cond_type, emit_atom, emit_power, emit_powers, emit_product, emit_factors, emit_expr,
  emit_terms, emit_args, cost_atom, cost_power, cost_powers, cost_product, cost_factors, cost_expr,
  cost_terms, cost_args,
}
use tatlang.Parser.Programs.{
  Stmt, block, assign, print, read, perform, cond, give, define, entry, Stmts, stop, then_,
  emit_params, emit_stmt, emit_stmts, cost_params, cost_stmt, cost_stmts,
}

module _ {F : Type 0} ⦃d : Double F⦄ where
  mutual
    unfolding emit_atom cost_atom

    pub fuel_atom :
        (a : Atom F) (ts : List (Token F))
        → cost_atom a + 9 + 10 * length ts ≤ 10 * length (emit_atom a ts)
    fuel_atom (paren e) ts = omega (arith, fuel_expr e (sign NodeType.close_br ∷ ts))
    fuel_atom (number x) ts = omega arith
    fuel_atom (unary o e) ts = omega (arith, fuel_expr e (sign NodeType.close_br ∷ ts))
    fuel_atom (invoke x e as') ts = omega (arith, fuel_expr e (emit_args as' ts), fuel_args as' ts)
    fuel_atom (ident x) ts = omega arith

    pub fuel_powers :
        (p : Powers F) (ts : List (Token F))
        → cost_powers p + 10 * length ts ≤ 10 * length (emit_powers p ts) + 1
    fuel_powers no_powers ts = omega arith
    fuel_powers (raised a p) ts = omega (arith, fuel_atom a (emit_powers p ts), fuel_powers p ts)

    pub fuel_power :
        (p : Power F) (ts : List (Token F))
        → cost_power p + 7 + 10 * length ts ≤ 10 * length (emit_power p ts)
    fuel_power (power a p) ts = omega (arith, fuel_atom a (emit_powers p ts), fuel_powers p ts)

    pub fuel_factors :
        (fs : Factors F) (ts : List (Token F))
        → cost_factors fs + 10 * length ts ≤ 10 * length (emit_factors fs ts) + 1
    fuel_factors no_factors ts = omega arith
    fuel_factors (factor o p fs) ts =
        omega (arith, fuel_power p (emit_factors fs ts), fuel_factors fs ts)

    pub fuel_product :
        (p : Product F) (ts : List (Token F))
        → cost_product p + 5 + 10 * length ts ≤ 10 * length (emit_product p ts)
    fuel_product (product p fs) ts =
        omega (arith, fuel_power p (emit_factors fs ts), fuel_factors fs ts)

    pub fuel_terms :
        (xs : Terms F) (ts : List (Token F))
        → cost_terms xs + 10 * length ts ≤ 10 * length (emit_terms xs ts) + 1
    fuel_terms no_terms ts = omega arith
    fuel_terms (term o p xs) ts = omega (arith, fuel_product p (emit_terms xs ts), fuel_terms xs ts)

    pub fuel_expr :
        (e : Expr F) (ts : List (Token F))
        → cost_expr e + 2 + 10 * length ts ≤ 10 * length (emit_expr e ts)
    fuel_expr (sum p xs) ts = omega (arith, fuel_product p (emit_terms xs ts), fuel_terms xs ts)
    fuel_expr (compare p c q) ts =
        omega (arith, fuel_product p (sign (cond_type c) ∷ emit_product q ts), fuel_product q ts)

    pub fuel_args :
        (as' : Args F) (ts : List (Token F))
        → cost_args as' + 10 * length ts ≤ 10 * length (emit_args as' ts)
    fuel_args no_args ts = omega arith
    fuel_args (arg e as') ts = omega (arith, fuel_expr e (emit_args as' ts), fuel_args as' ts)

  fuel_params :
      (ps : List Name) (ts : List (Token F))
      → cost_params ps + 10 * length ts ≤ 10 * length (emit_params ps ts)
  unfolding emit_params cost_params
  fuel_params [] ts = omega arith
  fuel_params (x ∷ xs) ts = omega (arith, fuel_params xs ts)

  mutual
    unfolding emit_stmt cost_stmt

    pub fuel_stmt :
        (s : Stmt F) (ts : List (Token F))
        → cost_stmt s + 1 + 10 * length ts ≤ 10 * length (emit_stmt s ts)
    fuel_stmt (block s ss) ts = omega (
      arith,
      fuel_stmt s (emit_stmts ss (sign NodeType.close_cbr ∷ ts)),
      fuel_stmts ss (sign NodeType.close_cbr ∷ ts),
    )
    fuel_stmt (assign x e) ts = omega (arith, fuel_expr e (sign NodeType.semicolon ∷ ts))
    fuel_stmt (print e) ts =
        omega (arith, fuel_expr e (sign NodeType.close_br ∷ sign NodeType.semicolon ∷ ts))
    fuel_stmt (read x) ts = omega arith
    fuel_stmt (perform x e as') ts = omega (
      arith,
      fuel_expr e (emit_args as' (sign NodeType.semicolon ∷ ts)),
      fuel_args as' (sign NodeType.semicolon ∷ ts),
    )
    fuel_stmt (cond b e s) ts =
        omega (arith, fuel_expr e (sign NodeType.close_br ∷ emit_stmt s ts), fuel_stmt s ts)
    fuel_stmt (give e) ts = omega (arith, fuel_expr e (sign NodeType.semicolon ∷ ts))
    fuel_stmt (define x p ps s) ts = omega (arith, fuel_params ps (emit_stmt s ts), fuel_stmt s ts)
    fuel_stmt (entry s) ts = omega (arith, fuel_stmt s ts)

    pub fuel_stmts :
        (ss : Stmts F) (ts : List (Token F))
        → cost_stmts ss + 10 * length ts ≤ 10 * length (emit_stmts ss ts) + 1
    fuel_stmts stop ts = omega arith
    fuel_stmts (then_ s ss) ts = omega (arith, fuel_stmt s (emit_stmts ss ts), fuel_stmts ss ts)
