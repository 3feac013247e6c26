-- ===== src/Parser/Reads.antt =====
-- The functions of expressions of the descent read every phrase of the grammar of expressions.
use tatlang.Prelude.{ℕ, zero, suc, ◌+◌, ◌≤◌, ◌≡◌, ap, ◌∙◌, false, some, List, arith}
use tatlang.Double.{Double}
use tatlang.Tree.{Tree, null, node, NodeType, op_val}
use tatlang.Parser.{before, finish_func}
use tatlang.Parser.State.{Token, parsed, pure, ◌>>=◌, bind}
use tatlang.Parser.Descent.{
  get_expr, get_expr_tail, get_sum, get_mul, get_product, get_pow, get_power, get_par, get_args,
}
use tatlang.Parser.Grammar.{
  Atom, paren, number, unary, invoke, ident, Power, power, Powers, no_powers, raised, Product,
  product, Factors, no_factors, factor, Expr, sum, compare, Terms, no_terms, term, Args, no_args,
  arg, unary_op, name_val, emit_atom, emit_power, emit_powers, emit_product, emit_factors,
  emit_expr, emit_terms, emit_args, tree_atom, tree_power, tree_powers, tree_product, tree_factors,
  tree_expr, tree_terms, tree_args, cost_atom, cost_power, cost_powers, cost_product, cost_factors,
  cost_expr, cost_terms, cost_args,
}
use tatlang.Parser.Steps.{
  at, EndsPower, EndsProduct, check_node, power_end, product_end, expr_end, sum_end, power_step,
  product_step, sum_step, sum_enter, compare_step, paren_step, close_step, number_step, ident_step,
  unary_step, func_enter, func_step, args_end, args_step, expr_step, mul_step, pow_step,
}
use tatlang.Parser.Ends.{
  Ends, emit_factors-EndsPower, emit_terms-EndsPower, emit_terms-EndsProduct, compare-EndsPower,
  compare-EndsProduct, close-Ends, emit_args-Ends, tree_atom-is_null, tree_power-is_null,
  tree_product-is_null, tree_expr-is_null,
}

module _ {F : Type 0} ⦃d : Double F⦄ where
  mutual
    unfolding emit_atom tree_atom cost_atom

    pub get_par-emit_atom :
        (a : Atom F) (f : ℕ) (ts : List (Token F)) (debt : ℕ)
        → cost_atom a ≤ f
        → get_par f (at (emit_atom a ts) debt) ≡ parsed (tree_atom a) (at ts debt)
    get_par-emit_atom (paren e) zero ts debt h = absurd (omega arith)
    get_par-emit_atom (paren e) (suc f) ts debt h =
        paren_step f _ debt
        ∙ check_node (get_expr f) _ _ _ _
            (get_expr-emit_expr e f _ debt (omega arith) (close-Ends ts)) (tree_expr-is_null e)
        ∙ close_step (tree_expr e) ts debt
    get_par-emit_atom (number x) zero ts debt h = absurd (omega arith)
    get_par-emit_atom (number x) (suc f) ts debt h = number_step f x ts debt
    get_par-emit_atom (unary o e) zero ts debt h = absurd (omega arith)
    get_par-emit_atom (unary o e) (suc zero) ts debt h = absurd (omega arith)
    get_par-emit_atom (unary o e) (suc (suc f)) ts debt h =
        unary_step f (unary_op o) _ debt
        ∙ check_node (get_expr f) _ _ _ _
            (get_expr-emit_expr e f _ debt (omega arith) (close-Ends ts)) (tree_expr-is_null e)
        ∙ close_step (node NodeType.unr_op (op_val (unary_op o)) null (tree_expr e)) ts debt
    get_par-emit_atom (invoke x e as') zero ts debt h = absurd (omega arith)
    get_par-emit_atom (invoke x e as') (suc zero) ts debt h = absurd (omega arith)
    get_par-emit_atom (invoke x e as') (suc (suc f)) ts debt h =
        func_enter (suc f) x _ debt
        ∙ func_step f false x _ debt
        ∙ check_node (get_expr f) _ _ _ _
            (get_expr-emit_expr e f _ debt (omega arith) (emit_args-Ends as' ts))
            (tree_expr-is_null e)
        ∙ ap (λ r. bind r (λ rest. pure (finish_func false (name_val x) (tree_expr e) rest)))
            (get_args-emit_args as' f ts debt (omega arith))
    get_par-emit_atom (ident x) zero ts debt h = absurd (omega arith)
    get_par-emit_atom (ident x) (suc f) ts debt h = ident_step f x ts debt

    pub get_power-emit_powers :
        (p : Powers F) (t : Tree F) (f : ℕ) (ts : List (Token F)) (debt : ℕ)
        → cost_powers p ≤ f
        → EndsPower ts
        → get_power f t (at (emit_powers p ts) debt) ≡ parsed (tree_powers t p) (at ts debt)
    get_power-emit_powers no_powers t zero ts debt h ends = absurd (omega arith)
    get_power-emit_powers no_powers t (suc f) ts debt h ends = power_end f t ts debt ends
    get_power-emit_powers (raised a p) t zero ts debt h ends = absurd (omega arith)
    get_power-emit_powers (raised a p) t (suc f) ts debt h ends =
        power_step f t _ debt
        ∙ check_node (get_par f) _ _ _ _ (get_par-emit_atom a f _ debt (omega arith))
            (tree_atom-is_null a)
        ∙ get_power-emit_powers p _ f ts debt (omega arith) ends

    pub get_pow-emit_power :
        (p : Power F) (f : ℕ) (ts : List (Token F)) (debt : ℕ)
        → cost_power p ≤ f
        → EndsPower ts
        → get_pow f (at (emit_power p ts) debt) ≡ parsed (tree_power p) (at ts debt)
    get_pow-emit_power (power a p) zero ts debt h ends = absurd (omega arith)
    get_pow-emit_power (power a p) (suc f) ts debt h ends =
        pow_step f _
        ∙ check_node (get_par f) _ _ _ _ (get_par-emit_atom a f _ debt (omega arith))
            (tree_atom-is_null a)
        ∙ get_power-emit_powers p _ f ts debt (omega arith) ends

    pub get_product-emit_factors :
        (fs : Factors F) (t : Tree F) (f : ℕ) (ts : List (Token F)) (debt : ℕ)
        → cost_factors fs ≤ f
        → EndsPower ts
        → EndsProduct ts
        → get_product f t (at (emit_factors fs ts) debt) ≡ parsed (tree_factors t fs) (at ts debt)
    get_product-emit_factors no_factors t zero ts debt h endp ends = absurd (omega arith)
    get_product-emit_factors no_factors t (suc f) ts debt h endp ends = product_end f t ts debt ends
    get_product-emit_factors (factor o p fs) t zero ts debt h endp ends = absurd (omega arith)
    get_product-emit_factors (factor o p fs) t (suc f) ts debt h endp ends =
        product_step f o t _ debt
        ∙ check_node (get_pow f) _ _ _ _
            (get_pow-emit_power p f _ debt (omega arith) (emit_factors-EndsPower fs ts endp))
            (tree_power-is_null p)
        ∙ get_product-emit_factors fs _ f ts debt (omega arith) endp ends

    pub get_mul-emit_product :
        (p : Product F) (f : ℕ) (ts : List (Token F)) (debt : ℕ)
        → cost_product p ≤ f
        → EndsPower ts
        → EndsProduct ts
        → get_mul f (at (emit_product p ts) debt) ≡ parsed (tree_product p) (at ts debt)
    get_mul-emit_product (product p fs) zero ts debt h endp ends = absurd (omega arith)
    get_mul-emit_product (product p fs) (suc f) ts debt h endp ends =
        mul_step f _
        ∙ check_node (get_pow f) _ _ _ _
            (get_pow-emit_power p f _ debt (omega arith) (emit_factors-EndsPower fs ts endp))
            (tree_power-is_null p)
        ∙ get_product-emit_factors fs _ f ts debt (omega arith) endp ends

    pub get_sum-emit_terms :
        (xs : Terms F) (t : Tree F) (f : ℕ) (ts : List (Token F)) (debt : ℕ)
        → cost_terms xs ≤ f
        → Ends ts
        → get_sum f t (at (emit_terms xs ts) debt) ≡ parsed (tree_terms t xs) (at ts debt)
    get_sum-emit_terms no_terms t zero ts debt h ends = absurd (omega arith)
    get_sum-emit_terms no_terms t (suc f) ts debt h ends = sum_end f t ts debt ends.2
    get_sum-emit_terms (term o p xs) t zero ts debt h ends = absurd (omega arith)
    get_sum-emit_terms (term o p xs) t (suc f) ts debt h ends =
        sum_step f o t _ debt
        ∙ check_node (get_mul f) _ _ _ _
            (get_mul-emit_product p f _ debt (omega arith) (emit_terms-EndsPower xs ts ends.0)
              (emit_terms-EndsProduct xs ts ends.1))
            (tree_product-is_null p)
        ∙ get_sum-emit_terms xs _ f ts debt (omega arith) ends

    pub get_expr_tail-emit_terms :
        (xs : Terms F) (t : Tree F) (f : ℕ) (ts : List (Token F)) (debt : ℕ)
        → 1 + cost_terms xs ≤ f
        → Ends ts
        → get_expr_tail f t (at (emit_terms xs ts) debt) ≡ parsed (tree_terms t xs) (at ts debt)
    get_expr_tail-emit_terms xs t zero ts debt h ends = absurd (omega arith)
    get_expr_tail-emit_terms no_terms t (suc zero) ts debt h ends = absurd (omega arith)
    get_expr_tail-emit_terms no_terms t (suc (suc f)) ts debt h ends = expr_end f t ts debt ends.2
    get_expr_tail-emit_terms (term o p xs) t (suc f) ts debt h ends =
        sum_enter f o t _ debt ∙ get_sum-emit_terms (term o p xs) t f ts debt (omega arith) ends

    pub get_expr-emit_expr :
        (e : Expr F) (f : ℕ) (ts : List (Token F)) (debt : ℕ)
        → cost_expr e ≤ f
        → Ends ts
        → get_expr f (at (emit_expr e ts) debt) ≡ parsed (tree_expr e) (at ts debt)
    get_expr-emit_expr (sum p xs) zero ts debt h ends = absurd (omega arith)
    get_expr-emit_expr (compare p c q) zero ts debt h ends = absurd (omega arith)
    get_expr-emit_expr (sum p xs) (suc f) ts debt h ends =
        expr_step f _
        ∙ check_node (get_mul f) _ _ _ _
            (get_mul-emit_product p f _ debt (omega arith) (emit_terms-EndsPower xs ts ends.0)
              (emit_terms-EndsProduct xs ts ends.1))
            (tree_product-is_null p)
        ∙ get_expr_tail-emit_terms xs _ f ts debt (omega arith) ends
    get_expr-emit_expr (compare p c q) (suc zero) ts debt h ends = absurd (omega arith)
    get_expr-emit_expr (compare p c q) (suc (suc f)) ts debt h ends =
        expr_step (suc f) _
        ∙ check_node (get_mul (suc f)) _ _ _ _
            (get_mul-emit_product p (suc f) _ debt (omega arith)
              (compare-EndsPower c (emit_product q ts)) (compare-EndsProduct c (emit_product q ts)))
            (tree_product-is_null p)
        ∙ compare_step f c _ _ debt
        ∙ check_node (get_mul f) _ _ _ _
            (get_mul-emit_product q f ts debt (omega arith) ends.0 ends.1) (tree_product-is_null q)

    pub get_args-emit_args :
        (as' : Args F) (f : ℕ) (ts : List (Token F)) (debt : ℕ)
        → cost_args as' ≤ f
        → get_args f (at (emit_args as' ts) debt) ≡ parsed (some (tree_args as')) (at ts debt)
    get_args-emit_args no_args zero ts debt h = absurd (omega arith)
    get_args-emit_args no_args (suc f) ts debt h = args_end f ts debt
    get_args-emit_args (arg e as') zero ts debt h = absurd (omega arith)
    get_args-emit_args (arg e as') (suc f) ts debt h =
        args_step f _ debt
        ∙ ap (λ r. bind r (λ expr. get_args f >>= λ rest. pure (before expr rest)))
            (get_expr-emit_expr e f _ debt (omega arith) (emit_args-Ends as' ts))
        ∙ ap (λ r. bind r (λ rest. pure (before (tree_expr e) rest)))
            (get_args-emit_args as' f ts debt (omega arith))
