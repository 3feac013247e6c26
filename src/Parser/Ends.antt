-- ===== src/Parser/Ends.antt =====
-- What may follow a phrase of an expression, and the trees of such phrases: they are not NULL.
use tatlang.Prelude.{◌≡◌, refl, false, List, ◌∷◌}
use tatlang.Double.{Double}
use tatlang.Tree.{NodeType, Tree, is_null, is_type, is_op}
use tatlang.Parser.{is_cond}
use tatlang.Parser.State.{Token}
use tatlang.Parser.Grammar.{
  plus, minus, times, over, CondOp, gt, lt, ge, le, eq, ne, Atom, paren, number, unary, invoke,
  ident, Power, power, Powers, no_powers, raised, Product, product, Factors, no_factors, factor,
  Expr, sum, compare, Terms, no_terms, term, Args, no_args, arg, cond_type, sign, emit_factors,
  emit_terms, emit_args, tree_atom, tree_power, tree_powers, tree_product, tree_factors, tree_expr,
  tree_terms,
}
use tatlang.Parser.Steps.{EndsPower, EndsProduct, EndsExpr}

-- The first of the tokens can follow an expression.
abbrev pub Ends : {F : Type 0} → List (Token F) → Type 0
Ends ts = EndsPower ts × EndsProduct ts × EndsExpr ts

module _ {F : Type 0} ⦃d : Double F⦄ where
  pub emit_factors-EndsPower :
      (fs : Factors F) (ts : List (Token F)) → EndsPower ts → EndsPower (emit_factors fs ts)
  unfolding emit_factors is_type is_op
  emit_factors-EndsPower no_factors ts h = h
  emit_factors-EndsPower (factor times p fs) ts h = refl
  emit_factors-EndsPower (factor over p fs) ts h = refl

  pub emit_terms-EndsPower :
      (xs : Terms F) (ts : List (Token F)) → EndsPower ts → EndsPower (emit_terms xs ts)
  unfolding emit_terms is_type is_op
  emit_terms-EndsPower no_terms ts h = h
  emit_terms-EndsPower (term plus p xs) ts h = refl
  emit_terms-EndsPower (term minus p xs) ts h = refl

  pub emit_terms-EndsProduct :
      (xs : Terms F) (ts : List (Token F)) → EndsProduct ts → EndsProduct (emit_terms xs ts)
  unfolding emit_terms is_type is_op
  emit_terms-EndsProduct no_terms ts h = h
  emit_terms-EndsProduct (term plus p xs) ts h = refl
  emit_terms-EndsProduct (term minus p xs) ts h = refl

  pub compare-EndsPower : (c : CondOp) (ts : List (Token F)) → EndsPower (sign (cond_type c) ∷ ts)
  unfolding is_type
  compare-EndsPower gt ts = refl
  compare-EndsPower lt ts = refl
  compare-EndsPower ge ts = refl
  compare-EndsPower le ts = refl
  compare-EndsPower eq ts = refl
  compare-EndsPower ne ts = refl

  pub compare-EndsProduct :
      (c : CondOp) (ts : List (Token F)) → EndsProduct (sign (cond_type c) ∷ ts)
  unfolding is_type
  compare-EndsProduct gt ts = refl
  compare-EndsProduct lt ts = refl
  compare-EndsProduct ge ts = refl
  compare-EndsProduct le ts = refl
  compare-EndsProduct eq ts = refl
  compare-EndsProduct ne ts = refl

  pub close-Ends : (ts : List (Token F)) → Ends (sign NodeType.close_br ∷ ts)
  unfolding is_type is_cond
  close-Ends ts = (refl, refl, (refl, refl))

  pub emit_args-Ends : (as' : Args F) (ts : List (Token F)) → Ends (emit_args as' ts)
  unfolding emit_args is_type is_cond
  emit_args-Ends no_args ts = (refl, refl, (refl, refl))
  emit_args-Ends (arg e as') ts = (refl, refl, (refl, refl))

  pub tree_powers-is_null :
      (p : Powers F) (t : Tree F) → is_null t ≡ false → is_null (tree_powers t p) ≡ false
  unfolding tree_powers
  tree_powers-is_null no_powers t h = h
  tree_powers-is_null (raised a p) t h = tree_powers-is_null p _ refl

  pub tree_factors-is_null :
      (fs : Factors F) (t : Tree F) → is_null t ≡ false → is_null (tree_factors t fs) ≡ false
  unfolding tree_factors
  tree_factors-is_null no_factors t h = h
  tree_factors-is_null (factor o p fs) t h = tree_factors-is_null fs _ refl

  pub tree_terms-is_null :
      (xs : Terms F) (t : Tree F) → is_null t ≡ false → is_null (tree_terms t xs) ≡ false
  unfolding tree_terms
  tree_terms-is_null no_terms t h = h
  tree_terms-is_null (term o p xs) t h = tree_terms-is_null xs _ refl

  mutual
    unfolding tree_atom

    pub tree_atom-is_null : (a : Atom F) → is_null (tree_atom a) ≡ false
    tree_atom-is_null (paren e) = tree_expr-is_null e
    tree_atom-is_null (number x) = refl
    tree_atom-is_null (unary o e) = refl
    tree_atom-is_null (invoke x e as') = refl
    tree_atom-is_null (ident x) = refl

    pub tree_power-is_null : (p : Power F) → is_null (tree_power p) ≡ false
    tree_power-is_null (power a p) = tree_powers-is_null p (tree_atom a) (tree_atom-is_null a)

    pub tree_product-is_null : (p : Product F) → is_null (tree_product p) ≡ false
    tree_product-is_null (product p fs) =
        tree_factors-is_null fs (tree_power p) (tree_power-is_null p)

    pub tree_expr-is_null : (e : Expr F) → is_null (tree_expr e) ≡ false
    tree_expr-is_null (sum p xs) = tree_terms-is_null xs (tree_product p) (tree_product-is_null p)
    tree_expr-is_null (compare p c q) = refl
