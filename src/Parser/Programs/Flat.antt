-- ===== src/Parser/Programs/Flat.antt =====
-- The nodes that begin and end scopes; there are none in the tree of an expression.
use tatlang.Prelude.{ℕ, ◌+◌, ◌≡◌, refl, List, [], ◌∷◌, arith}
use tatlang.Double.{Double}
use tatlang.Tree.{Name, NodeType, Tree, null, node}
use tatlang.Parser.{plain}
use tatlang.Parser.Grammar.{
  Atom, paren, number, unary, invoke, ident, Power, power, Powers, no_powers, raised, Product,
  product, Factors, no_factors, factor, Expr, sum, compare, CondOp, gt, lt, ge, le, eq, ne, Terms,
  no_terms, term, Args, no_args, arg, cond_type, tree_atom, tree_power, tree_powers, tree_product,
  tree_factors, tree_expr, tree_terms, tree_args,
}
use tatlang.Parser.Programs.{tree_params}

-- The nodes of a tree that begin a scope, and those that end one.
abbrev one_start : NodeType → ℕ
one_start NodeType.scope_start = 1
one_start _ = 0

abbrev one_end : NodeType → ℕ
one_end NodeType.scope_end = 1
one_end _ = 0

abbrev pub starts : {F : Type 0} → Tree F → ℕ
starts null = 0
starts (node ty v l r) = one_start ty + (starts l + starts r)

abbrev pub ends : {F : Type 0} → Tree F → ℕ
ends null = 0
ends (node ty v l r) = one_end ty + (ends l + ends r)

abbrev pub Flat : {F : Type 0} → Tree F → Type 0
Flat t = (starts t ≡ 0) × (ends t ≡ 0)

pub tree_params-Flat :
    (F : Type 0) ⦃d : Double F⦄ (ps : List Name) → Flat (tree_params {F = F} ⦃d = d⦄ ps)
unfolding tree_params
tree_params-Flat F [] = (refl, refl)
tree_params-Flat F (x ∷ xs) = ground (arith, tree_params-Flat F xs)

module _ {F : Type 0} ⦃d : Double F⦄ where
  cond-Flat : (c : CondOp) (a b : Tree F) → Flat a → Flat b → Flat (plain (cond_type c) a b)
  cond-Flat gt a b h k = ground arith
  cond-Flat lt a b h k = ground arith
  cond-Flat ge a b h k = ground arith
  cond-Flat le a b h k = ground arith
  cond-Flat eq a b h k = ground arith
  cond-Flat ne a b h k = ground arith

  mutual
    unfolding tree_atom

    tree_atom-Flat : (a : Atom F) → Flat (tree_atom a)
    tree_atom-Flat (paren e) = tree_expr-Flat e
    tree_atom-Flat (number x) = (refl, refl)
    tree_atom-Flat (unary o e) = ground (arith, tree_expr-Flat e)
    tree_atom-Flat (invoke x e args) = ground (arith, tree_expr-Flat e, tree_args-Flat args)
    tree_atom-Flat (ident x) = (refl, refl)

    tree_powers-Flat : (p : Powers F) (t : Tree F) → Flat t → Flat (tree_powers t p)
    tree_powers-Flat no_powers t h = h
    tree_powers-Flat (raised a p) t h = tree_powers-Flat p _ (ground (arith, h, tree_atom-Flat a))

    tree_power-Flat : (p : Power F) → Flat (tree_power p)
    tree_power-Flat (power a p) = tree_powers-Flat p (tree_atom a) (tree_atom-Flat a)

    tree_factors-Flat : (fs : Factors F) (t : Tree F) → Flat t → Flat (tree_factors t fs)
    tree_factors-Flat no_factors t h = h
    tree_factors-Flat (factor o p fs) t h =
        tree_factors-Flat fs _ (ground (arith, h, tree_power-Flat p))

    tree_product-Flat : (p : Product F) → Flat (tree_product p)
    tree_product-Flat (product p fs) = tree_factors-Flat fs (tree_power p) (tree_power-Flat p)

    tree_terms-Flat : (xs : Terms F) (t : Tree F) → Flat t → Flat (tree_terms t xs)
    tree_terms-Flat no_terms t h = h
    tree_terms-Flat (term o p xs) t h =
        tree_terms-Flat xs _ (ground (arith, h, tree_product-Flat p))

    pub tree_expr-Flat : (e : Expr F) → Flat (tree_expr e)
    tree_expr-Flat (sum p xs) = tree_terms-Flat xs (tree_product p) (tree_product-Flat p)
    tree_expr-Flat (compare p c q) =
        cond-Flat c (tree_product p) (tree_product q) (tree_product-Flat p) (tree_product-Flat q)

    pub tree_args-Flat : (args : Args F) → Flat (tree_args args)
    tree_args-Flat no_args = (refl, refl)
    tree_args-Flat (arg e args) = ground (arith, tree_expr-Flat e, tree_args-Flat args)
