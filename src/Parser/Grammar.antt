-- ===== src/Parser/Grammar.antt =====
-- The grammar of the programs that the parser reads: that of README.md, with powers, in which an
-- expression is a sum of products or one comparison of two products (README.md has chains and sums
-- of comparisons, too), and with one argument at least in a call. These are its phrases, the tokens of a phrase in front of any others, and the
-- tree that the phrase stands for.
use tatlang.Prelude.{ℕ, ◌+◌, some, List, ◌∷◌}
use tatlang.Double.{Double}
use tatlang.Tree.{
  Name, NodeType, NodeValue, Ops, Tree, null, node, num, var, num_val, op_val, var_val,
}
use tatlang.Parser.State.{Token}
use tatlang.Parser.{plain}

pub data AddOp : Type 0 where
  plus minus : AddOp

pub data MulOp : Type 0 where
  times over : MulOp

pub data UnaryOp : Type 0 where
  logarithm sine cosine square_root : UnaryOp

-- `CondOp` is one of the six comparisons.
pub data CondOp : Type 0 where
  gt lt ge le eq ne : CondOp

abbrev pub add_op : AddOp → Ops
add_op plus = Ops.add
add_op minus = Ops.sub

abbrev pub mul_op : MulOp → Ops
mul_op times = Ops.mul
mul_op over = Ops.div

abbrev pub unary_op : UnaryOp → Ops
unary_op logarithm = Ops.ln
unary_op sine = Ops.sin
unary_op cosine = Ops.cos
unary_op square_root = Ops.sqrt

abbrev pub cond_type : CondOp → NodeType
cond_type gt = NodeType.above
cond_type lt = NodeType.below
cond_type ge = NodeType.above_equal
cond_type le = NodeType.below_equal
cond_type eq = NodeType.equal
cond_type ne = NodeType.not_equal

-- Expr, Mul and Par of the grammar, with the level of powers between the last two. A list of
-- operators and operands follows the first operand.
mutual
  pub data Atom (F : Type 0) : Type 0 where
    paren : Expr F → Atom F
    number : F → Atom F
    unary : UnaryOp → Expr F → Atom F
    invoke : Name → Expr F → Args F → Atom F
    ident : Name → Atom F

  pub data Power (F : Type 0) : Type 0 where
    power : Atom F → Powers F → Power F

  pub data Powers (F : Type 0) : Type 0 where
    no_powers : Powers F
    raised : Atom F → Powers F → Powers F

  pub data Product (F : Type 0) : Type 0 where
    product : Power F → Factors F → Product F

  pub data Factors (F : Type 0) : Type 0 where
    no_factors : Factors F
    factor : MulOp → Power F → Factors F → Factors F

  pub data Expr (F : Type 0) : Type 0 where
    sum : Product F → Terms F → Expr F
    compare : Product F → CondOp → Product F → Expr F

  pub data Terms (F : Type 0) : Type 0 where
    no_terms : Terms F
    term : AddOp → Product F → Terms F → Terms F

  pub data Args (F : Type 0) : Type 0 where
    no_args : Args F
    arg : Expr F → Args F → Args F

module _ {F : Type 0} ⦃d : Double F⦄ where
  -- A token of a type, with its value.
  abbrev pub tok : NodeType → NodeValue F → Token F
  tok ty v = record { type = ty; value = v }

  abbrev pub sign : NodeType → Token F
  sign ty = tok ty (num_val (d.of_nat 0))

  abbrev pub name_val : Name → NodeValue F
  name_val x = var_val (some x)

  unfoldable mutual
    pub emit_atom : Atom F → List (Token F) → List (Token F)
    emit_atom (paren e) ts = sign NodeType.open_br ∷ emit_expr e (sign NodeType.close_br ∷ ts)
    emit_atom (number x) ts = tok num (num_val x) ∷ ts
    emit_atom (unary o e) ts =
        tok NodeType.unr_op (op_val (unary_op o))
        ∷ sign NodeType.open_br
        ∷ emit_expr e (sign NodeType.close_br ∷ ts)
    emit_atom (invoke x e args) ts =
        tok NodeType.func (name_val x) ∷ sign NodeType.open_br ∷ emit_expr e (emit_args args ts)
    emit_atom (ident x) ts = tok var (name_val x) ∷ ts

    pub emit_power : Power F → List (Token F) → List (Token F)
    emit_power (power a p) ts = emit_atom a (emit_powers p ts)

    pub emit_powers : Powers F → List (Token F) → List (Token F)
    emit_powers no_powers ts = ts
    emit_powers (raised a p) ts = tok NodeType.op (op_val Ops.pow) ∷ emit_atom a (emit_powers p ts)

    pub emit_product : Product F → List (Token F) → List (Token F)
    emit_product (product p fs) ts = emit_power p (emit_factors fs ts)

    pub emit_factors : Factors F → List (Token F) → List (Token F)
    emit_factors no_factors ts = ts
    emit_factors (factor o p fs) ts =
        tok NodeType.op (op_val (mul_op o)) ∷ emit_power p (emit_factors fs ts)

    pub emit_expr : Expr F → List (Token F) → List (Token F)
    emit_expr (sum p xs) ts = emit_product p (emit_terms xs ts)
    emit_expr (compare p c q) ts = emit_product p (sign (cond_type c) ∷ emit_product q ts)

    pub emit_terms : Terms F → List (Token F) → List (Token F)
    emit_terms no_terms ts = ts
    emit_terms (term o p xs) ts =
        tok NodeType.op (op_val (add_op o)) ∷ emit_product p (emit_terms xs ts)

    -- The arguments behind the first, and the closing bracket.
    pub emit_args : Args F → List (Token F) → List (Token F)
    emit_args no_args ts = sign NodeType.close_br ∷ ts
    emit_args (arg e as') ts = sign NodeType.comma ∷ emit_expr e (emit_args as' ts)

  -- Operators of one level group to the left.
  unfoldable mutual
    pub tree_atom : Atom F → Tree F
    tree_atom (paren e) = tree_expr e
    tree_atom (number x) = node num (num_val x) null null
    tree_atom (unary o e) = node NodeType.unr_op (op_val (unary_op o)) null (tree_expr e)
    tree_atom (invoke x e args) =
        node NodeType.func (name_val x) (plain NodeType.comma (tree_expr e) (tree_args args)) null
    tree_atom (ident x) = node var (name_val x) null null

    pub tree_power : Power F → Tree F
    tree_power (power a p) = tree_powers (tree_atom a) p

    pub tree_powers : Tree F → Powers F → Tree F
    tree_powers t no_powers = t
    tree_powers t (raised a p) = tree_powers (node NodeType.op (op_val Ops.pow) t (tree_atom a)) p

    pub tree_product : Product F → Tree F
    tree_product (product p fs) = tree_factors (tree_power p) fs

    pub tree_factors : Tree F → Factors F → Tree F
    tree_factors t no_factors = t
    tree_factors t (factor o p fs) =
        tree_factors (node NodeType.op (op_val (mul_op o)) t (tree_power p)) fs

    pub tree_expr : Expr F → Tree F
    tree_expr (sum p xs) = tree_terms (tree_product p) xs
    tree_expr (compare p c q) = plain (cond_type c) (tree_product p) (tree_product q)

    pub tree_terms : Tree F → Terms F → Tree F
    tree_terms t no_terms = t
    tree_terms t (term o p xs) =
        tree_terms (node NodeType.op (op_val (add_op o)) t (tree_product p)) xs

    pub tree_args : Args F → Tree F
    tree_args no_args = null
    tree_args (arg e as') = plain NodeType.comma (tree_expr e) (tree_args as')

-- Fuel that is enough to read a phrase.
unfoldable mutual
  pub cost_atom : {F : Type 0} → Atom F → ℕ
  cost_atom (paren e) = 1 + cost_expr e
  cost_atom (number x) = 1
  cost_atom (unary o e) = 2 + cost_expr e
  cost_atom (invoke x e args) = 2 + cost_expr e + cost_args args
  cost_atom (ident x) = 1

  pub cost_power : {F : Type 0} → Power F → ℕ
  cost_power (power a p) = 1 + cost_atom a + cost_powers p

  pub cost_powers : {F : Type 0} → Powers F → ℕ
  cost_powers no_powers = 1
  cost_powers (raised a p) = 1 + cost_atom a + cost_powers p

  pub cost_product : {F : Type 0} → Product F → ℕ
  cost_product (product p fs) = 1 + cost_power p + cost_factors fs

  pub cost_factors : {F : Type 0} → Factors F → ℕ
  cost_factors no_factors = 1
  cost_factors (factor o p fs) = 1 + cost_power p + cost_factors fs

  pub cost_expr : {F : Type 0} → Expr F → ℕ
  cost_expr (sum p xs) = 2 + cost_product p + cost_terms xs
  cost_expr (compare p c q) = 2 + cost_product p + cost_product q

  pub cost_terms : {F : Type 0} → Terms F → ℕ
  cost_terms no_terms = 1
  cost_terms (term o p xs) = 1 + cost_product p + cost_terms xs

  pub cost_args : {F : Type 0} → Args F → ℕ
  cost_args no_args = 1
  cost_args (arg e as') = 1 + cost_expr e + cost_args as'
