-- ===== src/Midend/Rewriting.antt =====
-- The rules by which the optimizer rewrites a tree, described without its functions: what is
-- computed from two literals, and which operators fall away beside a literal 0 or 1.
pub mod Rules
pub mod Passes
use tatlang.Prelude.{ℕ, ◌≡◌, true, false, Option, some, if◌then◌else◌}
use tatlang.Double.{Double}
use tatlang.Tree.{Name, NodeType, NodeValue, Ops, Tree, null, node, num, var, num_val, var_eq}
use tatlang.Midend.{is_const, max_var_size}

module _ {F : Type 0} ⦃d : Double F⦄ where
  abbrev pub literal : F → Tree F
  literal x = node num (num_val x) null null

  -- A literal that the comparison of doubles takes for the number `k`.
  pub record IsLiteral (k : ℕ) (t : Tree F) : Type 0 where
    pub value : NodeValue F
    pub left : Tree F
    pub right : Tree F
    pub is_num : t ≡ node num value left right
    pub equals : is_const k value.num_value ≡ true

  pub record IsVariable (x : Option Name) (t : Tree F) : Type 0 where
    pub value : NodeValue F
    pub left : Tree F
    pub right : Tree F
    pub is_var : t ≡ node var value left right
    pub named : value.var_value ≡ x

  -- What takes the place of an operator with its two operands.
  pub data Rule : Ops → Tree F → Tree F → Tree F → Type 0 where
    zero_mul : (l r : Tree F) → IsLiteral 0 l → Rule Ops.mul l r (literal (d.of_nat 0))
    zero_div : (l r : Tree F) → IsLiteral 0 l → Rule Ops.div l r (literal (d.of_nat 0))
    zero_pow : (l r : Tree F) → IsLiteral 0 l → Rule Ops.pow l r (literal (d.of_nat 0))
    zero_add : (l r : Tree F) → IsLiteral 0 l → Rule Ops.add l r r
    mul_zero : (l r : Tree F) → IsLiteral 0 r → Rule Ops.mul l r (literal (d.of_nat 0))
    pow_zero : (l r : Tree F) → IsLiteral 0 r → Rule Ops.pow l r (literal (d.of_nat 1))
    div_zero : (l r : Tree F) → IsLiteral 0 r → Rule Ops.div l r (literal d.nan)
    add_zero : (l r : Tree F) → IsLiteral 0 r → Rule Ops.add l r l
    sub_zero : (l r : Tree F) → IsLiteral 0 r → Rule Ops.sub l r l
    one_mul : (l r : Tree F) → IsLiteral 1 l → Rule Ops.mul l r r
    one_pow : (l r : Tree F) → IsLiteral 1 l → Rule Ops.pow l r (literal (d.of_nat 1))
    mul_one : (l r : Tree F) → IsLiteral 1 r → Rule Ops.mul l r l
    pow_one : (l r : Tree F) → IsLiteral 1 r → Rule Ops.pow l r l
    div_one : (l r : Tree F) → IsLiteral 1 r → Rule Ops.div l r l
    sub_self :
        (l r : Tree F) (x y : Option Name)
        → IsVariable x l
        → IsVariable y r
        → var_eq x y max_var_size ≡ true
        → Rule Ops.sub l r (literal (d.of_nat 0))

  -- The value of an operation on two literals.
  abbrev pub computed : Ops → F → F → F
  computed Ops.add a b = d.add a b
  computed Ops.sub a b = d.sub a b
  computed Ops.mul a b = d.mul a b
  computed Ops.div a b = if is_const 0 b then d.nan else d.div a b
  computed Ops.pow a b = d.pow a b
  computed Ops.ln a b = d.log b
  computed Ops.sin a b = d.sin b
  computed Ops.cos a b = d.cos b
  computed Ops.sqrt a b = d.sqrt b
  computed Ops.do_nothing a b = d.nan
  computed Ops.ass a b = d.nan

  abbrev pub node_computed : NodeType → NodeValue F → F → F → F
  node_computed num v a b = v.num_value
  node_computed _ v a b = computed v.op_value a b

  pub data Rewrites : Tree F → Tree F → Type 0 where
    same : (t : Tree F) → Rewrites t t
    chain : (t u w : Tree F) → Rewrites t u → Rewrites u w → Rewrites t w
    inside :
        (ty : NodeType) (v : NodeValue F) (l l' r r' : Tree F)
        → Rewrites l l'
        → Rewrites r r'
        → Rewrites (node ty v l r) (node ty v l' r')
    folded :
        (ty : NodeType) (v vl vr : NodeValue F) (ll rl lr rr : Tree F)
        → Rewrites
            (node ty v (node num vl ll rl) (node num vr lr rr))
            (literal (node_computed ty v vl.num_value vr.num_value))
    ruled :
        (v : NodeValue F) (l r t : Tree F)
        → Rule v.op_value l r t
        → Rewrites (node NodeType.op v l r) t
