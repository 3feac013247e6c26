-- ===== src/Midend/Rewriting/Rules.antt =====
-- The functions of Language/Midend/src/midend_secondary.cpp that rewrite one node follow the rules.
use tatlang.Prelude.{
  ℕ, ◌≡◌, refl, ap, sym, subst, inl, inr, true, false, ◌&&◌, Bool-cases, Option, none, some, arith,
}
use tatlang.Double.{Double, is_same, cmp_double}
use tatlang.Tree.{NodeType, NodeValue, Ops, Tree, null, node, num, var, is_type, is_op, var_eq}
use tatlang.Midend.{
  MidError, MidState, is_const, eval_op, eval, fold_consts, left_zero, right_zero, left_one,
  right_one, trivial, solve_trivial_expr, replaced, max_var_size, leaf,
}
use tatlang.Midend.Rewriting.{
  literal, IsLiteral, IsVariable, Rule, zero_mul, zero_div, zero_pow, zero_add, mul_zero, pow_zero,
  div_zero, add_zero, sub_zero, one_mul, one_pow, mul_one, pow_one, div_one, sub_self, computed,
  node_computed, Rewrites, same, folded, ruled,
}

some_inj : {A : Type 0} (a b : A) → some a ≡ some b → a ≡ b
some_inj a b h = cc

is_num→eq : (t : NodeType) → is_type t num ≡ true → t ≡ num
unfolding is_type
is_num→eq num h = refl
is_num→eq _ h = cc

is_var→eq : (t : NodeType) → is_type t var ≡ true → t ≡ var
unfolding is_type
is_var→eq var h = refl
is_var→eq _ h = cc

is_op→eq : (t : NodeType) → is_type t NodeType.op ≡ true → t ≡ NodeType.op
unfolding is_type
is_op→eq NodeType.op h = refl
is_op→eq _ h = cc

is_sub→eq : (o : Ops) → is_op o Ops.sub ≡ true → o ≡ Ops.sub
unfolding is_op
is_sub→eq Ops.sub h = refl
is_sub→eq _ h = cc

module _ {F : Type 0} ⦃d : Double F⦄ where
  abbrev by_rule : (o : Ops) (l r t u : Tree F) → some u ≡ some t → Rule o l r u → Rule o l r t
  by_rule o l r t u e rule = subst (Rule o l r) (some_inj u t e) rule

  left_zero-Rule :
      (o : Ops) (l r t : Tree F) → IsLiteral 0 l → left_zero NodeType.op o r ≡ some t → Rule o l r t
  unfolding left_zero leaf is_type is_op
  left_zero-Rule Ops.mul l r t z e = by_rule Ops.mul l r t _ e (zero_mul l r z)
  left_zero-Rule Ops.div l r t z e = by_rule Ops.div l r t _ e (zero_div l r z)
  left_zero-Rule Ops.pow l r t z e = by_rule Ops.pow l r t _ e (zero_pow l r z)
  left_zero-Rule Ops.add l r t z e = by_rule Ops.add l r t r e (zero_add l r z)
  left_zero-Rule _ l r t z e = cc

  right_zero-Rule :
      (o : Ops) (l r t : Tree F)
      → IsLiteral 0 r
      → right_zero NodeType.op o l ≡ some t
      → Rule o l r t
  unfolding right_zero leaf is_type is_op
  right_zero-Rule Ops.mul l r t z e = by_rule Ops.mul l r t _ e (mul_zero l r z)
  right_zero-Rule Ops.pow l r t z e = by_rule Ops.pow l r t _ e (pow_zero l r z)
  right_zero-Rule Ops.div l r t z e = by_rule Ops.div l r t _ e (div_zero l r z)
  right_zero-Rule Ops.add l r t z e = by_rule Ops.add l r t l e (add_zero l r z)
  right_zero-Rule Ops.sub l r t z e = by_rule Ops.sub l r t l e (sub_zero l r z)
  right_zero-Rule _ l r t z e = cc

  left_one-Rule :
      (o : Ops) (l r t : Tree F) → IsLiteral 1 l → left_one NodeType.op o r ≡ some t → Rule o l r t
  unfolding left_one leaf is_type is_op
  left_one-Rule Ops.mul l r t z e = by_rule Ops.mul l r t r e (one_mul l r z)
  left_one-Rule Ops.pow l r t z e = by_rule Ops.pow l r t _ e (one_pow l r z)
  left_one-Rule _ l r t z e = cc

  right_one-Rule :
      (o : Ops) (l r t : Tree F) → IsLiteral 1 r → right_one NodeType.op o l ≡ some t → Rule o l r t
  unfolding right_one is_type is_op
  right_one-Rule Ops.mul l r t z e = by_rule Ops.mul l r t l e (mul_one l r z)
  right_one-Rule Ops.pow l r t z e = by_rule Ops.pow l r t l e (pow_one l r z)
  right_one-Rule Ops.div l r t z e = by_rule Ops.div l r t l e (div_one l r z)
  right_one-Rule _ l r t z e = cc

  IsLiteral-here :
      (k : ℕ) (ty : NodeType) (v : NodeValue F) (l r : Tree F)
      → (is_type ty num && is_const k v.num_value) ≡ true
      → IsLiteral k (node ty v l r)
  IsLiteral-here k ty v l r h = record {
    value = v;
    left = l;
    right = r;
    is_num = ap (λ t. node t v l r) (is_num→eq ty (ground arith));
    equals = ground arith;
  }

  IsVariable-here :
      (ty : NodeType) (v : NodeValue F) (l r : Tree F)
      → is_type ty var ≡ true
      → IsVariable v.var_value (node ty v l r)
  IsVariable-here ty v l r h = record {
    value = v;
    left = l;
    right = r;
    is_var = ap (λ t. node t v l r) (is_var→eq ty h);
    named = refl;
  }

  difference-Rule :
      (o : Ops) (tl tr : NodeType) (vl vr : NodeValue F) (ll rl lr rr t : Tree F)
      → (is_type tl var
          && (is_type tr var
              && ((is_type NodeType.op NodeType.op && is_op o Ops.sub)
                  && var_eq vl.var_value vr.var_value max_var_size)))
        ≡ true
      → some (leaf (d.of_nat 0)) ≡ some t
      → Rule o (node tl vl ll rl) (node tr vr lr rr) t
  unfolding leaf
  difference-Rule o tl tr vl vr ll rl lr rr t h e =
      subst (λ x. Rule x (node tl vl ll rl) (node tr vr lr rr) t) (sym (is_sub→eq o (ground arith)))
        (by_rule Ops.sub (node tl vl ll rl) (node tr vr lr rr) t _ e (
          sub_self (node tl vl ll rl) (node tr vr lr rr) vl.var_value vr.var_value
            (IsVariable-here tl vl ll rl (ground arith))
            (IsVariable-here tr vr lr rr (ground arith)) (ground arith)))

  trivial-Rule :
      (o : Ops) (tl tr : NodeType) (vl vr : NodeValue F) (ll rl lr rr t : Tree F)
      → trivial NodeType.op o tl vl tr vr (node tl vl ll rl) (node tr vr lr rr) ≡ some t
      → Rule o (node tl vl ll rl) (node tr vr lr rr) t
  unfolding trivial
  trivial-Rule o tl tr vl vr ll rl lr rr t e =
      elim (Bool-cases (is_type tl num && is_const 0 vl.num_value)) [
        | inl p ↦
            left_zero-Rule o _ (node tr vr lr rr) t (IsLiteral-here 0 tl vl ll rl p) (rw p at e)
        | inr p ↦ elim (Bool-cases (is_type tr num && is_const 0 vr.num_value)) [
          | inl q ↦
              right_zero-Rule o (node tl vl ll rl) _ t (IsLiteral-here 0 tr vr lr rr q)
                (rw (p, q) at e)
          | inr q ↦ elim (Bool-cases (is_type tl num && is_const 1 vl.num_value)) [
            | inl r ↦
                left_one-Rule o _ (node tr vr lr rr) t (IsLiteral-here 1 tl vl ll rl r)
                  (rw (p, q, r) at e)
            | inr r ↦ elim (Bool-cases (is_type tr num && is_const 1 vr.num_value)) [
              | inl s ↦
                  right_one-Rule o (node tl vl ll rl) _ t (IsLiteral-here 1 tr vr lr rr s)
                    (rw (p, q, r, s) at e)
              | inr s ↦
                  elim (Bool-cases (
                    is_type tl var
                    && (is_type tr var
                        && ((is_type NodeType.op NodeType.op && is_op o Ops.sub)
                            && var_eq vl.var_value vr.var_value max_var_size)))) [
                              | inl u ↦
                                  difference-Rule o tl tr vl vr ll rl lr rr t u
                                    (rw (p, q, r, s, u) at e)
                              | inr u ↦ absurd (no_rule t (rw (p, q, r, s, u) at e))
                            ]
            ]
          ]
        ]
      ]
    where
      no_rule : (t : Tree F) → none ≡ some t → ⊥
      no_rule t h = cc

  other_type :
      (ty tl tr : NodeType) (o : Ops) (vl vr : NodeValue F) (l r t : Tree F)
      → is_type ty NodeType.op ≡ false
      → trivial ty o tl vl tr vr l r ≡ some t
      → ⊥
  unfolding trivial left_zero right_zero left_one right_one
  other_type ty tl tr o vl vr l r t h e = ground arith

  pub solve_trivial_expr-Rewrites :
      (t : Tree F) (s : MidState) → Rewrites t (solve_trivial_expr t s).0
  unfolding solve_trivial_expr
  solve_trivial_expr-Rewrites null s = same null
  solve_trivial_expr-Rewrites (node ty v null r) s = same (node ty v null r)
  solve_trivial_expr-Rewrites (node ty v (node tl vl ll rl) null) s =
      same (node ty v (node tl vl ll rl) null)
  solve_trivial_expr-Rewrites (node ty v (node tl vl ll rl) (node tr vr lr rr)) s =
      replaced-Rewrites (node ty v (node tl vl ll rl) (node tr vr lr rr)) _ (λ t' e.
        elim (Bool-cases (is_type ty NodeType.op)) [
          | inl p ↦
              subst (λ x. Rewrites (node x v (node tl vl ll rl) (node tr vr lr rr)) t')
                (sym (is_op→eq ty p))
                (ruled v _ _ t' (
                  trivial-Rule v.op_value tl tr vl vr ll rl lr rr t' (
                    subst
                      (λ x.
                        trivial x v.op_value tl vl tr vr (node tl vl ll rl) (node tr vr lr rr)
                        ≡ some t')
                      (is_op→eq ty p) e)))
          | inr p ↦ absurd (other_type ty tl tr v.op_value vl vr _ _ t' p e)
        ])
    where
      replaced-Rewrites :
          (t : Tree F) (o : Option (Tree F))
          → ((t' : Tree F) → o ≡ some t' → Rewrites t t')
          → Rewrites t (replaced o t s).0
      replaced-Rewrites t none k = same t
      replaced-Rewrites t (some t') k = k t' refl

  eval_op-computed : (o : Ops) (a b : F) (e : MidError) → (eval_op o a b e).0 ≡ computed o a b
  unfolding eval_op is_const
  eval_op-computed Ops.div a b e = elim (Bool-cases (is_same (cmp_double b (d.of_nat 0)))) [
    | inl p ↦ rw p refl
    | inr p ↦ rw p refl
  ]
  eval_op-computed _ a b e = refl

  eval-computed :
      (ty : NodeType) (v vl vr : NodeValue F) (ll rl lr rr : Tree F) (e : MidError)
      → (eval (node ty v (node num vl ll rl) (node num vr lr rr)) e).0
        ≡ node_computed ty v vl.num_value vr.num_value
  unfolding eval is_type
  eval-computed num v vl vr ll rl lr rr e = refl
  eval-computed _ v vl vr ll rl lr rr e = eval_op-computed v.op_value vl.num_value vr.num_value e

  pub fold_consts-Rewrites : (t : Tree F) (s : MidState) → Rewrites t (fold_consts t s).0
  unfolding fold_consts
  fold_consts-Rewrites null s = same null
  fold_consts-Rewrites (node ty v null r) s = same (node ty v null r)
  fold_consts-Rewrites (node ty v (node tl vl ll rl) null) s =
      same (node ty v (node tl vl ll rl) null)
  fold_consts-Rewrites (node ty v (node tl vl ll rl) (node tr vr lr rr)) s =
      elim (Bool-cases (is_type tl num && is_type tr num)) [
        | inr p ↦ rw p (same (node ty v (node tl vl ll rl) (node tr vr lr rr)))
        | inl p ↦ rw p (both (is_num→eq tl (ground arith)) (is_num→eq tr (ground arith)))
      ]
    where
      both :
          tl ≡ num
          → tr ≡ num
          → Rewrites
              (node ty v (node tl vl ll rl) (node tr vr lr rr))
              (literal (eval (node ty v (node tl vl ll rl) (node tr vr lr rr)) s.error_code).0)
      both p q =
          rw (p, q, eval-computed ty v vl vr ll rl lr rr s.error_code)
            (folded ty v vl vr ll rl lr rr)
