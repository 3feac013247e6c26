-- ===== src/Midend/Accepted.antt =====
-- The optimizer keeps trees that the backend accepts.
use tatlang.Prelude.{
  ℕ, zero, suc, ◌≡◌, refl, sym, ◌∙◌, subst, ◌⊎◌, inl, inr, true, false, ◌&&◌, Option, none, some,
  arith, Bool-cases,
}
use tatlang.Double.{Double}
use tatlang.Tree.{NodeType, NodeValue, Ops, Tree, null, node, num, is_type, is_op, size}
use tatlang.Midend.{
  MidError, MidState, start, left_zero, right_zero, left_one, right_one, trivial, leaf, fold_consts,
  solve_trivial_expr, replaced, simplify, optimize_loop, optimize,
}
use tatlang.Backend.Labels.{Valid, ValidArgs, ValidNode, ValidOp, ValidNode-map, IsComma}

is_op_type→eq : (t : NodeType) → is_type t NodeType.op ≡ true → t ≡ NodeType.op
unfolding is_type
is_op_type→eq NodeType.op h = refl
is_op_type→eq _ h = cc

comma_not :
    (ty : NodeType) → IsComma ty → (is_type ty num ≡ false) × (is_type ty NodeType.op ≡ false)
unfolding is_type
comma_not NodeType.comma h = (refl, refl)
comma_not _ h = absurd h

module _ {F : Type 0} ⦃d : Double F⦄ where
  some-Valid : (u t : Tree F) → Valid u → some u ≡ some t → Valid t
  some-Valid u t h e = subst Valid {x = u} {y = t} (cc) h

  leaf-Valid : (x : F) (t : Tree F) → some (leaf x) ≡ some t → Valid t
  unfolding leaf
  leaf-Valid x t e = some-Valid (leaf x) t tt e

  left_zero-Valid :
      (o : Ops) (right t : Tree F) → Valid right → left_zero NodeType.op o right ≡ some t → Valid t
  unfolding left_zero is_type is_op
  left_zero-Valid Ops.mul right t h e = leaf-Valid _ t e
  left_zero-Valid Ops.div right t h e = leaf-Valid _ t e
  left_zero-Valid Ops.pow right t h e = leaf-Valid _ t e
  left_zero-Valid Ops.add right t h e = some-Valid right t h e
  left_zero-Valid _ right t h e = cc

  right_zero-Valid :
      (o : Ops) (left t : Tree F) → Valid left → right_zero NodeType.op o left ≡ some t → Valid t
  unfolding right_zero is_type is_op
  right_zero-Valid Ops.mul left t h e = leaf-Valid _ t e
  right_zero-Valid Ops.pow left t h e = leaf-Valid _ t e
  right_zero-Valid Ops.div left t h e = leaf-Valid _ t e
  right_zero-Valid Ops.add left t h e = some-Valid left t h e
  right_zero-Valid Ops.sub left t h e = some-Valid left t h e
  right_zero-Valid _ left t h e = cc

  left_one-Valid :
      (o : Ops) (right t : Tree F) → Valid right → left_one NodeType.op o right ≡ some t → Valid t
  unfolding left_one is_type is_op
  left_one-Valid Ops.mul right t h e = some-Valid right t h e
  left_one-Valid Ops.pow right t h e = leaf-Valid _ t e
  left_one-Valid _ right t h e = cc

  right_one-Valid :
      (o : Ops) (left t : Tree F) → Valid left → right_one NodeType.op o left ≡ some t → Valid t
  unfolding right_one is_type is_op
  right_one-Valid Ops.mul left t h e = some-Valid left t h e
  right_one-Valid Ops.pow left t h e = some-Valid left t h e
  right_one-Valid Ops.div left t h e = some-Valid left t h e
  right_one-Valid _ left t h e = cc

  -- The rules of which one has fitted.
  trivial-cases :
      (ty : NodeType) (o : Ops) (tl tr : NodeType) (vl vr : NodeValue F) (left right t : Tree F)
      → trivial ty o tl vl tr vr left right ≡ some t
      → (left_zero ty o right ≡ some t)
        ⊎ ((right_zero ty o left ≡ some t)
            ⊎ ((left_one ty o right ≡ some t)
                ⊎ ((right_one ty o left ≡ some t)
                    ⊎ ((some (leaf (d.of_nat 0)) ≡ some t) × (is_op o Ops.sub ≡ true)))))
  unfolding trivial
  trivial-cases ty o tl tr vl vr left right t e = ground arith

  trivial-other :
      (ty : NodeType) (o : Ops) (tl tr : NodeType) (vl vr : NodeValue F) (left right : Tree F)
      → is_type ty NodeType.op ≡ false
      → trivial ty o tl vl tr vr left right ≡ none
  unfolding trivial left_zero right_zero left_one right_one
  trivial-other ty o tl tr vl vr left right h = ground arith

  trivial-ass :
      (tl tr : NodeType) (vl vr : NodeValue F) (left right : Tree F)
      → trivial NodeType.op Ops.ass tl vl tr vr left right ≡ none
  unfolding trivial left_zero right_zero left_one right_one is_op
  trivial-ass tl tr vl vr left right = ground arith

  -- An operator of which both operands are accepted.
  rules-Valid :
      (o : Ops) (tl tr : NodeType) (vl vr : NodeValue F) (left right t : Tree F)
      → Valid left
      → Valid right
      → trivial NodeType.op o tl vl tr vr left right ≡ some t
      → Valid t
  rules-Valid o tl tr vl vr left right t hl hr e =
      elim (trivial-cases NodeType.op o tl tr vl vr left right t e) [
        | inl a ↦ left_zero-Valid o right t hr a
        | inr (inl a) ↦ right_zero-Valid o left t hl a
        | inr (inr (inl a)) ↦ left_one-Valid o right t hr a
        | inr (inr (inr (inl a))) ↦ right_one-Valid o left t hl a
        | inr (inr (inr (inr a))) ↦ leaf-Valid _ t a.0
      ]

  op-Valid :
      (o : Ops) (tl tr : NodeType) (vl vr : NodeValue F) (left right t : Tree F)
      → ValidOp o (Valid left) (Valid right)
      → trivial NodeType.op o tl vl tr vr left right ≡ some t
      → Valid t
  op-Valid Ops.ass tl tr vl vr left right t h e =
      absurd (none-some t (sym (trivial-ass tl tr vl vr left right) ∙ e))
    where
      none-some : (t : Tree F) → none ≡ some t → ⊥
      none-some t e = cc
  op-Valid Ops.do_nothing tl tr vl vr left right t h e = absurd h
  op-Valid o tl tr vl vr left right t h e = rules-Valid o tl tr vl vr left right t h.0 h.1 e

  trivial-Valid :
      (ty : NodeType) (o : Ops) (tl tr : NodeType) (vl vr : NodeValue F) (left right t : Tree F)
      (a : Type 0)
      → ValidNode ty o (Valid left) (Valid right) a
      → trivial ty o tl vl tr vr left right ≡ some t
      → Valid t
  trivial-Valid ty o tl tr vl vr left right t a h e = elim (Bool-cases (is_type ty NodeType.op)) [
    | inl isop ↦
        op-Valid o tl tr vl vr left right t
          (subst (λ x. ValidNode x o (Valid left) (Valid right) a) (is_op_type→eq ty isop) h)
          (subst (λ x. trivial x o tl vl tr vr left right ≡ some t) (is_op_type→eq ty isop) e)
    | inr other ↦ absurd (cc (e, trivial-other ty o tl tr vl vr left right other))
  ]

  solve_trivial_expr-Valid :
      (t : Tree F) (s : MidState) → Valid t → Valid (solve_trivial_expr t s).0
  unfolding solve_trivial_expr
  solve_trivial_expr-Valid null s h = h
  solve_trivial_expr-Valid (node ty v null r) s h = h
  solve_trivial_expr-Valid (node ty v (node tl vl ll rl) null) s h = h
  solve_trivial_expr-Valid (node ty v (node tl vl ll rl) (node tr vr lr rr)) s h =
      replaced-Valid _ _ s h (λ t' e.
        trivial-Valid ty v.op_value tl tr vl vr (node tl vl ll rl) (node tr vr lr rr) t' _ h e)
    where
      replaced-Valid :
          (o : Option (Tree F)) (t : Tree F) (s : MidState)
          → Valid t
          → ((t' : Tree F) → o ≡ some t' → Valid t')
          → Valid (replaced o t s).0
      replaced-Valid none t s h k = h
      replaced-Valid (some t') t s h k = k t' refl

  fold_consts-Valid : (t : Tree F) (s : MidState) → Valid t → Valid (fold_consts t s).0
  unfolding fold_consts
  fold_consts-Valid null s h = h
  fold_consts-Valid (node ty v null r) s h = h
  fold_consts-Valid (node ty v (node tl vl ll rl) null) s h = h
  fold_consts-Valid (node ty v (node tl vl ll rl) (node tr vr lr rr)) s h =
      elim (Bool-cases (is_type tl num && is_type tr num)) [
        | inl both ↦ rw both tt
        | inr other ↦ rw other h
      ]

  -- A list of arguments is left as it is.
  fold_consts-args :
      (ty : NodeType) (v : NodeValue F) (l r : Tree F) (s : MidState)
      → ValidArgs r
      → fold_consts (node ty v l r) s ≡ (node ty v l r, s)
  unfolding fold_consts
  fold_consts-args ty v null r s h = refl
  fold_consts-args ty v (node tl vl ll rl) null s h = refl
  fold_consts-args ty v (node tl vl ll rl) (node tr vr lr rr) s h = ground (arith, comma_not tr h.0)

  solve_trivial_expr-args :
      (ty : NodeType) (v : NodeValue F) (l r : Tree F) (s : MidState)
      → IsComma ty
      → solve_trivial_expr (node ty v l r) s ≡ (node ty v l r, s)
  unfolding solve_trivial_expr
  solve_trivial_expr-args ty v null r s h = refl
  solve_trivial_expr-args ty v (node tl vl ll rl) null s h = refl
  solve_trivial_expr-args ty v (node tl vl ll rl) (node tr vr lr rr) s h = rw (
    trivial-other ty v.op_value tl tr vl vr (node tl vl ll rl) (node tr vr lr rr)
        (comma_not ty h).1,
    replaced,
  )

  mutual
    unfolding simplify

    simplify-Valid : (t : Tree F) (s : MidState) → Valid t → Valid (simplify t s).0
    simplify-Valid null s h = h
    simplify-Valid (node ty v l r) s h =
        let p = simplify l s in
        let q = simplify r p.1 in
        let f = fold_consts (node ty v p.0 q.0) q.1 in
        solve_trivial_expr-Valid f.0 f.1 (
          fold_consts-Valid (node ty v p.0 q.0) q.1 (
            ValidNode-map ty v.op_value (simplify-Valid l s) (simplify-Valid r p.1)
              (simplify-args l s) h))

    simplify-args : (t : Tree F) (s : MidState) → ValidArgs t → ValidArgs (simplify t s).0
    simplify-args null s h = h
    simplify-args (node ty v l r) s h =
        let p = simplify l s in
        let q = simplify r p.1 in
        let args = simplify-args r p.1 h.2 in
        rw (fold_consts-args ty v p.0 q.0 q.1 args, solve_trivial_expr-args ty v p.0 q.0 q.1 h.0)
          (h.0, simplify-Valid l s h.1, args)

  loop-Valid :
      (f : ℕ) (t : Tree F) (s : MidState) (r : Tree F × MidError)
      → optimize_loop f t s ≡ some r
      → Valid t
      → Valid r.0
  unfolding optimize_loop
  loop-Valid zero t s r h valid = cc
  loop-Valid (suc f) t s r h valid =
      let s₀ = record s { change_flag = false } in
      let p = simplify t s₀ in
      let kept : Valid p.0 = simplify-Valid t s₀ valid in
      elim (Bool-cases p.1.change_flag) [
        | inl again ↦ loop-Valid f p.0 p.1 r (rw again at h) kept
        | inr done ↦
            let e : some (p.0, p.1.error_code) ≡ some r = rw done at h in
            subst Valid {x = p.0} {y = r.0} (cc) kept
      ]

  -- The optimizer keeps a tree of the language one.
  pub optimize-Valid :
      (t t' : Tree F) (e : MidError) → optimize t ≡ some (t', e) → Valid t → Valid t'
  unfolding optimize
  optimize-Valid t t' e h valid = loop-Valid (suc (size t)) t start (t', e) h valid
