-- ===== src/Midend/Shrinks.antt =====
-- What one pass does to the size of a tree, and that the loop of `optimize` ends.
use tatlang.Prelude.{
  ℕ, zero, suc, ◌+◌, ◌<◌, ◌≡◌, refl, ◌⊎◌, inl, inr, true, false, Option, none, some, arith,
  Bool-cases,
}
use tatlang.Double.{Double}
use tatlang.Tree.{NodeType, NodeValue, Ops, Tree, null, node, size}
use tatlang.Midend.{
  MidError, MidState, left_zero, right_zero, left_one, right_one, trivial, fold_consts,
  solve_trivial_expr, replaced, simplify, optimize_loop,
}

-- Nothing changed, or the tree got smaller and the flag is set.
abbrev pub Stepped : {F : Type 0} → Tree F → MidState → Tree F × MidState → Type 0
Stepped t s r = (r ≡ (t, s)) ⊎ ((size r.0 < size t) × (r.1.change_flag ≡ true))

module _ {F : Type 0} ⦃d : Double F⦄ where
  pub fold_consts-Stepped : (t : Tree F) (s : MidState) → Stepped t s (fold_consts t s)
  unfolding fold_consts size
  fold_consts-Stepped null s = inl refl
  fold_consts-Stepped (node ty v null r) s = inl refl
  fold_consts-Stepped (node ty v (node tl vl ll rl) null) s = inl refl
  fold_consts-Stepped (node ty v (node tl vl ll rl) (node tr vr lr rr)) s = ground arith

  -- What a trivial simplification returns is smaller than the node.
  trivial-size :
      (ty : NodeType) (o : Ops) (tl : NodeType) (vl : NodeValue F) (tr : NodeType)
      (vr : NodeValue F) (left right t : Tree F)
      → 0 < size left
      → 0 < size right
      → trivial ty o tl vl tr vr left right ≡ some t
      → size t < suc (size left + size right)
  unfolding trivial left_zero right_zero left_one right_one size
  trivial-size ty o tl vl tr vr left right t hl hr e = ground arith

  replaced-Stepped :
      (o : Option (Tree F)) (t : Tree F) (s : MidState)
      → ((t' : Tree F) → o ≡ some t' → size t' < size t)
      → Stepped t s (replaced o t s)
  replaced-Stepped none t s h = inl refl
  replaced-Stepped (some t') t s h = inr (h t' refl, refl)

  pub solve_trivial_expr-Stepped :
      (t : Tree F) (s : MidState) → Stepped t s (solve_trivial_expr t s)
  unfolding solve_trivial_expr size
  solve_trivial_expr-Stepped null s = inl refl
  solve_trivial_expr-Stepped (node ty v null r) s = inl refl
  solve_trivial_expr-Stepped (node ty v (node tl vl ll rl) null) s = inl refl
  solve_trivial_expr-Stepped (node ty v (node tl vl ll rl) (node tr vr lr rr)) s =
      replaced-Stepped _ _ s (λ t' e.
        trivial-size ty v.op_value tl vl tr vr (node tl vl ll rl) (node tr vr lr rr) t'
          (omega arith) (omega arith) e)

  -- No step clears the flag.
  pub Stepped-flag :
      (t : Tree F) (s : MidState) (r : Tree F × MidState)
      → Stepped t s r
      → r.1.change_flag ≡ false
      → r ≡ (t, s)
  Stepped-flag t s r (inl h) k = h
  Stepped-flag t s r (inr h) k = cc

  Stepped-trans :
      (t : Tree F) (s : MidState) (p r : Tree F × MidState)
      → Stepped t s p
      → Stepped p.0 p.1 r
      → Stepped t s r
  Stepped-trans t s p r h (inr k) = inr (ground arith)
  Stepped-trans t s p r (inl h) (inl k) = inl (cc)
  Stepped-trans t s p r (inr h) (inl k) = inr (ground arith)

  Stepped-left :
      (ty : NodeType) (v : NodeValue F) (l r : Tree F) (s : MidState) (p : Tree F × MidState)
      → Stepped l s p
      → Stepped (node ty v l r) s (node ty v p.0 r, p.1)
  unfolding size
  Stepped-left ty v l r s p (inl h) = inl (rw h)
  Stepped-left ty v l r s p (inr h) = inr (omega arith, h.1)

  Stepped-right :
      (ty : NodeType) (v : NodeValue F) (l r : Tree F) (s : MidState) (p : Tree F × MidState)
      → Stepped r s p
      → Stepped (node ty v l r) s (node ty v l p.0, p.1)
  unfolding size
  Stepped-right ty v l r s p (inl h) = inl (rw h)
  Stepped-right ty v l r s p (inr h) = inr (omega arith, h.1)

  -- A pass either leaves the tree and the state alone, or makes the tree smaller and sets the flag.
  pub simplify-Stepped : (t : Tree F) (s : MidState) → Stepped t s (simplify t s)
  unfolding simplify
  simplify-Stepped null s = inl refl
  simplify-Stepped (node ty v l r) s =
      let p = simplify l s in
      let q = simplify r p.1 in
      let f = fold_consts (node ty v p.0 q.0) q.1 in
      Stepped-trans _ s _ _ (Stepped-left ty v l r s p (simplify-Stepped l s)) (
        Stepped-trans _ p.1 _ _ (Stepped-right ty v p.0 r p.1 q (simplify-Stepped r p.1)) (
          Stepped-trans _ q.1 f _ (fold_consts-Stepped _ q.1) (solve_trivial_expr-Stepped f.0 f.1)))

  -- A pass that leaves the flag unset leaves the tree alone.
  pub simplify_unchanged :
      (t : Tree F) (s : MidState) → (simplify t s).1.change_flag ≡ false → simplify t s ≡ (t, s)
  simplify_unchanged t s h = ground (arith, simplify-Stepped t s)

  -- Fuel above the size of the tree is enough for the loop.
  pub optimize_loop_total :
      (f : ℕ) (t : Tree F) (s : MidState)
      → size t < f
      → (r : Tree F × MidError) × (optimize_loop f t s ≡ some r)
  unfolding optimize_loop
  optimize_loop_total zero t s h = absurd (omega arith)
  optimize_loop_total (suc f) t s h =
      let p = simplify t (record s { change_flag = false }) in
      elim (Bool-cases p.1.change_flag) [
        | inl again ↦ rw again (
            optimize_loop_total f p.0 p.1
              (ground (arith, simplify-Stepped t (record s { change_flag = false }))))
        | inr done ↦ ((p.0, p.1.error_code), rw done)
      ]
