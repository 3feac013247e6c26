-- ===== src/Midend/Settled.antt =====
-- What the loop of `optimize` stops at: trees that a further pass leaves alone.
use tatlang.Prelude.{
  ℕ, zero, suc, ◌≡◌, refl, subst, inl, inr, false, ◌&&◌, Option, none, some, arith, Bool-cases,
}
use tatlang.Double.{Double}
use tatlang.Tree.{Tree, null, node, num, is_type, size}
use tatlang.Midend.{
  MidError, MidState, start, mid_all_good, trivial, fold_consts, solve_trivial_expr, replaced,
  simplify, optimize_loop, optimize,
}
use tatlang.Midend.Shrinks.{
  Stepped-flag, fold_consts-Stepped, solve_trivial_expr-Stepped, simplify-Stepped,
  simplify_unchanged, optimize_loop_total,
}

module _ {F : Type 0} ⦃d : Double F⦄ where
  -- Neither rule applies at this node.
  abbrev pub RootSettled : Tree F → Type 0
  RootSettled null = Unit
  RootSettled (node ty v null r) = Unit
  RootSettled (node ty v (node tl vl ll rl) null) = Unit
  RootSettled (node ty v (node tl vl ll rl) (node tr vr lr rr)) =
      ((is_type tl num && is_type tr num) ≡ false)
      × (trivial ty v.op_value tl vl tr vr (node tl vl ll rl) (node tr vr lr rr) ≡ none)

  abbrev pub Settled : Tree F → Type 0
  Settled null = Unit
  Settled (node ty v l r) = Settled l × Settled r × RootSettled (node ty v l r)

  root_of_flags :
      (t : Tree F) (s : MidState)
      → (fold_consts t s).1.change_flag ≡ false
      → (solve_trivial_expr t s).1.change_flag ≡ false
      → RootSettled t
  unfolding fold_consts solve_trivial_expr
  root_of_flags null s h k = tt
  root_of_flags (node ty v null r) s h k = tt
  root_of_flags (node ty v (node tl vl ll rl) null) s h k = tt
  root_of_flags (node ty v (node tl vl ll rl) (node tr vr lr rr)) s h k =
      (ground arith, replaced-none _ _ s k)
    where
      replaced-none :
          (o : Option (Tree F)) (t : Tree F) (s : MidState)
          → (replaced o t s).1.change_flag ≡ false
          → o ≡ none
      replaced-none none t s h = refl
      replaced-none (some t') t s h = cc

  root_unchanged : (t : Tree F) (s : MidState) → RootSettled t → fold_consts t s ≡ (t, s)
  unfolding fold_consts
  root_unchanged null s h = refl
  root_unchanged (node ty v null r) s h = refl
  root_unchanged (node ty v (node tl vl ll rl) null) s h = refl
  root_unchanged (node ty v (node tl vl ll rl) (node tr vr lr rr)) s h = rw h.0

  root_not_trivial : (t : Tree F) (s : MidState) → RootSettled t → solve_trivial_expr t s ≡ (t, s)
  unfolding solve_trivial_expr
  root_not_trivial null s h = refl
  root_not_trivial (node ty v null r) s h = refl
  root_not_trivial (node ty v (node tl vl ll rl) null) s h = refl
  root_not_trivial (node ty v (node tl vl ll rl) (node tr vr lr rr)) s h = rw (h.1, replaced)

  -- A pass over a settled tree changes nothing.
  pub simplify-Settled : (t : Tree F) (s : MidState) → Settled t → simplify t s ≡ (t, s)
  unfolding simplify
  simplify-Settled null s h = refl
  simplify-Settled (node ty v l r) s h =
      rw (simplify-Settled l s h.0, simplify-Settled r s h.1, root_unchanged _ s h.2)
        (root_not_trivial _ s h.2)

  -- The last two steps of a pass, over a node whose children did not change.
  steps_unchanged :
      (t t' : Tree F) (s s' : MidState)
      → t' ≡ t
      → (solve_trivial_expr (fold_consts t' s').0 (fold_consts t' s').1).1.change_flag ≡ false
      → RootSettled t × (s'.change_flag ≡ false)
  steps_unchanged t t' s s' e h =
      let f = fold_consts t' s' in
      let g = solve_trivial_expr f.0 f.1 in
      let solved : g ≡ (f.0, f.1) = Stepped-flag f.0 f.1 g (solve_trivial_expr-Stepped f.0 f.1) h in
      let folded_flag : f.1.change_flag ≡ false = rw solved at h in
      let folded : f ≡ (t', s') = Stepped-flag t' s' f (fold_consts-Stepped t' s') folded_flag in
      let solved_flag : (solve_trivial_expr t' s').1.change_flag ≡ false = rw folded at h in
      let root : RootSettled t' = root_of_flags t' s' folded_flag solved_flag in
      (subst RootSettled e root, rw folded at folded_flag)

  -- A pass that leaves the flag unset has met a settled tree.
  pub Settled-of_unchanged :
      (t : Tree F) (s : MidState) → (simplify t s).1.change_flag ≡ false → Settled t
  unfolding simplify
  Settled-of_unchanged null s h = tt
  Settled-of_unchanged (node ty v l r) s h =
      let p = simplify l s in
      let q = simplify r p.1 in
      let q_flag : q.1.change_flag ≡ false =
        (steps_unchanged (node ty v p.0 q.0) (node ty v p.0 q.0) q.1 q.1 refl h).1 in
      let right : q ≡ (r, p.1) = Stepped-flag r p.1 q (simplify-Stepped r p.1) q_flag in
      let p_flag : p.1.change_flag ≡ false = rw right at q_flag in
      let left : p ≡ (l, s) = Stepped-flag l s p (simplify-Stepped l s) p_flag in
      (
        Settled-of_unchanged l s p_flag,
        Settled-of_unchanged r p.1 q_flag,
        (steps_unchanged (node ty v l r) (node ty v p.0 q.0) s q.1 (cc) h).0,
      )

  -- The loop stops at a settled tree.
  loop-Settled :
      (f : ℕ) (t : Tree F) (s : MidState) (r : Tree F × MidError)
      → optimize_loop f t s ≡ some r
      → Settled r.0
  unfolding optimize_loop
  loop-Settled zero t s r h = cc
  loop-Settled (suc f) t s r h =
      let s₀ = record s { change_flag = false } in
      let p = simplify t s₀ in
      elim (Bool-cases p.1.change_flag) [
        | inl again ↦ loop-Settled f p.0 p.1 r (rw again at h)
        | inr done ↦
            subst Settled {x = t} {y = r.0} (ground (arith, simplify_unchanged t s₀ done))
              (Settled-of_unchanged t s₀ done)
      ]

  pub optimize-Settled :
      (t : Tree F) → (r : Tree F × MidError) × (optimize t ≡ some r) × Settled r.0
  unfolding optimize
  optimize-Settled t =
      let (r, e) = optimize_loop_total (suc (size t)) t start (omega arith) in
      (r, e, loop-Settled (suc (size t)) t start r e)

  -- Optimizing a result of the optimizer changes nothing and reports no error.
  pub optimize_idem :
      (t t' : Tree F) (e : MidError)
      → optimize t ≡ some (t', e)
      → optimize t' ≡ some (t', mid_all_good)
  unfolding optimize optimize_loop
  optimize_idem t t' e h =
      let settled : Settled t' = loop-Settled (suc (size t)) t start (t', e) h in
      rw (simplify-Settled t' start settled)
