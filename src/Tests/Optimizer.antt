-- ===== src/Tests/Optimizer.antt =====
-- The theorems on the optimizer for `x * 1 + (2 + 3)`.
use tatlang.Prelude.{ℕ, ◌≡◌, refl, some, [], ◌∷◌}
use tatlang.Double.{cmp_double}
use tatlang.Tree.{
  NodeType, Ops, Tree, null, node, num, var, num_val, op_val, var_val, size, is_type, is_op, var_eq,
  wcsncmp_eq,
}
use tatlang.Midend.{
  mid_all_good, optimize, optimize_loop, simplify, fold_consts, eval, eval_op, solve_trivial_expr,
  trivial, left_zero, right_zero, left_one, right_one, is_const,
}
use tatlang.Midend.Settled.{Settled, optimize_idem}
use tatlang.Tests.Arithmetic.{naturals}

abbrev literal : ℕ → Tree ℕ
literal n = node num (num_val ⦃d = naturals⦄ n) null null

abbrev operation : Ops → Tree ℕ → Tree ℕ → Tree ℕ
operation o l r = node NodeType.op (op_val ⦃d = naturals⦄ o) l r

abbrev variable : Tree ℕ
variable = node var (var_val ⦃d = naturals⦄ (some (b'x' ∷ []))) null null

abbrev sample : Tree ℕ
sample =
    operation Ops.add (operation Ops.mul variable (literal 1))
      (operation Ops.add (literal 2) (literal 3))

abbrev sample_optimized : Tree ℕ
sample_optimized = operation Ops.add variable (literal 5)

sample-optimize : optimize ⦃d = naturals⦄ sample ≡ some (sample_optimized, mid_all_good)
unfolding optimize optimize_loop simplify fold_consts eval eval_op solve_trivial_expr trivial
    left_zero right_zero left_one right_one is_const cmp_double size is_type is_op var_eq wcsncmp_eq
sample-optimize = refl

optimize_idem_example :
    optimize ⦃d = naturals⦄ sample_optimized ≡ some (sample_optimized, mid_all_good)
optimize_idem_example =
    optimize_idem ⦃d = naturals⦄ sample sample_optimized mid_all_good sample-optimize
