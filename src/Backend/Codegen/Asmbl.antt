-- ===== src/Backend/Codegen/Asmbl.antt =====
-- `asmbl` of Language/Backend/src/backend_secondary.cpp, which passes its own recursive calls to
-- the writers, and `assembly` of backend.cpp.
use tatlang.Prelude.{true, false, Option, none, some, List, [], ◌∷◌}
use tatlang.Tree.{Name, NodeType, NodeValue, Tree, null, node, num, var}
use tatlang.Backend.Lines.{hlt, invalid_node, Outcome, Gen, and_then, ◌⟫◌, swallow, write, fail}
use tatlang.Backend.Names.{upgrade_n_table, downgrade_n_table}
use tatlang.Backend.Codegen.{write_num, write_var, write_op, write_cond_expr, write_while, write_if}
use tatlang.Backend.Codegen.Calls.{
  write_func, write_main, write_func_decl, write_return, write_std_func,
}

-- `node->value.var_value` of a child that may be NULL.
abbrev pub child_name : {F : Type 0} → Tree F → Option (Option Name)
child_name null = none
child_name (node ty v l r) = some v.var_value

-- The names along a list of arguments of a declaration; `none` is a read through NULL.
unfoldable pub param_names : {F : Type 0} → Tree F → Option (List (Option Name))
param_names null = some []
param_names (node ty v l r) =
    let rest = param_names r in
    elim (child_name l) [
      | none ↦ none
      | some x ↦ elim rest [ none ↦ none | some xs ↦ some (x ∷ xs) ]
    ]

module _ {F : Type 0} where
  abbrev pub swallowed : Gen F → Gen F
  swallowed g n m = swallow (g n m)

  -- The `switch` of `asmbl`, over the writers of the children, those of the arguments (the left
  -- child's chain), the names that the two children hold, and those of the parameters.
  unfoldable pub asmbl_node :
      NodeType
      → NodeValue F
      → Gen F
      → Gen F
      → List (Gen F)
      → Option (Option Name)
      → Option (Option Name)
      → Option (List (Option Name))
      → Gen F
  asmbl_node NodeType.scope_start v left right args ln rn ps =
      λ n m. (left ⟫ right) n (upgrade_n_table m)
  asmbl_node NodeType.scope_end v left right args ln rn ps =
      λ n m. (left ⟫ right) n (downgrade_n_table m)
  asmbl_node NodeType.semicolon v left right args ln rn ps = left ⟫ right
  asmbl_node NodeType.while_node v left right args ln rn ps = swallowed (write_while left right)
  asmbl_node NodeType.if_node v left right args ln rn ps = swallowed (write_if left right)
  asmbl_node NodeType.std_func v left right args ln rn ps =
      swallowed (write_std_func v.func right rn)
  asmbl_node NodeType.func v left right args ln rn ps = swallowed (write_func true v.var_value args)
  asmbl_node NodeType.cmd_func v left right args ln rn ps =
      swallowed (write_func false v.var_value args)
  asmbl_node NodeType.func_decl v left right args ln rn ps =
      swallowed (write_func_decl v.var_value ps right)
  asmbl_node NodeType.return_node v left right args ln rn ps = swallowed (write_return right)
  asmbl_node NodeType.main v left right args ln rn ps = swallowed (write_main right)
  asmbl_node NodeType.op v left right args ln rn ps = swallowed (write_op v.op_value left right ln)
  asmbl_node NodeType.unr_op v left right args ln rn ps =
      swallowed (write_op v.op_value left right ln)
  asmbl_node var v left right args ln rn ps = swallowed (write_var v.var_value)
  asmbl_node num v left right args ln rn ps = write_num v.num_value
  asmbl_node NodeType.above v left right args ln rn ps =
      swallowed (write_cond_expr NodeType.above left right)
  asmbl_node NodeType.below v left right args ln rn ps =
      swallowed (write_cond_expr NodeType.below left right)
  asmbl_node NodeType.above_equal v left right args ln rn ps =
      swallowed (write_cond_expr NodeType.above_equal left right)
  asmbl_node NodeType.below_equal v left right args ln rn ps =
      swallowed (write_cond_expr NodeType.below_equal left right)
  asmbl_node NodeType.equal v left right args ln rn ps =
      swallowed (write_cond_expr NodeType.equal left right)
  asmbl_node NodeType.not_equal v left right args ln rn ps =
      swallowed (write_cond_expr NodeType.not_equal left right)
  asmbl_node _ v left right args ln rn ps = fail invalid_node

unfoldable mutual
  pub asmbl : {F : Type 0} → Tree F → Gen F
  asmbl null = write []
  asmbl (node ty v l r) =
      asmbl_node ty v (asmbl l) (asmbl r) (asmbl_args l) (child_name l) (child_name r)
        (param_names l)

  -- The loop of `write_func` over the arguments.
  pub asmbl_args : {F : Type 0} → Tree F → List (Gen F)
  asmbl_args null = []
  asmbl_args (node ty v l r) = asmbl l ∷ asmbl_args r

-- The manager of `assembly` is `{}`, and the label counter starts at 0.
unfoldable pub assembly : {F : Type 0} → Tree F → Outcome F
assembly root =
    and_then (asmbl root 0 (record { name_tables = []; in_func_start = false })) (write (hlt ∷ []))
