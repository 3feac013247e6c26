-- ===== src/Backend/Codegen.antt =====
-- The functions of Language/Backend/src/backend_secondary.cpp that write numbers, variables,
-- operators, comparisons, loops and conditions. A function that writes the children of its node
-- takes the writers of the children.
pub mod Calls
pub mod Asmbl
use tatlang.Prelude.{
  ℕ, zero, suc, ◌+◌, Bool, true, false, Option, none, some, List, [], ◌∷◌, leb, if◌then◌else◌,
  length,
}
use tatlang.Tree.{
  Name, NodeType, NodeValue, Ops, Tree, null, node, num, var, StdFunc, getvar, putexpr,
}
use tatlang.Backend.Lines.{
  reg, while_label, break_label, main_label, func_label, Jump, jmp, je, jne, ja, jb, jae, jbe, call,
  Line, push_int, push_num, push_loc, push_null, pop_loc, arithmetic, label, jump, input, output,
  ret, hlt, bkd_all_good, unknown_operation, invalid_node, invalid_cond_expr, NameTable, Manager,
  Outcome, fault, done, Gen, prepend, and_then, ◌⟫◌, swallow, write, fail,
}
use tatlang.Backend.Names.{
  init_name_tables, upgrade_n_table, downgrade_n_table, init_var, undefined_loc, null_loc,
  loc_result, get_loc, push_levels, pop_levels, fresh_table,
}

unfoldable pub get_cond_type : NodeType → Option Jump
get_cond_type NodeType.above = some jbe
get_cond_type NodeType.below = some jae
get_cond_type NodeType.above_equal = some jb
get_cond_type NodeType.below_equal = some ja
get_cond_type NodeType.equal = some jne
get_cond_type NodeType.not_equal = some jne
get_cond_type _ = none

module _ {F : Type 0} where
  unfoldable pub write_num : F → Gen F
  write_num x = write (push_num x ∷ [])

  -- The lines that a place is written to; `get_loc` reports no error, so NULL is printed.
  unfoldable pub write_var : Option Name → Gen F
  write_var x n m = elim (get_loc x m.name_tables false) [
    | undefined_loc ↦ fault
    | null_loc ↦ done bkd_all_good n m (push_null ∷ [])
    | loc_result l ts ↦ done bkd_all_good n (record m { name_tables = ts }) (push_loc l ∷ [])
  ]

  -- `get_loc(var, ..., true)` and `pop` to its place.
  unfoldable pub pop_to : Option (Option Name) → Gen F
  pop_to none n m = fault
  pop_to (some x) n m = elim (get_loc x m.name_tables true) [
    | undefined_loc ↦ fault
    | null_loc ↦ fault
    | loc_result l ts ↦ done bkd_all_good n (record m { name_tables = ts }) (pop_loc l ∷ [])
  ]

  unfoldable pub write_getvar : Option (Option Name) → Gen F
  unfolding pop_to
  write_getvar x = write (input ∷ []) ⟫ pop_to x

  unfoldable pub write_putexpr : Gen F → Gen F
  write_putexpr right = right ⟫ write (output ∷ [])

  unfoldable pub write_op : Ops → Gen F → Gen F → Option (Option Name) → Gen F
  unfolding pop_to
  write_op Ops.ass left right x = right ⟫ pop_to x
  write_op Ops.do_nothing left right x = fail unknown_operation
  write_op o left right x = left ⟫ right ⟫ write (arithmetic o ∷ [])

  -- From the jump on; the label counter is used as it stands after the operands.
  unfoldable pub write_cond_jump : Jump → Gen F
  write_cond_jump cond n m = done bkd_all_good (n + 1) m (
      jump cond (break_label n)
      ∷ push_int 1
      ∷ arithmetic Ops.add
      ∷ label (break_label n)
      ∷ push_int 0
      ∷ arithmetic Ops.add
      ∷ [])

  unfoldable pub write_cond_expr : NodeType → Gen F → Gen F → Gen F
  unfolding write_cond_jump
  write_cond_expr ty left right = elim (get_cond_type ty) [
    | none ↦ fail invalid_cond_expr
    | some cond ↦ write (push_int 0 ∷ []) ⟫ right ⟫ left ⟫ write_cond_jump cond
  ]

  unfoldable pub write_while : Gen F → Gen F → Gen F
  write_while cond body n m = and_then (done bkd_all_good (n + 1) m (label (while_label n) ∷ [])) (
      cond
      ⟫ write (push_int 0 ∷ jump je (break_label n) ∷ [])
      ⟫ body
      ⟫ write (jump jmp (while_label n) ∷ label (break_label n) ∷ []))

  -- `write_if` from the jump on: the counter is read before the body, and again behind it.
  unfoldable pub write_if_jump : Gen F
  write_if_jump n m = done bkd_all_good n m (push_int 0 ∷ jump je (break_label n) ∷ [])

  unfoldable pub write_if_end : Gen F
  write_if_end n m = done bkd_all_good (n + 1) m (label (break_label n) ∷ [])

  unfoldable pub write_if : Gen F → Gen F → Gen F
  unfolding write_if_jump write_if_end
  write_if cond body = cond ⟫ write_if_jump ⟫ body ⟫ write_if_end
