-- ===== src/Backend/Codegen/Calls.antt =====
-- The functions of Language/Backend/src/backend_secondary.cpp that write calls, declarations and
-- the standard functions.
use tatlang.Prelude.{
  ℕ, zero, suc, ◌+◌, Bool, true, false, Option, none, some, List, [], ◌∷◌, leb, if◌then◌else◌,
  length,
}
use tatlang.Tree.{Name, StdFunc, getvar, putexpr}
use tatlang.Backend.Lines.{
  reg, main_label, func_label, call, Line, push_loc, pop_loc, label, jump, ret, bkd_all_good,
  NameTable, Manager, Outcome, fault, done, Gen, prepend, and_then, ◌⟫◌, write,
}
use tatlang.Backend.Names.{
  init_name_tables, get_loc_in_order, init_var, undefined_loc, null_loc, loc_result, get_loc,
  push_levels, pop_levels, fresh_table,
}
use tatlang.Backend.Codegen.{write_getvar, write_putexpr}

-- `L"_temp_exch"` and `L"_ret_var"`.
abbrev pub temp_exch : Name
temp_exch = b'_' ∷ b't' ∷ b'e' ∷ b'm' ∷ b'p' ∷ b'_' ∷ b'e' ∷ b'x' ∷ b'c' ∷ b'h' ∷ []

abbrev pub ret_var : Name
ret_var = b'_' ∷ b'r' ∷ b'e' ∷ b't' ∷ b'_' ∷ b'v' ∷ b'a' ∷ b'r' ∷ []

unfoldable pub init_params : List (Option Name) → NameTable → ℕ → NameTable
init_params [] t arg_counter = t
init_params (x ∷ xs) t arg_counter = init_params xs (init_var x t arg_counter) (arg_counter + 1)

unfoldable pub func_table : List (Option Name) → NameTable
func_table params = init_params params (init_var (some ret_var) fresh_table 0) 1

module _ {F : Type 0} where
  unfoldable pub push_all : Gen F
  push_all n m = elim (push_levels m.name_tables) [
    | none ↦ fault
    | some out ↦ done bkd_all_good n m out
  ]

  unfoldable pub pop_all : Gen F
  pop_all n m = elim (pop_levels m.name_tables) [
    | none ↦ fault
    | some out ↦ done bkd_all_good n m out
  ]

  -- `for(arg_id = arg_counter; arg_id >= 1; arg_id--)`
  unfoldable pub pop_args : ℕ → List (Line F)
  pop_args zero = []
  pop_args (suc arg_id) = pop_loc (get_loc_in_order (suc arg_id)) ∷ pop_args arg_id

  -- The arguments, first to last.
  unfoldable pub write_args : List (Gen F) → Gen F
  write_args [] = write []
  write_args (g ∷ gs) = g ⟫ write_args gs

  unfoldable pub save_ret_reg : Bool → Gen F
  save_ret_reg false n m = done bkd_all_good n m (pop_loc (reg 0) ∷ [])
  save_ret_reg true n m = elim (get_loc (some temp_exch) m.name_tables true) [
    | undefined_loc ↦ fault
    | null_loc ↦ fault
    | loc_result l ts ↦
        done bkd_all_good n (record m { name_tables = ts })
          (pop_loc l ∷ push_loc (reg 0) ∷ push_loc l ∷ pop_loc (reg 0) ∷ [])
  ]

  -- The last test of `write_func`: `is_func` is `node->type == FUNC`.
  unfoldable pub return_value : Bool → List (Option NameTable) → Gen F
  return_value is_func [] = λ n m. fault
  return_value is_func (none ∷ []) = λ n m. fault
  return_value is_func (some t ∷ []) =
      if leb (length t.cells) 0
      then write (if is_func then push_loc (reg 0) ∷ [] else [])
      else save_ret_reg is_func
  return_value is_func (t ∷ t' ∷ ts) = save_ret_reg is_func

  unfoldable pub write_func : Bool → Option Name → List (Gen F) → Gen F
  write_func is_func name args =
      push_all
      ⟫ write_args args
      ⟫ write (pop_args (length args))
      ⟫ write (jump call (func_label name) ∷ [])
      ⟫ pop_all
      ⟫ (λ n m. return_value is_func m.name_tables n m)

  -- A new manager, of which `asmbl(node->right, ...)` and its error are not looked at.
  abbrev pub in_function : Outcome F → Manager → Outcome F
  in_function fault m = fault
  in_function (done e n m' out) m = done bkd_all_good n m out

  unfoldable pub write_main : Gen F → Gen F
  write_main body n m =
      prepend (label main_label ∷ [])
        (in_function (body n (record init_name_tables { in_func_start = true })) m)

  unfoldable pub write_func_decl : Option Name → Option (List (Option Name)) → Gen F → Gen F
  write_func_decl name none body n m = fault
  write_func_decl name (some params) body n m =
      and_then
        (prepend (label (func_label name) ∷ []) (
          in_function
            (body n (record { name_tables = some (func_table params) ∷ []; in_func_start = true }))
            m))
        (write (ret ∷ []))

  unfoldable pub write_return : Gen F → Gen F
  write_return right = right ⟫ write (pop_loc (reg 0) ∷ ret ∷ [])

  unfoldable pub write_std_func : StdFunc → Gen F → Option (Option Name) → Gen F
  write_std_func getvar right x = write_getvar x
  write_std_func putexpr right x = write_putexpr right
