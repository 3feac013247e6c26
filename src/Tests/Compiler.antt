-- ===== src/Tests/Compiler.antt =====
-- The theorems on the parser and the backend for a program with an assignment, a loop and a
-- condition: `main { x = 2; while (x) { if (x > 1) { print(x); } x = x - 1; } }`.
use tatlang.Prelude.{
  ℕ, ◌+◌, ◌≡◌, ◌≢◌, ◌⊎◌, ◌++◌, refl, Option, some, length, true, false, List, [], ◌∷◌,
}
use tatlang.Tree.{Name, NodeType, Tree, null, node, num, num_val, is_type, var_eq, wcsncmp_eq}
use tatlang.Parser.{append_right, manage_scopes, pay_debt_scope, pay_debt}
use tatlang.Parser.State.{Token, parsed}
use tatlang.Parser.Descent.Commands.{parse_tokens}
use tatlang.Parser.Grammar.{
  minus, gt, Atom, number, ident, power, no_powers, Product, product, no_factors, Expr, sum,
  compare, no_terms, term, sign, tree_atom,
}
use tatlang.Parser.Steps.{at}
use tatlang.Parser.Programs.{
  Stmt, block, assign, print, cond, entry, stop, then_, emit_stmt, emit_stmts, debt_stmt,
  debt_stmts, tree_stmt, tree_stmts,
}
use tatlang.Parser.Programs.Read.{parse_tokens-emit_stmts}
use tatlang.Parser.Programs.Compiles.{program-Valid}
use tatlang.Pipeline.{
  Ends, written, after_parse, after_optimize, compile_tokens, compile_tokens-labels,
  compile_tokens-Ends,
}
use tatlang.Midend.{
  mid_all_good, optimize, optimize_loop, simplify, fold_consts, eval, eval_op, solve_trivial_expr,
  trivial, left_zero, right_zero, left_one, right_one, is_const,
}
use tatlang.Pipeline.{
  Ends, written, after_parse, after_optimize, compile_tokens, compile_tokens-labels,
  compile_tokens-Ends,
}
use tatlang.Midend.{
  mid_all_good, optimize, optimize_loop, simplify, fold_consts, eval, eval_op, solve_trivial_expr,
  trivial, left_zero, right_zero, left_one, right_one, is_const,
}
use tatlang.Parser.Programs.Balance.{parse_tokens-balance}
use tatlang.Parser.Programs.Flat.{starts, ends}
use tatlang.Backend.Lines.{
  BkdError, bkd_all_good, Manager, Line, label, jump, push_int, je, jmp, break_label, while_label,
  Outcome, fault, done,
}
use tatlang.Backend.Names.{
  init_name_tables, upgrade_tables, upgrade_n_table, downgrade_tables, downgrade_n_table,
  get_loc_in_order, new_loc, search_cells, search_tables, init_var, init_current, get_loc_found,
  get_loc, push_levels, pop_levels,
}
use tatlang.Backend.Codegen.{
  write_while, write_if, write_op, write_cond_expr, get_cond_type, write_var, pop_to, write_num,
}
use tatlang.Backend.Codegen.Calls.{write_main, write_std_func}
use tatlang.Backend.Codegen.{write_putexpr}
use tatlang.Backend.Codegen.Asmbl.{assembly, asmbl, asmbl_node}
use tatlang.Backend.Labels.{Resolved, Valid, count, defines_break}
use tatlang.Spu.Expressions.{Arith}
use tatlang.Backend.Global.{assignment, assembly-assignment}
use tatlang.Backend.Convention.{pops, pop_args-func_table}
use tatlang.Backend.Codegen.Calls.{pop_args, func_table}
use tatlang.Backend.Names.{pop_level_0}
use tatlang.Backend.Landing.{write_if-lands, write_while-lands}
use tatlang.Backend.Resolved.{assembly-labels}
use tatlang.Tests.Arithmetic.{naturals}

abbrev x_name : Name
x_name = b'x' ∷ []

abbrev factor_of : Atom ℕ → Product ℕ
factor_of a = product (power a no_powers) no_factors

abbrev x_expr : Expr ℕ
x_expr = sum (factor_of (ident x_name)) no_terms

abbrev countdown : Stmt ℕ
countdown = entry (
    block (assign x_name (sum (factor_of (number 2)) no_terms)) (
      then_
        (cond true x_expr (
          block
            (cond false (compare (factor_of (ident x_name)) gt (factor_of (number 1)))
              (block (print x_expr) stop))
            (then_
              (assign x_name
                (sum (factor_of (ident x_name)) (term minus (factor_of (number 1)) no_terms)))
              stop)))
        stop))

abbrev countdown_tree : Tree ℕ
countdown_tree =
    append_right (tree_stmt ⦃d = naturals⦄ countdown 0)
      (tree_stmts ⦃d = naturals⦄ stop (debt_stmt countdown))

abbrev error_of : Outcome ℕ → BkdError
error_of fault = bkd_all_good
error_of (done e n m out) = e

abbrev counter_of : Outcome ℕ → ℕ
counter_of fault = 0
counter_of (done e n m out) = n

abbrev manager_of : Outcome ℕ → Manager
manager_of fault = record { name_tables = []; in_func_start = false }
manager_of (done e n m out) = m

abbrev lines_of : Outcome ℕ → List (Line ℕ)
lines_of fault = []
lines_of (done e n m out) = out

countdown-assembly :
    assembly countdown_tree
    ≡ done
        (error_of (assembly countdown_tree))
        (counter_of (assembly countdown_tree))
        (manager_of (assembly countdown_tree))
        (lines_of (assembly countdown_tree))
unfolding assembly asmbl asmbl_node write_main write_while write_if write_op write_cond_expr
    get_cond_type write_var pop_to write_num write_std_func write_putexpr init_name_tables
    upgrade_tables upgrade_n_table downgrade_tables downgrade_n_table get_loc_in_order new_loc
    search_cells search_tables init_var init_current get_loc_found get_loc push_levels pop_levels
    tree_stmt debt_stmt tree_atom append_right manage_scopes pay_debt_scope pay_debt is_type var_eq
    wcsncmp_eq
countdown-assembly = refl

parse_tokens-emit_stmts_example :
    parse_tokens ⦃d = naturals⦄ 0 (
      emit_stmt ⦃d = naturals⦄ countdown
        (emit_stmts ⦃d = naturals⦄ stop (sign ⦃d = naturals⦄ NodeType.end ∷ [])))
    ≡ parsed countdown_tree
        (at (sign ⦃d = naturals⦄ NodeType.end ∷ []) (debt_stmts {F = ℕ} stop (debt_stmt countdown)))
parse_tokens-emit_stmts_example = parse_tokens-emit_stmts ⦃d = naturals⦄ countdown stop 0 []

parse_tokens-balance_example :
    starts countdown_tree + 0 ≡ ends countdown_tree + debt_stmts {F = ℕ} stop (debt_stmt countdown)
parse_tokens-balance_example =
    parse_tokens-balance ⦃d = naturals⦄ countdown stop 0 [] countdown_tree _
      (parse_tokens-emit_stmts ⦃d = naturals⦄ countdown stop 0 [])

abbrev countdown_tokens : List (Token ℕ)
countdown_tokens =
    emit_stmt ⦃d = naturals⦄ countdown
      (emit_stmts ⦃d = naturals⦄ stop (sign ⦃d = naturals⦄ NodeType.end ∷ []))

compile_tokens-Ends_example : Ends ⦃d = naturals⦄ (compile_tokens ⦃d = naturals⦄ 0 countdown_tokens)
compile_tokens-Ends_example = compile_tokens-Ends ⦃d = naturals⦄ countdown stop 0 []

countdown_tree-Valid : Valid countdown_tree
countdown_tree-Valid = program-Valid ⦃d = naturals⦄ countdown stop 0

assembly-labels_example :
    (error_of (assembly countdown_tree) ≡ bkd_all_good)
    × Resolved (lines_of (assembly countdown_tree))
assembly-labels_example =
    assembly-labels countdown_tree _ _ _ _ countdown_tree-Valid countdown-assembly

-- A condition whose body is a condition, and a loop over one.
abbrev one_tree : Tree ℕ
one_tree = node num (num_val ⦃d = naturals⦄ 1) null null

abbrev inner_if : Tree ℕ
inner_if = node NodeType.if_node (num_val ⦃d = naturals⦄ 0) one_tree null

abbrev no_tables : Manager
no_tables = record { name_tables = []; in_func_start = false }

abbrev outer_if : Outcome ℕ
outer_if = write_if (asmbl one_tree) (asmbl inner_if) 0 no_tables

abbrev outer_while : Outcome ℕ
outer_while = write_while (asmbl one_tree) (asmbl inner_if) 0 no_tables

outer_if-done :
    outer_if ≡ done bkd_all_good (counter_of outer_if) (manager_of outer_if) (lines_of outer_if)
unfolding asmbl asmbl_node write_if write_num
outer_if-done = refl

outer_while-done :
    outer_while
    ≡ done bkd_all_good (counter_of outer_while) (manager_of outer_while) (lines_of outer_while)
unfolding asmbl asmbl_node write_if write_while write_num
outer_while-done = refl

write_if-lands_example :
    (n₁ : ℕ) × (m₁ : Manager) × (n₂ : ℕ) × (m₂ : Manager) × (c : List (Line ℕ)) × (b : List
      (Line ℕ))
    × (asmbl one_tree 0 no_tables ≡ done bkd_all_good n₁ m₁ c)
    × (asmbl inner_if n₁ m₁ ≡ done bkd_all_good n₂ m₂ b)
    × (lines_of outer_if
        ≡ c ++ push_int 0 ∷ jump je (break_label n₁) ∷ (b ++ label (break_label n₂) ∷ []))
    × (counter_of outer_if ≡ n₂ + 1)
    × (((n₁ ≡ n₂) × (count (defines_break n₁) b ≡ 0))
        ⊎ ((n₁ ≢ n₂) × (count (defines_break n₁) b ≡ 1)))
write_if-lands_example =
    write_if-lands one_tree inner_if 0 no_tables _ _ _ tt (tt, tt) outer_if-done

write_while-lands_example :
    (n₁ : ℕ) × (m₁ : Manager) × (n₂ : ℕ) × (c : List (Line ℕ)) × (b : List (Line ℕ)) × (asmbl
        one_tree
        (0 + 1)
        no_tables
      ≡ done bkd_all_good n₁ m₁ c)
    × (asmbl inner_if n₁ m₁ ≡ done bkd_all_good n₂ (manager_of outer_while) b)
    × (counter_of outer_while ≡ n₂)
    × (lines_of outer_while
        ≡ label (while_label 0)
          ∷ (c
              ++ push_int 0
                ∷ jump je (break_label 0)
                ∷ (b ++ jump jmp (while_label 0) ∷ label (break_label 0) ∷ [])))
    × (count (defines_break 0) c ≡ 0)
    × (count (defines_break 0) b ≡ 0)
write_while-lands_example =
    write_while-lands one_tree inner_if 0 no_tables _ _ _ tt (tt, tt) outer_while-done

abbrev three_names : List (Option Name)
three_names = some x_name ∷ some (b'y' ∷ []) ∷ some (b'z' ∷ []) ∷ []

pop_args-func_table_example :
    (pop_args {F = ℕ} (length three_names) ≡ pops ℕ (length three_names))
    × (pop_level_0 {F = ℕ} (func_table three_names).cells ≡ pops ℕ (length three_names))
pop_args-func_table_example = pop_args-func_table three_names

assembly-assignment_example :
    assembly (assignment (num_val ⦃d = naturals⦄ 0) (some x_name) (Arith.lit 1) null) ≡ fault
assembly-assignment_example =
    assembly-assignment (num_val ⦃d = naturals⦄ 0) (some x_name) (Arith.lit 1) null
