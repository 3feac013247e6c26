-- ===== src/Parser/Descent/Commands.antt =====
-- The functions of Recursive_parser/src/recursive_parser_secondary.cpp that read commands and
-- scopes, and `parse_tokens` of recursive_parser.cpp.
use tatlang.Prelude.{
  ℕ, zero, suc, ◌+◌, ◌*◌, Bool, true, false, ◌&&◌, ◌||◌, Option, none, some, List, if◌then◌else◌,
  length,
}
use tatlang.Double.{Double}
use tatlang.Tree.{
  NodeType, Ops, Tree, null, node, getvar, putexpr, is_type, is_op, op_val, func_val,
}
use tatlang.Parser.State.{
  Token, Parsed, out_of_fuel, Parser, ◌>>=◌, ◌>>◌, pure, check, current, advance, take_debt,
  add_debt, expect,
}
use tatlang.Parser.{
  append_right, run, plain, manage_scopes, pay_debt_scope, pay_debt, get_id, get_params, value_of,
}
use tatlang.Parser.Descent.{get_expr, get_func}

module _ {F : Type 0} ⦃d : Double F⦄ where
  unfoldable pub get_std_func : ℕ → Parser F (Tree F)
  get_std_func f = current >>= λ t.
      advance
      >> expect NodeType.open_br null (
          check (elim t.value.func [ getvar ↦ get_id | putexpr ↦ get_expr f ])
            (λ child.
              expect NodeType.close_br null
                (pure (node NodeType.std_func (func_val t.value.func) null child))))

  -- `SYNTAX_CHECK(CUR_TYPE == OP && CUR_OP == ASS)` stands between the two parts.
  unfoldable pub get_ass : ℕ → Parser F (Tree F)
  get_ass f = check get_id (λ target. current >>= λ t.
      if is_type t.type NodeType.op && is_op t.value.op_value Ops.ass
      then (advance
          >> check (get_expr f) (λ expr. pure (node NodeType.op (op_val Ops.ass) target expr)))
      else pure null)

  -- What `get_expr` returns is not checked.
  unfoldable pub get_return : ℕ → Parser F (Tree F)
  get_return f =
      expect NodeType.return_node null
        (get_expr f >>= λ expr. pure (plain NodeType.return_node null expr))

  -- `root` with what the loop of `get_all_scopes` hung on it; the loop returns NULL as `none`.
  abbrev pub hang : Tree F → Option (Tree F) → Tree F
  hang root none = null
  hang root (some r) = append_right root r

  abbrev pub hang_more : Tree F → Option (Tree F) → Option (Tree F)
  hang_more root none = none
  hang_more root (some r) = some (append_right root r)

  abbrev pub unless_no_scope : Tree F → Parser F (Option (Tree F)) → Parser F (Option (Tree F))
  unless_no_scope null p = pure none
  unless_no_scope (node ty v l r) p = p

  abbrev pub unless_failed : Option (Tree F) → (Tree F → Parser F (Tree F)) → Parser F (Tree F)
  unless_failed none f = pure null
  unless_failed (some r) f = f r

  -- A command, and the semicolon behind it if there is to be one.
  unfoldable pub finish_cmd : Bool → ℕ → Tree F → Parser F (Tree F)
  finish_cmd true debt cmd = expect NodeType.semicolon null (pure (pay_debt cmd debt))
  finish_cmd false debt cmd = pure (pay_debt cmd debt)

  unfoldable mutual
    pub get_scope : ℕ → Parser F (Tree F)
    get_scope zero s = out_of_fuel
    get_scope (suc f) s = run s (
        current >>= λ t.
        if is_type t.type NodeType.open_cbr
        then (advance >> take_debt >>= λ debt.
            check (get_all_scopes f true NodeType.close_cbr)
              (λ root. pure (pay_debt_scope (manage_scopes root) debt)))
        else get_cmd f)

    pub get_cmd : ℕ → Parser F (Tree F)
    get_cmd zero s = out_of_fuel
    get_cmd (suc f) s = run s (
        take_debt >>= λ debt. current >>= λ t.
        if is_type t.type NodeType.if_node || is_type t.type NodeType.while_node
        then (advance >> check (get_cond f t.type) (finish_cmd false debt))
        else if is_type t.type NodeType.std_func
        then check (get_std_func f) (finish_cmd true debt)
        else if is_type t.type NodeType.func
        then check (get_func f true) (finish_cmd true debt)
        else if is_type t.type NodeType.declare
        then check (get_func_decl f) (finish_cmd false debt)
        else if is_type t.type NodeType.return_node
        then check (get_return f) (finish_cmd true debt)
        else if is_type t.type NodeType.main
        then check (get_main f) (finish_cmd false debt)
        else check (get_ass f) (finish_cmd true debt))

    pub get_cond : ℕ → NodeType → Parser F (Tree F)
    get_cond zero ty s = out_of_fuel
    get_cond (suc f) ty s = run s (
        expect NodeType.open_br null (
          check (get_expr f) (λ br_expr.
            expect NodeType.close_br null
              (check (get_scope f) (λ scope. pure (plain ty br_expr scope))))))

    -- What `get_scope` returns is not checked, here and in `get_func_decl`.
    pub get_main : ℕ → Parser F (Tree F)
    get_main zero s = out_of_fuel
    get_main (suc f) s =
        run s
          (expect NodeType.main null (get_scope f >>= λ body. pure (plain NodeType.main null body)))

    pub get_func_decl : ℕ → Parser F (Tree F)
    get_func_decl zero s = out_of_fuel
    get_func_decl (suc f) s = run s (
        expect NodeType.declare null (
          check get_id (λ func_name. expect NodeType.open_br null (
            check get_id (λ arg. get_params f >>= λ rest. unless_failed rest (λ r.
              get_scope f >>= λ body.
              pure (
                node NodeType.func_decl (value_of func_name) (plain NodeType.comma arg r)
                  body)))))))

    pub get_all_scopes : ℕ → Bool → NodeType → Parser F (Tree F)
    get_all_scopes zero manage_ccbrs end_type s = out_of_fuel
    get_all_scopes (suc f) manage_ccbrs end_type s = run s (
        check (get_scope f)
          (λ root. get_more_scopes f manage_ccbrs end_type >>= λ rest. pure (hang root rest)))

    -- The `while` and what follows it: the trees that come behind the first, hung one on the other.
    pub get_more_scopes : ℕ → Bool → NodeType → Parser F (Option (Tree F))
    get_more_scopes zero manage_ccbrs end_type s = out_of_fuel
    get_more_scopes (suc f) manage_ccbrs end_type s = run s (
        current >>= λ t.
        if is_type t.type end_type
        then (if manage_ccbrs then (add_debt >> advance >> pure (some null)) else pure (some null))
        else (get_scope f >>= λ root.
            unless_no_scope root
              (get_more_scopes f manage_ccbrs end_type >>= λ rest. pure (hang_more root rest))))

  -- `sce_debt` is static: it has what an earlier call left, and 0 in the first.
  unfoldable pub get_general : ℕ → ℕ → List (Token F) → Parsed F (Tree F)
  get_general f debt passed_tokens =
      run (record { rest = passed_tokens; sce_debt = debt })
        (current >>= λ t.
          if is_type t.type NodeType.end
          then pure (plain NodeType.semicolon null null)
          else get_all_scopes f false NodeType.end)

  unfoldable pub parse_tokens : ℕ → List (Token F) → Parsed F (Tree F)
  parse_tokens debt passed_tokens = get_general (10 * length passed_tokens + 10) debt passed_tokens
