-- ===== src/Parser/Descent.antt =====
-- The functions of Recursive_parser/src/recursive_parser_secondary.cpp that read expressions; they
-- call one another.
pub mod Commands
use tatlang.Prelude.{
  ℕ, zero, suc, ◌+◌, ◌*◌, Bool, true, false, ◌&&◌, ◌||◌, Option, none, some, List, if◌then◌else◌,
  length,
}
use tatlang.Double.{Double}
use tatlang.Tree.{
  NodeType, NodeValue, Ops, Tree, null, node, num, var, StdFunc, getvar, putexpr, is_type, is_op,
  num_val, op_val, func_val,
}
use tatlang.Parser.State.{
  Token, ParseState, Parsed, out_of_fuel, Parser, bind, ◌>>=◌, ◌>>◌, pure, unless_null, check,
  current, advance, take_debt, add_debt, expect,
}
use tatlang.Parser.{
  append_right, is_cond, run, plain, manage_scopes, pay_debt_scope, pay_debt, get_num, get_id,
  get_params, value_of, before, finish_func,
}

module _ {F : Type 0} ⦃d : Double F⦄ where
  -- Expressions. A loop has the tree so far as an argument.
  unfoldable mutual
    pub get_expr : ℕ → Parser F (Tree F)
    get_expr zero s = out_of_fuel
    get_expr (suc f) s = run s (check (get_mul f) (get_expr_tail f))

    pub get_expr_tail : ℕ → Tree F → Parser F (Tree F)
    get_expr_tail zero val s = out_of_fuel
    get_expr_tail (suc f) val s = run s (
        current >>= λ t.
        if is_type t.type NodeType.op
        then get_sum f val
        else if is_cond t.type
        then (advance
            >> check (get_mul f) (λ val₂. pure (node t.type (num_val (d.of_nat 0)) val val₂)))
        else pure val)

    pub get_sum : ℕ → Tree F → Parser F (Tree F)
    get_sum zero val s = out_of_fuel
    get_sum (suc f) val s = run s (
        current >>= λ t.
        if is_type t.type NodeType.op
          && (is_op t.value.op_value Ops.add || is_op t.value.op_value Ops.sub)
        then (advance
            >> check (get_mul f)
                (λ val₂. get_sum f (node NodeType.op (op_val t.value.op_value) val val₂)))
        else pure val)

    pub get_mul : ℕ → Parser F (Tree F)
    get_mul zero s = out_of_fuel
    get_mul (suc f) s = run s (check (get_pow f) (get_product f))

    pub get_product : ℕ → Tree F → Parser F (Tree F)
    get_product zero val s = out_of_fuel
    get_product (suc f) val s = run s (
        current >>= λ t.
        if is_type t.type NodeType.op
          && (is_op t.value.op_value Ops.mul || is_op t.value.op_value Ops.div)
        then (advance
            >> check (get_pow f)
                (λ val₂. get_product f (node NodeType.op (op_val t.value.op_value) val val₂)))
        else pure val)

    pub get_pow : ℕ → Parser F (Tree F)
    get_pow zero s = out_of_fuel
    get_pow (suc f) s = run s (check (get_par f) (get_power f))

    pub get_power : ℕ → Tree F → Parser F (Tree F)
    get_power zero val s = out_of_fuel
    get_power (suc f) val s = run s (
        current >>= λ t.
        if is_type t.type NodeType.op && is_op t.value.op_value Ops.pow
        then (advance
            >> check (get_par f) (λ val₂. get_power f (node NodeType.op (op_val Ops.pow) val val₂)))
        else pure val)

    pub get_par : ℕ → Parser F (Tree F)
    get_par zero s = out_of_fuel
    get_par (suc f) s = run s (
        current >>= λ t.
        if is_type t.type NodeType.open_br
        then (advance >> check (get_expr f) (λ val. expect NodeType.close_br null (pure val)))
        else if is_type t.type num
        then get_num
        else if is_type t.type NodeType.unr_op
        then get_unary f
        else if is_type t.type NodeType.func
        then get_func f false
        else get_id)

    pub get_unary : ℕ → Parser F (Tree F)
    get_unary zero s = out_of_fuel
    get_unary (suc f) s = run s (
        current >>= λ t.
        advance
        >> expect NodeType.open_br null (
            check (get_expr f) (λ child.
              expect NodeType.close_br null
                (pure (node NodeType.unr_op (op_val t.value.op_value) null child)))))

    pub get_func : ℕ → Bool → Parser F (Tree F)
    get_func zero cmd_func s = out_of_fuel
    get_func (suc f) cmd_func s = run s (
        check get_id (λ func_name. expect NodeType.open_br null (
          check (get_expr f) (λ expr.
            get_args f >>= λ rest. pure (finish_func cmd_func (value_of func_name) expr rest)))))

    -- The `while` of `get_func`: `none` is `return NULL`; what `get_expr` returns is not checked.
    pub get_args : ℕ → Parser F (Option (Tree F))
    get_args zero s = out_of_fuel
    get_args (suc f) s = run s (
        current >>= λ t.
        if is_type t.type NodeType.close_br
        then (advance >> pure (some null))
        else expect NodeType.comma none
            (get_expr f >>= λ expr. get_args f >>= λ rest. pure (before expr rest)))
