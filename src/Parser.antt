-- ===== src/Parser.antt =====
-- Recursive_parser: the tree from the tokens, by recursive descent (recursive_parser.cpp,
-- recursive_parser_secondary.cpp). Each call and each round of a loop costs a unit of fuel.
pub mod State
pub mod Descent
pub mod Grammar
pub mod Steps
pub mod Ends
pub mod Reads
pub mod Programs
use tatlang.Prelude.{
  ℕ, zero, suc, ◌+◌, ◌*◌, Bool, true, false, ◌&&◌, ◌||◌, Option, none, some, List, [], ◌∷◌,
  if◌then◌else◌, length,
}
use tatlang.Double.{Double}
use tatlang.Tree.{
  NodeType, NodeValue, Ops, Tree, null, node, num, var, StdFunc, getvar, putexpr, is_type, is_op,
  create_node, num_val, op_val, var_val, func_val,
}
use State.{
  Token, ParseState, Parsed, out_of_fuel, overrun, parsed, Parser, bind, ◌>>=◌, ◌>>◌, pure,
  unless_null, check, current, advance, take_debt, add_debt, expect,
}

-- `move_scope_end` and the assignment to `right`: `r` hangs on the last node to the right.
unfoldable pub append_right : {F : Type 0} → Tree F → Tree F → Tree F
append_right null r = r
append_right (node ty v l r) r' = node ty v l (append_right r r')

unfoldable pub is_cond : NodeType → Bool
is_cond ty =
    is_type ty NodeType.above
    || is_type ty NodeType.below
    || is_type ty NodeType.above_equal
    || is_type ty NodeType.below_equal
    || is_type ty NodeType.equal
    || is_type ty NodeType.not_equal

abbrev pub run : {F A : Type 0} → ParseState F → Parser F A → Parsed F A
run s p = p s

module _ {F : Type 0} ⦃d : Double F⦄ where
  -- `create_node(ty, {.num_value = 0}, l, r)`.
  abbrev pub plain : NodeType → Tree F → Tree F → Tree F
  plain ty l r = node ty (num_val (d.of_nat 0)) l r

  unfoldable pub manage_scopes : Tree F → Tree F
  manage_scopes null = null
  manage_scopes (node ty v l r) =
      if is_type ty NodeType.scope_start
      then plain NodeType.scope_start null (node ty v l r)
      else node NodeType.scope_start v l r

  unfoldable pub pay_debt_scope : Tree F → ℕ → Tree F
  pay_debt_scope root zero = root
  pay_debt_scope root (suc n) = pay_debt_scope (plain NodeType.scope_end null root) n

  -- The debt is not zero; the last of the nodes holds the command.
  unfoldable pub pay_debt_cmd : Tree F → ℕ → Tree F
  pay_debt_cmd cmd zero = plain NodeType.scope_end cmd null
  pay_debt_cmd cmd (suc zero) = plain NodeType.scope_end cmd null
  pay_debt_cmd cmd (suc (suc n)) = plain NodeType.scope_end null (pay_debt_cmd cmd (suc n))

  -- `PAY_CMD_DEBT`.
  unfoldable pub pay_debt : Tree F → ℕ → Tree F
  unfolding pay_debt_cmd
  pay_debt cmd zero = plain NodeType.semicolon cmd null
  pay_debt cmd (suc n) = pay_debt_cmd cmd (suc n)

  unfoldable pub get_num : Parser F (Tree F)
  unfolding current advance
  get_num = current >>= λ t. advance >> pure (node num (num_val t.value.num_value) null null)

  -- Any token is taken for an identifier.
  unfoldable pub get_id : Parser F (Tree F)
  unfolding current advance
  get_id = current >>= λ t. advance >> pure (node var (var_val t.value.var_value) null null)

  -- A comma's node in front of the rest of a list.
  abbrev pub before : Tree F → Option (Tree F) → Option (Tree F)
  before arg none = none
  before arg (some r) = some (plain NodeType.comma arg r)

  -- The end of `get_func`, where its `while` gave the rest of the arguments or NULL.
  abbrev pub finish_func : Bool → NodeValue F → Tree F → Option (Tree F) → Tree F
  finish_func cmd_func v expr none = null
  finish_func cmd_func v expr (some r) =
      node (if cmd_func then NodeType.cmd_func else NodeType.func) v (plain NodeType.comma expr r)
        null

  -- The rest of the parameters of a declaration, from the `while` on: `none` is `return NULL`.
  unfoldable pub get_params : ℕ → Parser F (Option (Tree F))
  unfolding current advance expect get_id
  get_params zero s = out_of_fuel
  get_params (suc f) s =
      let more : Parser F (Option (Tree F)) =
        expect NodeType.comma none
          (get_id >>= λ arg. get_params f >>= λ rest. pure (before arg rest)) in
      run s (
        current >>= λ t.
        if is_type t.type NodeType.close_br then (advance >> pure (some null)) else more)

  abbrev pub value_of : Tree F → NodeValue F
  value_of null = num_val (d.of_nat 0)
  value_of (node ty v l r) = v
