-- ===== src/Midend.antt =====
-- Language/Midend: constant folding and trivial simplifications, repeated until nothing changes
-- (midend.cpp, midend_secondary.cpp, dsl/def_triv_dsl.h). The globals `change_flag` and
-- `*error_code` are the state that each function takes and returns.
pub mod Shrinks
pub mod Settled
pub mod Rewriting
pub mod Accepted
use tatlang.Prelude.{ℕ, zero, suc, Bool, true, false, ◌&&◌, ◌||◌, Option, none, some, if◌then◌else◌}
use tatlang.Double.{Double, is_same, cmp_double}
use tatlang.Tree.{
  NodeType, NodeValue, Ops, Tree, null, node, num, var, is_type, is_op, num_val, create_node,
  var_eq, size,
}

pub data MidError : Type 0 where
  mid_all_good mid_null_node mid_div_by_zero mid_invalid_op : MidError

pub record MidState : Type 0 where
  pub change_flag : Bool
  pub error_code : MidError

abbrev pub max_var_size : ℕ
max_var_size = 100

-- `change_flag = true`, and an error code where there is one.
abbrev pub changed : MidState → MidState
changed s = record s { change_flag = true }

-- `*error_code = MID_ALL_GOOD`; the loop resets the flag before each pass.
abbrev pub start : MidState
start = record { change_flag = false; error_code = mid_all_good }

module _ {F : Type 0} ⦃d : Double F⦄ where
  -- The `switch` of `eval`.
  unfoldable pub eval_op : Ops → F → F → MidError → F × MidError
  eval_op Ops.add a b e = (d.add a b, e)
  eval_op Ops.sub a b e = (d.sub a b, e)
  eval_op Ops.mul a b e = (d.mul a b, e)
  eval_op Ops.div a b e =
      if is_same (cmp_double b (d.of_nat 0)) then (d.nan, mid_div_by_zero) else (d.div a b, e)
  eval_op Ops.pow a b e = (d.pow a b, e)
  eval_op Ops.ln a b e = (d.log b, e)
  eval_op Ops.sin a b e = (d.sin b, e)
  eval_op Ops.cos a b e = (d.cos b, e)
  eval_op Ops.sqrt a b e = (d.sqrt b, e)
  eval_op Ops.do_nothing a b e = (d.nan, mid_invalid_op)
  eval_op Ops.ass a b e = (d.nan, mid_invalid_op)

  unfoldable pub eval : Tree F → MidError → F × MidError
  eval null e = (d.nan, mid_null_node)
  eval (node ty v l r) e =
      let operation =
        let (a, e₁) = eval l e in let (b, e₂) = eval r e₁ in eval_op v.op_value a b e₂ in
      if is_type ty num then (v.num_value, e) else operation

  -- `node->type == NUM`, where `node` is not NULL.
  unfoldable pub is_num : Tree F → Bool
  is_num null = false
  is_num (node ty v l r) = is_type ty num

  unfoldable pub fold_consts : Tree F → MidState → Tree F × MidState
  unfolding create_node is_num
  fold_consts null s = (null, s)
  fold_consts (node ty v null r) s = (node ty v null r, s)
  fold_consts (node ty v (node tl vl ll rl) null) s = (node ty v (node tl vl ll rl) null, s)
  fold_consts (node ty v (node tl vl ll rl) (node tr vr lr rr)) s =
      let t = node ty v (node tl vl ll rl) (node tr vr lr rr) in
      let (result, e) = eval t s.error_code in
      if is_type tl num && is_type tr num
      then (
        create_node num (num_val result) null null,
        record { change_flag = true; error_code = e },
      )
      else (t, s)

  -- `cmp_double(x, k) == 0`.
  unfoldable pub is_const : ℕ → F → Bool
  is_const k x = is_same (cmp_double x (d.of_nat k))

  unfoldable pub leaf : F → Tree F
  unfolding create_node
  leaf x = create_node num (num_val x) null null

  -- The branches of `solve_trivial_expr` below its NULL checks, over the operator of the node and
  -- its two children: what is returned, if `change_flag` is set.
  unfoldable pub left_zero : NodeType → Ops → Tree F → Option (Tree F)
  unfolding leaf
  left_zero ty o right =
      if is_type ty NodeType.op && (is_op o Ops.mul || is_op o Ops.div || is_op o Ops.pow)
      then some (leaf (d.of_nat 0))
      else if is_type ty NodeType.op && is_op o Ops.add
      then some right
      else none

  unfoldable pub right_zero : NodeType → Ops → Tree F → Option (Tree F)
  unfolding leaf
  right_zero ty o left =
      if is_type ty NodeType.op && is_op o Ops.mul
      then some (leaf (d.of_nat 0))
      else if is_type ty NodeType.op && is_op o Ops.pow
      then some (leaf (d.of_nat 1))
      else if is_type ty NodeType.op && is_op o Ops.div
      then some (leaf d.nan)
      else if is_type ty NodeType.op && (is_op o Ops.add || is_op o Ops.sub)
      then some left
      else none

  unfoldable pub left_one : NodeType → Ops → Tree F → Option (Tree F)
  unfolding leaf
  left_one ty o right =
      if is_type ty NodeType.op && is_op o Ops.mul
      then some right
      else if is_type ty NodeType.op && is_op o Ops.pow
      then some (leaf (d.of_nat 1))
      else none

  unfoldable pub right_one : NodeType → Ops → Tree F → Option (Tree F)
  right_one ty o left =
      if is_type ty NodeType.op && (is_op o Ops.mul || is_op o Ops.pow || is_op o Ops.div)
      then some left
      else none

  unfoldable pub trivial :
      NodeType
      → Ops
      → NodeType
      → NodeValue F
      → NodeType
      → NodeValue F
      → Tree F
      → Tree F
      → Option (Tree F)
  trivial ty o tl vl tr vr left right =
      if is_type tl num && is_const 0 vl.num_value
      then left_zero ty o right
      else if is_type tr num && is_const 0 vr.num_value
      then right_zero ty o left
      else if is_type tl num && is_const 1 vl.num_value
      then left_one ty o right
      else if is_type tr num && is_const 1 vr.num_value
      then right_one ty o left
      else if is_type tl var
          && (is_type tr var
              && ((is_type ty NodeType.op && is_op o Ops.sub)
                  && var_eq vl.var_value vr.var_value max_var_size))
      then some (leaf (d.of_nat 0))
      else none

  -- `some t` sets the flag and returns `t`; `none` is the final `return node`.
  abbrev pub replaced : Option (Tree F) → Tree F → MidState → Tree F × MidState
  replaced none t s = (t, s)
  replaced (some t') t s = (t', changed s)

  unfoldable pub solve_trivial_expr : Tree F → MidState → Tree F × MidState
  solve_trivial_expr null s = (null, s)
  solve_trivial_expr (node ty v null r) s = (node ty v null r, s)
  solve_trivial_expr (node ty v (node tl vl ll rl) null) s = (node ty v (node tl vl ll rl) null, s)
  solve_trivial_expr (node ty v (node tl vl ll rl) (node tr vr lr rr)) s =
      let left = node tl vl ll rl in
      let right = node tr vr lr rr in
      replaced (trivial ty v.op_value tl vl tr vr left right) (node ty v left right) s

  unfoldable pub simplify : Tree F → MidState → Tree F × MidState
  simplify null s = (null, s)
  simplify (node ty v l r) s =
      let (l', s₁) = simplify l s in
      let (r', s₂) = simplify r s₁ in
      let (t, s₃) = fold_consts (node ty v l' r') s₂ in solve_trivial_expr t s₃

  -- The `do ... while(change_flag == true)` loop; `none` means that the fuel ran out.
  unfoldable pub optimize_loop : ℕ → Tree F → MidState → Option (Tree F × MidError)
  optimize_loop zero root s = none
  optimize_loop (suc f) root s =
      let (root', s') = simplify root (record s { change_flag = false }) in
      let rest = optimize_loop f root' s' in
      if s'.change_flag then rest else some (root', s'.error_code)

  unfoldable pub optimize : Tree F → Option (Tree F × MidError)
  optimize root = optimize_loop (suc (size root)) root start
