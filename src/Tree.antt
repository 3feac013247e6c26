-- ===== src/Tree.antt =====
-- B_tree: the nodes that all stages of the compiler share (B_tree/include/b_tree.h,
-- B_tree/src/b_tree.cpp). A tree is a value: a pointer is the tree that it points to, and NULL
-- is `null`. An allocation always succeeds.
use tatlang.Prelude.{
  ℕ, zero, suc, ◌+◌, Bool, true, false, ◌&&◌, ◌||◌, Option, none, some, List, [], ◌∷◌, ◌==◌,
  if◌then◌else◌,
}
use tatlang.Double.{Double, is_same, cmp_double}

-- `wchar_t *`: the characters in front of the terminating zero.
abbrev pub Name : Type 0
Name = List ℕ

-- `!wcsncmp(s, t, n)`: the comparison ends at a zero, as it stands behind every name.
unfoldable pub wcsncmp_eq : Name → Name → ℕ → Bool
wcsncmp_eq s t zero = true
wcsncmp_eq [] [] (suc n) = true
wcsncmp_eq [] (b ∷ t) (suc n) = b == 0
wcsncmp_eq (a ∷ s) [] (suc n) = a == 0
wcsncmp_eq (a ∷ s) (b ∷ t) (suc n) = a == b && (a == 0 || wcsncmp_eq s t n)

pub data NodeType : Type 0 where
  num op var open_br close_br open_cbr close_cbr semicolon keyword end : NodeType
  scope_start scope_end if_node while_node std_func unr_op func declare return_node : NodeType
  comma func_decl main cmd_func above below above_equal below_equal equal not_equal : NodeType

-- The values of the enumeration.
unfoldable pub type_code : NodeType → ℕ
type_code num = 0
type_code op = 1
type_code var = 2
type_code open_br = 3
type_code close_br = 4
type_code open_cbr = 5
type_code close_cbr = 6
type_code semicolon = 7
type_code keyword = 8
type_code end = 9
type_code scope_start = 10
type_code scope_end = 11
type_code if_node = 12
type_code while_node = 13
type_code std_func = 14
type_code unr_op = 15
type_code func = 16
type_code declare = 17
type_code return_node = 18
type_code comma = 19
type_code func_decl = 20
type_code main = 21
type_code cmd_func = 22
type_code above = 23
type_code below = 24
type_code above_equal = 25
type_code below_equal = 26
type_code equal = 27
type_code not_equal = 28

unfoldable pub is_type : NodeType → NodeType → Bool
unfolding type_code
is_type a b = type_code a == type_code b

pub data Ops : Type 0 where
  do_nothing add sub mul div pow ln sin cos sqrt ass : Ops

unfoldable pub op_code : Ops → ℕ
op_code do_nothing = 0
op_code add = 1
op_code sub = 2
op_code mul = 3
op_code div = 4
op_code pow = 5
op_code ln = 6
op_code sin = 7
op_code cos = 8
op_code sqrt = 9
op_code ass = 10

unfoldable pub is_op : Ops → Ops → Bool
unfolding op_code
is_op a b = op_code a == op_code b

pub data StdFunc : Type 0 where
  getvar putexpr : StdFunc

-- A struct, not a union: the field that an initialiser leaves out is zero.
pub record NodeValue (F : Type 0) : Type 0 where
  pub num_value : F
  pub op_value : Ops
  pub var_value : Option Name
  pub func : StdFunc

pub data Tree (F : Type 0) : Type 0 where
  null : Tree F
  node : NodeType → NodeValue F → Tree F → Tree F → Tree F

-- The error codes of the operations below.
pub data TreeError : Type 0 where
  all_good node_null_ptr parent_node_is_free : TreeError

-- The number of nodes.
unfoldable pub size : {F : Type 0} → Tree F → ℕ
size null = 0
size (node ty v l r) = suc (size l + size r)

-- `is_null t` is `t == NULL`.
abbrev pub is_null : {F : Type 0} → Tree F → Bool
is_null null = true
is_null (node ty v l r) = false

unfoldable pub create_node : {F : Type 0} → NodeType → NodeValue F → Tree F → Tree F → Tree F
create_node ty v l r = node ty v l r

-- The parent is the updated node.
unfoldable pub add_child : {F : Type 0} → Tree F → Tree F → Bool → TreeError × Tree F
add_child null child is_right = (node_null_ptr, null)
add_child (node ty v l r) null is_right = (node_null_ptr, node ty v l r)
add_child (node ty v l r) (node tc vc lc rc) is_right =
    if is_right
    then (all_good, node ty v l (node tc vc lc rc))
    else (all_good, node ty v (node tc vc lc rc) r)

unfoldable pub destroy_subtree : {F : Type 0} → Tree F → Bool → TreeError × Tree F
destroy_subtree null is_right = (parent_node_is_free, null)
destroy_subtree (node ty v l r) is_right =
    if is_right then (all_good, node ty v l null) else (all_good, node ty v null r)

abbrev pub node_label_str_size : ℕ
node_label_str_size = 1000

-- `!wcsncmp` on two pointers; reading through NULL is undefined in C, and is `false` here.
unfoldable pub var_eq : Option Name → Option Name → ℕ → Bool
var_eq (some s) (some t) n = wcsncmp_eq s t n
var_eq (some s) none n = false
var_eq none t n = false

module _ {F : Type 0} ⦃d : Double F⦄ where
  -- The values that `{.num_value = x}`, `{.op_value = o}`, ... initialise.
  abbrev pub num_val : F → NodeValue F
  num_val x = record { num_value = x; op_value = do_nothing; var_value = none; func = getvar }

  abbrev pub op_val : Ops → NodeValue F
  op_val o = record { num_value = d.of_nat 0; op_value = o; var_value = none; func = getvar }

  abbrev pub var_val : Option Name → NodeValue F
  var_val x = record { num_value = d.of_nat 0; op_value = do_nothing; var_value = x; func = getvar }

  abbrev pub func_val : StdFunc → NodeValue F
  func_val f = record { num_value = d.of_nat 0; op_value = do_nothing; var_value = none; func = f }

  -- The disjunction at the end of `cmp_nodes`.
  unfoldable pub same_content : NodeType → NodeValue F → NodeType → NodeValue F → Bool
  same_content t₁ v₁ t₂ v₂ =
      (is_type t₁ num && is_type t₂ num) && is_same (cmp_double v₁.num_value v₂.num_value)
      || (is_type t₁ op && is_type t₂ op) && is_op v₁.op_value v₂.op_value
      || (is_type t₁ var && is_type t₂ var) && var_eq v₁.var_value v₂.var_value node_label_str_size

  unfoldable pub cmp_nodes : Tree F → Tree F → Bool
  cmp_nodes null null = true
  cmp_nodes null (node t₂ v₂ l₂ r₂) = false
  cmp_nodes (node t₁ v₁ l₁ r₁) null = false
  cmp_nodes (node t₁ v₁ l₁ r₁) (node t₂ v₂ l₂ r₂) =
      cmp_nodes l₁ l₂ && cmp_nodes r₁ r₂ && same_content t₁ v₁ t₂ v₂
