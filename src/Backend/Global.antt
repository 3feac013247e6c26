-- ===== src/Backend/Global.antt =====
-- Language/Backend/src: an assignment outside of every scope.
use tatlang.Prelude.{◌≡◌, refl, false, Option, []}
use tatlang.Tree.{Name, NodeType, NodeValue, Ops, Tree, null, node, var}
use tatlang.Spu.Expressions.{Arith}
use tatlang.Backend.Lines.{fault}
use tatlang.Backend.Names.{get_loc, get_loc_found, search_tables, init_current}
use tatlang.Backend.Codegen.{write_op, pop_to}
use tatlang.Backend.Codegen.Asmbl.{asmbl, asmbl_node, assembly}
use tatlang.Backend.Text.{tree_of, asmbl-tree_of}

-- The tree of `x = e;` in front of further statements, as the parser builds it; `v` has what the
-- nodes do not use.
abbrev pub assignment : {F : Type 0} → NodeValue F → Option Name → Arith F → Tree F → Tree F
assignment v x e rest =
    node NodeType.semicolon v
      (node NodeType.op (record v { op_value = Ops.ass })
        (node var (record v { var_value = x }) null null) (tree_of v e))
      rest

-- A program that begins, outside of every scope, with the assignment of an arithmetic expression to
-- a variable makes `assembly` read through NULL, where the name tables should be.
pub assembly-assignment :
    {F : Type 0} (v : NodeValue F) (x : Option Name) (e : Arith F) (rest : Tree F)
    → assembly (assignment v x e rest) ≡ fault
unfolding assembly asmbl asmbl_node write_op pop_to get_loc get_loc_found search_tables init_current
assembly-assignment v x e rest =
    rw (asmbl-tree_of v e 0 (record { name_tables = []; in_func_start = false })) refl
