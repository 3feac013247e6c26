-- ===== src/Frontend/Keywords.antt =====
-- Language/Frontend/src/frontend_secondary.h and frontend_secondary.cpp: the keywords, and the
-- node that each stands for.
use tatlang.Prelude.{ℕ, Option, none, some, List, [], ◌∷◌, if◌then◌else◌}
use tatlang.Double.{Double}
use tatlang.Tree.{Name, wcsncmp_eq, NodeType, NodeValue, Ops, StdFunc, num_val, op_val, func_val}
use tatlang.Frontend.Symbols.{codes}

abbrev pub max_token_size : ℕ
max_token_size = 256

abbrev pub kwds : List Name
kwds =
    codes "булганда"
    ∷ codes "әгәр"
    ∷ codes "син"
    ∷ codes "кос"
    ∷ codes "лн"
    ∷ codes "тамырасты"
    ∷ codes "алалмаш"
    ∷ codes "мисалныяз"
    ∷ codes "белдерү"
    ∷ codes "киребир"
    ∷ codes "рәис"
    ∷ []

module _ {F : Type 0} ⦃d : Double F⦄ where
  -- The node of a keyword. Of a name that is none, NUM, and the value that was there before.
  unfoldable pub get_type : Name → NodeType × NodeValue F
  get_type token =
      if wcsncmp_eq token (codes "рәис") max_token_size
      then (NodeType.main, num_val (d.of_nat 0))
      else if wcsncmp_eq token (codes "мисалныяз") max_token_size
      then (NodeType.std_func, func_val StdFunc.putexpr)
      else if wcsncmp_eq token (codes "алалмаш") max_token_size
      then (NodeType.std_func, func_val StdFunc.getvar)
      else if wcsncmp_eq token (codes "булганда") max_token_size
      then (NodeType.while_node, num_val (d.of_nat 0))
      else if wcsncmp_eq token (codes "әгәр") max_token_size
      then (NodeType.if_node, num_val (d.of_nat 0))
      else if wcsncmp_eq token (codes "белдерү") max_token_size
      then (NodeType.declare, num_val (d.of_nat 0))
      else if wcsncmp_eq token (codes "киребир") max_token_size
      then (NodeType.return_node, num_val (d.of_nat 0))
      else if wcsncmp_eq token (codes "син") max_token_size
      then (NodeType.unr_op, op_val Ops.sin)
      else if wcsncmp_eq token (codes "кос") max_token_size
      then (NodeType.unr_op, op_val Ops.cos)
      else if wcsncmp_eq token (codes "лн") max_token_size
      then (NodeType.unr_op, op_val Ops.ln)
      else if wcsncmp_eq token (codes "тамырасты") max_token_size
      then (NodeType.unr_op, op_val Ops.sqrt)
      else (NodeType.num, num_val (d.of_nat 0))

  unfoldable pub search_kwds : Name → List Name → Option (NodeType × NodeValue F)
  unfolding get_type
  search_kwds token [] = none
  search_kwds token (k ∷ ks) =
      let rest = search_kwds token ks in
      if wcsncmp_eq token k max_token_size then some (get_type token) else rest

  unfoldable pub is_kwd : Name → Option (NodeType × NodeValue F)
  unfolding search_kwds
  is_kwd token = search_kwds token kwds
