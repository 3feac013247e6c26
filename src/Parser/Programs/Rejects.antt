-- ===== src/Parser/Programs/Rejects.antt =====
-- What the parser does with an assignment that no semicolon follows.
use tatlang.Prelude.{ℕ, zero, suc, ◌+◌, ◌≤◌, ◌≡◌, refl, ◌∙◌, true, false, List, ◌∷◌, arith}
use tatlang.Double.{Double}
use tatlang.Tree.{Name, NodeType, Ops, Tree, null, node, var, is_type, op_val}
use tatlang.Parser.State.{Token, ParseState, parsed, Parser, pure, check, current, expect}
use tatlang.Parser.Descent.{get_expr}
use tatlang.Parser.Descent.Commands.{
  finish_cmd, get_scope, get_all_scopes, get_general, parse_tokens,
}
use tatlang.Parser.Grammar.{Expr, tok, name_val, emit_expr, tree_expr, cost_expr}
use tatlang.Parser.Steps.{at, check_node}
use tatlang.Parser.Ends.{Ends, tree_expr-is_null}
use tatlang.Parser.Reads.{get_expr-emit_expr}
use tatlang.Parser.Programs.Starts.{assign_step, scopes_step}
use tatlang.Parser.Programs.Fuel.{fuel_expr}

module _ {F : Type 0} ⦃d : Double F⦄ where
  check_null :
      (p : Parser F (Tree F)) (f : Tree F → Parser F (Tree F)) (s s' : ParseState F)
      → p s ≡ parsed null s'
      → check p f s ≡ parsed null s'
  check_null p f s s' e = rw e

  no_semicolon :
      (debt : ℕ) (cmd : Tree F) (t : Token F) (ts : List (Token F)) (debt' : ℕ)
      → is_type t.type NodeType.semicolon ≡ false
      → finish_cmd true debt cmd (at (t ∷ ts) debt') ≡ parsed null (at (t ∷ ts) debt')
  unfolding finish_cmd expect
  no_semicolon debt cmd t ts debt' h = rw h

  -- The tokens of the assignment in front of what follows it.
  abbrev pub emit_assign : Name → Expr F → List (Token F) → List (Token F)
  emit_assign x e ts = tok var (name_val x) ∷ tok NodeType.op (op_val Ops.ass) ∷ emit_expr e ts

  get_scope-rejects :
      (x : Name) (e : Expr F) (t : Token F) (ts : List (Token F)) (f debt : ℕ)
      → cost_expr e ≤ f
      → Ends (t ∷ ts)
      → is_type t.type NodeType.semicolon ≡ false
      → get_scope (suc (suc f)) (at (emit_assign x e (t ∷ ts)) debt) ≡ parsed null (at (t ∷ ts) 0)
  get_scope-rejects x e t ts f debt h ends other =
      let ass : Tree F → Tree F =
        λ v. node NodeType.op (op_val Ops.ass) (node var (name_val x) null null) v in
      assign_step f x (emit_expr e (t ∷ ts)) debt
      ∙ check_node (check (get_expr f) (λ v. pure (ass v))) (finish_cmd true debt)
          (ass (tree_expr e)) (at (emit_expr e (t ∷ ts)) 0) (at (t ∷ ts) 0)
          (check_node (get_expr f) _ _ _ _ (get_expr-emit_expr e f (t ∷ ts) 0 h ends)
            (tree_expr-is_null e))
          refl
      ∙ no_semicolon debt (ass (tree_expr e)) t ts 0 other

  general_assign :
      (x : Name) (e : Expr F) (f debt : ℕ) (ts : List (Token F))
      → get_general f debt (emit_assign x e ts)
        ≡ get_all_scopes f false NodeType.end (at (emit_assign x e ts) debt)
  unfolding get_general current is_type
  general_assign x e f debt ts = refl

  all_scopes-rejects :
      (x : Name) (e : Expr F) (t : Token F) (ts : List (Token F)) (f debt : ℕ)
      → 3 + cost_expr e ≤ f
      → Ends (t ∷ ts)
      → is_type t.type NodeType.semicolon ≡ false
      → get_all_scopes f false NodeType.end (at (emit_assign x e (t ∷ ts)) debt)
        ≡ parsed null (at (t ∷ ts) 0)
  all_scopes-rejects x e t ts zero debt h ends other = absurd (omega arith)
  all_scopes-rejects x e t ts (suc zero) debt h ends other = absurd (omega arith)
  all_scopes-rejects x e t ts (suc (suc zero)) debt h ends other = absurd (omega arith)
  all_scopes-rejects x e t ts (suc (suc (suc f))) debt h ends other =
      scopes_step (suc (suc f)) false NodeType.end _
      ∙ check_null (get_scope (suc (suc f))) _ _ _
          (get_scope-rejects x e t ts f debt (omega arith) ends other)

  -- A program that begins with an assignment and then a token that is no semicolon and cannot
  -- continue the expression is turned away with NULL, in front of that token.
  pub parse_tokens-rejects :
      (x : Name) (e : Expr F) (t : Token F) (ts : List (Token F)) (debt : ℕ)
      → Ends (t ∷ ts)
      → is_type t.type NodeType.semicolon ≡ false
      → parse_tokens debt (emit_assign x e (t ∷ ts)) ≡ parsed null (at (t ∷ ts) 0)
  unfolding parse_tokens
  parse_tokens-rejects x e t ts debt ends other =
      general_assign x e _ debt (t ∷ ts)
      ∙ all_scopes-rejects x e t ts _ debt (omega (arith, fuel_expr e (t ∷ ts))) ends other
