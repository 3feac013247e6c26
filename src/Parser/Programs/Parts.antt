-- ===== src/Parser/Programs/Parts.antt =====
-- The parts of a command behind its first tokens: parameters, the semicolon, the end of a scope.
use tatlang.Prelude.{ℕ, zero, suc, ◌≤◌, ◌≡◌, ap, ◌∙◌, Bool, true, false, some, List, [], ◌∷◌, arith}
use tatlang.Double.{Double}
use tatlang.Tree.{Name, NodeType, Tree, null, node, var, is_null}
use tatlang.Parser.{pay_debt, get_params, before}
use tatlang.Parser.State.{Token, ParseState, parsed, Parser, bind, pure, check}
use tatlang.Parser.Descent.Commands.{finish_cmd, get_more_scopes}
use tatlang.Parser.Grammar.{sign, name_val}
use tatlang.Parser.Steps.{at, check_node}
use tatlang.Parser.Programs.{emit_params, tree_params, cost_params}
use tatlang.Parser.Programs.Starts.{
  closing, close_scope, end_step, semicolon_step, params_end, params_step,
}

module _ {F : Type 0} ⦃d : Double F⦄ where
  pub get_params-emit_params :
      (ps : List Name) (f : ℕ) (ts : List (Token F)) (debt : ℕ)
      → cost_params ps ≤ f
      → get_params f (at (emit_params ps ts) debt) ≡ parsed (some (tree_params ps)) (at ts debt)
  unfolding emit_params tree_params cost_params
  get_params-emit_params [] zero ts debt h = absurd (omega arith)
  get_params-emit_params [] (suc f) ts debt h = params_end f ts debt
  get_params-emit_params (x ∷ xs) zero ts debt h = absurd (omega arith)
  get_params-emit_params (x ∷ xs) (suc f) ts debt h =
      params_step f x _ debt
      ∙ ap (λ r. bind r (λ rest. pure (before (node var (name_val x) null null) rest)))
          (get_params-emit_params xs f ts debt (omega arith))

  -- A command that was read, with the semicolon behind it.
  pub command :
      (p : Parser F (Tree F)) (debt : ℕ) (t : Tree F) (s : ParseState F) (ts : List (Token F))
      (debt' : ℕ)
      → p s ≡ parsed t (at (sign NodeType.semicolon ∷ ts) debt')
      → is_null t ≡ false
      → check p (finish_cmd true debt) s ≡ parsed (pay_debt t debt) (at ts debt')
  command p debt t s ts debt' e h =
      check_node p (finish_cmd true debt) t s _ e h ∙ semicolon_step debt t ts debt'

  -- A command without a semicolon.
  pub compound :
      (p : Parser F (Tree F)) (debt : ℕ) (t : Tree F) (s s' : ParseState F)
      → p s ≡ parsed t s'
      → is_null t ≡ false
      → check p (finish_cmd false debt) s ≡ parsed (pay_debt t debt) s'
  unfolding finish_cmd
  compound p debt t s s' e h = check_node p (finish_cmd false debt) t s s' e h

  -- What is left behind the sign that ends the commands of a scope or of a program.
  abbrev pub after : Bool → List (Token F) → ℕ → ParseState F
  after true ts debt = at ts (suc debt)
  after false ts debt = at (sign NodeType.end ∷ ts) debt

  pub end_of_more :
      (b : Bool) (f : ℕ) (ts : List (Token F)) (debt : ℕ)
      → get_more_scopes (suc f) b (closing b) (at (sign (closing b) ∷ ts) debt)
        ≡ parsed (some null) (after b ts debt)
  end_of_more true f ts debt = close_scope f ts debt
  end_of_more false f ts debt = end_step f ts debt
