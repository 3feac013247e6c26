-- ===== src/Tests/Syntax.antt =====
-- The theorem on a missing semicolon for `x = 2 }`.
use tatlang.Prelude.{ℕ, ◌≡◌, refl, false, [], ◌∷◌}
use tatlang.Tree.{Name, NodeType, null, is_type}
use tatlang.Parser.{is_cond}
use tatlang.Parser.State.{Token, parsed}
use tatlang.Parser.Descent.Commands.{parse_tokens}
use tatlang.Parser.Grammar.{
  number, power, no_powers, product, no_factors, Expr, sum, no_terms, sign,
}
use tatlang.Parser.Steps.{at}
use tatlang.Parser.Ends.{Ends}
use tatlang.Parser.Programs.Rejects.{emit_assign, parse_tokens-rejects}
use tatlang.Tests.Arithmetic.{naturals}

abbrev x_name : Name
x_name = b'x' ∷ []

abbrev two : Expr ℕ
two = sum (product (power (number 2) no_powers) no_factors) no_terms

abbrev brace : Token ℕ
brace = sign ⦃d = naturals⦄ NodeType.close_cbr

brace-Ends : Ends (brace ∷ [])
unfolding is_type is_cond
brace-Ends = (refl, refl, (refl, refl))

brace-is_type : is_type NodeType.close_cbr NodeType.semicolon ≡ false
unfolding is_type
brace-is_type = refl

parse_tokens-rejects_example :
    parse_tokens ⦃d = naturals⦄ 0 (emit_assign ⦃d = naturals⦄ x_name two (brace ∷ []))
    ≡ parsed null (at (brace ∷ []) 0)
parse_tokens-rejects_example =
    parse_tokens-rejects ⦃d = naturals⦄ x_name two brace [] 0 brace-Ends brace-is_type
