-- ===== src/Tests/Source.antt =====
-- The theorems on texts for `рәис { x = 2; } # end`, with a line behind it.
use tatlang.Prelude.{
  ℕ, ◌+◌, ◌-◌, ◌*◌, ◌≡◌, refl, subst, true, some, List, [], ◌∷◌, ◌++◌, if◌then◌else◌,
}
use tatlang.Tree.{Name, NodeType, Ops, num_val, op_val, var_val}
use tatlang.Parser.State.{Token}
use tatlang.Parser.Grammar.{
  number, power, no_powers, product, no_factors, sum, no_terms, sign, emit_atom,
}
use tatlang.Parser.Programs.{Stmt, block, assign, entry, stop, emit_stmt, emit_stmts}
use tatlang.Pipeline.{Compiled, Ends}
use tatlang.Pipeline.Source.{compiled, compile_text, compile_text-Ends}
use tatlang.Frontend.Symbols.{Text, codes, get_symbs, is_number, is_reserved, is_num_symbol}
use tatlang.Frontend.Lexer.{fault, tokenize}
use tatlang.Frontend.Bounds.{Holds}
use tatlang.Frontend.Ends.{Tokenized, tokenize-Tokenized}
use tatlang.Frontend.Spelling.{
  is_name, IsKeyword, keyword_name, while_kwd, if_kwd, sin_kwd, cos_kwd, ln_kwd, sqrt_kwd,
  getvar_kwd, putexpr_kwd, declare_kwd, return_kwd, main_kwd, Spells, last_comment, blank, keyword,
  operator, variable, space, newline, left_brace, right_brace, semicolon, assigns, sign_token,
}
use tatlang.Frontend.Spelling
use tatlang.Frontend.Reads.{tokenize-Spells}
use tatlang.Frontend.Unended.{tokenize-unended}
use tatlang.Tests.Arithmetic.{naturals}

-- The number that the digits at the start of a text stand for.
abbrev digits : ℕ → Text → ℕ
digits n [] = n
digits n (c ∷ s) = let rest = digits (n * 10 + (c - 48)) s in if is_number c then rest else n

abbrev scan_naturals : Text → ℕ
scan_naturals s = digits 0 s

abbrev source : Text
source = codes "рәис { x = 2; }\n# end"

abbrev x_name : Name
x_name = codes "x"

x_name-IsKeyword : IsKeyword x_name → ⊥
x_name-IsKeyword (while_kwd, e) = cc
x_name-IsKeyword (if_kwd, e) = cc
x_name-IsKeyword (sin_kwd, e) = cc
x_name-IsKeyword (cos_kwd, e) = cc
x_name-IsKeyword (ln_kwd, e) = cc
x_name-IsKeyword (sqrt_kwd, e) = cc
x_name-IsKeyword (getvar_kwd, e) = cc
x_name-IsKeyword (putexpr_kwd, e) = cc
x_name-IsKeyword (declare_kwd, e) = cc
x_name-IsKeyword (return_kwd, e) = cc
x_name-IsKeyword (main_kwd, e) = cc

abbrev program : Stmt ℕ
program =
    entry
      (block (assign x_name (sum (product (power (number 2) no_powers) no_factors) no_terms)) stop)

abbrev tokens : List (Token ℕ)
tokens =
    sign ⦃d = naturals⦄ NodeType.main
    ∷ sign ⦃d = naturals⦄ NodeType.open_cbr
    ∷ record { type = NodeType.var; value = var_val ⦃d = naturals⦄ (some x_name) }
    ∷ record { type = NodeType.op; value = op_val ⦃d = naturals⦄ Ops.ass }
    ∷ record { type = NodeType.num; value = num_val ⦃d = naturals⦄ 2 }
    ∷ sign ⦃d = naturals⦄ NodeType.semicolon
    ∷ sign ⦃d = naturals⦄ NodeType.close_cbr
    ∷ []

tokens-program :
    tokens ++ sign ⦃d = naturals⦄ NodeType.end ∷ []
    ≡ emit_stmt ⦃d = naturals⦄ program
        (emit_stmts ⦃d = naturals⦄ stop (sign ⦃d = naturals⦄ NodeType.end ∷ []))
unfolding emit_stmt emit_atom
tokens-program = refl

abbrev memory : Text
memory = source ++ 0 ∷ 0 ∷ 0 ∷ 0 ∷ 0 ∷ []

source-memory : memory ≡ get_symbs source 25
unfolding get_symbs
source-memory = refl

abbrev after_number : Text
after_number = codes "; }\n# end" ++ 0 ∷ 0 ∷ 0 ∷ 0 ∷ 0 ∷ []

number-Spells : Spells ⦃d = naturals⦄ scan_naturals after_number (
    sign_token ⦃d = naturals⦄ NodeType.semicolon
    ∷ sign_token ⦃d = naturals⦄ NodeType.close_cbr
    ∷ [])
number-Spells =
    Spelling.sign semicolon _ _
      (blank space _ _ (Spelling.sign right_brace _ _ (blank newline _ _ (last_comment _ refl))))

source-Spells : Spells ⦃d = naturals⦄ scan_naturals memory tokens
unfolding is_number is_reserved is_num_symbol
source-Spells = keyword main_kwd b' ' _ _ refl (
    blank space _ _ (
      Spelling.sign left_brace _ _ (
        blank space _ _ (
          variable x_name _ _ refl refl x_name-IsKeyword (refl, refl)
            (blank space _ _ (
              operator assigns _ _ (
                blank space _ _
                  (Spelling.number b'2' [] after_number _ refl refl refl number-Spells))))))))

read-Spells : Spells ⦃d = naturals⦄ scan_naturals (get_symbs source 25) tokens
read-Spells = subst (λ m. Spells ⦃d = naturals⦄ scan_naturals m tokens) source-memory source-Spells

tokenize-Spells_example :
    Holds
      (tokens ++ sign_token ⦃d = naturals⦄ NodeType.end ∷ [])
      (tokenize ⦃d = naturals⦄ scan_naturals source 25)
tokenize-Spells_example = tokenize-Spells ⦃d = naturals⦄ scan_naturals source 25 tokens read-Spells

tokenize-Tokenized_example :
    Tokenized ⦃d = naturals⦄ (tokenize ⦃d = naturals⦄ scan_naturals source 25)
tokenize-Tokenized_example = tokenize-Tokenized ⦃d = naturals⦄ scan_naturals source 25

compile_text-Ends_example :
    (c : Compiled ℕ) × (compile_text ⦃d = naturals⦄ scan_naturals source 25 ≡ compiled c)
    × Ends ⦃d = naturals⦄ c
compile_text-Ends_example =
    compile_text-Ends ⦃d = naturals⦄ scan_naturals source 25 tokens program stop read-Spells
      tokens-program

x_name-is_name : is_name x_name ≡ true
unfolding is_reserved is_number
x_name-is_name = refl

tokenize-unended_example : tokenize ⦃d = naturals⦄ scan_naturals x_name 1 ≡ fault
tokenize-unended_example = tokenize-unended ⦃d = naturals⦄ scan_naturals b'x' [] 0 x_name-is_name
