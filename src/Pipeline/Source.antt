-- ===== src/Pipeline/Source.antt =====
-- Language_test/main.cpp from the program text to the assembly file.
use tatlang.Prelude.{ℕ, ◌≡◌, ap, ◌∙◌, List, [], ◌∷◌, ◌++◌}
use tatlang.Double.{Double}
use tatlang.Tree.{NodeType}
use tatlang.Parser.State.{Token}
use tatlang.Parser.Grammar.{sign}
use tatlang.Parser.Programs.{Stmt, Stmts, emit_stmt, emit_stmts}
use tatlang.Pipeline.{Compiled, compile_tokens, Ends, compile_tokens-Ends}
use tatlang.Frontend.Symbols.{Text, get_symbs}
use tatlang.Frontend.Lexer.{
  FrdError, Tokens, Lexed, out_of_fuel, fault, overflow, failed, lexed, tokenize,
}
use tatlang.Frontend.Spelling.{Spells}
use tatlang.Frontend.Reads.{tokenize-Spells}

-- `unread` is an access out of bounds in the frontend.
pub data Run (F : Type 0) : Type 0 where
  unread : Run F
  tokenize_error : FrdError → Run F
  compiled : Compiled F → Run F

module _ {F : Type 0} ⦃d : Double F⦄ (scan_double : Text → F) where
  abbrev pub after_tokenize : Lexed (Tokens F) → Run F
  after_tokenize out_of_fuel = unread
  after_tokenize overflow = unread
  after_tokenize fault = unread
  after_tokenize (failed e) = tokenize_error e
  after_tokenize (lexed ts) = compiled (compile_tokens 0 ts.items)

  unfoldable pub compile_text : List ℕ → ℕ → Run F
  compile_text chars file_len = after_tokenize (tokenize scan_double chars file_len)

  text-tokens :
      (chars : List ℕ) (file_len : ℕ) (ts : List (Token F))
      → Spells scan_double (get_symbs chars file_len) ts
      → compile_text chars file_len ≡ compiled (compile_tokens 0 (ts ++ sign NodeType.end ∷ []))
  unfolding compile_text
  text-tokens chars file_len ts h =
      let (cap, e, fits) = tokenize-Spells scan_double chars file_len ts h in ap after_tokenize e

  -- A text that spells a program of the grammar passes the frontend and the parser, and the stages
  -- end on it: in lines of the backend, in an error of the optimizer, or in a backend that reads
  -- through NULL or a name table that nothing initialised.
  pub compile_text-Ends :
      (chars : List ℕ) (file_len : ℕ) (ts : List (Token F)) (s : Stmt F) (ss : Stmts F)
      → Spells scan_double (get_symbs chars file_len) ts
      → ts ++ sign NodeType.end ∷ [] ≡ emit_stmt s (emit_stmts ss (sign NodeType.end ∷ []))
      → (c : Compiled F) × (compile_text chars file_len ≡ compiled c) × Ends c
  compile_text-Ends chars file_len ts s ss h program = (
    _,
    text-tokens chars file_len ts h ∙ ap (λ l. compiled (compile_tokens 0 l)) program,
    compile_tokens-Ends s ss 0 [],
  )
