-- ===== src/Parser/Programs/Starts.antt =====
-- One call of each function that reads commands, at the tokens that begin its phrase.
use tatlang.Prelude.{ℕ, suc, ◌≡◌, refl, Bool, true, false, some, List, ◌∷◌}
use tatlang.Double.{Double}
use tatlang.Tree.{
  Name, NodeType, Ops, Tree, null, node, var, is_type, is_op, putexpr, op_val, func_val,
}
use tatlang.Parser.{
  is_cond, run, plain, manage_scopes, pay_debt_scope, pay_debt, get_id, get_params, before,
}
use tatlang.Parser.State.{
  Token, ParseState, parsed, Parser, ◌>>=◌, pure, check, current, advance, take_debt, add_debt,
  expect,
}
use tatlang.Parser.Descent.{get_expr, get_func}
use tatlang.Parser.Descent.Commands.{
  get_std_func, get_ass, get_return, finish_cmd, get_scope, get_all_scopes, get_more_scopes,
  get_general, hang, hang_more, unless_no_scope, unless_failed,
}
use tatlang.Parser.Grammar.{tok, sign, name_val}
use tatlang.Parser.Steps.{at}
use tatlang.Parser.Ends.{Ends}
use tatlang.Parser.Programs.{Stmt, read, cond, loop_type, emit_stmt, tree_stmt}

-- What ends the commands of a scope and of a program.
abbrev pub closing : Bool → NodeType
closing true = NodeType.close_cbr
closing false = NodeType.end

module _ {F : Type 0} ⦃d : Double F⦄ where
  pub semicolon-Ends : (ts : List (Token F)) → Ends (sign NodeType.semicolon ∷ ts)
  unfolding is_type is_cond
  semicolon-Ends ts = (refl, refl, (refl, refl))

  pub block_step :
      (f : ℕ) (ts : List (Token F)) (debt : ℕ)
      → get_scope (suc f) (at (sign NodeType.open_cbr ∷ ts) debt)
        ≡ check
            (get_all_scopes f true NodeType.close_cbr)
            (λ root. pure (pay_debt_scope (manage_scopes root) debt))
            (at ts 0)
  unfolding get_scope current advance take_debt is_type
  block_step f ts debt = refl

  pub scopes_step :
      (f : ℕ) (b : Bool) (e : NodeType) (s : ParseState F)
      → get_all_scopes (suc f) b e s
        ≡ check (get_scope f) (λ root. get_more_scopes f b e >>= λ rest. pure (hang root rest)) s
  unfolding get_all_scopes
  scopes_step f b e s = refl

  pub close_scope :
      (f : ℕ) (ts : List (Token F)) (debt : ℕ)
      → get_more_scopes (suc f) true NodeType.close_cbr (at (sign NodeType.close_cbr ∷ ts) debt)
        ≡ parsed (some null) (at ts (suc debt))
  unfolding get_more_scopes current advance add_debt is_type
  close_scope f ts debt = refl

  pub end_step :
      (f : ℕ) (ts : List (Token F)) (debt : ℕ)
      → get_more_scopes (suc f) false NodeType.end (at (sign NodeType.end ∷ ts) debt)
        ≡ parsed (some null) (at (sign NodeType.end ∷ ts) debt)
  unfolding get_more_scopes current is_type
  end_step f ts debt = refl

  pub more_step :
      (b : Bool) (s : Stmt F) (f : ℕ) (ts : List (Token F)) (debt : ℕ)
      → get_more_scopes (suc f) b (closing b) (at (emit_stmt s ts) debt)
        ≡ run (at (emit_stmt s ts) debt) (
            get_scope f >>= λ root.
            unless_no_scope root
              (get_more_scopes f b (closing b) >>= λ rest. pure (hang_more root rest)))
  unfolding get_more_scopes emit_stmt current is_type
  more_step true (cond true e s) f ts debt = refl
  more_step true (cond false e s) f ts debt = refl
  more_step false (cond true e s) f ts debt = refl
  more_step false (cond false e s) f ts debt = refl
  more_step true _ f ts debt = refl
  more_step false _ f ts debt = refl

  pub assign_step :
      (f : ℕ) (x : Name) (ts : List (Token F)) (debt : ℕ)
      → get_scope
          (suc (suc f))
          (at (tok var (name_val x) ∷ tok NodeType.op (op_val Ops.ass) ∷ ts) debt)
        ≡ check
            (check
              (get_expr f)
              (λ e. pure (node NodeType.op (op_val Ops.ass) (node var (name_val x) null null) e)))
            (finish_cmd true debt)
            (at ts 0)
  unfolding get_scope get_ass get_id current advance take_debt is_type is_op
  assign_step f x ts debt = refl

  pub print_step :
      (f : ℕ) (ts : List (Token F)) (debt : ℕ)
      → get_scope
          (suc (suc f))
          (at (tok NodeType.std_func (func_val putexpr) ∷ sign NodeType.open_br ∷ ts) debt)
        ≡ check
            (check (get_expr f) (λ e.
              expect NodeType.close_br null
                (pure (node NodeType.std_func (func_val putexpr) null e))))
            (finish_cmd true debt)
            (at ts 0)
  unfolding get_scope get_std_func current advance take_debt expect is_type
  print_step f ts debt = refl

  pub read_step :
      (f : ℕ) (x : Name) (ts : List (Token F)) (debt : ℕ)
      → get_scope (suc (suc f)) (at (emit_stmt (read x) ts) debt)
        ≡ parsed (tree_stmt (read x) debt) (at ts 0)
  unfolding get_scope get_std_func get_id finish_cmd current advance take_debt expect is_type
      emit_stmt tree_stmt
  read_step f x ts debt = refl

  pub perform_step :
      (f : ℕ) (x : Name) (ts : List (Token F)) (debt : ℕ)
      → get_scope (suc (suc f)) (at (tok NodeType.func (name_val x) ∷ ts) debt)
        ≡ check
            (get_func f true)
            (finish_cmd true debt)
            (at (tok NodeType.func (name_val x) ∷ ts) 0)
  unfolding get_scope current take_debt is_type
  perform_step f x ts debt = refl

  pub cond_step :
      (f : ℕ) (b : Bool) (ts : List (Token F)) (debt : ℕ)
      → get_scope (suc (suc (suc f))) (at (sign (loop_type b) ∷ sign NodeType.open_br ∷ ts) debt)
        ≡ check
            (check (get_expr f) (λ e.
              expect NodeType.close_br null
                (check (get_scope f) (λ scope. pure (plain (loop_type b) e scope)))))
            (finish_cmd false debt)
            (at ts 0)
  unfolding get_scope current advance take_debt expect is_type
  cond_step f true ts debt = refl
  cond_step f false ts debt = refl

  pub give_step :
      (f : ℕ) (ts : List (Token F)) (debt : ℕ)
      → get_scope (suc (suc f)) (at (sign NodeType.return_node ∷ ts) debt)
        ≡ check
            (get_expr f >>= λ e. pure (plain NodeType.return_node null e))
            (finish_cmd true debt)
            (at ts 0)
  unfolding get_scope get_return current take_debt expect is_type
  give_step f ts debt = refl

  pub define_step :
      (f : ℕ) (x p : Name) (ts : List (Token F)) (debt : ℕ)
      → get_scope (suc (suc (suc f))) (
          at
            (sign NodeType.declare
              ∷ tok NodeType.func (name_val x)
              ∷ sign NodeType.open_br
              ∷ tok var (name_val p)
              ∷ ts)
            debt)
        ≡ check
            (get_params f >>= λ rest. unless_failed rest (λ r. get_scope f >>= λ body. pure (
              node NodeType.func_decl
                (name_val x)
                (plain NodeType.comma (node var (name_val p) null null) r)
                body)))
            (finish_cmd false debt)
            (at ts 0)
  unfolding get_scope get_id current take_debt expect is_type
  define_step f x p ts debt = refl

  pub entry_step :
      (f : ℕ) (ts : List (Token F)) (debt : ℕ)
      → get_scope (suc (suc (suc f))) (at (sign NodeType.main ∷ ts) debt)
        ≡ check
            (get_scope f >>= λ body. pure (plain NodeType.main null body))
            (finish_cmd false debt)
            (at ts 0)
  unfolding get_scope current take_debt expect is_type
  entry_step f ts debt = refl

  pub semicolon_step :
      (debt : ℕ) (t : Tree F) (ts : List (Token F)) (debt' : ℕ)
      → finish_cmd true debt t (at (sign NodeType.semicolon ∷ ts) debt')
        ≡ parsed (pay_debt t debt) (at ts debt')
  unfolding finish_cmd expect is_type
  semicolon_step debt t ts debt' = refl

  pub params_end :
      (f : ℕ) (ts : List (Token F)) (debt : ℕ)
      → get_params (suc f) (at (sign NodeType.close_br ∷ ts) debt) ≡ parsed (some null) (at ts debt)
  unfolding get_params is_type
  params_end f ts debt = refl

  pub params_step :
      (f : ℕ) (x : Name) (ts : List (Token F)) (debt : ℕ)
      → get_params (suc f) (at (sign NodeType.comma ∷ tok var (name_val x) ∷ ts) debt)
        ≡ run
            (at ts debt)
            (get_params f >>= λ rest. pure (before (node var (name_val x) null null) rest))
  unfolding get_params is_type
  params_step f x ts debt = refl

  pub close_enter :
      (p : Parser F (Tree F)) (ts : List (Token F)) (debt : ℕ)
      → expect NodeType.close_br null p (at (sign NodeType.close_br ∷ ts) debt) ≡ p (at ts debt)
  unfolding expect is_type
  close_enter p ts debt = refl

  pub general_step :
      (s : Stmt F) (f debt : ℕ) (ts : List (Token F))
      → get_general f debt (emit_stmt s ts)
        ≡ get_all_scopes f false NodeType.end (at (emit_stmt s ts) debt)
  unfolding get_general emit_stmt current is_type
  general_step (cond true e s) f debt ts = refl
  general_step (cond false e s) f debt ts = refl
  general_step _ f debt ts = refl
