-- ===== src/Parser/Programs.antt =====
-- The grammar of commands and scopes: its phrases, their tokens, and their trees. A tree depends
-- on the debt, the number of scopes that ended in front of it and whose end it carries.
pub mod Starts
pub mod Shape
pub mod Parts
pub mod Read
pub mod Fuel
pub mod Compiles
pub mod Flat
pub mod Balance
pub mod Rejects
use tatlang.Prelude.{ℕ, zero, suc, ◌+◌, Bool, true, false, Option, some, List, [], ◌∷◌}
use tatlang.Double.{Double}
use tatlang.Tree.{Name, NodeType, Ops, Tree, null, node, var, getvar, putexpr, op_val, func_val}
use tatlang.Parser.{append_right, plain, manage_scopes, pay_debt_scope, pay_debt}
use tatlang.Parser.State.{Token}
use tatlang.Parser.Grammar.{
  Expr, Args, tok, sign, name_val, emit_expr, emit_args, tree_expr, tree_args, cost_expr, cost_args,
}

-- A scope and a program are a command and more commands.
mutual
  pub data Stmt (F : Type 0) : Type 0 where
    block : Stmt F → Stmts F → Stmt F
    assign : Name → Expr F → Stmt F
    print : Expr F → Stmt F
    read : Name → Stmt F
    perform : Name → Expr F → Args F → Stmt F
    cond : Bool → Expr F → Stmt F → Stmt F
    give : Expr F → Stmt F
    define : Name → Name → List Name → Stmt F → Stmt F
    entry : Stmt F → Stmt F

  pub data Stmts (F : Type 0) : Type 0 where
    stop : Stmts F
    then_ : Stmt F → Stmts F → Stmts F

-- `cond true` is the `while`.
abbrev pub loop_type : Bool → NodeType
loop_type true = NodeType.while_node
loop_type false = NodeType.if_node

module _ {F : Type 0} ⦃d : Double F⦄ where
  -- The parameters behind the first, and the closing bracket.
  unfoldable pub emit_params : List Name → List (Token F) → List (Token F)
  emit_params [] ts = sign NodeType.close_br ∷ ts
  emit_params (x ∷ xs) ts = sign NodeType.comma ∷ tok var (name_val x) ∷ emit_params xs ts

  unfoldable pub tree_params : List Name → Tree F
  tree_params [] = null
  tree_params (x ∷ xs) = plain NodeType.comma (node var (name_val x) null null) (tree_params xs)

  unfoldable mutual
    pub emit_stmt : Stmt F → List (Token F) → List (Token F)
    emit_stmt (block s ss) ts =
        sign NodeType.open_cbr ∷ emit_stmt s (emit_stmts ss (sign NodeType.close_cbr ∷ ts))
    emit_stmt (assign x e) ts =
        tok var (name_val x)
        ∷ tok NodeType.op (op_val Ops.ass)
        ∷ emit_expr e (sign NodeType.semicolon ∷ ts)
    emit_stmt (print e) ts =
        tok NodeType.std_func (func_val putexpr)
        ∷ sign NodeType.open_br
        ∷ emit_expr e (sign NodeType.close_br ∷ sign NodeType.semicolon ∷ ts)
    emit_stmt (read x) ts =
        tok NodeType.std_func (func_val getvar)
        ∷ sign NodeType.open_br
        ∷ tok var (name_val x)
        ∷ sign NodeType.close_br
        ∷ sign NodeType.semicolon
        ∷ ts
    emit_stmt (perform x e args) ts =
        tok NodeType.func (name_val x)
        ∷ sign NodeType.open_br
        ∷ emit_expr e (emit_args args (sign NodeType.semicolon ∷ ts))
    emit_stmt (cond b e s) ts =
        sign (loop_type b)
        ∷ sign NodeType.open_br
        ∷ emit_expr e (sign NodeType.close_br ∷ emit_stmt s ts)
    emit_stmt (give e) ts = sign NodeType.return_node ∷ emit_expr e (sign NodeType.semicolon ∷ ts)
    emit_stmt (define x p ps s) ts =
        sign NodeType.declare
        ∷ tok NodeType.func (name_val x)
        ∷ sign NodeType.open_br
        ∷ tok var (name_val p)
        ∷ emit_params ps (emit_stmt s ts)
    emit_stmt (entry s) ts = sign NodeType.main ∷ emit_stmt s ts

    pub emit_stmts : Stmts F → List (Token F) → List (Token F)
    emit_stmts stop ts = ts
    emit_stmts (then_ s ss) ts = emit_stmt s (emit_stmts ss ts)

-- The debt that is left behind a command, and behind more commands.
unfoldable mutual
  pub debt_stmt : {F : Type 0} → Stmt F → ℕ
  debt_stmt (block s ss) = suc (debt_stmts ss (debt_stmt s))
  debt_stmt (cond b e s) = debt_stmt s
  debt_stmt (define x p ps s) = debt_stmt s
  debt_stmt (entry s) = debt_stmt s
  debt_stmt _ = 0

  pub debt_stmts : {F : Type 0} → Stmts F → ℕ → ℕ
  debt_stmts stop debt = debt
  debt_stmts (then_ s ss) debt = debt_stmts ss (debt_stmt s)

module _ {F : Type 0} ⦃d : Double F⦄ where
  unfoldable mutual
    pub tree_stmt : Stmt F → ℕ → Tree F
    tree_stmt (block s ss) debt =
        pay_debt_scope (manage_scopes (append_right (tree_stmt s 0) (tree_stmts ss (debt_stmt s))))
          debt
    tree_stmt (assign x e) debt =
        pay_debt (node NodeType.op (op_val Ops.ass) (node var (name_val x) null null) (tree_expr e))
          debt
    tree_stmt (print e) debt =
        pay_debt (node NodeType.std_func (func_val putexpr) null (tree_expr e)) debt
    tree_stmt (read x) debt =
        pay_debt (node NodeType.std_func (func_val getvar) null (node var (name_val x) null null))
          debt
    tree_stmt (perform x e args) debt =
        pay_debt
          (node NodeType.cmd_func (name_val x) (plain NodeType.comma (tree_expr e) (tree_args args))
            null)
          debt
    tree_stmt (cond b e s) debt = pay_debt (plain (loop_type b) (tree_expr e) (tree_stmt s 0)) debt
    tree_stmt (give e) debt = pay_debt (plain NodeType.return_node null (tree_expr e)) debt
    tree_stmt (define x p ps s) debt =
        pay_debt
          (node NodeType.func_decl (name_val x)
            (plain NodeType.comma (node var (name_val p) null null) (tree_params ps))
            (tree_stmt s 0))
          debt
    tree_stmt (entry s) debt = pay_debt (plain NodeType.main null (tree_stmt s 0)) debt

    pub tree_stmts : Stmts F → ℕ → Tree F
    tree_stmts stop debt = null
    tree_stmts (then_ s ss) debt = append_right (tree_stmt s debt) (tree_stmts ss (debt_stmt s))

-- Fuel that is enough to read a command.
unfoldable pub cost_params : List Name → ℕ
cost_params [] = 1
cost_params (x ∷ xs) = 1 + cost_params xs

unfoldable mutual
  pub cost_stmt : {F : Type 0} → Stmt F → ℕ
  cost_stmt (block s ss) = 2 + cost_stmt s + cost_stmts ss
  cost_stmt (assign x e) = 2 + cost_expr e
  cost_stmt (print e) = 2 + cost_expr e
  cost_stmt (read x) = 2
  cost_stmt (perform x e args) = 3 + cost_expr e + cost_args args
  cost_stmt (cond b e s) = 3 + cost_expr e + cost_stmt s
  cost_stmt (give e) = 2 + cost_expr e
  cost_stmt (define x p ps s) = 3 + cost_params ps + cost_stmt s
  cost_stmt (entry s) = 3 + cost_stmt s

  pub cost_stmts : {F : Type 0} → Stmts F → ℕ
  cost_stmts stop = 1
  cost_stmts (then_ s ss) = 1 + cost_stmt s + cost_stmts ss
