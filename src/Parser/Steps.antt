-- ===== src/Parser/Steps.antt =====
-- One call of each function of the parser, at the tokens that begin its phrase or end its loop.
use tatlang.Prelude.{ℕ, suc, ◌≡◌, refl, Bool, false, ◌&&◌, ◌||◌, some, List, [], ◌∷◌, arith}
use tatlang.Double.{Double}
use tatlang.Tree.{
  Name, NodeType, Ops, Tree, null, node, num, var, is_null, is_type, is_op, num_val, op_val,
}
use tatlang.Parser.State.{
  Token, ParseState, parsed, Parser, ◌>>=◌, pure, check, current, advance, expect,
}
use tatlang.Parser.{is_cond, run, get_num, get_id, plain, before, finish_func}
use tatlang.Parser.Descent.{
  get_expr, get_expr_tail, get_sum, get_mul, get_product, get_pow, get_power, get_par, get_func,
  get_args,
}
use tatlang.Parser.Grammar.{
  AddOp, plus, minus, MulOp, times, over, CondOp, gt, lt, ge, le, eq, ne, add_op, mul_op, cond_type,
  tok, sign, name_val,
}

abbrev pub at : {F : Type 0} → List (Token F) → ℕ → ParseState F
at ts debt = record { rest = ts; sce_debt = debt }

-- The tokens behind a phrase that end each of its loops.
abbrev pub EndsPower : {F : Type 0} → List (Token F) → Type 0
EndsPower [] = ⊥
EndsPower (t ∷ ts) = (is_type t.type NodeType.op && is_op t.value.op_value Ops.pow) ≡ false

abbrev pub EndsProduct : {F : Type 0} → List (Token F) → Type 0
EndsProduct [] = ⊥
EndsProduct (t ∷ ts) =
    (is_type t.type NodeType.op
      && (is_op t.value.op_value Ops.mul || is_op t.value.op_value Ops.div))
    ≡ false

abbrev pub EndsExpr : {F : Type 0} → List (Token F) → Type 0
EndsExpr [] = ⊥
EndsExpr (t ∷ ts) =
    ((is_type t.type NodeType.op
        && (is_op t.value.op_value Ops.add || is_op t.value.op_value Ops.sub))
      ≡ false)
    × (is_cond t.type ≡ false)

module _ {F : Type 0} where
  pub check_node :
      (p : Parser F (Tree F)) (f : Tree F → Parser F (Tree F)) (t : Tree F) (s s' : ParseState F)
      → p s ≡ parsed t s'
      → is_null t ≡ false
      → check p f s ≡ f t s'
  check_node p f null s s' e h = cc
  check_node p f (node ty v l r) s s' e h = rw e

module _ {F : Type 0} ⦃d : Double F⦄ where
  pub power_end :
      (f : ℕ) (val : Tree F) (ts : List (Token F)) (debt : ℕ)
      → EndsPower ts
      → get_power (suc f) val (at ts debt) ≡ parsed val (at ts debt)
  unfolding get_power current
  power_end f val [] debt h = absurd h
  power_end f val (t ∷ ts) debt h = rw h

  pub product_end :
      (f : ℕ) (val : Tree F) (ts : List (Token F)) (debt : ℕ)
      → EndsProduct ts
      → get_product (suc f) val (at ts debt) ≡ parsed val (at ts debt)
  unfolding get_product current
  product_end f val [] debt h = absurd h
  product_end f val (t ∷ ts) debt h = rw h

  pub expr_end :
      (f : ℕ) (val : Tree F) (ts : List (Token F)) (debt : ℕ)
      → EndsExpr ts
      → get_expr_tail (suc (suc f)) val (at ts debt) ≡ parsed val (at ts debt)
  unfolding get_expr_tail current
  expr_end f val [] debt h = absurd h
  expr_end f val (t ∷ ts) debt h = ground arith

  pub sum_end :
      (f : ℕ) (val : Tree F) (ts : List (Token F)) (debt : ℕ)
      → EndsExpr ts
      → get_sum (suc f) val (at ts debt) ≡ parsed val (at ts debt)
  unfolding get_sum current
  sum_end f val [] debt h = absurd h
  sum_end f val (t ∷ ts) debt h = rw h.0

  pub power_step :
      (f : ℕ) (val : Tree F) (ts : List (Token F)) (debt : ℕ)
      → get_power (suc f) val (at (tok NodeType.op (op_val Ops.pow) ∷ ts) debt)
        ≡ check
            (get_par f)
            (λ v. get_power f (node NodeType.op (op_val Ops.pow) val v))
            (at ts debt)
  unfolding get_power current advance is_type is_op
  power_step f val ts debt = refl

  pub product_step :
      (f : ℕ) (o : MulOp) (val : Tree F) (ts : List (Token F)) (debt : ℕ)
      → get_product (suc f) val (at (tok NodeType.op (op_val (mul_op o)) ∷ ts) debt)
        ≡ check
            (get_pow f)
            (λ v. get_product f (node NodeType.op (op_val (mul_op o)) val v))
            (at ts debt)
  unfolding get_product current advance is_type is_op
  product_step f times val ts debt = refl
  product_step f over val ts debt = refl

  pub sum_step :
      (f : ℕ) (o : AddOp) (val : Tree F) (ts : List (Token F)) (debt : ℕ)
      → get_sum (suc f) val (at (tok NodeType.op (op_val (add_op o)) ∷ ts) debt)
        ≡ check
            (get_mul f)
            (λ v. get_sum f (node NodeType.op (op_val (add_op o)) val v))
            (at ts debt)
  unfolding get_sum current advance is_type is_op
  sum_step f plus val ts debt = refl
  sum_step f minus val ts debt = refl

  pub sum_enter :
      (f : ℕ) (o : AddOp) (val : Tree F) (ts : List (Token F)) (debt : ℕ)
      → get_expr_tail (suc f) val (at (tok NodeType.op (op_val (add_op o)) ∷ ts) debt)
        ≡ get_sum f val (at (tok NodeType.op (op_val (add_op o)) ∷ ts) debt)
  unfolding get_expr_tail current is_type
  sum_enter f o val ts debt = refl

  pub compare_step :
      (f : ℕ) (c : CondOp) (val : Tree F) (ts : List (Token F)) (debt : ℕ)
      → get_expr_tail (suc f) val (at (sign (cond_type c) ∷ ts) debt)
        ≡ check (get_mul f) (λ v. pure (plain (cond_type c) val v)) (at ts debt)
  unfolding get_expr_tail current advance is_type is_cond
  compare_step f gt val ts debt = refl
  compare_step f lt val ts debt = refl
  compare_step f ge val ts debt = refl
  compare_step f le val ts debt = refl
  compare_step f eq val ts debt = refl
  compare_step f ne val ts debt = refl

  pub paren_step :
      (f : ℕ) (ts : List (Token F)) (debt : ℕ)
      → get_par (suc f) (at (sign NodeType.open_br ∷ ts) debt)
        ≡ check (get_expr f) (λ v. expect NodeType.close_br null (pure v)) (at ts debt)
  unfolding get_par current advance is_type
  paren_step f ts debt = refl

  pub close_step :
      (t : Tree F) (ts : List (Token F)) (debt : ℕ)
      → expect NodeType.close_br null (pure t) (at (sign NodeType.close_br ∷ ts) debt)
        ≡ parsed t (at ts debt)
  unfolding expect is_type
  close_step t ts debt = refl

  pub number_step :
      (f : ℕ) (x : F) (ts : List (Token F)) (debt : ℕ)
      → get_par (suc f) (at (tok num (num_val x) ∷ ts) debt)
        ≡ parsed (node num (num_val x) null null) (at ts debt)
  unfolding get_par get_num current advance is_type
  number_step f x ts debt = refl

  pub ident_step :
      (f : ℕ) (x : Name) (ts : List (Token F)) (debt : ℕ)
      → get_par (suc f) (at (tok var (name_val x) ∷ ts) debt)
        ≡ parsed (node var (name_val x) null null) (at ts debt)
  unfolding get_par get_id current advance is_type
  ident_step f x ts debt = refl

  pub unary_step :
      (f : ℕ) (o : Ops) (ts : List (Token F)) (debt : ℕ)
      → get_par
          (suc (suc f))
          (at (tok NodeType.unr_op (op_val o) ∷ sign NodeType.open_br ∷ ts) debt)
        ≡ check
            (get_expr f)
            (λ child.
              expect NodeType.close_br null (pure (node NodeType.unr_op (op_val o) null child)))
            (at ts debt)
  unfolding get_par current advance expect is_type
  unary_step f o ts debt = refl

  pub func_enter :
      (f : ℕ) (x : Name) (ts : List (Token F)) (debt : ℕ)
      → get_par (suc f) (at (tok NodeType.func (name_val x) ∷ ts) debt)
        ≡ get_func f false (at (tok NodeType.func (name_val x) ∷ ts) debt)
  unfolding get_par current is_type
  func_enter f x ts debt = refl

  pub func_step :
      (f : ℕ) (cmd : Bool) (x : Name) (ts : List (Token F)) (debt : ℕ)
      → get_func (suc f) cmd (at (tok NodeType.func (name_val x) ∷ sign NodeType.open_br ∷ ts) debt)
        ≡ check
            (get_expr f)
            (λ expr. get_args f >>= λ rest. pure (finish_func cmd (name_val x) expr rest))
            (at ts debt)
  unfolding get_func get_id expect is_type
  func_step f cmd x ts debt = refl

  pub args_end :
      (f : ℕ) (ts : List (Token F)) (debt : ℕ)
      → get_args (suc f) (at (sign NodeType.close_br ∷ ts) debt) ≡ parsed (some null) (at ts debt)
  unfolding get_args current advance is_type
  args_end f ts debt = refl

  pub args_step :
      (f : ℕ) (ts : List (Token F)) (debt : ℕ)
      → get_args (suc f) (at (sign NodeType.comma ∷ ts) debt)
        ≡ run (at ts debt) (get_expr f >>= λ expr. get_args f >>= λ rest. pure (before expr rest))
  unfolding get_args current expect is_type
  args_step f ts debt = refl

  pub expr_step :
      (f : ℕ) (s : ParseState F) → get_expr (suc f) s ≡ check (get_mul f) (get_expr_tail f) s
  unfolding get_expr
  expr_step f s = refl

  pub mul_step :
      (f : ℕ) (s : ParseState F) → get_mul (suc f) s ≡ check (get_pow f) (get_product f) s
  unfolding get_mul
  mul_step f s = refl

  pub pow_step : (f : ℕ) (s : ParseState F) → get_pow (suc f) s ≡ check (get_par f) (get_power f) s
  unfolding get_pow
  pow_step f s = refl
