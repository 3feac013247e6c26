-- ===== src/Backend/Neat.antt =====
-- What a writer of the backend does to the labels, for any label `k`: the writers of single lines,
-- and one writer behind another.
pub mod Flow
pub mod Calls
use tatlang.Prelude.{
  ℕ, zero, suc, ◌+◌, ◌≡◌, refl, subst, ◌⊎◌, inl, inr, leb, ltb, ◌&&◌, Bool, true, false, Option,
  none, some, List, [], ◌∷◌, ◌++◌, ◌==◌, if◌then◌else◌, arith, length,
}
use tatlang.Tree.{
  Name, NodeType, NodeValue, Ops, Tree, null, node, num, var, StdFunc, getvar, putexpr,
}
use tatlang.Backend.Lines.{
  reg, Label, while_label, break_label, main_label, func_label, Line, label, jump, BkdError,
  bkd_all_good, Manager, Outcome, fault, done, Gen, prepend, and_then, ◌⟫◌, swallow, write, fail,
  Cell, NameTable, Jump, push_int, je, jmp, arithmetic,
}
use tatlang.Backend.Names.{
  push_cells, pop_cells, pop_level_0, push_levels, pop_levels, get_loc, LocResult, undefined_loc,
  null_loc, loc_result, init_name_tables,
}
use tatlang.Backend.Codegen.Calls.{
  temp_exch, push_all, pop_all, pop_args, write_args, save_ret_reg, return_value, write_func,
  in_function, write_main, func_table, write_func_decl, write_return, write_std_func,
}
use tatlang.Backend.Codegen.{
  write_num, write_var, pop_to, write_getvar, write_putexpr, write_op, get_cond_type,
  write_cond_jump, write_cond_expr, write_while, write_if_jump, write_if_end, write_if,
}
use tatlang.Backend.Labels.{
  ValidOp, count, count-append, one_if, within, Tidy, Neat, defines_break, defines_while,
  jumps_break, jumps_while,
}

module _ (F : Type 0) (k : ℕ) where
  abbrev pub NeatGen : Gen F → Type 0
  NeatGen g = (n : ℕ) (m : Manager) → Neat k n (g n m)

  pub Tidy-append :
      (n₀ n₁ n₂ : ℕ) (a b : List (Line F)) → Tidy k n₀ n₁ a → Tidy k n₁ n₂ b → Tidy k n₀ n₂ (a ++ b)
  Tidy-append n₀ n₁ n₂ a b ha hb = ground (
    arith,
    count-append (defines_break k) a b,
    count-append (jumps_break k) a b,
    count-append (defines_while k) a b,
    count-append (jumps_while k) a b,
  )

  pub Neat-prepend :
      (n₀ n₁ : ℕ) (a : List (Line F)) (o : Outcome F)
      → Tidy k n₀ n₁ a
      → Neat k n₁ o
      → Neat k n₀ (prepend a o)
  Neat-prepend n₀ n₁ a fault h ho = tt
  Neat-prepend n₀ n₁ a (done e n m out) h ho = (ho.0, Tidy-append n₀ n₁ n a out h ho.1)

  pub Neat-and_then :
      (n : ℕ) (o : Outcome F) (g : Gen F) → Neat k n o → NeatGen g → Neat k n (and_then o g)
  Neat-and_then n fault g ho hg = tt
  Neat-and_then n (done bkd_all_good n₁ m out) g ho hg =
      Neat-prepend n n₁ out (g n₁ m) ho.1 (hg n₁ m)
  Neat-and_then n (done _ n₁ m out) g ho hg = cc

  -- Lines without a numbered label.
  abbrev pub Silent : List (Line F) → Type 0
  Silent out =
      (count (defines_break k) out ≡ 0)
      × (count (defines_while k) out ≡ 0)
      × (count (jumps_break k) out ≡ 0)
      × (count (jumps_while k) out ≡ 0)

  pub Silent-Tidy : (n : ℕ) (out : List (Line F)) → Silent out → Tidy k n n out
  Silent-Tidy n out h = ground arith

  pub Silent-append : (a b : List (Line F)) → Silent a → Silent b → Silent (a ++ b)
  Silent-append a b ha hb = ground (
    arith,
    count-append (defines_break k) a b,
    count-append (jumps_break k) a b,
    count-append (defines_while k) a b,
    count-append (jumps_while k) a b,
  )

  pub write-NeatGen : (out : List (Line F)) → Silent out → NeatGen (write out)
  write-NeatGen out h n m = (refl, Silent-Tidy n out h)

  pub ⟫-NeatGen : (g h : Gen F) → NeatGen g → NeatGen h → NeatGen (g ⟫ h)
  ⟫-NeatGen g h hg hh n m = Neat-and_then n (g n m) h (hg n m) hh

  pub Neat-swallow : (n : ℕ) (o : Outcome F) → Neat k n o → Neat k n (swallow o)
  Neat-swallow n fault h = tt
  Neat-swallow n (done e n' m out) h = (refl, h.1)
