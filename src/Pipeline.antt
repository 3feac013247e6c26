-- ===== src/Pipeline.antt =====
-- The stages of Language_test/main.cpp between the tokens and the assembly file.
pub mod Source
pub mod Machine
use tatlang.Prelude.{
  ℕ, ◌≡◌, refl, ap, sym, ◌∙◌, subst, ◌⊎◌, inl, inr, false, Option, none, some, List, ◌∷◌,
}
use tatlang.Double.{Double}
use tatlang.Tree.{NodeType, Tree, null, node, is_null}
use tatlang.Parser.State.{Token, ParseState, Parsed, out_of_fuel, overrun, parsed}
use tatlang.Parser.Descent.Commands.{parse_tokens}
use tatlang.Parser.Grammar.{sign}
use tatlang.Parser.Programs.{Stmt, Stmts, emit_stmt, emit_stmts}
use tatlang.Parser.Programs.Read.{parse_tokens-emit_stmts}
use tatlang.Parser.Programs.Compiles.{program-Valid}
use tatlang.Midend.{
  MidError, mid_all_good, mid_null_node, mid_div_by_zero, mid_invalid_op, optimize,
}
use tatlang.Midend.Settled.{optimize-Settled}
use tatlang.Parser.Programs.Shape.{tree_scopes-is_null}
use tatlang.Midend.Accepted.{optimize-Valid}
use tatlang.Backend.Lines.{BkdError, bkd_all_good, Manager, Line, Outcome, fault, done}
use tatlang.Backend.Codegen.Asmbl.{assembly}
use tatlang.Backend.Labels.{Valid, Resolved}
use tatlang.Backend.Resolved.{assembly-labels}

-- `stuck` is a read behind the tokens, or fuel that ran out.
pub data Compiled (F : Type 0) : Type 0 where
  stuck parse_error : Compiled F
  optimize_error : MidError → Compiled F
  written : Outcome F → Compiled F

module _ {F : Type 0} ⦃d : Double F⦄ where
  abbrev pub after_optimize : Option (Tree F × MidError) → Compiled F
  after_optimize none = stuck
  after_optimize (some (root, mid_all_good)) = written (assembly root)
  after_optimize (some (root, e)) = optimize_error e

  abbrev pub after_parse : Parsed F (Tree F) → Compiled F
  after_parse out_of_fuel = stuck
  after_parse overrun = stuck
  after_parse (parsed null s) = parse_error
  after_parse (parsed (node ty v l r) s) = after_optimize (optimize (node ty v l r))

  -- `main` from `parse_tokens` to `ASSEMBLY(root)`.
  unfoldable pub compile_tokens : ℕ → List (Token F) → Compiled F
  compile_tokens debt tokens = after_parse (parse_tokens debt tokens)

  after_optimize-labels :
      (root : Tree F) (o : Option (Tree F × MidError)) (e : BkdError) (n : ℕ) (m : Manager)
      (out : List (Line F))
      → optimize root ≡ o
      → Valid root
      → after_optimize o ≡ written (done e n m out)
      → (e ≡ bkd_all_good) × Resolved out
  after_optimize-labels root none e n m out p valid h = cc
  after_optimize-labels root (some (t, mid_all_good)) e n m out p valid h =
      assembly-labels t e n m out (optimize-Valid root t mid_all_good p valid) (cc)
  after_optimize-labels root (some (t, _)) e n m out p valid h = cc

  after_parse-labels :
      (root : Tree F) (s : ParseState F) (e : BkdError) (n : ℕ) (m : Manager) (out : List (Line F))
      → Valid root
      → after_parse (parsed root s) ≡ written (done e n m out)
      → (e ≡ bkd_all_good) × Resolved out
  after_parse-labels null s e n m out valid h = cc
  after_parse-labels (node ty v l r) s e n m out valid h =
      after_optimize-labels (node ty v l r) _ e n m out refl valid h

  pub compile_tokens-labels :
      (s : Stmt F) (ss : Stmts F) (debt : ℕ) (ts : List (Token F)) (e : BkdError) (n : ℕ)
      (m : Manager) (out : List (Line F))
      → compile_tokens debt (emit_stmt s (emit_stmts ss (sign NodeType.end ∷ ts)))
        ≡ written (done e n m out)
      → (e ≡ bkd_all_good) × Resolved out
  unfolding compile_tokens
  compile_tokens-labels s ss debt ts e n m out h =
      after_parse-labels _ _ e n m out (program-Valid s ss debt)
        (ap after_parse (sym (parse_tokens-emit_stmts s ss debt ts)) ∙ h)

  after_optimize-ends :
      (r : Tree F × MidError)
      → ((o : Outcome F) × (after_optimize (some r) ≡ written o))
        ⊎ ((e : MidError) × (after_optimize (some r) ≡ optimize_error e))
  after_optimize-ends (t, mid_all_good) = inl (assembly t, refl)
  after_optimize-ends (t, mid_null_node) = inr (mid_null_node, refl)
  after_optimize-ends (t, mid_div_by_zero) = inr (mid_div_by_zero, refl)
  after_optimize-ends (t, mid_invalid_op) = inr (mid_invalid_op, refl)

  after_parse-ends :
      (root : Tree F) (s : ParseState F)
      → is_null root ≡ false
      → ((o : Outcome F) × (after_parse (parsed root s) ≡ written o))
        ⊎ ((e : MidError) × (after_parse (parsed root s) ≡ optimize_error e))
  after_parse-ends null s h = cc
  after_parse-ends (node ty v l r) s h =
      let (r', e, settled) = optimize-Settled (node ty v l r) in
      subst
        (λ x.
          ((o : Outcome F) × (after_optimize x ≡ written o))
          ⊎ ((e : MidError) × (after_optimize x ≡ optimize_error e)))
        (sym e) (after_optimize-ends r')

  outcome_of_tokens :
      (s : Stmt F) (ss : Stmts F) (debt : ℕ) (ts : List (Token F))
      → ((o : Outcome F) × (compile_tokens debt
              (emit_stmt s (emit_stmts ss (sign NodeType.end ∷ ts)))
            ≡ written o))
        ⊎ ((e : MidError) × (compile_tokens debt
                (emit_stmt s (emit_stmts ss (sign NodeType.end ∷ ts)))
              ≡ optimize_error e))
  unfolding compile_tokens
  outcome_of_tokens s ss debt ts =
      subst
        (λ x.
          ((o : Outcome F) × (after_parse x ≡ written o))
          ⊎ ((e : MidError) × (after_parse x ≡ optimize_error e)))
        (sym (parse_tokens-emit_stmts s ss debt ts))
        (after_parse-ends _ _ (tree_scopes-is_null s ss debt))

  -- How the stages may end: in lines, in undefined behaviour of the backend, or in an error of the
  -- optimizer.
  abbrev pub Ends : Compiled F → Type 0
  Ends c =
      ((n : ℕ) × (m : Manager) × (out : List (Line F)) × (c ≡ written (done bkd_all_good n m out))
        × Resolved out)
      ⊎ ((c ≡ written fault) ⊎ ((e : MidError) × (c ≡ optimize_error e)))

  written-Ends :
      (c : Compiled F) (o : Outcome F)
      → c ≡ written o
      → ((e : BkdError) (n : ℕ) (m : Manager) (out : List (Line F))
          → c ≡ written (done e n m out)
          → (e ≡ bkd_all_good) × Resolved out)
      → Ends c
  written-Ends c fault p labels = inr (inl p)
  written-Ends c (done e n m out) p labels =
      let (good, resolved) = labels e n m out p in
      inl (n, m, out, subst (λ x. c ≡ written (done x n m out)) good p, resolved)

  -- The parser turns no program of the grammar away, and the stages end on its tokens: in lines of
  -- the backend, which then reports no error, and in which the labels `break_k` and `while_k` are as
  -- they are in `compile_tokens-labels`; in an error of the optimizer; or in a backend that reads
  -- through NULL or a name table that nothing initialised.
  pub compile_tokens-Ends :
      (s : Stmt F) (ss : Stmts F) (debt : ℕ) (ts : List (Token F))
      → Ends (compile_tokens debt (emit_stmt s (emit_stmts ss (sign NodeType.end ∷ ts))))
  compile_tokens-Ends s ss debt ts = elim (outcome_of_tokens s ss debt ts) [
    | inl (o, p) ↦ written-Ends _ o p (compile_tokens-labels s ss debt ts)
    | inr q ↦ inr (inr q)
  ]
