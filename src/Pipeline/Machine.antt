-- ===== src/Pipeline/Machine.antt =====
-- From a tree to a value: the backend (Language/Backend), the assembler and the machine (CPU/CPU),
-- one behind the other, on an arithmetic expression.
use tatlang.Prelude.{
  ℕ, suc, ◌+◌, ◌≡◌, refl, ap, sym, ◌∙◌, subst, Option, some, List, [], ◌∷◌, ◌++◌, map, length,
}
use tatlang.Double.{Double}
use tatlang.Tree.{Name, NodeValue}
use tatlang.Stack.{Stack}
use tatlang.Stack.Resize.{IsClean}
use tatlang.Stack.Refines.{contents, IsValid}
use tatlang.Spu.Vm.{Vm}
use tatlang.Spu.Commands.{process}
use tatlang.Spu.Expressions.{
  ArithOp, plus, minus, times, over, Arith, lit, bin, value, rounds, code, AllClean, Layout,
  moved_to,
}
use tatlang.FileParser.Lines.{
  AreLines, text_of, pointers, ptr_arranger-pointers, length-pointers, AreLines-append, enough,
  count-text_of,
}
use tatlang.Assembler.Commands.{CompileManager, Scanned, process_lines}
use tatlang.Assembler.Labels.{parse_human_code}
use tatlang.Assembler.Writes.{Holds}
use tatlang.Assembler.Expressions.{Spelling, read_back, op_line, lines_of}
use tatlang.Assembler.Evaluates.{loaded, process_lines-value}
use tatlang.Backend.Lines.{Line, bkd_all_good, Manager, done}
use tatlang.Backend.Codegen.Asmbl.{asmbl}
use tatlang.Backend.Text.{print_line, tree_of, asm_lines, asmbl-tree_of, print-asm_lines}

lines_of-cons :
    {F : Type 0} (spell : F → List ℕ) (e : Arith F)
    → (l : List ℕ) × (ls : List (List ℕ)) × (lines_of spell e ≡ l ∷ ls)
lines_of-cons spell (lit x) = (_, [], refl)
lines_of-cons spell (bin o l r) =
    let (a, ls, p) = lines_of-cons spell l in
    (
      a,
      ls ++ lines_of spell r ++ op_line o ∷ [],
      ap (λ k. k ++ lines_of spell r ++ op_line o ∷ []) p,
    )

op_line-AreLines : (o : ArithOp) → AreLines (op_line o ∷ [])
op_line-AreLines plus = (refl, tt)
op_line-AreLines minus = (refl, tt)
op_line-AreLines times = (refl, tt)
op_line-AreLines over = (refl, tt)

lines_of-AreLines :
    {F : Type 0} (scan_double : List ℕ → Scanned F) (spell : F → List ℕ) (rounded : F → F)
    (spelling : Spelling scan_double spell rounded) (e : Arith F)
    → AreLines (lines_of spell e)
lines_of-AreLines scan_double spell rounded spelling (lit x) = (spelling.is_text x, tt)
lines_of-AreLines scan_double spell rounded spelling (bin o l r) =
    AreLines-append (lines_of spell l ++ lines_of spell r) (op_line o ∷ [])
      (AreLines-append (lines_of spell l) (lines_of spell r)
        (lines_of-AreLines scan_double spell rounded spelling l)
        (lines_of-AreLines scan_double spell rounded spelling r))
      (op_line-AreLines o)

parse_human_code-lines :
    (l : List ℕ) (ls : List (List ℕ))
    → AreLines (l ∷ ls)
    → parse_human_code (text_of (l ∷ ls)) ≡ some (pointers (l ∷ ls))
unfolding parse_human_code
parse_human_code-lines l ls h =
    rw
      (
        ptr_arranger-pointers l ls h,
        count-text_of (l ∷ ls) h,
        enough (length (pointers (l ∷ ls))) (length (l ∷ ls)) (length-pointers (l ∷ ls)),
      )
      refl

parse_human_code-lines_of :
    {F : Type 0} (scan_double : List ℕ → Scanned F) (spell : F → List ℕ) (rounded : F → F)
    (spelling : Spelling scan_double spell rounded) (e : Arith F)
    → parse_human_code (text_of (lines_of spell e)) ≡ some (pointers (lines_of spell e))
parse_human_code-lines_of scan_double spell rounded spelling e =
    let (l, ls, p) = lines_of-cons spell e in
    subst (λ k. parse_human_code (text_of k) ≡ some (pointers k)) (sym p)
      (parse_human_code-lines l ls
        (subst AreLines p (lines_of-AreLines scan_double spell rounded spelling e)))

module _ {F : Type 0} ⦃d : Double F⦄ (data_poizon : F) (double_of : List ℕ → F)
    (to_unsigned : F → ℕ) (driver : Vm F → Option (Vm F)) (bytes_of : F → List ℕ)
    (layout : Layout bytes_of double_of) (fresh : ℕ → ℕ → ℕ → F)
    (fresh_clean : (i j k : ℕ) → IsClean data_poizon (fresh i j k))
    (scan_double : List ℕ → Scanned F) (scan_address : List ℕ → Scanned ℕ)
    (scan_two : List ℕ → ℕ × ℕ) (spell : F → List ℕ) (rounded : F → F)
    (spelling : Spelling scan_double spell rounded) (show_number : ℕ → List ℕ)
    (encode : Name → List ℕ) where
  -- The backend writes lines for the tree of an arithmetic expression, the assembler takes the text
  -- of these lines apart and writes their code, and the machine that has this code computes the
  -- value of the expression whose numbers are those that sscanf reads from what fprintf writes with
  -- six decimals: from the place where the code begins to its end, with the value pushed on the
  -- stack and the rest of the machine as it was. The array has room for the code and a cell more, a
  -- double takes eight bytes, and nothing that is pushed is taken for the poison of the stack.
  pub asmbl-value :
      (counter : ℕ) (e : Arith F) (node_value : NodeValue F) (label_ct : ℕ) (manager : Manager)
      (pre : List ℕ) (k n : ℕ) (m : CompileManager F) (vm : Vm F)
      → Holds pre (length (code bytes_of (read_back rounded e)) + suc k) m.byte_code
      → vm.carriage ≡ length pre
      → AllClean data_poizon (read_back rounded e)
      → IsValid data_poizon vm.user_stack
      → (out : List (Line F)) × (lines : List (List ℕ)) × (m' : CompileManager F) × (stk : Stack F)
        × (asmbl (tree_of node_value e) label_ct manager ≡ done bkd_all_good label_ct manager out)
        × (parse_human_code (text_of (map (print_line show_number spell encode) out)) ≡ some lines)
        × (process_lines scan_double scan_address scan_two bytes_of counter lines m ≡ some m')
        × (process data_poizon double_of to_unsigned driver fresh
              (rounds (read_back rounded e) + n)
              (loaded vm m'.byte_code.cells)
            ≡ process data_poizon double_of to_unsigned driver fresh n (
                moved_to
                  (loaded vm m'.byte_code.cells)
                  stk
                  (vm.carriage + length (code bytes_of (read_back rounded e)))))
        × IsValid data_poizon stk
        × (contents stk ≡ contents vm.user_stack ++ value (read_back rounded e) ∷ [])
  asmbl-value counter e node_value label_ct manager pre k n m vm h at_pre clean v =
      let (m', stk, assembled, runs, v', c) =
        process_lines-value data_poizon double_of to_unsigned driver bytes_of layout fresh
          fresh_clean scan_double scan_address scan_two spell rounded spelling counter e pre k n m
          vm h at_pre clean v in
      (
        asm_lines e,
        pointers (lines_of spell e),
        m',
        stk,
        asmbl-tree_of node_value e label_ct manager,
        ap (λ ls. parse_human_code (text_of ls)) (print-asm_lines show_number spell encode e)
            ∙ parse_human_code-lines_of scan_double spell rounded spelling e,
        assembled,
        runs,
        v',
        c,
      )
