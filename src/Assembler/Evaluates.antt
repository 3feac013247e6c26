-- ===== src/Assembler/Evaluates.antt =====
-- The assembler and the machine together (Assembler/src/assembler_additional.cpp,
-- SPU/src/SPU_additional.cpp of CPU/CPU), on the lines of an arithmetic expression.
use tatlang.Prelude.{
  ℕ, suc, ◌+◌, ◌≡◌, refl, ap, sym, ◌∙◌, Option, some, List, [], ◌∷◌, ◌++◌, append_assoc, append-nil,
  length,
}
use tatlang.Double.{Double}
use tatlang.Stack.{Stack}
use tatlang.Stack.Resize.{IsClean}
use tatlang.Stack.Refines.{contents, IsValid}
use tatlang.Spu.Vm.{Vm}
use tatlang.Spu.Commands.{process}
use tatlang.Spu.Expressions.{Arith, value, rounds, code, AllClean, Layout, moved_to}
use tatlang.Spu.Evaluates.{process-value}
use tatlang.FileParser.Lines.{pointers}
use tatlang.Assembler.Buffer.{zeros}
use tatlang.Assembler.Commands.{CompileManager, Scanned, process_lines}
use tatlang.Assembler.Writes.{Holds}
use tatlang.Assembler.Expressions.{Spelling, read_back, lines_of, expression-Written}

no_lines :
    {F : Type 0} (scan_double : List ℕ → Scanned F) (scan_address : List ℕ → Scanned ℕ)
    (scan_two : List ℕ → ℕ × ℕ) (bytes_of : F → List ℕ) (counter : ℕ) (m : CompileManager F)
    → process_lines scan_double scan_address scan_two bytes_of counter [] m ≡ some m
unfolding process_lines
no_lines scan_double scan_address scan_two bytes_of counter m = refl

-- The machine with other byte code in front of it.
abbrev pub loaded : {F : Type 0} → Vm F → List ℕ → Vm F
loaded vm cells = record vm { byte_code = cells }

module _ {F : Type 0} ⦃d : Double F⦄ (data_poizon : F) (double_of : List ℕ → F)
    (to_unsigned : F → ℕ) (driver : Vm F → Option (Vm F)) (bytes_of : F → List ℕ)
    (layout : Layout bytes_of double_of) (fresh : ℕ → ℕ → ℕ → F)
    (fresh_clean : (i j k : ℕ) → IsClean data_poizon (fresh i j k))
    (scan_double : List ℕ → Scanned F) (scan_address : List ℕ → Scanned ℕ)
    (scan_two : List ℕ → ℕ × ℕ) (spell : F → List ℕ) (rounded : F → F)
    (spelling : Spelling scan_double spell rounded) where
  -- The lines of an arithmetic expression are assembled to code that the machine runs to the value
  -- of the expression: from the place where the code begins, with that value pushed, and with the
  -- rest of the machine as it was but for the carriage. The array has room for the code and a cell
  -- more, the numbers are the ones that sscanf reads, a double takes eight bytes, and nothing is
  -- taken for the poison of the stack.
  pub process_lines-value :
      (counter : ℕ) (e : Arith F) (pre : List ℕ) (k n : ℕ) (m : CompileManager F) (vm : Vm F)
      → Holds pre (length (code bytes_of (read_back rounded e)) + suc k) m.byte_code
      → vm.carriage ≡ length pre
      → AllClean data_poizon (read_back rounded e)
      → IsValid data_poizon vm.user_stack
      → (m' : CompileManager F) × (stk : Stack F) × (process_lines scan_double scan_address scan_two
            bytes_of counter
            (pointers (lines_of spell e))
            m
          ≡ some m')
        × (process data_poizon double_of to_unsigned driver fresh
              (rounds (read_back rounded e) + n)
              (loaded vm m'.byte_code.cells)
            ≡ process data_poizon double_of to_unsigned driver fresh n (
                moved_to
                  (loaded vm m'.byte_code.cells)
                  stk
                  (vm.carriage + length (code bytes_of (read_back rounded e)))))
        × IsValid data_poizon stk
        × (contents stk ≡ contents vm.user_stack ++ value (read_back rounded e) ∷ [])
  process_lines-value counter e pre k n m vm h at_pre clean v =
      let (buf, y, n', e', h') =
        expression-Written scan_double scan_address scan_two bytes_of spell layout.eight rounded
          spelling counter e pre k [] m h in
      let (stk, runs, v', c) =
        process-value data_poizon double_of to_unsigned driver bytes_of layout fresh fresh_clean
          (read_back rounded e) pre (zeros (suc k)) (loaded vm buf.cells) n
          (h'.written ∙ append_assoc pre (code bytes_of (read_back rounded e)) (zeros (suc k)))
          at_pre clean v in
      (
        record m { byte_code = buf; argument_value = y },
        stk,
        ap (λ ls. process_lines scan_double scan_address scan_two bytes_of counter (pointers ls) m)
              (sym (append-nil (lines_of spell e)))
            ∙ e'
            ∙ no_lines scan_double scan_address scan_two bytes_of n'
                (record m { byte_code = buf; argument_value = y }),
        runs,
        v',
        c,
      )
