-- ===== src/Tests/Files.antt =====
-- The theorems on files and the assembler at concrete inputs.
use Prim.Native.String.{String}
use tatlang.Prelude.{
  ℕ, zero, suc, ◌+◌, ◌*◌, ◌≡◌, refl, ap, true, false, none, some, List, [], ◌∷◌, ◌++◌, map, arith,
  length, get_elem?, set, ◌==◌, if◌then◌else◌,
}
use tatlang.Frontend.Symbols.{codes}
use tatlang.FileParser.{Strings, file_parse}
use tatlang.FileParser.Lines.{is_line, c_string, text_of, pointers, file_parse-lines}
use tatlang.FileParser.Unended.{file_parse-unended}
use tatlang.Stack.{Stack}
use tatlang.Stack.Refines.{contents, IsValid}
use tatlang.Stack.Runs.{ctor-IsValid}
use tatlang.Spu.Vm.{vm_ctor, word, update_carriage}
use tatlang.Spu.Commands.{process}
use tatlang.Spu.Expressions.{code, rounds, moved_to}
use tatlang.Assembler.Buffer.{zeros, write_to_buf, write_byte, number_bytes}
use tatlang.Assembler.Commands.{
  NamePos, CompileManager, Scanned, matched, unmatched, at_end, is_command, process_lines,
  cmds_process,
}
use tatlang.Assembler.Labels.{
  asm_all_good, parse_human_code, find_label, search_labels, fix_jump, arrange_jumps,
  arrange_labels, reduce_buffer_size,
}
use tatlang.Assembler.Writes.{Holds}
use tatlang.Assembler.Expressions.{Spelling}
use tatlang.Assembler.Evaluates.{loaded}
use tatlang.Tree.{NodeValue, Ops, getvar}
use tatlang.Backend.Lines.{Line, bkd_all_good, Manager, done}
use tatlang.Backend.Codegen.Asmbl.{asmbl}
use tatlang.Backend.Text.{print_line, tree_of}
use tatlang.Pipeline.Machine.{asmbl-value}
use tatlang.Assembler.Missing.{main_error, arrange_labels-first}
use tatlang.Assembler.Full.{pushes, cmds_process-pushes}
use tatlang.Assembler.Fixed.{fix_jump-update_carriage}
use tatlang.Assembler.Reduced.{reduce_buffer_size-keeps}
use tatlang.Tests.Arithmetic.{naturals}
use tatlang.Tests.Machine.{
  poizon, blank_memory, blank-IsClean, bytes_of, double_of, layout, no_driver, unsigned_of, six,
  six-AllClean, machine,
}

abbrev two_lines : List (List ℕ)
two_lines = codes "in" ∷ codes "out" ∷ []

file_parse-lines_example :
    (strs : Strings) × (file_parse (text_of two_lines) ≡ some strs)
    × (strs.amount ≡ length two_lines)
    × (map c_string strs.tokens ≡ two_lines)
file_parse-lines_example = file_parse-lines (codes "in") (codes "out" ∷ []) (refl, (refl, tt))

file_parse-unended_example : file_parse (text_of two_lines ++ codes "hlt") ≡ none
file_parse-unended_example = file_parse-unended two_lines b'h' (codes "lt") (refl, (refl, tt)) refl

-- A number is spelled by a zero and so many ones.
abbrev ones : ℕ → List ℕ
ones zero = []
ones (suc n) = b'1' ∷ ones n

abbrev count_ones : List ℕ → ℕ
count_ones [] = 0
count_ones (c ∷ s) = let rest = count_ones s in if c == b'1' then suc rest else 0

abbrev spell : ℕ → List ℕ
spell x = b'0' ∷ ones x

abbrev scan_double : List ℕ → Scanned ℕ
scan_double [] = at_end
scan_double (c ∷ s) = matched (count_ones s)

count_ones-ones : (x : ℕ) (s : List ℕ) → count_ones (ones x ++ 0 ∷ s) ≡ x
count_ones-ones zero s = refl
count_ones-ones (suc x) s = ap suc (count_ones-ones x s)

ones-is_line : (x : ℕ) → is_line (ones x) ≡ true
ones-is_line zero = refl
ones-is_line (suc x) = ones-is_line x

abbrev scan_address : List ℕ → Scanned ℕ
scan_address s = unmatched

abbrev scan_two : List ℕ → ℕ × ℕ
scan_two s = (0, 0)

abbrev same : List ℕ → List ℕ
same x = x

abbrev exact : ℕ → ℕ
exact x = x

spelling : Spelling scan_double spell exact
spelling = record {
  reads = λ x s. ap matched (count_ones-ones x s);
  starts = λ x. (b'0', ones x, refl, refl);
  is_text = ones-is_line;
}

abbrev start : CompileManager ℕ
start = record {
  byte_code = record { cells = zeros (length (code bytes_of six) + suc 0); pos = 0 };
  labels = [];
  jmp_poses = [];
  amount_of_lines = 5;
  argument_value = 0;
  ram_address = 0;
}

start-Holds : Holds [] (length (code bytes_of six) + suc 0) start.byte_code
start-Holds = record { written = refl; at_end = refl }

start_carriage : (machine []).carriage ≡ length {A = ℕ} []
unfolding vm_ctor
start_carriage = refl

start-IsValid : IsValid ⦃d = naturals⦄ poizon (machine []).user_stack
unfolding vm_ctor
start-IsValid = ctor-IsValid ⦃d = naturals⦄ poizon 10 (omega arith) blank-IsClean

abbrev no_value : NodeValue ℕ
no_value = record { num_value = 0; op_value = Ops.do_nothing; var_value = none; func = getvar }

abbrev no_tables : Manager
no_tables = record { name_tables = []; in_func_start = false }

asmbl-value_example :
    (out : List (Line ℕ)) × (lines : List (List ℕ)) × (m' : CompileManager ℕ) × (stk : Stack ℕ)
    × (asmbl (tree_of no_value six) 0 no_tables ≡ done bkd_all_good 0 no_tables out)
    × (parse_human_code (text_of (map (print_line ones spell same) out)) ≡ some lines)
    × (process_lines scan_double scan_address scan_two bytes_of 0 lines start ≡ some m')
    × (process ⦃d = naturals⦄ poizon double_of unsigned_of no_driver
          (λ i j. blank_memory)
          (rounds six + 1)
          (loaded (machine []) m'.byte_code.cells)
        ≡ process ⦃d = naturals⦄ poizon double_of unsigned_of no_driver
            (λ i j. blank_memory)
            1
            (moved_to
              (loaded (machine []) m'.byte_code.cells)
              stk
              ((machine []).carriage + length (code bytes_of six))))
    × IsValid ⦃d = naturals⦄ poizon stk
    × (contents stk ≡ contents (machine []).user_stack ++ 6 ∷ [])
asmbl-value_example =
    asmbl-value ⦃d = naturals⦄ poizon double_of unsigned_of no_driver bytes_of layout
      (λ i j. blank_memory) (λ i j k. blank-IsClean) scan_double scan_address scan_two spell exact
      spelling ones same 0 six no_value 0 no_tables [] 0 1 start (machine []) start-Holds
      start_carriage six-AllClean start-IsValid

abbrev jump_head : List ℕ
jump_head = 9 ∷ 0 ∷ 0 ∷ 0 ∷ []

at_jump : (machine []).carriage ≡ 8 * 0
unfolding vm_ctor
at_jump = refl

fix_jump-update_carriage_example :
    (cells : List ℕ) × (fix_jump (jump_head ++ 255 ∷ 255 ∷ 255 ∷ 255 ∷ []) 0 300 ≡ some cells)
    × (update_carriage (record (machine []) { byte_code = cells })
        ≡ some (record (machine []) { byte_code = cells; carriage = 300 * word }))
fix_jump-update_carriage_example =
    fix_jump-update_carriage jump_head [] 255 255 255 255 0 300 (machine []) refl (omega arith)
      at_jump

abbrev named : String → ℕ → NamePos
named s p = record { name = codes s ++ 0 ∷ []; ip_pos = p }

-- A jump to main, which has a label, and a jump to a name that has none.
abbrev one_missing : CompileManager ℕ
one_missing = record {
  byte_code = record { cells = zeros 24; pos = 16 };
  labels = named "main" 1 ∷ [];
  jmp_poses = named "main" 0 ∷ named "f" 1 ∷ [];
  amount_of_lines = 3;
  argument_value = 0;
  ram_address = 0;
}

one_fixed : arrange_labels one_missing ≡ some (asm_all_good, set (zeros 24) 4 1)
unfolding arrange_labels arrange_jumps find_label search_labels is_command fix_jump write_to_buf
    write_byte number_bytes
one_fixed = refl

arrange_labels-first_example :
    asm_all_good ≡ main_error (find_label one_missing.labels (named "main" 0).name)
arrange_labels-first_example =
    arrange_labels-first one_missing (named "main" 0) (named "f" 1 ∷ []) asm_all_good
      (set (zeros 24) 4 1) refl one_fixed

reduce_buffer_size-keeps_example :
    (kept : List ℕ) × (reduce_buffer_size (λ i. 0) (9 ∷ zeros 15) ≡ some kept)
    × (get_elem? kept 0 ≡ some 9)
reduce_buffer_size-keeps_example =
    reduce_buffer_size-keeps (λ i. 0) 1 (9 ∷ zeros 15) 0 8 refl (omega arith) refl

cmds_process-pushes_example :
    cmds_process scan_double scan_address scan_two bytes_of 0 (pointers (pushes spell (4 ∷ 5 ∷ [])))
    ≡ none
cmds_process-pushes_example =
    cmds_process-pushes scan_double scan_address scan_two bytes_of spell layout.eight exact spelling
      0 4 (5 ∷ [])
