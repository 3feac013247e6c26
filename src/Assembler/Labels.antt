-- ===== src/Assembler/Labels.antt =====
-- CPU/CPU/Assembler/src/assembler_additional.cpp and assembler.cpp: the labels, the length of the
-- code, and the whole of `compile`.
use tatlang.Prelude.{
  ℕ, zero, suc, ◌+◌, ◌-◌, ◌*◌, ◌/◌, Bool, true, false, not, ◌&&◌, Option, none, some, List, [], ◌∷◌,
  length, ◌==◌, ltb, leb, if◌then◌else◌,
}
use tatlang.Stack.{resize}
use tatlang.FileParser.{count_file_lines, ptr_arranger}
use tatlang.FileParser.Lines.{c_string}
use tatlang.Assembler.Buffer.{◌>>=◌, write_to_buf, number_bytes}
use tatlang.Assembler.Commands.{
  NamePos, CompileManager, Scanned, is_command, skip, cycle_limit, cmds_process,
}

pub data AsmErr : Type 0 where
  asm_all_good label_doesnt_exist : AsmErr

-- The first label whose name begins with the name of the jump, among so many labels.
unfoldable pub search_labels : ℕ → List NamePos → List ℕ → Option ℕ
search_labels zero labels jmp_name = none
search_labels (suc rounds) [] jmp_name = none
search_labels (suc rounds) (l ∷ labels) jmp_name =
    let rest = search_labels rounds labels jmp_name in
    if is_command l.name (c_string jmp_name) then some l.ip_pos else rest

-- FOR_END ends the search behind CYCLE_LIMIT labels.
unfoldable pub find_label : List NamePos → List ℕ → Option ℕ
find_label labels jmp_name = search_labels cycle_limit labels jmp_name

-- The three bytes of a position that are written, at the argument of the jump.
unfoldable pub fix_jump : List ℕ → ℕ → ℕ → Option (List ℕ)
fix_jump cells jmp_pos label_pos =
    write_to_buf (number_bytes 3 label_pos) (record { cells = cells; pos = 8 * jmp_pos + 4 })
    >>= λ buf. some buf.cells

-- `label_found` is not reset between the jumps.
abbrev pub error_of : Bool → AsmErr → AsmErr
error_of true e = e
error_of false e = label_doesnt_exist

-- The search counts its rounds in the counter of the outer loop, so that behind a search in vain
-- among CYCLE_LIMIT - 1 labels or more FOR_END leaves the outer loop, too. A jump that is fixed
-- leaves the rounds of a write in the counter.
unfoldable pub arrange_jumps :
    List NamePos → List NamePos → Bool → AsmErr → List ℕ → Option (AsmErr × List ℕ)
arrange_jumps labels [] label_found e cells = some (e, cells)
arrange_jumps labels (j ∷ jmps) label_found e cells =
    let rest = arrange_jumps labels jmps label_found (error_of label_found e) cells in
    elim (find_label labels j.name) [
      | none ↦
          if ltb (suc (length labels)) cycle_limit
          then rest
          else some (error_of label_found e, cells)
      | some ip_pos ↦ fix_jump cells j.ip_pos ip_pos >>= arrange_jumps labels jmps true e
    ]

unfoldable pub arrange_labels : {F : Type 0} → CompileManager F → Option (AsmErr × List ℕ)
arrange_labels m = arrange_jumps m.labels m.jmp_poses false asm_all_good m.byte_code.cells

-- `*(long *)` at the start of the cells.
unfoldable pub is_zero_chunk : ℕ → List ℕ → Bool
is_zero_chunk zero cells = true
is_zero_chunk (suc n) [] = true
is_zero_chunk (suc n) (c ∷ cells) = c == 0 && is_zero_chunk n cells

-- The loop of `reduce_buffer_size`, over so many chunks of eight bytes.
unfoldable pub find_tale : ℕ → List ℕ → ℕ → Bool → ℕ → ℕ
find_tale zero cells carriage non_zero_flag tale = tale
find_tale (suc n) cells carriage non_zero_flag tale =
    let zero_flag = is_zero_chunk 8 cells in
    find_tale n (skip 8 cells) (carriage + 8) (not zero_flag)
      (if non_zero_flag && zero_flag then carriage else tale)

-- The rounds that FOR_END lets a loop make.
unfoldable pub limited : ℕ → ℕ
limited rounds = if ltb rounds cycle_limit then rounds else cycle_limit

-- `fresh` is what realloc adds, where the last chunk is in use. `none` is a read in front of an
-- empty array.
unfoldable pub reduce_buffer_size : (ℕ → ℕ) → List ℕ → Option (List ℕ)
reduce_buffer_size fresh cells =
    if ltb (length cells) 8
    then none
    else if is_zero_chunk 8 (skip (length cells - 8) cells)
    then some (resize fresh 0 (find_tale (limited (length cells / 8)) cells 0 true 0 + 8) cells)
    else some (resize fresh 0 (length cells + 8) cells)

-- The pointers to the lines; `none` is a write behind their array.
unfoldable pub parse_human_code : List ℕ → Option (List (List ℕ))
parse_human_code text =
    if leb (length (ptr_arranger text)) (count_file_lines text)
    then some (ptr_arranger text)
    else none

-- `compile`, from the text of the file to the bytes of the binary file.
module _ {F : Type 0} (scan_double : List ℕ → Scanned F) (scan_address : List ℕ → Scanned ℕ)
    (scan_two : List ℕ → ℕ × ℕ) (bytes_of : F → List ℕ) (nan : F) (fresh : ℕ → ℕ) where
  abbrev pub after_labels : AsmErr × List ℕ → Option (AsmErr × List ℕ)
  after_labels (asm_all_good, cells) =
      reduce_buffer_size fresh cells >>= λ code. some (asm_all_good, code)
  after_labels (label_doesnt_exist, cells) = some (label_doesnt_exist, [])

  unfoldable pub compile : List ℕ → Option (AsmErr × List ℕ)
  compile text = parse_human_code text >>= λ lines.
      cmds_process scan_double scan_address scan_two bytes_of nan lines >>= λ m.
      arrange_labels m >>= after_labels
