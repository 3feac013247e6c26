-- ===== src/Assembler/Commands.antt =====
-- CPU/CPU/Assembler/src/assembler_additional.cpp, and the list of commands in
-- CPU/Global/include/cmd_definitions.h: what is written for a line.
use Prim.Native.Nat.{bit_or}
use tatlang.Prelude.{
  ℕ, zero, suc, ◌+◌, ◌-◌, ◌*◌, ◌%◌, Bool, true, false, ◌&&◌, Option, none, some, List, [], ◌∷◌,
  ◌++◌, length, ◌==◌, ltb, if◌then◌else◌,
}
use tatlang.Frontend.Symbols.{codes}
use tatlang.Spu.Vm.{ram_mask, reg_mask, imm_mask}
use tatlang.Assembler.Buffer.{
  Buffer, ◌>>=◌, align_to_int, align_to_double, six_byte_alignment, two_byte_alignment,
  write_to_buf, zeros, align_buffer, write_char_w_alignment, mask_buffer, number_bytes, get_ip_pos,
}

-- `Label` and `JMP_pos`; a name is the memory from there on.
pub record NamePos : Type 0 where
  pub name : List ℕ
  pub ip_pos : ℕ

-- The parts of `Compile_manager` that the loop over the lines changes, the two variables that keep
-- their values from line to line, and the number of lines, which is the room for labels and jumps.
pub record CompileManager (F : Type 0) : Type 0 where
  pub byte_code : Buffer
  pub labels : List NamePos
  pub jmp_poses : List NamePos
  pub amount_of_lines : ℕ
  pub argument_value : F
  pub ram_address : ℕ

-- How a command takes its arguments: the macros WRITE_CMD_W_8_BYTE_ARG, WRITE_CMD_W_4_BYTE_ARG,
-- WRITE_CMD_W_NO_ARG, WRITE_CMD_W_LABEL_ARG, WRITE_LABEL and WRITE_CMD_W_2_ARGS.
pub data CommandKind : Type 0 where
  cmd_w_8_byte_arg cmd_w_4_byte_arg cmd_w_no_arg cmd_w_label_arg label_line : CommandKind
  cmd_w_2_args : CommandKind

pub record Definition : Type 0 where
  pub cmd_name : List ℕ
  pub num : ℕ
  pub kind : CommandKind

abbrev pub def_cmd : List ℕ → ℕ → CommandKind → Definition
def_cmd n k t = record { cmd_name = n; num = k; kind = t }

-- The commands in the order of the file; HLT is -1 as a byte.
abbrev pub cmd_definitions : List Definition
cmd_definitions =
    def_cmd (codes "push") 1 cmd_w_8_byte_arg
    ∷ def_cmd (codes "pop") 8 cmd_w_4_byte_arg
    ∷ def_cmd (codes "in") 7 cmd_w_no_arg
    ∷ def_cmd (codes "add") 2 cmd_w_no_arg
    ∷ def_cmd (codes "sub") 3 cmd_w_no_arg
    ∷ def_cmd (codes "mul") 4 cmd_w_no_arg
    ∷ def_cmd (codes "div") 5 cmd_w_no_arg
    ∷ def_cmd (codes "out") 6 cmd_w_no_arg
    ∷ def_cmd (codes "ret") 17 cmd_w_no_arg
    ∷ def_cmd (codes "jmp") 9 cmd_w_label_arg
    ∷ def_cmd (codes "jae") 12 cmd_w_label_arg
    ∷ def_cmd (codes "ja") 10 cmd_w_label_arg
    ∷ def_cmd (codes "jbe") 13 cmd_w_label_arg
    ∷ def_cmd (codes "jb") 11 cmd_w_label_arg
    ∷ def_cmd (codes "je") 14 cmd_w_label_arg
    ∷ def_cmd (codes "jne") 15 cmd_w_label_arg
    ∷ def_cmd (codes "call") 16 cmd_w_label_arg
    ∷ def_cmd (codes "hlt") 255 cmd_w_no_arg
    ∷ def_cmd (codes "draw") 18 cmd_w_2_args
    ∷ def_cmd (codes "sqrt") 19 cmd_w_no_arg
    ∷ def_cmd (codes ":") 0 label_line
    ∷ []

-- `!strncmp(line, cmd, LEN(cmd))`.
unfoldable pub is_command : List ℕ → List ℕ → Bool
is_command line [] = true
is_command [] (c ∷ cmd) = false
is_command (x ∷ line) (c ∷ cmd) = x == c && is_command line cmd

unfoldable pub find_command : List ℕ → List Definition → Option Definition
find_command line [] = none
find_command line (def ∷ defs) =
    let rest = find_command line defs in if is_command line def.cmd_name then some def else rest

-- `line + n`.
abbrev pub skip : ℕ → List ℕ → List ℕ
skip zero line = line
skip (suc n) [] = []
skip (suc n) (c ∷ line) = skip n line

abbrev pub first_byte : List ℕ → Option ℕ
first_byte [] = none
first_byte (c ∷ s) = some c

-- `*(ptr) - 'a'` as a char.
unfoldable pub get_reg_type : List ℕ → Option ℕ
get_reg_type ptr = first_byte ptr >>= λ c. some ((c + 256 - b'a') % 256)

-- What sscanf returns for one conversion: 1, 0 or EOF.
pub data Scanned (A : Type 0) : Type 0 where
  matched : A → Scanned A
  unmatched at_end : Scanned A

-- The limit of rounds of a loop between FOR and FOR_END.
abbrev pub cycle_limit : ℕ
cycle_limit = 10000

-- Parameters: sscanf with "%lf", "[%d]" and "%u %u" (0 for a number that is missing), and the bytes
-- of a double in memory.
module _ {F : Type 0} (scan_double : List ℕ → Scanned F) (scan_address : List ℕ → Scanned ℕ)
    (scan_two : List ℕ → ℕ × ℕ) (bytes_of : F → List ℕ) where
  abbrev pub put_code : CompileManager F → Option Buffer → Option (CompileManager F)
  put_code m o = o >>= λ buf. some (record m { byte_code = buf })

  unfoldable pub write_reg : ℕ → List ℕ → Buffer → Option Buffer
  write_reg mask ptr buf = mask_buffer mask buf >>= λ b₁.
      align_buffer two_byte_alignment b₁ >>= λ b₂.
      get_reg_type ptr >>= λ reg_type. write_char_w_alignment reg_type align_to_int b₂

  unfoldable pub write_address : ℕ → Buffer → Option Buffer
  write_address address buf = mask_buffer (bit_or ram_mask imm_mask) buf >>= λ b₁.
      align_buffer two_byte_alignment b₁ >>= λ b₂. write_to_buf (number_bytes 4 address) b₂

  -- PROCESS_RAM_ARG behind its test of '['.
  abbrev pub process_ram_arg :
      CompileManager F → List ℕ → Buffer → Scanned ℕ → Option (CompileManager F)
  process_ram_arg m cmd_arg buf unmatched =
      put_code m (write_reg (bit_or ram_mask reg_mask) (skip 2 cmd_arg) buf)
  process_ram_arg m cmd_arg buf (matched a) =
      put_code (record m { ram_address = a }) (write_address a buf)
  process_ram_arg m cmd_arg buf at_end = put_code m (write_address m.ram_address buf)

  unfoldable pub write_immediate : F → Buffer → Option Buffer
  write_immediate x buf = mask_buffer imm_mask buf >>= λ b₁.
      align_buffer six_byte_alignment b₁ >>= λ b₂. write_to_buf (bytes_of x) b₂

  abbrev pub process_8_byte_arg :
      CompileManager F → List ℕ → Buffer → Scanned F → Option (CompileManager F)
  process_8_byte_arg m cmd_arg buf unmatched = put_code m (write_reg reg_mask (skip 1 cmd_arg) buf)
  process_8_byte_arg m cmd_arg buf (matched x) =
      put_code (record m { argument_value = x }) (write_immediate x buf)
  process_8_byte_arg m cmd_arg buf at_end = put_code m (write_immediate m.argument_value buf)

  -- A name and a position are appended to an array with room for as many as there are lines.
  unfoldable pub add_name : ℕ → List NamePos → List ℕ → ℕ → Option (List NamePos)
  add_name room names name ip_pos =
      if ltb (length names) room
      then some (names ++ record { name = name; ip_pos = ip_pos } ∷ [])
      else none

  unfoldable pub write_command : Definition → List ℕ → CompileManager F → Option (CompileManager F)
  write_command def line m = elim def.kind [
    | cmd_w_8_byte_arg ↦ write_to_buf (def.num ∷ []) m.byte_code >>= λ buf.
        first_byte (skip (length def.cmd_name + 1) line) >>= λ c.
        let cmd_arg = skip (length def.cmd_name + 1) line in
        if c == b'['
        then process_ram_arg m cmd_arg buf (scan_address cmd_arg)
        else process_8_byte_arg m cmd_arg buf (scan_double cmd_arg)
    | cmd_w_4_byte_arg ↦ write_to_buf (def.num ∷ []) m.byte_code >>= λ buf.
        first_byte (skip (length def.cmd_name + 1) line) >>= λ c.
        let cmd_arg = skip (length def.cmd_name + 1) line in
        if c == b'['
        then process_ram_arg m cmd_arg buf (scan_address cmd_arg)
        else put_code m (write_reg reg_mask (skip 1 cmd_arg) buf)
    | cmd_w_no_arg ↦ put_code m (write_char_w_alignment def.num align_to_double m.byte_code)
    | cmd_w_label_arg ↦ write_char_w_alignment def.num align_to_int m.byte_code >>= λ b₁.
        write_to_buf (255 ∷ 255 ∷ 255 ∷ 255 ∷ []) b₁ >>= λ b₂.
        add_name m.amount_of_lines m.jmp_poses (skip (length def.cmd_name + 1) line)
          (get_ip_pos b₂ - 1)
        >>= λ jmps. some (record m { byte_code = b₂; jmp_poses = jmps })
    | label_line ↦
        add_name m.amount_of_lines m.labels (skip 1 line) (get_ip_pos m.byte_code) >>= λ labels.
        some (record m { labels = labels })
    | cmd_w_2_args ↦ write_char_w_alignment def.num align_to_double m.byte_code >>= λ b₁.
        write_to_buf (number_bytes 4 (scan_two (skip (length def.cmd_name) line)).0) b₁ >>= λ b₂.
        put_code m (write_to_buf (number_bytes 4 (scan_two (skip (length def.cmd_name) line)).1) b₂)
  ]

  -- A line that is no command writes nothing.
  abbrev pub write_line : List ℕ → CompileManager F → Option Definition → Option (CompileManager F)
  write_line line m none = some m
  write_line line m (some def) = write_command def line m

  -- Every write to the code is a loop of its own over the same GLOBAL_CYCLE_COUNTER: what is in it
  -- behind the last write of a line. A loop over `n` bytes leaves `n`, and one of `align_buffer` 2,
  -- since its rounds write a byte each.
  abbrev pub ram_cycles : Scanned ℕ → ℕ
  ram_cycles unmatched = 2
  ram_cycles (matched a) = 4
  ram_cycles at_end = 4

  abbrev pub immediate_cycles : Scanned F → ℕ
  immediate_cycles unmatched = 2
  immediate_cycles (matched x) = 8
  immediate_cycles at_end = 8

  abbrev pub starts_ram : List ℕ → Bool
  starts_ram [] = false
  starts_ram (c ∷ s) = c == b'['

  abbrev pub command_cycles : CommandKind → List ℕ → ℕ → ℕ
  command_cycles cmd_w_8_byte_arg arg counter =
      if starts_ram arg then ram_cycles (scan_address arg) else immediate_cycles (scan_double arg)
  command_cycles cmd_w_4_byte_arg arg counter =
      if starts_ram arg then ram_cycles (scan_address arg) else 2
  command_cycles cmd_w_no_arg arg counter = 2
  command_cycles cmd_w_label_arg arg counter = 4
  command_cycles label_line arg counter = counter
  command_cycles cmd_w_2_args arg counter = 4

  abbrev pub line_cycles : List ℕ → ℕ → Option Definition → ℕ
  line_cycles line counter none = counter
  line_cycles line counter (some def) =
      command_cycles def.kind (skip (length def.cmd_name + 1) line) counter

  -- FOR_END leaves the loop when the counter reaches CYCLE_LIMIT, as it does behind that many lines
  -- one after the other that write nothing.
  unfoldable pub process_lines : ℕ → List (List ℕ) → CompileManager F → Option (CompileManager F)
  process_lines counter [] m = some m
  process_lines counter (line ∷ lines) m =
      let def = find_command line cmd_definitions in
      let rounds = suc (line_cycles line counter def) in
      write_line line m def >>= λ m'.
      let rest = process_lines rounds lines m' in if ltb rounds cycle_limit then rest else some m'

  -- `write_main_jmp`, with the jump to `main` that the code starts with.
  unfoldable pub write_main_jmp : CompileManager F → Option (CompileManager F)
  write_main_jmp m = write_char_w_alignment 9 align_to_int m.byte_code >>= λ b₁.
      write_to_buf (255 ∷ 255 ∷ 255 ∷ 255 ∷ []) b₁ >>= λ b₂.
      add_name m.amount_of_lines m.jmp_poses (codes "main" ++ 0 ∷ []) 0 >>= λ jmps.
      some (record m { byte_code = b₂; jmp_poses = jmps })

  -- Two words of eight bytes for every line. `nan` is the first value of `argument_value`.
  unfoldable pub cmds_process : F → List (List ℕ) → Option (CompileManager F)
  cmds_process nan lines =
      write_main_jmp (record {
        byte_code = record { cells = zeros (length lines * 8 * 2); pos = 0 };
        labels = [];
        jmp_poses = [];
        amount_of_lines = length lines;
        argument_value = nan;
        ram_address = 0;
      })
      >>= process_lines 0 lines
