-- ===== src/Assembler/Full.antt =====
-- CPU/CPU/Assembler/src/assembler_additional.cpp: the room that `cmds_process` allocates for the code.
use tatlang.Prelude.{
  ℕ, suc, ◌+◌, ◌*◌, ◌≡◌, refl, ap, ◌∙◌, true, false, none, some, List, [], ◌∷◌, ◌++◌, length,
  length-append, arith, ltb,
}
use tatlang.Frontend.Symbols.{codes}
use tatlang.FileParser.{zeroed}
use tatlang.FileParser.Lines.{pointers, length-pointers}
use tatlang.Spu.Vm.{imm_mask}
use tatlang.Assembler.Buffer.{
  Buffer, ◌>>=◌, write_byte, write_to_buf, zeros, align_buffer, write_char_w_alignment,
}
use tatlang.Assembler.Commands.{
  NamePos, CompileManager, Scanned, is_command, find_command, first_byte, write_immediate, add_name,
  write_command, process_lines, write_main_jmp, cmds_process,
}
use tatlang.Assembler.Writes.{Holds, write_byte-Holds, write_to_buf-Holds, mask_buffer-Holds, fit}
use tatlang.Assembler.Expressions.{Spelling, push-Written}

no_room : (pre : List ℕ) → ltb (suc (length pre)) (length (pre ++ 0 ∷ [])) ≡ false
no_room pre = ground (arith, length-append pre (0 ∷ []))

-- Bytes that fill the array are too many, since a zero is written behind the last one.
write_to_buf-full :
    (b : ℕ) (bs pre : List ℕ) (buf : Buffer)
    → Holds pre (suc (length bs)) buf
    → write_to_buf (b ∷ bs) buf ≡ none
unfolding write_to_buf write_byte
write_to_buf-full b [] pre buf h = rw (h.written, h.at_end, no_room pre) refl
write_to_buf-full b (c ∷ bs) pre buf h =
    let (buf₁, e₁, h₁) = write_byte-Holds pre (length bs) b buf h in
    ap (λ o. o >>= write_to_buf (c ∷ bs)) e₁ ∙ write_to_buf-full c bs (pre ++ b ∷ []) buf₁ h₁

abbrev main_jmp : NamePos
main_jmp = record { name = codes "main" ++ 0 ∷ []; ip_pos = 0 }

abbrev pub pushes : {F : Type 0} → (F → List ℕ) → List F → List (List ℕ)
pushes spell [] = []
pushes spell (x ∷ xs) = (codes "push " ++ spell x) ∷ pushes spell xs

module _ {F : Type 0} (scan_double : List ℕ → Scanned F) (scan_address : List ℕ → Scanned ℕ)
    (scan_two : List ℕ → ℕ × ℕ) (bytes_of : F → List ℕ) (spell : F → List ℕ)
    (eight : (x : F) → length (bytes_of x) ≡ 8) (rounded : F → F)
    (spelling : Spelling scan_double spell rounded) where
  room_for_name :
      (n : ℕ) (x : NamePos)
      → add_name scan_double scan_address scan_two bytes_of (suc n) [] x.name x.ip_pos
        ≡ some (x ∷ [])
  unfolding add_name
  room_for_name n x = rw (positive n) refl
    where
      positive : (i : ℕ) → ltb 0 (suc i) ≡ true
      positive i = ground arith

  -- The jump to main, in an array with room for it and a cell more.
  write_main_jmp-Holds :
      (n k : ℕ) (m : CompileManager F)
      → m.amount_of_lines ≡ suc n
      → m.jmp_poses ≡ []
      → Holds [] (8 + suc k) m.byte_code
      → (m' : CompileManager F) × (pre : List ℕ) × (write_main_jmp scan_double scan_address scan_two
            bytes_of m
          ≡ some m')
        × Holds pre (suc k) m'.byte_code
  unfolding write_main_jmp write_char_w_alignment align_buffer
  write_main_jmp-Holds n k m lines jumps h =
      let (b₁, e₁, h₁) =
        write_to_buf-Holds (9 ∷ []) [] (7 + k) m.byte_code
          (fit [] _ (1 + suc (7 + k)) m.byte_code h (omega arith)) in
      let (b₂, e₂, h₂) =
        write_to_buf-Holds (zeros 3) (9 ∷ []) (4 + k) b₁
          (fit (9 ∷ []) _ (3 + suc (4 + k)) b₁ h₁ (omega arith)) in
      let (b₃, e₃, h₃) =
        write_to_buf-Holds (255 ∷ 255 ∷ 255 ∷ 255 ∷ []) (9 ∷ zeros 3) k b₂
          (fit (9 ∷ zeros 3) _ (4 + suc k) b₂ h₂ (omega arith)) in
      (
        record m { byte_code = b₃; jmp_poses = main_jmp ∷ [] },
        _,
        rw (e₁, e₂, e₃, lines, jumps, room_for_name n main_jmp) refl,
        h₃,
      )

  write_immediate-full :
      (x : F) (pre : List ℕ) (buf : Buffer)
      → Holds pre 7 buf
      → write_immediate scan_double scan_address scan_two bytes_of x buf ≡ none
  unfolding write_immediate align_buffer
  write_immediate-full x pre buf h =
      let (b₁, e₁, h₁) = mask_buffer-Holds imm_mask pre 6 buf refl h in
      rw (e₁, write_to_buf-full 0 (zeros 5) (pre ++ imm_mask ∷ []) b₁ h₁) refl

  last_push :
      (counter : ℕ) (x : F) (pre : List ℕ) (m : CompileManager F)
      → Holds pre 8 m.byte_code
      → process_lines scan_double scan_address scan_two bytes_of counter
          (pointers (pushes spell (x ∷ [])))
          m
        ≡ none
  unfolding process_lines find_command is_command write_command zeroed
  last_push counter x pre m h =
      let (c, s, starts, no_address) = spelling.starts x in
      let (b₁, e₁, h₁) = write_to_buf-Holds (1 ∷ []) pre 6 m.byte_code h in
      rw
        (
          e₁,
          ap (λ l. first_byte (l ++ 0 ∷ [])) starts,
          no_address,
          spelling.reads x [],
          write_immediate-full (rounded x) (pre ++ 1 ∷ []) b₁ h₁,
        )
        refl

  pushes-full :
      (counter : ℕ) (x : F) (xs : List F) (pre : List ℕ) (m : CompileManager F)
      → Holds pre (8 + 16 * length xs) m.byte_code
      → process_lines scan_double scan_address scan_two bytes_of counter
          (pointers (pushes spell (x ∷ xs)))
          m
        ≡ none
  pushes-full counter x [] pre m h =
      last_push counter x pre m (fit pre _ 8 m.byte_code h (omega arith))
  pushes-full counter x (y ∷ ys) pre m h =
      let (buf, v, n, e, h') =
        push-Written scan_double scan_address scan_two bytes_of spell eight rounded spelling counter
          x pre (7 + 16 * length ys) (pushes spell (y ∷ ys)) m
          (fit pre _ (16 + suc (7 + 16 * length ys)) m.byte_code h (omega arith)) in
      e
      ∙ pushes-full n y ys _ (record m { byte_code = buf; argument_value = v })
          (fit _ _ (8 + 16 * length ys) buf h' (omega arith))

  length-pushes : (xs : List F) → length (pushes spell xs) ≡ length xs
  length-pushes [] = refl
  length-pushes (x ∷ xs) = ap suc (length-pushes xs)

  -- A file of nothing but pushes of numbers, one at least, leaves the array that `cmds_process`
  -- allocates: two words for a line are filled by the pushes alone, and the jump to main stands in
  -- front of them.
  pub cmds_process-pushes :
      (nan : F) (x : F) (xs : List F)
      → cmds_process scan_double scan_address scan_two bytes_of nan
          (pointers (pushes spell (x ∷ xs)))
        ≡ none
  unfolding cmds_process
  cmds_process-pushes nan x xs =
      let (m', pre, e, h) =
        write_main_jmp-Holds (length (pointers (pushes spell xs))) (7 + 16 * length xs)
          (record {
            byte_code = record {
              cells = zeros (length (pointers (pushes spell (x ∷ xs))) * 8 * 2);
              pos = 0;
            };
            labels = [];
            jmp_poses = [];
            amount_of_lines = length (pointers (pushes spell (x ∷ xs)));
            argument_value = nan;
            ram_address = 0;
          })
          refl refl (record { written = ap zeros (size xs); at_end = refl }) in
      ap
        (λ o.
          o
          >>= process_lines scan_double scan_address scan_two bytes_of 0
              (pointers (pushes spell (x ∷ xs))))
        e
      ∙ pushes-full 0 x xs pre m' (fit pre _ (8 + 16 * length xs) m'.byte_code h (omega arith))
    where
      size :
          (ys : List F)
          → suc (length (pointers (pushes spell ys))) * 8 * 2 ≡ 8 + suc (7 + 16 * length ys)
      size ys = omega (arith, length-pointers (pushes spell ys), length-pushes ys)
