-- ===== src/Assembler/Expressions.antt =====
-- CPU/CPU/Assembler: the code that the assembler writes for the lines of an arithmetic expression is
-- the code that the machine evaluates.
use tatlang.Prelude.{
  ℕ, suc, ◌+◌, ◌≡◌, refl, ap, ◌∙◌, subst, true, false, Option, some, List, [], ◌∷◌, ◌++◌,
  append_assoc, length, length-append, arith, ◌==◌,
}
use tatlang.Frontend.Symbols.{codes}
use tatlang.FileParser.Lines.{is_line, text_of, pointers}
use tatlang.FileParser.{zeroed}
use tatlang.Spu.Vm.{imm_mask}
use tatlang.Spu.Expressions.{
  ArithOp, plus, minus, times, over, op_byte, Arith, lit, bin, word_of, push_word, code,
}
use tatlang.Assembler.Buffer.{Buffer, zeros, align_buffer, write_char_w_alignment}
use tatlang.Assembler.Commands.{
  CompileManager, is_command, find_command, first_byte, Scanned, matched, starts_ram,
  write_immediate, write_command, process_lines,
}
use tatlang.Assembler.Writes.{Holds, write_to_buf-Holds, mask_buffer-Holds, fit}

-- What the texts of numbers in lines are: sscanf reads the number `rounded x` from the text that
-- fprintf writes for `x` with its six decimals, whatever stands behind the zero at the end of the
-- text, and the text does not look like an address.
pub record Spelling {F : Type 0} (scan_double : List ℕ → Scanned F) (spell : F → List ℕ)
    (rounded : F → F) : Type 0 where
  pub reads : (x : F) (s : List ℕ) → scan_double (spell x ++ 0 ∷ s) ≡ matched (rounded x)
  pub starts : (x : F) → (c : ℕ) × (s : List ℕ) × (spell x ≡ c ∷ s) × ((c == b'[') ≡ false)
  pub is_text : (x : F) → is_line (spell x) ≡ true

-- The expression that the assembler reads: its numbers are rounded.
abbrev pub read_back : {F : Type 0} → (F → F) → Arith F → Arith F
read_back rounded (lit x) = lit (rounded x)
read_back rounded (bin o l r) = bin o (read_back rounded l) (read_back rounded r)

abbrev pub op_line : ArithOp → List ℕ
op_line plus = codes "add"
op_line minus = codes "sub"
op_line times = codes "mul"
op_line over = codes "div"

abbrev pub lines_of : {F : Type 0} → (F → List ℕ) → Arith F → List (List ℕ)
lines_of spell (lit x) = (codes "push " ++ spell x) ∷ []
lines_of spell (bin o l r) = lines_of spell l ++ lines_of spell r ++ op_line o ∷ []

write_word-Holds :
    (pre : List ℕ) (k b : ℕ) (buf : Buffer)
    → Holds pre (8 + suc k) buf
    → (buf' : Buffer) × (write_char_w_alignment b 7 buf ≡ some buf')
      × Holds (pre ++ word_of b) (suc k) buf'
unfolding write_char_w_alignment align_buffer
write_word-Holds pre k b buf h =
    let (buf₁, e₁, h₁) =
      write_to_buf-Holds (b ∷ []) pre (7 + k) buf
        (fit pre _ (1 + suc (7 + k)) buf h (omega arith)) in
    let (buf₂, e₂, h₂) =
      write_to_buf-Holds (zeros 7) (pre ++ b ∷ []) k buf₁
        (fit (pre ++ b ∷ []) _ (7 + suc k) buf₁ h₁ (omega arith)) in
    (
      buf₂,
      rw (e₁, e₂) refl,
      subst (λ l. Holds l (suc k) buf₂) (append_assoc pre (b ∷ []) (zeros 7)) h₂,
    )

module _ {F : Type 0} (scan_double : List ℕ → Scanned F) (scan_address : List ℕ → Scanned ℕ)
    (scan_two : List ℕ → ℕ × ℕ) (bytes_of : F → List ℕ) (spell : F → List ℕ)
    (eight : (x : F) → length (bytes_of x) ≡ 8) (rounded : F → F)
    (spelling : Spelling scan_double spell rounded) where
  write_immediate-Holds :
      (pre : List ℕ) (k : ℕ) (x : F) (buf : Buffer)
      → Holds pre (15 + suc k) buf
      → (buf' : Buffer) × (write_immediate scan_double scan_address scan_two bytes_of x buf
          ≡ some buf')
        × Holds (pre ++ imm_mask ∷ [] ++ zeros 6 ++ bytes_of x) (suc k) buf'
  unfolding write_immediate align_buffer
  write_immediate-Holds pre k x buf h =
      let p₁ = pre ++ imm_mask ∷ [] in
      let (b₁, e₁, h₁) =
        mask_buffer-Holds imm_mask pre (15 + k) buf refl
          (fit pre _ (suc (15 + k)) buf h (omega arith)) in
      let (b₂, e₂, h₂) =
        write_to_buf-Holds (zeros 6) p₁ (8 + k) b₁
          (fit p₁ _ (6 + suc (8 + k)) b₁ h₁ (omega arith)) in
      let (b₃, e₃, h₃) =
        write_to_buf-Holds (bytes_of x) (p₁ ++ zeros 6) k b₂
          (fit (p₁ ++ zeros 6) _ (length (bytes_of x) + suc k) b₂ h₂ (omega (arith, eight x))) in
      (b₃, rw (e₁, e₂, e₃) refl, h₃)

  abbrev pub process : ℕ → List (List ℕ) → CompileManager F → Option (CompileManager F)
  process = process_lines scan_double scan_address scan_two bytes_of

  -- What the lines of an expression leave: more code, and another value of the last argument.
  abbrev pub Written : ℕ → List (List ℕ) → List ℕ → ℕ → List (List ℕ) → CompileManager F → Type 0
  Written counter lines pre k rest m =
      (buf : Buffer) × (y : F) × (n : ℕ) × (process counter (pointers (lines ++ rest)) m
        ≡ process n (pointers rest) (record m { byte_code = buf; argument_value = y }))
      × Holds pre (suc k) buf

  first_byte-text :
      (x : F) (t : List ℕ) (c : ℕ) (s : List ℕ)
      → spell x ≡ c ∷ s
      → first_byte (spell x ++ 0 ∷ t) ≡ some c
  first_byte-text x t c s e = ap (λ l. first_byte (l ++ 0 ∷ t)) e

  starts_ram-text :
      (x : F) (t : List ℕ) (c : ℕ) (s : List ℕ)
      → spell x ≡ c ∷ s
      → (c == b'[') ≡ false
      → starts_ram scan_double scan_address scan_two bytes_of (spell x ++ 0 ∷ t) ≡ false
  starts_ram-text x t c s e no_address = rw e no_address

  pub push-Written :
      (counter : ℕ) (x : F) (pre : List ℕ) (k : ℕ) (rest : List (List ℕ)) (m : CompileManager F)
      → Holds pre (16 + suc k) m.byte_code
      → Written counter (lines_of spell (lit x)) (pre ++ code bytes_of (lit (rounded x))) k rest m
  unfolding process_lines find_command is_command write_command
  push-Written counter x pre k rest m h =
      let (c, s, starts, no_address) = spelling.starts x in
      let (b₁, e₁, h₁) =
        write_to_buf-Holds (1 ∷ []) pre (15 + k) m.byte_code
          (fit pre _ (1 + suc (15 + k)) m.byte_code h (omega arith)) in
      let (b₂, e₂, h₂) =
        write_immediate-Holds (pre ++ 1 ∷ []) k (rounded x) b₁
          (fit (pre ++ 1 ∷ []) _ (15 + suc k) b₁ h₁ (omega arith)) in
      (
        b₂,
        rounded x,
        9,
        rw
            (
              e₁,
              first_byte-text x (zeroed (text_of rest)) c s starts,
              starts_ram-text x (zeroed (text_of rest)) c s starts no_address,
              no_address,
              spelling.reads x (zeroed (text_of rest)),
              e₂,
            )
            refl,
        subst (λ l. Holds l (suc k) b₂) (simp append_assoc) h₂,
      )

  op-Written :
      (counter : ℕ) (o : ArithOp) (pre : List ℕ) (k : ℕ) (rest : List (List ℕ))
      (m : CompileManager F)
      → Holds pre (8 + suc k) m.byte_code
      → Written counter (op_line o ∷ []) (pre ++ word_of (op_byte o)) k rest m
  unfolding process_lines find_command is_command write_command
  op-Written counter plus pre k rest m h =
      let (b, e, h') = write_word-Holds pre k 2 m.byte_code h in
      (b, m.argument_value, 3, rw e refl, h')
  op-Written counter minus pre k rest m h =
      let (b, e, h') = write_word-Holds pre k 3 m.byte_code h in
      (b, m.argument_value, 3, rw e refl, h')
  op-Written counter times pre k rest m h =
      let (b, e, h') = write_word-Holds pre k 4 m.byte_code h in
      (b, m.argument_value, 3, rw e refl, h')
  op-Written counter over pre k rest m h =
      let (b, e, h') = write_word-Holds pre k 5 m.byte_code h in
      (b, m.argument_value, 3, rw e refl, h')

  -- The lines of an expression become its code, behind what is written already, where the array has
  -- room for it and a cell more.
  pub expression-Written :
      (counter : ℕ) (e : Arith F) (pre : List ℕ) (k : ℕ) (rest : List (List ℕ))
      (m : CompileManager F)
      → Holds pre (length (code bytes_of (read_back rounded e)) + suc k) m.byte_code
      → Written counter (lines_of spell e) (pre ++ code bytes_of (read_back rounded e)) k rest m
  expression-Written counter (lit x) pre k rest m h = push-Written counter x pre k rest m (
      fit pre _ (16 + suc k) m.byte_code h
        (omega (arith, length-append push_word (bytes_of (rounded x)), eight (rounded x))))
  expression-Written counter (bin o l r) pre k rest m h =
      let cs = code bytes_of (read_back rounded l) in
      let ds = code bytes_of (read_back rounded r) in
      let ws = word_of (op_byte o) in
      let (b₁, y₁, n₁, e₁, h₁) =
        expression-Written counter l pre (length ds + (8 + k))
          (lines_of spell r ++ (op_line o ∷ rest)) m
          (fit pre _ (length cs + suc (length ds + (8 + k))) m.byte_code h
            (omega (arith, length-append cs ds, length-append (cs ++ ds) ws))) in
      let m₁ = record m { byte_code = b₁; argument_value = y₁ } in
      let (b₂, y₂, n₂, e₂, h₂) =
        expression-Written n₁ r (pre ++ cs) (8 + k) (op_line o ∷ rest) m₁
          (fit (pre ++ cs) _ (length ds + suc (8 + k)) b₁ h₁ (omega arith)) in
      let m₂ = record m { byte_code = b₂; argument_value = y₂ } in
      let (b₃, y₃, n₃, e₃, h₃) =
        op-Written n₂ o (pre ++ cs ++ ds) k rest m₂
          (fit (pre ++ cs ++ ds) _ (8 + suc k) b₂ h₂ (omega arith)) in
      (
        b₃,
        y₃,
        n₃,
        ap (λ ls. process counter (pointers ls) m)
              (regroup_lines (lines_of spell l) (lines_of spell r) (op_line o) rest)
            ∙ e₁
            ∙ e₂
            ∙ e₃,
        subst (λ c. Holds c (suc k) b₃) (regroup_code pre cs ds ws) h₃,
      )
    where
      regroup_lines :
          (a b : List (List ℕ)) (x : List ℕ) (c : List (List ℕ))
          → (a ++ b ++ x ∷ []) ++ c ≡ a ++ (b ++ (x ∷ c))
      regroup_lines a b x c = simp append_assoc

      regroup_code : (a b c x : List ℕ) → a ++ b ++ c ++ x ≡ a ++ (b ++ c ++ x)
      regroup_code a b c x = simp append_assoc
