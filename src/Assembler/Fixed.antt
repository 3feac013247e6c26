-- ===== src/Assembler/Fixed.antt =====
-- CPU/CPU/Assembler/src/assembler_additional.cpp and CPU/CPU/SPU/src/SPU_additional.cpp: the position
-- that `arrange_labels` writes into a jump, and what the machine reads there.
use tatlang.Prelude.{
  ℕ, suc, ◌+◌, ◌*◌, ◌/◌, ◌%◌, ◌<◌, ◌≡◌, refl, ap, sym, true, some, List, [], ◌∷◌, ◌++◌,
  append_assoc, length, length-append, arith, ltb,
}
use tatlang.Spu.Vm.{Vm, word, read_bytes, little_endian, read_uint, update_carriage}
use tatlang.Spu.Expressions.{read_bytes-append, read_bytes-all}
use tatlang.Assembler.Buffer.{write_byte, write_to_buf, number_bytes}
use tatlang.Assembler.Labels.{fix_jump}
use tatlang.Assembler.Writes.{set-append, set-append_suc, snoc-length}

room_for_two :
    (pre post : List ℕ) (x y : ℕ) → ltb (suc (length pre)) (length (pre ++ x ∷ y ∷ post)) ≡ true
room_for_two pre post x y = ground (arith, length-append pre (x ∷ y ∷ post))

-- A byte in the middle of the code, and the zero behind it.
write_byte-inside :
    (pre post : List ℕ) (x y b : ℕ)
    → write_byte b (record { cells = pre ++ x ∷ y ∷ post; pos = length pre })
      ≡ some (record { cells = (pre ++ b ∷ []) ++ 0 ∷ post; pos = length (pre ++ b ∷ []) })
unfolding write_byte
write_byte-inside pre post x y b =
    rw
      (
        room_for_two pre post x y,
        set-append pre (y ∷ post) x b,
        set-append_suc pre post b y 0,
        snoc-length pre b,
        append_assoc pre (b ∷ []) (0 ∷ post),
      )
      refl

write_three :
    (pre post : List ℕ) (w x y z a b c : ℕ)
    → write_to_buf
        (a ∷ b ∷ c ∷ [])
        (record { cells = pre ++ w ∷ x ∷ y ∷ z ∷ post; pos = length pre })
      ≡ some (record {
        cells = (((pre ++ a ∷ []) ++ b ∷ []) ++ c ∷ []) ++ 0 ∷ post;
        pos = length (((pre ++ a ∷ []) ++ b ∷ []) ++ c ∷ []);
      })
unfolding write_to_buf
write_three pre post w x y z a b c =
    rw
      (
        write_byte-inside pre (y ∷ z ∷ post) w x a,
        write_byte-inside (pre ++ a ∷ []) (z ∷ post) 0 y b,
        write_byte-inside ((pre ++ a ∷ []) ++ b ∷ []) post 0 z c,
      )
      refl

read_uint-inside :
    (pre post : List ℕ) (a b c : ℕ)
    → read_uint ((((pre ++ a ∷ []) ++ b ∷ []) ++ c ∷ []) ++ 0 ∷ post) (length pre)
      ≡ some (little_endian (a ∷ b ∷ c ∷ 0 ∷ []))
unfolding read_uint
read_uint-inside pre post a b c =
    rw
      (
        ap (λ l. read_bytes l (length pre) 4) (regroup pre),
        ap (λ i. read_bytes (pre ++ ((a ∷ b ∷ c ∷ 0 ∷ []) ++ post)) i 4) (add_zero (length pre)),
        read_bytes-append pre ((a ∷ b ∷ c ∷ 0 ∷ []) ++ post) 0 4,
        read_bytes-all (a ∷ b ∷ c ∷ 0 ∷ []) post,
      )
      refl
  where
    regroup :
        (l : List ℕ)
        → (((l ++ a ∷ []) ++ b ∷ []) ++ c ∷ []) ++ 0 ∷ post ≡ l ++ ((a ∷ b ∷ c ∷ 0 ∷ []) ++ post)
    regroup l = simp append_assoc

    add_zero : (n : ℕ) → n ≡ n + 0
    add_zero n = omega arith

three_bytes :
    (n : ℕ)
    → n < 16777216
    → little_endian (n % 256 ∷ (n / 256) % 256 ∷ ((n / 256) / 256) % 256 ∷ 0 ∷ []) ≡ n
three_bytes n small = omega arith

-- The position of a label, below 2 ^ 24, that is written to the argument of a jump whose four bytes
-- are in the code, is where the machine goes when it jumps there: the three bytes that are written,
-- and the zero behind them, are all of the argument.
pub fix_jump-update_carriage :
    {F : Type 0} (pre post : List ℕ) (w x y z jmp_pos label_pos : ℕ) (vm : Vm F)
    → length pre ≡ 8 * jmp_pos + 4
    → label_pos < 16777216
    → vm.carriage ≡ 8 * jmp_pos
    → (cells : List ℕ) × (fix_jump (pre ++ w ∷ x ∷ y ∷ z ∷ post) jmp_pos label_pos ≡ some cells)
      × (update_carriage (record vm { byte_code = cells })
          ≡ some (record vm { byte_code = cells; carriage = label_pos * word }))
unfolding fix_jump number_bytes update_carriage
fix_jump-update_carriage pre post w x y z jmp_pos label_pos vm at_arg small at_jump =
    let a = label_pos % 256 in
    let b = (label_pos / 256) % 256 in
    let c = ((label_pos / 256) / 256) % 256 in
    (
      (((pre ++ a ∷ []) ++ b ∷ []) ++ c ∷ []) ++ 0 ∷ post,
      rw (sym at_arg, write_three pre post w x y z a b c) refl,
      rw (at_jump, sym at_arg, read_uint-inside pre post a b c, three_bytes label_pos small) refl,
    )
