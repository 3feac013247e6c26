-- ===== src/Assembler/Buffer.antt =====
-- CPU/CPU/Assembler/src/assembler_additional.cpp: the functions that write to the byte code. A
-- write out of the array is `none`.
use Prim.Native.Nat.{bit_or}
use tatlang.Prelude.{
  ℕ, zero, suc, ◌/◌, ◌%◌, Option, none, some, List, [], ◌∷◌, length, get_elem?, set, ltb,
  if◌then◌else◌,
}

-- `cells` is the array at `byte_code_start`, and `pos` is `byte_code.buf` relative to it.
pub record Buffer : Type 0 where
  pub cells : List ℕ
  pub pos : ℕ

infixl 1 ◌>>=◌
abbrev pub ◌>>=◌ : {A B : Type 0} → Option A → (A → Option B) → Option B
none >>= f = none
some a >>= f = f a

abbrev pub align_to_int : ℕ
align_to_int = 3

abbrev pub align_to_double : ℕ
align_to_double = 7

abbrev pub six_byte_alignment : ℕ
six_byte_alignment = 6

abbrev pub two_byte_alignment : ℕ
two_byte_alignment = 2

-- `snprintf` with "%c" writes the byte and a zero behind it.
unfoldable pub write_byte : ℕ → Buffer → Option Buffer
write_byte b buf =
    if ltb (suc buf.pos) (length buf.cells)
    then some (record { cells = set (set buf.cells buf.pos b) (suc buf.pos) 0; pos = suc buf.pos })
    else none

unfoldable pub write_to_buf : List ℕ → Buffer → Option Buffer
write_to_buf [] buf = some buf
write_to_buf (b ∷ bs) buf = write_byte b buf >>= write_to_buf bs

abbrev pub zeros : ℕ → List ℕ
zeros zero = []
zeros (suc n) = 0 ∷ zeros n

unfoldable pub align_buffer : ℕ → Buffer → Option Buffer
align_buffer amount_of_bytes buf = write_to_buf (zeros amount_of_bytes) buf

unfoldable pub write_char_w_alignment : ℕ → ℕ → Buffer → Option Buffer
write_char_w_alignment value alignment_space buf =
    write_to_buf (value ∷ []) buf >>= align_buffer alignment_space

-- The byte is changed in place, and nothing behind it.
unfoldable pub mask_buffer : ℕ → Buffer → Option Buffer
mask_buffer mask buf = get_elem? buf.cells buf.pos >>= λ b.
    some (record { cells = set buf.cells buf.pos (bit_or b mask); pos = suc buf.pos })

-- The first bytes of a number in memory.
unfoldable pub number_bytes : ℕ → ℕ → List ℕ
number_bytes zero n = []
number_bytes (suc k) n = (n % 256) ∷ number_bytes k (n / 256)

unfoldable pub get_ip_pos : Buffer → ℕ
get_ip_pos buf = buf.pos / 8
