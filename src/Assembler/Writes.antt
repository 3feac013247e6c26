-- ===== src/Assembler/Writes.antt =====
-- CPU/CPU/Assembler/src/assembler_additional.cpp: what the functions that write leave in the byte
-- code, where the cells from the position on are zero.
use Prim.Native.Nat.{bit_or}
use tatlang.Prelude.{
  ℕ, suc, ◌+◌, ◌≡◌, refl, ap, sym, ◌∙◌, subst, true, some, List, [], ◌∷◌, ◌++◌, append_assoc,
  append-nil, length, length-append, get_elem?, set, arith, ltb,
}
use tatlang.Assembler.Buffer.{Buffer, write_byte, write_to_buf, zeros, mask_buffer}

-- The code written so far, and the zeros behind it.
pub record Holds (pre : List ℕ) (room : ℕ) (buf : Buffer) : Type 0 where
  pub written : buf.cells ≡ pre ++ zeros room
  pub at_end : buf.pos ≡ length pre

pub set-append : (pre ys : List ℕ) (y b : ℕ) → set (pre ++ y ∷ ys) (length pre) b ≡ pre ++ b ∷ ys
set-append [] ys y b = refl
set-append (x ∷ pre) ys y b = ap (λ l. x ∷ l) (set-append pre ys y b)

pub set-append_suc :
    (pre ys : List ℕ) (x y b : ℕ) → set (pre ++ x ∷ y ∷ ys) (suc (length pre)) b ≡ pre ++ x ∷ b ∷ ys
set-append_suc [] ys x y b = refl
set-append_suc (z ∷ pre) ys x y b = ap (λ l. z ∷ l) (set-append_suc pre ys x y b)

get_elem-append : (pre ys : List ℕ) (y : ℕ) → get_elem? (pre ++ y ∷ ys) (length pre) ≡ some y
get_elem-append [] ys y = refl
get_elem-append (x ∷ pre) ys y = get_elem-append pre ys y

room_for_two :
    (pre : List ℕ) (k : ℕ) → ltb (suc (length pre)) (length (pre ++ 0 ∷ 0 ∷ zeros k)) ≡ true
room_for_two pre k = ground (arith, length-append pre (0 ∷ 0 ∷ zeros k))

pub snoc-length : (pre : List ℕ) (b : ℕ) → suc (length pre) ≡ length (pre ++ b ∷ [])
snoc-length pre b = omega (arith, length-append pre (b ∷ []))

pub write_byte-Holds :
    (pre : List ℕ) (k b : ℕ) (buf : Buffer)
    → Holds pre (suc (suc k)) buf
    → (buf' : Buffer) × (write_byte b buf ≡ some buf') × Holds (pre ++ b ∷ []) (suc k) buf'
unfolding write_byte
write_byte-Holds pre k b buf h = (
  record { cells = set (set buf.cells buf.pos b) (suc buf.pos) 0; pos = suc buf.pos },
  rw (h.written, h.at_end, room_for_two pre k) refl,
  record {
    written =
        rw
          (
            h.written,
            h.at_end,
            set-append pre (0 ∷ zeros k) 0 b,
            set-append_suc pre (zeros k) b 0 0,
          )
          (sym (append_assoc pre (b ∷ []) (0 ∷ zeros k)));
    at_end = ap suc h.at_end ∙ snoc-length pre b;
  },
)

-- Bytes are written behind the code, as long as a cell is left for the zero behind them.
pub write_to_buf-Holds :
    (bs pre : List ℕ) (k : ℕ) (buf : Buffer)
    → Holds pre (length bs + suc k) buf
    → (buf' : Buffer) × (write_to_buf bs buf ≡ some buf') × Holds (pre ++ bs) (suc k) buf'
unfolding write_to_buf
write_to_buf-Holds [] pre k buf h = (
  buf,
  refl,
  record {
    written = h.written ∙ same_room pre k;
    at_end = h.at_end ∙ ap length (sym (append-nil pre));
  },
)
  where
    same_room : (l : List ℕ) (n : ℕ) → l ++ zeros (0 + suc n) ≡ (l ++ []) ++ zeros (suc n)
    same_room l n = rw append-nil (ap (λ r. l ++ zeros r) (zero_add n))
      where
        zero_add : (i : ℕ) → 0 + suc i ≡ suc i
        zero_add i = omega arith
write_to_buf-Holds (b ∷ bs) pre k buf h =
    let (buf₁, e₁, h₁) =
      write_byte-Holds pre (length bs + k) b buf
        (subst (λ r. Holds pre r buf) (add_suc (length bs) k) h) in
    let (buf₂, e₂, h₂) =
      write_to_buf-Holds bs (pre ++ b ∷ []) k buf₁
        (subst (λ r. Holds (pre ++ b ∷ []) r buf₁) (suc_add (length bs) k) h₁) in
    (buf₂, rw e₁ e₂, subst (λ l. Holds l (suc k) buf₂) (append_assoc pre (b ∷ []) bs) h₂)
  where
    add_suc : (m n : ℕ) → suc m + suc n ≡ suc (suc (m + n))
    add_suc m n = omega arith

    suc_add : (m n : ℕ) → suc (m + n) ≡ m + suc n
    suc_add m n = omega arith

-- The room in another form.
pub fit : (pre : List ℕ) (r r' : ℕ) (buf : Buffer) → Holds pre r buf → r ≡ r' → Holds pre r' buf
fit pre r r' buf h e = subst (λ n. Holds pre n buf) e h

-- A mask goes into a cell that holds zero.
pub mask_buffer-Holds :
    (mask : ℕ) (pre : List ℕ) (k : ℕ) (buf : Buffer)
    → bit_or 0 mask ≡ mask
    → Holds pre (suc k) buf
    → (buf' : Buffer) × (mask_buffer mask buf ≡ some buf') × Holds (pre ++ mask ∷ []) k buf'
unfolding mask_buffer
mask_buffer-Holds mask pre k buf masked h = (
  record { cells = set buf.cells buf.pos mask; pos = suc buf.pos },
  rw (h.written, h.at_end, get_elem-append pre (zeros k) 0, masked) refl,
  record {
    written =
        rw (h.written, h.at_end, set-append pre (zeros k) 0 mask)
          (sym (append_assoc pre (mask ∷ []) (zeros k)));
    at_end = ap suc h.at_end ∙ snoc-length pre mask;
  },
)
