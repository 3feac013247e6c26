-- ===== src/Assembler/Reduced.antt =====
-- CPU/CPU/Assembler/src/assembler_additional.cpp: what `reduce_buffer_size` cuts off.
use tatlang.Prelude.{
  ℕ, zero, suc, ◌+◌, ◌-◌, ◌*◌, ◌/◌, ◌≤◌, ◌≡◌, refl, ap, sym, ◌∙◌, subst, ◌⊎◌, inl, inr, Bool, true,
  false, not, ◌&&◌, some, List, [], ◌∷◌, length, get_elem?, arith, ltb, if◌then◌else◌,
}
use tatlang.Stack.{resize}
use tatlang.Assembler.Commands.{skip, cycle_limit}
use tatlang.Assembler.Labels.{is_zero_chunk, find_tale, limited, reduce_buffer_size}

abbrev AllZero : List ℕ → Type 0
AllZero [] = Unit
AllZero (c ∷ cs) = (c ≡ 0) × AllZero cs

AllZero-skip : (n : ℕ) (cs : List ℕ) → AllZero cs → AllZero (skip n cs)
AllZero-skip zero cs h = h
AllZero-skip (suc n) [] h = tt
AllZero-skip (suc n) (c ∷ cs) (z, h) = AllZero-skip n cs h

zero_add : (n : ℕ) → 0 + n ≡ n
zero_add n = omega arith

suc_add : (m n : ℕ) → suc m + n ≡ suc (m + n)
suc_add m n = omega arith

skip-add : (m n : ℕ) (cs : List ℕ) → skip (m + n) cs ≡ skip n (skip m cs)
skip-add zero n cs = ap (λ k. skip k cs) (zero_add n)
skip-add (suc m) zero [] = ap (λ k. skip k []) (suc_add m 0)
skip-add (suc m) (suc n) [] = ap (λ k. skip k []) (suc_add m (suc n))
skip-add (suc m) n (c ∷ cs) = ap (λ k. skip k (c ∷ cs)) (suc_add m n) ∙ skip-add m n cs

length-skip : (n : ℕ) (cs : List ℕ) → length (skip n cs) ≡ length cs - n
length-skip zero cs = omega arith
length-skip (suc n) [] = omega arith
length-skip (suc n) (c ∷ cs) = omega (arith, length-skip n cs)

-- Zeros are zeros whether they are looked at in a chunk or behind it.
chunk-AllZero : (n : ℕ) (cs : List ℕ) → is_zero_chunk n cs ≡ true → AllZero (skip n cs) → AllZero cs
unfolding is_zero_chunk
chunk-AllZero zero cs z h = h
chunk-AllZero (suc n) [] z h = tt
chunk-AllZero (suc n) (c ∷ cs) z h = (ground arith, chunk-AllZero n cs (ground arith) h)

skip-all : (n : ℕ) (cs : List ℕ) → length cs ≤ n → AllZero (skip n cs)
skip-all zero [] p = tt
skip-all zero (c ∷ cs) p = absurd (omega arith)
skip-all (suc n) [] p = tt
skip-all (suc n) (c ∷ cs) p = skip-all n cs (omega arith)

-- The flag behind the last of so many chunks is down.
abbrev EndsZero : ℕ → Bool → List ℕ → Type 0
EndsZero zero flag cs = flag ≡ false
EndsZero (suc n) flag cs = EndsZero n (not (is_zero_chunk 8 cs)) (skip 8 cs)

last-EndsZero :
    (n : ℕ) (flag : Bool) (cs : List ℕ)
    → is_zero_chunk 8 (skip (8 * n) cs) ≡ true
    → EndsZero (suc n) flag cs
last-EndsZero zero flag cs z = ap not (subst (λ k. is_zero_chunk 8 (skip k cs) ≡ true) none_left z)
  where
    none_left : 8 * 0 ≡ 0
    none_left = omega arith
last-EndsZero (suc n) flag cs z =
    last-EndsZero n (not (is_zero_chunk 8 cs)) (skip 8 cs)
      (subst (λ l. is_zero_chunk 8 l ≡ true) (next_chunk n ∙ skip-add 8 (8 * n) cs) z)
  where
    next_chunk : (i : ℕ) → skip (8 * suc i) cs ≡ skip (8 + 8 * i) cs
    next_chunk i = ap (λ k. skip k cs) (one_more i)
      where
        one_more : (j : ℕ) → 8 * suc j ≡ 8 + 8 * j
        one_more j = omega arith

-- Where the loop ends: at the tale it began with, and all is zero from the carriage on, or at a
-- later place, from which all is zero.
abbrev Cut : ℕ → List ℕ → ℕ → Bool → ℕ → Type 0
Cut r cs carriage flag tale =
    ((r ≡ tale) × (flag ≡ false) × AllZero cs) ⊎ (j : ℕ) × (r ≡ carriage + j) × AllZero (skip j cs)

Cut-step :
    (r carriage tale : ℕ) (cs : List ℕ) (flag zero_flag : Bool)
    → is_zero_chunk 8 cs ≡ zero_flag
    → Cut r
        (skip 8 cs)
        (carriage + 8)
        (not zero_flag)
        (if flag && zero_flag then carriage else tale)
    → Cut r cs carriage flag tale
Cut-step r carriage tale cs flag z e (inr (j, p, h)) =
    inr (8 + j, omega arith, subst AllZero (sym (skip-add 8 j cs)) h)
Cut-step r carriage tale cs false true e (inl (p, f, h)) = inl (p, refl, chunk-AllZero 8 cs e h)
Cut-step r carriage tale cs true true e (inl (p, f, h)) =
    inr (0, omega arith, chunk-AllZero 8 cs e h)
Cut-step r carriage tale cs flag false e (inl (p, f, h)) = absurd (false-not_true f)
  where
    false-not_true : true ≡ false → ⊥
    false-not_true q = cc

find_tale-Cut :
    (n : ℕ) (cs : List ℕ) (carriage : ℕ) (flag : Bool) (tale : ℕ)
    → length cs ≡ 8 * n
    → EndsZero n flag cs
    → Cut (find_tale n cs carriage flag tale) cs carriage flag tale
unfolding find_tale
find_tale-Cut zero [] carriage flag tale size h = inl (refl, h, tt)
find_tale-Cut zero (c ∷ cs) carriage flag tale size h = absurd (omega arith)
find_tale-Cut (suc n) cs carriage flag tale size h =
    Cut-step _ carriage tale cs flag (is_zero_chunk 8 cs) refl (
      find_tale-Cut n (skip 8 cs) (carriage + 8) (not (is_zero_chunk 8 cs))
        (if flag && is_zero_chunk 8 cs then carriage else tale) (omega (arith, length-skip 8 cs)) h)

resize-keeps :
    (fresh : ℕ → ℕ) (k n : ℕ) (cs : List ℕ) (i b : ℕ)
    → AllZero (skip n cs)
    → get_elem? cs i ≡ some (suc b)
    → get_elem? (resize fresh k n cs) i ≡ some (suc b)
unfolding resize
resize-keeps fresh k zero cs i b z h = absurd (no_byte cs i b z h)
  where
    no_byte : (l : List ℕ) (m c : ℕ) → AllZero l → get_elem? l m ≡ some (suc c) → ⊥
    no_byte [] m c q p = cc
    no_byte (x ∷ l) zero c (q, qs) p = not_zero (sym (ap (λ y. some y) q) ∙ p)
      where
        not_zero : some 0 ≡ some (suc c) → ⊥
        not_zero e = cc
    no_byte (x ∷ l) (suc m) c (q, qs) p = no_byte l m c qs p
resize-keeps fresh k (suc n) [] i b z h = cc
resize-keeps fresh k (suc n) (c ∷ cs) zero b z h = h
resize-keeps fresh k (suc n) (c ∷ cs) (suc i) b z h = resize-keeps fresh (suc k) n cs i b z h

-- What is left behind the cut is zero.
Cut-AllZero :
    (r n : ℕ) (cs : List ℕ) → length cs ≡ n → Cut r cs 0 true 0 → AllZero (skip (r + 8) cs)
Cut-AllZero r n cs size (inl (p, f, h)) = AllZero-skip (r + 8) cs h
Cut-AllZero r n cs size (inr (j, p, h)) =
    subst AllZero (sym (ap (λ k. skip k cs) (behind r j p) ∙ skip-add j 8 cs))
      (AllZero-skip 8 (skip j cs) h)
  where
    behind : (a i : ℕ) → a ≡ 0 + i → a + 8 ≡ i + 8
    behind a i q = omega arith

kept_size :
    (n : ℕ) (cs : List ℕ) (last : Bool)
    → length cs ≡ 8 * suc n
    → is_zero_chunk 8 (skip (8 * n) cs) ≡ last
    → AllZero (skip (if last then find_tale (suc n) cs 0 true 0 + 8 else length cs + 8) cs)
kept_size n cs true size z =
    Cut-AllZero _ _ cs refl (find_tale-Cut (suc n) cs 0 true 0 size (last-EndsZero n true cs z))
kept_size n cs false size z = skip-all (length cs + 8) cs (omega arith)

limited-few : (n : ℕ) → n ≤ cycle_limit → limited n ≡ n
unfolding limited
limited-few n p = ground arith

reduce_buffer_size-resize :
    (fresh : ℕ → ℕ) (n : ℕ) (cs : List ℕ)
    → length cs ≡ 8 * suc n
    → suc n ≤ cycle_limit
    → reduce_buffer_size fresh cs
      ≡ some (
          resize fresh 0
            (if is_zero_chunk 8 (skip (8 * n) cs)
              then find_tale (suc n) cs 0 true 0 + 8
              else length cs + 8)
            cs)
unfolding reduce_buffer_size
reduce_buffer_size-resize fresh n cs size few =
    rw (not_short (length cs) n size, last_chunk (length cs) n size, chunks (length cs) n size few)
      (each (is_zero_chunk 8 (skip (8 * n) cs)))
  where
    whole : (m k : ℕ) → m ≡ 8 * suc k → m / 8 ≡ suc k
    whole m k e = omega arith

    not_short : (m k : ℕ) → m ≡ 8 * suc k → ltb m 8 ≡ false
    not_short m k e = ground arith

    last_chunk : (m k : ℕ) → m ≡ 8 * suc k → m - 8 ≡ 8 * k
    last_chunk m k e = omega arith

    chunks : (m k : ℕ) → m ≡ 8 * suc k → suc k ≤ cycle_limit → limited (m / 8) ≡ suc k
    chunks m k e p = ap limited (whole m k e) ∙ limited-few (suc k) p

    each :
        (z : Bool)
        → (if z
            then some (resize fresh 0 (find_tale (suc n) cs 0 true 0 + 8) cs)
            else some (resize fresh 0 (length cs + 8) cs))
          ≡ some
              (resize fresh 0 (if z then find_tale (suc n) cs 0 true 0 + 8 else length cs + 8) cs)
    each true = refl
    each false = refl

-- Byte code of a whole number of chunks of eight bytes, from one to 10000 of them, is cut by
-- `reduce_buffer_size` without an error so that every byte of it other than zero stays where it is.
pub reduce_buffer_size-keeps :
    (fresh : ℕ → ℕ) (n : ℕ) (cells : List ℕ) (i b : ℕ)
    → length cells ≡ 8 * suc n
    → suc n ≤ cycle_limit
    → get_elem? cells i ≡ some (suc b)
    → (kept : List ℕ) × (reduce_buffer_size fresh cells ≡ some kept)
      × (get_elem? kept i ≡ some (suc b))
reduce_buffer_size-keeps fresh n cells i b size few found = (
  _,
  reduce_buffer_size-resize fresh n cells size few,
  resize-keeps fresh 0 _ cells i b (kept_size n cells _ size refl) found,
)
