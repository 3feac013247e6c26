-- ===== src/Stack/Hash.antt =====
-- CPU/Stack/src/stack.cpp: the hash of a block of memory.
use tatlang.Prelude.{ℕ, ◌+◌, ◌%◌, ◌^◌, ◌<◌, ◌≡◌, sym, ◌∙◌, ap, List, [], ◌∷◌, ◌++◌, arith}
use tatlang.Stack.{byte_value, hash_from, hash_count}

abbrev total : List ℕ → ℕ
total [] = 0
total (b ∷ bs) = byte_value b + total bs

hash_from-total : (h : ℕ) (bs : List ℕ) → h < 2 ^ 64 → hash_from h bs ≡ (h + total bs) % 2 ^ 64
unfolding hash_from
hash_from-total h [] p = omega arith
hash_from-total h (b ∷ bs) p =
    hash_from-total ((h + byte_value b) % 2 ^ 64) bs (omega arith) ∙ omega arith

total-append : (xs ys : List ℕ) → total (xs ++ ys) ≡ total xs + total ys
total-append [] ys = omega arith
total-append (x ∷ xs) ys = omega (arith, total-append xs ys)

-- The hash is the sum of the bytes modulo 2^64, so that exchanging two parts of a block of memory
-- does not change it: such damage is not found.
pub hash_count-exchange :
    (ys bs cs : List ℕ) → hash_count (ys ++ bs ++ cs) ≡ hash_count (ys ++ cs ++ bs)
unfolding hash_count
hash_count-exchange ys bs cs =
    hash_from-total 0 (ys ++ bs ++ cs) (omega arith)
    ∙ ap (λ n. (0 + n) % 2 ^ 64)
        (omega (
          arith,
          total-append (ys ++ bs) cs,
          total-append ys bs,
          total-append (ys ++ cs) bs,
          total-append ys cs,
        ))
    ∙ sym (hash_from-total 0 (ys ++ cs ++ bs) (omega arith))
