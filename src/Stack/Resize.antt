-- ===== src/Stack/Resize.antt =====
-- CPU/Stack/src/stack.cpp: what `realloc` and the verifier have to do with the cells.
use tatlang.Prelude.{
  ℕ, zero, suc, ◌≤◌, ◌≡◌, refl, ap, false, inl, inr, Bool-cases, List, [], ◌∷◌, length, set, take,
  arith,
}
use tatlang.Double.{Double, is_same, cmp_double}
use tatlang.Stack.{resize, is_poisoned}

module _ {F : Type 0} (fresh : ℕ → F) where
  pub length-resize : (n i : ℕ) (xs : List F) → length (resize fresh i n xs) ≡ n
  unfolding resize
  length-resize zero i xs = refl
  length-resize (suc n) i [] = ap suc (length-resize n (suc i) [])
  length-resize (suc n) i (x ∷ xs) = ap suc (length-resize n (suc i) xs)

  -- The cells that stay keep what they hold.
  pub take-resize :
      (k n i : ℕ) (xs : List F) → k ≤ n → k ≤ length xs → take k (resize fresh i n xs) ≡ take k xs
  unfolding resize
  take-resize zero n i xs p q = refl
  take-resize (suc k) zero i xs p q = absurd (omega (arith, p))
  take-resize (suc k) (suc n) i [] p q = absurd (omega (arith, q))
  take-resize (suc k) (suc n) i (x ∷ xs) p q =
      ap (λ l. x ∷ l) (take-resize k n (suc i) xs (omega (arith, p)) (omega (arith, q)))

-- A value that the verifier does not take for the poison.
abbrev pub IsClean : {F : Type 0} ⦃d : Double F⦄ → F → F → Type 0
IsClean data_poizon x = is_same (cmp_double x data_poizon) ≡ false

module _ {F : Type 0} ⦃d : Double F⦄ (data_poizon : F) where
  pub is_poisoned-resize :
      (fresh : ℕ → F) (n i : ℕ) (xs : List F)
      → ((j : ℕ) → IsClean data_poizon (fresh j))
      → is_poisoned data_poizon xs ≡ false
      → is_poisoned data_poizon (resize fresh i n xs) ≡ false
  unfolding resize is_poisoned
  is_poisoned-resize fresh zero i xs clean h = refl
  is_poisoned-resize fresh (suc n) i [] clean h =
      rw (clean i) (is_poisoned-resize fresh n (suc i) [] clean h)
  is_poisoned-resize fresh (suc n) i (x ∷ xs) clean h =
      elim (Bool-cases (is_same (cmp_double x data_poizon))) [
        | inl p ↦ ground arith
        | inr p ↦ rw p (is_poisoned-resize fresh n (suc i) xs clean (ground arith))
      ]

  pub is_poisoned-set :
      (xs : List F) (i : ℕ) (v : F)
      → IsClean data_poizon v
      → is_poisoned data_poizon xs ≡ false
      → is_poisoned data_poizon (set xs i v) ≡ false
  unfolding is_poisoned
  is_poisoned-set [] i v clean h = refl
  is_poisoned-set (x ∷ xs) zero v clean h = ground arith
  is_poisoned-set (x ∷ xs) (suc i) v clean h =
      elim (Bool-cases (is_same (cmp_double x data_poizon))) [
        | inl p ↦ ground arith
        | inr p ↦ rw p (is_poisoned-set xs i v clean (ground arith))
      ]
