-- ===== src/Stack/Poison.antt =====
-- CPU/Stack/src/stack.cpp: what becomes of a stack on which the value of the poison is pushed.
use tatlang.Prelude.{
  ℕ, zero, suc, ◌+◌, ◌≤◌, ◌<◌, ◌≡◌, refl, true, false, inl, inr, Bool-cases, some, List, [], ◌∷◌,
  length, set, arith, ltb,
}
use tatlang.Double.{Double, is_same, cmp_double}
use tatlang.Stack.{
  Stack, all_good, data_poizon_value, is_poisoned, stack_verifier, expand, put, stack_push,
  stack_pop, no_element,
}
use tatlang.Stack.Resize.{IsClean}
use tatlang.Stack.Refines.{IsValid, verifier-valid, expand-room}

module _ {F : Type 0} ⦃d : Double F⦄ (data_poizon : F) where
  is_poisoned-set_poison :
      (xs : List F) (i : ℕ) (v : F)
      → is_same (cmp_double v data_poizon) ≡ true
      → i < length xs
      → is_poisoned data_poizon (set xs i v) ≡ true
  unfolding is_poisoned
  is_poisoned-set_poison [] i v h p = absurd (omega (arith, p))
  is_poisoned-set_poison (x ∷ xs) zero v h p = rw h refl
  is_poisoned-set_poison (x ∷ xs) (suc i) v h p =
      elim (Bool-cases (is_same (cmp_double x data_poizon))) [
        | inl q ↦ rw q refl
        | inr q ↦ rw q (is_poisoned-set_poison xs i v h (omega (arith, p)))
      ]

  verifier-poisoned :
      (stk : Stack F)
      → stk.size ≤ stk.capacity
      → is_poisoned data_poizon stk.cells ≡ true
      → stack_verifier data_poizon stk ≡ data_poizon_value
  unfolding stack_verifier
  verifier-poisoned stk p h = rw (h, size_ok) refl
    where
      size_ok : ltb stk.capacity stk.size ≡ false
      size_ok = ground (arith, p)

  -- A push of a value that compares equal to the poison succeeds; after it every push and every pop
  -- fails with DATA_POIZON_VALUE and leaves the stack as it is.
  pub stack_push-poison :
      (fresh fresh' : ℕ → F) (stk : Stack F) (value value' : F)
      → ((j : ℕ) → IsClean data_poizon (fresh j))
      → is_same (cmp_double value data_poizon) ≡ true
      → IsValid data_poizon stk
      → (stk' : Stack F) × (stack_push data_poizon fresh stk value ≡ some (all_good, stk'))
        × (stack_push data_poizon fresh' stk' value' ≡ some (data_poizon_value, stk'))
        × (stack_pop data_poizon fresh' stk'
            ≡ some (no_element data_poizon data_poizon_value, stk'))
  unfolding stack_push stack_pop put
  stack_push-poison fresh fresh' stk value value' fresh_clean poison v =
      let e = expand fresh stk in
      let (len, room, clean, compact, same_size) =
        expand-room data_poizon fresh stk fresh_clean v in
      let has_room : ltb e.size e.capacity ≡ true = ground (arith, room) in
      let after : Stack F = record e { cells = set e.cells e.size value; size = e.size + 1 } in
      let fails =
        verifier-poisoned after (omega (arith, room))
          (is_poisoned-set_poison e.cells e.size value poison (omega (arith, len, room))) in
      (after, rw (verifier-valid data_poizon stk v, has_room) refl, rw fails refl, rw fails refl)
