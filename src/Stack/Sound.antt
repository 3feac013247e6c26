-- ===== src/Stack/Sound.antt =====
-- CPU/Stack/src/stack.cpp: no operation accesses the array out of bounds, whatever is pushed and
-- whatever `realloc` leaves in memory.
use tatlang.Prelude.{
  ℕ, ◌+◌, ◌-◌, ◌*◌, ◌/◌, ◌≤◌, ◌<◌, ◌≡◌, refl, ◌∙◌, true, inl, inr, Bool-cases, some, length, set,
  take-get_elem, length-set, arith, ltb, leb, ◌==◌,
}
use tatlang.Double.{Double}
use tatlang.Stack.{
  Stack, StackPopResult, stack_buf_realloc, expanded, expand, put, shrink, all_good, stack_verifier,
  stack_push, stack_pop, no_element, size_zero,
}
use tatlang.Stack.Resize.{length-resize}

pub record IsSound {F : Type 0} (stk : Stack F) : Type 0 where
  pub allocated : length stk.cells ≡ stk.capacity
  pub fits : stk.size ≤ stk.capacity
  pub compact : stk.capacity ≤ 4 * stk.size + 10

module _ {F : Type 0} where
  pub expand-shape :
      (fresh : ℕ → F) (stk : Stack F)
      → IsSound stk
      → let e = expand fresh stk in
        (length e.cells ≡ e.capacity)
        × (e.size < e.capacity)
        × (e.capacity ≤ 4 * (e.size + 1) + 10)
        × (e.size ≡ stk.size)
  unfolding expand stack_buf_realloc expanded
  expand-shape fresh stk v = elim (Bool-cases (leb stk.capacity stk.size)) [
    | inl p ↦ rw p (
      length-resize fresh _ 0 stk.cells,
      ground (arith, v.fits),
      ground (arith, v.fits, v.compact),
      refl,
    )
    | inr p ↦ rw p (v.allocated, ground arith, omega (arith, v.compact), refl)
  ]

  pub shrink-IsSound :
      (fresh : ℕ → F) (stk : Stack F)
      → length stk.cells ≡ stk.capacity
      → stk.size ≤ stk.capacity
      → stk.capacity ≤ 4 * stk.size + 14
      → IsSound (shrink fresh stk)
  unfolding shrink stack_buf_realloc
  shrink-IsSound fresh stk len fits compact = elim (Bool-cases (leb stk.size (stk.capacity / 4))) [
    | inl p ↦ rw p (record {
      allocated = length-resize fresh _ 0 stk.cells;
      fits = ground arith;
      compact = omega (arith, compact);
    })
    | inr p ↦ rw p (record { allocated = len; fits = fits; compact = ground arith })
  ]

module _ {F : Type 0} ⦃d : Double F⦄ (data_poizon : F) where
  -- A push ends, with an error or not, and keeps the stack within its array, which is not larger
  -- than four times what it needs and ten cells.
  pub stack_push-IsSound :
      (fresh : ℕ → F) (stk : Stack F) (value : F)
      → IsSound stk
      → (e : ℕ) × (stk' : Stack F) × (stack_push data_poizon fresh stk value ≡ some (e, stk'))
        × IsSound stk'
  unfolding stack_push put
  stack_push-IsSound fresh stk value v =
      elim (Bool-cases (stack_verifier data_poizon stk == all_good)) [
        | inr p ↦ (stack_verifier data_poizon stk, stk, rw p refl, v)
        | inl p ↦
            let e = expand fresh stk in
            let (len, room, compact, same_size) = expand-shape fresh stk v in
            let has_room : ltb e.size e.capacity ≡ true = ground (arith, room) in
            (
              all_good,
              record e { cells = set e.cells e.size value; size = e.size + 1 },
              rw (p, has_room) refl,
              record {
                allocated = length-set e.cells e.size value ∙ len;
                fits = omega (arith, room);
                compact = compact;
              },
            )
      ]

  -- A pop ends, with an error or not, and keeps the stack within its array in the same way.
  pub stack_pop-IsSound :
      (fresh : ℕ → F) (stk : Stack F)
      → IsSound stk
      → (r : StackPopResult F) × (stk' : Stack F) × (stack_pop data_poizon fresh stk
          ≡ some (r, stk'))
        × IsSound stk'
  unfolding stack_pop
  stack_pop-IsSound fresh stk v = elim (Bool-cases (stack_verifier data_poizon stk == all_good)) [
    | inr p ↦ (no_element data_poizon (stack_verifier data_poizon stk), stk, rw p refl, v)
    | inl p ↦ elim (Bool-cases (stk.size == 0)) [
      | inl q ↦ (no_element data_poizon size_zero, stk, rw (p, q) refl, v)
      | inr q ↦
          let positive : 0 < stk.size = ground arith in
          let (x, found, split) =
            take-get_elem stk.cells (stk.size - 1) (omega (arith, positive, v.allocated, v.fits)) in
          let lower : Stack F = record stk { size = stk.size - 1 } in
          (
            record { error_code = all_good; deleted_element = x },
            shrink fresh lower,
            rw (p, q, found) refl,
            shrink-IsSound fresh lower v.allocated (omega (arith, v.fits))
                (omega (arith, positive, v.compact)),
          )
    ]
  ]
