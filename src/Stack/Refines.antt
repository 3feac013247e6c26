-- ===== src/Stack/Refines.antt =====
-- CPU/Stack/src/stack.cpp: the operations on a valid stack are those of a list of doubles, whatever
-- the memory holds that `realloc` adds, as long as nothing in it is taken for the poison.
use tatlang.Prelude.{
  ℕ, suc, ◌+◌, ◌-◌, ◌*◌, ◌/◌, ◌≤◌, ◌<◌, ◌≡◌, refl, ap, sym, ◌∙◌, subst, true, false, inl, inr,
  Bool-cases, some, List, [], ◌∷◌, ◌++◌, length, set, take, take-set, take-get_elem, length-set,
  arith, ltb, leb, ◌==◌,
}
use tatlang.Double.{Double}
use tatlang.Stack.{
  Stack, stack_buf_realloc, expanded, expand, put, shrink, all_good, size_zero, is_poisoned,
  stack_verifier, stack_push, stack_pop, no_element,
}
use tatlang.Stack.Sound.{IsSound, expand-shape, shrink-IsSound}
use tatlang.Stack.Resize.{take-resize, IsClean, is_poisoned-resize, is_poisoned-set}

suc_add : (n : ℕ) → suc n ≡ n + 1
suc_add n = omega arith

suc_sub : (n : ℕ) → suc n - 1 ≡ n
suc_sub n = omega arith

suc_eq_zero : (n : ℕ) → (suc n == 0) ≡ false
suc_eq_zero n = ground arith

-- The doubles on the stack, the top last.
abbrev pub contents : {F : Type 0} → Stack F → List F
contents stk = take stk.size stk.cells

module _ {F : Type 0} ⦃d : Double F⦄ (data_poizon : F) where
  pub record IsValid (stk : Stack F) : Type 0 where
    pub allocated : length stk.cells ≡ stk.capacity
    pub fits : stk.size ≤ stk.capacity
    pub clean : is_poisoned data_poizon stk.cells ≡ false
    pub compact : stk.capacity ≤ 4 * stk.size + 10

  IsValid-IsSound : (stk : Stack F) → IsValid stk → IsSound stk
  IsValid-IsSound stk v = record { allocated = v.allocated; fits = v.fits; compact = v.compact }

  -- The verifier has nothing against a valid stack.
  pub verifier-valid : (stk : Stack F) → IsValid stk → stack_verifier data_poizon stk ≡ all_good
  unfolding stack_verifier
  verifier-valid stk v = rw (v.clean, size_ok) refl
    where
      size_ok : ltb stk.capacity stk.size ≡ false
      size_ok = ground (arith, v.fits)

  expand-contents :
      (fresh : ℕ → F) (stk : Stack F) → IsValid stk → contents (expand fresh stk) ≡ contents stk
  unfolding expand stack_buf_realloc expanded
  expand-contents fresh stk v = elim (Bool-cases (leb stk.capacity stk.size)) [
    | inl p ↦ rw p (
        take-resize fresh stk.size _ 0 stk.cells (ground (arith, v.fits))
          (omega (arith, v.fits, v.allocated)))
    | inr p ↦ rw p refl
  ]

  -- An expanded stack has room for one more, and is still valid but for being compact.
  pub expand-room :
      (fresh : ℕ → F) (stk : Stack F)
      → ((j : ℕ) → IsClean data_poizon (fresh j))
      → IsValid stk
      → let e = expand fresh stk in
        (length e.cells ≡ e.capacity)
        × (e.size < e.capacity)
        × (is_poisoned data_poizon e.cells ≡ false)
        × (e.capacity ≤ 4 * (e.size + 1) + 10)
        × (e.size ≡ stk.size)
  unfolding expand stack_buf_realloc expanded
  expand-room fresh stk fresh_clean v =
      let (len, room, compact, same_size) = expand-shape fresh stk (IsValid-IsSound stk v) in
      (len, room, still_clean, compact, same_size)
    where
      still_clean : is_poisoned data_poizon (expand fresh stk).cells ≡ false
      still_clean = elim (Bool-cases (leb stk.capacity stk.size)) [
        | inl p ↦ rw p (is_poisoned-resize data_poizon fresh _ 0 stk.cells fresh_clean v.clean)
        | inr p ↦ rw p v.clean
      ]

  -- A push of a value that is no poison succeeds, and puts the value on top.
  pub stack_push-contents :
      (fresh : ℕ → F) (stk : Stack F) (value : F)
      → ((j : ℕ) → IsClean data_poizon (fresh j))
      → IsClean data_poizon value
      → IsValid stk
      → (stk' : Stack F) × (stack_push data_poizon fresh stk value ≡ some (all_good, stk'))
        × IsValid stk'
        × (contents stk' ≡ contents stk ++ value ∷ [])
  unfolding stack_push put
  stack_push-contents fresh stk value fresh_clean value_clean v =
      let e = expand fresh stk in
      let (len, room, clean, compact, same_size) = expand-room fresh stk fresh_clean v in
      let has_room : ltb e.size e.capacity ≡ true = ground (arith, room) in
      (
        record e { cells = set e.cells e.size value; size = e.size + 1 },
        rw (verifier-valid stk v, has_room) refl,
        record {
          allocated = length-set e.cells e.size value ∙ len;
          fits = omega (arith, room);
          clean = is_poisoned-set data_poizon e.cells e.size value value_clean clean;
          compact = compact;
        },
        subst (λ n. take n (set e.cells e.size value) ≡ contents stk ++ value ∷ []) (suc_add e.size)
            (take-set e.cells e.size value (omega (arith, len, room))
              ∙ ap (λ l. l ++ value ∷ []) (expand-contents fresh stk v)),
      )

  shrink-contents :
      (fresh : ℕ → F) (stk : Stack F)
      → stk.size ≤ stk.capacity
      → length stk.cells ≡ stk.capacity
      → contents (shrink fresh stk) ≡ contents stk
  unfolding shrink stack_buf_realloc
  shrink-contents fresh stk fits len = elim (Bool-cases (leb stk.size (stk.capacity / 4))) [
    | inl p ↦
        rw p (take-resize fresh stk.size _ 0 stk.cells (ground arith) (omega (arith, fits, len)))
    | inr p ↦ rw p refl
  ]

  shrink-IsValid :
      (fresh : ℕ → F) (stk : Stack F)
      → ((j : ℕ) → IsClean data_poizon (fresh j))
      → length stk.cells ≡ stk.capacity
      → stk.size ≤ stk.capacity
      → is_poisoned data_poizon stk.cells ≡ false
      → stk.capacity ≤ 4 * stk.size + 14
      → IsValid (shrink fresh stk)
  unfolding shrink stack_buf_realloc
  shrink-IsValid fresh stk fresh_clean len fits clean compact =
      let sound = shrink-IsSound fresh stk len fits compact in
      record {
        allocated = sound.allocated;
        fits = sound.fits;
        clean = still_clean;
        compact = sound.compact;
      }
    where
      still_clean : is_poisoned data_poizon (shrink fresh stk).cells ≡ false
      still_clean = elim (Bool-cases (leb stk.size (stk.capacity / 4))) [
        | inl p ↦ rw p (is_poisoned-resize data_poizon fresh _ 0 stk.cells fresh_clean clean)
        | inr p ↦ rw p clean
      ]

  -- A pop of an empty stack reports SIZE_ZERO, and leaves the stack alone.
  pub stack_pop-empty :
      (fresh : ℕ → F) (stk : Stack F)
      → IsValid stk
      → stk.size ≡ 0
      → stack_pop data_poizon fresh stk ≡ some (no_element data_poizon size_zero, stk)
  unfolding stack_pop
  stack_pop-empty fresh stk v e = rw (verifier-valid stk v, e) refl

  -- A pop of another stack takes the value on top.
  pub stack_pop-contents :
      (fresh : ℕ → F) (stk : Stack F) (n : ℕ)
      → ((j : ℕ) → IsClean data_poizon (fresh j))
      → IsValid stk
      → stk.size ≡ suc n
      → (x : F) × (stk' : Stack F) × (stack_pop data_poizon fresh stk
          ≡ some (record { error_code = all_good; deleted_element = x }, stk'))
        × IsValid stk'
        × (contents stk ≡ contents stk' ++ x ∷ [])
  unfolding stack_pop
  stack_pop-contents fresh stk n fresh_clean v e =
      let (x, found, split) = take-get_elem stk.cells n (omega (arith, e, v.allocated, v.fits)) in
      let lower : Stack F = record stk { size = n } in
      (
        x,
        shrink fresh lower,
        rw (verifier-valid stk v, e, suc_eq_zero n, suc_sub n, found) refl,
        shrink-IsValid fresh lower fresh_clean v.allocated (omega (arith, e, v.fits)) v.clean
            (omega (arith, e, v.compact)),
        ap (λ k. take k stk.cells) e
            ∙ split
            ∙ ap (λ l. l ++ x ∷ [])
                (sym (shrink-contents fresh lower (omega (arith, e, v.fits)) v.allocated)),
      )
