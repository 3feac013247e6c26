-- ===== src/Stack.antt =====
-- CPU/Stack/include/stack.h and CPU/Stack/src/stack.cpp: the stack of the machine. The cells are
-- the array `data` of `capacity` doubles; what `realloc` leaves in the cells that it adds is not
-- specified, so that a push and a pop take it as an argument, a function of the index. A stack
-- has log files and the positions of the last call, which are output only, and canaries and hashes,
-- whose failure no operation looks at as long as nothing else writes to the stack.
pub mod Resize
pub mod Sound
pub mod Refines
pub mod Runs
pub mod Poison
pub mod Hash
use Prim.Native.Nat.{bit_or}
use tatlang.Prelude.{
  ℕ, zero, suc, ◌+◌, ◌-◌, ◌*◌, ◌/◌, ◌%◌, ◌^◌, Bool, true, false, ◌||◌, Option, none, some, List, [],
  ◌∷◌, set, get_elem?, ◌==◌, ltb, leb, if◌then◌else◌,
}
use tatlang.Double.{Double, is_same, cmp_double}

abbrev pub stack_reformation_coeff : ℕ
stack_reformation_coeff = 2

abbrev pub stack_expantion_size_from_zero : ℕ
stack_expantion_size_from_zero = 5

-- The bits of Err_ID that the operations set.
abbrev pub all_good : ℕ
all_good = 0

abbrev pub size_zero : ℕ
size_zero = 1

abbrev pub size_is_greater : ℕ
size_is_greater = 2

abbrev pub data_poizon_value : ℕ
data_poizon_value = 2 ^ 14

pub record Stack (F : Type 0) : Type 0 where
  pub cells : List F
  pub size : ℕ
  pub capacity : ℕ

pub record StackPopResult (F : Type 0) : Type 0 where
  pub error_code : ℕ
  pub deleted_element : F

-- `realloc` of the array to `n` cells, from cell `i` on.
unfoldable pub resize : {F : Type 0} → (ℕ → F) → ℕ → ℕ → List F → List F
resize fresh i zero xs = []
resize fresh i (suc n) [] = fresh i ∷ resize fresh (suc i) n []
resize fresh i (suc n) (x ∷ xs) = x ∷ resize fresh (suc i) n xs

unfoldable pub stack_buf_realloc : {F : Type 0} → (ℕ → F) → Stack F → Stack F
stack_buf_realloc fresh stk = record stk { cells = resize fresh 0 stk.capacity stk.cells }

unfoldable pub expanded : ℕ → ℕ
expanded capacity =
    if capacity == 0
    then capacity + stack_expantion_size_from_zero
    else capacity * stack_reformation_coeff

unfoldable pub expand : {F : Type 0} → (ℕ → F) → Stack F → Stack F
expand fresh stk =
    if leb stk.capacity stk.size
    then stack_buf_realloc fresh (record stk { capacity = expanded stk.capacity })
    else stk

-- The writes of a push behind the test of the capacity. `none` is a write out of bounds.
unfoldable pub put : {F : Type 0} → F → Stack F → Option (Stack F)
put value stk =
    if ltb stk.size stk.capacity
    then some (record stk { cells = set stk.cells stk.size value; size = stk.size + 1 })
    else none

unfoldable pub shrink : {F : Type 0} → (ℕ → F) → Stack F → Stack F
shrink fresh stk =
    if leb stk.size (stk.capacity / (stack_reformation_coeff * stack_reformation_coeff))
    then stack_buf_realloc fresh (record stk { capacity = stk.capacity / stack_reformation_coeff })
    else stk

-- The sum of the bytes, each a signed `char` that is converted to a `size_t`.
unfoldable pub byte_value : ℕ → ℕ
byte_value b = if ltb b 128 then b else 2 ^ 64 - 256 + b

unfoldable pub hash_from : ℕ → List ℕ → ℕ
hash_from hash_check_value [] = hash_check_value
hash_from hash_check_value (b ∷ bs) = hash_from ((hash_check_value + byte_value b) % 2 ^ 64) bs

unfoldable pub hash_count : List ℕ → ℕ
hash_count bytes = hash_from 0 bytes

module _ {F : Type 0} ⦃d : Double F⦄ (data_poizon : F) where
  -- The loop of the verifier, from the cells on that it has not seen.
  unfoldable pub is_poisoned : List F → Bool
  is_poisoned [] = false
  is_poisoned (x ∷ xs) = is_same (cmp_double x data_poizon) || is_poisoned xs

  unfoldable pub stack_verifier : Stack F → ℕ
  stack_verifier stk =
      bit_or (if ltb stk.capacity stk.size then size_is_greater else all_good)
        (if is_poisoned stk.cells then data_poizon_value else all_good)

  -- `calloc` fills the cells with zeros.
  unfoldable pub stack_ctor : ℕ → Stack F
  stack_ctor starter_capacity = record {
    cells = resize (λ i. d.of_nat 0) 0 starter_capacity [];
    size = 0;
    capacity = starter_capacity;
  }

  abbrev pub pushed : Stack F → Option (Stack F) → Option (ℕ × Stack F)
  pushed stk none = none
  pushed stk (some stk') = some (all_good, stk')

  -- The error code and the stack behind the call.
  unfoldable pub stack_push : (ℕ → F) → Stack F → F → Option (ℕ × Stack F)
  stack_push fresh stk value =
      if stack_verifier stk == all_good
      then pushed stk (put value (expand fresh stk))
      else some (stack_verifier stk, stk)

  -- A result without an element has the zero of its initialisation.
  abbrev pub no_element : ℕ → StackPopResult F
  no_element e = record { error_code = e; deleted_element = d.of_nat 0 }

  abbrev pub popped : (ℕ → F) → Stack F → Option F → Option (StackPopResult F × Stack F)
  popped fresh stk none = none
  popped fresh stk (some x) =
      some (record { error_code = all_good; deleted_element = x }, shrink fresh stk)

  unfoldable pub stack_pop : (ℕ → F) → Stack F → Option (StackPopResult F × Stack F)
  stack_pop fresh stk =
      if stack_verifier stk == all_good
      then if stk.size == 0
        then some (no_element size_zero, stk)
        else popped fresh (record stk { size = stk.size - 1 }) (get_elem? stk.cells (stk.size - 1))
      else some (no_element (stack_verifier stk), stk)

  -- A stack that was destroyed, with its array gone, is `none`.
  unfoldable pub stack_dtor : Stack F → ℕ × Option (Stack F)
  stack_dtor stk =
      if stack_verifier stk == all_good then (all_good, none) else (stack_verifier stk, some stk)
