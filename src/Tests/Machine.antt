-- ===== src/Tests/Machine.antt =====
-- The theorems on the stack and the machine at concrete inputs; the poison of the stack is 666.
use tatlang.Prelude.{
  ℕ, ◌+◌, ◌≡◌, refl, subst, inr, get_elem?, true, Option, some, List, [], ◌∷◌, ◌++◌, length, arith,
}
use tatlang.Double.{is_same, cmp_double}
use tatlang.Stack.{
  Stack, StackPopResult, all_good, data_poizon_value, is_poisoned, stack_ctor, stack_push,
  stack_pop, no_element, hash_count,
}
use tatlang.Stack.Resize.{IsClean}
use tatlang.Stack.Refines.{contents, IsValid}
use tatlang.Stack.Sound.{IsSound, stack_push-IsSound, stack_pop-IsSound}
use tatlang.Stack.Runs.{StackOp, push, pop, run, run_list, run-run_list, ctor-IsValid}
use tatlang.Stack.Poison.{stack_push-poison}
use tatlang.Stack.Hash.{hash_count-exchange}
use tatlang.Spu.Vm.{Vm, vm_ctor}
use tatlang.Spu.Commands.{spu_all_good, command_of, exec, step, out_of_fuel, finished, process}
use tatlang.Spu.Sound.{Like, DriverKeeps}
use tatlang.Spu.Keeps.{process-Like}
use tatlang.Spu.Loops.{Idle, process-stays}
use tatlang.Spu.Expressions.{Arith, lit, bin, plus, times, code, rounds, AllClean, Layout, moved_to}
use tatlang.Spu.Evaluates.{process-value}
use tatlang.Tests.Arithmetic.{naturals}

abbrev pub poizon : ℕ
poizon = 666

-- The memory that `realloc` adds holds zeros.
abbrev pub blank_memory : ℕ → ℕ
blank_memory i = 0

pub blank-IsClean : IsClean ⦃d = naturals⦄ poizon 0
unfolding cmp_double
blank-IsClean = refl

abbrev calls : List (StackOp ℕ)
calls = push 7 ∷ push 8 ∷ pop ∷ pop ∷ pop ∷ []

run-run_list_example :
    run ⦃d = naturals⦄ poizon (λ i. blank_memory) calls (stack_ctor ⦃d = naturals⦄ poizon 0)
    ≡ some (run_list ⦃d = naturals⦄ poizon calls [])
run-run_list_example =
    run-run_list ⦃d = naturals⦄ poizon (λ i. blank_memory) 0 calls (omega arith) blank-IsClean
      (λ i j. blank-IsClean) (seven-IsClean, (eight-IsClean, tt))
  where
    seven-IsClean : IsClean ⦃d = naturals⦄ poizon 7
    seven-IsClean = unfold cmp_double in refl

    eight-IsClean : IsClean ⦃d = naturals⦄ poizon 8
    eight-IsClean = unfold cmp_double in refl

abbrev empty : Stack ℕ
empty = record { cells = []; size = 0; capacity = 0 }

empty-IsValid : IsValid ⦃d = naturals⦄ poizon empty
unfolding is_poisoned
empty-IsValid = record { allocated = refl; fits = omega arith; clean = refl; compact = omega arith }

empty-IsSound : IsSound empty
empty-IsSound = record { allocated = refl; fits = omega arith; compact = omega arith }

stack_push-IsSound_example :
    (e : ℕ) × (stk : Stack ℕ) × (stack_push ⦃d = naturals⦄ poizon blank_memory empty 5
      ≡ some (e, stk))
    × IsSound stk
stack_push-IsSound_example =
    stack_push-IsSound ⦃d = naturals⦄ poizon blank_memory empty 5 empty-IsSound

poizon_same : is_same (cmp_double ⦃d = naturals⦄ poizon poizon) ≡ true
unfolding cmp_double
poizon_same = refl

stack_push-poison_example :
    (stk : Stack ℕ) × (stack_push ⦃d = naturals⦄ poizon blank_memory empty poizon
      ≡ some (all_good, stk))
    × (stack_push ⦃d = naturals⦄ poizon blank_memory stk 5 ≡ some (data_poizon_value, stk))
    × (stack_pop ⦃d = naturals⦄ poizon blank_memory stk
        ≡ some (no_element ⦃d = naturals⦄ poizon data_poizon_value, stk))
stack_push-poison_example =
    stack_push-poison ⦃d = naturals⦄ poizon blank_memory blank_memory empty poizon 5
      (λ j. blank-IsClean) poizon_same empty-IsValid

hash_count-exchange_example :
    hash_count ([] ++ (1 ∷ []) ++ (200 ∷ [])) ≡ hash_count ([] ++ (200 ∷ []) ++ (1 ∷ []))
hash_count-exchange_example = hash_count-exchange [] (1 ∷ []) (200 ∷ [])

-- A number as eight cells, of which the first one holds it.
abbrev pub bytes_of : ℕ → List ℕ
bytes_of x = x ∷ 0 ∷ 0 ∷ 0 ∷ 0 ∷ 0 ∷ 0 ∷ 0 ∷ []

abbrev pub double_of : List ℕ → ℕ
double_of [] = 0
double_of (b ∷ bs) = b

pub layout : Layout bytes_of double_of
layout = record { eight = λ x. refl; reads = λ x. refl }

abbrev pub no_driver : Vm ℕ → Option (Vm ℕ)
no_driver vm = some vm

-- The conversion of a double to an unsigned number.
abbrev pub unsigned_of : ℕ → ℕ
unsigned_of x = x

driver-keeps : DriverKeeps no_driver
driver-keeps old vm vm' v e = subst (Like old) (cc) v

abbrev pub six : Arith ℕ
six = bin times (bin plus (lit 1) (lit 1)) (lit 3)

abbrev six_code : List ℕ
six_code = code bytes_of six ++ 255 ∷ []

abbrev pub machine : List ℕ → Vm ℕ
machine byte_code = vm_ctor ⦃d = naturals⦄ poizon 4 16 byte_code []

machine-code : (machine six_code).byte_code ≡ [] ++ (code bytes_of six ++ 255 ∷ [])
unfolding vm_ctor
machine-code = refl

machine-start : (machine six_code).carriage ≡ length {A = ℕ} []
unfolding vm_ctor
machine-start = refl

machine-IsValid : IsValid ⦃d = naturals⦄ poizon (machine six_code).user_stack
unfolding vm_ctor
machine-IsValid = ctor-IsValid ⦃d = naturals⦄ poizon 10 (omega arith) blank-IsClean

pub six-AllClean : AllClean ⦃d = naturals⦄ poizon six
unfolding cmp_double
six-AllClean = ((refl, refl, refl), refl, refl)

process-value_example :
    (stk : Stack ℕ) × (process ⦃d = naturals⦄ poizon double_of unsigned_of no_driver
        (λ i j. blank_memory)
        (rounds six + 1)
        (machine six_code)
      ≡ process ⦃d = naturals⦄ poizon double_of unsigned_of no_driver
          (λ i j. blank_memory)
          1
          (moved_to
            (machine six_code)
            stk
            ((machine six_code).carriage + length (code bytes_of six))))
    × IsValid ⦃d = naturals⦄ poizon stk
    × (contents stk ≡ contents (machine six_code).user_stack ++ 6 ∷ [])
process-value_example =
    process-value ⦃d = naturals⦄ poizon double_of unsigned_of no_driver bytes_of layout
      (λ i j. blank_memory) (λ i j k. blank-IsClean) six [] (255 ∷ []) (machine six_code) 1
      machine-code machine-start six-AllClean machine-IsValid

halts :
    process ⦃d = naturals⦄ poizon double_of unsigned_of no_driver
      (λ i j. blank_memory)
      1
      (machine (255 ∷ []))
    ≡ finished spu_all_good (machine (255 ∷ []))
unfolding process step exec command_of vm_ctor
halts = refl

process-Like_example : Like (machine (255 ∷ [])) (machine (255 ∷ []))
process-Like_example =
    process-Like ⦃d = naturals⦄ poizon double_of unsigned_of no_driver (λ i j. blank_memory) 4 16 1
      (255 ∷ []) [] spu_all_good (machine (255 ∷ [])) driver-keeps halts

void_here : get_elem? (machine (0 ∷ [])).byte_code (machine (0 ∷ [])).carriage ≡ some 0
unfolding vm_ctor
void_here = refl

void-Idle : Idle 0
unfolding command_of
void-Idle = inr refl

process-stays_example :
    process ⦃d = naturals⦄ poizon double_of unsigned_of no_driver
      (λ i j. blank_memory)
      1000
      (machine (0 ∷ []))
    ≡ out_of_fuel
process-stays_example =
    process-stays ⦃d = naturals⦄ poizon double_of unsigned_of no_driver (λ i j. blank_memory)
      (machine (0 ∷ [])) 0 1000 void_here void-Idle

stack_pop-IsSound_example :
    (r : StackPopResult ℕ) × (stk : Stack ℕ) × (stack_pop ⦃d = naturals⦄ poizon blank_memory empty
      ≡ some (r, stk))
    × IsSound stk
stack_pop-IsSound_example = stack_pop-IsSound ⦃d = naturals⦄ poizon blank_memory empty empty-IsSound
