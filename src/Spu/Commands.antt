-- ===== src/Spu/Commands.antt =====
-- CPU/Global/include/cmd_definitions.h and commands.h, and the loop of `process` in
-- CPU/CPU/SPU/src/SPU_additional.cpp: what each command does, and the run of the machine.
use tatlang.Prelude.{
  ℕ, zero, suc, ◌+◌, Bool, true, false, not, Option, none, some, List, [], ◌∷◌, ◌++◌, length,
  get_elem?, ◌==◌, ltb, if◌then◌else◌,
}
use tatlang.Double.{Double, Cmp, below, same, above, cmp_double}
use tatlang.Spu.Vm.{
  Vm, ram_mask, reg_mask, imm_mask, has_bit, word, ◌>>=◌, read_bytes, read_uint, write_cell,
  move_carriage, update_carriage, push_user, pop_user, push_ret, pop_ret,
}

pub data SpuErr : Type 0 where
  spu_all_good invalid_ram_mode : SpuErr

pub data Command : Type 0 where
  void push add sub mul div out in_ pop jmp ja jb jae jbe je jne call ret draw sqrt hlt : Command

-- The command of a byte; `none` is the default of the switch.
unfoldable pub command_of : ℕ → Option Command
command_of b =
    if b == 0
    then some void
    else if b == 1
    then some push
    else if b == 2
    then some add
    else if b == 3
    then some sub
    else if b == 4
    then some mul
    else if b == 5
    then some div
    else if b == 6
    then some out
    else if b == 7
    then some in_
    else if b == 8
    then some pop
    else if b == 9
    then some jmp
    else if b == 10
    then some ja
    else if b == 11
    then some jb
    else if b == 12
    then some jae
    else if b == 13
    then some jbe
    else if b == 14
    then some je
    else if b == 15
    then some jne
    else if b == 16
    then some call
    else if b == 17
    then some ret
    else if b == 18
    then some draw
    else if b == 19
    then some sqrt
    else if b == 255
    then some hlt
    else none

-- The tests of the jumps on the result of `cmp_double(value_A, value_B)`.
abbrev pub is_above : Cmp → Bool
is_above above = true
is_above _ = false

abbrev pub is_below : Cmp → Bool
is_below below = true
is_below _ = false

abbrev pub is_equal : Cmp → Bool
is_equal same = true
is_equal _ = false

-- How a step of the loop ends: with the next state, or with `return`.
pub data Step (F : Type 0) : Type 0 where
  running : Vm F → Step F
  returned : SpuErr → Vm F → Step F

-- Parameters: the double of eight bytes, the conversion of a double to an unsigned number, and the
-- driver, which may change the machine. `fresh` is the memory that `realloc` adds in this step.
module _ {F : Type 0} ⦃d : Double F⦄ (data_poizon : F) (double_of : List ℕ → F)
    (to_unsigned : F → ℕ) (driver : Vm F → Option (Vm F)) (fresh : ℕ → ℕ → F) where
  abbrev pub moved : Option (Vm F) → Option (Step F)
  moved o = o >>= λ vm. some (running (move_carriage vm))

  -- The address in memory of a command with RAM_MASK.
  unfoldable pub immediate_address : Vm F → Option ℕ
  immediate_address vm = read_uint vm.byte_code (vm.carriage + 4)

  unfoldable pub register_of : Vm F → Option F
  register_of vm = read_uint vm.byte_code (vm.carriage + 4) >>= λ r. get_elem? vm.registers r

  unfoldable pub register_address : Vm F → Option ℕ
  register_address vm = register_of vm >>= λ x. some (to_unsigned x)

  unfoldable pub push_ram : Vm F → Option ℕ → Option (Step F)
  push_ram vm address =
      address >>= λ a. get_elem? vm.user_ram a >>= λ x. moved (push_user data_poizon fresh 0 vm x)

  unfoldable pub exec_push : ℕ → Vm F → Option (Step F)
  exec_push mask vm =
      if has_bit mask ram_mask
      then if has_bit mask imm_mask
        then push_ram vm (immediate_address vm)
        else if has_bit mask reg_mask
        then push_ram vm (register_address vm)
        else some (returned invalid_ram_mode vm)
      else if has_bit mask imm_mask
      then (read_bytes vm.byte_code (vm.carriage + word) 8 >>= λ bs.
          moved (push_user data_poizon fresh 0 (move_carriage vm) (double_of bs)))
      else if has_bit mask reg_mask
      then (register_of vm >>= λ x. moved (push_user data_poizon fresh 0 vm x))
      else some (running (move_carriage vm))

  -- The pop comes before the write, and the write may be out of bounds.
  unfoldable pub pop_ram : Vm F → Option ℕ → Option (Step F)
  pop_ram vm address = address >>= λ a. pop_user data_poizon fresh 0 vm >>= λ r.
      write_cell vm.user_ram a r.0 >>= λ ram. moved (some (record r.1 { user_ram = ram }))

  unfoldable pub pop_register : Vm F → Option (Step F)
  pop_register vm = read_uint vm.byte_code (vm.carriage + 4) >>= λ i.
      pop_user data_poizon fresh 0 vm >>= λ r.
      write_cell vm.registers i r.0 >>= λ regs. moved (some (record r.1 { registers = regs }))

  unfoldable pub exec_pop : ℕ → Vm F → Option (Step F)
  exec_pop mask vm =
      if has_bit mask ram_mask
      then if has_bit mask imm_mask
        then pop_ram vm (immediate_address vm)
        else if has_bit mask reg_mask
        then pop_ram vm (register_address vm)
        else some (running (move_carriage vm))
      else if has_bit mask reg_mask
      then pop_register vm
      else some (running (move_carriage vm))

  -- scanf leaves the variable as it was when there is no number to read.
  abbrev pub entered : Vm F → List F → Vm F
  entered vm [] = vm
  entered vm (x ∷ xs) = record vm { user_entered_value = x; input = xs }

  unfoldable pub exec_in : Vm F → Option (Step F)
  exec_in vm =
      let vm' = entered vm vm.input in
      moved (push_user data_poizon fresh 0 vm' vm'.user_entered_value)

  -- The four operations: `value_B` is popped first.
  unfoldable pub exec_binary : (F → F → F) → Vm F → Option (Step F)
  exec_binary f vm = pop_user data_poizon fresh 0 vm >>= λ b.
      pop_user data_poizon fresh 1 b.1 >>= λ a.
      moved (push_user data_poizon fresh 2 a.1 (f a.0 b.0))

  unfoldable pub exec_out : Vm F → Option (Step F)
  exec_out vm = pop_user data_poizon fresh 0 vm >>= λ r.
      moved (some (record r.1 { output = r.1.output ++ r.0 ∷ [] }))

  unfoldable pub exec_sqrt : Vm F → Option (Step F)
  exec_sqrt vm = pop_user data_poizon fresh 0 vm >>= λ r.
      moved (push_user data_poizon fresh 1 r.1 (d.sqrt r.0))

  unfoldable pub exec_ret : Vm F → Option (Step F)
  exec_ret vm = pop_ret data_poizon fresh 0 vm >>= λ r.
      some (running (record r.1 { carriage = to_unsigned r.0 }))

  abbrev pub jumped : Vm F → Option (Step F)
  jumped vm = update_carriage vm >>= λ vm'. some (running vm')

  unfoldable pub exec_jump : (Cmp → Bool) → Vm F → Option (Step F)
  exec_jump test vm = pop_user data_poizon fresh 0 vm >>= λ b.
      pop_user data_poizon fresh 1 b.1 >>= λ a.
      if test (cmp_double a.0 b.0) then jumped a.1 else some (running (move_carriage a.1))

  unfoldable pub exec_call : Vm F → Option (Step F)
  exec_call vm =
      push_ret data_poizon fresh 0 vm (d.of_nat (vm.carriage + word)) >>= λ vm'. jumped vm'

  unfoldable pub exec_draw : Vm F → Option (Step F)
  exec_draw vm = driver vm >>= λ vm'. some (running (move_carriage (move_carriage vm')))

  -- The switch. The mask of a push or a pop is the byte behind the command. A command that is VOID
  -- or unknown does not move the carriage.
  unfoldable pub exec : Option Command → Vm F → Option (Step F)
  exec none vm = some (running vm)
  exec (some void) vm = some (running vm)
  exec (some push) vm = get_elem? vm.byte_code (vm.carriage + 1) >>= λ mask. exec_push mask vm
  exec (some pop) vm = get_elem? vm.byte_code (vm.carriage + 1) >>= λ mask. exec_pop mask vm
  exec (some in_) vm = exec_in vm
  exec (some add) vm = exec_binary d.add vm
  exec (some sub) vm = exec_binary d.sub vm
  exec (some mul) vm = exec_binary d.mul vm
  exec (some div) vm = exec_binary d.div vm
  exec (some out) vm = exec_out vm
  exec (some ret) vm = exec_ret vm
  exec (some jmp) vm = jumped vm
  exec (some jae) vm = exec_jump (λ c. not (is_below c)) vm
  exec (some ja) vm = exec_jump is_above vm
  exec (some jbe) vm = exec_jump (λ c. not (is_above c)) vm
  exec (some jb) vm = exec_jump is_below vm
  exec (some je) vm = exec_jump is_equal vm
  exec (some jne) vm = exec_jump (λ c. not (is_equal c)) vm
  exec (some call) vm = exec_call vm
  exec (some hlt) vm = some (returned spu_all_good vm)
  exec (some draw) vm = exec_draw vm
  exec (some sqrt) vm = exec_sqrt vm

  -- One round of the loop, where the carriage is in the byte code.
  unfoldable pub step : Vm F → Option (Step F)
  step vm = get_elem? vm.byte_code vm.carriage >>= λ b. exec (command_of b) vm

-- `fault` is an access out of bounds, and `out_of_fuel` has no counterpart in the program.
pub data Finished (F : Type 0) : Type 0 where
  out_of_fuel fault : Finished F
  finished : SpuErr → Vm F → Finished F

module _ {F : Type 0} ⦃d : Double F⦄ (data_poizon : F) (double_of : List ℕ → F)
    (to_unsigned : F → ℕ) (driver : Vm F → Option (Vm F)) (fresh : ℕ → ℕ → ℕ → F) where
  abbrev pub continue : (Vm F → Finished F) → Option (Step F) → Finished F
  continue k none = fault
  continue k (some (running vm)) = k vm
  continue k (some (returned e vm)) = finished e vm

  -- The loop of `process`; `fresh n` is the memory of the round with `n` rounds to come.
  unfoldable pub process : ℕ → Vm F → Finished F
  process zero vm = out_of_fuel
  process (suc n) vm =
      if ltb vm.carriage (length vm.byte_code)
      then continue (process n) (step data_poizon double_of to_unsigned driver (fresh n) vm)
      else finished spu_all_good vm
