-- ===== src/Spu/Vm.antt =====
-- CPU/CPU/SPU/include/SPU.h, SPU_additional.cpp and CPU/Global/include/secondary.h: the state of
-- the machine, and what commands do with it. A read or a write out of the byte code, of the
-- registers or of the memory is `none`. The errors of the stacks are not looked at.
use tatlang.Prelude.{
  ℕ, zero, suc, ◌+◌, ◌*◌, ◌/◌, ◌%◌, ◌^◌, Bool, Option, none, some, List, [], ◌∷◌, length, get_elem?,
  set, ◌==◌, ltb, if◌then◌else◌,
}
use tatlang.Double.{Double}
use tatlang.Stack.{Stack, stack_ctor, stack_push, stack_pop}

-- `rand_access_mem.user_RAM` is `user_ram`, and `byte_code_carriage` is `carriage`. `input` are the
-- numbers that scanf has still to read, `output` what was written to the output file.
pub record Vm (F : Type 0) : Type 0 where
  pub registers : List F
  pub user_stack : Stack F
  pub ret_stack : Stack F
  pub user_ram : List F
  pub byte_code : List ℕ
  pub carriage : ℕ
  pub user_entered_value : F
  pub input : List F
  pub output : List F

abbrev pub ram_mask : ℕ
ram_mask = 2 ^ 7

abbrev pub reg_mask : ℕ
reg_mask = 2 ^ 6

abbrev pub imm_mask : ℕ
imm_mask = 2 ^ 5

-- `byte & mask`, for a mask of one bit.
unfoldable pub has_bit : ℕ → ℕ → Bool
has_bit byte mask = (byte / mask) % 2 == 1

abbrev pub std_user_stack_size : ℕ
std_user_stack_size = 10

abbrev pub std_ret_stack_size : ℕ
std_ret_stack_size = 2

-- `sizeof(double)`.
abbrev pub word : ℕ
word = 8

infixl 1 ◌>>=◌
abbrev pub ◌>>=◌ : {A B : Type 0} → Option A → (A → Option B) → Option B
none >>= f = none
some a >>= f = f a

-- The bytes from a position on, as a list of so many.
unfoldable pub read_bytes : List ℕ → ℕ → ℕ → Option (List ℕ)
read_bytes bytes pos zero = some []
read_bytes bytes pos (suc n) =
    get_elem? bytes pos >>= λ b. read_bytes bytes (suc pos) n >>= λ bs. some (b ∷ bs)

-- The machine is little-endian.
abbrev pub little_endian : List ℕ → ℕ
little_endian [] = 0
little_endian (b ∷ bs) = b + 256 * little_endian bs

-- `*(unsigned int *)(BYTE_CODE + pos)`.
unfoldable pub read_uint : List ℕ → ℕ → Option ℕ
read_uint bytes pos = read_bytes bytes pos 4 >>= λ bs. some (little_endian bs)

module _ {F : Type 0} where
  -- A write out of bounds is `none`.
  unfoldable pub write_cell : List F → ℕ → F → Option (List F)
  write_cell xs i x = if ltb i (length xs) then some (set xs i x) else none

  -- MOVE_CARRIAGE.
  unfoldable pub move_carriage : Vm F → Vm F
  move_carriage vm = record vm { carriage = vm.carriage + word }

  -- UPDATE_BYTE_CODE_CARRIAGE.
  unfoldable pub update_carriage : Vm F → Option (Vm F)
  update_carriage vm =
      read_uint vm.byte_code (vm.carriage + 4) >>= λ n. some (record vm { carriage = n * word })

-- The poison of the stacks and the memory that `realloc` adds, at each call of a step.
module _ {F : Type 0} ⦃d : Double F⦄ (data_poizon : F) (fresh : ℕ → ℕ → F) where
  -- STACK_PUSH on the stack of the user; `call` is the number of the call.
  unfoldable pub push_user : ℕ → Vm F → F → Option (Vm F)
  push_user call vm x = stack_push data_poizon (fresh call) vm.user_stack x >>= λ r.
      some (record vm { user_stack = r.1 })

  unfoldable pub pop_user : ℕ → Vm F → Option (F × Vm F)
  pop_user call vm = stack_pop data_poizon (fresh call) vm.user_stack >>= λ r.
      some (r.0.deleted_element, record vm { user_stack = r.1 })

  unfoldable pub push_ret : ℕ → Vm F → F → Option (Vm F)
  push_ret call vm x = stack_push data_poizon (fresh call) vm.ret_stack x >>= λ r.
      some (record vm { ret_stack = r.1 })

  unfoldable pub pop_ret : ℕ → Vm F → Option (F × Vm F)
  pop_ret call vm = stack_pop data_poizon (fresh call) vm.ret_stack >>= λ r.
      some (r.0.deleted_element, record vm { ret_stack = r.1 })

module _ {F : Type 0} ⦃d : Double F⦄ (data_poizon : F) where
  -- `VM_ctor` for the numbers of the configuration file, and the byte code of the binary file.
  unfoldable pub vm_ctor : ℕ → ℕ → List ℕ → List F → Vm F
  vm_ctor regs_amount ram_size byte_code input = record {
    registers = zeros regs_amount;
    user_stack = stack_ctor data_poizon std_user_stack_size;
    ret_stack = stack_ctor data_poizon std_ret_stack_size;
    user_ram = zeros ram_size;
    byte_code = byte_code;
    carriage = 0;
    user_entered_value = d.nan;
    input = input;
    output = [];
  }
    where
      zeros : ℕ → List F
      zeros zero = []
      zeros (suc n) = d.of_nat 0 ∷ zeros n
