-- ===== src/Spu/Sound.antt =====
-- CPU/CPU/SPU: no command makes a stack leave its array, or changes the byte code and the sizes of
-- the registers and of the memory.
use tatlang.Prelude.{
  ℕ, ◌+◌, ◌*◌, ◌≡◌, refl, Bool, true, false, inl, inr, Bool-cases, Option, none, some, List, length,
  length-set, ltb, if◌then◌else◌,
}
use tatlang.Double.{Double}
use tatlang.Stack.Sound.{IsSound, stack_push-IsSound, stack_pop-IsSound}
use tatlang.Spu.Vm.{
  Vm, word, ◌>>=◌, read_uint, write_cell, move_carriage, update_carriage, push_user, pop_user,
  push_ret, pop_ret,
}
use tatlang.Spu.Commands.{Step, running, returned}

-- A machine with sound stacks, and the byte code and the sizes of `old`.
pub record Like {F : Type 0} (old vm : Vm F) : Type 0 where
  pub user_sound : IsSound vm.user_stack
  pub ret_sound : IsSound vm.ret_stack
  pub same_registers : length vm.registers ≡ length old.registers
  pub same_ram : length vm.user_ram ≡ length old.user_ram
  pub same_code : vm.byte_code ≡ old.byte_code

pub alike :
    {F : Type 0} (old vm : Vm F)
    → IsSound vm.user_stack
    → IsSound vm.ret_stack
    → length vm.registers ≡ length old.registers
    → length vm.user_ram ≡ length old.user_ram
    → vm.byte_code ≡ old.byte_code
    → Like old vm
alike old vm u r g m c = record {
  user_sound = u;
  ret_sound = r;
  same_registers = g;
  same_ram = m;
  same_code = c;
}

abbrev pub Kept : {F : Type 0} → Vm F → Option (Step F) → Type 0
Kept old none = Unit
Kept old (some (running vm)) = Like old vm
Kept old (some (returned e vm)) = Like old vm

-- The driver reads the machine, and leaves it as it is up to its output.
abbrev pub DriverKeeps : {F : Type 0} → (Vm F → Option (Vm F)) → Type 0
DriverKeeps {F} driver = (old vm vm' : Vm F) → Like old vm → driver vm ≡ some vm' → Like old vm'

pub bind-Kept :
    {F A : Type 0} (old : Vm F) (o : Option A) (f : A → Option (Step F))
    → ((a : A) → Kept old (f a))
    → Kept old (o >>= f)
bind-Kept old none f h = tt
bind-Kept old (some a) f h = h a

pub either-Kept :
    {F : Type 0} (old : Vm F) (b : Bool) (x y : Option (Step F))
    → Kept old x
    → Kept old y
    → Kept old (if b then x else y)
either-Kept old true x y p q = p
either-Kept old false x y p q = q

pub move-Like : {F : Type 0} (old vm : Vm F) → Like old vm → Like old (move_carriage vm)
unfolding move_carriage
move-Like old vm v = alike old _ v.user_sound v.ret_sound v.same_registers v.same_ram v.same_code

target-Kept :
    {F : Type 0} (old vm : Vm F) (o : Option ℕ)
    → Like old vm
    → Kept old ((o >>= λ n. some (record vm { carriage = n * word })) >>= λ vm'. some (running vm'))
target-Kept old vm none v = tt
target-Kept old vm (some n) v =
    alike old _ v.user_sound v.ret_sound v.same_registers v.same_ram v.same_code

pub jump-Kept :
    {F : Type 0} (old vm : Vm F)
    → Like old vm
    → Kept old (update_carriage vm >>= λ vm'. some (running vm'))
unfolding update_carriage
jump-Kept old vm v = target-Kept old vm (read_uint vm.byte_code (vm.carriage + 4)) v

pub written-Kept :
    {F : Type 0} (old vm : Vm F) (xs : List F) (i : ℕ) (x : F) (f : List F → Vm F)
    → ((ys : List F) → length ys ≡ length xs → Like old (f ys))
    → Kept old
        (write_cell xs i x >>= λ ys. some (f ys) >>= λ vm'. some (running (move_carriage vm')))
unfolding write_cell
written-Kept old vm xs i x f h = elim (Bool-cases (ltb i (length xs))) [
  | inl p ↦ rw p (move-Like old _ (h _ (length-set xs i x)))
  | inr p ↦ rw p tt
]

module _ {F : Type 0} ⦃d : Double F⦄ (data_poizon : F) (fresh : ℕ → ℕ → F) where
  pub push_user-Like :
      (old vm : Vm F) (n : ℕ) (x : F)
      → Like old vm
      → (vm' : Vm F) × (push_user data_poizon fresh n vm x ≡ some vm') × Like old vm'
  unfolding push_user
  push_user-Like old vm n x v =
      let (e, stk, called, sound) =
        stack_push-IsSound data_poizon (fresh n) vm.user_stack x v.user_sound in
      (
        record vm { user_stack = stk },
        rw called refl,
        alike old _ sound v.ret_sound v.same_registers v.same_ram v.same_code,
      )

  pub pop_user-Like :
      (old vm : Vm F) (n : ℕ)
      → Like old vm
      → (x : F) × (vm' : Vm F) × (pop_user data_poizon fresh n vm ≡ some (x, vm')) × Like old vm'
  unfolding pop_user
  pop_user-Like old vm n v =
      let (r, stk, called, sound) =
        stack_pop-IsSound data_poizon (fresh n) vm.user_stack v.user_sound in
      (
        r.deleted_element,
        record vm { user_stack = stk },
        rw called refl,
        alike old _ sound v.ret_sound v.same_registers v.same_ram v.same_code,
      )

  pub push_ret-Like :
      (old vm : Vm F) (n : ℕ) (x : F)
      → Like old vm
      → (vm' : Vm F) × (push_ret data_poizon fresh n vm x ≡ some vm') × Like old vm'
  unfolding push_ret
  push_ret-Like old vm n x v =
      let (e, stk, called, sound) =
        stack_push-IsSound data_poizon (fresh n) vm.ret_stack x v.ret_sound in
      (
        record vm { ret_stack = stk },
        rw called refl,
        alike old _ v.user_sound sound v.same_registers v.same_ram v.same_code,
      )

  pub pop_ret-Like :
      (old vm : Vm F) (n : ℕ)
      → Like old vm
      → (x : F) × (vm' : Vm F) × (pop_ret data_poizon fresh n vm ≡ some (x, vm')) × Like old vm'
  unfolding pop_ret
  pop_ret-Like old vm n v =
      let (r, stk, called, sound) =
        stack_pop-IsSound data_poizon (fresh n) vm.ret_stack v.ret_sound in
      (
        r.deleted_element,
        record vm { ret_stack = stk },
        rw called refl,
        alike old _ v.user_sound sound v.same_registers v.same_ram v.same_code,
      )

  -- A push at the end of a command, and the move behind it.
  pub push-Kept :
      (old vm : Vm F) (n : ℕ) (x : F)
      → Like old vm
      → Kept old (push_user data_poizon fresh n vm x >>= λ vm'. some (running (move_carriage vm')))
  push-Kept old vm n x v =
      let (vm', e, v') = push_user-Like old vm n x v in rw e (move-Like old vm' v')
