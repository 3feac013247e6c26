-- ===== src/Spu/Steps.antt =====
-- CPU/Global/include/cmd_definitions.h: what each command keeps of the machine.
use tatlang.Prelude.{ℕ, ◌+◌, ◌∙◌, Bool, Option, some, List, [], ◌∷◌, get_elem?}
use tatlang.Double.{Double, Cmp, cmp_double}
use tatlang.Spu.Vm.{
  Vm, ram_mask, reg_mask, imm_mask, has_bit, word, ◌>>=◌, read_bytes, read_uint, write_cell,
  move_carriage, pop_user,
}
use tatlang.Spu.Commands.{
  moved, register_of, push_ram, exec_push, pop_ram, pop_register, exec_pop, entered, exec_binary,
  exec_out, exec_sqrt, exec_ret, exec_jump, exec_call,
}
use tatlang.Spu.Sound.{
  Like, Kept, alike, bind-Kept, either-Kept, move-Like, jump-Kept, written-Kept, pop_user-Like,
  push_ret-Like, pop_ret-Like, push-Kept,
}

-- The commands, given what the driver does.
module _ {F : Type 0} ⦃d : Double F⦄ (data_poizon : F) (double_of : List ℕ → F)
    (to_unsigned : F → ℕ) (driver : Vm F → Option (Vm F)) (fresh : ℕ → ℕ → F) where
  push_ram-Kept :
      (old vm : Vm F) (o : Option ℕ)
      → Like old vm
      → Kept old (push_ram data_poizon double_of to_unsigned driver fresh vm o)
  unfolding push_ram
  push_ram-Kept old vm o v = bind-Kept old o _ (λ a.
      bind-Kept old (get_elem? vm.user_ram a) _ (λ x. push-Kept data_poizon fresh old vm 0 x v))

  pub exec_push-Kept :
      (old vm : Vm F) (mask : ℕ)
      → Like old vm
      → Kept old (exec_push data_poizon double_of to_unsigned driver fresh mask vm)
  unfolding exec_push
  exec_push-Kept old vm mask v =
      either-Kept old (has_bit mask ram_mask) _ _
        (either-Kept old (has_bit mask imm_mask) _ _ (push_ram-Kept old vm _ v)
          (either-Kept old (has_bit mask reg_mask) _ _ (push_ram-Kept old vm _ v) v))
        (either-Kept old (has_bit mask imm_mask) _ _
          (bind-Kept old (read_bytes vm.byte_code (vm.carriage + word) 8) _ (λ bs.
            push-Kept data_poizon fresh old (move_carriage vm) 0 (double_of bs)
              (move-Like old vm v)))
          (either-Kept old (has_bit mask reg_mask) _ _
            (bind-Kept old (register_of data_poizon double_of to_unsigned driver fresh vm) _
              (λ x. push-Kept data_poizon fresh old vm 0 x v))
            (move-Like old vm v)))

  pop_write-Kept :
      (old vm : Vm F) (i : ℕ)
      → Like old vm
      → Kept old (
          pop_user data_poizon fresh 0 vm >>= λ r. write_cell vm.user_ram i r.0 >>= λ ram.
          moved data_poizon double_of to_unsigned driver fresh
            (some (record r.1 { user_ram = ram })))
  pop_write-Kept old vm i v =
      let (x, vm', e, v') = pop_user-Like data_poizon fresh old vm 0 v in
      rw e (
        written-Kept old vm' vm.user_ram i x (λ ram. record vm' { user_ram = ram })
          (λ ys same.
            alike old _ v'.user_sound v'.ret_sound v'.same_registers (same ∙ v.same_ram)
              v'.same_code))

  pop_ram-Kept :
      (old vm : Vm F) (o : Option ℕ)
      → Like old vm
      → Kept old (pop_ram data_poizon double_of to_unsigned driver fresh vm o)
  unfolding pop_ram
  pop_ram-Kept old vm o v = bind-Kept old o _ (λ a. pop_write-Kept old vm a v)

  pop_register-Kept :
      (old vm : Vm F)
      → Like old vm
      → Kept old (pop_register data_poizon double_of to_unsigned driver fresh vm)
  unfolding pop_register
  pop_register-Kept old vm v =
      let (x, vm', e, v') = pop_user-Like data_poizon fresh old vm 0 v in
      bind-Kept old (read_uint vm.byte_code (vm.carriage + 4)) _ (λ i. rw e (
        written-Kept old vm' vm.registers i x (λ regs. record vm' { registers = regs })
          (λ ys same.
            alike old _ v'.user_sound v'.ret_sound (same ∙ v.same_registers) v'.same_ram
              v'.same_code)))

  pub exec_pop-Kept :
      (old vm : Vm F) (mask : ℕ)
      → Like old vm
      → Kept old (exec_pop data_poizon double_of to_unsigned driver fresh mask vm)
  unfolding exec_pop
  exec_pop-Kept old vm mask v =
      either-Kept old (has_bit mask ram_mask) _ _
        (either-Kept old (has_bit mask imm_mask) _ _ (pop_ram-Kept old vm _ v) (
          either-Kept old (has_bit mask reg_mask) _ _ (pop_ram-Kept old vm _ v)
            (move-Like old vm v)))
        (either-Kept old (has_bit mask reg_mask) _ _ (pop_register-Kept old vm v)
          (move-Like old vm v))

  pub entered-Like :
      (old vm : Vm F) (xs : List F)
      → Like old vm
      → Like old (entered data_poizon double_of to_unsigned driver fresh vm xs)
  entered-Like old vm [] v = v
  entered-Like old vm (x ∷ xs) v =
      alike old _ v.user_sound v.ret_sound v.same_registers v.same_ram v.same_code

  pub exec_binary-Kept :
      (old vm : Vm F) (f : F → F → F)
      → Like old vm
      → Kept old (exec_binary data_poizon double_of to_unsigned driver fresh f vm)
  unfolding exec_binary
  exec_binary-Kept old vm f v =
      let (b, vm₁, e₁, v₁) = pop_user-Like data_poizon fresh old vm 0 v in
      let (a, vm₂, e₂, v₂) = pop_user-Like data_poizon fresh old vm₁ 1 v₁ in
      rw (e₁, e₂) (push-Kept data_poizon fresh old vm₂ 2 (f a b) v₂)

  pub exec_jump-Kept :
      (old vm : Vm F) (test : Cmp → Bool)
      → Like old vm
      → Kept old (exec_jump data_poizon double_of to_unsigned driver fresh test vm)
  unfolding exec_jump
  exec_jump-Kept old vm test v =
      let (b, vm₁, e₁, v₁) = pop_user-Like data_poizon fresh old vm 0 v in
      let (a, vm₂, e₂, v₂) = pop_user-Like data_poizon fresh old vm₁ 1 v₁ in
      rw (e₁, e₂)
        (either-Kept old (test (cmp_double a b)) _ _ (jump-Kept old vm₂ v₂) (move-Like old vm₂ v₂))

  pub exec_out-Kept :
      (old vm : Vm F)
      → Like old vm
      → Kept old (exec_out data_poizon double_of to_unsigned driver fresh vm)
  unfolding exec_out
  exec_out-Kept old vm v =
      let (x, vm', e, v') = pop_user-Like data_poizon fresh old vm 0 v in
      rw e (
        move-Like old _
          (alike old _ v'.user_sound v'.ret_sound v'.same_registers v'.same_ram v'.same_code))

  pub exec_sqrt-Kept :
      (old vm : Vm F)
      → Like old vm
      → Kept old (exec_sqrt data_poizon double_of to_unsigned driver fresh vm)
  unfolding exec_sqrt
  exec_sqrt-Kept old vm v =
      let (x, vm', e, v') = pop_user-Like data_poizon fresh old vm 0 v in
      rw e (push-Kept data_poizon fresh old vm' 1 (d.sqrt x) v')

  pub exec_ret-Kept :
      (old vm : Vm F)
      → Like old vm
      → Kept old (exec_ret data_poizon double_of to_unsigned driver fresh vm)
  unfolding exec_ret
  exec_ret-Kept old vm v =
      let (x, vm', e, v') = pop_ret-Like data_poizon fresh old vm 0 v in
      rw e (alike old _ v'.user_sound v'.ret_sound v'.same_registers v'.same_ram v'.same_code)

  pub exec_call-Kept :
      (old vm : Vm F)
      → Like old vm
      → Kept old (exec_call data_poizon double_of to_unsigned driver fresh vm)
  unfolding exec_call
  exec_call-Kept old vm v =
      let (vm', e, v') =
        push_ret-Like data_poizon fresh old vm 0 (d.of_nat (vm.carriage + word)) v in
      rw e (jump-Kept old vm' v')
