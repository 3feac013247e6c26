-- ===== src/Spu/Keeps.antt =====
-- CPU/CPU/SPU: the run of the machine keeps its stacks, and the sizes of its memory.
use tatlang.Prelude.{
  ℕ, zero, suc, ◌+◌, ◌≤◌, ◌≡◌, refl, subst, inl, inr, Bool-cases, Option, none, some, List, [],
  length, get_elem?, arith, ltb,
}
use tatlang.Double.{Double}
use tatlang.Stack.{stack_ctor}
use tatlang.Stack.Resize.{length-resize}
use tatlang.Stack.Sound.{IsSound}
use tatlang.Spu.Vm.{Vm, vm_ctor, ◌>>=◌, move_carriage}
use tatlang.Spu.Commands.{
  SpuErr, Command, void, push, add, sub, mul, div, out, in_, pop, jmp, ja, jb, jae, jbe, je, jne,
  call, ret, draw, sqrt, hlt, command_of, Step, running, returned, exec_in, exec_draw, exec, step,
  Finished, out_of_fuel, fault, finished, continue, process,
}
use tatlang.Spu.Sound.{Like, Kept, DriverKeeps, alike, bind-Kept, move-Like, jump-Kept, push-Kept}
use tatlang.Spu.Steps.{
  exec_push-Kept, exec_pop-Kept, entered-Like, exec_binary-Kept, exec_jump-Kept, exec_out-Kept,
  exec_sqrt-Kept, exec_ret-Kept, exec_call-Kept,
}

module _ {F : Type 0} ⦃d : Double F⦄ (data_poizon : F) (double_of : List ℕ → F)
    (to_unsigned : F → ℕ) (driver : Vm F → Option (Vm F)) (driver_keeps : DriverKeeps driver)
    (fresh : ℕ → ℕ → F) where
  draw-Kept :
      (old vm : Vm F) (o : Option (Vm F))
      → driver vm ≡ o
      → Like old vm
      → Kept old (o >>= λ vm'. some (running (move_carriage (move_carriage vm'))))
  draw-Kept old vm none e v = tt
  draw-Kept old vm (some vm') e v =
      move-Like old (move_carriage vm') (move-Like old vm' (driver_keeps old vm vm' v e))

  exec-Kept :
      (old vm : Vm F) (c : Option Command)
      → Like old vm
      → Kept old (exec data_poizon double_of to_unsigned driver fresh c vm)
  unfolding exec exec_in exec_draw
  exec-Kept old vm none v = v
  exec-Kept old vm (some void) v = v
  exec-Kept old vm (some push) v =
      bind-Kept old (get_elem? vm.byte_code (vm.carriage + 1)) _
        (λ mask. exec_push-Kept data_poizon double_of to_unsigned driver fresh old vm mask v)
  exec-Kept old vm (some pop) v =
      bind-Kept old (get_elem? vm.byte_code (vm.carriage + 1)) _
        (λ mask. exec_pop-Kept data_poizon double_of to_unsigned driver fresh old vm mask v)
  exec-Kept old vm (some in_) v =
      push-Kept data_poizon fresh old _ 0 _
        (entered-Like data_poizon double_of to_unsigned driver fresh old vm vm.input v)
  exec-Kept old vm (some add) v =
      exec_binary-Kept data_poizon double_of to_unsigned driver fresh old vm d.add v
  exec-Kept old vm (some sub) v =
      exec_binary-Kept data_poizon double_of to_unsigned driver fresh old vm d.sub v
  exec-Kept old vm (some mul) v =
      exec_binary-Kept data_poizon double_of to_unsigned driver fresh old vm d.mul v
  exec-Kept old vm (some div) v =
      exec_binary-Kept data_poizon double_of to_unsigned driver fresh old vm d.div v
  exec-Kept old vm (some out) v =
      exec_out-Kept data_poizon double_of to_unsigned driver fresh old vm v
  exec-Kept old vm (some ret) v =
      exec_ret-Kept data_poizon double_of to_unsigned driver fresh old vm v
  exec-Kept old vm (some jmp) v = jump-Kept old vm v
  exec-Kept old vm (some jae) v =
      exec_jump-Kept data_poizon double_of to_unsigned driver fresh old vm _ v
  exec-Kept old vm (some ja) v =
      exec_jump-Kept data_poizon double_of to_unsigned driver fresh old vm _ v
  exec-Kept old vm (some jbe) v =
      exec_jump-Kept data_poizon double_of to_unsigned driver fresh old vm _ v
  exec-Kept old vm (some jb) v =
      exec_jump-Kept data_poizon double_of to_unsigned driver fresh old vm _ v
  exec-Kept old vm (some je) v =
      exec_jump-Kept data_poizon double_of to_unsigned driver fresh old vm _ v
  exec-Kept old vm (some jne) v =
      exec_jump-Kept data_poizon double_of to_unsigned driver fresh old vm _ v
  exec-Kept old vm (some call) v =
      exec_call-Kept data_poizon double_of to_unsigned driver fresh old vm v
  exec-Kept old vm (some hlt) v = v
  exec-Kept old vm (some draw) v = draw-Kept old vm (driver vm) refl v
  exec-Kept old vm (some sqrt) v =
      exec_sqrt-Kept data_poizon double_of to_unsigned driver fresh old vm v

  pub step-Kept :
      (old vm : Vm F)
      → Like old vm
      → Kept old (step data_poizon double_of to_unsigned driver fresh vm)
  unfolding step
  step-Kept old vm v =
      bind-Kept old (get_elem? vm.byte_code vm.carriage) _ (λ b. exec-Kept old vm (command_of b) v)

new-IsSound :
    {F : Type 0} ⦃d : Double F⦄ (data_poizon : F) (n : ℕ)
    → n ≤ 10
    → IsSound (stack_ctor data_poizon n)
unfolding stack_ctor
new-IsSound data_poizon n p = record {
  allocated = length-resize _ n 0 [];
  fits = omega arith;
  compact = omega (arith, p);
}

ctor-Like :
    {F : Type 0} ⦃d : Double F⦄ (data_poizon : F) (regs_amount ram_size : ℕ) (byte_code : List ℕ)
    (input : List F)
    → let vm = vm_ctor data_poizon regs_amount ram_size byte_code input in Like vm vm
unfolding vm_ctor
ctor-Like data_poizon regs_amount ram_size byte_code input =
    alike _ _ (new-IsSound data_poizon 10 (omega arith)) (new-IsSound data_poizon 2 (omega arith))
      refl refl refl

-- The run, of which only the end counts.
abbrev Ended : {F : Type 0} → Vm F → Finished F → Type 0
Ended old out_of_fuel = Unit
Ended old fault = Unit
Ended old (finished e vm) = Like old vm

module _ {F : Type 0} ⦃d : Double F⦄ (data_poizon : F) (double_of : List ℕ → F)
    (to_unsigned : F → ℕ) (driver : Vm F → Option (Vm F)) (fresh : ℕ → ℕ → ℕ → F) where
  continue-Ended :
      (old : Vm F) (k : Vm F → Finished F) (o : Option (Step F))
      → Kept old o
      → ((vm : Vm F) → Like old vm → Ended old (k vm))
      → Ended old (continue data_poizon double_of to_unsigned driver fresh k o)
  continue-Ended old k none h f = tt
  continue-Ended old k (some (running vm)) h f = f vm h
  continue-Ended old k (some (returned e vm)) h f = h

  process-Ended :
      (old : Vm F) (n : ℕ) (vm : Vm F)
      → DriverKeeps driver
      → Like old vm
      → Ended old (process data_poizon double_of to_unsigned driver fresh n vm)
  unfolding process
  process-Ended old zero vm keeps v = tt
  process-Ended old (suc n) vm keeps v = elim (Bool-cases (ltb vm.carriage (length vm.byte_code))) [
    | inl p ↦ rw p (
        continue-Ended old _ _
          (step-Kept data_poizon double_of to_unsigned driver keeps (fresh n) old vm v)
          (λ vm' v'. process-Ended old n vm' keeps v'))
    | inr p ↦ rw p v
  ]

  -- Where a run from a new machine ends, in whatever way, the stacks are within their arrays, and
  -- the byte code and the numbers of registers and of cells of memory are those of the start.
  pub process-Like :
      (regs_amount ram_size n : ℕ) (byte_code : List ℕ) (input : List F) (e : SpuErr) (vm : Vm F)
      → DriverKeeps driver
      → process data_poizon double_of to_unsigned driver fresh n
          (vm_ctor data_poizon regs_amount ram_size byte_code input)
        ≡ finished e vm
      → Like (vm_ctor data_poizon regs_amount ram_size byte_code input) vm
  process-Like regs_amount ram_size n byte_code input e vm keeps h =
      let start = vm_ctor data_poizon regs_amount ram_size byte_code input in
      subst (Ended start) h (
        process-Ended start n start keeps
          (ctor-Like data_poizon regs_amount ram_size byte_code input))
