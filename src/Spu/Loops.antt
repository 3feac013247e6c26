-- ===== src/Spu/Loops.antt =====
-- CPU/CPU/SPU/src/SPU_additional.cpp: commands at which the machine stays for ever.
use tatlang.Prelude.{
  ℕ, zero, suc, ◌≡◌, refl, ◌⊎◌, true, inl, inr, Option, none, some, List, [], ◌∷◌, length,
  get_elem?, arith, ltb,
}
use tatlang.Double.{Double}
use tatlang.Spu.Vm.{Vm}
use tatlang.Spu.Commands.{void, command_of, exec, step, out_of_fuel, process}

-- A byte at which the switch does nothing.
abbrev pub Idle : ℕ → Type 0
Idle b = (command_of b ≡ none) ⊎ (command_of b ≡ some void)

get_elem-length : (xs : List ℕ) (i b : ℕ) → get_elem? xs i ≡ some b → ltb i (length xs) ≡ true
get_elem-length [] i b h = cc
get_elem-length (x ∷ xs) zero b h = ground arith
get_elem-length (x ∷ xs) (suc i) b h = ground (arith, get_elem-length xs i b h)

module _ {F : Type 0} ⦃d : Double F⦄ (data_poizon : F) (double_of : List ℕ → F)
    (to_unsigned : F → ℕ) (driver : Vm F → Option (Vm F)) (fresh : ℕ → ℕ → ℕ → F) where
  -- Where the carriage is at a byte that is VOID or no command, the loop does not end, however
  -- many rounds it makes.
  pub process-stays :
      (vm : Vm F) (b n : ℕ)
      → get_elem? vm.byte_code vm.carriage ≡ some b
      → Idle b
      → process data_poizon double_of to_unsigned driver fresh n vm ≡ out_of_fuel
  unfolding process step exec
  process-stays vm b zero h idle = refl
  process-stays vm b (suc n) h (inl e) =
      rw (get_elem-length vm.byte_code vm.carriage b h, h, e) (process-stays vm b n h (inl e))
  process-stays vm b (suc n) h (inr e) =
      rw (get_elem-length vm.byte_code vm.carriage b h, h, e) (process-stays vm b n h (inr e))
