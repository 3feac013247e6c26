-- ===== src/Spu/Arithmetic.antt =====
-- CPU/Global/include/cmd_definitions.h: the commands on the stack of the user, for a stack without
-- poison, and the run of the code of an expression.
use tatlang.Prelude.{
  ℕ, ◌+◌, ◌≡◌, refl, ap, sym, ◌∙◌, true, false, Option, some, List, [], ◌∷◌, ◌++◌, append_assoc,
  length,
}
use tatlang.Double.{Double}
use tatlang.Stack.{Stack}
use tatlang.Stack.Resize.{IsClean}
use tatlang.Stack.Refines.{contents, IsValid, stack_push-contents, stack_pop-contents}
use tatlang.Stack.Runs.{size_of_contents, length-snoc, snoc_injective}
use tatlang.Spu.Vm.{
  Vm, ram_mask, imm_mask, has_bit, word, ◌>>=◌, read_bytes, move_carriage, push_user, pop_user,
}
use tatlang.Spu.Commands.{running, exec_push, exec_binary}

module _ {F : Type 0} ⦃d : Double F⦄ (data_poizon : F) (fresh : ℕ → ℕ → F)
    (fresh_clean : (i j : ℕ) → IsClean data_poizon (fresh i j)) where
  abbrev pub StackHolds : Stack F → List F → Type 0
  StackHolds stk xs = IsValid data_poizon stk × (contents stk ≡ xs)

  push_user-contents :
      (vm : Vm F) (n : ℕ) (x : F)
      → IsClean data_poizon x
      → IsValid data_poizon vm.user_stack
      → (stk : Stack F) × (push_user data_poizon fresh n vm x
          ≡ some (record vm { user_stack = stk }))
        × StackHolds stk (contents vm.user_stack ++ x ∷ [])
  unfolding push_user
  push_user-contents vm n x clean v =
      let (stk, called, v', c) =
        stack_push-contents data_poizon (fresh n) vm.user_stack x (fresh_clean n) clean v in
      (stk, rw called refl, (v', c))

  pop_user-contents :
      (vm : Vm F) (n : ℕ) (xs : List F) (x : F)
      → StackHolds vm.user_stack (xs ++ x ∷ [])
      → (stk : Stack F) × (pop_user data_poizon fresh n vm
          ≡ some (x, record vm { user_stack = stk }))
        × StackHolds stk xs
  unfolding pop_user
  pop_user-contents vm n xs x (v, e) =
      let (x', stk, called, v', c) =
        stack_pop-contents data_poizon (fresh n) vm.user_stack (length xs) (fresh_clean n) v
          (size_of_contents vm.user_stack v.allocated v.fits ∙ ap length e ∙ length-snoc xs x) in
      let (lower, top) = snoc_injective xs (contents stk) x x' (sym e ∙ c) in
      (
        stk,
        ap (λ o. o >>= λ r. some (r.0.deleted_element, record vm { user_stack = r.1 })) called
            ∙ ap (λ y. some (y, record vm { user_stack = stk })) (sym top),
        (v', sym lower),
      )

module _ {F : Type 0} ⦃d : Double F⦄ (data_poizon : F) (double_of : List ℕ → F)
    (to_unsigned : F → ℕ) (driver : Vm F → Option (Vm F)) where
  -- An operation takes the right operand from the top of the stack and the left one from below it,
  -- and leaves its result there; the rest of the machine is as it was, but for the carriage.
  pub exec_binary-contents :
      (fresh : ℕ → ℕ → F) (f : F → F → F) (vm : Vm F) (xs : List F) (a b : F)
      → ((i j : ℕ) → IsClean data_poizon (fresh i j))
      → IsClean data_poizon (f a b)
      → IsValid data_poizon vm.user_stack
      → contents vm.user_stack ≡ xs ++ a ∷ b ∷ []
      → (stk : Stack F) × (exec_binary data_poizon double_of to_unsigned driver fresh f vm
          ≡ some (running (move_carriage (record vm { user_stack = stk }))))
        × IsValid data_poizon stk
        × (contents stk ≡ xs ++ f a b ∷ [])
  unfolding exec_binary
  exec_binary-contents fresh f vm xs a b fresh_clean clean v e =
      let (stk₁, e₁, (v₁, c₁)) =
        pop_user-contents data_poizon fresh fresh_clean vm 0 (xs ++ a ∷ []) b
          (v, e ∙ sym (append_assoc xs (a ∷ []) (b ∷ []))) in
      let (stk₂, e₂, (v₂, c₂)) =
        pop_user-contents data_poizon fresh fresh_clean (record vm { user_stack = stk₁ }) 1 xs a
          (v₁, c₁) in
      let (stk₃, e₃, (v₃, c₃)) =
        push_user-contents data_poizon fresh fresh_clean (record vm { user_stack = stk₂ }) 2 (f a b)
          clean v₂ in
      (stk₃, rw (e₁, e₂, e₃) refl, v₃, c₃ ∙ ap (λ l. l ++ f a b ∷ []) c₂)

  -- A push of the double behind the command.
  pub exec_push-contents :
      (fresh : ℕ → ℕ → F) (vm : Vm F) (mask : ℕ) (bs : List ℕ)
      → ((i j : ℕ) → IsClean data_poizon (fresh i j))
      → has_bit mask ram_mask ≡ false
      → has_bit mask imm_mask ≡ true
      → read_bytes vm.byte_code (vm.carriage + word) 8 ≡ some bs
      → IsClean data_poizon (double_of bs)
      → IsValid data_poizon vm.user_stack
      → (stk : Stack F) × (exec_push data_poizon double_of to_unsigned driver fresh mask vm
          ≡ some (running (move_carriage (move_carriage (record vm { user_stack = stk })))))
        × IsValid data_poizon stk
        × (contents stk ≡ contents vm.user_stack ++ double_of bs ∷ [])
  unfolding exec_push move_carriage
  exec_push-contents fresh vm mask bs fresh_clean no_ram imm read clean v =
      let (stk, e, (v', c)) =
        push_user-contents data_poizon fresh fresh_clean (move_carriage vm) 0 (double_of bs) clean
          v in
      (stk, rw (no_ram, imm, read, e) refl, v', c)
