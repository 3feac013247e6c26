-- ===== src/Spu/Evaluates.antt =====
-- CPU/CPU/SPU: the code of an arithmetic expression leaves the value of the expression on the stack.
use tatlang.Prelude.{
  ℕ, suc, ◌+◌, ◌≡◌, refl, ap, ◌∙◌, true, Option, some, List, [], ◌∷◌, ◌++◌, append_assoc, length,
  length-append, arith, ltb,
}
use tatlang.Double.{Double}
use tatlang.Stack.{Stack}
use tatlang.Stack.Resize.{IsClean}
use tatlang.Stack.Refines.{contents, IsValid}
use tatlang.Spu.Vm.{Vm}
use tatlang.Spu.Commands.{running, step, Finished, process}
use tatlang.Spu.Expressions.{
  Arith, lit, bin, op_byte, value, rounds, code, word_of, push_word, AllClean, Layout, moved_to,
  step-lit, step-op, in_code,
}

regroup : (a b n : ℕ) → (a + (b + 1)) + n ≡ a + (b + suc n)
regroup a b n = omega arith

one_more : (n : ℕ) → 1 + n ≡ suc n
one_more n = omega arith

module _ {F : Type 0} ⦃d : Double F⦄ (data_poizon : F) (double_of : List ℕ → F)
    (to_unsigned : F → ℕ) (driver : Vm F → Option (Vm F)) (bytes_of : F → List ℕ)
    (layout : Layout bytes_of double_of) (fresh : ℕ → ℕ → ℕ → F)
    (fresh_clean : (i j k : ℕ) → IsClean data_poizon (fresh i j k)) where
  abbrev run : ℕ → Vm F → Finished F
  run = process data_poizon double_of to_unsigned driver fresh

  run-step :
      (vm vm' : Vm F) (n : ℕ)
      → ltb vm.carriage (length vm.byte_code) ≡ true
      → step data_poizon double_of to_unsigned driver (fresh n) vm ≡ some (running vm')
      → run (suc n) vm ≡ run n vm'
  unfolding process
  run-step vm vm' n p e = rw (p, e) refl

  -- The machine computes an arithmetic expression: where its code stands in the byte code from the
  -- carriage on, so many rounds bring the machine behind the code, with the value of the expression
  -- pushed and nothing else changed. The doubles take eight bytes, and neither the values on the
  -- way nor the memory that `realloc` adds are taken for the poison of the stack.
  pub process-value :
      (e : Arith F) (pre post : List ℕ) (vm : Vm F) (n : ℕ)
      → vm.byte_code ≡ pre ++ (code bytes_of e ++ post)
      → vm.carriage ≡ length pre
      → AllClean data_poizon e
      → IsValid data_poizon vm.user_stack
      → (stk : Stack F) × (run (rounds e + n) vm
          ≡ run n (moved_to vm stk (vm.carriage + length (code bytes_of e))))
        × IsValid data_poizon stk
        × (contents stk ≡ contents vm.user_stack ++ value e ∷ [])
  process-value (lit x) pre post vm n split at_pre clean v =
      let split' = split ∙ ap (λ l. pre ++ l) (append_assoc push_word (bytes_of x) post) in
      let (stk, e, v', c) =
        step-lit data_poizon double_of to_unsigned driver bytes_of layout (fresh n) x pre post vm
          (fresh_clean n) split' at_pre clean v in
      (
        stk,
        ap (λ k. run k vm) (one_more n)
            ∙ run-step vm _ n (in_code vm pre _ split' at_pre 1 _ refl) e
            ∙ ap (λ k. run n (moved_to vm stk k))
                (omega (arith, layout.eight x, length-append push_word (bytes_of x))),
        v',
        c,
      )
  process-value (bin o l r) pre post vm n split at_pre (cl, cr, co) v =
      let cs = code bytes_of l in
      let ds = code bytes_of r in
      let ws = word_of (op_byte o) in
      let split_l : vm.byte_code ≡ pre ++ (cs ++ (ds ++ (ws ++ post))) =
        rw split (simp append_assoc) in
      let split_r : vm.byte_code ≡ (pre ++ cs) ++ (ds ++ (ws ++ post)) =
        rw split (simp append_assoc) in
      let split_o : vm.byte_code ≡ (pre ++ cs ++ ds) ++ (ws ++ post) =
        rw split (simp append_assoc) in
      let (stk₁, e₁, v₁, c₁) =
        process-value l pre (ds ++ (ws ++ post)) vm (rounds r + suc n) split_l at_pre cl v in
      let vm₁ = moved_to vm stk₁ (vm.carriage + length cs) in
      let (stk₂, e₂, v₂, c₂) =
        process-value r (pre ++ cs) (ws ++ post) vm₁ (suc n) split_r
          (omega (arith, at_pre, length-append pre cs)) cr v₁ in
      let vm₂ = moved_to vm₁ stk₂ (vm.carriage + length cs + length ds) in
      let at_op : vm₂.carriage ≡ length (pre ++ cs ++ ds) =
        omega (arith, at_pre, length-append pre cs, length-append (pre ++ cs) ds) in
      let (stk₃, e₃, v₃, c₃) =
        step-op data_poizon double_of to_unsigned driver bytes_of layout (fresh n) o
          (pre ++ cs ++ ds) post vm₂ (contents vm.user_stack) (value l) (value r) (fresh_clean n)
          split_o at_op co v₂
          (c₂
            ∙ ap (λ xs. xs ++ value r ∷ []) c₁
            ∙ append_assoc (contents vm.user_stack) (value l ∷ []) (value r ∷ [])) in
      (
        stk₃,
        ap (λ k. run k vm) (regroup (rounds l) (rounds r) n)
            ∙ e₁
            ∙ e₂
            ∙ run-step vm₂ _ n (in_code vm₂ (pre ++ cs ++ ds) _ split_o at_op (op_byte o) _ refl) e₃
            ∙ ap (λ k. run n (moved_to vm stk₃ k))
                (omega (arith, length-append cs ds, length-append (cs ++ ds) ws)),
        v₃,
        c₃,
      )
