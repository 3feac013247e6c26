-- ===== src/Stack/Runs.antt =====
-- CPU/Stack/src/stack.cpp: no sequence of calls tells a stack from a list of doubles.
use tatlang.Prelude.{
  ℕ, zero, suc, ◌≤◌, ◌≡◌, refl, ap, sym, ◌∙◌, subst, false, Option, none, some, List, [], ◌∷◌, ◌++◌,
  length, take, arith,
}
use tatlang.Double.{Double}
use tatlang.Stack.{
  Stack, StackPopResult, all_good, size_zero, is_poisoned, resize, stack_ctor, stack_push,
  stack_pop, no_element,
}
use tatlang.Stack.Resize.{length-resize, IsClean, is_poisoned-resize}
use tatlang.Stack.Refines.{
  contents, IsValid, stack_push-contents, stack_pop-empty, stack_pop-contents,
}

pub data StackOp (F : Type 0) : Type 0 where
  push : F → StackOp F
  pop : StackOp F

-- What a call returns.
pub data Reply (F : Type 0) : Type 0 where
  to_push : ℕ → Reply F
  to_pop : StackPopResult F → Reply F

-- A list with the top first, upside down.
abbrev pub upward : {F : Type 0} → List F → List F
upward [] = []
upward (x ∷ xs) = upward xs ++ x ∷ []

length-take : {F : Type 0} (n : ℕ) (xs : List F) → n ≤ length xs → length (take n xs) ≡ n
length-take zero xs p = refl
length-take (suc n) [] p = absurd (omega (arith, p))
length-take (suc n) (x ∷ xs) p = ap suc (length-take n xs (omega (arith, p)))

pub size_of_contents :
    {F : Type 0} (stk : Stack F)
    → length stk.cells ≡ stk.capacity
    → stk.size ≤ stk.capacity
    → stk.size ≡ length (contents stk)
size_of_contents stk p q = sym (length-take stk.size stk.cells (omega (arith, p, q)))

pub length-snoc : {F : Type 0} (xs : List F) (x : F) → length (xs ++ x ∷ []) ≡ suc (length xs)
length-snoc [] x = refl
length-snoc (y ∷ xs) x = ap suc (length-snoc xs x)

pub snoc_injective :
    {F : Type 0} (xs ys : List F) (x y : F) → xs ++ x ∷ [] ≡ ys ++ y ∷ [] → (xs ≡ ys) × (x ≡ y)
snoc_injective [] [] x y e = (refl, cc)
snoc_injective [] (b ∷ []) x y e = cc
snoc_injective [] (b ∷ c ∷ ys) x y e = cc
snoc_injective (a ∷ []) [] x y e = cc
snoc_injective (a ∷ c ∷ xs) [] x y e = cc
snoc_injective (a ∷ xs) (b ∷ ys) x y e = let (p, q) = snoc_injective xs ys x y (cc) in (cc, q)

module _ {F : Type 0} ⦃d : Double F⦄ (data_poizon : F) where
  abbrev reply_push :
      Option (ℕ × Stack F) → (Stack F → Option (List (Reply F))) → Option (List (Reply F))
  reply_push none k = none
  reply_push (some (e, stk)) k = elim (k stk) [ none ↦ none | some rs ↦ some (to_push e ∷ rs) ]

  abbrev reply_pop :
      Option (StackPopResult F × Stack F)
      → (Stack F → Option (List (Reply F)))
      → Option (List (Reply F))
  reply_pop none k = none
  reply_pop (some (r, stk)) k = elim (k stk) [ none ↦ none | some rs ↦ some (to_pop r ∷ rs) ]

  -- The replies to a sequence of calls; `fresh i` is the memory of the call with `i` calls to come.
  unfoldable pub run : (ℕ → ℕ → F) → List (StackOp F) → Stack F → Option (List (Reply F))
  run fresh [] stk = some []
  run fresh (push v ∷ ops) stk =
      reply_push (stack_push data_poizon (fresh (length ops)) stk v) (run fresh ops)
  run fresh (pop ∷ ops) stk =
      reply_pop (stack_pop data_poizon (fresh (length ops)) stk) (run fresh ops)

  -- The replies of a list of doubles, the top first.
  abbrev pub run_list : List (StackOp F) → List F → List (Reply F)
  run_list [] xs = []
  run_list (push v ∷ ops) xs = to_push all_good ∷ run_list ops (v ∷ xs)
  run_list (pop ∷ ops) [] = to_pop (no_element data_poizon size_zero) ∷ run_list ops []
  run_list (pop ∷ ops) (x ∷ xs) =
      to_pop (record { error_code = all_good; deleted_element = x }) ∷ run_list ops xs

  abbrev pub PushesClean : List (StackOp F) → Type 0
  PushesClean [] = Unit
  PushesClean (push v ∷ ops) = IsClean data_poizon v × PushesClean ops
  PushesClean (pop ∷ ops) = PushesClean ops

  run-step_push :
      (fresh : ℕ → ℕ → F) (v : F) (ops : List (StackOp F)) (stk stk' : Stack F)
      (rs : List (Reply F))
      → stack_push data_poizon (fresh (length ops)) stk v ≡ some (all_good, stk')
      → run fresh ops stk' ≡ some rs
      → run fresh (push v ∷ ops) stk ≡ some (to_push all_good ∷ rs)
  unfolding run
  run-step_push fresh v ops stk stk' rs e r = rw (e, r) refl

  run-step_pop :
      (fresh : ℕ → ℕ → F) (ops : List (StackOp F)) (stk stk' : Stack F) (p : StackPopResult F)
      (rs : List (Reply F))
      → stack_pop data_poizon (fresh (length ops)) stk ≡ some (p, stk')
      → run fresh ops stk' ≡ some rs
      → run fresh (pop ∷ ops) stk ≡ some (to_pop p ∷ rs)
  unfolding run
  run-step_pop fresh ops stk stk' p rs e r = rw (e, r) refl

  run-represents :
      (fresh : ℕ → ℕ → F)
      → ((i j : ℕ) → IsClean data_poizon (fresh i j))
      → (ops : List (StackOp F)) (stk : Stack F) (xs : List F) → PushesClean ops
      → IsValid data_poizon stk
      → contents stk ≡ upward xs
      → run fresh ops stk ≡ some (run_list ops xs)
  run-represents fresh fresh_clean [] stk xs clean v e = unfold run in refl
  run-represents fresh fresh_clean (push x ∷ ops) stk xs (x_clean, clean) v e =
      let (stk', called, v', c) =
        stack_push-contents data_poizon (fresh (length ops)) stk x (fresh_clean (length ops))
          x_clean v in
      run-step_push fresh x ops stk stk' _ called
        (run-represents fresh fresh_clean ops stk' (x ∷ xs) clean v' (c ∙ ap (λ l. l ++ x ∷ []) e))
  run-represents fresh fresh_clean (pop ∷ ops) stk [] clean v e =
      run-step_pop fresh ops stk stk _ _
        (stack_pop-empty data_poizon (fresh (length ops)) stk v
          (size_of_contents stk v.allocated v.fits ∙ ap length e))
        (run-represents fresh fresh_clean ops stk [] clean v e)
  run-represents fresh fresh_clean (pop ∷ ops) stk (x ∷ xs) clean v e =
      let (x', stk', called, v', c) =
        stack_pop-contents data_poizon (fresh (length ops)) stk (length (upward xs))
          (fresh_clean (length ops)) v
          (size_of_contents stk v.allocated v.fits ∙ ap length e ∙ length-snoc (upward xs) x) in
      let (lower, top) = snoc_injective (upward xs) (contents stk') x x' (sym e ∙ c) in
      subst
        (λ y.
          run fresh (pop ∷ ops) stk
          ≡ some (to_pop (record { error_code = all_good; deleted_element = y }) ∷ run_list ops xs))
        (sym top)
        (run-step_pop fresh ops stk stk' _ _ called
          (run-represents fresh fresh_clean ops stk' xs clean v' (sym lower)))

  is_poisoned-zeros :
      (n i : ℕ)
      → IsClean data_poizon (d.of_nat 0)
      → is_poisoned data_poizon (resize (λ j. d.of_nat 0) i n []) ≡ false
  is_poisoned-zeros n i clean =
      is_poisoned-resize data_poizon (λ j. d.of_nat 0) n i [] (λ j. clean)
        (unfold is_poisoned in refl)

  -- A new stack of ten cells at most is valid, where a zero is not taken for the poison.
  pub ctor-IsValid :
      (n : ℕ)
      → n ≤ 10
      → IsClean data_poizon (d.of_nat 0)
      → IsValid data_poizon (stack_ctor data_poizon n)
  unfolding stack_ctor
  ctor-IsValid n p clean = record {
    allocated = length-resize (λ j. d.of_nat 0) n 0 [];
    fits = omega arith;
    clean = is_poisoned-zeros n 0 clean;
    compact = omega (arith, p);
  }

  -- From a new stack of ten cells at most, every sequence of calls gets the replies of a list of
  -- doubles, whatever `realloc` leaves in memory: where no value that is pushed, nothing in that
  -- memory and not the zero is taken for the poison.
  pub run-run_list :
      (fresh : ℕ → ℕ → F) (n : ℕ) (ops : List (StackOp F))
      → n ≤ 10
      → IsClean data_poizon (d.of_nat 0)
      → ((i j : ℕ) → IsClean data_poizon (fresh i j))
      → PushesClean ops
      → run fresh ops (stack_ctor data_poizon n) ≡ some (run_list ops [])
  run-run_list fresh n ops p zero_clean fresh_clean clean =
      run-represents fresh fresh_clean ops (stack_ctor data_poizon n) [] clean
        (ctor-IsValid n p zero_clean) (unfold stack_ctor in refl)
