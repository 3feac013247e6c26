-- ===== src/Backend/Neat/Flow.antt =====
-- The labels of variables, operators, comparisons, loops and conditions.
use tatlang.Prelude.{
  ℕ, ◌+◌, ◌≡◌, refl, subst, true, false, Option, none, some, List, [], ◌∷◌, ◌++◌, arith,
}
use tatlang.Tree.{Name, NodeType, Ops}
use tatlang.Backend.Lines.{
  while_label, break_label, Line, label, jump, bkd_all_good, Manager, Outcome, fault, done, Gen,
  prepend, and_then, ◌⟫◌, write, Jump, push_int, je, jmp, arithmetic,
}
use tatlang.Backend.Names.{get_loc, LocResult, undefined_loc, null_loc, loc_result}
use tatlang.Backend.Codegen.{
  write_var, pop_to, write_op, get_cond_type, write_cond_jump, write_cond_expr, write_while,
  write_if,
}
use tatlang.Backend.Labels.{
  ValidOp, count-append, Tidy, Neat, defines_break, defines_while, jumps_break, jumps_while,
}
use tatlang.Backend.Neat.{NeatGen, Silent-Tidy, write-NeatGen, ⟫-NeatGen}

module _ (F : Type 0) (k : ℕ) where
  pub write_var-NeatGen : (x : Option Name) → NeatGen F k (write_var x)
  unfolding write_var
  write_var-NeatGen x n m = go (get_loc x m.name_tables false)
    where
      go :
          (r : LocResult)
          → Neat {F = F} k n (elim r [
            | undefined_loc ↦ fault
            | null_loc ↦ done bkd_all_good n m (Line.push_null ∷ [])
            | loc_result l ts ↦
                done bkd_all_good n (record m { name_tables = ts }) (Line.push_loc l ∷ [])
          ])
      go undefined_loc = tt
      go null_loc = (refl, Silent-Tidy F k n _ (refl, refl, refl, refl))
      go (loc_result l ts) = (refl, Silent-Tidy F k n _ (refl, refl, refl, refl))

  pub pop_to-NeatGen : (x : Option (Option Name)) → NeatGen F k (pop_to x)
  unfolding pop_to
  pop_to-NeatGen none n m = tt
  pop_to-NeatGen (some x) n m = go (get_loc x m.name_tables true)
    where
      go :
          (r : LocResult)
          → Neat {F = F} k n (elim r [
            | undefined_loc ↦ fault
            | null_loc ↦ fault
            | loc_result l ts ↦
                done bkd_all_good n (record m { name_tables = ts }) (Line.pop_loc l ∷ [])
          ])
      go undefined_loc = tt
      go null_loc = tt
      go (loc_result l ts) = (refl, Silent-Tidy F k n _ (refl, refl, refl, refl))

  pub write_op-NeatGen :
      (o : Ops) (left right : Gen F) (x : Option (Option Name))
      → ValidOp o (NeatGen F k left) (NeatGen F k right)
      → NeatGen F k (write_op o left right x)
  unfolding write_op
  write_op-NeatGen Ops.ass left right x h = ⟫-NeatGen F k right (pop_to x) h (pop_to-NeatGen x)
  write_op-NeatGen Ops.do_nothing left right x h = absurd h
  write_op-NeatGen o left right x h = ⟫-NeatGen F k left (right ⟫ write (arithmetic o ∷ [])) h.0 (
      ⟫-NeatGen F k right (write (arithmetic o ∷ [])) h.1
        (write-NeatGen F k _ (refl, refl, refl, refl)))

  cond_jump-NeatGen : (c : Jump) → NeatGen F k (write_cond_jump c)
  unfolding write_cond_jump
  cond_jump-NeatGen c n m = (refl, ground arith)

  pub write_cond_expr-NeatGen :
      (ty : NodeType) (left right : Gen F) (c : Jump)
      → get_cond_type ty ≡ some c
      → NeatGen F k left
      → NeatGen F k right
      → NeatGen F k (write_cond_expr ty left right)
  unfolding write_cond_expr
  write_cond_expr-NeatGen ty left right c e hl hr n m =
      rw (e, write_cond_expr)
        (⟫-NeatGen F k (write (push_int 0 ∷ [])) (right ⟫ left ⟫ write_cond_jump c)
          (write-NeatGen F k _ (refl, refl, refl, refl))
          (⟫-NeatGen F k right (left ⟫ write_cond_jump c) hr
            (⟫-NeatGen F k left (write_cond_jump c) hl (cond_jump-NeatGen c)))
          n m)

  -- The lines of a loop around those of its condition and of its body.
  while-Tidy :
      (n n₁ n₂ : ℕ) (c b : List (Line F))
      → Tidy k (n + 1) n₁ c
      → Tidy k n₁ n₂ b
      → Tidy k n n₂ (
          label (while_label n)
          ∷ (c
              ++ push_int 0
                ∷ jump je (break_label n)
                ∷ (b ++ jump jmp (while_label n) ∷ label (break_label n) ∷ [])))
  while-Tidy n n₁ n₂ c b hc hb =
      let last = jump jmp (while_label n) ∷ label (break_label n) ∷ [] in
      let rest = push_int 0 ∷ jump je (break_label n) ∷ (b ++ last) in
      ground (
        arith,
        count-append (defines_break k) c rest,
        count-append (jumps_break k) c rest,
        count-append (defines_while k) c rest,
        count-append (jumps_while k) c rest,
        count-append (defines_break k) b last,
        count-append (jumps_break k) b last,
        count-append (defines_while k) b last,
        count-append (jumps_while k) b last,
      )

  if-Tidy :
      (n n₁ n₂ : ℕ) (c b : List (Line F))
      → Tidy k n n₁ c
      → Tidy k n₁ n₂ b
      → Tidy k n
          (n₂ + 1)
          (c ++ push_int 0 ∷ jump je (break_label n₁) ∷ (b ++ label (break_label n₂) ∷ []))
  if-Tidy n n₁ n₂ c b hc hb =
      let last = label (break_label n₂) ∷ [] in
      let rest = push_int 0 ∷ jump je (break_label n₁) ∷ (b ++ last) in
      ground (
        arith,
        count-append (defines_break k) c rest,
        count-append (jumps_break k) c rest,
        count-append (defines_while k) c rest,
        count-append (jumps_while k) c rest,
        count-append (defines_break k) b last,
        count-append (jumps_break k) b last,
        count-append (defines_while k) b last,
        count-append (jumps_while k) b last,
      )

  prepend-nil : (o : Outcome F) → prepend [] o ≡ o
  prepend-nil fault = refl
  prepend-nil (done e n m out) = refl

  -- A condition and a body, with lines in front, between them and behind them.
  around :
      (n' n : ℕ) (m : Manager) (pre : List (Line F)) (mid last : ℕ → List (Line F)) (next : ℕ → ℕ)
      (cond body : Gen F)
      → Neat k n (cond n m)
      → NeatGen F k body
      → ((n₁ n₂ : ℕ) (c b : List (Line F))
          → Tidy k n n₁ c
          → Tidy k n₁ n₂ b
          → Tidy k n' (next n₂) (pre ++ (c ++ (mid n₁ ++ (b ++ last n₂)))))
      → Neat k n' (
          prepend pre (
            (cond
                ⟫ (λ n m. done bkd_all_good n m (mid n))
                ⟫ body
                ⟫ (λ n m. done bkd_all_good (next n) m (last n)))
              n m))
  around n' n m pre mid last next cond body hc hb whole = go (cond n m) hc
    where
      behind :
          (n₁ : ℕ) (c : List (Line F)) (o : Outcome F)
          → Tidy k n n₁ c
          → Neat k n₁ o
          → Neat k n' (
              prepend pre (
                prepend c
                  (prepend (mid n₁) (and_then o (λ n m. done bkd_all_good (next n) m (last n))))))
      behind n₁ c fault tc ho = tt
      behind n₁ c (done bkd_all_good n₂ m out) tc ho = (refl, whole n₁ n₂ c out tc ho.1)
      behind n₁ c (done _ n₂ m out) tc ho = cc

      go :
          (o : Outcome F)
          → Neat k n o
          → Neat k n' (
              prepend pre (
                and_then o (
                  (λ n m. done bkd_all_good n m (mid n))
                  ⟫ body
                  ⟫ (λ n m. done bkd_all_good (next n) m (last n)))))
      go fault ho = tt
      go (done bkd_all_good n₁ m₁ c) ho = behind n₁ c (body n₁ m₁) ho.1 (hb n₁ m₁)
      go (done _ n₁ m₁ c) ho = cc

  pub write_while-NeatGen :
      (cond body : Gen F)
      → NeatGen F k cond
      → NeatGen F k body
      → NeatGen F k (write_while cond body)
  unfolding write_while
  write_while-NeatGen cond body hc hb n m =
      around n (n + 1) m (label (while_label n) ∷ [])
        (λ n₁. push_int 0 ∷ jump je (break_label n) ∷ [])
        (λ n₂. jump jmp (while_label n) ∷ label (break_label n) ∷ []) (λ n₂. n₂) cond body
        (hc (n + 1) m) hb (while-Tidy n)

  pub write_if-NeatGen :
      (cond body : Gen F) → NeatGen F k cond → NeatGen F k body → NeatGen F k (write_if cond body)
  unfolding write_if
  write_if-NeatGen cond body hc hb n m = subst (Neat k n) (prepend-nil _) (
      around n n m [] (λ n₁. push_int 0 ∷ jump je (break_label n₁) ∷ [])
        (λ n₂. label (break_label n₂) ∷ []) (λ n₂. n₂ + 1) cond body (hc n m) hb (if-Tidy n))
