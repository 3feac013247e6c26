-- ===== src/Backend/Neat/Calls.antt =====
-- The labels of calls, declarations and the standard functions.
use tatlang.Prelude.{
  ℕ, zero, suc, refl, leb, Bool, true, false, Option, none, some, List, [], ◌∷◌, ◌++◌,
  if◌then◌else◌, arith, length,
}
use tatlang.Tree.{Name, StdFunc, getvar, putexpr}
use tatlang.Backend.Lines.{
  reg, func_label, Line, jump, bkd_all_good, Manager, Outcome, fault, done, Gen, prepend, write,
  Cell, NameTable, Jump,
}
use tatlang.Backend.Names.{
  push_cells, pop_cells, pop_level_0, push_levels, pop_levels, get_loc, LocResult, undefined_loc,
  null_loc, loc_result,
}
use tatlang.Backend.Codegen.Calls.{
  temp_exch, push_all, pop_all, pop_args, write_args, save_ret_reg, return_value, write_func,
  in_function, write_main, write_func_decl, write_return, write_std_func,
}
use tatlang.Backend.Codegen.{pop_to, write_getvar, write_putexpr}
use tatlang.Backend.Labels.{Neat}
use tatlang.Backend.Neat.{
  NeatGen, Tidy-append, Neat-and_then, Silent, Silent-Tidy, Silent-append, write-NeatGen, ⟫-NeatGen,
}
use tatlang.Backend.Neat.Flow.{pop_to-NeatGen}

module _ (F : Type 0) (k : ℕ) where
  push_cells-Silent : (cs : List Cell) → Silent F k (push_cells cs)
  push_cells-Silent [] = (refl, refl, refl, refl)
  push_cells-Silent (c ∷ cs) = ground (arith, push_cells-Silent cs)

  pop_cells-Silent : (cs : List Cell) → Silent F k (pop_cells cs)
  pop_cells-Silent [] = (refl, refl, refl, refl)
  pop_cells-Silent (c ∷ cs) =
      Silent-append F k (pop_cells cs) (Line.pop_loc c.loc ∷ []) (pop_cells-Silent cs)
        (refl, refl, refl, refl)

  pop_level_0-Silent : (cs : List Cell) → Silent F k (pop_level_0 cs)
  pop_level_0-Silent [] = (refl, refl, refl, refl)
  pop_level_0-Silent (c ∷ cs) = pop_cells-Silent cs

  -- The lines of `push_all` and `pop_all`, where there are any.
  abbrev SilentOption : Option (List (Line F)) → Type 0
  SilentOption none = Unit
  SilentOption (some out) = Silent F k out

  push_levels-Silent : (ts : List (Option NameTable)) → SilentOption (push_levels ts)
  unfolding push_levels
  push_levels-Silent [] = tt
  push_levels-Silent (none ∷ ts) = tt
  push_levels-Silent (some t ∷ []) = push_cells-Silent t.cells
  push_levels-Silent (some t ∷ t' ∷ ts) = go (push_levels (t' ∷ ts)) (push_levels-Silent (t' ∷ ts))
    where
      go :
          (o : Option (List (Line F)))
          → SilentOption o
          → SilentOption (elim o [ none ↦ none | some out ↦ some (push_cells t.cells ++ out) ])
      go none h = tt
      go (some out) h = Silent-append F k (push_cells t.cells) out (push_cells-Silent t.cells) h

  pop_levels-Silent : (ts : List (Option NameTable)) → SilentOption (pop_levels ts)
  unfolding pop_levels
  pop_levels-Silent [] = tt
  pop_levels-Silent (none ∷ ts) = tt
  pop_levels-Silent (some t ∷ []) = pop_level_0-Silent t.cells
  pop_levels-Silent (some t ∷ t' ∷ ts) = go (pop_levels (t' ∷ ts)) (pop_levels-Silent (t' ∷ ts))
    where
      go :
          (o : Option (List (Line F)))
          → SilentOption o
          → SilentOption (elim o [ none ↦ none | some out ↦ some (out ++ pop_cells t.cells) ])
      go none h = tt
      go (some out) h = Silent-append F k out (pop_cells t.cells) h (pop_cells-Silent t.cells)

  -- A writer that leaves the counter and writes silent lines, if any.
  silent_lines :
      (n : ℕ) (m : Manager) (o : Option (List (Line F)))
      → SilentOption o
      → Neat k n (elim o [ none ↦ fault | some out ↦ done bkd_all_good n m out ])
  silent_lines n m none h = tt
  silent_lines n m (some out) h = (refl, Silent-Tidy F k n out h)

  push_all-NeatGen : NeatGen F k push_all
  unfolding push_all
  push_all-NeatGen n m = silent_lines n m _ (push_levels-Silent m.name_tables)

  pop_all-NeatGen : NeatGen F k pop_all
  unfolding pop_all
  pop_all-NeatGen n m = silent_lines n m _ (pop_levels-Silent m.name_tables)

  pop_args-Silent : (n : ℕ) → Silent F k (pop_args n)
  unfolding pop_args
  pop_args-Silent zero = (refl, refl, refl, refl)
  pop_args-Silent (suc n) = ground (arith, pop_args-Silent n)

  save_ret_reg-NeatGen : (b : Bool) → NeatGen F k (save_ret_reg b)
  unfolding save_ret_reg
  save_ret_reg-NeatGen false n m = (refl, Silent-Tidy F k n _ (refl, refl, refl, refl))
  save_ret_reg-NeatGen true n m = go (get_loc (some temp_exch) m.name_tables true)
    where
      go :
          (r : LocResult)
          → Neat {F = F} k n (elim r [
            | undefined_loc ↦ fault
            | null_loc ↦ fault
            | loc_result l ts ↦
                done bkd_all_good n
                  (record m { name_tables = ts })
                  (Line.pop_loc l
                    ∷ Line.push_loc (reg 0)
                    ∷ Line.push_loc l
                    ∷ Line.pop_loc (reg 0)
                    ∷ [])
          ])
      go undefined_loc = tt
      go null_loc = tt
      go (loc_result l ts) = (refl, Silent-Tidy F k n _ (refl, refl, refl, refl))

  return_value-NeatGen : (b : Bool) (ts : List (Option NameTable)) → NeatGen F k (return_value b ts)
  unfolding return_value
  return_value-NeatGen b [] n m = tt
  return_value-NeatGen b (none ∷ []) n m = tt
  return_value-NeatGen b (some t ∷ []) n m = go b (leb (length t.cells) 0)
    where
      go :
          (b empty : Bool)
          → Neat {F = F} k n (
              (if empty
                  then write (if b then Line.push_loc (reg 0) ∷ [] else [])
                  else save_ret_reg b)
                n m)
      go true true = (refl, Silent-Tidy F k n _ (refl, refl, refl, refl))
      go false true = (refl, Silent-Tidy F k n _ (refl, refl, refl, refl))
      go b false = save_ret_reg-NeatGen b n m
  return_value-NeatGen b (none ∷ t' ∷ ts) n m = save_ret_reg-NeatGen b n m
  return_value-NeatGen b (some t ∷ t' ∷ ts) n m = save_ret_reg-NeatGen b n m

  abbrev pub NeatGens : List (Gen F) → Type 0
  NeatGens [] = Unit
  NeatGens (g ∷ gs) = NeatGen F k g × NeatGens gs

  write_args-NeatGen : (gs : List (Gen F)) → NeatGens gs → NeatGen F k (write_args gs)
  unfolding write_args
  write_args-NeatGen [] h = write-NeatGen F k [] (refl, refl, refl, refl)
  write_args-NeatGen (g ∷ gs) h = ⟫-NeatGen F k g (write_args gs) h.0 (write_args-NeatGen gs h.1)

  pub write_func-NeatGen :
      (b : Bool) (name : Option Name) (args : List (Gen F))
      → NeatGens args
      → NeatGen F k (write_func b name args)
  unfolding write_func
  write_func-NeatGen b name args h = ⟫-NeatGen F k push_all _ push_all-NeatGen (
      ⟫-NeatGen F k (write_args args) _ (write_args-NeatGen args h) (
        ⟫-NeatGen F k (write (pop_args (length args))) _
          (write-NeatGen F k _ (pop_args-Silent (length args)))
          (⟫-NeatGen F k (write (jump Jump.call (func_label name) ∷ [])) _
            (write-NeatGen F k _ (refl, refl, refl, refl))
            (⟫-NeatGen F k pop_all _ pop_all-NeatGen
              (λ n m. return_value-NeatGen b m.name_tables n m)))))

  -- A function body under its label.
  labelled :
      (n : ℕ) (m : Manager) (l : Line F) (o : Outcome F)
      → Silent F k (l ∷ [])
      → Neat k n o
      → Neat k n (prepend (l ∷ []) (in_function o m))
  labelled n m l fault hl ho = tt
  labelled n m l (done e n' m' out) hl ho =
      (refl, Tidy-append F k n n n' (l ∷ []) out (Silent-Tidy F k n _ hl) ho.1)

  pub write_main-NeatGen : (body : Gen F) → NeatGen F k body → NeatGen F k (write_main body)
  unfolding write_main
  write_main-NeatGen body h n m = labelled n m _ (body n _) (refl, refl, refl, refl) (h n _)

  pub write_func_decl-NeatGen :
      (name : Option Name) (ps : Option (List (Option Name))) (body : Gen F)
      → NeatGen F k body
      → NeatGen F k (write_func_decl name ps body)
  unfolding write_func_decl
  write_func_decl-NeatGen name none body h n m = tt
  write_func_decl-NeatGen name (some ps) body h n m =
      Neat-and_then F k n _ (write (Line.ret ∷ []))
        (labelled n m _ (body n _) (refl, refl, refl, refl) (h n _))
        (write-NeatGen F k _ (refl, refl, refl, refl))

  pub write_return-NeatGen : (right : Gen F) → NeatGen F k right → NeatGen F k (write_return right)
  unfolding write_return
  write_return-NeatGen right h =
      ⟫-NeatGen F k right _ h (write-NeatGen F k _ (refl, refl, refl, refl))

  pub write_std_func-NeatGen :
      (f : StdFunc) (right : Gen F) (x : Option (Option Name))
      → NeatGen F k right
      → NeatGen F k (write_std_func f right x)
  unfolding write_std_func write_getvar write_putexpr
  write_std_func-NeatGen getvar right x h =
      ⟫-NeatGen F k (write (Line.input ∷ [])) (pop_to x)
        (write-NeatGen F k _ (refl, refl, refl, refl)) (pop_to-NeatGen F k x)
  write_std_func-NeatGen putexpr right x h =
      ⟫-NeatGen F k right _ h (write-NeatGen F k _ (refl, refl, refl, refl))
