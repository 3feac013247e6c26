-- ===== src/Backend/Convention.antt =====
-- Calls and declarations agree on the places of the arguments.
use tatlang.Prelude.{
  ℕ, zero, suc, ◌+◌, ◌≡◌, refl, ap, sym, ◌∙◌, append_assoc, append-nil, Option, some, List, [], ◌∷◌,
  ◌++◌, length, arith,
}
use tatlang.Tree.{Name}
use tatlang.Backend.Lines.{Loc, reg, ram, Line, pop_loc, Cell, NameTable}
use tatlang.Backend.Names.{fresh_table, get_loc_in_order, new_loc, init_var, pop_cells, pop_level_0}
use tatlang.Backend.Codegen.Calls.{ret_var, init_params, func_table, pop_args}

-- The places of variables in their order: four registers, and then the cells of the memory.
abbrev pub place : ℕ → Loc
place zero = reg 0
place (suc zero) = reg 1
place (suc (suc zero)) = reg 2
place (suc (suc (suc zero))) = reg 3
place (suc (suc (suc (suc n)))) = ram n

get_loc_in_order-place : (n : ℕ) → get_loc_in_order n ≡ place n
unfolding get_loc_in_order
get_loc_in_order-place zero = refl
get_loc_in_order-place (suc zero) = refl
get_loc_in_order-place (suc (suc zero)) = refl
get_loc_in_order-place (suc (suc (suc zero))) = refl
get_loc_in_order-place (suc (suc (suc (suc n)))) = ground arith

new_loc-place : (n : ℕ) → new_loc n ≡ place n
unfolding new_loc
new_loc-place zero = refl
new_loc-place (suc zero) = refl
new_loc-place (suc (suc zero)) = refl
new_loc-place (suc (suc (suc zero))) = refl
new_loc-place (suc (suc (suc (suc n)))) = ground arith

suc_one : (n : ℕ) → suc n ≡ 1 + n
suc_one n = omega arith

module _ (F : Type 0) where
  pop_cells-append : (a b : List Cell) → pop_cells {F = F} (a ++ b) ≡ pop_cells b ++ pop_cells a
  pop_cells-append [] b = sym (append-nil (pop_cells b))
  pop_cells-append (c ∷ a) b =
      ap (λ x. x ++ pop_loc c.loc ∷ []) (pop_cells-append a b)
      ∙ append_assoc (pop_cells b) (pop_cells a) (pop_loc c.loc ∷ [])

  -- The pops to the places `k + n - 1` down to `k`.
  abbrev pop_range : ℕ → ℕ → List (Line F)
  pop_range k zero = []
  pop_range k (suc n) = pop_range (k + 1) n ++ pop_loc (place k) ∷ []

  pop_range-last : (n k : ℕ) → pop_range k (suc n) ≡ pop_loc (place (k + n)) ∷ pop_range k n
  pop_range-last zero k = ap (λ x. pop_loc (place x) ∷ []) (omega arith)
  pop_range-last (suc n) k =
      ap (λ x. x ++ pop_loc (place k) ∷ []) (pop_range-last n (k + 1))
      ∙ ap (λ x. pop_loc (place x) ∷ pop_range k (suc n)) (omega arith)

  -- The pops to the places of so many arguments, from the last to the first.
  abbrev pub pops : ℕ → List (Line F)
  pops zero = []
  pops (suc n) = pop_loc (place (suc n)) ∷ pops n

  pops-pop_range : (n : ℕ) → pops n ≡ pop_range 1 n
  pops-pop_range zero = refl
  pops-pop_range (suc n) =
      ap (λ x. pop_loc (place (suc n)) ∷ x) (pops-pop_range n)
      ∙ ap (λ x. pop_loc (place x) ∷ pop_range 1 n) (suc_one n)
      ∙ sym (pop_range-last n 1)

  pop_args-pops : (n : ℕ) → pop_args n ≡ pops n
  unfolding pop_args
  pop_args-pops zero = refl
  pop_args-pops (suc n) =
      ap (λ l. pop_loc l ∷ pop_args n) (get_loc_in_order-place (suc n))
      ∙ ap (λ x. pop_loc (place (suc n)) ∷ x) (pop_args-pops n)

  -- The parameters behind a table that has cells.
  init_params-pops :
      (xs : List (Option Name)) (t : NameTable) (k : ℕ) (c : Cell) (cs : List Cell)
      → t.cells ≡ c ∷ cs
      → pop_level_0 {F = F} (init_params xs t k).cells ≡ pop_range k (length xs) ++ pop_cells cs
  unfolding init_params init_var
  init_params-pops [] t k c cs e = rw e
  init_params-pops (x ∷ xs) t k c cs e =
      let added : Cell = record { name = x; loc = place k } in
      init_params-pops xs (init_var x t k) (k + 1) c (cs ++ added ∷ []) (
        ap (λ l. t.cells ++ record { name = x; loc = l } ∷ []) (new_loc-place k)
        ∙ ap (λ l. l ++ added ∷ []) e)
      ∙ ap (λ l. pop_range (k + 1) (length xs) ++ l) (pop_cells-append cs (added ∷ []))
      ∙ sym (append_assoc (pop_range (k + 1) (length xs)) (pop_loc (place k) ∷ []) (pop_cells cs))

-- A call pops as many arguments as a declaration has parameters to the places from the first to the
-- last of the parameters, in the other order: `rbx`, `rcx`, `rdx`, and then `[0]`, `[1]` and so on.
-- These are the places that `init_var` gives the parameters in the name table of the declaration.
pub pop_args-func_table :
    {F : Type 0} (params : List (Option Name))
    → (pop_args {F = F} (length params) ≡ pops F (length params))
      × (pop_level_0 {F = F} (func_table params).cells ≡ pops F (length params))
unfolding func_table init_var
pop_args-func_table {F} params = (
  pop_args-pops F (length params),
  init_params-pops F params (init_var (some ret_var) fresh_table 0) 1
        (record { name = some ret_var; loc = new_loc 0 }) [] refl
      ∙ append-nil (pop_range F 1 (length params))
      ∙ sym (pops-pop_range F (length params)),
)
