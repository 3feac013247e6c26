-- ===== src/Backend/Lines.antt =====
-- The lines that Language/Backend writes into the assembly file, and how its functions return.
use tatlang.Prelude.{ℕ, Bool, Option, List, [], ◌++◌}
use tatlang.Tree.{Name, Ops}

-- The name of a register, `r%cx`, or of a cell of the memory, `[%lu]`.
pub data Loc : Type 0 where
  reg : ℕ → Loc
  ram : ℕ → Loc

-- The label of a `while`, of a jump out (`break_%lu`), of `main`, and of a function. Labels that
-- differ here may be printed as the same text, where a function has the name `break_0`.
pub data Label : Type 0 where
  while_label : ℕ → Label
  break_label : ℕ → Label
  main_label : Label
  func_label : Option Name → Label

pub data Jump : Type 0 where
  jmp je jne ja jb jae jbe call : Jump

-- `push_null` is `push (null)`, what `push %s` prints for a NULL.
pub data Line (F : Type 0) : Type 0 where
  push_int : ℕ → Line F
  push_num : F → Line F
  push_loc : Loc → Line F
  push_null : Line F
  pop_loc : Loc → Line F
  arithmetic : Ops → Line F
  label : Label → Line F
  jump : Jump → Label → Line F
  input output ret hlt : Line F

pub data BkdError : Type 0 where
  bkd_all_good unknown_operation unknown_func unknown_type invalid_node invalid_cond_expr : BkdError

pub record Cell : Type 0 where
  pub name : Option Name
  pub loc : Loc

-- `size` is the number of cells.
pub record NameTable : Type 0 where
  pub cells : List Cell
  pub capacity : ℕ

-- The tables from the current level down to level 0; the list is empty where `name_tables` is
-- NULL, and `none` is a table that was allocated and never initialised.
pub record Manager : Type 0 where
  pub name_tables : List (Option NameTable)
  pub in_func_start : Bool

-- How a function that writes lines ends: in undefined behaviour (a read through NULL or of a table
-- that was not initialised), or with its error code, the label counter, the manager and the lines.
pub data Outcome (F : Type 0) : Type 0 where
  fault : Outcome F
  done : BkdError → ℕ → Manager → List (Line F) → Outcome F

-- A function that reads the label counter and the manager.
abbrev pub Gen : Type 0 → Type 0
Gen F = ℕ → Manager → Outcome F

module _ {F : Type 0} where
  abbrev pub prepend : List (Line F) → Outcome F → Outcome F
  prepend out fault = fault
  prepend out (done e n m out') = done e n m (out ++ out')

  -- `ASMBL(...)` followed by the rest of a function: an error is returned at once.
  abbrev pub and_then : Outcome F → Gen F → Outcome F
  and_then fault k = fault
  and_then (done bkd_all_good n m out) k = prepend out (k n m)
  and_then (done e n m out) k = done e n m out

  infixr 4 ◌⟫◌
  abbrev pub ◌⟫◌ : Gen F → Gen F → Gen F
  ◌⟫◌ g k n m = and_then (g n m) k

  -- `CALL(...)` at the end of a function: `CHECK_ERROR` of backend_secondary.cpp returns
  -- BKD_ALL_GOOD where there is an error.
  abbrev pub swallow : Outcome F → Outcome F
  swallow fault = fault
  swallow (done e n m out) = done bkd_all_good n m out

  abbrev pub write : List (Line F) → Gen F
  write out n m = done bkd_all_good n m out

  abbrev pub fail : BkdError → Gen F
  fail e n m = done e n m []
