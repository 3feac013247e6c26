-- ===== src/Backend/Names.antt =====
-- The name tables of Language/Backend/src/backend_secondary.cpp: which register or memory cell
-- a variable has.
use tatlang.Prelude.{
  ℕ, ◌+◌, ◌-◌, ◌*◌, Bool, false, Option, none, some, List, [], ◌∷◌, ◌++◌, leb, if◌then◌else◌,
  length,
}
use tatlang.Tree.{Name, wcsncmp_eq}
use tatlang.Backend.Lines.{Loc, reg, ram, Line, push_loc, pop_loc, Cell, NameTable, Manager}

abbrev pub st_cells_amount : ℕ
st_cells_amount = 10

abbrev pub amount_of_regs : ℕ
amount_of_regs = 4

abbrev pub realloc_coeff : ℕ
realloc_coeff = 2

abbrev pub max_token_size : ℕ
max_token_size = 256

abbrev pub fresh_table : NameTable
fresh_table = record { cells = []; capacity = st_cells_amount }

unfoldable pub init_name_tables : Manager
init_name_tables = record { name_tables = some fresh_table ∷ []; in_func_start = false }

-- Where `name_tables` is NULL, `realloc` makes a table 0 that nothing initialises.
unfoldable pub upgrade_tables : List (Option NameTable) → List (Option NameTable)
upgrade_tables [] = some fresh_table ∷ none ∷ []
upgrade_tables (t ∷ ts) = some fresh_table ∷ t ∷ ts

unfoldable pub upgrade_n_table : Manager → Manager
unfolding upgrade_tables
upgrade_n_table m =
    if m.in_func_start
    then record m { in_func_start = false }
    else record m { name_tables = upgrade_tables m.name_tables }

-- At level 0 the tables are destroyed.
unfoldable pub downgrade_tables : List (Option NameTable) → List (Option NameTable)
downgrade_tables [] = []
downgrade_tables (t ∷ []) = []
downgrade_tables (t ∷ t' ∷ ts) = t' ∷ ts

unfoldable pub downgrade_n_table : Manager → Manager
unfolding downgrade_tables
downgrade_n_table m = record m { name_tables = downgrade_tables m.name_tables }

-- The place of the argument with a number, `get_loc_in_order`.
unfoldable pub get_loc_in_order : ℕ → Loc
get_loc_in_order arg_counter =
    if leb amount_of_regs arg_counter then ram (arg_counter - amount_of_regs) else reg arg_counter

-- The search of `get_loc`: a comparison through NULL is undefined, `missing` has `overall_size`.
pub data Found : Type 0 where
  undefined : Found
  found : Loc → Found
  missing : ℕ → Found

unfoldable pub search_cells : Option Name → List Cell → Found → Found
search_cells x [] rest = rest
search_cells none (c ∷ cs) rest = undefined
search_cells (some x) (c ∷ cs) rest =
    let more = search_cells (some x) cs rest in
    elim c.name [
      | none ↦ undefined
      | some y ↦ if wcsncmp_eq y x max_token_size then found c.loc else more
    ]

unfoldable pub search_tables : Option Name → List (Option NameTable) → ℕ → Found
search_tables x [] overall = missing overall
search_tables x (none ∷ ts) overall = undefined
search_tables x (some t ∷ ts) overall =
    search_cells x t.cells (search_tables x ts (overall + length t.cells))

-- The place that `init_var` gives a new variable behind so many others, and that it returns.
unfoldable pub new_loc : ℕ → Loc
new_loc overall_size =
    if leb amount_of_regs overall_size
    then ram (overall_size - amount_of_regs)
    else reg overall_size

unfoldable pub init_var : Option Name → NameTable → ℕ → NameTable
unfolding new_loc
init_var x t overall = record {
  cells = t.cells ++ record { name = x; loc = new_loc overall } ∷ [];
  capacity = if leb t.capacity (length t.cells) then t.capacity * realloc_coeff else t.capacity;
}

-- What `get_loc` returns: undefined behaviour, NULL, or a place and the tables after the call.
pub data LocResult : Type 0 where
  undefined_loc null_loc : LocResult
  loc_result : Loc → List (Option NameTable) → LocResult

unfoldable pub init_current : Option Name → List (Option NameTable) → ℕ → LocResult
unfolding init_var
init_current x [] overall = undefined_loc
init_current x (none ∷ ts) overall = undefined_loc
init_current x (some t ∷ ts) overall =
    loc_result (new_loc overall) (some (init_var x t overall) ∷ ts)

unfoldable pub get_loc_found : Option Name → List (Option NameTable) → Bool → Found → LocResult
unfolding init_current
get_loc_found x ts init_flag undefined = undefined_loc
get_loc_found x ts init_flag (found l) = loc_result l ts
get_loc_found x ts init_flag (missing overall) =
    if init_flag then init_current x ts overall else null_loc

unfoldable pub get_loc : Option Name → List (Option NameTable) → Bool → LocResult
unfolding search_tables search_cells get_loc_found
get_loc x [] init_flag = undefined_loc
get_loc x (t ∷ ts) init_flag = get_loc_found x (t ∷ ts) init_flag (search_tables x (t ∷ ts) 0)

module _ {F : Type 0} where
  abbrev pub push_cells : List Cell → List (Line F)
  push_cells [] = []
  push_cells (c ∷ cs) = push_loc c.loc ∷ push_cells cs

  -- The cells from the last to the first.
  abbrev pub pop_cells : List Cell → List (Line F)
  pop_cells [] = []
  pop_cells (c ∷ cs) = pop_cells cs ++ pop_loc c.loc ∷ []

  abbrev pub pop_level_0 : List Cell → List (Line F)
  pop_level_0 [] = []
  pop_level_0 (c ∷ cs) = pop_cells cs

  -- From the current level down; `none` is a read of a table that is not there.
  unfoldable pub push_levels : List (Option NameTable) → Option (List (Line F))
  push_levels [] = none
  push_levels (none ∷ ts) = none
  push_levels (some t ∷ []) = some (push_cells t.cells)
  push_levels (some t ∷ t' ∷ ts) = elim (push_levels (t' ∷ ts)) [
    | none ↦ none
    | some out ↦ some (push_cells t.cells ++ out)
  ]

  -- From level 0 up; the first cell of level 0 is left out.
  unfoldable pub pop_levels : List (Option NameTable) → Option (List (Line F))
  pop_levels [] = none
  pop_levels (none ∷ ts) = none
  pop_levels (some t ∷ []) = some (pop_level_0 t.cells)
  pop_levels (some t ∷ t' ∷ ts) = elim (pop_levels (t' ∷ ts)) [
    | none ↦ none
    | some out ↦ some (out ++ pop_cells t.cells)
  ]
