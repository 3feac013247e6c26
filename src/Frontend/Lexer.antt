-- ===== src/Frontend/Lexer.antt =====
-- Language/Frontend/src/frontend_secondary.cpp and frontend.cpp: the array of tokens and the loop
-- of `tokenize`. A function that moves `*symbs_ptr` returns the rest of the text.
use tatlang.Prelude.{
  ℕ, zero, suc, ◌-◌, ◌*◌, Bool, true, false, ◌||◌, Option, none, some, List, [], ◌∷◌, ◌++◌, length,
  ◌==◌, ltb, leb, if◌then◌else◌,
}
use tatlang.Double.{Double}
use tatlang.Tree.{Name, NodeType, NodeValue, Ops, num_val, op_val, var_val}
use tatlang.Parser.State.{Token}
use tatlang.Frontend.Symbols.{
  Text, is_number, is_op, is_blank, is_reserved, sign_type, get_op, skip_nums, skip_comment,
  get_symbs,
}
use tatlang.Frontend.Keywords.{is_kwd, max_token_size}

-- The errors of FRD_err_t that do not come from files or allocations.
pub data FrdError : Type 0 where
  frd_uknown_op frd_invalid_var_symbol : FrdError

-- `data` are the first `size` cells of the array.
pub record Tokens (F : Type 0) : Type 0 where
  pub items : List (Token F)
  pub capacity : ℕ

-- `fault` is an access out of the bounds of the text or of a name, `overflow` one of the array of
-- tokens; `out_of_fuel` has no counterpart in the program.
pub data Lexed (A : Type 0) : Type 0 where
  out_of_fuel fault overflow : Lexed A
  failed : FrdError → Lexed A
  lexed : A → Lexed A

infixl 1 ◌>>=◌
abbrev pub ◌>>=◌ : {A B : Type 0} → Lexed A → (A → Lexed B) → Lexed B
out_of_fuel >>= f = out_of_fuel
fault >>= f = fault
overflow >>= f = overflow
failed e >>= f = failed e
lexed a >>= f = f a

abbrev pub in_bounds : {A : Type 0} → Option A → Lexed A
in_bounds none = fault
in_bounds (some a) = lexed a

abbrev pub starter_tokens_amount : ℕ
starter_tokens_amount = 5

unfoldable pub init_tokens : {F : Type 0} → Tokens F
init_tokens = record { items = []; capacity = starter_tokens_amount }

unfoldable pub grow : {F : Type 0} → Tokens F → Tokens F
grow ts = if leb ts.capacity (length ts.items) then record ts { capacity = ts.capacity * 2 } else ts

-- `tokens->data[tokens->size] = ...; tokens->size++`.
unfoldable pub store : {F : Type 0} → Tokens F → Token F → Lexed (Tokens F)
store ts t =
    if ltb (length ts.items) ts.capacity
    then lexed (record ts { items = ts.items ++ t ∷ [] })
    else overflow

unfoldable pub add_token : {F : Type 0} → Tokens F → NodeType → NodeValue F → Lexed (Tokens F)
add_token ts ty v = store (grow ts) (record { type = ty; value = v })

-- The symbols up to a reserved one, for an array with `room` cells left; the last of them takes
-- the zero.
unfoldable pub get_symbols : Text → ℕ → Lexed (Name × Text)
get_symbols [] room = fault
get_symbols (c ∷ s) zero = fault
get_symbols (c ∷ s) (suc room) =
    let rest = get_symbols s room in
    if is_reserved c then lexed ([], c ∷ s) else (rest >>= λ r. lexed (c ∷ r.0, r.1))

-- What the array of a name holds as a string: the symbols in front of the first zero.
unfoldable pub c_name : Text → Name
c_name [] = []
c_name (c ∷ s) = let rest = c_name s in if c == 0 then [] else c ∷ rest

-- The name at the text and the text behind it; `none` is NULL.
unfoldable pub get_token : Text → Lexed (Option (Name × Text))
get_token [] = fault
get_token (c ∷ s) =
    if is_reserved c || is_number c
    then lexed none
    else (get_symbols s (max_token_size - 1) >>= λ r. lexed (some (c_name (c ∷ r.0), r.1)))

-- A state of the loop: the text from `symbs` on, and the tokens.
abbrev pub Scan : Type 0 → Type 0
Scan F = Text × Tokens F

-- `*(*symbs_ptr) == L'('`.
abbrev pub starts_call : Text → Lexed Bool
starts_call [] = fault
starts_call (c ∷ s) = lexed (c == b'(')

module _ {F : Type 0} ⦃d : Double F⦄ where
  abbrev pub add_word : Tokens F → Name → Bool → Option (NodeType × NodeValue F) → Lexed (Tokens F)
  add_word ts token is_func (some (ty, v)) = add_token ts ty v
  add_word ts token true none = add_token ts NodeType.func (var_val (some token))
  add_word ts token false none = add_token ts NodeType.var (var_val (some token))

  unfoldable pub add_id : Tokens F → Name → Bool → Lexed (Tokens F)
  add_id ts token is_func = add_word ts token is_func (is_kwd token)

  abbrev pub add_named : Tokens F → Option (Name × Text) → Lexed (Scan F)
  add_named ts none = failed frd_invalid_var_symbol
  add_named ts (some (token, s)) =
      starts_call s >>= λ is_func. add_id ts token is_func >>= λ ts'. lexed (s, ts')

  unfoldable pub process_id : Text → Tokens F → Lexed (Scan F)
  process_id s ts = get_token s >>= add_named ts

  abbrev pub add_op : Text → Tokens F → Option Ops → Lexed (Scan F)
  add_op s ts none = failed frd_uknown_op
  add_op s ts (some op) = add_token ts NodeType.op (op_val op) >>= λ ts'. lexed (s, ts')

  unfoldable pub process_op : Text → Tokens F → Lexed (Scan F)
  process_op [] ts = fault
  process_op (c ∷ s) ts = add_op s ts (get_op c)

  -- The cases of the switch, given the type of the sign. The Boolean is `*processed`.
  abbrev pub switch : ℕ → Text → Tokens F → ℕ → Option NodeType → Lexed (Bool × Scan F)
  switch c s ts left_amount (some ty) =
      add_token ts ty (num_val (d.of_nat 0)) >>= λ ts'. lexed (true, (s, ts'))
  switch c s ts left_amount none =
      if c == b'#'
      then (in_bounds (skip_comment (c ∷ s) left_amount) >>= λ s'. lexed (true, (s', ts)))
      else lexed (false, (c ∷ s, ts))

  unfoldable pub process_sym : Text → Tokens F → ℕ → Lexed (Bool × Scan F)
  process_sym [] ts left_amount = fault
  process_sym (c ∷ s) ts left_amount = switch c s ts left_amount (sign_type c)

  abbrev pub unless_processed : ℕ → Bool × Scan F → Lexed (Scan F)
  unless_processed c (true, r) = lexed r
  unless_processed c (false, (s, ts)) = if is_op c then process_op s ts else process_id s ts

-- `swscanf(symbs, L"%lf", &num)` is a parameter: what it reads from the start of a text.
module _ {F : Type 0} ⦃d : Double F⦄ (scan_double : Text → F) where
  unfoldable pub add_num : Text → Tokens F → Lexed (Scan F)
  add_num s ts = add_token ts NodeType.num (num_val (scan_double s)) >>= λ ts'.
      in_bounds (skip_nums s) >>= λ s'. lexed (s', ts')

  -- One round of the loop. `symbs - symbs_start` is what the rest lacks of the `file_len + 1`
  -- cells, so that `file_len` less that is one less than the rest has.
  unfoldable pub round : Text → Tokens F → Lexed (Scan F)
  round [] ts = fault
  round (c ∷ s) ts =
      if is_blank c
      then lexed (s, ts)
      else if is_number c
      then add_num (c ∷ s) ts
      else (process_sym (c ∷ s) ts (length s) >>= unless_processed c)

  unfoldable pub tokenize_loop : ℕ → Text → Tokens F → Lexed (Tokens F)
  tokenize_loop zero s ts = out_of_fuel
  tokenize_loop (suc n) s ts =
      if ltb 1 (length s) then (round s ts >>= λ r. tokenize_loop n r.0 r.1) else lexed ts

  -- `chars` are the symbols that fgetwc reads from the file, `file_len` its length in bytes.
  unfoldable pub tokenize : List ℕ → ℕ → Lexed (Tokens F)
  tokenize chars file_len =
      let symbs = get_symbs chars file_len in
      tokenize_loop (suc (length symbs)) symbs init_tokens >>= λ ts.
      add_token ts NodeType.end (num_val (d.of_nat 0))
