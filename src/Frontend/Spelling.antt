-- ===== src/Frontend/Spelling.antt =====
-- How a program text spells tokens, described without the functions that read it: the symbols of
-- signs, operators and keywords as tables, and which texts stand for which tokens.
use tatlang.Prelude.{
  ℕ, ◌≡◌, Bool, true, false, not, ◌&&◌, ◌||◌, some, ltb, List, [], ◌∷◌, ◌++◌, length, ◌==◌,
}
use tatlang.Double.{Double}
use tatlang.Tree.{Name, NodeType, Ops, StdFunc, num_val, op_val, var_val, func_val}
use tatlang.Parser.State.{Token}
use tatlang.Frontend.Symbols.{Text, codes, is_number, is_num_symbol, is_reserved}

pub data Sign : Type 0 where
  left_paren right_paren left_brace right_brace semicolon comma : Sign
  greater smaller at_least at_most equals differs : Sign

abbrev pub sign_symbol : Sign → ℕ
sign_symbol left_paren = b'('
sign_symbol right_paren = b')'
sign_symbol left_brace = b'{'
sign_symbol right_brace = b'}'
sign_symbol semicolon = b';'
sign_symbol comma = b','
sign_symbol greater = b'>'
sign_symbol smaller = b'<'
sign_symbol at_least = 0x2265
sign_symbol at_most = 0x2264
sign_symbol equals = 0x2261
sign_symbol differs = 0x2260

abbrev pub sign_node : Sign → NodeType
sign_node left_paren = NodeType.open_br
sign_node right_paren = NodeType.close_br
sign_node left_brace = NodeType.open_cbr
sign_node right_brace = NodeType.close_cbr
sign_node semicolon = NodeType.semicolon
sign_node comma = NodeType.comma
sign_node greater = NodeType.above
sign_node smaller = NodeType.below
sign_node at_least = NodeType.above_equal
sign_node at_most = NodeType.below_equal
sign_node equals = NodeType.equal
sign_node differs = NodeType.not_equal

pub data Operator : Type 0 where
  plus minus times over hat assigns : Operator

abbrev pub operator_symbol : Operator → ℕ
operator_symbol plus = b'+'
operator_symbol minus = b'-'
operator_symbol times = b'*'
operator_symbol over = b'/'
operator_symbol hat = b'^'
operator_symbol assigns = b'='

abbrev pub operator_op : Operator → Ops
operator_op plus = Ops.add
operator_op minus = Ops.sub
operator_op times = Ops.mul
operator_op over = Ops.div
operator_op hat = Ops.pow
operator_op assigns = Ops.ass

pub data Keyword : Type 0 where
  while_kwd if_kwd sin_kwd cos_kwd ln_kwd sqrt_kwd getvar_kwd putexpr_kwd : Keyword
  declare_kwd return_kwd main_kwd : Keyword

abbrev pub keyword_name : Keyword → Name
keyword_name while_kwd = codes "булганда"
keyword_name if_kwd = codes "әгәр"
keyword_name sin_kwd = codes "син"
keyword_name cos_kwd = codes "кос"
keyword_name ln_kwd = codes "лн"
keyword_name sqrt_kwd = codes "тамырасты"
keyword_name getvar_kwd = codes "алалмаш"
keyword_name putexpr_kwd = codes "мисалныяз"
keyword_name declare_kwd = codes "белдерү"
keyword_name return_kwd = codes "киребир"
keyword_name main_kwd = codes "рәис"

abbrev pub all : (ℕ → Bool) → Text → Bool
all p [] = true
all p (c ∷ s) = p c && all p s

-- A name is not longer than 255 symbols, and neither a digit, nor a brace, nor the zero that
-- ends a text begins it.
abbrev pub is_name : Name → Bool
is_name [] = false
is_name (c ∷ w) =
    not (is_reserved c || is_number c || c == 0 || c == b'{' || c == b'}')
    && all (λ x. not (is_reserved x)) w
    && ltb (length w) 255

-- No zero ends the name within it.
abbrev pub is_string : Name → Bool
is_string w = all (λ c. not (c == 0)) w

abbrev pub in_line : ℕ → Bool
in_line c = not (c == b'\n')

abbrev pub IsKeyword : Name → Type 0
IsKeyword w = (k : Keyword) × (w ≡ keyword_name k)

-- What stands behind a number, and behind a name that is not called.
abbrev pub EndsNumber : Text → Type 0
EndsNumber [] = ⊥
EndsNumber (c ∷ s) = is_num_symbol c ≡ false

abbrev pub EndsName : Text → Type 0
EndsName [] = ⊥
EndsName (c ∷ s) = (is_reserved c ≡ true) × ((c == b'(') ≡ false)

-- The blanks that the texts of programs hold, and the zeros behind a text.
pub data Blank : Type 0 where
  space newline tab filling : Blank

abbrev pub blank_symbol : Blank → ℕ
blank_symbol space = b' '
blank_symbol newline = b'\n'
blank_symbol tab = b'\t'
blank_symbol filling = 0

module _ {F : Type 0} ⦃d : Double F⦄ where
  abbrev pub keyword_token : Keyword → Token F
  keyword_token while_kwd = record { type = NodeType.while_node; value = num_val (d.of_nat 0) }
  keyword_token if_kwd = record { type = NodeType.if_node; value = num_val (d.of_nat 0) }
  keyword_token sin_kwd = record { type = NodeType.unr_op; value = op_val Ops.sin }
  keyword_token cos_kwd = record { type = NodeType.unr_op; value = op_val Ops.cos }
  keyword_token ln_kwd = record { type = NodeType.unr_op; value = op_val Ops.ln }
  keyword_token sqrt_kwd = record { type = NodeType.unr_op; value = op_val Ops.sqrt }
  keyword_token getvar_kwd = record { type = NodeType.std_func; value = func_val StdFunc.getvar }
  keyword_token putexpr_kwd = record { type = NodeType.std_func; value = func_val StdFunc.putexpr }
  keyword_token declare_kwd = record { type = NodeType.declare; value = num_val (d.of_nat 0) }
  keyword_token return_kwd = record { type = NodeType.return_node; value = num_val (d.of_nat 0) }
  keyword_token main_kwd = record { type = NodeType.main; value = num_val (d.of_nat 0) }

  abbrev pub sign_token : NodeType → Token F
  sign_token ty = record { type = ty; value = num_val (d.of_nat 0) }

  abbrev pub operator_token : Operator → Token F
  operator_token o = record { type = NodeType.op; value = op_val (operator_op o) }

  abbrev pub name_token : NodeType → Name → Token F
  name_token ty w = record { type = ty; value = var_val (some w) }

  -- The memory from some symbol on, up to the zero behind the text, and the tokens that it spells.
  pub data Spells (scan_double : Text → F) : Text → List (Token F) → Type 0 where
    stop : Spells scan_double (0 ∷ []) []
    last_comment : (w : Text) → all in_line w ≡ true → Spells scan_double (b'#' ∷ w) []
    comment :
        (w s : Text) (ts : List (Token F))
        → all in_line w ≡ true
        → Spells scan_double s ts
        → Spells scan_double (b'#' ∷ (w ++ b'\n' ∷ s)) ts
    blank :
        (k : Blank) (s : Text) (ts : List (Token F))
        → Spells scan_double s ts
        → Spells scan_double (blank_symbol k ∷ s) ts
    sign :
        (k : Sign) (s : Text) (ts : List (Token F))
        → Spells scan_double s ts
        → Spells scan_double (sign_symbol k ∷ s) (sign_token (sign_node k) ∷ ts)
    operator :
        (o : Operator) (s : Text) (ts : List (Token F))
        → Spells scan_double s ts
        → Spells scan_double (operator_symbol o ∷ s) (operator_token o ∷ ts)
    number :
        (c : ℕ) (w s : Text) (ts : List (Token F))
        → is_number c ≡ true
        → all is_num_symbol w ≡ true
        → EndsNumber s
        → Spells scan_double s ts
        → Spells scan_double
            (c ∷ (w ++ s))
            (record { type = NodeType.num; value = num_val (scan_double (c ∷ (w ++ s))) } ∷ ts)
    keyword :
        (k : Keyword) (c : ℕ) (s : Text) (ts : List (Token F))
        → is_reserved c ≡ true
        → Spells scan_double (c ∷ s) ts
        → Spells scan_double (keyword_name k ++ c ∷ s) (keyword_token k ∷ ts)
    called :
        (w s : Text) (ts : List (Token F))
        → is_name w ≡ true
        → is_string w ≡ true
        → (IsKeyword w → ⊥)
        → Spells scan_double (b'(' ∷ s) ts
        → Spells scan_double (w ++ b'(' ∷ s) (name_token NodeType.func w ∷ ts)
    variable :
        (w s : Text) (ts : List (Token F))
        → is_name w ≡ true
        → is_string w ≡ true
        → (IsKeyword w → ⊥)
        → EndsName s
        → Spells scan_double s ts
        → Spells scan_double (w ++ s) (name_token NodeType.var w ∷ ts)
