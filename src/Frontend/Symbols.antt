-- ===== src/Frontend/Symbols.antt =====
-- Language/Frontend/src/frontend_secondary.cpp: the tests on symbols, and the functions that move
-- along the text. A pointer into the text is the rest of the array from there on, its last cell
-- the terminating zero; reading behind that cell gives `none`.
use Prim.Native.Char.{code}
use Prim.Native.String.{String}
use tatlang.Prelude.{
  ℕ, zero, suc, Bool, ◌&&◌, ◌||◌, Option, none, some, List, [], ◌∷◌, ◌==◌, leb, if◌then◌else◌,
}
use tatlang.Tree.{NodeType, Ops}

abbrev pub Text : Type 0
Text = List ℕ

-- The symbols of a literal.
abbrev pub codes : String → Text
codes String.[] = []
codes (String.◌∷◌ c s) = code c ∷ codes s

unfoldable pub is_number : ℕ → Bool
is_number c = leb b'0' c && leb c b'9'

-- The symbols of a number: digits and points.
unfoldable pub is_num_symbol : ℕ → Bool
unfolding is_number
is_num_symbol c = is_number c || c == b'.'

unfoldable pub is_op : ℕ → Bool
is_op c = c == b'+' || c == b'-' || c == b'*' || c == b'/' || c == b'=' || c == b'^'

unfoldable pub is_blank : ℕ → Bool
is_blank c = c == b' ' || c == b'\n' || c == 0 || c == b'\t'

unfoldable pub is_reserved : ℕ → Bool
is_reserved c =
    c == b'('
    || c == b')'
    || c == b';'
    || c == b','
    || c == b'\n'
    || c == b'\t'
    || c == b' '
    || c == b'+'
    || c == b'-'
    || c == b'*'
    || c == b'/'
    || c == b'^'
    || c == b'='
    || c == b'>'
    || c == b'<'
    || c == 0x2265
    || c == 0x2264
    || c == 0x2261
    || c == 0x2260
    || c == b'#'

-- The cases of the switch in `process_sym`, except for `#`.
unfoldable pub sign_type : ℕ → Option NodeType
sign_type c =
    if c == b'('
    then some NodeType.open_br
    else if c == b')'
    then some NodeType.close_br
    else if c == b'{'
    then some NodeType.open_cbr
    else if c == b'}'
    then some NodeType.close_cbr
    else if c == b';'
    then some NodeType.semicolon
    else if c == b','
    then some NodeType.comma
    else if c == b'>'
    then some NodeType.above
    else if c == b'<'
    then some NodeType.below
    else if c == 0x2265
    then some NodeType.above_equal
    else if c == 0x2264
    then some NodeType.below_equal
    else if c == 0x2261
    then some NodeType.equal
    else if c == 0x2260
    then some NodeType.not_equal
    else none

-- `none` is FRD_UKNOWN_OP.
unfoldable pub get_op : ℕ → Option Ops
get_op c =
    if c == b'+'
    then some Ops.add
    else if c == b'-'
    then some Ops.sub
    else if c == b'*'
    then some Ops.mul
    else if c == b'/'
    then some Ops.div
    else if c == b'^'
    then some Ops.pow
    else if c == b'='
    then some Ops.ass
    else none

unfoldable pub skip_nums : Text → Option Text
skip_nums [] = none
skip_nums (c ∷ s) = let rest = skip_nums s in if is_num_symbol c then rest else some (c ∷ s)

-- The loop of `skip_comment`, which makes `left` rounds at most.
unfoldable pub skip_line : Text → ℕ → Option Text
skip_line [] left = none
skip_line (c ∷ s) zero = some (c ∷ s)
skip_line (c ∷ s) (suc left) =
    let rest = skip_line s left in if c == b'\n' then some (c ∷ s) else rest

-- `symbs++`.
abbrev pub behind : Option Text → Option Text
behind none = none
behind (some []) = none
behind (some (c ∷ s)) = some s

unfoldable pub skip_comment : Text → ℕ → Option Text
skip_comment s left = behind (skip_line s left)

-- What `get_symbs` leaves in memory: the symbols that the file holds, read up to the length of
-- the file in bytes, and zeros up to that length and one more.
unfoldable pub get_symbs : List ℕ → ℕ → Text
get_symbs [] zero = 0 ∷ []
get_symbs [] (suc n) = 0 ∷ get_symbs [] n
get_symbs (c ∷ cs) zero = 0 ∷ []
get_symbs (c ∷ cs) (suc n) = c ∷ get_symbs cs n
