-- ===== src/Frontend/Facts.antt =====
-- Language/Frontend/src: the symbols of the spelling, and the loops over symbols.
use tatlang.Prelude.{
  ℕ, zero, suc, ◌≤◌, ◌<◌, ◌≡◌, refl, inl, inr, true, false, not, Bool-cases, none, some, [], ◌∷◌,
  ◌++◌, length, arith, ◌==◌,
}
use tatlang.Tree.{Name, wcsncmp_eq}
use tatlang.Frontend.Symbols.{
  Text, is_number, is_num_symbol, is_op, is_blank, is_reserved, sign_type, get_op, skip_nums,
  skip_line, behind,
}
use tatlang.Frontend.Lexer.{lexed, get_symbols, c_name}
use tatlang.Frontend.Spelling.{
  Sign, left_paren, right_paren, left_brace, right_brace, semicolon, comma, greater, smaller,
  at_least, at_most, equals, differs, sign_symbol, sign_node, Operator, plus, minus, times, over,
  hat, assigns, operator_symbol, operator_op, all, is_name, is_string, in_line, EndsNumber,
}

-- Two names that `wcsncmp` cannot tell apart are the same, where the limit is larger than both and
-- no zero is in them.
pub wcsncmp_eq→eq :
    (s t : Name) (n : ℕ)
    → length s < n
    → length t < n
    → is_string s ≡ true
    → is_string t ≡ true
    → wcsncmp_eq s t n ≡ true
    → s ≡ t
unfolding wcsncmp_eq
wcsncmp_eq→eq s t zero p q k l h = absurd (omega (arith, p))
wcsncmp_eq→eq [] [] (suc n) p q k l h = refl
wcsncmp_eq→eq [] (b ∷ t) (suc n) p q k l h = ground arith
wcsncmp_eq→eq (a ∷ s) [] (suc n) p q k l h = ground arith
wcsncmp_eq→eq (a ∷ s) (b ∷ t) (suc n) p q k l h =
    let rest = wcsncmp_eq→eq s t n (omega (arith, p)) (omega (arith, q)) in ground (arith, rest)

-- A name without a zero is the string that its array holds.
pub c_name-id : (w : Name) → is_string w ≡ true → c_name w ≡ w
unfolding c_name
c_name-id [] h = refl
c_name-id (c ∷ w) h = elim (Bool-cases (c == 0)) [
  | inl p ↦ ground arith
  | inr p ↦ rw (p, c_name-id w (ground arith)) refl
]

pub sign_facts :
    (k : Sign)
    → (is_blank (sign_symbol k) ≡ false)
      × (is_number (sign_symbol k) ≡ false)
      × (sign_type (sign_symbol k) ≡ some (sign_node k))
unfolding is_blank is_number sign_type
sign_facts left_paren = (refl, refl, refl)
sign_facts right_paren = (refl, refl, refl)
sign_facts left_brace = (refl, refl, refl)
sign_facts right_brace = (refl, refl, refl)
sign_facts semicolon = (refl, refl, refl)
sign_facts comma = (refl, refl, refl)
sign_facts greater = (refl, refl, refl)
sign_facts smaller = (refl, refl, refl)
sign_facts at_least = (refl, refl, refl)
sign_facts at_most = (refl, refl, refl)
sign_facts equals = (refl, refl, refl)
sign_facts differs = (refl, refl, refl)

-- A symbol for which the loop goes on to `process_op` or `process_id`.
abbrev pub IsOther : ℕ → Type 0
IsOther c =
    (is_blank c ≡ false) × (is_number c ≡ false) × (sign_type c ≡ none) × ((c == b'#') ≡ false)

pub operator_facts :
    (o : Operator)
    → IsOther (operator_symbol o)
      × (is_op (operator_symbol o) ≡ true)
      × (get_op (operator_symbol o) ≡ some (operator_op o))
unfolding is_blank is_number sign_type is_op get_op
operator_facts plus = ((refl, refl, refl, refl), refl, refl)
operator_facts minus = ((refl, refl, refl, refl), refl, refl)
operator_facts times = ((refl, refl, refl, refl), refl, refl)
operator_facts over = ((refl, refl, refl, refl), refl, refl)
operator_facts hat = ((refl, refl, refl, refl), refl, refl)
operator_facts assigns = ((refl, refl, refl, refl), refl, refl)

-- What makes up a name.
pub name_facts :
    (c : ℕ) (w : Name)
    → is_name (c ∷ w) ≡ true
    → (is_reserved c ≡ false)
      × (is_number c ≡ false)
      × ((c == 0) ≡ false)
      × ((c == b'{') ≡ false)
      × ((c == b'}') ≡ false)
      × (all (λ x. not (is_reserved x)) w ≡ true)
      × (length w < 255)
name_facts c w h = ground arith

pub name-IsOther :
    (c : ℕ)
    → is_reserved c ≡ false
    → is_number c ≡ false
    → (c == 0) ≡ false
    → (c == b'{') ≡ false
    → (c == b'}') ≡ false
    → IsOther c × (is_op c ≡ false)
unfolding is_blank sign_type is_op is_reserved
name-IsOther c p q r s t = ground arith

pub get_symbols-append :
    (w : Name) (c : ℕ) (s : Text) (room : ℕ)
    → all (λ x. not (is_reserved x)) w ≡ true
    → is_reserved c ≡ true
    → length w < room
    → get_symbols (w ++ c ∷ s) room ≡ lexed (w, c ∷ s)
unfolding get_symbols
get_symbols-append w c s zero h e p = absurd (omega (arith, p))
get_symbols-append [] c s (suc room) h e p = rw e refl
get_symbols-append (x ∷ w) c s (suc room) h e p = elim (Bool-cases (is_reserved x)) [
  | inl q ↦ ground arith
  | inr q ↦ rw (q, get_symbols-append w c s room (ground arith) e (omega (arith, p))) refl
]

pub skip_nums-append :
    (w s : Text) → all is_num_symbol w ≡ true → EndsNumber s → skip_nums (w ++ s) ≡ some s
unfolding skip_nums
skip_nums-append [] [] h e = absurd e
skip_nums-append [] (c ∷ s) h e = rw e refl
skip_nums-append (x ∷ w) s h e = elim (Bool-cases (is_num_symbol x)) [
  | inl q ↦ rw (q) (skip_nums-append w s (ground arith) e)
  | inr q ↦ ground arith
]

pub skip_line-append :
    (w s : Text) (left : ℕ)
    → all in_line w ≡ true
    → length w ≤ left
    → skip_line (w ++ b'\n' ∷ s) left ≡ some (b'\n' ∷ s)
unfolding skip_line
skip_line-append [] s zero h p = refl
skip_line-append [] s (suc left) h p = refl
skip_line-append (c ∷ w) s zero h p = absurd (omega (arith, p))
skip_line-append (c ∷ w) s (suc left) h p = elim (Bool-cases (c == b'\n')) [
  | inl q ↦ ground arith
  | inr q ↦ rw q (skip_line-append w s left (ground arith) (omega (arith, p)))
]

-- Without the end of a line, the comment goes to the last cell.
pub skip_line-all :
    (c : ℕ) (w : Text)
    → all in_line w ≡ true
    → in_line c ≡ true
    → behind (skip_line (c ∷ w) (length w)) ≡ some []
unfolding skip_line
skip_line-all c [] h e = refl
skip_line-all c (x ∷ w) h e = elim (Bool-cases (c == b'\n')) [
  | inl q ↦ ground arith
  | inr q ↦ rw q (skip_line-all x w (ground arith) (ground arith))
]
