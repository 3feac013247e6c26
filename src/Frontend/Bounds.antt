-- ===== src/Frontend/Bounds.antt =====
-- Language/Frontend/src: the array of tokens is large enough for what is stored in it, and every
-- round of the loop of `tokenize` moves along the text.
use tatlang.Prelude.{
  ℕ, zero, suc, ◌+◌, ◌*◌, ◌≤◌, ◌<◌, ◌≡◌, refl, sym, subst, inl, inr, Bool, true, false, Bool-cases,
  ◌||◌, Option, none, some, List, [], ◌∷◌, ◌++◌, length, length-append, arith, leb, ◌==◌,
  if◌then◌else◌,
}
use tatlang.Tree.{Name, NodeType, NodeValue}
use tatlang.Parser.State.{Token}
use tatlang.Frontend.Symbols.{
  Text, is_number, is_num_symbol, is_op, is_blank, is_reserved, sign_type, get_op, skip_nums,
  skip_line, behind,
}
use tatlang.Frontend.Lexer.{
  Tokens, Lexed, out_of_fuel, fault, overflow, failed, lexed, ◌>>=◌, in_bounds, grow, store,
  add_token, Tokens, Lexed, overflow, fault, failed, lexed, ◌>>=◌, in_bounds, grow, store,
  add_token, get_symbols, Scan,
}

module _ {F : Type 0} where
  -- The array has room, and not more than twice what it needs and five cells.
  abbrev pub Fits : Tokens F → Type 0
  Fits ts =
      (0 < ts.capacity) × (length ts.items ≤ ts.capacity) × (ts.capacity ≤ 2 * length ts.items + 5)

  abbrev added : Tokens F → NodeType → NodeValue F → List (Token F)
  added ts ty v = ts.items ++ record { type = ty; value = v } ∷ []

  -- The tokens `items`, in an array that fits.
  abbrev pub Holds : List (Token F) → Lexed (Tokens F) → Type 0
  Holds items o =
      (n : ℕ) × (o ≡ lexed (record { items = items; capacity = n }))
      × Fits (record { items = items; capacity = n })

  pub add_token-Holds :
      (ts : Tokens F) (ty : NodeType) (v : NodeValue F)
      → Fits ts
      → Holds (added ts ty v) (add_token ts ty v)
  unfolding add_token grow store
  add_token-Holds ts ty v fits =
      let more = length-append ts.items (record { type = ty; value = v } ∷ []) in
      elim (Bool-cases (leb ts.capacity (length ts.items))) [
        | inl full ↦ (ts.capacity * 2, ground arith, ground (arith, more))
        | inr room ↦ (ts.capacity, ground arith, ground (arith, more))
      ]

  -- What a round of the loop may come to, for a text of `n` cells: an access out of bounds, or a
  -- shorter text with tokens that fit.
  abbrev pub Advances : ℕ → Lexed (Scan F) → Type 0
  Advances n out_of_fuel = ⊥
  Advances n overflow = ⊥
  Advances n fault = Unit
  Advances n (failed e) = ⊥
  Advances n (lexed (s, ts)) = (length s < n) × Fits ts

  pub Holds-Advances :
      (n : ℕ) (items : List (Token F)) (o : Lexed (Tokens F)) (s : Text)
      → Holds items o
      → length s < n
      → Advances n (o >>= λ ts. lexed (s, ts))
  Holds-Advances n items o s (c, e, fits) shorter =
      subst (λ o'. Advances n (o' >>= λ ts. lexed (s, ts))) (sym e) (shorter, fits)

-- `skip_nums` and `skip_line` stay in the text, and do not go back.
abbrev Within : ℕ → Option Text → Type 0
Within n none = Unit
Within n (some s) = length s ≤ n

Within-later : (n : ℕ) (o : Option Text) → Within n o → Within (suc n) o
Within-later n none h = tt
Within-later n (some s) h = omega (arith, h)

Within-either :
    (b : Bool) (n : ℕ) (x y : Option Text) → Within n x → Within n y → Within n (if b then x else y)
Within-either true n x y p q = p
Within-either false n x y p q = q

pub skip_nums-Within : (s : Text) → Within (length s) (skip_nums s)
unfolding skip_nums
skip_nums-Within [] = tt
skip_nums-Within (c ∷ s) =
    Within-either (is_num_symbol c) _ (skip_nums s) (some (c ∷ s))
      (Within-later _ (skip_nums s) (skip_nums-Within s)) (omega arith)

pub skip_line-Within : (s : Text) (left : ℕ) → Within (length s) (skip_line s left)
unfolding skip_line
skip_line-Within [] left = tt
skip_line-Within (c ∷ s) zero = omega arith
skip_line-Within (c ∷ s) (suc left) =
    Within-either (c == b'\n') _ (some (c ∷ s)) (skip_line s left) (omega arith)
      (Within-later _ (skip_line s left) (skip_line-Within s left))

-- A digit is a symbol of a number, so that a number takes a symbol.
pub skip_nums-digit : (c : ℕ) (s : Text) → is_number c ≡ true → skip_nums (c ∷ s) ≡ skip_nums s
unfolding skip_nums is_num_symbol
skip_nums-digit c s h = rw h refl

abbrev pub Behind : Text → Lexed Text → Type 0
Behind s out_of_fuel = ⊥
Behind s overflow = ⊥
Behind s fault = Unit
Behind s (failed e) = ⊥
Behind s (lexed t) = length t < length s

pub Within-Behind :
    (c : ℕ) (s : Text) (o : Option Text) → Within (length s) o → Behind (c ∷ s) (in_bounds o)
Within-Behind c s none h = tt
Within-Behind c s (some t) h = omega (arith, h)

pub behind-Behind :
    (c : ℕ) (s : Text) (o : Option Text)
    → Within (length (c ∷ s)) o
    → Behind (c ∷ s) (in_bounds (behind o))
behind-Behind c s none h = tt
behind-Behind c s (some []) h = omega arith
behind-Behind c s (some (x ∷ t)) h = omega (arith, h)

-- A name and the text behind it.
abbrev pub Named : ℕ → Lexed (Name × Text) → Type 0
Named n out_of_fuel = ⊥
Named n overflow = ⊥
Named n fault = Unit
Named n (failed e) = ⊥
Named n (lexed (w, t)) = length t ≤ n

Named-cons :
    (c n : ℕ) (o : Lexed (Name × Text))
    → Named n o
    → Named (suc n) (o >>= λ r. lexed (c ∷ r.0, r.1))
Named-cons c n out_of_fuel h = absurd h
Named-cons c n overflow h = absurd h
Named-cons c n fault h = tt
Named-cons c n (failed e) h = absurd h
Named-cons c n (lexed (w, t)) h = omega (arith, h)

Named-either :
    (b : Bool) (n : ℕ) (x y : Lexed (Name × Text))
    → Named n x
    → Named n y
    → Named n (if b then x else y)
Named-either true n x y p q = p
Named-either false n x y p q = q

pub get_symbols-Named : (s : Text) (room : ℕ) → Named (length s) (get_symbols s room)
unfolding get_symbols
get_symbols-Named [] room = tt
get_symbols-Named (c ∷ s) zero = tt
get_symbols-Named (c ∷ s) (suc room) =
    Named-either (is_reserved c) _ (lexed ([], c ∷ s)) _ (omega arith)
      (Named-cons c _ (get_symbols s room) (get_symbols-Named s room))

pub get_op-is_op : (c : ℕ) → is_op c ≡ true → (get_op c ≡ none) → ⊥
unfolding get_op is_op
get_op-is_op c p q = ground arith

-- A symbol that no other case of the loop takes can begin a name.
pub begins_name :
    (c : ℕ)
    → is_blank c ≡ false
    → is_number c ≡ false
    → sign_type c ≡ none
    → (c == b'#') ≡ false
    → is_op c ≡ false
    → (is_reserved c || is_number c) ≡ false
unfolding is_reserved is_blank sign_type is_op
begins_name c p q r s t = ground arith
