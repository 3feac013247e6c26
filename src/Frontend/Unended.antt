-- ===== src/Frontend/Unended.antt =====
-- Language/Frontend/src: a name at the end of a text.
use tatlang.Prelude.{
  ℕ, zero, suc, ◌<◌, ◌≡◌, refl, inl, inr, true, false, not, Bool-cases, [], ◌∷◌, length, arith,
}
use tatlang.Double.{Double}
use tatlang.Frontend.Symbols.{Text, is_reserved, get_symbs}
use tatlang.Frontend.Lexer.{
  fault, init_tokens, get_symbols, get_token, process_id, tokenize_loop, tokenize,
}
use tatlang.Frontend.Spelling.{all, is_name}
use tatlang.Frontend.Facts.{name_facts, name-IsOther}
use tatlang.Frontend.Rounds.{round-other}
use tatlang.Frontend.Reads.{ltb-length}

get_symbs-length : (w : Text) (n : ℕ) → 0 < length (get_symbs w n)
unfolding get_symbs
get_symbs-length [] zero = omega arith
get_symbs-length [] (suc n) = omega arith
get_symbs-length (c ∷ w) zero = omega arith
get_symbs-length (c ∷ w) (suc n) = omega arith

zero-is_reserved : is_reserved 0 ≡ false
unfolding is_reserved
zero-is_reserved = refl

get_symbs-unreserved :
    (w : Text) (n : ℕ)
    → all (λ x. not (is_reserved x)) w ≡ true
    → all (λ x. not (is_reserved x)) (get_symbs w n) ≡ true
unfolding get_symbs
get_symbs-unreserved [] zero h = rw zero-is_reserved refl
get_symbs-unreserved [] (suc n) h = rw zero-is_reserved (get_symbs-unreserved [] n h)
get_symbs-unreserved (c ∷ w) zero h = rw zero-is_reserved refl
get_symbs-unreserved (c ∷ w) (suc n) h = elim (Bool-cases (is_reserved c)) [
  | inl p ↦ ground arith
  | inr p ↦ rw p (get_symbs-unreserved w n (ground arith))
]

get_symbols-unreserved :
    (s : Text) (room : ℕ) → all (λ x. not (is_reserved x)) s ≡ true → get_symbols s room ≡ fault
unfolding get_symbols
get_symbols-unreserved [] room h = refl
get_symbols-unreserved (c ∷ s) zero h = refl
get_symbols-unreserved (c ∷ s) (suc room) h = elim (Bool-cases (is_reserved c)) [
  | inl p ↦ ground arith
  | inr p ↦ rw (p, get_symbols-unreserved s room (ground arith)) refl
]

module _ {F : Type 0} ⦃d : Double F⦄ where
  -- A text that is one name, with no reserved symbol behind it, makes `tokenize` read on behind the
  -- end of the memory or write behind the end of the name.
  pub tokenize-unended :
      (scan_double : Text → F) (c : ℕ) (w : Text) (n : ℕ)
      → is_name (c ∷ w) ≡ true
      → tokenize scan_double (c ∷ w) (suc n) ≡ fault
  unfolding tokenize tokenize_loop process_id get_token get_symbs
  tokenize-unended scan_double c w n h =
      let (res, num, z, lb, rb, un, short) = name_facts c w h in
      let (other, not_op) = name-IsOther c res num z lb rb in
      rw
        (
          ltb-length c (get_symbs w n) (get_symbs-length w n),
          round-other scan_double c (get_symbs w n) init_tokens other,
          not_op,
          res,
          num,
          get_symbols-unreserved (get_symbs w n) 255 (get_symbs-unreserved w n un),
        )
        refl
