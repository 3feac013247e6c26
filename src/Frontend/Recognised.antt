-- ===== src/Frontend/Recognised.antt =====
-- Language/Frontend/src: `is_kwd` takes the keywords of the spelling, and no other name.
use tatlang.Prelude.{
  ◌<◌, ◌≡◌, refl, inl, inr, true, false, Bool-cases, none, some, List, [], ◌∷◌, length, map, arith,
}
use tatlang.Double.{Double}
use tatlang.Tree.{Name, wcsncmp_eq}
use tatlang.Frontend.Symbols.{is_number, is_reserved}
use tatlang.Frontend.Keywords.{get_type, search_kwds, is_kwd, max_token_size}
use tatlang.Frontend.Spelling.{
  Keyword, while_kwd, if_kwd, sin_kwd, cos_kwd, ln_kwd, sqrt_kwd, getvar_kwd, putexpr_kwd,
  declare_kwd, return_kwd, main_kwd, keyword_name, is_name, is_string, IsKeyword, keyword_token,
}
use tatlang.Frontend.Facts.{wcsncmp_eq→eq}

module _ {F : Type 0} ⦃d : Double F⦄ where
  pub is_kwd-keyword :
      (k : Keyword)
      → is_kwd {F = F} (keyword_name k)
        ≡ some ((keyword_token {F = F} k).type, (keyword_token {F = F} k).value)
  unfolding is_kwd search_kwds get_type wcsncmp_eq
  is_kwd-keyword while_kwd = refl
  is_kwd-keyword if_kwd = refl
  is_kwd-keyword sin_kwd = refl
  is_kwd-keyword cos_kwd = refl
  is_kwd-keyword ln_kwd = refl
  is_kwd-keyword sqrt_kwd = refl
  is_kwd-keyword getvar_kwd = refl
  is_kwd-keyword putexpr_kwd = refl
  is_kwd-keyword declare_kwd = refl
  is_kwd-keyword return_kwd = refl
  is_kwd-keyword main_kwd = refl

pub keyword-is_name : (k : Keyword) → is_name (keyword_name k) ≡ true
unfolding is_reserved is_number
keyword-is_name while_kwd = refl
keyword-is_name if_kwd = refl
keyword-is_name sin_kwd = refl
keyword-is_name cos_kwd = refl
keyword-is_name ln_kwd = refl
keyword-is_name sqrt_kwd = refl
keyword-is_name getvar_kwd = refl
keyword-is_name putexpr_kwd = refl
keyword-is_name declare_kwd = refl
keyword-is_name return_kwd = refl
keyword-is_name main_kwd = refl

keyword-length : (k : Keyword) → length (keyword_name k) < max_token_size
keyword-length while_kwd = omega arith
keyword-length if_kwd = omega arith
keyword-length sin_kwd = omega arith
keyword-length cos_kwd = omega arith
keyword-length ln_kwd = omega arith
keyword-length sqrt_kwd = omega arith
keyword-length getvar_kwd = omega arith
keyword-length putexpr_kwd = omega arith
keyword-length declare_kwd = omega arith
keyword-length return_kwd = omega arith
keyword-length main_kwd = omega arith

pub keyword-is_string : (k : Keyword) → is_string (keyword_name k) ≡ true
keyword-is_string while_kwd = refl
keyword-is_string if_kwd = refl
keyword-is_string sin_kwd = refl
keyword-is_string cos_kwd = refl
keyword-is_string ln_kwd = refl
keyword-is_string sqrt_kwd = refl
keyword-is_string getvar_kwd = refl
keyword-is_string putexpr_kwd = refl
keyword-is_string declare_kwd = refl
keyword-is_string return_kwd = refl
keyword-is_string main_kwd = refl

-- A name that is no keyword differs from each in the comparison of `is_kwd`.
differs-keyword :
    (w : Name) (k : Keyword)
    → length w < max_token_size
    → is_string w ≡ true
    → (IsKeyword w → ⊥)
    → wcsncmp_eq w (keyword_name k) max_token_size ≡ false
differs-keyword w k p z no_kwd = elim (Bool-cases (wcsncmp_eq w (keyword_name k) max_token_size)) [
  | inl e ↦ absurd (
      no_kwd (
        k,
        wcsncmp_eq→eq w (keyword_name k) max_token_size p (keyword-length k) z (keyword-is_string k)
            e,
      ))
  | inr e ↦ e
]

module _ {F : Type 0} ⦃d : Double F⦄ where
  search_kwds-other :
      (w : Name) (ks : List Keyword)
      → length w < max_token_size
      → is_string w ≡ true
      → (IsKeyword w → ⊥)
      → search_kwds {F = F} w (map keyword_name ks) ≡ none
  unfolding search_kwds
  search_kwds-other w [] p z no_kwd = refl
  search_kwds-other w (k ∷ ks) p z no_kwd =
      rw (differs-keyword w k p z no_kwd) (search_kwds-other w ks p z no_kwd)

  -- Of a keyword `is_kwd` gives the node that the keyword spells; it takes no other name of 255
  -- symbols at most.
  pub is_kwd-other :
      (w : Name)
      → length w < max_token_size
      → is_string w ≡ true
      → (IsKeyword w → ⊥)
      → is_kwd {F = F} w ≡ none
  unfolding is_kwd
  is_kwd-other w p z no_kwd =
      search_kwds-other w
        (while_kwd ∷ if_kwd ∷ sin_kwd ∷ cos_kwd ∷ ln_kwd ∷ sqrt_kwd ∷ getvar_kwd ∷ putexpr_kwd
          ∷ declare_kwd ∷ return_kwd ∷ main_kwd ∷ [])
        p z no_kwd
