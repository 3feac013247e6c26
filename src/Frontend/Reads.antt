-- ===== src/Frontend/Reads.antt =====
-- Language/Frontend/src: `tokenize` reads a text to the tokens that it spells.
use tatlang.Prelude.{
  ℕ, zero, suc, ◌≤◌, ◌<◌, ◌≡◌, refl, sym, ◌∙◌, subst, Bool, true, false, some, List, [], ◌∷◌, ◌++◌,
  length, length-append, append_assoc, append-nil, arith, ltb, ◌==◌, if◌then◌else◌,
}
use tatlang.Double.{Double}
use tatlang.Tree.{Name, NodeType, NodeValue, num_val, op_val, var_val}
use tatlang.Parser.State.{Token}
use tatlang.Frontend.Symbols.{Text, is_reserved, get_symbs}
use tatlang.Frontend.Keywords.{max_token_size}
use tatlang.Frontend.Lexer.{
  Tokens, lexed, ◌>>=◌, init_tokens, add_token, add_id, round, tokenize_loop, tokenize,
}
use tatlang.Frontend.Spelling.{
  sign_symbol, sign_node, operator_symbol, operator_op, Keyword, keyword_name, is_name, is_string,
  IsKeyword, blank_symbol, keyword_token, sign_token, Spells, stop, last_comment, comment, blank,
  sign, operator, number, keyword, called, variable,
}
use tatlang.Frontend.Bounds.{Fits, Holds, add_token-Holds}
use tatlang.Frontend.Facts.{name_facts}
use tatlang.Frontend.Recognised.{is_kwd-keyword, keyword-is_name, keyword-is_string, is_kwd-other}
use tatlang.Frontend.Rounds.{
  round-blank, round-sign, round-operator, round-name, round-number, round-comment,
  round-last_comment,
}

name-length : (w : Name) → is_name w ≡ true → length w < max_token_size
name-length [] h = cc
name-length (c ∷ w) h = let (_, _, _, _, _, _, short) = name_facts c w h in omega (arith, short)

paren-is_reserved : is_reserved b'(' ≡ true
unfolding is_reserved
paren-is_reserved = refl

pub ltb-length : (c : ℕ) (s : Text) → 0 < length s → ltb 1 (length (c ∷ s)) ≡ true
ltb-length c s p = ground arith

module _ {F : Type 0} ⦃d : Double F⦄ where
  Spells-length :
      (scan_double : Text → F) (s : Text) (ts : List (Token F))
      → Spells scan_double s ts
      → 0 < length s
  Spells-length scan_double _ _ stop = omega arith
  Spells-length scan_double _ _ (last_comment w h) = omega arith
  Spells-length scan_double _ _ (comment w s ts h r) = omega arith
  Spells-length scan_double _ _ (blank k s ts r) = omega arith
  Spells-length scan_double _ _ (sign k s ts r) = omega arith
  Spells-length scan_double _ _ (operator o s ts r) = omega arith
  Spells-length scan_double _ _ (number c w s ts h hw hs r) = omega arith
  Spells-length scan_double _ _ (keyword k c s ts h r) =
      omega (arith, length-append (keyword_name k) (c ∷ s))
  Spells-length scan_double _ _ (called w s ts h str n r) =
      omega (arith, length-append w (b'(' ∷ s))
  Spells-length scan_double _ _ (variable w s ts h str n e r) =
      omega (arith, length-append w s, Spells-length scan_double s ts r)

  abbrev Loop : (Text → F) → List (Token F) → ℕ → Text → Tokens F → Type 0
  Loop scan_double ts n s toks = Holds (toks.items ++ ts) (tokenize_loop scan_double n s toks)

  loop-round :
      (scan_double : Text → F) (n c : ℕ) (s s' : Text) (toks toks' : Tokens F)
      → 0 < length s
      → round scan_double (c ∷ s) toks ≡ lexed (s', toks')
      → tokenize_loop scan_double (suc n) (c ∷ s) toks ≡ tokenize_loop scan_double n s' toks'
  unfolding tokenize_loop
  loop-round scan_double n c s s' toks toks' p e = rw (ltb-length c s p, e) refl

  -- A round that adds a token, and the rest of the loop.
  token-Loop :
      (scan_double : Text → F) (n c : ℕ) (s s' : Text) (toks : Tokens F) (ty : NodeType)
      (v : NodeValue F) (ts : List (Token F))
      → length (c ∷ s) ≤ n
      → 0 < length s
      → length s' ≤ length s
      → ((toks' : Tokens F)
          → add_token toks ty v ≡ lexed toks'
          → round scan_double (c ∷ s) toks ≡ lexed (s', toks'))
      → ((m : ℕ) (toks' : Tokens F)
          → length s' ≤ m
          → Fits toks'
          → Loop scan_double ts (suc m) s' toks')
      → Fits toks
      → Loop scan_double (record { type = ty; value = v } ∷ ts) (suc n) (c ∷ s) toks
  token-Loop scan_double zero c s s' toks ty v ts p q r once rest fits = absurd (omega (arith, p))
  token-Loop scan_double (suc m) c s s' toks ty v ts p q r once rest fits =
      let (cap, e, fits') = add_token-Holds toks ty v fits in
      subst (Holds (toks.items ++ record { type = ty; value = v } ∷ ts))
        (sym (loop-round scan_double (suc m) c s s' toks _ q (once _ e)))
        (subst
          (λ l. Holds l (
            tokenize_loop scan_double (suc m) s' (record {
              items = toks.items ++ record { type = ty; value = v } ∷ [];
              capacity = cap;
            })))
          (append_assoc toks.items (record { type = ty; value = v } ∷ []) ts)
          (rest m _ (omega (arith, p, r)) fits'))

  -- A round that adds none.
  quiet-Loop :
      (scan_double : Text → F) (n c : ℕ) (s s' : Text) (toks : Tokens F) (ts : List (Token F))
      → length (c ∷ s) ≤ n
      → 0 < length s
      → length s' ≤ length s
      → round scan_double (c ∷ s) toks ≡ lexed (s', toks)
      → ((m : ℕ) (toks' : Tokens F)
          → length s' ≤ m
          → Fits toks'
          → Loop scan_double ts (suc m) s' toks')
      → Fits toks
      → Loop scan_double ts (suc n) (c ∷ s) toks
  quiet-Loop scan_double zero c s s' toks ts p q r once rest fits = absurd (omega (arith, p))
  quiet-Loop scan_double (suc m) c s s' toks ts p q r once rest fits =
      subst (Holds (toks.items ++ ts)) (sym (loop-round scan_double (suc m) c s s' toks _ q once))
        (rest m _ (omega (arith, p, r)) fits)

  name-Loop :
      (scan_double : Text → F) (n : ℕ) (w : Name) (x : ℕ) (s : Text) (toks : Tokens F)
      (ty : NodeType) (v : NodeValue F) (ts : List (Token F))
      → length (w ++ x ∷ s) ≤ n
      → is_name w ≡ true
      → is_string w ≡ true
      → is_reserved x ≡ true
      → add_id toks w (x == b'(') ≡ add_token toks ty v
      → ((m : ℕ) (toks' : Tokens F)
          → length (x ∷ s) ≤ m
          → Fits toks'
          → Loop scan_double ts (suc m) (x ∷ s) toks')
      → Fits toks
      → Loop scan_double (record { type = ty; value = v } ∷ ts) (suc n) (w ++ x ∷ s) toks
  name-Loop scan_double n [] x s toks ty v ts p h str r e rest fits = cc
  name-Loop scan_double n (c ∷ w) x s toks ty v ts p h str r e rest fits =
      token-Loop scan_double n c (w ++ x ∷ s) (x ∷ s) toks ty v ts p
        (omega (arith, length-append w (x ∷ s))) (omega (arith, length-append w (x ∷ s)))
        (λ toks' a. round-name scan_double c w x s toks toks' h str r (e ∙ a)) rest fits

  add_id-keyword :
      (toks : Tokens F) (k : Keyword) (b : Bool)
      → add_id toks (keyword_name k) b
        ≡ add_token toks (keyword_token {F = F} k).type (keyword_token {F = F} k).value
  unfolding add_id
  add_id-keyword toks k b = rw (is_kwd-keyword {F = F} k) refl

  add_id-other :
      (toks : Tokens F) (w : Name) (b : Bool)
      → is_name w ≡ true
      → is_string w ≡ true
      → (IsKeyword w → ⊥)
      → add_id toks w b
        ≡ add_token toks (if b then NodeType.func else NodeType.var) (var_val (some w))
  unfolding add_id
  add_id-other toks w true h str no_kwd =
      rw (is_kwd-other {F = F} w (name-length w h) str no_kwd) refl
  add_id-other toks w false h str no_kwd =
      rw (is_kwd-other {F = F} w (name-length w h) str no_kwd) refl

  idle-Holds : (toks : Tokens F) → Fits toks → Holds (toks.items ++ []) (lexed toks)
  idle-Holds toks fits =
      subst (λ l. Holds l (lexed toks)) (sym (append-nil toks.items)) (toks.capacity, refl, fits)

  Spells-Loop :
      (scan_double : Text → F) (s : Text) (ts : List (Token F))
      → Spells scan_double s ts
      → (n : ℕ) (toks : Tokens F) → length s ≤ n
      → Fits toks
      → Loop scan_double ts (suc n) s toks
  Spells-Loop scan_double _ _ stop n toks p fits = unfold tokenize_loop in idle-Holds toks fits
  Spells-Loop scan_double _ _ (last_comment [] h) n toks p fits =
      unfold tokenize_loop in idle-Holds toks fits
  Spells-Loop scan_double _ _ (last_comment (c ∷ w) h) n toks p fits =
      quiet-Loop scan_double n b'#' (c ∷ w) [] toks [] p (omega arith) (omega arith)
        (round-last_comment scan_double (c ∷ w) toks h)
        (λ m toks' p' fits'. unfold tokenize_loop in idle-Holds toks' fits') fits
  Spells-Loop scan_double _ _ (comment w s ts h r) n toks p fits =
      quiet-Loop scan_double n b'#' (w ++ b'\n' ∷ s) s toks ts p
        (omega (arith, length-append w (b'\n' ∷ s))) (omega (arith, length-append w (b'\n' ∷ s)))
        (round-comment scan_double w s toks h) (Spells-Loop scan_double s ts r) fits
  Spells-Loop scan_double _ _ (blank k s ts r) n toks p fits =
      quiet-Loop scan_double n (blank_symbol k) s s toks ts p (Spells-length scan_double s ts r)
        (omega arith) (round-blank scan_double k s toks) (Spells-Loop scan_double s ts r) fits
  Spells-Loop scan_double _ _ (sign k s ts r) n toks p fits =
      token-Loop scan_double n (sign_symbol k) s s toks (sign_node k) (num_val (d.of_nat 0)) ts p
        (Spells-length scan_double s ts r) (omega arith) (round-sign scan_double k s toks)
        (Spells-Loop scan_double s ts r) fits
  Spells-Loop scan_double _ _ (operator o s ts r) n toks p fits =
      token-Loop scan_double n (operator_symbol o) s s toks NodeType.op (op_val (operator_op o)) ts
        p (Spells-length scan_double s ts r) (omega arith) (round-operator scan_double o s toks)
        (Spells-Loop scan_double s ts r) fits
  Spells-Loop scan_double _ _ (number c w s ts h hw hs r) n toks p fits =
      token-Loop scan_double n c (w ++ s) s toks NodeType.num (num_val (scan_double (c ∷ (w ++ s))))
        ts p (omega (arith, length-append w s, Spells-length scan_double s ts r))
        (omega (arith, length-append w s))
        (λ toks'. round-number scan_double c w s toks toks' h hw hs)
        (Spells-Loop scan_double s ts r) fits
  Spells-Loop scan_double _ _ (keyword k c s ts h r) n toks p fits =
      name-Loop scan_double n (keyword_name k) c s toks (keyword_token {F = F} k).type
        (keyword_token {F = F} k).value ts p (keyword-is_name k) (keyword-is_string k) h
        (add_id-keyword toks k (c == b'(')) (Spells-Loop scan_double (c ∷ s) ts r) fits
  Spells-Loop scan_double _ _ (called w s ts h str no_kwd r) n toks p fits =
      name-Loop scan_double n w b'(' s toks NodeType.func (var_val (some w)) ts p h str
        paren-is_reserved (add_id-other toks w true h str no_kwd)
        (Spells-Loop scan_double (b'(' ∷ s) ts r) fits
  Spells-Loop scan_double _ _ (variable w [] ts h str no_kwd e r) n toks p fits = absurd e
  Spells-Loop scan_double _ _ (variable w (x ∷ s) ts h str no_kwd (res, np) r) n toks p fits =
      name-Loop scan_double n w x s toks NodeType.var (var_val (some w)) ts p h str res
        (rw np (add_id-other toks w false h str no_kwd)) (Spells-Loop scan_double (x ∷ s) ts r) fits

  -- Where the memory that `get_symbs` leaves spells tokens, `tokenize` returns them and END behind
  -- them.
  pub tokenize-Spells :
      (scan_double : Text → F) (chars : List ℕ) (file_len : ℕ) (ts : List (Token F))
      → Spells scan_double (get_symbs chars file_len) ts
      → Holds (ts ++ sign_token NodeType.end ∷ []) (tokenize scan_double chars file_len)
  unfolding tokenize init_tokens
  tokenize-Spells scan_double chars file_len ts h =
      let (cap, e, fits) =
        Spells-Loop scan_double (get_symbs chars file_len) ts h (length (get_symbs chars file_len))
          init_tokens (omega arith) (omega arith, omega arith, omega arith) in
      subst
        (λ o.
          Holds (ts ++ sign_token NodeType.end ∷ [])
            (o >>= λ toks. add_token toks NodeType.end (num_val (d.of_nat 0))))
        (sym e) (add_token-Holds _ NodeType.end (num_val (d.of_nat 0)) fits)
