-- ===== src/Frontend/Ends.antt =====
-- Language/Frontend/src: the loop of `tokenize` ends on every text, and only by an access out of
-- bounds or with tokens.
use tatlang.Prelude.{
  ℕ, zero, suc, ◌<◌, ◌≡◌, refl, ◌⊎◌, inl, inr, Bool, true, false, Bool-cases, Option-cases, ◌||◌,
  Option, none, some, List, [], ◌∷◌, ◌++◌, length, arith, ltb, ◌==◌,
}
use tatlang.Double.{Double}
use tatlang.Tree.{Name, NodeType, NodeValue, num_val, op_val, var_val}
use tatlang.Parser.State.{Token}
use tatlang.Frontend.Symbols.{
  Text, is_number, is_op, is_blank, is_reserved, sign_type, get_op, skip_nums, skip_line,
  skip_comment, get_symbs,
}
use tatlang.Frontend.Keywords.{is_kwd}
use tatlang.Frontend.Lexer.{
  Tokens, Lexed, out_of_fuel, fault, overflow, failed, lexed, ◌>>=◌, in_bounds, init_tokens,
  add_token, Tokens, Lexed, overflow, fault, failed, lexed, ◌>>=◌, in_bounds, init_tokens,
  add_token, get_symbols, c_name, get_token, Scan, add_word, add_id, add_named, process_id,
  process_op, process_sym, unless_processed, add_num, round, tokenize_loop, tokenize,
}
use tatlang.Frontend.Bounds.{
  Fits, Holds, add_token-Holds, Advances, Holds-Advances, skip_nums-Within, skip_nums-digit,
  skip_line-Within, Behind, Within-Behind, behind-Behind, Named, get_symbols-Named, get_op-is_op,
  begins_name,
}

module _ {F : Type 0} ⦃d : Double F⦄ where
  Behind-Advances :
      (s : Text) (o : Lexed Text) (ts : Tokens F)
      → Behind s o
      → Fits ts
      → Advances (length s) (o >>= λ s'. lexed (s', ts))
  Behind-Advances s out_of_fuel ts h fits = absurd h
  Behind-Advances s overflow ts h fits = absurd h
  Behind-Advances s fault ts h fits = tt
  Behind-Advances s (failed e) ts h fits = absurd h
  Behind-Advances s (lexed t) ts h fits = (h, fits)

  abbrev Stored : Lexed (Tokens F) → Type 0
  Stored o = (items : List (Token F)) × Holds items o

  add_word-Stored :
      (ts : Tokens F) (w : Name) (b : Bool) (o : Option (NodeType × NodeValue F))
      → Fits ts
      → Stored (add_word ts w b o)
  add_word-Stored ts w b (some (ty, v)) fits = (_, add_token-Holds ts ty v fits)
  add_word-Stored ts w true none fits =
      (_, add_token-Holds ts NodeType.func (var_val (some w)) fits)
  add_word-Stored ts w false none fits =
      (_, add_token-Holds ts NodeType.var (var_val (some w)) fits)

  add_id-Stored : (ts : Tokens F) (w : Name) (b : Bool) → Fits ts → Stored (add_id ts w b)
  unfolding add_id
  add_id-Stored ts w b fits = add_word-Stored ts w b (is_kwd w) fits

  Named-Advances :
      (c : ℕ) (s : Text) (o : Lexed (Name × Text)) (ts : Tokens F)
      → Named (length s) o
      → Fits ts
      → Advances
          (length (c ∷ s))
          ((o >>= λ r. lexed (some (c_name (c ∷ r.0), r.1))) >>= add_named ts)
  Named-Advances c s out_of_fuel ts h fits = absurd h
  Named-Advances c s overflow ts h fits = absurd h
  Named-Advances c s fault ts h fits = tt
  Named-Advances c s (failed e) ts h fits = absurd h
  Named-Advances c s (lexed (w, [])) ts h fits = tt
  Named-Advances c s (lexed (w, x ∷ t)) ts h fits =
      let (items, holds) = add_id-Stored ts (c_name (c ∷ w)) (x == b'(') fits in
      Holds-Advances _ items (add_id ts (c_name (c ∷ w)) (x == b'(')) (x ∷ t) holds
        (omega (arith, h))

  process_id-Advances :
      (c : ℕ) (s : Text) (ts : Tokens F)
      → (is_reserved c || is_number c) ≡ false
      → Fits ts
      → Advances (length (c ∷ s)) (process_id (c ∷ s) ts)
  unfolding process_id get_token
  process_id-Advances c s ts h fits =
      rw h (Named-Advances c s (get_symbols s 255) ts (get_symbols-Named s 255) fits)

  process_op-Advances :
      (c : ℕ) (s : Text) (ts : Tokens F)
      → is_op c ≡ true
      → Fits ts
      → Advances (length (c ∷ s)) (process_op (c ∷ s) ts)
  unfolding process_op
  process_op-Advances c s ts h fits = elim (Option-cases (get_op c)) [
    | inl p ↦ absurd (get_op-is_op c h p)
    | inr (op, p) ↦ rw p (
        Holds-Advances _ _ (add_token ts NodeType.op (op_val op)) s
          (add_token-Holds ts NodeType.op (op_val op) fits) (omega arith))
  ]

  add_num-Advances :
      (scan_double : Text → F) (c : ℕ) (s : Text) (ts : Tokens F)
      → is_number c ≡ true
      → Fits ts
      → Advances (length (c ∷ s)) (add_num scan_double (c ∷ s) ts)
  unfolding add_num
  add_num-Advances scan_double c s ts h fits =
      let (n, e, fits') = add_token-Holds ts NodeType.num (num_val (scan_double (c ∷ s))) fits in
      rw (e, skip_nums-digit c s h)
        (Behind-Advances (c ∷ s) (in_bounds (skip_nums s)) _
          (Within-Behind c s (skip_nums s) (skip_nums-Within s)) fits')

  processed-Advances :
      (c : ℕ) (s : Text) (o : Lexed Text) (ts : Tokens F)
      → Behind s o
      → Fits ts
      → Advances (length s) ((o >>= λ s'. lexed (true, (s', ts))) >>= unless_processed c)
  processed-Advances c s out_of_fuel ts h fits = absurd h
  processed-Advances c s overflow ts h fits = absurd h
  processed-Advances c s fault ts h fits = tt
  processed-Advances c s (failed e) ts h fits = absurd h
  processed-Advances c s (lexed t) ts h fits = (h, fits)

  comment-Advances :
      (c : ℕ) (s : Text) (ts : Tokens F)
      → Fits ts
      → Advances (length (c ∷ s)) (
          (in_bounds (skip_comment (c ∷ s) (length s)) >>= λ s'. lexed (true, (s', ts)))
          >>= unless_processed c)
  unfolding skip_comment
  comment-Advances c s ts fits =
      processed-Advances c (c ∷ s) _ ts
        (behind-Behind c s (skip_line (c ∷ s) (length s)) (skip_line-Within (c ∷ s) (length s)))
        fits

  process_sym-Advances :
      (c : ℕ) (s : Text) (ts : Tokens F)
      → is_blank c ≡ false
      → is_number c ≡ false
      → Fits ts
      → Advances (length (c ∷ s)) (process_sym (c ∷ s) ts (length s) >>= unless_processed c)
  unfolding process_sym
  process_sym-Advances c s ts nb nn fits = elim (Option-cases (sign_type c)) [
    | inr (ty, p) ↦
        let (n, e, fits') = add_token-Holds ts ty (num_val (d.of_nat 0)) fits in
        rw (p, e) (omega arith, fits')
    | inl p ↦ elim (Bool-cases (c == b'#')) [
      | inl q ↦ rw (p, q) (comment-Advances c s ts fits)
      | inr q ↦ elim (Bool-cases (is_op c)) [
        | inl r ↦ rw (p, q, r) (process_op-Advances c s ts r fits)
        | inr r ↦ rw (p, q, r) (process_id-Advances c s ts (begins_name c nb nn p q r) fits)
      ]
    ]
  ]

  round-Advances :
      (scan_double : Text → F) (c : ℕ) (s : Text) (ts : Tokens F)
      → Fits ts
      → Advances (length (c ∷ s)) (round scan_double (c ∷ s) ts)
  unfolding round
  round-Advances scan_double c s ts fits = elim (Bool-cases (is_blank c)) [
    | inl p ↦ rw p (omega arith, fits)
    | inr p ↦ elim (Bool-cases (is_number c)) [
      | inl q ↦ rw (p, q) (add_num-Advances scan_double c s ts q fits)
      | inr q ↦ rw (p, q) (process_sym-Advances c s ts p q fits)
    ]
  ]

  abbrev Ended : Lexed (Tokens F) → Type 0
  Ended out_of_fuel = ⊥
  Ended overflow = ⊥
  Ended fault = Unit
  Ended (failed e) = ⊥
  Ended (lexed ts) = Fits ts

  next-Ended :
      (n : ℕ) (o : Lexed (Scan F)) (f : Scan F → Lexed (Tokens F))
      → Advances n o
      → ((s : Text) (ts : Tokens F) → length s < n → Fits ts → Ended (f (s, ts)))
      → Ended (o >>= f)
  next-Ended n out_of_fuel f h k = absurd h
  next-Ended n overflow f h k = absurd h
  next-Ended n fault f h k = tt
  next-Ended n (failed e) f h k = absurd h
  next-Ended n (lexed (s, ts)) f h k = k s ts h.0 h.1

  tokenize_loop-Ended :
      (scan_double : Text → F) (n : ℕ) (s : Text) (ts : Tokens F)
      → length s < n
      → Fits ts
      → Ended (tokenize_loop scan_double n s ts)
  unfolding tokenize_loop
  tokenize_loop-Ended scan_double zero s ts h fits = absurd (omega (arith, h))
  tokenize_loop-Ended scan_double (suc n) [] ts h fits = fits
  tokenize_loop-Ended scan_double (suc n) (c ∷ s) ts h fits =
      elim (Bool-cases (ltb 1 (length (c ∷ s)))) [
        | inl p ↦ rw p (
            next-Ended (length (c ∷ s)) (round scan_double (c ∷ s) ts) _
              (round-Advances scan_double c s ts fits)
              (λ s' ts' shorter fits'.
                tokenize_loop-Ended scan_double n s' ts' (omega (arith, h, shorter)) fits'))
        | inr p ↦ rw p fits
      ]

  abbrev end_token : Token F
  end_token = record { type = NodeType.end; value = num_val (d.of_nat 0) }

  -- What `tokenize` may come to: an access out of bounds, but not of the tokens, or tokens with END behind them, in an array
  -- that fits.
  abbrev pub Tokenized : Lexed (Tokens F) → Type 0
  Tokenized o = (o ≡ fault) ⊎ ((items : List (Token F)) × Holds (items ++ end_token ∷ []) o)

  Ended-Tokenized :
      (o : Lexed (Tokens F))
      → Ended o
      → Tokenized (o >>= λ ts. add_token ts NodeType.end (num_val (d.of_nat 0)))
  Ended-Tokenized out_of_fuel h = absurd h
  Ended-Tokenized overflow h = absurd h
  Ended-Tokenized fault h = inl refl
  Ended-Tokenized (failed e) h = absurd h
  Ended-Tokenized (lexed ts) h =
      inr (ts.items, add_token-Holds ts NodeType.end (num_val (d.of_nat 0)) h)

  -- On every text `tokenize` ends, either by an access out of the bounds of the text or of a name, or
  -- with tokens and END behind them; no error code is ever returned, no token is stored out of the
  -- bounds of the array of tokens, and that array has room for all tokens, and for twice their number
  -- and five cells at most.
  pub tokenize-Tokenized :
      (scan_double : Text → F) (chars : List ℕ) (file_len : ℕ)
      → Tokenized (tokenize scan_double chars file_len)
  unfolding tokenize
  tokenize-Tokenized scan_double chars file_len = Ended-Tokenized _ (
      tokenize_loop-Ended scan_double _ (get_symbs chars file_len) init_tokens (omega arith)
        (unfold init_tokens in (omega arith, omega arith, omega arith)))
