-- ===== src/Frontend/Rounds.antt =====
-- Language/Frontend/src: one round of the loop of `tokenize` on each kind of spelling.
use tatlang.Prelude.{
  ℕ, ◌≡◌, refl, ◌∙◌, true, false, [], ◌∷◌, ◌++◌, length, length-append, arith, ◌==◌, if◌then◌else◌,
}
use tatlang.Double.{Double}
use tatlang.Tree.{Name, NodeType, num_val, op_val}
use tatlang.Frontend.Symbols.{
  Text, is_number, is_num_symbol, is_op, is_blank, is_reserved, sign_type, skip_comment,
}
use tatlang.Frontend.Lexer.{
  Tokens, lexed, add_token, get_token, add_id, process_id, process_op, process_sym, add_num, round,
}
use tatlang.Frontend.Spelling.{
  Sign, sign_symbol, sign_node, Operator, operator_symbol, operator_op, all, is_name, is_string,
  in_line, EndsNumber, Blank, space, newline, tab, filling, blank_symbol,
}
use tatlang.Frontend.Bounds.{skip_nums-digit}
use tatlang.Frontend.Facts.{
  sign_facts, IsOther, operator_facts, name_facts, name-IsOther, get_symbols-append, c_name-id,
  skip_nums-append, skip_line-append, skip_line-all,
}

digit-is_blank : (c : ℕ) → is_number c ≡ true → is_blank c ≡ false
unfolding is_number is_blank
digit-is_blank c h = ground arith

module _ {F : Type 0} ⦃d : Double F⦄ (scan_double : Text → F) where
  pub round-blank :
      (k : Blank) (s : Text) (ts : Tokens F)
      → round scan_double (blank_symbol k ∷ s) ts ≡ lexed (s, ts)
  unfolding round is_blank
  round-blank space s ts = refl
  round-blank newline s ts = refl
  round-blank tab s ts = refl
  round-blank filling s ts = refl

  pub round-sign :
      (k : Sign) (s : Text) (ts ts' : Tokens F)
      → add_token ts (sign_node k) (num_val (d.of_nat 0)) ≡ lexed ts'
      → round scan_double (sign_symbol k ∷ s) ts ≡ lexed (s, ts')
  unfolding round process_sym
  round-sign k s ts ts' e = let (b, n, t) = sign_facts k in rw (b, n, t, e) refl

  -- What remains for a symbol that is neither a blank, a digit, a sign nor the start of a comment.
  pub round-other :
      (c : ℕ) (s : Text) (ts : Tokens F)
      → IsOther c
      → round scan_double (c ∷ s) ts
        ≡ (if is_op c then process_op (c ∷ s) ts else process_id (c ∷ s) ts)
  unfolding round process_sym
  round-other c s ts (b, n, t, h) = rw (b, n, t, h) refl

  pub round-operator :
      (o : Operator) (s : Text) (ts ts' : Tokens F)
      → add_token ts NodeType.op (op_val (operator_op o)) ≡ lexed ts'
      → round scan_double (operator_symbol o ∷ s) ts ≡ lexed (s, ts')
  unfolding process_op
  round-operator o s ts ts' e =
      let (other, p, g) = operator_facts o in
      round-other (operator_symbol o) s ts other ∙ rw (p, g, e) refl

  pub round-name :
      (c : ℕ) (w : Name) (x : ℕ) (s : Text) (ts ts' : Tokens F)
      → is_name (c ∷ w) ≡ true
      → is_string (c ∷ w) ≡ true
      → is_reserved x ≡ true
      → add_id ts (c ∷ w) (x == b'(') ≡ lexed ts'
      → round scan_double (c ∷ (w ++ x ∷ s)) ts ≡ lexed (x ∷ s, ts')
  unfolding process_id get_token
  round-name c w x s ts ts' h str r e =
      let (res, num, z, lb, rb, un, short) = name_facts c w h in
      let (other, not_op) = name-IsOther c res num z lb rb in
      round-other c (w ++ x ∷ s) ts other
      ∙ rw (not_op, res, num, get_symbols-append w x s 255 un r short, c_name-id (c ∷ w) str, e)
          refl

  pub round-number :
      (c : ℕ) (w s : Text) (ts ts' : Tokens F)
      → is_number c ≡ true
      → all is_num_symbol w ≡ true
      → EndsNumber s
      → add_token ts NodeType.num (num_val (scan_double (c ∷ (w ++ s)))) ≡ lexed ts'
      → round scan_double (c ∷ (w ++ s)) ts ≡ lexed (s, ts')
  unfolding round add_num
  round-number c w s ts ts' h hw hs e =
      rw (digit-is_blank c h, h, e, skip_nums-digit c (w ++ s) h, skip_nums-append w s hw hs) refl

  pub round-comment :
      (w s : Text) (ts : Tokens F)
      → all in_line w ≡ true
      → round scan_double (b'#' ∷ (w ++ b'\n' ∷ s)) ts ≡ lexed (s, ts)
  unfolding round process_sym skip_comment is_blank is_number sign_type
  round-comment w s ts h =
      rw
        (skip_line-append (b'#' ∷ w) s (length (w ++ b'\n' ∷ s)) h
          (omega (arith, length-append w (b'\n' ∷ s))))
        refl

  pub round-last_comment :
      (w : Text) (ts : Tokens F)
      → all in_line w ≡ true
      → round scan_double (b'#' ∷ w) ts ≡ lexed ([], ts)
  unfolding round process_sym skip_comment is_blank is_number sign_type
  round-last_comment w ts h = rw (skip_line-all b'#' w h refl) refl
