-- ===== src/FileParser/Unended.antt =====
-- File_parser/src/file_parser.cpp: a text whose last line has no end.
use tatlang.Prelude.{
  ℕ, suc, ◌+◌, ◌≡◌, refl, ap, sym, ◌∙◌, true, none, List, [], ◌∷◌, ◌++◌, append_assoc, length,
  arith,
}
use tatlang.FileParser.{count_file_lines, more_ptrs, ptr_arranger, file_parse}
use tatlang.FileParser.Lines.{
  is_line, AreLines, text_of, line_facts, count-text_of, length-more_ptrs, too_few,
}

count-append :
    (xs ys : List ℕ) → count_file_lines (xs ++ ys) ≡ count_file_lines xs + count_file_lines ys
unfolding count_file_lines
count-append [] ys = omega arith
count-append (x ∷ xs) ys = omega (arith, count-append xs ys)

count-line : (m : List ℕ) → is_line m ≡ true → count_file_lines m ≡ 0
unfolding count_file_lines
count-line [] h = refl
count-line (c ∷ m) h = let (n, z, h') = line_facts c m h in rw n (omega (arith, count-line m h'))

more_ptrs-last : (m : List ℕ) → is_line m ≡ true → more_ptrs m ≡ []
unfolding more_ptrs
more_ptrs-last [] h = refl
more_ptrs-last (c ∷ []) h = refl
more_ptrs-last (c ∷ x ∷ m) h =
    let (n, z, h') = line_facts c (x ∷ m) h in rw n (more_ptrs-last (x ∷ m) h')

text-cons :
    (ls : List (List ℕ)) (c : ℕ) (m : List ℕ)
    → (y : ℕ) × (s : List ℕ) × (text_of ls ++ c ∷ m ≡ y ∷ s)
text-cons [] c m = (c, m, refl)
text-cons ([] ∷ ls) c m = (b'\n', text_of ls ++ c ∷ m, refl)
text-cons ((x ∷ l) ∷ ls) c m = (x, (l ++ b'\n' ∷ text_of ls) ++ c ∷ m, refl)

more_ptrs-unended :
    (ls : List (List ℕ)) (c : ℕ) (m : List ℕ)
    → AreLines ls
    → is_line (c ∷ m) ≡ true
    → length (more_ptrs (text_of ls ++ c ∷ m)) ≡ length ls
more_ptrs-unended [] c m hs h = ap length (more_ptrs-last (c ∷ m) h)
more_ptrs-unended (l ∷ ls) c m (hl, hs) h =
    let (y, s, e) = text-cons ls c m in
    ap (λ t. length (more_ptrs t)) (append_assoc l (b'\n' ∷ text_of ls) (c ∷ m))
    ∙ ap (λ t. length (more_ptrs (l ++ b'\n' ∷ t))) e
    ∙ length-more_ptrs l y s hl
    ∙ ap (λ t. suc (length (more_ptrs t))) (sym e)
    ∙ ap suc (more_ptrs-unended ls c m hs h)

-- Where the last line of a text does not end, the pointer to it is written behind the array of
-- pointers, which has a cell for every end of a line.
pub file_parse-unended :
    (ls : List (List ℕ)) (c : ℕ) (m : List ℕ)
    → AreLines ls
    → is_line (c ∷ m) ≡ true
    → file_parse (text_of ls ++ c ∷ m) ≡ none
file_parse-unended ls c m hs h =
    let (y, s, e) = text-cons ls c m in
    parse-none (text_of ls ++ c ∷ m) y s e (
      ap suc (more_ptrs-unended ls c m hs h)
      ∙ ap suc (
          omega
            (arith, count-append (text_of ls) (c ∷ m), count-text_of ls hs, count-line (c ∷ m) h)))
  where
    parse-none :
        (text : List ℕ) (y : ℕ) (s : List ℕ)
        → text ≡ y ∷ s
        → suc (length (more_ptrs text)) ≡ suc (count_file_lines text)
        → file_parse text ≡ none
    parse-none [] y s e p = cc
    parse-none (x ∷ t) y s e p = unfold file_parse ptr_arranger in rw (too_few _ _ p) refl
