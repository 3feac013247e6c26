-- ===== src/FileParser/Lines.antt =====
-- File_parser/src/file_parser.cpp: the pointers are the lines of the text, where it ends with the
-- end of a line.
use tatlang.Prelude.{
  ℕ, suc, ◌≡◌, refl, ap, ap₂, sym, ◌∙◌, Bool, true, false, not, ◌&&◌, some, List, [], ◌∷◌, ◌++◌,
  map, length, arith, ◌==◌, leb, if◌then◌else◌,
}
use tatlang.FileParser.{Strings, count_file_lines, zeroed, more_ptrs, ptr_arranger, file_parse}

-- The string at a pointer: up to the next zero.
abbrev pub c_string : List ℕ → List ℕ
c_string [] = []
c_string (c ∷ s) = let rest = c_string s in if c == 0 then [] else c ∷ rest

-- A line holds neither a zero nor the end of a line.
abbrev pub is_line : List ℕ → Bool
is_line [] = true
is_line (c ∷ s) = not (c == b'\n') && not (c == 0) && is_line s

abbrev pub AreLines : List (List ℕ) → Type 0
AreLines [] = Unit
AreLines (l ∷ ls) = (is_line l ≡ true) × AreLines ls

-- The text of lines, each with its end.
abbrev pub text_of : List (List ℕ) → List ℕ
text_of [] = []
text_of (l ∷ ls) = l ++ b'\n' ∷ text_of ls

pub line_facts :
    (c : ℕ) (s : List ℕ)
    → is_line (c ∷ s) ≡ true
    → ((c == b'\n') ≡ false) × ((c == 0) ≡ false) × (is_line s ≡ true)
line_facts c s h = ground arith

c_string-zeroed : (l rest : List ℕ) → is_line l ≡ true → c_string (zeroed (l ++ b'\n' ∷ rest)) ≡ l
unfolding zeroed
c_string-zeroed [] rest h = refl
c_string-zeroed (c ∷ l) rest h =
    let (n, z, h') = line_facts c l h in rw (n, z, c_string-zeroed l rest h') refl

pub count-text_of : (ls : List (List ℕ)) → AreLines ls → count_file_lines (text_of ls) ≡ length ls
unfolding count_file_lines
count-text_of [] h = refl
count-text_of (l ∷ ls) (h, hs) = count-line l (text_of ls) h ∙ ap suc (count-text_of ls hs)
  where
    count-line :
        (m rest : List ℕ)
        → is_line m ≡ true
        → count_file_lines (m ++ b'\n' ∷ rest) ≡ suc (count_file_lines rest)
    count-line [] rest h = unfold count_file_lines in omega arith
    count-line (c ∷ m) rest h =
        let (n, z, h') = line_facts c m h in
        unfold count_file_lines in rw n (omega (arith, count-line m rest h'))

pub more_ptrs-line :
    (l rest : List ℕ) → is_line l ≡ true → more_ptrs (l ++ b'\n' ∷ rest) ≡ more_ptrs (b'\n' ∷ rest)
unfolding more_ptrs
more_ptrs-line [] rest h = refl
more_ptrs-line (c ∷ []) rest h = let (n, z, h') = line_facts c [] h in rw n refl
more_ptrs-line (c ∷ x ∷ l) rest h =
    let (n, z, h') = line_facts c (x ∷ l) h in rw n (more_ptrs-line (x ∷ l) rest h')

more_ptrs-end : more_ptrs (b'\n' ∷ []) ≡ []
unfolding more_ptrs
more_ptrs-end = refl

nonempty : (l rest : List ℕ) → (c : ℕ) × (s : List ℕ) × (l ++ b'\n' ∷ rest ≡ c ∷ s)
nonempty [] rest = (b'\n', rest, refl)
nonempty (c ∷ l) rest = (c, l ++ b'\n' ∷ rest, refl)

-- The pointer behind the end of a line, where there is a line behind it.
next_line :
    (m rest : List ℕ) → more_ptrs (b'\n' ∷ (m ++ b'\n' ∷ rest)) ≡ ptr_arranger (m ++ b'\n' ∷ rest)
unfolding more_ptrs ptr_arranger
next_line [] rest = refl
next_line (c ∷ m) rest = refl

ptr_arranger-lines :
    (l : List ℕ) (ls : List (List ℕ))
    → AreLines (l ∷ ls)
    → map c_string (ptr_arranger (text_of (l ∷ ls))) ≡ l ∷ ls
unfolding ptr_arranger
ptr_arranger-lines l [] (h, hs) =
    ap₂ ◌∷◌ (c_string-zeroed l [] h) (ap (map c_string) (more_ptrs-line l [] h ∙ more_ptrs-end))
ptr_arranger-lines l (m ∷ ls) (h, hs) = ap₂ ◌∷◌ (c_string-zeroed l (text_of (m ∷ ls)) h) (
    ap (map c_string) (more_ptrs-line l (text_of (m ∷ ls)) h ∙ next_line m (text_of ls))
    ∙ ptr_arranger-lines m ls hs)

zeroed-line :
    (l rest : List ℕ) → is_line l ≡ true → zeroed (l ++ b'\n' ∷ rest) ≡ l ++ 0 ∷ zeroed rest
unfolding zeroed
zeroed-line [] rest h = refl
zeroed-line (c ∷ l) rest h =
    let (n, z, h') = line_facts c l h in rw n (ap (λ s. c ∷ s) (zeroed-line l rest h'))

-- The pointers to lines: each to its line, the zero that was its end, and the rest of the buffer.
abbrev pub pointers : List (List ℕ) → List (List ℕ)
pointers [] = []
pointers (l ∷ ls) = (l ++ 0 ∷ zeroed (text_of ls)) ∷ pointers ls

pub ptr_arranger-pointers :
    (l : List ℕ) (ls : List (List ℕ))
    → AreLines (l ∷ ls)
    → ptr_arranger (text_of (l ∷ ls)) ≡ pointers (l ∷ ls)
unfolding ptr_arranger
ptr_arranger-pointers l [] (h, hs) =
    ap₂ ◌∷◌ (zeroed-line l [] h) (more_ptrs-line l [] h ∙ more_ptrs-end)
ptr_arranger-pointers l (m ∷ ls) (h, hs) = ap₂ ◌∷◌ (zeroed-line l (text_of (m ∷ ls)) h) (
    more_ptrs-line l (text_of (m ∷ ls)) h
    ∙ next_line m (text_of ls)
    ∙ ptr_arranger-pointers m ls hs)

length-map : {A B : Type 0} (f : A → B) (xs : List A) → length (map f xs) ≡ length xs
length-map f [] = refl
length-map f (x ∷ xs) = ap suc (length-map f xs)

pub length-pointers : (ls : List (List ℕ)) → length (pointers ls) ≡ length ls
length-pointers [] = refl
length-pointers (l ∷ ls) = ap suc (length-pointers ls)

pub AreLines-append : (ls ms : List (List ℕ)) → AreLines ls → AreLines ms → AreLines (ls ++ ms)
AreLines-append [] ms h k = k
AreLines-append (l ∷ ls) ms (a, h) k = (a, AreLines-append ls ms h k)

pub enough : (m n : ℕ) → m ≡ n → leb m n ≡ true
enough m n e = ground arith

pub too_few : (m n : ℕ) → m ≡ suc n → leb m n ≡ false
too_few m n e = ground arith

-- The file of lines that all end, and at least one, is parsed to as many pointers, and the strings
-- at them are the lines.
pub file_parse-lines :
    (l : List ℕ) (ls : List (List ℕ))
    → AreLines (l ∷ ls)
    → (strs : Strings) × (file_parse (text_of (l ∷ ls)) ≡ some strs)
      × (strs.amount ≡ length (l ∷ ls))
      × (map c_string strs.tokens ≡ l ∷ ls)
file_parse-lines l ls h =
    let (c, s, e) = nonempty l (text_of ls) in
    let lines = ptr_arranger-lines l ls h in
    let count = count-text_of (l ∷ ls) h in
    (
      record {
        tokens = ptr_arranger (text_of (l ∷ ls));
        amount = count_file_lines (text_of (l ∷ ls));
      },
      parse-found (text_of (l ∷ ls)) c s e (
          sym (length-map c_string (ptr_arranger (text_of (l ∷ ls))))
          ∙ ap length lines
          ∙ sym count),
      count,
      lines,
    )
  where
    parse-found :
        (text : List ℕ) (c : ℕ) (s : List ℕ)
        → text ≡ c ∷ s
        → length (ptr_arranger text) ≡ count_file_lines text
        → file_parse text
          ≡ some (record { tokens = ptr_arranger text; amount = count_file_lines text })
    parse-found [] c s e same = cc
    parse-found (x ∷ t) c s e same = unfold file_parse in rw (enough _ _ same) refl

zeroed-ptrs : (c : ℕ) (s : List ℕ) → more_ptrs (b'\n' ∷ c ∷ s) ≡ ptr_arranger (c ∷ s)
unfolding more_ptrs ptr_arranger
zeroed-ptrs c s = refl

-- In front of an end of a line there is one line more.
pub length-more_ptrs :
    (l : List ℕ) (c : ℕ) (s : List ℕ)
    → is_line l ≡ true
    → length (more_ptrs (l ++ b'\n' ∷ c ∷ s)) ≡ suc (length (more_ptrs (c ∷ s)))
unfolding ptr_arranger
length-more_ptrs l c s h = ap length (more_ptrs-line l (c ∷ s) h ∙ zeroed-ptrs c s)
