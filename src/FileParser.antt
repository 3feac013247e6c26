-- ===== src/FileParser.antt =====
-- File_parser/src/file_parser.cpp: the lines of a text. A pointer into the text is the rest of the
-- buffer from there on, in which every end of a line has become a zero.
pub mod Lines
pub mod Unended
use tatlang.Prelude.{
  ℕ, zero, suc, ◌+◌, Option, none, some, List, [], ◌∷◌, length, ◌==◌, leb, if◌then◌else◌,
}

-- `tokens` are the pointers that were written to the array of `amount` pointers.
pub record Strings : Type 0 where
  pub tokens : List (List ℕ)
  pub amount : ℕ

unfoldable pub count_file_lines : List ℕ → ℕ
count_file_lines [] = 0
count_file_lines (c ∷ s) = (if c == b'\n' then 1 else 0) + count_file_lines s

-- The buffer behind the loop of `ptr_arranger`.
unfoldable pub zeroed : List ℕ → List ℕ
zeroed [] = []
zeroed (c ∷ s) = (if c == b'\n' then 0 else c) ∷ zeroed s

-- The pointers that the loop writes: behind every end of a line that is not the last symbol.
unfoldable pub more_ptrs : List ℕ → List (List ℕ)
more_ptrs [] = []
more_ptrs (c ∷ []) = []
more_ptrs (c ∷ x ∷ s) =
    let rest = more_ptrs (x ∷ s) in if c == b'\n' then zeroed (x ∷ s) ∷ rest else rest

unfoldable pub ptr_arranger : List ℕ → List (List ℕ)
ptr_arranger buf = zeroed buf ∷ more_ptrs buf

-- `none` is a write behind the array of pointers.
unfoldable pub file_parse : List ℕ → Option Strings
file_parse [] = some (record { tokens = []; amount = 0 })
file_parse (c ∷ s) =
    if leb (length (ptr_arranger (c ∷ s))) (count_file_lines (c ∷ s))
    then some (record { tokens = ptr_arranger (c ∷ s); amount = count_file_lines (c ∷ s) })
    else none
