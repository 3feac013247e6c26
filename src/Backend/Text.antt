-- ===== src/Backend/Text.antt =====
-- Language/Backend/src/backend_secondary.cpp: the text that WRITE_ASM prints for a line, without its
-- end, and the lines of arithmetic expressions.
use tatlang.Prelude.{
  ℕ, ◌+◌, ◌≡◌, refl, ap, ap₂, sym, ◌∙◌, none, some, List, [], ◌∷◌, ◌++◌, append_assoc, map,
}
use tatlang.Tree.{Name, Ops, NodeType, NodeValue, Tree, null, node}
use tatlang.Frontend.Symbols.{codes}
use tatlang.Spu.Expressions.{ArithOp, plus, minus, times, over, Arith, lit, bin}
use tatlang.Assembler.Expressions.{op_line, lines_of}
use tatlang.Backend.Lines.{
  Loc, reg, ram, Label, while_label, break_label, main_label, func_label, Jump, jmp, je, jne, ja,
  jb, jae, jbe, call, Line, push_int, push_num, push_loc, push_null, pop_loc, arithmetic, label,
  jump, input, output, ret, hlt, bkd_all_good, Manager, done,
}
use tatlang.Backend.Codegen.{write_num, write_op}
use tatlang.Backend.Codegen.Asmbl.{asmbl, asmbl_node}

abbrev pub jump_name : Jump → List ℕ
jump_name jmp = codes "jmp"
jump_name je = codes "je"
jump_name jne = codes "jne"
jump_name ja = codes "ja"
jump_name jb = codes "jb"
jump_name jae = codes "jae"
jump_name jbe = codes "jbe"
jump_name call = codes "call"

-- No line is written for the first and the last operation.
abbrev pub op_name : Ops → List ℕ
op_name Ops.do_nothing = []
op_name Ops.add = codes "add"
op_name Ops.sub = codes "sub"
op_name Ops.mul = codes "mul"
op_name Ops.div = codes "div"
op_name Ops.pow = codes "pow"
op_name Ops.ln = codes "ln"
op_name Ops.sin = codes "sin"
op_name Ops.cos = codes "cos"
op_name Ops.sqrt = codes "sqrt"
op_name Ops.ass = []

-- Parameters: fprintf with "%lu", "%lf" and "%ls".
module _ {F : Type 0} (show_number : ℕ → List ℕ) (spell : F → List ℕ) (encode : Name → List ℕ) where
  abbrev pub loc_name : Loc → List ℕ
  loc_name (reg n) = b'r' ∷ (n + b'a') ∷ b'x' ∷ []
  loc_name (ram n) = b'[' ∷ (show_number n ++ b']' ∷ [])

  abbrev pub label_name : Label → List ℕ
  label_name (while_label n) = codes "while_" ++ show_number n
  label_name (break_label n) = codes "break_" ++ show_number n
  label_name main_label = codes "main"
  label_name (func_label none) = codes "(null)"
  label_name (func_label (some x)) = encode x

  abbrev pub print_line : Line F → List ℕ
  print_line (push_int n) = codes "push " ++ show_number n
  print_line (push_num x) = codes "push " ++ spell x
  print_line (push_loc l) = codes "push " ++ loc_name l
  print_line push_null = codes "push (null)"
  print_line (pop_loc l) = codes "pop " ++ loc_name l
  print_line (arithmetic o) = op_name o
  print_line (label l) = b':' ∷ label_name l
  print_line (jump j l) = jump_name j ++ b' ' ∷ label_name l
  print_line input = codes "in"
  print_line output = codes "out"
  print_line ret = codes "ret"
  print_line hlt = codes "hlt"

abbrev pub op_of : ArithOp → Ops
op_of plus = Ops.add
op_of minus = Ops.sub
op_of times = Ops.mul
op_of over = Ops.div

-- The tree of an expression; `v` has what the nodes do not use.
abbrev pub tree_of : {F : Type 0} → NodeValue F → Arith F → Tree F
tree_of v (lit x) = node NodeType.num (record v { num_value = x }) null null
tree_of v (bin o l r) =
    node NodeType.op (record v { op_value = op_of o }) (tree_of v l) (tree_of v r)

abbrev pub asm_lines : {F : Type 0} → Arith F → List (Line F)
asm_lines (lit x) = push_num x ∷ []
asm_lines (bin o l r) = asm_lines l ++ asm_lines r ++ arithmetic (op_of o) ∷ []

regroup :
    {F : Type 0} (xs ys : List (Line F)) (o : Ops) (n : ℕ) (m : Manager)
    → done bkd_all_good n m (xs ++ (ys ++ arithmetic o ∷ []))
      ≡ done bkd_all_good n m (xs ++ ys ++ arithmetic o ∷ [])
regroup xs ys o n m = ap (done bkd_all_good n m) (sym (append_assoc xs ys (arithmetic o ∷ [])))

-- Only the lines of the two operands and of the operation are written.
pub asmbl-tree_of :
    {F : Type 0} (v : NodeValue F) (e : Arith F) (n : ℕ) (m : Manager)
    → asmbl (tree_of v e) n m ≡ done bkd_all_good n m (asm_lines e)
unfolding asmbl asmbl_node write_num write_op
asmbl-tree_of v (lit x) n m = refl
asmbl-tree_of v (bin plus l r) n m =
    rw (asmbl-tree_of v l n m, asmbl-tree_of v r n m)
      (regroup (asm_lines l) (asm_lines r) Ops.add n m)
asmbl-tree_of v (bin minus l r) n m =
    rw (asmbl-tree_of v l n m, asmbl-tree_of v r n m)
      (regroup (asm_lines l) (asm_lines r) Ops.sub n m)
asmbl-tree_of v (bin times l r) n m =
    rw (asmbl-tree_of v l n m, asmbl-tree_of v r n m)
      (regroup (asm_lines l) (asm_lines r) Ops.mul n m)
asmbl-tree_of v (bin over l r) n m =
    rw (asmbl-tree_of v l n m, asmbl-tree_of v r n m)
      (regroup (asm_lines l) (asm_lines r) Ops.div n m)

map-append : {A B : Type 0} (f : A → B) (xs ys : List A) → map f (xs ++ ys) ≡ map f xs ++ map f ys
map-append f [] ys = refl
map-append f (x ∷ xs) ys = ap (λ l. f x ∷ l) (map-append f xs ys)

op_name-op_of : (o : ArithOp) → op_name (op_of o) ≡ op_line o
op_name-op_of plus = refl
op_name-op_of minus = refl
op_name-op_of times = refl
op_name-op_of over = refl

pub print-asm_lines :
    {F : Type 0} (show_number : ℕ → List ℕ) (spell : F → List ℕ) (encode : Name → List ℕ)
    (e : Arith F)
    → map (print_line show_number spell encode) (asm_lines e) ≡ lines_of spell e
print-asm_lines show_number spell encode (lit x) = refl
print-asm_lines show_number spell encode (bin o l r) =
    map-append (print_line show_number spell encode) (asm_lines l ++ asm_lines r)
      (arithmetic (op_of o) ∷ [])
    ∙ ap₂ ◌++◌
        (map-append (print_line show_number spell encode) (asm_lines l) (asm_lines r)
          ∙ ap₂ ◌++◌ (print-asm_lines show_number spell encode l)
              (print-asm_lines show_number spell encode r))
        (ap (λ x. x ∷ []) (op_name-op_of o))
