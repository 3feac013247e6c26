-- ===== src/Backend/Labels.antt =====
-- The labels that the backend numbers: each is defined once, and every jump has its label.
use tatlang.Prelude.{
  ℕ, ◌+◌, ◌≤◌, ◌<◌, ◌≡◌, ◌⊎◌, leb, ltb, ◌&&◌, Bool, List, [], ◌∷◌, ◌++◌, ◌==◌, if◌then◌else◌, arith,
}
use tatlang.Tree.{NodeType, Ops, Tree, null, node, num, var}
use tatlang.Backend.Lines.{
  while_label, break_label, Line, label, jump, bkd_all_good, Outcome, fault, done,
}

-- Trees that `asmbl` accepts: no bracket, comma or declaration word outside its place, and no
-- operator but those that it writes.
abbrev pub ValidOp : Ops → Type 0 → Type 0 → Type 0
ValidOp Ops.ass l r = r
ValidOp Ops.do_nothing l r = ⊥
ValidOp _ l r = l × r

abbrev pub ValidNode : NodeType → Ops → Type 0 → Type 0 → Type 0 → Type 0
ValidNode NodeType.scope_start o l r args = l × r
ValidNode NodeType.scope_end o l r args = l × r
ValidNode NodeType.semicolon o l r args = l × r
ValidNode NodeType.while_node o l r args = l × r
ValidNode NodeType.if_node o l r args = l × r
ValidNode NodeType.std_func o l r args = r
ValidNode NodeType.func o l r args = args
ValidNode NodeType.cmd_func o l r args = args
ValidNode NodeType.func_decl o l r args = r
ValidNode NodeType.return_node o l r args = r
ValidNode NodeType.main o l r args = r
ValidNode NodeType.op o l r args = ValidOp o l r
ValidNode NodeType.unr_op o l r args = ValidOp o l r
ValidNode var o l r args = Unit
ValidNode num o l r args = Unit
ValidNode NodeType.above o l r args = l × r
ValidNode NodeType.below o l r args = l × r
ValidNode NodeType.above_equal o l r args = l × r
ValidNode NodeType.below_equal o l r args = l × r
ValidNode NodeType.equal o l r args = l × r
ValidNode NodeType.not_equal o l r args = l × r
ValidNode _ o l r args = ⊥

-- The node of an argument.
abbrev pub IsComma : NodeType → Type 0
IsComma NodeType.comma = Unit
IsComma _ = ⊥

abbrev mutual
  pub Valid : {F : Type 0} → Tree F → Type 0
  Valid null = Unit
  Valid (node ty v l r) = ValidNode ty v.op_value (Valid l) (Valid r) (ValidArgs l)

  pub ValidArgs : {F : Type 0} → Tree F → Type 0
  ValidArgs null = Unit
  ValidArgs (node ty v l r) = IsComma ty × Valid l × ValidArgs r

ValidOp-map : (o : Ops) {l r l' r' : Type 0} → (l → l') → (r → r') → ValidOp o l r → ValidOp o l' r'
ValidOp-map Ops.ass f g h = g h
ValidOp-map Ops.do_nothing f g h = h
ValidOp-map _ f g h = (f h.0, g h.1)

pub ValidNode-map :
    (ty : NodeType) (o : Ops) {l r a l' r' a' : Type 0}
    → (l → l')
    → (r → r')
    → (a → a')
    → ValidNode ty o l r a
    → ValidNode ty o l' r' a'
ValidNode-map NodeType.std_func o f g c h = g h
ValidNode-map NodeType.func o f g c h = c h
ValidNode-map NodeType.cmd_func o f g c h = c h
ValidNode-map NodeType.func_decl o f g c h = g h
ValidNode-map NodeType.return_node o f g c h = g h
ValidNode-map NodeType.main o f g c h = g h
ValidNode-map NodeType.op o f g c h = ValidOp-map o f g h
ValidNode-map NodeType.unr_op o f g c h = ValidOp-map o f g h
ValidNode-map var o f g c h = tt
ValidNode-map num o f g c h = tt
ValidNode-map NodeType.open_br o f g c h = h
ValidNode-map NodeType.close_br o f g c h = h
ValidNode-map NodeType.open_cbr o f g c h = h
ValidNode-map NodeType.close_cbr o f g c h = h
ValidNode-map NodeType.keyword o f g c h = h
ValidNode-map NodeType.end o f g c h = h
ValidNode-map NodeType.declare o f g c h = h
ValidNode-map NodeType.comma o f g c h = h
ValidNode-map _ o f g c h = (f h.0, g h.1)

abbrev pub one_if : Bool → ℕ
one_if b = if b then 1 else 0

module _ {F : Type 0} where
  abbrev pub count : (Line F → ℕ) → List (Line F) → ℕ
  count f [] = 0
  count f (x ∷ xs) = f x + count f xs

  pub count-append :
      (f : Line F → ℕ) (xs ys : List (Line F)) → count f (xs ++ ys) ≡ count f xs + count f ys
  count-append f [] ys = omega arith
  count-append f (x ∷ xs) ys = omega (arith, count-append f xs ys)

  -- The definitions of `break_k` and `while_k` among the lines, and the jumps to them.
  abbrev pub defines_break : ℕ → Line F → ℕ
  defines_break k (label (break_label j)) = one_if (j == k)
  defines_break k _ = 0

  abbrev pub defines_while : ℕ → Line F → ℕ
  defines_while k (label (while_label j)) = one_if (j == k)
  defines_while k _ = 0

  abbrev pub jumps_break : ℕ → Line F → ℕ
  jumps_break k (jump c (break_label j)) = one_if (j == k)
  jumps_break k _ = 0

  abbrev pub jumps_while : ℕ → Line F → ℕ
  jumps_while k (jump c (while_label j)) = one_if (j == k)
  jumps_while k _ = 0

-- Whether `k` is one of the labels that are taken while the counter goes from `n` to `n'`.
abbrev pub within : ℕ → ℕ → ℕ → ℕ
within k n n' = one_if (leb n k && ltb k n')

-- What the lines written between the counters `n` and `n'` say of the label `k`: inside the range
-- it is defined once, outside not at all, and no jump goes to it from there; a loop's label is
-- defined as often as it is jumped to.
pub record Tidy {F : Type 0} (k n n' : ℕ) (out : List (Line F)) : Type 0 where
  pub grows : n ≤ n'
  pub defined : count (defines_break k) out ≡ within k n n'
  pub reached : (count (jumps_break k) out ≡ 0) ⊎ ((n ≤ k) × (k < n'))
  pub loops : count (jumps_while k) out ≡ count (defines_while k) out
  pub loop_once : count (defines_while k) out ≤ count (defines_break k) out

abbrev pub Neat : {F : Type 0} → ℕ → ℕ → Outcome F → Type 0
Neat k n fault = Unit
Neat k n (done e n' m out) = (e ≡ bkd_all_good) × Tidy k n n' out

-- In an assembly file, a label `break_k` or `while_k` is defined at most once, a jump to `break_k`
-- has its label, and each `while_k` has its one jump.
abbrev pub Resolved : {F : Type 0} → List (Line F) → Type 0
Resolved out =
    (k : ℕ)
    → (count (defines_break k) out ≤ 1)
      × ((count (jumps_break k) out ≡ 0) ⊎ (count (defines_break k) out ≡ 1))
      × (count (defines_while k) out ≤ 1)
      × (count (jumps_while k) out ≡ count (defines_while k) out)
