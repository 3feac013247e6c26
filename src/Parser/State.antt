-- ===== src/Parser/State.antt =====
-- The state of Recursive_parser/src/recursive_parser_secondary.cpp and the macros of its header.
-- The globals `tokens` and `id` are the tokens from `id` on, and `sce_debt` counts the scopes
-- whose end is not yet in the tree.
use tatlang.Prelude.{ℕ, suc, List, [], ◌∷◌, if◌then◌else◌}
use tatlang.Tree.{NodeType, NodeValue, Tree, null, node, is_type}

-- A `B_tree_node` in the array of tokens; its children are not used.
pub record Token (F : Type 0) : Type 0 where
  pub type : NodeType
  pub value : NodeValue F

pub record ParseState (F : Type 0) : Type 0 where
  pub rest : List (Token F)
  pub sce_debt : ℕ

-- `overrun` is a read behind the last token; `out_of_fuel` has no counterpart in the program.
pub data Parsed (F : Type 0) (A : Type 0) : Type 0 where
  out_of_fuel overrun : Parsed F A
  parsed : A → ParseState F → Parsed F A

abbrev pub Parser : Type 0 → Type 0 → Type 0
Parser F A = ParseState F → Parsed F A

module _ {F : Type 0} where
  abbrev pub bind : {A B : Type 0} → Parsed F A → (A → Parser F B) → Parsed F B
  bind out_of_fuel f = out_of_fuel
  bind overrun f = overrun
  bind (parsed a s) f = f a s

  infixl 1 ◌>>=◌ ◌>>◌
  abbrev pub ◌>>=◌ : {A B : Type 0} → Parser F A → (A → Parser F B) → Parser F B
  p >>= f = λ s. bind (p s) f

  abbrev pub ◌>>◌ : {A B : Type 0} → Parser F A → Parser F B → Parser F B
  p >> q = p >>= λ _. q

  abbrev pub pure : {A : Type 0} → A → Parser F A
  pure a s = parsed a s

  -- `CHECK_RET`: a function that gets NULL returns NULL.
  abbrev pub unless_null : Tree F → (Tree F → Parser F (Tree F)) → Parser F (Tree F)
  unless_null null f = pure null
  unless_null (node ty v l r) f = f (node ty v l r)

  abbrev pub check : Parser F (Tree F) → (Tree F → Parser F (Tree F)) → Parser F (Tree F)
  check p f = p >>= λ t. unless_null t f

  -- `tokens->data[id]`.
  unfoldable pub current : Parser F (Token F)
  current s = elim s.rest [ [] ↦ overrun | t ∷ ts ↦ parsed t s ]

  -- `id++`, where the current token was read before.
  unfoldable pub advance : Parser F (Unit {0})
  advance s = elim s.rest [ [] ↦ overrun | t ∷ ts ↦ parsed tt (record s { rest = ts }) ]

  unfoldable pub take_debt : Parser F ℕ
  take_debt s = parsed s.sce_debt (record s { sce_debt = 0 })

  unfoldable pub add_debt : Parser F (Unit {0})
  add_debt s = parsed tt (record s { sce_debt = suc s.sce_debt })

  -- `SYNTAX_CHECK(CUR_TYPE == ty)` in front of the rest of a function; `failed` is its NULL.
  unfoldable pub expect : {A : Type 0} → NodeType → A → Parser F A → Parser F A
  unfolding current advance
  expect ty failed rest =
      current >>= λ t. if is_type t.type ty then (advance >> rest) else pure failed
