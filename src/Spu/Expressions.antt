-- ===== src/Spu/Expressions.antt =====
-- CPU/CPU/SPU: the run of the byte code of an arithmetic expression, in the form in which the
-- backend orders its lines: the left operand, the right one, the operation.
use tatlang.Prelude.{
  ℕ, zero, suc, ◌+◌, ◌≡◌, refl, ap, sym, ◌∙◌, subst, true, Option, some, List, [], ◌∷◌, ◌++◌,
  length, length-append, get_elem?, arith, ltb,
}
use tatlang.Double.{Double}
use tatlang.Stack.{Stack}
use tatlang.Stack.Resize.{IsClean}
use tatlang.Stack.Refines.{contents, IsValid}
use tatlang.Spu.Vm.{Vm, imm_mask, has_bit, read_bytes, move_carriage}
use tatlang.Spu.Commands.{command_of, running, exec, step}
use tatlang.Spu.Arithmetic.{exec_binary-contents, exec_push-contents}

pub data ArithOp : Type 0 where
  plus minus times over : ArithOp

abbrev pub op_byte : ArithOp → ℕ
op_byte plus = 2
op_byte minus = 3
op_byte times = 4
op_byte over = 5

pub data Arith (F : Type 0) : Type 0 where
  lit : F → Arith F
  bin : ArithOp → Arith F → Arith F → Arith F

-- A command without an argument fills a word of eight bytes.
abbrev pub word_of : ℕ → List ℕ
word_of b = b ∷ 0 ∷ 0 ∷ 0 ∷ 0 ∷ 0 ∷ 0 ∷ 0 ∷ []

-- A push of a number: the word with the mask of an immediate value, and the number.
abbrev pub push_word : List ℕ
push_word = 1 ∷ imm_mask ∷ 0 ∷ 0 ∷ 0 ∷ 0 ∷ 0 ∷ 0 ∷ []

abbrev pub rounds : {F : Type 0} → Arith F → ℕ
rounds (lit x) = 1
rounds (bin o l r) = rounds l + (rounds r + 1)

-- `bytes_of` lays a double out in memory.
abbrev pub code : {F : Type 0} → (F → List ℕ) → Arith F → List ℕ
code bytes_of (lit x) = push_word ++ bytes_of x
code bytes_of (bin o l r) = code bytes_of l ++ code bytes_of r ++ word_of (op_byte o)

get_elem-append :
    {A : Type 0} (xs ys : List A) (i : ℕ) → get_elem? (xs ++ ys) (length xs + i) ≡ get_elem? ys i
get_elem-append [] ys i = ap (get_elem? ys) (omega arith)
get_elem-append (x ∷ xs) ys i =
    ap (get_elem? (x ∷ (xs ++ ys))) (suc_add (length xs) i) ∙ get_elem-append xs ys i
  where
    suc_add : (m n : ℕ) → suc m + n ≡ suc (m + n)
    suc_add m n = omega arith

pub read_bytes-append :
    (xs ys : List ℕ) (i n : ℕ) → read_bytes (xs ++ ys) (length xs + i) n ≡ read_bytes ys i n
unfolding read_bytes
read_bytes-append xs ys i zero = refl
read_bytes-append xs ys i (suc n) =
    rw (get_elem-append xs ys i, add_suc (length xs) i, read_bytes-append xs ys (suc i) n) refl
  where
    add_suc : (m k : ℕ) → suc (m + k) ≡ m + suc k
    add_suc m k = omega arith

pub read_bytes-all : (bs ys : List ℕ) → read_bytes (bs ++ ys) 0 (length bs) ≡ some bs
unfolding read_bytes
read_bytes-all [] ys = refl
read_bytes-all (b ∷ bs) ys =
    rw
      (
        ap (λ k. read_bytes (b ∷ (bs ++ ys)) k (length bs)) (one_add 0),
        read_bytes-append (b ∷ []) (bs ++ ys) 0 (length bs),
        read_bytes-all bs ys,
      )
      refl
  where
    one_add : (k : ℕ) → suc k ≡ 1 + k
    one_add k = omega arith

module _ {F : Type 0} ⦃d : Double F⦄ where
  abbrev pub op_fun : ArithOp → F → F → F
  op_fun plus = d.add
  op_fun minus = d.sub
  op_fun times = d.mul
  op_fun over = d.div

  abbrev pub value : Arith F → F
  value (lit x) = x
  value (bin o l r) = op_fun o (value l) (value r)

  -- No value on the way is taken for the poison of the stack.
  abbrev pub AllClean : F → Arith F → Type 0
  AllClean data_poizon (lit x) = IsClean data_poizon x
  AllClean data_poizon (bin o l r) =
      AllClean data_poizon l
      × AllClean data_poizon r
      × IsClean data_poizon (op_fun o (value l) (value r))

-- The layout of doubles: eight bytes, which read back as the double.
pub record Layout {F : Type 0} (bytes_of : F → List ℕ) (double_of : List ℕ → F) : Type 0 where
  pub eight : (x : F) → length (bytes_of x) ≡ 8
  pub reads : (x : F) → double_of (bytes_of x) ≡ x

-- A machine with another stack and its carriage at another place.
abbrev pub moved_to : {F : Type 0} → Vm F → Stack F → ℕ → Vm F
moved_to vm stk c = record vm { user_stack = stk; carriage = c }

module _ {F : Type 0} (vm : Vm F) (pre ys : List ℕ) (code_split : vm.byte_code ≡ pre ++ ys)
    (at_pre : vm.carriage ≡ length pre) where
  byte_at : (i : ℕ) → get_elem? vm.byte_code (vm.carriage + i) ≡ get_elem? ys i
  byte_at i = rw (code_split, at_pre) (get_elem-append pre ys i)

  byte_here : get_elem? vm.byte_code vm.carriage ≡ get_elem? ys 0
  byte_here = ap (get_elem? vm.byte_code) (add_zero vm.carriage) ∙ byte_at 0
    where
      add_zero : (m : ℕ) → m ≡ m + 0
      add_zero m = omega arith

  bytes_at : (i n : ℕ) → read_bytes vm.byte_code (vm.carriage + i) n ≡ read_bytes ys i n
  bytes_at i n = rw (code_split, at_pre) (read_bytes-append pre ys i n)

  pub in_code : (y : ℕ) (zs : List ℕ) → ys ≡ y ∷ zs → ltb vm.carriage (length vm.byte_code) ≡ true
  in_code y zs e = rw (code_split, at_pre, e) (ground (arith, length-append pre (y ∷ zs)))

module _ {F : Type 0} ⦃d : Double F⦄ (data_poizon : F) (double_of : List ℕ → F)
    (to_unsigned : F → ℕ) (driver : Vm F → Option (Vm F)) (bytes_of : F → List ℕ)
    (layout : Layout bytes_of double_of) where
  pub step-lit :
      (fresh : ℕ → ℕ → F) (x : F) (pre post : List ℕ) (vm : Vm F)
      → ((i j : ℕ) → IsClean data_poizon (fresh i j))
      → vm.byte_code ≡ pre ++ (push_word ++ (bytes_of x ++ post))
      → vm.carriage ≡ length pre
      → IsClean data_poizon x
      → IsValid data_poizon vm.user_stack
      → (stk : Stack F) × (step data_poizon double_of to_unsigned driver fresh vm
          ≡ some (running (moved_to vm stk (vm.carriage + 8 + 8))))
        × IsValid data_poizon stk
        × (contents stk ≡ contents vm.user_stack ++ x ∷ [])
  unfolding step exec command_of move_carriage has_bit
  step-lit fresh x pre post vm fresh_clean split at_pre clean v =
      let ys = push_word ++ (bytes_of x ++ post) in
      let (stk, e, v', c) =
        exec_push-contents data_poizon double_of to_unsigned driver fresh vm imm_mask (bytes_of x)
          fresh_clean (unfold has_bit in refl) (unfold has_bit in refl)
          (bytes_at vm pre ys split at_pre 8 8
            ∙ read_bytes-append push_word (bytes_of x ++ post) 0 8
            ∙ ap (read_bytes (bytes_of x ++ post) 0) (sym (layout.eight x))
            ∙ read_bytes-all (bytes_of x) post)
          (subst (IsClean data_poizon) (sym (layout.reads x)) clean) v in
      (
        stk,
        rw (byte_here vm pre ys split at_pre, byte_at vm pre ys split at_pre 1, e) refl,
        v',
        c ∙ ap (λ y. contents vm.user_stack ++ y ∷ []) (layout.reads x),
      )

  pub step-op :
      (fresh : ℕ → ℕ → F) (o : ArithOp) (pre post : List ℕ) (vm : Vm F) (xs : List F) (a b : F)
      → ((i j : ℕ) → IsClean data_poizon (fresh i j))
      → vm.byte_code ≡ pre ++ (word_of (op_byte o) ++ post)
      → vm.carriage ≡ length pre
      → IsClean data_poizon (op_fun o a b)
      → IsValid data_poizon vm.user_stack
      → contents vm.user_stack ≡ xs ++ a ∷ b ∷ []
      → (stk : Stack F) × (step data_poizon double_of to_unsigned driver fresh vm
          ≡ some (running (moved_to vm stk (vm.carriage + 8))))
        × IsValid data_poizon stk
        × (contents stk ≡ xs ++ op_fun o a b ∷ [])
  unfolding step exec command_of move_carriage
  step-op fresh plus pre post vm xs a b fresh_clean split at_pre clean v h =
      let (stk, e, v', c) =
        exec_binary-contents data_poizon double_of to_unsigned driver fresh d.add vm xs a b
          fresh_clean clean v h in
      (stk, rw (byte_here vm pre _ split at_pre, e) refl, v', c)
  step-op fresh minus pre post vm xs a b fresh_clean split at_pre clean v h =
      let (stk, e, v', c) =
        exec_binary-contents data_poizon double_of to_unsigned driver fresh d.sub vm xs a b
          fresh_clean clean v h in
      (stk, rw (byte_here vm pre _ split at_pre, e) refl, v', c)
  step-op fresh times pre post vm xs a b fresh_clean split at_pre clean v h =
      let (stk, e, v', c) =
        exec_binary-contents data_poizon double_of to_unsigned driver fresh d.mul vm xs a b
          fresh_clean clean v h in
      (stk, rw (byte_here vm pre _ split at_pre, e) refl, v', c)
  step-op fresh over pre post vm xs a b fresh_clean split at_pre clean v h =
      let (stk, e, v', c) =
        exec_binary-contents data_poizon double_of to_unsigned driver fresh d.div vm xs a b
          fresh_clean clean v h in
      (stk, rw (byte_here vm pre _ split at_pre, e) refl, v', c)
