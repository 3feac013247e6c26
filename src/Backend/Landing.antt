-- ===== src/Backend/Landing.antt =====
-- Where the jumps of loops and conditions land.
use tatlang.Prelude.{
  ℕ, ◌+◌, ◌<◌, ◌≡◌, ◌≢◌, refl, sym, ap, ◌∙◌, subst, ◌⊎◌, inl, inr, leb, ltb, ◌&&◌, Bool-cases, List,
  [], ◌∷◌, ◌++◌, arith,
}
use tatlang.Tree.{Tree}
use tatlang.Backend.Lines.{
  while_label, break_label, Line, label, jump, push_int, je, jmp, BkdError, bkd_all_good, Manager,
  Outcome, fault, done, Gen, prepend, and_then, ◌⟫◌, write,
}
use tatlang.Backend.Codegen.{write_while, write_if, write_if_jump, write_if_end}
use tatlang.Backend.Codegen.Asmbl.{asmbl}
use tatlang.Backend.Labels.{Valid, Tidy, Neat, count, defines_break}
use tatlang.Backend.Resolved.{asmbl-NeatGen}

module _ {F : Type 0} where
  -- Two writers, one behind the other, have succeeded if each of them has.
  record Parts (g h : Gen F) (n : ℕ) (m : Manager) (n' : ℕ) (m' : Manager) (out : List (Line F))
      : Type 0 where
    n₁ : ℕ
    m₁ : Manager
    a : List (Line F)
    b : List (Line F)
    first : g n m ≡ done bkd_all_good n₁ m₁ a
    second : h n₁ m₁ ≡ done bkd_all_good n' m' b
    whole : out ≡ a ++ b

  ⟫-Parts :
      (g h : Gen F) (n : ℕ) (m : Manager) (n' : ℕ) (m' : Manager) (out : List (Line F))
      → (g ⟫ h) n m ≡ done bkd_all_good n' m' out
      → Parts g h n m n' m' out
  ⟫-Parts g h n m n' m' out e = go (g n m) refl e
    where
      behind :
          (n₁ : ℕ) (m₁ : Manager) (a : List (Line F)) (o : Outcome F)
          → g n m ≡ done bkd_all_good n₁ m₁ a
          → h n₁ m₁ ≡ o
          → prepend a o ≡ done bkd_all_good n' m' out
          → Parts g h n m n' m' out
      behind n₁ m₁ a fault p q r = cc
      behind n₁ m₁ a (done e n₂ m₂ b) p q r = record {
        n₁ = n₁;
        m₁ = m₁;
        a = a;
        b = b;
        first = p;
        second = cc;
        whole = cc;
      }

      go :
          (o : Outcome F)
          → g n m ≡ o
          → and_then o h ≡ done bkd_all_good n' m' out
          → Parts g h n m n' m' out
      go fault p q = cc
      go (done bkd_all_good n₁ m₁ a) p q = behind n₁ m₁ a (h n₁ m₁) p refl q
      go (done _ n₁ m₁ a) p q = cc

  Neat-done :
      (k n n' : ℕ) (m : Manager) (o : Outcome F) (out : List (Line F))
      → o ≡ done bkd_all_good n' m out
      → Neat k n o
      → Tidy k n n' out
  Neat-done k n n' m o out e h = (subst (Neat k n) e h).1

  done-inj :
      (e e' : BkdError) (n n' : ℕ) (m m' : Manager) (a a' : List (Line F))
      → done e n m a ≡ done e' n' m' a'
      → (n ≡ n') × (m ≡ m') × (a ≡ a')
  done-inj e e' n n' m m' a a' h = (cc, cc, cc)

  joined :
      (out a b c e mid : List (Line F))
      → out ≡ a ++ b
      → b ≡ mid ++ c
      → c ≡ e
      → out ≡ a ++ (mid ++ e)
  joined out a b c e mid p q r = rw (p, q, r) refl

  -- The label that a body is jumped over to, where the counter goes from `n₁` to `n₂` in the body.
  landing :
      (n₁ n₂ : ℕ) (b : List (Line F))
      → Tidy n₁ n₁ n₂ b
      → ((n₁ ≡ n₂) × (count (defines_break n₁) b ≡ 0))
        ⊎ ((n₁ ≢ n₂) × (count (defines_break n₁) b ≡ 1))
  landing n₁ n₂ b tidy = elim (Bool-cases (leb n₁ n₁ && ltb n₁ n₂)) [
    | inl h ↦ inr (λ e. ground arith, ground arith)
    | inr h ↦ inl (ground arith, ground arith)
  ]

  untouched :
      (k n₁ n₂ : ℕ) (b : List (Line F)) → Tidy k n₁ n₂ b → k < n₁ → count (defines_break k) b ≡ 0
  untouched k n₁ n₂ b tidy h = ground (arith, tidy.defined)

-- Where the code of a condition over trees of the language is written, it is the lines that `asmbl`
-- writes for the test, the jump, the lines that it writes for the body, and a label. The jump goes to that label if the body has taken no label; if it has, then the
-- label of the jump is another one, and it is defined once among the lines of the body.
pub write_if-lands :
    {F : Type 0} (l r : Tree F) (n : ℕ) (m : Manager) (n' : ℕ) (m' : Manager) (out : List (Line F))
    → Valid l
    → Valid r
    → write_if (asmbl l) (asmbl r) n m ≡ done bkd_all_good n' m' out
    → (n₁ : ℕ) × (m₁ : Manager) × (n₂ : ℕ) × (m₂ : Manager) × (c : List (Line F)) × (b : List
        (Line F))
      × (asmbl l n m ≡ done bkd_all_good n₁ m₁ c)
      × (asmbl r n₁ m₁ ≡ done bkd_all_good n₂ m₂ b)
      × (out ≡ c ++ push_int 0 ∷ jump je (break_label n₁) ∷ (b ++ label (break_label n₂) ∷ []))
      × (n' ≡ n₂ + 1)
      × (((n₁ ≡ n₂) × (count (defines_break n₁) b ≡ 0))
          ⊎ ((n₁ ≢ n₂) × (count (defines_break n₁) b ≡ 1)))
unfolding write_if
write_if-lands {F} l r n m n' m' out vl vr h =
    let test = ⟫-Parts (asmbl l) (write_if_jump ⟫ asmbl r ⟫ write_if_end) n m n' m' out h in
    let rest =
      ⟫-Parts write_if_jump (asmbl r ⟫ write_if_end) test.n₁ test.m₁ n' m' test.b test.second in
    let body = ⟫-Parts (asmbl r) write_if_end rest.n₁ rest.m₁ n' m' rest.b rest.second in
    let jumped = done-inj _ _ _ _ _ _ _ _ rest.first in
    let ended = done-inj _ _ _ _ _ _ _ _ body.second in
    let tidy : Tidy test.n₁ rest.n₁ body.n₁ body.a =
      Neat-done test.n₁ rest.n₁ body.n₁ body.m₁ _ body.a body.first
        (asmbl-NeatGen F test.n₁ r vr rest.n₁ rest.m₁) in
    (
      test.n₁,
      test.m₁,
      body.n₁,
      body.m₁,
      test.a,
      body.a,
      test.first,
      subst (λ x. asmbl r x test.m₁ ≡ done bkd_all_good body.n₁ body.m₁ body.a) (sym jumped.0)
          (subst (λ x. asmbl r rest.n₁ x ≡ done bkd_all_good body.n₁ body.m₁ body.a) (sym jumped.1)
            body.first),
      joined out test.a test.b rest.b _ (push_int 0 ∷ jump je (break_label test.n₁) ∷ []) test.whole
          (rest.whole ∙ ap (λ x. x ++ rest.b) (sym jumped.2))
          (body.whole ∙ ap (λ x. body.a ++ x) (sym ended.2)),
      sym ended.0,
      landing test.n₁ body.n₁ body.a
          (subst (λ x. Tidy test.n₁ x body.n₁ body.a) (sym jumped.0) tidy),
    )

-- Where the code of a loop over trees of the language is written, it is the label of its start, the
-- lines that `asmbl` writes for the test, the jump behind the loop, the lines that it writes for the
-- body, the jump to the start, and the label behind the loop. That label is defined neither in the test nor in the body.
pub write_while-lands :
    {F : Type 0} (l r : Tree F) (n : ℕ) (m : Manager) (n' : ℕ) (m' : Manager) (out : List (Line F))
    → Valid l
    → Valid r
    → write_while (asmbl l) (asmbl r) n m ≡ done bkd_all_good n' m' out
    → (n₁ : ℕ) × (m₁ : Manager) × (n₂ : ℕ) × (c : List (Line F)) × (b : List (Line F)) × (asmbl l
          (n + 1)
          m
        ≡ done bkd_all_good n₁ m₁ c)
      × (asmbl r n₁ m₁ ≡ done bkd_all_good n₂ m' b)
      × (n' ≡ n₂)
      × (out
          ≡ label (while_label n)
            ∷ (c
                ++ push_int 0
                  ∷ jump je (break_label n)
                  ∷ (b ++ jump jmp (while_label n) ∷ label (break_label n) ∷ [])))
      × (count (defines_break n) c ≡ 0)
      × (count (defines_break n) b ≡ 0)
unfolding write_while
write_while-lands {F} l r n m n' m' out vl vr h =
    let start : Gen F = λ n m. done bkd_all_good (n + 1) m (label (while_label n) ∷ []) in
    let leave : Gen F = write (push_int 0 ∷ jump je (break_label n) ∷ []) in
    let last : Gen F = write (jump jmp (while_label n) ∷ label (break_label n) ∷ []) in
    let begun = ⟫-Parts start (asmbl l ⟫ leave ⟫ asmbl r ⟫ last) n m n' m' out h in
    let test =
      ⟫-Parts (asmbl l) (leave ⟫ asmbl r ⟫ last) begun.n₁ begun.m₁ n' m' begun.b begun.second in
    let left = ⟫-Parts leave (asmbl r ⟫ last) test.n₁ test.m₁ n' m' test.b test.second in
    let body = ⟫-Parts (asmbl r) last left.n₁ left.m₁ n' m' left.b left.second in
    let started = done-inj _ _ _ _ _ _ _ _ begun.first in
    let jumped = done-inj _ _ _ _ _ _ _ _ left.first in
    let ended = done-inj _ _ _ _ _ _ _ _ body.second in
    let tidy_test : Tidy n begun.n₁ test.n₁ test.a =
      Neat-done n begun.n₁ test.n₁ test.m₁ _ test.a test.first
        (asmbl-NeatGen F n l vl begun.n₁ begun.m₁) in
    let tidy_body : Tidy n left.n₁ body.n₁ body.a =
      Neat-done n left.n₁ body.n₁ body.m₁ _ body.a body.first
        (asmbl-NeatGen F n r vr left.n₁ left.m₁) in
    (
      test.n₁,
      test.m₁,
      body.n₁,
      test.a,
      body.a,
      subst (λ x. asmbl l x m ≡ done bkd_all_good test.n₁ test.m₁ test.a) (sym started.0)
          (subst (λ x. asmbl l begun.n₁ x ≡ done bkd_all_good test.n₁ test.m₁ test.a)
            (sym started.1) test.first),
      subst (λ x. asmbl r test.n₁ test.m₁ ≡ done bkd_all_good body.n₁ x body.a) ended.1
          (subst (λ x. asmbl r x test.m₁ ≡ done bkd_all_good body.n₁ body.m₁ body.a) (sym jumped.0)
            (subst (λ x. asmbl r left.n₁ x ≡ done bkd_all_good body.n₁ body.m₁ body.a)
              (sym jumped.1) body.first)),
      sym ended.0,
      begun.whole
          ∙ ap (λ x. x ++ begun.b) (sym started.2)
          ∙ ap (λ x. label (while_label n) ∷ x)
              (joined begun.b test.a test.b left.b _ (push_int 0 ∷ jump je (break_label n) ∷ [])
                test.whole (left.whole ∙ ap (λ x. x ++ left.b) (sym jumped.2))
                (body.whole ∙ ap (λ x. body.a ++ x) (sym ended.2))),
      untouched n begun.n₁ test.n₁ test.a tidy_test (omega (arith, started.0)),
      untouched n left.n₁ body.n₁ body.a tidy_body
          (omega (arith, started.0, jumped.0, tidy_test.grows)),
    )
