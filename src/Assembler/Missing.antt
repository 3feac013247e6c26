-- ===== src/Assembler/Missing.antt =====
-- CPU/CPU/Assembler/src/assembler_additional.cpp: which missing labels `arrange_labels` reports.
use tatlang.Prelude.{
  ℕ, suc, length, ltb, if◌then◌else◌, ◌≡◌, refl, ap, sym, ◌∙◌, Bool, true, false, Option, none,
  some, List, [], ◌∷◌,
}
use tatlang.Assembler.Buffer.{◌>>=◌}
use tatlang.Assembler.Commands.{NamePos, CompileManager, cycle_limit}
use tatlang.Assembler.Labels.{
  AsmErr, asm_all_good, label_doesnt_exist, find_label, fix_jump, error_of, arrange_jumps,
  arrange_labels,
}

-- What the loop does with a jump whose label was looked up.
abbrev arranged :
    List NamePos
    → NamePos
    → List NamePos
    → Bool
    → AsmErr
    → List ℕ
    → Option ℕ
    → Option (AsmErr × List ℕ)
arranged labels j jmps found e cells none =
    if ltb (suc (length labels)) cycle_limit
    then arrange_jumps labels jmps found (error_of found e) cells
    else some (error_of found e, cells)
arranged labels j jmps found e cells (some p) =
    fix_jump cells j.ip_pos p >>= arrange_jumps labels jmps true e

arrange_jumps-arranged :
    (labels : List NamePos) (j : NamePos) (jmps : List NamePos) (found : Bool) (e : AsmErr)
    (cells : List ℕ) (o : Option ℕ)
    → find_label labels j.name ≡ o
    → arrange_jumps labels (j ∷ jmps) found e cells ≡ arranged labels j jmps found e cells o
unfolding arrange_jumps
arrange_jumps-arranged labels j jmps found e cells none p = rw (p, arrange_jumps) refl
arrange_jumps-arranged labels j jmps found e cells (some q) p = rw (p, arrange_jumps) refl

-- The error that comes out, where the loop does not leave the array.
abbrev Reports : AsmErr → Option (AsmErr × List ℕ) → Type 0
Reports e none = Unit
Reports e (some (e', cells)) = e' ≡ e

either-Reports :
    (b : Bool) (e : AsmErr) (x y : Option (AsmErr × List ℕ))
    → Reports e x
    → Reports e y
    → Reports e (if b then x else y)
either-Reports true e x y p q = p
either-Reports false e x y p q = q

bind-Reports :
    (e : AsmErr) (o : Option (List ℕ)) (f : List ℕ → Option (AsmErr × List ℕ))
    → ((cells : List ℕ) → Reports e (f cells))
    → Reports e (o >>= f)
bind-Reports e none f h = tt
bind-Reports e (some cells) f h = h cells

-- Where no further jump changes the error.
keeps-error :
    (labels jmps : List NamePos) (found : Bool) (e : AsmErr) (cells : List ℕ)
    → error_of found e ≡ e
    → Reports e (arrange_jumps labels jmps found e cells)
keeps-error labels [] found e cells h = unfold arrange_jumps in refl
keeps-error labels (j ∷ jmps) found e cells h =
    rw (arrange_jumps-arranged labels j jmps found e cells (find_label labels j.name) refl) (
      each (find_label labels j.name) (keeps-error labels jmps found e cells h)
        (λ fixed. keeps-error labels jmps true e fixed refl))
  where
    each :
        (o : Option ℕ)
        → Reports e (arrange_jumps labels jmps found e cells)
        → ((fixed : List ℕ) → Reports e (arrange_jumps labels jmps true e fixed))
        → Reports e (arranged labels j jmps found e cells o)
    each none same further = rw h (either-Reports _ e _ (some (e, cells)) same refl)
    each (some p) same further =
        bind-Reports e (fix_jump cells j.ip_pos p) (arrange_jumps labels jmps true e) further

-- What `arrange_labels` reports when the label of the first jump was looked up.
abbrev pub main_error : Option ℕ → AsmErr
main_error none = label_doesnt_exist
main_error (some p) = asm_all_good

first-Reports :
    (labels : List NamePos) (j : NamePos) (jmps : List NamePos) (cells : List ℕ) (o : Option ℕ)
    → find_label labels j.name ≡ o
    → Reports (main_error o) (arrange_jumps labels (j ∷ jmps) false asm_all_good cells)
first-Reports labels j jmps cells none p =
    rw (arrange_jumps-arranged labels j jmps false asm_all_good cells none p) (
      either-Reports _ label_doesnt_exist _ (some (label_doesnt_exist, cells))
        (after_missing labels jmps cells) refl)
  where
    after_missing :
        (ls js : List NamePos) (c : List ℕ)
        → Reports label_doesnt_exist (arrange_jumps ls js false label_doesnt_exist c)
    after_missing ls js c = keeps-error ls js false label_doesnt_exist c refl
first-Reports labels j jmps cells (some q) p =
    rw (arrange_jumps-arranged labels j jmps false asm_all_good cells (some q) p) (
      bind-Reports asm_all_good (fix_jump cells j.ip_pos q)
        (arrange_jumps labels jmps true asm_all_good)
        (λ fixed. keeps-error labels jmps true asm_all_good fixed refl))

Reports-same :
    (e e' : AsmErr) (cells : List ℕ) (o : Option (AsmErr × List ℕ))
    → Reports e o
    → o ≡ some (e', cells)
    → e' ≡ e
Reports-same e e' cells none h p = cc
Reports-same e e' cells (some (e'', cells')) h p = cc

-- The error that `arrange_labels` reports depends on the first jump only, the one to main: where its
-- label is among the first 10000, the code is reported to be good, though the labels of all further
-- jumps may be missing; where it is not, that is reported.
pub arrange_labels-first :
    {F : Type 0} (m : CompileManager F) (j : NamePos) (jmps : List NamePos) (e : AsmErr)
    (cells : List ℕ)
    → m.jmp_poses ≡ j ∷ jmps
    → arrange_labels m ≡ some (e, cells)
    → e ≡ main_error (find_label m.labels j.name)
unfolding arrange_labels
arrange_labels-first m j jmps e cells jumps run =
    Reports-same (main_error (find_label m.labels j.name)) e cells
      (arrange_jumps m.labels (j ∷ jmps) false asm_all_good m.byte_code.cells)
      (first-Reports m.labels j jmps m.byte_code.cells (find_label m.labels j.name) refl)
      (ap (λ js. arrange_jumps m.labels js false asm_all_good m.byte_code.cells) (sym jumps) ∙ run)
