-- ===== src/Double.antt =====
-- Utils/src/utils.cpp: the comparison of doubles up to 1e-7, over an abstract `double`.
-- The arithmetic of `double` and the functions of <math.h> are a parameter of the development.
use tatlang.Prelude.{ℕ, Bool, true, false, ◌&&◌, if◌then◌else◌}

-- What the program uses of `double` and of <math.h>. `eps` is the constant 1e-7.
pub record Double (F : Type 0) : Type 0 where
  pub of_nat : ℕ → F
  pub add : F → F → F
  pub sub : F → F → F
  pub mul : F → F → F
  pub div : F → F → F
  pub pow : F → F → F
  pub log : F → F
  pub sin : F → F
  pub cos : F → F
  pub sqrt : F → F
  pub fabs : F → F
  pub nan : F
  pub is_nan : F → Bool
  pub less : F → F → Bool
  pub eps : F

-- The results -1, 0 and 1 of `cmp_double`.
pub data Cmp : Type 0 where
  below same above : Cmp

abbrev pub is_same : Cmp → Bool
is_same same = true
is_same _ = false

module _ {F : Type 0} ⦃d : Double F⦄ where
  unfoldable pub cmp_double : F → F → Cmp
  cmp_double a b =
      if d.is_nan a && d.is_nan b
      then same
      else if d.less (d.fabs (d.sub a b)) d.eps
      then same
      else if d.less d.eps (d.sub a b)
      then above
      else below
