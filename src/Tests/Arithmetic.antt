-- ===== src/Tests/Arithmetic.antt =====
-- An arithmetic of natural numbers, in which the difference of two numbers is their distance.
use tatlang.Prelude.{ℕ, zero, suc, ◌+◌, ◌-◌, ◌*◌, ◌/◌, false, ltb}
use tatlang.Double.{Double}

abbrev pub distance : ℕ → ℕ → ℕ
distance a b = (a - b) + (b - a)

unfoldable pub power_of : ℕ → ℕ → ℕ
power_of a zero = 1
power_of a (suc n) = power_of a n * a

abbrev pub naturals : Double ℕ
naturals = record {
  of_nat = λ n. n;
  add = λ a b. a + b;
  sub = distance;
  mul = λ a b. a * b;
  div = λ a b. a / b;
  pow = power_of;
  log = λ a. a;
  sin = λ a. a;
  cos = λ a. a;
  sqrt = λ a. a;
  fabs = λ a. a;
  nan = 0;
  is_nan = λ a. false;
  less = ltb;
  eps = 1;
}
