-- ===== src/Common/Float.antt =====
-- `double` as an interface: the code's numbers with a fraction are of an abstract type `F`, with the
-- operations that the code applies to them. Nothing is assumed of the operations here; a theorem
-- that needs a law of the floating-point numbers takes it as a hypothesis.
use Prim.Native.Nat.{ℕ, zero, suc, ◌+◌, ◌-◌, ◌*◌, ◌/◌, ◌^◌}
use mathlib.Core.Bool.{Bool}
use droneengage_common.Common.Int.{ℤ, pos, negsuc, ltb_ℤ, leb_ℤ}

pub record FloatOps (F : Type 0) : Type 0 where
  -- the conversion of an integer
  pub of_int : ℤ → F
  -- the conversion to `int`, towards zero
  pub to_int : F → ℤ
  pub half : F
  -- the literal n / 10^k
  pub decimal : ℕ → ℕ → F
  pub infinity : F
  pub add : F → F → F
  pub sub : F → F → F
  pub mul : F → F → F
  pub div : F → F → F
  pub lt : F → F → Bool
  pub le : F → F → Bool

-- Numbers with three decimal places, for the evaluation of the model.
abbrev scale : ℤ → ℕ → ℤ
scale (pos n) k = pos (n * k)
scale (negsuc n) k = negsuc (suc n * k - 1)

abbrev shrink : ℤ → ℕ → ℤ
shrink (pos n) k = pos (n / k)
shrink (negsuc n) k = elim (suc n / k) [ zero ↦ pos 0 | suc m ↦ negsuc m ]

abbrev diff : ℕ → ℕ → ℤ
diff a b = elim (a - b) [
  | zero ↦ (elim (b - a) [ zero ↦ pos 0 | suc m ↦ negsuc m ])
  | suc m ↦ pos (suc m)
]

abbrev plus : ℤ → ℤ → ℤ
plus (pos a) (pos b) = pos (a + b)
plus (pos a) (negsuc b) = diff a (suc b)
plus (negsuc a) (pos b) = diff b (suc a)
plus (negsuc a) (negsuc b) = negsuc (a + suc b)

abbrev negate : ℤ → ℤ
negate (pos zero) = pos 0
negate (pos (suc n)) = negsuc n
negate (negsuc n) = pos (suc n)

abbrev times : ℤ → ℤ → ℤ
times a (pos n) = scale a n
times a (negsuc n) = negate (scale a (suc n))

abbrev over : ℤ → ℤ → ℤ
over a (pos n) = shrink (scale a 1000) n
over a (negsuc n) = negate (shrink (scale a 1000) (suc n))

abbrev pub milli : FloatOps ℤ
milli = record {
  of_int = λ n. scale n 1000;
  to_int = λ x. shrink x 1000;
  half = pos 500;
  decimal = λ n k. pos (n * 1000 / 10 ^ k);
  infinity = pos (2 ^ 64);
  add = plus;
  sub = λ a b. plus a (negate b);
  mul = λ a b. shrink (times a b) 1000;
  div = over;
  lt = ltb_ℤ;
  le = leb_ℤ;
}
