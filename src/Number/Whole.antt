-- ===== src/Number/Whole.antt =====
-- A number structure to run examples on: whole numbers, with literals and quotients rounded down to a
-- natural number, an angle of 0 for every inverse function, and no rotation.
use portrait_booth.Base.{ℕ, zero, suc, ◌/◌, ◌%◌, ◌^◌, ◌+◌, true, not, ◌&&◌, if◌then◌else◌}
use portrait_booth.Base.Int.{ℤ, pos, negsuc, ◌-ℤ◌, ◌*ℤ◌, leb_ℤ}
use portrait_booth.Number.{Number, int_ring}

abbrev pub quotient : ℤ → ℤ → ℤ
quotient (pos a) (pos b) = pos (a / b)
quotient _ _ = pos 0

-- `x` to the power of a natural number.
abbrev pub power : ℤ → ℕ → ℤ
power x zero = pos 1
power x (suc k) = x *ℤ power x k

-- The remainder has the sign of the dividend.
abbrev pub remainder : ℤ → ℤ → ℤ
remainder (pos a) (pos b) = pos (a % b)
remainder (negsuc a) (pos b) = pos 0 -ℤ pos ((a + 1) % b)
remainder x _ = x

abbrev pub size : ℤ → ℕ
size (pos a) = a
size (negsuc a) = a + 1

instance abbrev pub whole_numbers : Number ℤ
whole_numbers = record {
  ring = int_ring;
  lit = λ m k. pos (m / 10 ^ k);
  div = quotient;
  rem = remainder;
  le = leb_ℤ;
  lt = λ x y. not (leb_ℤ y x);
  eq = λ x y. leb_ℤ x y && leb_ℤ y x;
  abs = λ x. pos (size x);
  min = λ x y. if leb_ℤ x y then x else y;
  max = λ x y. if leb_ℤ x y then y else x;
  round = λ x. x;
  floor = λ x. x;
  ceil = λ x. x;
  fround = λ x. x;
  pow = λ x y. power x (size y);
  sqrt = λ x. x;
  hypot = λ x y. pos (size x + size y);
  hypot3 = λ x y z. pos (size x + size y + size z);
  asin = λ x. pos 0;
  atan2 = λ x y. pos 0;
  cos = λ x. pos 1;
  sin = λ x. pos 0;
  pi = pos 3;
  to_uint32 = size;
  is_finite = λ x. true;
  to_fixed = λ x k. "0";
}
