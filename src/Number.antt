-- ===== src/Number.antt =====
-- The JavaScript numbers, as an interface: the program computes with doubles, of which the model
-- knows the operations that the code calls and no law. A theorem that needs a law says so.
pub mod Whole
use Prim.Native.String.{String}
use portrait_booth.Base.{ℕ, Bool}
use portrait_booth.Base.Int.{ℤ, pos, ◌+ℤ◌, ◌-ℤ◌, ◌*ℤ◌}

-- The part that affine maps are made of. `x - y` is `x + (-y)`, exactly, in IEEE arithmetic.
pub record Ring {ℓ} (R : Type ℓ) : Type ℓ where
  pub nought : R
  pub one : R
  pub add : R → R → R
  pub mul : R → R → R
  pub neg : R → R

-- `lit m k` is the literal m / 10 ^ k. The comparisons are those of JavaScript: each is false on NaN.
pub record Number {ℓ} (R : Type ℓ) : Type ℓ where
  pub ring : Ring R
  pub lit : ℕ → ℕ → R
  pub div : R → R → R
  pub rem : R → R → R
  pub le : R → R → Bool
  pub lt : R → R → Bool
  pub eq : R → R → Bool
  pub abs : R → R
  pub round : R → R
  pub floor : R → R
  pub ceil : R → R
  pub fround : R → R
  pub pow : R → R → R
  pub min : R → R → R
  pub max : R → R → R
  pub sqrt : R → R
  pub hypot : R → R → R
  pub hypot3 : R → R → R → R
  pub asin : R → R
  pub atan2 : R → R → R
  pub cos : R → R
  pub sin : R → R
  pub pi : R
  pub to_uint32 : R → ℕ
  pub is_finite : R → Bool
  pub to_fixed : R → ℕ → String

infixl 65 ◌⊕◌ ◌⊖◌
infixl 70 ◌⊗◌
abbrev pub ◌⊕◌ {ℓ} : {R : Type ℓ} ⦃r : Ring R⦄ → R → R → R
◌⊕◌ ⦃r⦄ x y = r.add x y

abbrev pub ◌⊗◌ {ℓ} : {R : Type ℓ} ⦃r : Ring R⦄ → R → R → R
◌⊗◌ ⦃r⦄ x y = r.mul x y

abbrev pub ◌⊖◌ {ℓ} : {R : Type ℓ} ⦃r : Ring R⦄ → R → R → R
◌⊖◌ ⦃r⦄ x y = r.add x (r.neg y)

-- A number structure is used as the ring that it holds.
instance abbrev pub number_ring {ℓ} : {R : Type ℓ} ⦃n : Number R⦄ → Ring R
number_ring ⦃n⦄ = n.ring

-- The whole numbers, on which doubles are exact up to 2 ^ 53.
abbrev pub int_ring : Ring ℤ
int_ring = record { nought = pos 0; one = pos 1; add = ◌+ℤ◌; mul = ◌*ℤ◌; neg = λ x. pos 0 -ℤ x }
