-- ===== src/Prelude/Float.antt =====
-- The operations on `f64` that the program makes, over an abstract carrier.
use Prim.Native.Nat.{ℕ, ◌+◌, ◌-◌}
use mathlib.Core.Path.{◌≡◌, refl}
use native.Mathlib.Omega.{arith}
use mathlib.Core.Bool.{Bool, true, false}
use cmux_gtk.Prelude.Tests.{ltb, ◌==◌, if◌then◌else◌}

-- `lt` is `<` and `eq` is `==`, both false where a side is NaN; the constants are those of the source.
pub record F64 (F : Type 0) : Type 0 where
  pub lt : F → F → Bool
  pub eq : F → F → Bool
  pub is_finite : F → Bool
  pub total_lt : F → F → Bool
  pub add : F → F → F
  pub sub : F → F → F
  pub neg : F → F
  pub abs : F → F
  pub zero : F
  pub one : F
  pub half : F
  pub p05 : F
  pub p95 : F
  pub epsilon : F

-- What the theorems use of `<`, all of which floats have: the order of the constants, that 0.5 is
-- finite and within epsilon of itself, that 0 and 1 are no NaN, and that `<` is a strict order.
pub record IsOrdered {F : Type 0} (f : F64 F) : Type 0 where
  pub unit_range : f.lt f.one f.zero ≡ false
  pub inner_range : f.lt f.p95 f.p05 ≡ false
  pub half_low : f.lt f.half f.zero ≡ false
  pub half_high : f.lt f.one f.half ≡ false
  pub half_finite : f.is_finite f.half ≡ true
  pub half_centre : f.lt f.epsilon (f.abs (f.sub f.half f.half)) ≡ false
  pub zero_number : f.eq f.zero f.zero ≡ true
  pub one_number : f.eq f.one f.one ≡ true
  pub irrefl : (x : F) → f.lt x x ≡ false
  pub trans : (x y z : F) → f.lt x y ≡ true → f.lt y z ≡ true → f.lt x z ≡ true

-- What `f64::total_cmp` promises of `total_lt`, a total order: `total_lt a b` false is `b <= a`.
pub record IsTotal {F : Type 0} (f : F64 F) : Type 0 where
  pub irrefl : (x : F) → f.total_lt x x ≡ false
  pub asym : (x y : F) → f.total_lt x y ≡ true → f.total_lt y x ≡ false
  pub trans : (x y z : F) → f.total_lt x y ≡ false → f.total_lt y z ≡ false → f.total_lt x z ≡ false

module _ {F : Type 0} ⦃f : F64 F⦄ where
  -- `f64::clamp`: a NaN is returned as it is.
  abbrev pub clamp : F → F → F → F
  clamp x lo hi = if f.lt x lo then lo else if f.lt hi x then hi else x

-- A carrier for tests: thousandths, with 1000 for zero.
instance abbrev pub milli : F64 ℕ
milli = record {
  lt = ltb;
  eq = λ a b. a == b;
  is_finite = λ a. true;
  total_lt = ltb;
  add = λ a b. a + b - 1000;
  sub = λ a b. a + 1000 - b;
  neg = λ a. 2000 - a;
  abs = λ a. if ltb a 1000 then 2000 - a else a;
  zero = 1000;
  one = 2000;
  half = 1500;
  p05 = 1050;
  p95 = 1950;
  epsilon = 1000;
}

pub milli-IsOrdered : IsOrdered milli
milli-IsOrdered = record {
  unit_range = refl;
  inner_range = refl;
  half_low = refl;
  half_high = refl;
  half_finite = refl;
  half_centre = refl;
  zero_number = refl;
  one_number = refl;
  irrefl = λ x. ground arith;
  trans = λ x y z h k. ground arith;
}

pub milli-IsTotal : IsTotal milli
milli-IsTotal = record {
  irrefl = λ x. ground arith;
  asym = λ x y h. ground arith;
  trans = λ x y z h k. ground arith;
}
