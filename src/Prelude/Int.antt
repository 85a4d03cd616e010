-- ===== src/Prelude/Int.antt =====
-- The integers, as far as the program compares them: `i32` priorities.
use Prim.Native.Nat.{ℕ}
use mathlib.Core.Path.{◌≡◌, refl, ap}
use native.Mathlib.Omega.{arith}
use mathlib.Core.Bool.{Bool, true, false}
use cmux_gtk.Prelude.Tests.{ltb}

-- `negsuc n` is -(n + 1).
pub data ℤ : Type 0 where
  pos : ℕ → ℤ
  negsuc : ℕ → ℤ

abbrev pub lt_int : ℤ → ℤ → Bool
lt_int (pos a) (pos b) = ltb a b
lt_int (pos a) (negsuc b) = false
lt_int (negsuc a) (pos b) = true
lt_int (negsuc a) (negsuc b) = ltb b a

pub lt_int_irrefl : (p : ℤ) → lt_int p p ≡ false
lt_int_irrefl (pos a) = ground arith
lt_int_irrefl (negsuc a) = ground arith

pub lt_int_trans : (p q r : ℤ) → lt_int p q ≡ true → lt_int q r ≡ true → lt_int p r ≡ true
lt_int_trans (pos a) (pos b) (pos c) h k = ground arith
lt_int_trans (pos a) (pos b) (negsuc c) h k = ground arith
lt_int_trans (pos a) (negsuc b) r h k = ground arith
lt_int_trans (negsuc a) (pos b) (pos c) h k = refl
lt_int_trans (negsuc a) (pos b) (negsuc c) h k = ground arith
lt_int_trans (negsuc a) (negsuc b) (pos c) h k = refl
lt_int_trans (negsuc a) (negsuc b) (negsuc c) h k = ground arith

pub lt_int_connex : (p q : ℤ) → lt_int p q ≡ false → lt_int q p ≡ false → p ≡ q
lt_int_connex (pos a) (pos b) h k = let e : a ≡ b = ground arith in ap pos e
lt_int_connex (pos a) (negsuc b) h k = ground arith
lt_int_connex (negsuc a) (pos b) h k = ground arith
lt_int_connex (negsuc a) (negsuc b) h k = let e : a ≡ b = ground arith in ap negsuc e
