-- ===== src/Auth/Bits.antt =====
-- The native `or` and `exclusive or`: when they give 0.
use Prim.Native.Nat.{bit_or, bit_xor, bit_or-bitwise, bit_xor-bitwise, digits, differ, max}
use cmux_gtk.Prelude.{ℕ, zero, suc, ◌/◌, ◌%◌, ◌≤◌, ◌≡◌, refl, ap, sym, ◌∙◌, arith}

differ_zero : (x y : ℕ) → differ x y ≡ 0 → x ≡ y
differ_zero zero y h = sym h
differ_zero (suc x) zero h = absurd (omega arith)
differ_zero (suc x) (suc y) h = ap suc (differ_zero x y h)

differ_self : (x : ℕ) → differ x x ≡ 0
differ_self zero = refl
differ_self (suc x) = differ_self x

digits-differ : (n a b : ℕ) → a ≤ n → digits (λ b. b) differ n a b ≡ 0 → a ≡ b
digits-differ zero zero b h e = sym e
digits-differ zero (suc a) b h e = elim h [ ]
digits-differ (suc n) zero b h e = sym e
digits-differ (suc n) (suc a) b h e =
    let half : suc a / 2 ≡ b / 2 =
      digits-differ n (suc a / 2) (b / 2) (omega arith) (omega arith) in
    let last : suc a % 2 ≡ b % 2 = differ_zero (suc a % 2) (b % 2) (omega arith) in omega arith

digits_same : (n a : ℕ) → a ≤ n → digits (λ b. b) differ n a a ≡ 0
digits_same zero zero h = refl
digits_same zero (suc a) h = elim h [ ]
digits_same (suc n) zero h = refl
digits_same (suc n) (suc a) h =
    rw (digits_same n (suc a / 2) (omega arith), differ_self (suc a % 2)) refl

pub bit_xor_zero : (a b : ℕ) → bit_xor a b ≡ 0 → a ≡ b
bit_xor_zero a b h = digits-differ a a b (omega arith) (sym (bit_xor-bitwise a b) ∙ h)

pub bit_xor_same : (a : ℕ) → bit_xor a a ≡ 0
bit_xor_same a = bit_xor-bitwise a a ∙ digits_same a a (omega arith)

max_zero : (x y : ℕ) → max x y ≡ 0 → (x ≡ 0) × (y ≡ 0)
max_zero x y h = (omega arith, omega arith)

digits-max : (n a b : ℕ) → a ≤ n → digits (λ b. b) max n a b ≡ 0 → (a ≡ 0) × (b ≡ 0)
digits-max zero zero b h e = (refl, e)
digits-max zero (suc a) b h e = elim h [ ]
digits-max (suc n) zero b h e = (refl, e)
digits-max (suc n) (suc a) b h e =
    let (x, y) = digits-max n (suc a / 2) (b / 2) (omega arith) (omega arith) in
    let (u, v) = max_zero (suc a % 2) (b % 2) (omega arith) in (omega arith, omega arith)

pub bit_or_zero_left : (a b : ℕ) → bit_or a b ≡ 0 → a ≡ 0
bit_or_zero_left a b h = (digits-max a a b (omega arith) (sym (bit_or-bitwise a b) ∙ h)).0

pub bit_or_zero_right : (a b : ℕ) → bit_or a b ≡ 0 → b ≡ 0
bit_or_zero_right a b h = (digits-max a a b (omega arith) (sym (bit_or-bitwise a b) ∙ h)).1
