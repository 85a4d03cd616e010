-- ===== src/Auth/Hex.antt =====
-- cmux/src/socket/auth.rs: `hex_decode` reads back what `hex_encode` writes.
use Prim.Native.Nat.{bit_or}
use cmux_gtk.Prelude.{
  ℕ, zero, suc, ◌*◌, ◌/◌, ◌%◌, ◌<◌, ◌≡◌, refl, ap, ◌∙◌, ◌==◌, Bool, true, ◌&&◌, some, List, [], ◌∷◌,
  Str, byte_len, length, arith, Bool-cases, inl, inr,
}
use cmux_gtk.Auth.{hex_encode, hex_decode, decode_pairs, hex_digit, to_digit, push_front}

abbrev pub AreBytes : List ℕ → Type 0
AreBytes [] = Unit
AreBytes (b ∷ bytes) = (b < 256) × AreBytes bytes

-- The test holds below `n`.
abbrev all_below : ℕ → (ℕ → Bool) → Bool
all_below zero test = true
all_below (suc n) test = test n && all_below n test

all_below_sound :
    (n : ℕ) (test : ℕ → Bool) → all_below n test ≡ true → (i : ℕ) → i < n → test i ≡ true
all_below_sound zero test h i lt = elim lt [ ]
all_below_sound (suc n) test h i lt = elim (Bool-cases (i == n)) [
  | inl e ↦ let same : i ≡ n = ground arith in rw same (ground arith)
  | inr e ↦ all_below_sound n test (ground arith) i (ground arith)
]

byte_joined : (b : ℕ) → b < 256 → bit_or (b / 16 * 16) (b % 16) % 256 ≡ b
byte_joined b h =
    let t = all_below_sound 256 (λ i. bit_or (i / 16 * 16) (i % 16) % 256 == i) refl b h in
    ground arith

to_digit-hex_digit : (d : ℕ) → d < 16 → to_digit (hex_digit d) ≡ some d
unfolding to_digit hex_digit
to_digit-hex_digit d h = ground arith

hex_digit_ascii : (d : ℕ) → d < 16 → hex_digit d < 128
unfolding hex_digit
hex_digit_ascii d h = ground arith

decode_two :
    (a b hi lo : ℕ) (s : Str)
    → to_digit a ≡ some hi
    → to_digit b ≡ some lo
    → decode_pairs (a ∷ b ∷ s) ≡ push_front hi lo (decode_pairs s)
unfolding decode_pairs
decode_two a b hi lo s h k = rw (h, k, decode_pairs) refl

decode_pairs-hex_encode :
    (bytes : List ℕ) → AreBytes bytes → decode_pairs (hex_encode bytes) ≡ some bytes
unfolding hex_encode
decode_pairs-hex_encode [] h = unfold decode_pairs in refl
decode_pairs-hex_encode (b ∷ bytes) (hb, h) =
    let hi = to_digit-hex_digit (b / 16) (omega arith) in
    let lo = to_digit-hex_digit (b % 16) (omega arith) in
    decode_two (hex_digit (b / 16)) (hex_digit (b % 16)) (b / 16) (b % 16) (hex_encode bytes) hi lo
    ∙ (ap (push_front (b / 16) (b % 16)) (decode_pairs-hex_encode bytes h)
        ∙ ap (λ c. some (c ∷ bytes)) (byte_joined b hb))

byte_len-hex_encode :
    (bytes : List ℕ) → AreBytes bytes → byte_len (hex_encode bytes) ≡ 2 * length bytes
unfolding hex_encode
byte_len-hex_encode [] h = refl
byte_len-hex_encode (b ∷ bytes) (hb, h) =
    let hi = hex_digit_ascii (b / 16) (omega arith) in
    let lo = hex_digit_ascii (b % 16) (omega arith) in ground (arith, byte_len-hex_encode bytes h)

-- Bytes that are written in hexadecimal are read back.
pub hex_decode-hex_encode :
    (bytes : List ℕ) → AreBytes bytes → hex_decode (hex_encode bytes) ≡ some bytes
unfolding hex_decode
hex_decode-hex_encode bytes h =
    let even : (byte_len (hex_encode bytes) % 2 == 0) ≡ true =
      rw (byte_len-hex_encode bytes h) (ground arith) in
    rw even (decode_pairs-hex_encode bytes h)
