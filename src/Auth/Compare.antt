-- ===== src/Auth/Compare.antt =====
-- cmux/src/socket/auth.rs: the comparison in constant time finds every difference.
use Prim.Native.Nat.{bit_or, bit_xor}
use cmux_gtk.Prelude.{
  ℕ, ◌≡◌, ◌↔◌, refl, ap₂, sym, ◌==◌, true, List, [], ◌∷◌, length, arith, Bool-cases, inl, inr,
}
use cmux_gtk.Auth.{difference, same_bytes, verify_hmac_raw, verify_hmac, hex_encode}
use cmux_gtk.Auth.Bits.{bit_xor_zero, bit_xor_same, bit_or_zero_left, bit_or_zero_right}

difference_start : (acc : ℕ) (s t : List ℕ) → difference acc s t ≡ 0 → acc ≡ 0
unfolding difference
difference_start acc [] t h = h
difference_start acc (a ∷ s) [] h = h
difference_start acc (a ∷ s) (b ∷ t) h =
    bit_or_zero_left acc (bit_xor a b) (difference_start (bit_or acc (bit_xor a b)) s t h)

difference_zero : (acc : ℕ) (s t : List ℕ) → length s ≡ length t → difference acc s t ≡ 0 → s ≡ t
unfolding difference
difference_zero acc [] [] n h = refl
difference_zero acc [] (b ∷ t) n h = absurd (omega arith)
difference_zero acc (a ∷ s) [] n h = absurd (omega arith)
difference_zero acc (a ∷ s) (b ∷ t) n h =
    let start = difference_start (bit_or acc (bit_xor a b)) s t h in
    let heads = bit_xor_zero a b (bit_or_zero_right acc (bit_xor a b) start) in
    ap₂ ◌∷◌ heads (difference_zero (bit_or acc (bit_xor a b)) s t (omega arith) h)

difference_same : (s : List ℕ) → difference 0 s s ≡ 0
unfolding difference
difference_same [] = refl
difference_same (a ∷ s) = rw (bit_xor_same a) (difference_same s)

same_bytes_sound : (s t : List ℕ) → same_bytes s t ≡ true → s ≡ t
unfolding same_bytes
same_bytes_sound s t h = elim (Bool-cases (length s == length t)) [
  | inl e ↦ difference_zero 0 s t (ground arith) (ground arith)
  | inr e ↦ absurd (ground arith)
]

same_bytes_refl : (s : List ℕ) → same_bytes s s ≡ true
unfolding same_bytes
same_bytes_refl s = ground (arith, difference_same s)

-- Both verifications accept exactly the keyed hash of the message, in lower-case hexadecimal.
pub verify_hmac_raw_iff :
    (hmac : List ℕ → List ℕ → List ℕ) (key message response : List ℕ)
    → ((verify_hmac_raw hmac key message response ≡ true)
        ↔ (response ≡ hex_encode (hmac key message)))
      × (verify_hmac hmac key message response ≡ verify_hmac_raw hmac key message response)
unfolding verify_hmac_raw verify_hmac
verify_hmac_raw_iff hmac key message response = (
  (
    λ h. sym (same_bytes_sound (hex_encode (hmac key message)) response h),
    λ e. rw e (same_bytes_refl (hex_encode (hmac key message))),
  ),
  refl,
)
