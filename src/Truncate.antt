-- ===== src/Truncate.antt =====
-- cmux/src/model/workspace.rs: `truncate_str`, which cuts a text at a number of bytes without
-- splitting a character.
pub mod Prefix
pub mod Examples
use cmux_gtk.Prelude.{
  ℕ, zero, suc, ◌-◌, leb, ◌==◌, Bool, true, false, List, [], ◌∷◌, Str, len_utf8, byte_len,
  if◌then◌else◌,
}

-- `str::is_char_boundary`: 0, the length, or the start of a character.
pub is_char_boundary : Str → ℕ → Bool
is_char_boundary [] i = i == 0
is_char_boundary (c ∷ s) zero = true
is_char_boundary (c ∷ s) (suc n) =
    let later = is_char_boundary s (suc n - len_utf8 c) in
    if leb (len_utf8 c) (suc n) then later else false

-- `&s[..end]` at a boundary
pub slice_to : Str → ℕ → Str
slice_to s zero = []
slice_to [] (suc n) = []
slice_to (c ∷ s) (suc n) = c ∷ slice_to s (suc n - len_utf8 c)

-- `while end > 0 && !s.is_char_boundary(end) { end -= 1 }`
pub boundary_before : Str → ℕ → ℕ
unfolding is_char_boundary
boundary_before s zero = zero
boundary_before s (suc n) =
    let earlier = boundary_before s n in if is_char_boundary s (suc n) then suc n else earlier

unfoldable pub truncate_str : Str → ℕ → Str
unfolding boundary_before slice_to
truncate_str s max_bytes =
    if leb (byte_len s) max_bytes then s else slice_to s (boundary_before s max_bytes)
