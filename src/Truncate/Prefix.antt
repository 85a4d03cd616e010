-- ===== src/Truncate/Prefix.antt =====
-- cmux/src/model/workspace.rs: what `truncate_str` returns is the longest prefix that fits.
use cmux_gtk.Prelude.{
  ℕ, zero, suc, ◌+◌, ◌-◌, ◌≤◌, ◌<◌, leb, ◌≡◌, refl, ap, sym, true, false, [], ◌∷◌, ◌++◌, Str,
  len_utf8, byte_len, arith, Bool-cases, inl, inr, if◌then◌else◌,
}
use mathlib.Core.Path.{subst}
use cmux_gtk.Truncate.{is_char_boundary, slice_to, boundary_before, truncate_str}

len_utf8_positive : (c : ℕ) → 0 < len_utf8 c
len_utf8_positive c = ground arith

-- The prefix `p` of `s` has at most `n` bytes, and the next character, if any, does not fit.
pub record IsLongest (n : ℕ) (s p : Str) : Type 0 where
  pub rest : Str
  pub whole : s ≡ p ++ rest
  pub fits : byte_len p ≤ n
  pub full : (c : ℕ) (t : Str) → rest ≡ c ∷ t → n < byte_len p + len_utf8 c

-- The longest prefix by characters.
fit : Str → ℕ → Str
fit [] n = []
fit (c ∷ s) n = let later = fit s (n - len_utf8 c) in if leb (len_utf8 c) n then c ∷ later else []

head_eq : (c d : ℕ) (s t : Str) → c ∷ s ≡ d ∷ t → c ≡ d
head_eq c d s t h = ground arith

fit-IsLongest : (s : Str) (n : ℕ) → IsLongest n s (fit s n)
unfolding fit
fit-IsLongest [] n = record {
  rest = [];
  whole = refl;
  fits = omega arith;
  full = λ c t e. ground arith;
}
fit-IsLongest (c ∷ s) n = elim (Bool-cases (leb (len_utf8 c) n)) [
  | inr e ↦ rw e (record {
    rest = c ∷ s;
    whole = refl;
    fits = omega arith;
    full = λ d t h. let same : c ≡ d = head_eq c d s t h in ground arith;
  })
  | inl e ↦
      let h = fit-IsLongest s (n - len_utf8 c) in
      rw e (record {
        rest = h.rest;
        whole = ap (λ x. c ∷ x) h.whole;
        fits = ground (arith, h.fits);
        full = λ d t k. ground (arith, h.full d t k);
      })
]

-- The loop ends at the length of the longest prefix.
boundary_before_zero : (n : ℕ) → boundary_before [] n ≡ 0
unfolding boundary_before is_char_boundary
boundary_before_zero zero = refl
boundary_before_zero (suc n) = ground (arith, boundary_before_zero n)

slice_to_zero : (s : Str) → slice_to s 0 ≡ []
unfolding slice_to
slice_to_zero [] = refl
slice_to_zero (c ∷ s) = refl

start_boundary : (s : Str) → is_char_boundary s 0 ≡ true
unfolding is_char_boundary
start_boundary [] = refl
start_boundary (c ∷ s) = refl

boundary_before_short : (c : ℕ) (s : Str) (n : ℕ) → n < len_utf8 c → boundary_before (c ∷ s) n ≡ 0
unfolding boundary_before is_char_boundary
boundary_before_short c s zero h = refl
boundary_before_short c s (suc n) h =
    let short : leb (len_utf8 c) (suc n) ≡ false = ground arith in
    rw short (boundary_before_short c s n (omega arith))

-- Past the first character the loop goes as on the rest of the text.
boundary_before_long :
    (c : ℕ) (s : Str) (n m : ℕ)
    → n ≡ len_utf8 c + m
    → boundary_before (c ∷ s) n ≡ len_utf8 c + boundary_before s m
unfolding boundary_before is_char_boundary
boundary_before_long c s zero m h = absurd (omega (arith, len_utf8_positive c))
boundary_before_long c s (suc n) zero h =
    let fits : leb (len_utf8 c) (suc n) ≡ true = ground arith in
    let rest : suc n - len_utf8 c ≡ 0 = omega arith in
    rw (fits, rest, start_boundary s) (omega arith)
boundary_before_long c s (suc n) (suc m) h =
    let fits : leb (len_utf8 c) (suc n) ≡ true = ground arith in
    let rest : suc n - len_utf8 c ≡ suc m = omega arith in
    let e = boundary_before_long c s n m (omega arith) in rw (fits, rest) (ground arith)

slice_to_long : (c b : ℕ) (s : Str) → slice_to (c ∷ s) (len_utf8 c + b) ≡ c ∷ slice_to s b
unfolding slice_to
slice_to_long c b s =
    let k = len_utf8 c + b - 1 in
    let e : len_utf8 c + b ≡ suc k = omega (arith, len_utf8_positive c) in
    let rest : suc k - len_utf8 c ≡ b = omega (arith, len_utf8_positive c) in rw e (rw rest refl)

slice_boundary : (s : Str) (n : ℕ) → slice_to s (boundary_before s n) ≡ fit s n
unfolding fit
slice_boundary [] n = rw (boundary_before_zero n) (slice_to_zero [])
slice_boundary (c ∷ s) n = elim (Bool-cases (leb (len_utf8 c) n)) [
  | inl e ↦
      let m = n - len_utf8 c in
      rw (e, boundary_before_long c s n m (ground arith), slice_to_long c (boundary_before s m) s)
        (ap (λ x. c ∷ x) (slice_boundary s m))
  | inr e ↦ rw (e, boundary_before_short c s n (ground arith)) (slice_to_zero (c ∷ s))
]

fit_whole : (s : Str) (n : ℕ) → byte_len s ≤ n → fit s n ≡ s
unfolding fit
fit_whole [] n h = refl
fit_whole (c ∷ s) n h = ground (arith, fit_whole s (n - len_utf8 c))

-- The text returned is a prefix of at most the bytes allowed, made of whole characters, and it is
-- the longest: the text ends there, or the next character does not fit.
pub truncate_str_lem : (s : Str) (max_bytes : ℕ) → IsLongest max_bytes s (truncate_str s max_bytes)
unfolding truncate_str
truncate_str_lem s n = elim (Bool-cases (leb (byte_len s) n)) [
  | inl e ↦ rw e (subst (IsLongest n s) (fit_whole s n (ground arith)) (fit-IsLongest s n))
  | inr e ↦ rw e (subst (IsLongest n s) (sym (slice_boundary s n)) (fit-IsLongest s n))
]
