-- ===== src/Bounded/Logs.antt =====
-- A log never grows past its bound, and its newest entries are those added last.
use cmux_gtk.Prelude.{
  ℕ, ◌/◌, ◌≤◌, ◌≡◌, refl, some, List, [], ◌∷◌, ◌++◌, leb, length, drop, last?, arith, Bool-cases,
  inl, inr, length-append, length-drop,
}
use cmux_gtk.Bounded.{push_bounded}

module _ {ℓ} {A : Type ℓ} where
  pub last?-append : (xs : List A) (x : A) → last? (xs ++ x ∷ []) ≡ some x
  last?-append [] x = refl
  last?-append (y ∷ []) x = refl
  last?-append (y ∷ z ∷ xs) x = last?-append (z ∷ xs) x

  -- With a bound of at least 4, a list within it stays within it, and the new entry is last.
  pub push_bounded_lem :
      (max : ℕ) (x : A) (xs : List A)
      → 4 ≤ max
      → length xs ≤ max
      → (length (push_bounded max x xs) ≤ max) × (last? (push_bounded max x xs) ≡ some x)
  unfolding push_bounded
  push_bounded_lem max x xs big h = elim (Bool-cases (leb max (length xs))) [
    | inl e ↦ rw e (
      omega
          (arith, length-append (drop (length xs / 4) xs) (x ∷ []), length-drop (length xs / 4) xs),
      last?-append (drop (length xs / 4) xs) x,
    )
    | inr n ↦ rw n (ground (arith, length-append xs (x ∷ [])), last?-append xs x)
  ]
