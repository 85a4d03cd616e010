-- ===== src/Bounded/Least.antt =====
-- The item that a full list evicts is in the list, and no item is less.
use cmux_gtk.Prelude.{
  ℕ, suc, ◌+◌, ◌<◌, ◌≡◌, refl, ap, sym, Bool, true, false, some, List, [], ◌∷◌, length, get_elem?,
  arith, Bool-cases, inl, inr, ◌⊎◌,
}
use cmux_gtk.Bounded.{least, least_from}

-- What a comparison needs so that a single pass finds a least item. `<` on floats has it, NaN
-- included.
pub record IsComparison {ℓ} {A : Type ℓ} (less : A → A → Bool) : Type ℓ where
  pub irrefl : (x : A) → less x x ≡ false
  pub trans : (x y z : A) → less x y ≡ true → less y z ≡ true → less x z ≡ true

module _ {ℓ} {A : Type ℓ} (less : A → A → Bool) where
  -- No item of the list is less than `b`.
  abbrev pub NoLess : A → List A → Type 0
  NoLess b [] = Unit
  NoLess b (x ∷ xs) = (less x b ≡ false) × NoLess b xs

  module _ (law : IsComparison less) where
    not_less : (x y z : A) → less y x ≡ true → less z x ≡ false → less z y ≡ false
    not_less x y z h k = ground (arith, law.trans z y x)

    -- Where a pass that starts at `best`, of index `i`, ends: there, or at a smaller item.
    abbrev IsEnd : ℕ → A → ℕ → List A → ℕ → A → Type ℓ
    IsEnd i best j ys r m =
        ((r ≡ i) × (m ≡ best))
        ⊎ ((k : ℕ) × (r ≡ j + k) × (get_elem? ys k ≡ some m) × (less m best ≡ true))

    module _ (i : ℕ) (best : A) (j : ℕ) (y : A) (ys : List A) (r : ℕ) (m : A) where
      IsEnd-replaced : less y best ≡ true → IsEnd j y (suc j) ys r m → IsEnd i best j (y ∷ ys) r m
      IsEnd-replaced e (inl (at, same)) = inr (0, omega arith, ap some (sym same), rw same e)
      IsEnd-replaced e (inr (k, at, here, less_m)) =
          inr (suc k, omega arith, here, law.trans m y best less_m e)

      IsEnd-kept : IsEnd i best (suc j) ys r m → IsEnd i best j (y ∷ ys) r m
      IsEnd-kept (inl h) = inl h
      IsEnd-kept (inr (k, at, here, less_m)) = inr (suc k, omega arith, here, less_m)

      first_kept : less y best ≡ false → IsEnd i best (suc j) ys r m → less y m ≡ false
      first_kept e (inl (at, same)) = rw same e
      first_kept e (inr (k, at, here, less_m)) = not_less best m y less_m e

      first_replaced : IsEnd i best j ys r m → less best m ≡ false
      first_replaced (inl (at, same)) = rw same (law.irrefl best)
      first_replaced (inr (k, at, here, less_m)) = not_less best m best less_m (law.irrefl best)

    least_from_lem :
        (i : ℕ) (best : A) (j : ℕ) (ys : List A)
        → (m : A) × IsEnd i best j ys (least_from less i best j ys) m × NoLess m ys
    unfolding least_from
    least_from_lem i best j [] = (best, inl (refl, refl), tt)
    least_from_lem i best j (y ∷ ys) = elim (Bool-cases (less y best)) [
      | inl e ↦
          let (m, end, none_less) = least_from_lem j y (suc j) ys in
          rw e (
            m,
            IsEnd-replaced i best j y ys _ m e end,
            (first_replaced j y (suc j) y ys _ m end, none_less),
          )
      | inr n ↦
          let (m, end, none_less) = least_from_lem i best (suc j) ys in
          rw n
            (m, IsEnd-kept i best j y ys _ m end, (first_kept i best j y ys _ m n end, none_less))
    ]

    at_end :
        (x : A) (xs : List A) (r : ℕ) (m : A) → IsEnd 0 x 1 xs r m → get_elem? (x ∷ xs) r ≡ some m
    at_end x xs r m (inl (at, same)) = rw at (ap some (sym same))
    at_end x xs r m (inr (k, at, here, less_m)) = let e : r ≡ suc k = omega arith in rw e here

    -- A list with items has a least one, and the pass finds it.
    pub least_lem :
        (xs : List A)
        → 0 < length xs
        → (i : ℕ) × (m : A) × (least less xs ≡ some i) × (get_elem? xs i ≡ some m) × NoLess m xs
    unfolding least
    least_lem [] h = elim h [ ]
    least_lem (x ∷ xs) h =
        let (m, end, none_less) = least_from_lem 0 x 1 xs in
        (
          least_from less 0 x 1 xs,
          m,
          refl,
          at_end x xs _ m end,
          (first_replaced 0 x 1 x xs _ m end, none_less),
        )
