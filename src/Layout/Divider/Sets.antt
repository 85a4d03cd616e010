-- ===== src/Layout/Divider/Sets.antt =====
-- cmux/src/model/panel.rs: `same_panel_set` compares as multisets, by sorting both sides.
use cmux_gtk.Prelude.{
  Uuid, ℕ, ◌+◌, ◌≤◌, ◌<◌, leb, ◌≡◌, ◌↔◌, refl, ap, ap₂, ◌∙◌, sym, true, inl, inr, List, [], ◌∷◌,
  arith, count, single, Bool-cases, list_eq_sound, list_eq_refl,
}
use cmux_gtk.Layout.{LayoutNode, all_panel_ids}
use cmux_gtk.Layout.Divider.{same_panel_set, sort, insert_sorted}

-- Every item is at least `a`.
abbrev AtLeast : ℕ → List ℕ → Type 0
AtLeast a [] = Unit
AtLeast a (x ∷ xs) = (a ≤ x) × AtLeast a xs

abbrev IsSorted : List ℕ → Type 0
IsSorted [] = Unit
IsSorted (x ∷ xs) = AtLeast x xs × IsSorted xs

AtLeast-weaken : (a b : ℕ) (xs : List ℕ) → a ≤ b → AtLeast b xs → AtLeast a xs
AtLeast-weaken a b [] h k = tt
AtLeast-weaken a b (x ∷ xs) h (k, ks) = (omega arith, AtLeast-weaken a b xs h ks)

AtLeast-insert : (a b : ℕ) (xs : List ℕ) → a ≤ b → AtLeast a xs → AtLeast a (insert_sorted b xs)
unfolding insert_sorted
AtLeast-insert a b [] h k = (h, tt)
AtLeast-insert a b (x ∷ xs) h (k, ks) = elim (Bool-cases (leb b x)) [
  | inl e ↦ rw e (h, (k, ks))
  | inr n ↦ rw n (k, AtLeast-insert a b xs h ks)
]

insert_sorted-IsSorted : (b : ℕ) (xs : List ℕ) → IsSorted xs → IsSorted (insert_sorted b xs)
unfolding insert_sorted
insert_sorted-IsSorted b [] h = (tt, tt)
insert_sorted-IsSorted b (x ∷ xs) (k, ks) = elim (Bool-cases (leb b x)) [
  | inl e ↦ rw e ((ground arith, AtLeast-weaken b x xs (ground arith) k), (k, ks))
  | inr n ↦ rw n (AtLeast-insert x b xs (ground arith) k, insert_sorted-IsSorted b xs ks)
]

sort-IsSorted : (xs : List ℕ) → IsSorted (sort xs)
unfolding sort
sort-IsSorted [] = tt
sort-IsSorted (x ∷ xs) = insert_sorted-IsSorted x (sort xs) (sort-IsSorted xs)

count-insert_sorted :
    (a b : ℕ) (xs : List ℕ) → count a (insert_sorted b xs) ≡ single b a + count a xs
unfolding insert_sorted
count-insert_sorted a b [] = refl
count-insert_sorted a b (x ∷ xs) = ground (arith, count-insert_sorted a b xs)

count-sort : (a : ℕ) (xs : List ℕ) → count a (sort xs) ≡ count a xs
unfolding sort
count-sort a [] = refl
count-sort a (x ∷ xs) = omega (arith, count-insert_sorted a x (sort xs), count-sort a xs)

count_below : (a b : ℕ) (xs : List ℕ) → a < b → AtLeast b xs → count a xs ≡ 0
count_below a b [] h k = refl
count_below a b (x ∷ xs) h (k, ks) = ground (arith, count_below a b xs h ks)

count-head : (x : ℕ) (xs : List ℕ) → count x (x ∷ xs) ≡ 1 + count x xs
count-head x xs = ground arith

not_below : (x y : ℕ) (xs ys : List ℕ) → AtLeast y ys → count x (x ∷ xs) ≡ count x (y ∷ ys) → y ≤ x
not_below x y xs ys k same =
    ground (arith, count-head x xs, λ (h : x < y). count_below x y (y ∷ ys) h (omega arith, k))

-- Two sorted lists with the same items, as often, are one list.
sorted_unique :
    (xs ys : List ℕ) → IsSorted xs → IsSorted ys → ((a : ℕ) → count a xs ≡ count a ys) → xs ≡ ys
sorted_unique [] [] hx hy same = refl
sorted_unique [] (y ∷ ys) hx hy same = absurd (omega (arith, same y, count-head y ys))
sorted_unique (x ∷ xs) [] hx hy same = absurd (omega (arith, same x, count-head x xs))
sorted_unique (x ∷ xs) (y ∷ ys) (kx, hx) (ky, hy) same =
    let heads : x ≡ y =
      omega (arith, not_below x y xs ys ky (same x), not_below y x ys xs kx (sym (same y))) in
    ap₂ ◌∷◌ heads (sorted_unique xs ys hx hy (λ a. ground (arith, same a)))

module _ {F : Type 0} where
  same_set-count :
      (t : LayoutNode F) (xs : List Uuid)
      → same_panel_set t xs ≡ true
      → (a : Uuid) → count a (all_panel_ids t) ≡ count a xs
  unfolding same_panel_set
  same_set-count t xs h a =
      sym (count-sort a (all_panel_ids t))
      ∙ (ap (count a) (list_eq_sound (sort (all_panel_ids t)) (sort xs) h) ∙ count-sort a xs)

  count-same_set :
      (t : LayoutNode F) (xs : List Uuid)
      → ((a : Uuid) → count a (all_panel_ids t) ≡ count a xs)
      → same_panel_set t xs ≡ true
  unfolding same_panel_set
  count-same_set t xs same =
      let e : sort (all_panel_ids t) ≡ sort xs =
        sorted_unique _ _ (sort-IsSorted (all_panel_ids t)) (sort-IsSorted xs)
          (λ a. count-sort a (all_panel_ids t) ∙ (same a ∙ sym (count-sort a xs))) in
      rw e (list_eq_refl (sort xs))

  -- A split is taken for the target exactly when its sides hold the panels named, as often.
  pub same_panel_set_iff :
      (t : LayoutNode F) (xs : List Uuid)
      → (same_panel_set t xs ≡ true) ↔ ((a : Uuid) → count a (all_panel_ids t) ≡ count a xs)
  same_panel_set_iff t xs = (same_set-count t xs, count-same_set t xs)
