-- ===== src/Layout/Swap.antt =====
-- cmux/src/model/panel.rs: `swap_panels`.
use mathlib.Core.List.{map-append}
use mathlib.Core.Path.{subst}
use cmux_gtk.Prelude.{
  Uuid, ◌==◌, ◌≡◌, refl, ap, sym, ◌⊎◌, inl, inr, Bool-cases, true, false, ◌||◌, Option, none, some,
  List, [], ◌∷◌, map, arith, contains, contains-append,
}
use cmux_gtk.Layout.{
  LayoutNode, pane, split, all_panel_ids, swap_panels, swap_panels_recursive, exchange,
  exchange_selected, touches,
}

module _ (a b : Uuid) where
  -- `y` stands where `x` stood: the two identifiers change places, any other one stays.
  abbrev IsSwapped : Uuid → Uuid → Type 0
  IsSwapped x y =
      ((x ≡ a) × (y ≡ b))
      ⊎ ((x ≡ b) × (y ≡ a))
      ⊎ (((x == a) ≡ false) × ((x == b) ≡ false) × (y ≡ x))

  abbrev pub AllSwapped : List Uuid → List Uuid → Type 0
  AllSwapped [] [] = Unit
  AllSwapped [] (y ∷ ys) = false ≡ true
  AllSwapped (x ∷ xs) [] = false ≡ true
  AllSwapped (x ∷ xs) (y ∷ ys) = IsSwapped x y × AllSwapped xs ys

  exchange-IsSwapped : (x : Uuid) → IsSwapped x (exchange a b x)
  exchange-IsSwapped x = elim (Bool-cases (x == a)) [
    | inl e ↦ inl (ground arith, ground arith)
    | inr n ↦ elim (Bool-cases (x == b)) [
      | inl e ↦ inr (inl (ground arith, ground arith))
      | inr m ↦ inr (inr (n, m, ground arith))
    ]
  ]

  map-AllSwapped : (xs : List Uuid) → AllSwapped xs (map (exchange a b) xs)
  map-AllSwapped [] = tt
  map-AllSwapped (x ∷ xs) = (exchange-IsSwapped x, map-AllSwapped xs)

  exchange_twice : (x : Uuid) → exchange a b (exchange a b x) ≡ x
  exchange_twice x = ground arith

  map-exchange_twice : (xs : List Uuid) → map (exchange a b) (map (exchange a b) xs) ≡ xs
  map-exchange_twice [] = refl
  map-exchange_twice (x ∷ xs) = ground (arith, exchange_twice x, map-exchange_twice xs)

  exchange_selected_twice :
      (sel : Option Uuid) → exchange_selected a b (exchange_selected a b sel) ≡ sel
  exchange_selected_twice none = refl
  exchange_selected_twice (some x) = ap some (exchange_twice x)

  touches-contains : (xs : List Uuid) → touches a b xs ≡ contains a xs || contains b xs
  touches-contains [] = refl
  touches-contains (x ∷ xs) = ground (arith, touches-contains xs)

  pub contains-exchange :
      (x : Uuid) (xs : List Uuid)
      → contains x xs ≡ true
      → contains (exchange a b x) (map (exchange a b) xs) ≡ true
  contains-exchange x [] h = ground arith
  contains-exchange x (y ∷ ys) h = ground (arith, contains-exchange x ys)

  module _ {F : Type 0} where
    swap_twice :
        (t : LayoutNode F) → (swap_panels_recursive a b (swap_panels_recursive a b t).0).0 ≡ t
    unfolding swap_panels_recursive
    swap_twice (pane xs sel) = rw (map-exchange_twice xs, exchange_selected_twice sel)
    swap_twice (split o d x y) = λ i. split o d (swap_twice x i) (swap_twice y i)

    -- Swapping the same two panels again gives the tree back, selections included.
    pub swap_panels_twice : (t : LayoutNode F) → (swap_panels a b (swap_panels a b t).0).0 ≡ t
    unfolding swap_panels
    swap_panels_twice t = swap_twice t

    pub swap_recursive-ids :
        (t : LayoutNode F)
        → (all_panel_ids (swap_panels_recursive a b t).0 ≡ map (exchange a b) (all_panel_ids t))
          × ((swap_panels_recursive a b t).1
              ≡ contains a (all_panel_ids t) || contains b (all_panel_ids t))
    unfolding swap_panels_recursive
    swap_recursive-ids (pane xs sel) = (refl, touches-contains xs)
    swap_recursive-ids (split o d x y) =
        let hx = swap_recursive-ids x in
        let hy = swap_recursive-ids y in
        (
          rw (map-append (exchange a b) (all_panel_ids x) (all_panel_ids y), hx.0, hy.0) refl,
          ground (
            arith,
            hx.1,
            hy.1,
            contains-append a (all_panel_ids x) (all_panel_ids y),
            contains-append b (all_panel_ids x) (all_panel_ids y),
          ),
        )

    -- In the order of all panels the first identifier stands where the second stood and the second
    -- where the first did, every other one stays, and the flag says whether one of the two is there.
    pub swap_panels-ids :
        (t : LayoutNode F)
        → AllSwapped (all_panel_ids t) (all_panel_ids (swap_panels a b t).0)
          × ((swap_panels a b t).1 ≡ contains a (all_panel_ids t) || contains b (all_panel_ids t))
    unfolding swap_panels
    swap_panels-ids t =
        let (same, flag) = swap_recursive-ids t in
        (subst (AllSwapped (all_panel_ids t)) (sym same) (map-AllSwapped (all_panel_ids t)), flag)
