-- ===== src/Layout/Divider/Target.antt =====
-- cmux/src/model/panel.rs: which divider `resize_panel` moves.
use cmux_gtk.Prelude.{
  Bool-cases, Uuid, ◌≤◌, ◌≡◌, refl, ◌∙◌, sym, Bool, true, false, ◌⊎◌, inl, inr, Option, List, ◌++◌,
  arith, contains, count, count-append, contains→count, contains-append, F64, clamp, if◌then◌else◌,
}
use cmux_gtk.Layout.{SplitOrientation, LayoutNode, pane, split, all_panel_ids}
use cmux_gtk.Layout.Divider.{resize_panel}

module _ {F : Type 0} ⦃f : F64 F⦄ (p : Uuid) (amount : F) where
  -- The innermost split over the panel moves, towards the panel's side if the panel is second.
  pub data IsResized : LayoutNode F → LayoutNode F → Type 0 where
    first_here :
        (o : SplitOrientation) (d : F) (xs : List Uuid) (sel : Option Uuid) (y : LayoutNode F)
        → contains p xs ≡ true
        → IsResized
            (split o d (pane xs sel) y)
            (split o (clamp (f.add d amount) f.p05 f.p95) (pane xs sel) y)
    second_here :
        (o : SplitOrientation) (d : F) (xs : List Uuid) (sel : Option Uuid) (x : LayoutNode F)
        → contains p xs ≡ true
        → IsResized
            (split o d x (pane xs sel))
            (split o (clamp (f.add d (f.neg amount)) f.p05 f.p95) x (pane xs sel))
    in_first :
        (o : SplitOrientation) (d : F) (x x' y : LayoutNode F)
        → IsResized x x'
        → IsResized (split o d x y) (split o d x' y)
    in_second :
        (o : SplitOrientation) (d : F) (x y y' : LayoutNode F)
        → IsResized y y'
        → IsResized (split o d x y) (split o d x y')

  resize_split-first :
      (o : SplitOrientation) (d : F) (x y : LayoutNode F)
      → contains p (all_panel_ids x) ≡ true
      → contains p (all_panel_ids y) ≡ false
      → resize_panel p amount (split o d x y) ≡ (
          if (resize_panel p amount x).1
          then (split o d (resize_panel p amount x).0 y, true)
          else (split o (clamp (f.add d amount) f.p05 f.p95) x y, true))
  unfolding resize_panel
  resize_split-first o d x y e n = rw (e, n) refl

  resize_split-second :
      (o : SplitOrientation) (d : F) (x y : LayoutNode F)
      → contains p (all_panel_ids x) ≡ false
      → contains p (all_panel_ids y) ≡ true
      → resize_panel p amount (split o d x y) ≡ (
          if (resize_panel p amount y).1
          then (split o d x (resize_panel p amount y).0, true)
          else (split o (clamp (f.add d (f.neg amount)) f.p05 f.p95) x y, true))
  unfolding resize_panel
  resize_split-second o d x y e n = rw (e, n) refl

  -- The flag: a split over the panel always moves a divider, a pane never does.
  abbrev pub can_resize : LayoutNode F → Bool
  can_resize (pane _ _) = false
  can_resize (split o d x y) = contains p (all_panel_ids (split o d x y))

  resize_panel-flag : (t : LayoutNode F) → (resize_panel p amount t).1 ≡ can_resize t
  unfolding resize_panel
  resize_panel-flag (pane xs sel) = refl
  resize_panel-flag (split o d x y) =
      ground (arith, contains-append p (all_panel_ids x) (all_panel_ids y))

  only_side :
      (xs ys : List Uuid)
      → count p (xs ++ ys) ≤ 1
      → contains p (xs ++ ys) ≡ true
      → ((contains p xs ≡ true) × (contains p ys ≡ false))
        ⊎ ((contains p xs ≡ false) × (contains p ys ≡ true))
  only_side xs ys n h = ground (
    arith,
    count-append p xs ys,
    contains-append p xs ys,
    contains→count p xs,
    contains→count p ys,
  )

  IsResized-first :
      (o : SplitOrientation) (d : F) (x y : LayoutNode F)
      → contains p (all_panel_ids x) ≡ true
      → contains p (all_panel_ids y) ≡ false
      → (can_resize x ≡ true → IsResized x (resize_panel p amount x).0)
      → IsResized (split o d x y) (resize_panel p amount (split o d x y)).0
  IsResized-first o d (pane xs sel) y e n rec =
      rw (resize_split-first o d (pane xs sel) y e n, resize_panel-flag (pane xs sel))
        (first_here o d xs sel y e)
  IsResized-first o d (split o' d' u v) y e n rec =
      rw (resize_split-first o d (split o' d' u v) y e n, resize_panel-flag (split o' d' u v), e)
        (in_first o d _ _ y (rec e))

  IsResized-second :
      (o : SplitOrientation) (d : F) (x y : LayoutNode F)
      → contains p (all_panel_ids x) ≡ false
      → contains p (all_panel_ids y) ≡ true
      → (can_resize y ≡ true → IsResized y (resize_panel p amount y).0)
      → IsResized (split o d x y) (resize_panel p amount (split o d x y)).0
  IsResized-second o d x (pane xs sel) e n rec =
      rw (resize_split-second o d x (pane xs sel) e n, resize_panel-flag (pane xs sel))
        (second_here o d xs sel x n)
  IsResized-second o d x (split o' d' u v) e n rec =
      rw (resize_split-second o d x (split o' d' u v) e n, resize_panel-flag (split o' d' u v), n)
        (in_second o d x _ _ (rec n))

  can_resize-IsResized :
      (t : LayoutNode F)
      → count p (all_panel_ids t) ≤ 1
      → can_resize t ≡ true
      → IsResized t (resize_panel p amount t).0
  can_resize-IsResized (pane xs sel) n h = cc
  can_resize-IsResized (split o d x y) n h =
      let fits = count-append p (all_panel_ids x) (all_panel_ids y) in
      let rx = can_resize-IsResized x (omega arith) in
      let ry = can_resize-IsResized y (omega arith) in
      elim (only_side (all_panel_ids x) (all_panel_ids y) n h) [
        | inl (e, e') ↦ IsResized-first o d x y e e' rx
        | inr (e, e') ↦ IsResized-second o d x y e e' ry
      ]

  -- Where the panel occurs once, a successful resize moves the divider of the innermost split over
  -- the panel and nothing else, and it succeeds in every tree with a split over the panel.
  pub resize_panel-IsResized :
      (t : LayoutNode F)
      → count p (all_panel_ids t) ≤ 1
      → ((resize_panel p amount t).1 ≡ can_resize t)
        × (((resize_panel p amount t).1 ≡ false) ⊎ IsResized t (resize_panel p amount t).0)
  resize_panel-IsResized t n = (
    resize_panel-flag t,
    elim (Bool-cases (resize_panel p amount t).1) [
      | inl e ↦ inr (can_resize-IsResized t n (sym (resize_panel-flag t) ∙ e))
      | inr e ↦ inl e
    ],
  )
