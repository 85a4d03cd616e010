-- ===== src/Layout/Divider/Range.antt =====
-- cmux/src/model/panel.rs: `resize_panel` and `set_divider_position_for_split` keep the dividers in
-- range, and neither moves a panel.
use cmux_gtk.Prelude.{
  Uuid, ◌≡◌, refl, Bool, true, false, ◌||◌, ◌&&◌, List, arith, contains, F64, clamp, IsOrdered,
  if◌then◌else◌,
}
use cmux_gtk.Layout.{LayoutNode, pane, split, all_panel_ids}
use cmux_gtk.Layout.Divider.{resize_panel, equalize, same_panel_set}

module _ {F : Type 0} where
  -- Every divider of the tree satisfies `P`.
  abbrev pub AllDividers : (F → Type 0) → LayoutNode F → Type 0
  AllDividers P (pane _ _) = Unit
  AllDividers P (split _ d x y) = P d × AllDividers P x × AllDividers P y

module _ {F : Type 0} ⦃f : F64 F⦄ where
  -- Not below `lo` and not above `hi`; a NaN is neither, so it is in every range.
  abbrev pub InRange : F → F → F → Type 0
  InRange lo hi x = (f.lt x lo ≡ false) × (f.lt hi x ≡ false)

  clamp-InRange :
      (law : IsOrdered f) (lo hi x : F) → f.lt hi lo ≡ false → InRange lo hi (clamp x lo hi)
  clamp-InRange law lo hi x h = ground (arith, law.irrefl lo, law.irrefl hi)

  -- A resize keeps every divider between 0.05 and 0.95.
  pub resize_panel-InRange :
      (law : IsOrdered f) (p : Uuid) (amount : F) (t : LayoutNode F)
      → AllDividers (InRange f.p05 f.p95) t
      → AllDividers (InRange f.p05 f.p95) (resize_panel p amount t).0
  unfolding resize_panel
  resize_panel-InRange law p amount (pane xs sel) h = tt
  resize_panel-InRange law p amount (split o d x y) (hd, hx, hy) =
      let delta = if contains p (all_panel_ids x) then amount else f.neg amount in
      ground (
        arith,
        resize_panel-InRange law p amount x hx,
        resize_panel-InRange law p amount y hy,
        clamp-InRange law f.p05 f.p95 (f.add d delta) law.inner_range,
      )

  -- No NaN: a NaN does not equal itself.
  abbrev pub IsNumber : F → Type 0
  IsNumber x = f.eq x x ≡ true

  -- A number from 0 to 1.
  abbrev pub IsUnit : F → Type 0
  IsUnit x = IsNumber x × InRange f.zero f.one x

  -- Does a split of the tree have these panels on its two sides?
  abbrev pub has_split : List Uuid → List Uuid → LayoutNode F → Bool
  has_split xs ys (pane _ _) = false
  has_split xs ys (split _ _ x y) =
      (same_panel_set x xs && same_panel_set y ys) || (has_split xs ys x || has_split xs ys y)

  abbrev pub IsHalf : F → Type 0
  IsHalf d = d ≡ f.half

  equalize-IsHalf : (t : LayoutNode F) → AllDividers IsHalf (equalize t).0
  unfolding equalize
  equalize-IsHalf (pane ids sel) = tt
  equalize-IsHalf (split o d x y) = (refl, equalize-IsHalf x, equalize-IsHalf y)

  pub equalize-ids : (t : LayoutNode F) → all_panel_ids (equalize t).0 ≡ all_panel_ids t
  unfolding equalize
  equalize-ids (pane ids sel) = refl
  equalize-ids (split o d x y) = rw (equalize-ids x, equalize-ids y)

  -- Is some divider further than epsilon from the middle? A NaN is not.
  abbrev pub off_centre : LayoutNode F → Bool
  off_centre (pane _ _) = false
  off_centre (split _ d x y) =
      f.lt f.epsilon (f.abs (f.sub d f.half)) || (off_centre x || off_centre y)

  equalize-flag : (t : LayoutNode F) → (equalize t).1 ≡ off_centre t
  unfolding equalize
  equalize-flag (pane ids sel) = refl
  equalize-flag (split o d x y) = rw (equalize-flag x, equalize-flag y)

  equalize_again : (t : LayoutNode F) → (equalize (equalize t).0).0 ≡ (equalize t).0
  unfolding equalize
  equalize_again (pane ids sel) = refl
  equalize_again (split o d x y) = λ i. split o f.half (equalize_again x i) (equalize_again y i)

  equalize-IsHalf_flag :
      (law : IsOrdered f) (t : LayoutNode F) → AllDividers IsHalf t → (equalize t).1 ≡ false
  unfolding equalize
  equalize-IsHalf_flag law (pane ids sel) h = refl
  equalize-IsHalf_flag law (split o d x y) (hd, hx, hy) =
      rw (hd, law.half_centre, equalize-IsHalf_flag law x hx, equalize-IsHalf_flag law y hy) refl

  -- Equalizing puts every divider in the middle and moves no panel; the second time it changes
  -- nothing and returns false. The first time it returns true exactly if some divider was further
  -- than epsilon from the middle, so a NaN, or a divider nearer than epsilon, is moved unreported.
  pub equalize_lem :
      (law : IsOrdered f) (t : LayoutNode F)
      → AllDividers IsHalf (equalize t).0
        × (all_panel_ids (equalize t).0 ≡ all_panel_ids t)
        × ((equalize (equalize t).0).0 ≡ (equalize t).0)
        × ((equalize (equalize t).0).1 ≡ false)
        × ((equalize t).1 ≡ off_centre t)
  equalize_lem law t = (
    equalize-IsHalf t,
    equalize-ids t,
    equalize_again t,
    equalize-IsHalf_flag law (equalize t).0 (equalize-IsHalf t),
    equalize-flag t,
  )
