-- ===== src/Layout/Tidy.antt =====
-- cmux/src/model/panel.rs: the editing methods of `LayoutNode` keep a tree tidy.
use cmux_gtk.Prelude.{
  Uuid, ℕ, ◌≡◌, refl, ap, ◌∙◌, sym, none, some, List, [], ◌∷◌, map, is_empty_list, F64,
}
use cmux_gtk.Layout.{
  SplitOrientation, Direction, LayoutNode, pane, split, all_panel_ids, is_empty, remove_panel,
  select_panel, add_panel_to_pane, reorder_panel_in_pane, swap_panels, swap_panels_recursive,
  split_pane_with_panel, exchange,
}
use cmux_gtk.Layout.Remove.{IsTidy, is_empty-ids, remove_panel-IsTidy}
use cmux_gtk.Layout.Select.{select_panel-IsTidy}
use cmux_gtk.Layout.Insert.{add_panel_to_pane-IsTidy, reorder_panel_in_pane-IsMoved}
use cmux_gtk.Layout.Splitting.{split_pane_with_panel-IsTidy}
use cmux_gtk.Layout.Swap.{swap_recursive-ids, contains-exchange}

is_empty-map : (g : Uuid → Uuid) (xs : List Uuid) → is_empty_list (map g xs) ≡ is_empty_list xs
is_empty-map g [] = refl
is_empty-map g (x ∷ xs) = refl

module _ {F : Type 0} (a b : Uuid) where
  swap_nonempty : (t : LayoutNode F) → is_empty (swap_panels_recursive a b t).0 ≡ is_empty t
  swap_nonempty t =
      is_empty-ids (swap_panels_recursive a b t).0
      ∙ (ap is_empty_list (swap_recursive-ids a b t).0
          ∙ (is_empty-map (exchange a b) (all_panel_ids t) ∙ sym (is_empty-ids t)))

  swap_panels-IsTidy : (t : LayoutNode F) → IsTidy t → IsTidy (swap_panels_recursive a b t).0
  unfolding swap_panels_recursive
  swap_panels-IsTidy (pane xs none) h = is_empty-map (exchange a b) xs ∙ h
  swap_panels-IsTidy (pane xs (some sel)) h = contains-exchange a b sel xs h
  swap_panels-IsTidy (split o d x y) (hx, hy, ex, ey) =
      (swap_panels-IsTidy x hx, swap_panels-IsTidy y hy, swap_nonempty x ∙ ex, swap_nonempty y ∙ ey)

module _ {F : Type 0} ⦃f : F64 F⦄ where
  -- In a tidy tree every pane shows one of its panels and no side of a split is empty. Each method
  -- that edits the tree keeps it tidy, whatever panels it is called with.
  pub edits-IsTidy :
      (t : LayoutNode F) (p q : Uuid) (i : ℕ) (o : SplitOrientation) (dir : Direction)
      → IsTidy t
      → IsTidy (remove_panel p t).0
        × IsTidy (select_panel p t).0
        × IsTidy (add_panel_to_pane p q t).0
        × IsTidy (reorder_panel_in_pane p i t).0
        × IsTidy (swap_panels p q t).0
        × IsTidy (split_pane_with_panel p q o dir t).0
  unfolding swap_panels
  edits-IsTidy t p q i o dir h = (
    remove_panel-IsTidy p t h,
    select_panel-IsTidy p t h,
    add_panel_to_pane-IsTidy p q t h,
    (reorder_panel_in_pane-IsMoved p i t).tidy h,
    swap_panels-IsTidy p q t h,
    split_pane_with_panel-IsTidy p q o dir t h,
  )
