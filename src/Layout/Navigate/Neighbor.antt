-- ===== src/Layout/Navigate/Neighbor.antt =====
-- cmux/src/model/panel.rs: the panel next to a panel in a direction.
use cmux_gtk.Prelude.{
  Uuid, Bool, true, false, ◌&&◌, ◌||◌, Option, none, some, contains, if◌then◌else◌,
}
use cmux_gtk.Layout.{LayoutNode, Direction, pane, split, all_panel_ids}
use cmux_gtk.Layout.Navigate.{matches_axis, want_second}

abbrev pub is_some : Option Uuid → Bool
is_some none = false
is_some (some _) = true

module _ {F : Type 0} (p : Uuid) (dir : Direction) where
  -- Is there a split along the direction with the panel on the side that the direction leaves?
  abbrev pub can_leave : LayoutNode F → Bool
  can_leave (pane _ _) = false
  can_leave (split o _ x y) =
      (matches_axis o dir && contains p (all_panel_ids (if want_second dir then x else y)))
      || (can_leave x || can_leave y)
