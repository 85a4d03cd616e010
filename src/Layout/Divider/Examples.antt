-- ===== src/Layout/Divider/Examples.antt =====
-- cmux/src/model/panel.rs: tests of the dividers, in thousandths with 1000 for zero.
use cmux_gtk.Prelude.{
  false, ◌⊎◌, Uuid, ◌≡◌, refl, true, some, [], ◌∷◌, count, milli, milli-IsOrdered, ◌↔◌,
}
use cmux_gtk.Layout.{horizontal, vertical, pane, split, all_panel_ids}
use cmux_gtk.Layout.Divider.{resize_panel, equalize, same_panel_set}
use cmux_gtk.Layout.Divider.Range.{AllDividers, IsHalf, off_centre, equalize_lem}
use cmux_gtk.Layout.Divider.Target.{can_resize, IsResized, resize_panel-IsResized}
use cmux_gtk.Layout.Divider.Sets.{same_panel_set_iff}
use cmux_gtk.Layout.Examples.{tree, tree-IsNodup}

resize_stops : resize_panel 3 1000 tree ≡ (
  split horizontal 1500
      (pane (1 ∷ 2 ∷ []) (some 1))
      (split vertical 1200 (pane (3 ∷ []) (some 3)) (pane (4 ∷ 5 ∷ []) (some 5))),
  true,
)
unfolding resize_panel
resize_stops = refl

equalize_lem_example :
    AllDividers IsHalf (equalize tree).0
    × (all_panel_ids (equalize tree).0 ≡ all_panel_ids tree)
    × ((equalize (equalize tree).0).0 ≡ (equalize tree).0)
    × ((equalize (equalize tree).0).1 ≡ false)
    × ((equalize tree).1 ≡ off_centre tree)
equalize_lem_example = equalize_lem milli-IsOrdered tree

resize_panel-IsResized_example :
    ((resize_panel 3 1100 tree).1 ≡ can_resize 3 1100 tree)
    × (((resize_panel 3 1100 tree).1 ≡ false) ⊎ IsResized 3 1100 tree (resize_panel 3 1100 tree).0)
resize_panel-IsResized_example = resize_panel-IsResized 3 1100 tree (tree-IsNodup 3)

same_panel_set_iff_example :
    (same_panel_set tree (5 ∷ 4 ∷ 3 ∷ 2 ∷ 1 ∷ []) ≡ true)
    ↔ ((a : Uuid) → count a (all_panel_ids tree) ≡ count a (5 ∷ 4 ∷ 3 ∷ 2 ∷ 1 ∷ []))
same_panel_set_iff_example = same_panel_set_iff tree (5 ∷ 4 ∷ 3 ∷ 2 ∷ 1 ∷ [])
