-- ===== src/Layout/Navigate/Examples.antt =====
-- cmux/src/model/panel.rs: tests of navigation between panels.
use cmux_gtk.Prelude.{Uuid, ◌≡◌, refl, some, milli}
use cmux_gtk.Layout.{right, find_pane_with_panel_readonly}
use cmux_gtk.Layout.Navigate.{
  next_panel_id, prev_panel_id, next_panel_in_pane, prev_panel_in_pane, neighbor,
}
use cmux_gtk.Layout.Navigate.Cycle.{next_panel_id-prev_panel_id}
use cmux_gtk.Layout.Navigate.Steps.{IsNext, IsPrev}
use cmux_gtk.Layout.Navigate.Tabs.{IsTab, panel_in_pane-IsTab}
use cmux_gtk.Layout.Examples.{tree, tree-IsNodup}

neighbor_right : neighbor 1 right tree ≡ some 3
unfolding neighbor
neighbor_right = refl

next_panel_id-prev_panel_id_example :
    (x : Uuid) × (next_panel_id tree 5 ≡ some x)
    × (prev_panel_id tree x ≡ some 5)
    × (b : Uuid) × (prev_panel_id tree 5 ≡ some b)
    × (next_panel_id tree b ≡ some 5)
next_panel_id-prev_panel_id_example = next_panel_id-prev_panel_id tree 5 tree-IsNodup refl

panel_in_pane-IsTab_example :
    IsTab IsNext 5 (find_pane_with_panel_readonly 5 tree) (next_panel_in_pane tree 5)
    × IsTab IsPrev 5 (find_pane_with_panel_readonly 5 tree) (prev_panel_in_pane tree 5)
panel_in_pane-IsTab_example = panel_in_pane-IsTab tree 5
