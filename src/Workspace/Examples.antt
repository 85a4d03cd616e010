-- ===== src/Workspace/Examples.antt =====
-- cmux/src/model/workspace.rs: tests of workspaces, on identifiers 1 to 5.
use cmux_gtk.Prelude.{◌⊎◌, ℕ, codes, ◌≡◌, refl, true, false, some, [], ◌∷◌, milli}
use cmux_gtk.Layout.{
  find_pane_with_panel, split_pane_with_panel, horizontal, vertical, left, right, down, LayoutNode,
  all_panel_ids,
}
use cmux_gtk.Layout
use cmux_gtk.Panel.{browser, markdown, new_terminal}
use cmux_gtk.Workspace.{
  Workspace, new_workspace, remove_panel, detach_panel, focus_panel, insert_panel, split_workspace,
  drag_to_split,
}
use cmux_gtk.Workspace.Validity.{
  IsValid, new_workspace-IsValid, operations-IsValid, insertions-IsValid, split_workspace-IsValid,
}
use cmux_gtk.Workspace.Drag.{drag_to_split_lem, drag_to_split_total}

abbrev pub one_panel : Workspace ℕ
one_panel = new_workspace (some (codes "/home")) 100 1

abbrev pub two_panels : Workspace ℕ
two_panels = split_workspace horizontal browser 2 one_panel

pub two_panels-IsValid : IsValid two_panels
unfolding new_workspace
two_panels-IsValid =
    split_workspace-IsValid one_panel horizontal browser 2
      (new_workspace-IsValid (some (codes "/home")) 100 1) refl refl

-- The panel that had the focus is the previous one, and the new panel is second.
split_focus :
    (two_panels.focused_panel_id ≡ some 2)
    × (two_panels.previous_focused_panel_id ≡ some 1)
    × (all_panel_ids two_panels.layout ≡ 1 ∷ 2 ∷ [])
unfolding split_workspace new_workspace find_pane_with_panel Layout.split_node
split_focus = (refl, refl, refl)

-- The panel dragged down leaves its split and comes under the other one.
drag_down : all_panel_ids (drag_to_split 1 down two_panels).0.layout ≡ 2 ∷ 1 ∷ []
unfolding drag_to_split Layout.remove_panel split_pane_with_panel split_workspace new_workspace
    find_pane_with_panel Layout.split_node
drag_down = refl

operations-IsValid_example :
    IsValid (remove_panel 2 two_panels).0
    × IsValid (detach_panel 2 two_panels).0
    × IsValid (focus_panel 2 two_panels).0
operations-IsValid_example = operations-IsValid two_panels 2 two_panels-IsValid

insertions-IsValid_example :
    IsValid (insert_panel (new_terminal 4) vertical two_panels).0
    × IsValid (split_workspace vertical markdown 3 two_panels)
unfolding split_workspace new_workspace find_pane_with_panel Layout.split_node new_terminal
insertions-IsValid_example =
    insertions-IsValid two_panels vertical (new_terminal 4) markdown 3 two_panels-IsValid refl refl
      refl

drag_to_split_lem_example :
    IsValid (drag_to_split 1 left two_panels).0
    × ((drag_to_split 1 left two_panels).0.panels ≡ two_panels.panels)
    × ((((drag_to_split 1 left two_panels).1 ≡ true)
          × ((drag_to_split 1 left two_panels).0.focused_panel_id ≡ some 1))
        ⊎ (((drag_to_split 1 left two_panels).1 ≡ false)
            × ((drag_to_split 1 left two_panels).0 ≡ two_panels)))
drag_to_split_lem_example = drag_to_split_lem 1 left two_panels two_panels-IsValid

drag_to_split_total_example : (drag_to_split 2 left two_panels).1 ≡ true
unfolding split_workspace new_workspace
drag_to_split_total_example =
    drag_to_split_total 2 left two_panels 1 two_panels-IsValid refl refl refl
