-- ===== src/TabManager/Panels/Examples.antt =====
-- cmux/src/model/tab_manager.rs: tests of the newest unread workspace and of moving a panel.
use cmux_gtk.Prelude.{ℕ, ◌≡◌, ◌⊎◌, refl, none, some, [], ◌∷◌, milli, milli-IsTotal}
use cmux_gtk.Layout
use cmux_gtk.Workspace.{Workspace, new_workspace, detach_panel, is_empty}
use cmux_gtk.TabManager.{TabManager, selected, workspace, remove_by_id}
use cmux_gtk.TabManager.Panels.{latest_unread_index, select_latest_unread, move_panel_to_workspace}
use cmux_gtk.TabManager.Panels.Latest.{AllRead, IsLatest, latest_unread_index_lem}

abbrev unread_at : ℕ → ℕ → ℕ → Workspace ℕ
unread_at id panel t = record (new_workspace none id panel) {
  unread_count = 1;
  latest_notification_at = some t;
}

-- The second workspace was notified last.
abbrev pair : TabManager ℕ
pair = record {
  workspaces = unread_at 100 1 1005 ∷ unread_at 200 2 1009 ∷ new_workspace none 300 3 ∷ [];
  selected_index = some 0;
}

latest_is_second : latest_unread_index pair ≡ some 1
unfolding latest_unread_index new_workspace
latest_is_second = refl

-- The workspace that loses its only panel is dropped.
moved_panel : (move_panel_to_workspace 1 200 pair).1 ≡ some 200
unfolding move_panel_to_workspace new_workspace workspace detach_panel Layout.remove_panel is_empty
    remove_by_id
moved_panel = refl

latest_unread_index_lem_example :
    (AllRead pair.workspaces
      × (latest_unread_index pair ≡ none)
      × (select_latest_unread pair ≡ (pair, none)))
    ⊎ ((r : ℕ) × (latest : IsLatest pair.workspaces r) × (latest_unread_index pair ≡ some r)
        × (selected (select_latest_unread pair).0 ≡ some latest.here)
        × ((select_latest_unread pair).1 ≡ some latest.here.id))
latest_unread_index_lem_example = latest_unread_index_lem milli-IsTotal pair
