-- ===== src/Socket/Surface/Examples.antt =====
-- cmux/src/socket/v2/surface.rs: tests of moves of panel 2, which is in workspace 100.
use cmux_gtk.Prelude.{ℕ, ◌≡◌, refl, false, none, some, [], ◌∷◌, codes, milli}
use cmux_gtk.Workspace
use cmux_gtk.Workspace.{new_workspace, split_workspace, detach_panel}
use cmux_gtk.Workspace.Examples.{two_panels}
use cmux_gtk.TabManager.{workspace}
use cmux_gtk.TabManager.Panels.{find_workspace_with_panel}
use cmux_gtk.Notifications.{new_store}
use cmux_gtk.Socket.{SharedState, ◌>>=◌, ok_or}
use cmux_gtk.Socket.Params.{resolve_panel_id}
use cmux_gtk.Socket.PaneMove.{drop_emptied}
use cmux_gtk.Socket.Samples.{Sample, leaf, fields, text, nat, sample_json}
use cmux_gtk.Socket.Surface.{handle_surface_move}

abbrev state : SharedState ℕ
state = record {
  tab_manager = record { workspaces = two_panels ∷ []; selected_index = some 0 };
  notifications = new_store;
  events = [];
}

abbrev params : Sample
params = fields ((codes "panel", text (2 ∷ [])) ∷ (codes "workspace", text (900 ∷ [])) ∷ [])

-- A move to a workspace that is not there is refused, and the panel is in no workspace any more.
move_loses :
    ((handle_surface_move (leaf (nat 1)) params state).1.ok ≡ false)
    × (find_workspace_with_panel 2 (handle_surface_move (leaf (nat 1)) params state).0.tab_manager
        ≡ none)
unfolding handle_surface_move resolve_panel_id find_workspace_with_panel ◌>>=◌ ok_or split_workspace
    new_workspace workspace detach_panel drop_emptied Workspace.is_empty
move_loses = (refl, refl)
