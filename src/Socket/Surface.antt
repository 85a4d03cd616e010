-- ===== src/Socket/Surface.antt =====
-- cmux/src/socket/v2/surface.rs: the request that moves a panel to a workspace that it names.
pub mod Examples
use cmux_gtk.Prelude.{
  Uuid, Str, codes, ◌==◌, true, Option, none, some, or_else, [], ◌∷◌, if◌then◌else◌, F64,
}
use cmux_gtk.Layout.{SplitOrientation}
use cmux_gtk.Panel.{Panel}
use cmux_gtk.Workspace.{Workspace, detach_panel, insert_panel}
use cmux_gtk.TabManager.{TabManager, workspace}
use cmux_gtk.TabManager.Panels.{find_workspace_with_panel, update_workspace}
use cmux_gtk.Socket.{
  Json, ok_or, ◌>>=◌, Handler, SharedState, notify_ui_refresh, success, invalid_params, not_found,
}
use cmux_gtk.Socket.Params.{and_then, get_str, get_either, resolve_panel_id}
use cmux_gtk.Socket.PaneSplit.{orientation_param}
use cmux_gtk.Socket.PaneMove.{drop_emptied, moved_json}

module _ {V F : Type 0} ⦃j : Json V⦄ ⦃f : F64 F⦄ (id : V) (orientation : SplitOrientation)
    (panel_id target : Uuid) where
  -- Only here, with the panel detached and its empty workspace dropped, is the target looked up.
  put_detached : Panel F → TabManager F → Handler V F
  unfolding notify_ui_refresh success not_found
  put_detached panel detached state = elim (workspace target detached) [
    | none ↦
        (record state { tab_manager = detached }, not_found id (codes "Target workspace not found"))
    | some _ ↦ (
      notify_ui_refresh (record state {
        tab_manager =
            update_workspace target (λ ws. (insert_panel panel orientation ws).0) detached;
      }),
      success id (moved_json panel_id target ((codes "moved", j.boolean true) ∷ [])),
    )
  ]

  move_detached : Uuid → Workspace F × Option (Panel F) → Handler V F
  unfolding put_detached not_found
  move_detached source (rest, none) state = (
    record state { tab_manager = update_workspace source (λ _. rest) state.tab_manager },
    not_found id (codes "Panel not found"),
  )
  move_detached source (rest, some panel) state =
      put_detached panel
        (drop_emptied source (update_workspace source (λ _. rest) state.tab_manager)) state

  move_surface : Handler V F
  unfolding move_detached invalid_params not_found
  move_surface state = elim (find_workspace_with_panel panel_id state.tab_manager) [
    | none ↦ (state, not_found id (codes "Panel not found in any workspace"))
    | some source ↦
        if source.id == target
        then (state, invalid_params id (codes "Panel is already in the target workspace"))
        else elim (workspace source.id state.tab_manager) [
          | none ↦ (state, not_found id (codes "Panel not found"))
          | some ws ↦ move_detached source.id (detach_panel panel_id ws) state
        ]
  ]

module _ {V F : Type 0} ⦃j : Json V⦄ ⦃f : F64 F⦄ where
  pub handle_surface_move : V → V → Handler V F
  unfolding move_surface invalid_params
  handle_surface_move id params state =
      (resolve_panel_id id params state >>= λ panel_id. do
        text ←
            ok_or (and_then (get_either params (codes "workspace") (codes "workspace_id")) j.as_str)
              (invalid_params id (codes "Provide 'workspace' target UUID"))
        target ← ok_or (j.parse_uuid text) (invalid_params id (codes "Invalid workspace UUID"))
        move_surface id (orientation_param (get_str params (codes "orientation"))) panel_id target)
        state
