-- ===== src/Socket/PaneMove.antt =====
-- cmux/src/socket/v2/pane.rs: the requests that move a panel to another workspace. The identifiers
-- of a new workspace and of the panel it starts with, and the variable HOME, are arguments.
use cmux_gtk.Prelude.{
  Uuid, Str, codes, leb, ◌==◌, without, insert, length, true, Option, none, some, or_else, List, [],
  ◌∷◌, if◌then◌else◌, F64,
}
use cmux_gtk.Layout.{SplitOrientation, single_pane}
use cmux_gtk.Panel.{Panel}
use cmux_gtk.Workspace.{Workspace, new_workspace, detach_panel, insert_panel}
use cmux_gtk.TabManager.{TabManager, selected_id, workspace, remove_by_id, add_workspace}
use cmux_gtk.TabManager.Panels.{
  find_workspace_with_panel, move_panel_to_workspace, update_workspace, is_emptied,
}
use cmux_gtk.Socket.{
  Json, Response, ok_or, ◌>>=◌, Handler, SharedState, notify_ui_refresh, success, invalid_params,
  not_found,
}
use cmux_gtk.Socket.Params.{and_then, get_str, get_either, resolve_panel_id}
use cmux_gtk.Socket.Targets.{by_panel, edit_target}
use cmux_gtk.Socket.PaneSplit.{orientation_param}

module _ {F : Type 0} where
  -- The new workspace has only the detached panel, and the directory of its source.
  pub workspace_of : Option Str → Uuid → Uuid → Str → Uuid → Panel F → Workspace F
  workspace_of home ws_id default_id directory panel_id panel =
      let ws = new_workspace home ws_id default_id in
      record ws {
        current_directory = directory;
        panels =
            insert panel_id panel
              (elim ws.focused_panel_id [ none ↦ ws.panels | some dpid ↦ without dpid ws.panels ]);
        layout = single_pane panel_id;
        focused_panel_id = some panel_id;
      }

  -- The source is dropped if it is empty.
  unfoldable pub drop_emptied : Uuid → TabManager F → TabManager F
  drop_emptied source tm =
      if is_emptied (workspace source tm) then (remove_by_id source tm).0 else tm

module _ {V : Type 0} ⦃j : Json V⦄ where
  -- The answer that names a panel and its workspace.
  abbrev pub moved_json : Uuid → Uuid → List (Str × V) → V
  moved_json panel_id ws_id more = j.object (
      (codes "panel_id", j.string (j.to_string panel_id))
      ∷ (codes "workspace_id", j.string (j.to_string ws_id))
      ∷ more)

module _ {V F : Type 0} ⦃j : Json V⦄ where
  -- What follows the detachment.
  unfoldable pub break_detached :
      V
      → Option Str
      → Uuid
      → Uuid
      → Uuid
      → Workspace F
      → Workspace F × Option (Panel F)
      → Handler V F
  unfolding workspace_of drop_emptied notify_ui_refresh success not_found
  break_detached id home ws_id default_id panel_id source (rest, none) state = (
    record state { tab_manager = edit_target (by_panel panel_id) (λ _. rest) state.tab_manager },
    not_found id (codes "Panel not found"),
  )
  break_detached id home ws_id default_id panel_id source (rest, some panel) state = (
    notify_ui_refresh (record state {
      tab_manager =
          (add_workspace
            (workspace_of home ws_id default_id source.current_directory panel_id panel)
            (drop_emptied source.id
              (edit_target (by_panel panel_id) (λ _. rest) state.tab_manager))).0;
    }),
    success id (moved_json panel_id ws_id []),
  )

  unfoldable pub break_panel : V → Option Str → Uuid → Uuid → Uuid → Handler V F
  unfolding break_detached invalid_params not_found
  break_panel id home ws_id default_id panel_id state =
      elim (find_workspace_with_panel panel_id state.tab_manager) [
        | none ↦ (state, not_found id (codes "Panel not found in any workspace"))
        | some source ↦
            if leb (length source.panels) 1
            then (state, invalid_params id (codes "Cannot break the only panel in a workspace"))
            else break_detached id home ws_id default_id panel_id source
                (detach_panel panel_id source) state
      ]

  unfoldable pub handle_pane_break : Option Str → Uuid → Uuid → V → V → Handler V F
  unfolding break_panel
  handle_pane_break home ws_id default_id id params state =
      (resolve_panel_id id params state >>= λ panel_id.
      break_panel id home ws_id default_id panel_id)
        state

module _ {V F : Type 0} ⦃j : Json V⦄ ⦃f : F64 F⦄ where
  -- The panel is put into the selected workspace. Both look-ups that the source expects to succeed
  -- do: the source was found by its panel, and only a workspace with its identifier was dropped.
  unfoldable pub join_detached :
      V → SplitOrientation → Uuid → Uuid → Uuid → Workspace F × Option (Panel F) → Handler V F
  unfolding drop_emptied notify_ui_refresh success not_found
  join_detached id orientation panel_id source target (rest, none) state = (
    record state { tab_manager = update_workspace source (λ _. rest) state.tab_manager },
    not_found id (codes "Panel not found"),
  )
  join_detached id orientation panel_id source target (rest, some panel) state = (
    notify_ui_refresh (record state {
      tab_manager =
          update_workspace target (λ ws. (insert_panel panel orientation ws).0)
            (drop_emptied source (update_workspace source (λ _. rest) state.tab_manager));
    }),
    success id (moved_json panel_id target ((codes "joined", j.boolean true) ∷ [])),
  )

  unfoldable pub join_panel : V → SplitOrientation → Uuid → Handler V F
  unfolding join_detached invalid_params not_found
  join_panel id orientation panel_id state = elim (selected_id state.tab_manager) [
    | none ↦ (state, not_found id (codes "No workspace selected"))
    | some target ↦ elim (find_workspace_with_panel panel_id state.tab_manager) [
      | none ↦ (state, not_found id (codes "Panel not found in any workspace"))
      | some source ↦
          if source.id == target
          then (state, invalid_params id (codes "Panel is already in the target workspace"))
          else elim (workspace source.id state.tab_manager) [
            | none ↦ (state, not_found id (codes "Panel not found"))
            | some ws ↦
                join_detached id orientation panel_id source.id target (detach_panel panel_id ws)
                  state
          ]
    ]
  ]

  unfoldable pub handle_pane_join : V → V → Handler V F
  unfolding join_panel invalid_params
  handle_pane_join id params = do
    panel_str ←
        ok_or
          (and_then
            (or_else (get_either params (codes "panel") (codes "surface"))
              (j.get params (codes "id")))
            j.as_str)
          (invalid_params id (codes "Provide 'panel' UUID to join"))
    panel_id ← ok_or (j.parse_uuid panel_str) (invalid_params id (codes "Invalid panel UUID"))
    join_panel id (orientation_param (get_str params (codes "orientation"))) panel_id

  unfoldable pub answer_move :
      V → Uuid → SharedState F → TabManager F × Option Uuid → SharedState F × Response V
  unfolding notify_ui_refresh success invalid_params
  answer_move id panel_id state (tm, none) = (
    record state { tab_manager = tm },
    invalid_params id (codes "Cannot move panel (already in target or not found)"),
  )
  answer_move id panel_id state (tm, some ws_id) = (
    notify_ui_refresh (record state { tab_manager = tm }),
    success id (moved_json panel_id ws_id ((codes "moved", j.boolean true) ∷ [])),
  )

  unfoldable pub move_panel : V → Uuid → Uuid → Handler V F
  unfolding answer_move not_found
  move_panel id panel_id target state = elim (workspace target state.tab_manager) [
    | none ↦ (state, not_found id (codes "Target workspace not found"))
    | some _ ↦
        answer_move id panel_id state (move_panel_to_workspace panel_id target state.tab_manager)
  ]

  unfoldable pub handle_panel_move_to_workspace : V → V → Handler V F
  unfolding move_panel invalid_params
  handle_panel_move_to_workspace id params state =
      (resolve_panel_id id params state >>= λ panel_id. do
        target_str ←
            ok_or
              (and_then
                (or_else (get_either params (codes "workspace") (codes "target_workspace"))
                  (j.get params (codes "target_workspace_id")))
                j.as_str)
              (invalid_params id (codes "Provide 'workspace' UUID"))
        target ←
            ok_or (j.parse_uuid target_str) (invalid_params id (codes "Invalid workspace UUID"))
        move_panel id panel_id target)
        state
