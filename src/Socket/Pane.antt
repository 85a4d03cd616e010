-- ===== src/Socket/Pane.antt =====
-- cmux/src/socket/v2/pane.rs: the requests that focus, close, swap and zoom panels.
use cmux_gtk.Prelude.{
  Uuid, Str, codes, list_eq, is_some_eq, contains_key, Bool, true, not, ◌||◌, Option, none, some,
  or_else, [], ◌∷◌, if◌then◌else◌,
}
use cmux_gtk.Layout.{Direction, left, right, up, down, swap_panels}
use cmux_gtk.Layout.Navigate.{neighbor}
use cmux_gtk.Workspace.{Workspace, focus_panel, remove_panel, is_empty}
use cmux_gtk.TabManager.{TabManager, selected, remove_by_id}
use cmux_gtk.Socket.{
  Json, Result, ok, ok_or, ◌>>=◌, Handler, notify_ui_refresh, success, invalid_params, not_found,
}
use cmux_gtk.Socket.Params.{
  and_then, try, get_str, get_either, non_null, flag, workspace_param, resolve_panel_id,
}
use cmux_gtk.Socket.Targets.{
  Target, current, by_panel, by_id_or_current, find_target, edit_target, try_edit,
}

pub direction_of : Str → Option Direction
direction_of s =
    if list_eq s (codes "left")
    then some left
    else if list_eq s (codes "right")
    then some right
    else if list_eq s (codes "up")
    then some up
    else if list_eq s (codes "down")
    then some down
    else none

module _ {F : Type 0} where
  pub toggle_zoom : Uuid → Workspace F → Workspace F
  toggle_zoom panel_id ws = record ws {
    zoomed_panel_id = if is_some_eq ws.zoomed_panel_id panel_id then none else some panel_id;
  }

  unfoldable pub swap_layout : Uuid → Uuid → Workspace F → Workspace F × Bool
  swap_layout a b ws =
      (record ws { layout = (swap_panels a b ws.layout).0 }, (swap_panels a b ws.layout).1)

  -- A workspace that has lost its last panel goes too.
  unfoldable pub prune : Workspace F → TabManager F → TabManager F
  prune ws tm = if is_empty ws then (remove_by_id ws.id tm).0 else tm

module _ {V : Type 0} ⦃j : Json V⦄ where
  -- The panel of `pane.focus` and `pane.close`, if one is given.
  unfoldable pub pane_param : V → V → Result V (Option Uuid)
  unfolding invalid_params
  pane_param id params =
      elim (and_then
        (or_else (get_either params (codes "panel") (codes "surface")) (j.get params (codes "id")))
        non_null) [
          | none ↦ ok none
          | some v ↦
              try (ok_or (j.as_str v) (invalid_params id (codes "panel/id must be a string"))) (λ s.
                try (ok_or (j.parse_uuid s) (invalid_params id (codes "Invalid panel UUID format")))
                  (λ pid. ok (some pid)))
        ]

  -- The answer that names a panel.
  abbrev pub panel_json : Uuid → V
  panel_json panel_id = j.object ((codes "panel_id", j.string (j.to_string panel_id)) ∷ [])

  abbrev focused_json : Uuid → V
  focused_json panel_id =
      j.object (
        (codes "panel_id", j.string (j.to_string panel_id))
        ∷ (codes "focused", j.boolean true)
        ∷ [])

module _ {V F : Type 0} ⦃j : Json V⦄ where
  unfoldable pub handle_pane_focus : V → V → Handler V F
  unfolding pane_param invalid_params
  handle_pane_focus id params = do
    given ← pane_param id params
    panel_id ← ok_or given (invalid_params id (codes "Provide 'panel' or 'id'"))
    try_edit id (codes "Panel not found") (codes "Panel not found") (by_panel panel_id)
        (focus_panel panel_id) (flag (codes "focused"))

  unfoldable pub close_panel : V → Uuid → Handler V F
  unfolding prune notify_ui_refresh success not_found
  close_panel id panel_id state = elim (find_target (by_panel panel_id) state.tab_manager) [
    | none ↦ (state, not_found id (codes "Panel not found"))
    | some ws ↦
        let edited =
          edit_target (by_panel panel_id) (λ w. (remove_panel panel_id w).0) state.tab_manager in
        if (remove_panel panel_id ws).1
        then (
          notify_ui_refresh
              (record state { tab_manager = prune (remove_panel panel_id ws).0 edited }),
          success id (flag (codes "closed")),
        )
        else (record state { tab_manager = edited }, not_found id (codes "Panel not found"))
  ]

  -- The panel that is given, or the focused one of the selected workspace.
  unfoldable pub panel_to_close : V → Option Uuid → TabManager F → Result V Uuid
  unfolding not_found
  panel_to_close id (some pid) tm = ok pid
  panel_to_close id none tm =
      try (ok_or (selected tm) (not_found id (codes "No workspace selected")))
        (λ ws. ok_or ws.focused_panel_id (not_found id (codes "No focused panel")))

  unfoldable pub handle_pane_close : V → V → Handler V F
  unfolding pane_param panel_to_close close_panel
  handle_pane_close id params = do
    given ← pane_param id params
    λ state.
        (panel_to_close id given state.tab_manager >>= λ panel_id. close_panel id panel_id) state

  unfoldable pub focus_previous : V → Target → Workspace F → Handler V F
  unfolding notify_ui_refresh success not_found
  focus_previous id target ws = do
    prev_id ← ok_or ws.previous_focused_panel_id (not_found id (codes "No previous panel"))
    λ state.
        if contains_key prev_id ws.panels
        then (
          notify_ui_refresh (record state {
            tab_manager = edit_target target (λ w. (focus_panel prev_id w).0) state.tab_manager;
          }),
          success id (focused_json prev_id),
        )
        else (state, not_found id (codes "Previous panel no longer exists"))

  unfoldable pub handle_pane_last : V → V → Handler V F
  unfolding focus_previous not_found
  handle_pane_last id params = do
    ws_id ← workspace_param id params
    λ state.
        (ok_or (find_target (by_id_or_current ws_id) state.tab_manager)
              (not_found id (codes "No workspace"))
            >>= λ ws. focus_previous id (by_id_or_current ws_id) ws)
          state

  unfoldable pub swap_found : V → Uuid → Uuid → Handler V F
  unfolding swap_layout not_found
  swap_found id a b state = elim (selected state.tab_manager) [
    | none ↦ (state, not_found id (codes "No workspace selected"))
    | some ws ↦
        if not (contains_key a ws.panels) || not (contains_key b ws.panels)
        then (state, not_found id (codes "One or both panels not found"))
        else try_edit id (codes "No workspace selected") (codes "Panels not found in layout")
            current (swap_layout a b) (flag (codes "swapped")) state
  ]

  unfoldable pub handle_pane_swap : V → V → Handler V F
  unfolding swap_found invalid_params
  handle_pane_swap id params = do
    a_str ←
        ok_or (and_then (get_either params (codes "a") (codes "panel_a")) j.as_str)
          (invalid_params id (codes "Provide 'a' and 'b' panel UUIDs"))
    b_str ←
        ok_or (and_then (get_either params (codes "b") (codes "panel_b")) j.as_str)
          (invalid_params id (codes "Provide 'a' and 'b' panel UUIDs"))
    a ← ok_or (j.parse_uuid a_str) (invalid_params id (codes "Invalid panel UUID for 'a'"))
    b ← ok_or (j.parse_uuid b_str) (invalid_params id (codes "Invalid panel UUID for 'b'"))
    swap_found id a b

  -- The focus goes to the neighbor; a failure to focus it is no error.
  unfoldable pub focus_neighbor : V → Direction → Workspace F → Handler V F
  unfolding notify_ui_refresh success not_found
  focus_neighbor id direction ws = do
    current_id ← ok_or ws.focused_panel_id (not_found id (codes "No focused panel"))
    neighbor_id ←
        ok_or (neighbor current_id direction ws.layout)
          (not_found id (codes "No neighbor in that direction"))
    λ state. (
      notify_ui_refresh (record state {
        tab_manager = edit_target current (λ w. (focus_panel neighbor_id w).0) state.tab_manager;
      }),
      success id (focused_json neighbor_id),
    )

  unfoldable pub handle_pane_focus_direction : V → V → Handler V F
  unfolding direction_of focus_neighbor invalid_params not_found
  handle_pane_focus_direction id params = do
    dir_str ←
        ok_or (get_str params (codes "direction"))
          (invalid_params id (codes "Provide 'direction': left, right, up, down"))
    direction ←
        ok_or (direction_of dir_str)
          (invalid_params id (codes "direction must be: left, right, up, down"))
    λ state.
        (ok_or (selected state.tab_manager) (not_found id (codes "No workspace selected")) >>= λ ws.
        focus_neighbor id direction ws)
          state

  unfoldable pub handle_panel_toggle_zoom : V → V → Handler V F
  unfolding toggle_zoom notify_ui_refresh success not_found
  handle_panel_toggle_zoom id params state =
      (resolve_panel_id id params state >>= λ panel_id. λ s.
          elim (find_target (by_panel panel_id) s.tab_manager) [
            | none ↦ (s, not_found id (codes "Panel not found in any workspace"))
            | some ws ↦ (
              notify_ui_refresh (record s {
                tab_manager = edit_target (by_panel panel_id) (toggle_zoom panel_id) s.tab_manager;
              }),
              success id (
                  j.object (
                    (codes "zoomed", j.boolean (not (is_some_eq ws.zoomed_panel_id panel_id)))
                    ∷ (codes "panel_id", j.string (j.to_string panel_id))
                    ∷ [])),
            )
          ])
        state
