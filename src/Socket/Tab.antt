-- ===== src/Socket/Tab.antt =====
-- cmux/src/socket/v2/tab.rs: `tab.action`, the menu of a tab. The identifier of a new panel is an
-- argument.
use cmux_gtk.Prelude.{
  Uuid, suc, ◌==◌, Str, codes, list_eq, contains, position, take, drop, retain, length, without,
  insert, true, false, not, Option, none, some, List, [], ◌∷◌, if◌then◌else◌,
}
use cmux_gtk.Truncate.{truncate_str}
use cmux_gtk.Layout.{LayoutNode, find_pane_with_panel_readonly, add_panel_to_pane}
use cmux_gtk.Layout
use cmux_gtk.Panel.{Panel, new_terminal}
use cmux_gtk.Workspace.{Workspace, update_panel}
use cmux_gtk.Socket.{
  Json, ok_or, ◌>>=◌, Handler, notify_ui_refresh, success, invalid_params, not_found, max_title_len,
}
use cmux_gtk.Socket.Params.{unwrap_or, get_str, flag, resolve_panel_id}
use cmux_gtk.Socket.Targets.{by_panel, find_target, edit_target}
use cmux_gtk.Socket.Pane.{prune}

pub data TabAction : Type 0 where
  rename clear_name close_left close_right close_others pin unpin mark_read mark_unread duplicate :
      TabAction

-- The patterns of the match.
pub tab_action_of : Str → Option TabAction
tab_action_of s =
    if list_eq s (codes "rename")
    then some rename
    else if list_eq s (codes "clear_name")
    then some clear_name
    else if list_eq s (codes "close_left")
    then some close_left
    else if list_eq s (codes "close_right")
    then some close_right
    else if list_eq s (codes "close_others")
    then some close_others
    else if list_eq s (codes "pin")
    then some pin
    else if list_eq s (codes "unpin")
    then some unpin
    else if list_eq s (codes "mark_read")
    then some mark_read
    else if list_eq s (codes "mark_unread")
    then some mark_unread
    else if list_eq s (codes "duplicate")
    then some duplicate
    else none

-- The tabs of a pane before a panel, after it, and all but it.
pub tabs_left : Uuid → List Uuid → List Uuid
tabs_left panel_id pane_ids = take (unwrap_or 0 (position (λ id. id == panel_id) pane_ids)) pane_ids

pub tabs_right : Uuid → List Uuid → List Uuid
tabs_right panel_id pane_ids =
    drop (suc (unwrap_or 0 (position (λ id. id == panel_id) pane_ids))) pane_ids

pub other_tabs : Uuid → List Uuid → List Uuid
other_tabs panel_id pane_ids = retain (λ id. not (id == panel_id)) pane_ids

focus_after : Uuid → List Uuid → Option Uuid → Option Uuid
focus_after panel_id closed none = none
focus_after panel_id closed (some focused) =
    if contains focused closed then some panel_id else some focused

module _ {F : Type 0} where
  -- `for pid in &to_close { ws.panels.remove(pid); ws.layout.remove_panel(*pid); }`
  pub remove_tabs : List Uuid → Workspace F → Workspace F
  remove_tabs [] ws = ws
  remove_tabs (pid ∷ pids) ws =
      remove_tabs pids (record ws {
        panels = without pid ws.panels;
        layout = (Layout.remove_panel pid ws.layout).0;
      })

  pub close_tabs : Uuid → List Uuid → Workspace F → Workspace F
  unfolding remove_tabs focus_after
  close_tabs panel_id closed ws =
      let rest = remove_tabs closed ws in
      record rest { focused_panel_id = focus_after panel_id closed rest.focused_panel_id }

  pub duplicate_tab : Uuid → Uuid → Workspace F → Workspace F
  duplicate_tab panel_id new_id ws = record ws {
    panels = insert new_id (new_terminal new_id) ws.panels;
    layout = (add_panel_to_pane panel_id new_id ws.layout).0;
    previous_focused_panel_id = ws.focused_panel_id;
    focused_panel_id = some new_id;
  }

module _ {V F : Type 0} ⦃j : Json V⦄ (id params : V) (new_id panel_id : Uuid) where
  -- An arm that changes the panel, if its workspace has it.
  unfoldable pub edit_tab : (Panel F → Panel F) → Handler V F
  unfolding notify_ui_refresh success
  edit_tab g state = (
    notify_ui_refresh (record state {
      tab_manager =
          edit_target (by_panel panel_id)
            (λ ws. record ws { panels = update_panel panel_id g ws.panels }) state.tab_manager;
    }),
    success id (flag (codes "ok")),
  )

  -- An arm that closes tabs of the pane.
  unfoldable pub close_some : (List Uuid → List Uuid) → Workspace F → Handler V F
  unfolding close_tabs notify_ui_refresh success not_found
  close_some choose ws state = elim (find_pane_with_panel_readonly panel_id ws.layout) [
    | none ↦ (state, not_found id (codes "Panel not in any pane"))
    | some pane_ids ↦ (
      notify_ui_refresh (record state {
        tab_manager = prune (close_tabs panel_id (choose pane_ids) ws) (
            edit_target (by_panel panel_id) (close_tabs panel_id (choose pane_ids))
              state.tab_manager);
      }),
      success id (j.object ((codes "closed", j.number (length (choose pane_ids))) ∷ [])),
    )
  ]

  unfoldable pub run_tab_action : TabAction → Workspace F → Handler V F
  unfolding edit_tab close_some tabs_left tabs_right other_tabs duplicate_tab notify_ui_refresh
      success invalid_params
  run_tab_action rename ws =
      ok_or (get_str params (codes "title")) (invalid_params id (codes "rename requires 'title'"))
      >>= λ title.
          edit_tab (λ p. record p { custom_title = some (truncate_str title max_title_len) })
  run_tab_action clear_name ws = edit_tab (λ p. record p { custom_title = none })
  run_tab_action close_left ws = close_some (tabs_left panel_id) ws
  run_tab_action close_right ws = close_some (tabs_right panel_id) ws
  run_tab_action close_others ws = close_some (other_tabs panel_id) ws
  run_tab_action pin ws = edit_tab (λ p. record p { is_pinned = true })
  run_tab_action unpin ws = edit_tab (λ p. record p { is_pinned = false })
  run_tab_action mark_read ws = edit_tab (λ p. record p { is_manually_unread = false })
  run_tab_action mark_unread ws = edit_tab (λ p. record p { is_manually_unread = true })
  run_tab_action duplicate ws = λ state. (
    notify_ui_refresh (record state {
      tab_manager =
          edit_target (by_panel panel_id) (duplicate_tab panel_id new_id) state.tab_manager;
    }),
    success id (
        j.object (
          (codes "panel_id", j.string (j.to_string new_id))
          ∷ (codes "duplicated", j.boolean true)
          ∷ [])),
  )

  unfoldable pub unknown_tab_action : Handler V F
  unfolding invalid_params
  unknown_tab_action state = (
    state,
    invalid_params id (
        codes
          "Unknown action. Use: rename, clear_name, close_left, close_right, close_others, pin, unpin, mark_read, mark_unread, duplicate"),
  )

  unfoldable pub answer_tab_action : Str → Handler V F
  unfolding run_tab_action tab_action_of unknown_tab_action not_found
  answer_tab_action action state = elim (find_target (by_panel panel_id) state.tab_manager) [
    | none ↦ (state, not_found id (codes "Panel not found in any workspace"))
    | some ws ↦ elim (tab_action_of action) [
      | none ↦ unknown_tab_action state
      | some a ↦ run_tab_action a ws state
    ]
  ]

module _ {V F : Type 0} ⦃j : Json V⦄ where
  unfoldable pub handle_tab_action : Uuid → V → V → Handler V F
  unfolding answer_tab_action invalid_params
  handle_tab_action new_id id params state =
      (resolve_panel_id id params state >>= λ panel_id. do
        action ←
            ok_or (get_str params (codes "action")) (invalid_params id (codes "Provide 'action'"))
        answer_tab_action id params new_id panel_id action)
        state
