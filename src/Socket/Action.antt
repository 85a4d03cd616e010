-- ===== src/Socket/Action.antt =====
-- cmux/src/socket/v2/workspace.rs: `workspace.action`, the menu of a workspace.
use cmux_gtk.Prelude.{
  Uuid, ℕ, ◌+◌, ◌-◌, min, ltb, Str, codes, list_eq, Bool, true, false, not, Option, none, some, [],
  ◌∷◌, if◌then◌else◌,
}
use cmux_gtk.Truncate.{truncate_str}
use cmux_gtk.Workspace.{Workspace}
use cmux_gtk.Workspace.Notices.{mark_notifications_read}
use cmux_gtk.TabManager.{TabManager, len, workspace_index, move_workspace}
use cmux_gtk.TabManager.Closing
use cmux_gtk.TabManager.Closing.Valid.{
  Closes, close_others-Closes, close_above-Closes, close_below-Closes,
}
use cmux_gtk.Socket.{
  Json, ok_or, ◌>>=◌, Handler, metadata_refresh, send_ui_event, notify_ui_refresh, success,
  invalid_params, not_found, max_status_len, max_method_len,
}
use cmux_gtk.Socket.Params.{unwrap_or, get_str, flag, workspace_param}
use cmux_gtk.Socket.Targets.{Target, by_id_or_current, find_target, edit_target}
use cmux_gtk.Socket.Select.{read_workspace}

pub data WorkspaceAction : Type 0 where
  pin unpin toggle_pin mark_read mark_unread clear_name set_color clear_color rename move_up
        move_down move_top close_others close_above close_below :
      WorkspaceAction

-- The patterns of the match.
pub action_of : Str → Option WorkspaceAction
action_of s =
    if list_eq s (codes "pin")
    then some pin
    else if list_eq s (codes "unpin")
    then some unpin
    else if list_eq s (codes "toggle_pin")
    then some toggle_pin
    else if list_eq s (codes "mark_read")
    then some mark_read
    else if list_eq s (codes "mark_unread")
    then some mark_unread
    else if list_eq s (codes "clear_name")
    then some clear_name
    else if list_eq s (codes "set_color")
    then some set_color
    else if list_eq s (codes "clear_color")
    then some clear_color
    else if list_eq s (codes "rename")
    then some rename
    else if list_eq s (codes "move_up")
    then some move_up
    else if list_eq s (codes "move_down")
    then some move_down
    else if list_eq s (codes "move_top")
    then some move_top
    else if list_eq s (codes "close_others")
    then some close_others
    else if list_eq s (codes "close_above")
    then some close_above
    else if list_eq s (codes "close_below")
    then some close_below
    else none

-- `unread_count.max(1)`
at_least_one : ℕ → ℕ
at_least_one n = if ltb n 1 then 1 else n

module _ {V F : Type 0} ⦃j : Json V⦄ (id params : V) (target : Target) where
  -- An arm that edits the workspace found, and tells the window.
  unfoldable pub edit_found : (Workspace F → Workspace F) → V → Handler V F
  unfolding success
  edit_found g result state = (
    send_ui_event metadata_refresh
        (record state { tab_manager = edit_target target g state.tab_manager }),
    success id result,
  )

  -- An arm that moves or closes workspaces.
  unfoldable pub replace_list : TabManager F → V → Handler V F
  unfolding notify_ui_refresh success
  replace_list tm result state =
      (notify_ui_refresh (record state { tab_manager = tm }), success id result)

  unfoldable pub set_pinned : Bool → Handler V F
  unfolding edit_found
  set_pinned b =
      edit_found (λ ws. record ws { is_pinned = b })
        (j.object ((codes "is_pinned", j.boolean b) ∷ []))

  unfoldable pub move_found : Uuid → (ℕ → ℕ) → Handler V F
  unfolding replace_list
  move_found ws_id to state =
      let idx = unwrap_or 0 (workspace_index ws_id state.tab_manager) in
      replace_list (move_workspace idx (to idx) state.tab_manager).0
        (j.object ((codes "index", j.number (to idx)) ∷ [])) state

  -- A closing does not panic: `r` is what `close` returns.
  unfoldable pub close_found :
      (close : TabManager F → Option (TabManager F × ℕ)) → Closes close → Handler V F
  unfolding replace_list
  close_found close total state =
      let (r, _, _) = total state.tab_manager in
      replace_list r.0 (j.object ((codes "closed", j.number r.1) ∷ [])) state

  unfoldable pub run_action : WorkspaceAction → Workspace F → Handler V F
  unfolding set_pinned edit_found move_found close_found at_least_one invalid_params success
  run_action pin ws = set_pinned true
  run_action unpin ws = set_pinned false
  run_action toggle_pin ws = set_pinned (not ws.is_pinned)
  run_action mark_read ws = λ state. (
    send_ui_event metadata_refresh (
        read_workspace ws.id (record state {
          tab_manager = edit_target target mark_notifications_read state.tab_manager;
        })),
    success id (flag (codes "ok")),
  )
  run_action mark_unread ws =
      edit_found (λ w. record w { unread_count = at_least_one w.unread_count }) (flag (codes "ok"))
  run_action clear_name ws = edit_found (λ w. record w { custom_title = none }) (flag (codes "ok"))
  run_action set_color ws =
      ok_or (get_str params (codes "color"))
        (invalid_params id (codes "set_color requires 'color' param"))
      >>= λ color.
          edit_found (λ w. record w { custom_color = some (truncate_str color max_status_len) })
            (flag (codes "ok"))
  run_action clear_color ws = edit_found (λ w. record w { custom_color = none }) (flag (codes "ok"))
  run_action rename ws =
      ok_or (get_str params (codes "title"))
        (invalid_params id (codes "rename requires 'title' param"))
      >>= λ title.
          edit_found (λ w. record w { custom_title = some (truncate_str title max_method_len) })
            (flag (codes "ok"))
  run_action move_up ws = move_found ws.id (λ idx. idx - 1)
  run_action move_down ws =
      λ state. move_found ws.id (λ idx. min (idx + 1) (len state.tab_manager - 1)) state
  run_action move_top ws = move_found ws.id (λ idx. 0)
  run_action close_others ws = close_found (Closing.close_others ws.id) (close_others-Closes ws.id)
  run_action close_above ws = close_found (Closing.close_above ws.id) (close_above-Closes ws.id)
  run_action close_below ws = close_found (Closing.close_below ws.id) (close_below-Closes ws.id)

  unfoldable pub unknown_action : Handler V F
  unfolding invalid_params
  unknown_action state = (
    state,
    invalid_params id (
        codes
          "Unknown action. Use: pin, unpin, toggle_pin, mark_read, mark_unread, clear_name, set_color, clear_color, rename, move_up, move_down, move_top, close_others, close_above, close_below"),
  )

  unfoldable pub answer_action : Str → Handler V F
  unfolding run_action action_of unknown_action not_found
  answer_action action state = elim (find_target target state.tab_manager) [
    | none ↦ (state, not_found id (codes "No workspace"))
    | some ws ↦ elim (action_of action) [
      | none ↦ unknown_action state
      | some a ↦ run_action a ws state
    ]
  ]

module _ {V F : Type 0} ⦃j : Json V⦄ where
  unfoldable pub handle_workspace_action : V → V → Handler V F
  unfolding answer_action invalid_params
  handle_workspace_action id params = do
    ws_id ← workspace_param id params
    action ← ok_or (get_str params (codes "action")) (invalid_params id (codes "Provide 'action'"))
    answer_action id params (by_id_or_current ws_id) action
