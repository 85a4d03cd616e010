-- ===== src/Socket/Answer/Actions.antt =====
-- cmux/src/socket/v2/workspace.rs: the answers to `workspace.action`, arm by arm.
use cmux_gtk.Prelude.{ℕ, ◌+◌, ◌-◌, min, Uuid, Str, Option, Option-cases, inl, inr}
use cmux_gtk.Workspace.{Workspace}
use cmux_gtk.Workspace.Notices.{mark_notifications_read}
use cmux_gtk.TabManager.{TabManager, len, IsValid, workspace_index}
use cmux_gtk.TabManager.Selection.{move_workspace-IsValid}
use cmux_gtk.TabManager.Closing.Valid.{
  Closes, close_others-Closes, close_above-Closes, close_below-Closes,
}
use cmux_gtk.TabManager.Panels.Moved.{update_workspace-IsValid}
use cmux_gtk.Socket.{Json, SharedState, send_ui_event, notify_ui_refresh}
use cmux_gtk.Socket.Params.{unwrap_or}
use cmux_gtk.Socket.Params.Readings.{workspace_param-IsParam}
use cmux_gtk.Socket.Targets.{Target, by_id_or_current, find_target, edit_target}
use cmux_gtk.Socket.Select.{read_workspace}
use cmux_gtk.Socket.Action.{
  WorkspaceAction, pin, unpin, toggle_pin, mark_read, mark_unread, clear_name, set_color,
  clear_color, rename, move_up, move_down, move_top, close_others, close_above, close_below,
  action_of, edit_found, replace_list, set_pinned, move_found, close_found, run_action,
  unknown_action, answer_action, handle_workspace_action,
}
use cmux_gtk.Socket.Answer.{IsAnswer, refused, missing, done, ok_or-bad, bind-IsAnswer}
use cmux_gtk.Socket.Answer.Edits.{edit_target-IsValid}

module _ {V F : Type 0} ⦃j : Json V⦄ (id params : V) (target : Target) (state : SharedState F)
    (v : IsValid state.tab_manager) where
  edit_found-IsAnswer :
      (g : Workspace F → Workspace F) (result : V)
      → IsAnswer id state (edit_found id params target g result state)
  unfolding edit_found send_ui_event
  edit_found-IsAnswer g result = done _ _ (edit_target-IsValid target g state.tab_manager v)

  replace_list-IsAnswer :
      (tm : TabManager F) (result : V)
      → IsValid tm
      → IsAnswer id state (replace_list id params target tm result state)
  unfolding replace_list notify_ui_refresh send_ui_event
  replace_list-IsAnswer tm result w = done _ _ w

  move_found-IsAnswer :
      (ws_id : Uuid) (to : ℕ → ℕ) → IsAnswer id state (move_found id params target ws_id to state)
  unfolding move_found
  move_found-IsAnswer ws_id to = replace_list-IsAnswer _ _ (
      move_workspace-IsValid (unwrap_or 0 (workspace_index ws_id state.tab_manager)) _
        state.tab_manager v)

  close_found-IsAnswer :
      (close : TabManager F → Option (TabManager F × ℕ)) (total : Closes close)
      → IsAnswer id state (close_found id params target close total state)
  unfolding close_found
  close_found-IsAnswer close total =
      let (_, _, keeps) = total state.tab_manager in replace_list-IsAnswer _ _ (keeps v)

  run_action-IsAnswer :
      (a : WorkspaceAction) (ws : Workspace F)
      → IsAnswer id state (run_action id params target a ws state)
  unfolding run_action set_pinned send_ui_event read_workspace
  run_action-IsAnswer pin ws = edit_found-IsAnswer _ _
  run_action-IsAnswer unpin ws = edit_found-IsAnswer _ _
  run_action-IsAnswer toggle_pin ws = edit_found-IsAnswer _ _
  run_action-IsAnswer mark_read ws = done _ _ (
      update_workspace-IsValid ws.id mark_notifications_read
        (edit_target target mark_notifications_read state.tab_manager)
        (edit_target-IsValid target mark_notifications_read state.tab_manager v))
  run_action-IsAnswer mark_unread ws = edit_found-IsAnswer _ _
  run_action-IsAnswer clear_name ws = edit_found-IsAnswer _ _
  run_action-IsAnswer set_color ws =
      bind-IsAnswer id _ (ok_or-bad id _ _) (λ color. edit_found-IsAnswer _ _)
  run_action-IsAnswer clear_color ws = edit_found-IsAnswer _ _
  run_action-IsAnswer rename ws =
      bind-IsAnswer id _ (ok_or-bad id _ _) (λ title. edit_found-IsAnswer _ _)
  run_action-IsAnswer move_up ws = move_found-IsAnswer ws.id (λ idx. idx - 1)
  run_action-IsAnswer move_down ws =
      move_found-IsAnswer ws.id (λ idx. min (idx + 1) (len state.tab_manager - 1))
  run_action-IsAnswer move_top ws = move_found-IsAnswer ws.id (λ idx. 0)
  run_action-IsAnswer close_others ws = close_found-IsAnswer _ (close_others-Closes ws.id)
  run_action-IsAnswer close_above ws = close_found-IsAnswer _ (close_above-Closes ws.id)
  run_action-IsAnswer close_below ws = close_found-IsAnswer _ (close_below-Closes ws.id)

  answer_action-IsAnswer :
      (action : Str) → IsAnswer id state (answer_action id params target action state)
  unfolding answer_action unknown_action
  answer_action-IsAnswer action = elim (Option-cases (find_target target state.tab_manager)) [
    | inl e ↦ rw (answer_action, e) (missing _)
    | inr (ws, e) ↦ elim (Option-cases (action_of action)) [
      | inl n ↦ rw (answer_action, e, n) (refused _)
      | inr (a, n) ↦ rw (answer_action, e, n) (run_action-IsAnswer a ws)
    ]
  ]

module _ {V F : Type 0} ⦃j : Json V⦄ (id params : V) (state : SharedState F)
    (v : IsValid state.tab_manager) where
  pub action-IsAnswer : IsAnswer id state (handle_workspace_action id params state)
  unfolding handle_workspace_action
  action-IsAnswer = bind-IsAnswer id _ (workspace_param-IsParam id params) (λ ws_id.
      bind-IsAnswer id _ (ok_or-bad id _ _)
        (λ action. answer_action-IsAnswer id params (by_id_or_current ws_id) state v action))
