-- ===== src/Socket/Dispatch/Answered.antt =====
-- cmux/src/socket/v2: every request that the model serves, but for `surface.move`, is answered.
use cmux_gtk.Prelude.{
  Uuid, Str, ◌≡◌, ◌≢◌, refl, contains, true, Option, none, some, List, F64, Bool-cases, inl, inr,
}
use cmux_gtk.Workspace.{Workspace}
use cmux_gtk.Workspace.Validity
use cmux_gtk.TabManager.{IsValid, selected}
use cmux_gtk.Socket.{Json, JsonFloat, SharedState, Handler}
use cmux_gtk.Socket.Dispatch.{
  Inputs, Method, workspace_select, workspace_next, workspace_previous, workspace_last,
  workspace_latest_unread, workspace_close, workspace_set_status, workspace_report_git,
  workspace_set_progress, workspace_append_log, workspace_reorder, workspace_reorder_workspaces,
  workspace_clear_status, workspace_clear_progress, workspace_clear_log, workspace_report_meta,
  workspace_clear_meta, workspace_report_meta_block, workspace_clear_meta_block, workspace_rename,
  workspace_action, workspace_report_pr, workspace_report_pr_checks, workspace_move_to_window,
  workspace_set_imessage_mode, pane_new, pane_split_off, pane_focus, pane_close, pane_last,
  pane_swap, pane_resize, pane_focus_direction, pane_break, pane_join, panel_move_to_workspace,
  panel_toggle_zoom, pane_equalize, tab_action, workspace_report_pwd, workspace_report_ports,
  workspace_clear_ports, workspace_report_tty, notification_create, notification_clear,
  notification_mark_read, notification_dismiss, notification_open, surface_move, serve,
  check_window, route, Request, dispatch,
}
use cmux_gtk.Socket.Answer.{IsAnswer, IsParam, absent, read, ok_or-bad, try-IsParam, bind-IsAnswer}
use cmux_gtk.Socket.Answer.Actions.{action-IsAnswer}
use cmux_gtk.Socket.Answer.Describes.{
  rename-IsAnswer, report_pr-IsAnswer, report_pr_checks-IsAnswer, move_to_window-IsAnswer,
  set_imessage_mode-IsAnswer, report_pwd-IsAnswer, report_ports-IsAnswer, clear_ports-IsAnswer,
  report_tty-IsAnswer,
}
use cmux_gtk.Socket.Answer.Moves.{
  pane_break-IsAnswer, pane_join-IsAnswer, move_to_workspace-IsAnswer,
}
use cmux_gtk.Socket.Answer.Notices.{
  create-IsAnswer, clear-IsAnswer, mark_read-IsAnswer, dismiss-IsAnswer, open-IsAnswer,
}
use cmux_gtk.Socket.Answer.Panes.{
  pane_focus-IsAnswer, pane_close-IsAnswer, pane_last-IsAnswer, pane_swap-IsAnswer,
  focus_direction-IsAnswer, toggle_zoom-IsAnswer,
}
use cmux_gtk.Socket.Answer.Reorders.{reorder-IsAnswer, reorder_workspaces-IsAnswer}
use cmux_gtk.Socket.Answer.Reports.{
  set_status-IsAnswer, report_git-IsAnswer, set_progress-IsAnswer, append_log-IsAnswer,
  clear_status-IsAnswer, clear_progress-IsAnswer, clear_log-IsAnswer, report_meta-IsAnswer,
  clear_meta-IsAnswer, report_meta_block-IsAnswer, clear_meta_block-IsAnswer,
}
use cmux_gtk.Socket.Answer.Selects.{
  select-IsAnswer, next-IsAnswer, previous-IsAnswer, last-IsAnswer, latest_unread-IsAnswer,
  close-IsAnswer,
}
use cmux_gtk.Socket.Answer.Splits.{
  pane_new-IsAnswer, split_off-IsAnswer, resize-IsAnswer, equalize-IsAnswer,
}
use cmux_gtk.Socket.Answer.Tabs.{tab_action-IsAnswer}

module _ {V : Type 0} ⦃j : Json V⦄ where
  check_window-IsParam :
      (window_ids : List Uuid) (id : V) (o : Option Str) → IsParam id (check_window window_ids id o)
  unfolding check_window
  check_window-IsParam window_ids id none = read true
  check_window-IsParam window_ids id (some text) =
      try-IsParam id (ok_or-bad id (j.parse_uuid text) _) (λ wid.
        elim (Bool-cases (contains wid window_ids)) [
          | inl e ↦ rw e (read true)
          | inr e ↦ rw e (absent _)
        ])

module _ {V F : Type 0} ⦃j : Json V⦄ ⦃n : JsonFloat V F⦄ ⦃f : F64 F⦄ (inputs : Inputs F)
    (state : SharedState F) (v : IsValid state.tab_manager)
    (sound : (w : Workspace F) → selected state.tab_manager ≡ some w → Validity.IsValid w) where
  serve-IsAnswer :
      (m : Method) (id params : V)
      → m ≢ surface_move
      → IsAnswer id state (serve inputs m id params state)
  unfolding serve
  serve-IsAnswer workspace_select id params ne = select-IsAnswer id state v params
  serve-IsAnswer workspace_next id params ne = next-IsAnswer id state v params
  serve-IsAnswer workspace_previous id params ne = previous-IsAnswer id state v params
  serve-IsAnswer workspace_last id params ne = last-IsAnswer id state v
  serve-IsAnswer workspace_latest_unread id params ne = latest_unread-IsAnswer id state v
  serve-IsAnswer workspace_close id params ne = close-IsAnswer id state v params
  serve-IsAnswer workspace_set_status id params ne =
      set_status-IsAnswer id params state v inputs.now
  serve-IsAnswer workspace_report_git id params ne = report_git-IsAnswer id params state v
  serve-IsAnswer workspace_set_progress id params ne = set_progress-IsAnswer id params state v
  serve-IsAnswer workspace_append_log id params ne =
      append_log-IsAnswer id params state v inputs.now
  serve-IsAnswer workspace_reorder id params ne = reorder-IsAnswer id params state v
  serve-IsAnswer workspace_reorder_workspaces id params ne =
      reorder_workspaces-IsAnswer id params state v inputs.decimal
  serve-IsAnswer workspace_clear_status id params ne = clear_status-IsAnswer id params state v
  serve-IsAnswer workspace_clear_progress id params ne = clear_progress-IsAnswer id params state v
  serve-IsAnswer workspace_clear_log id params ne = clear_log-IsAnswer id params state v
  serve-IsAnswer workspace_report_meta id params ne =
      report_meta-IsAnswer id params state v inputs.now
  serve-IsAnswer workspace_clear_meta id params ne = clear_meta-IsAnswer id params state v
  serve-IsAnswer workspace_report_meta_block id params ne =
      report_meta_block-IsAnswer id params state v inputs.now
  serve-IsAnswer workspace_clear_meta_block id params ne =
      clear_meta_block-IsAnswer id params state v
  serve-IsAnswer workspace_rename id params ne = rename-IsAnswer id params state v
  serve-IsAnswer workspace_action id params ne = action-IsAnswer id params state v
  serve-IsAnswer workspace_report_pr id params ne = report_pr-IsAnswer id params state v
  serve-IsAnswer workspace_report_pr_checks id params ne =
      report_pr_checks-IsAnswer id params state v inputs.to_uppercase
  serve-IsAnswer workspace_move_to_window id params ne = move_to_window-IsAnswer id params state v
  serve-IsAnswer workspace_set_imessage_mode id params ne =
      set_imessage_mode-IsAnswer id params state v
  serve-IsAnswer pane_new id params ne = pane_new-IsAnswer id params state v inputs.new_id
  serve-IsAnswer pane_split_off id params ne = split_off-IsAnswer id params state v inputs.new_id
  serve-IsAnswer pane_focus id params ne = pane_focus-IsAnswer id params state v
  serve-IsAnswer pane_close id params ne = pane_close-IsAnswer id params state v
  serve-IsAnswer pane_last id params ne = pane_last-IsAnswer id params state v
  serve-IsAnswer pane_swap id params ne = pane_swap-IsAnswer id params state v sound
  serve-IsAnswer pane_resize id params ne = resize-IsAnswer id params state v
  serve-IsAnswer pane_focus_direction id params ne = focus_direction-IsAnswer id params state v
  serve-IsAnswer pane_break id params ne =
      pane_break-IsAnswer id params state v inputs.home inputs.workspace_id inputs.new_id
  serve-IsAnswer pane_join id params ne = pane_join-IsAnswer id params state v
  serve-IsAnswer panel_move_to_workspace id params ne = move_to_workspace-IsAnswer id params state v
  serve-IsAnswer panel_toggle_zoom id params ne = toggle_zoom-IsAnswer id params state v
  serve-IsAnswer pane_equalize id params ne = equalize-IsAnswer id params state v
  serve-IsAnswer tab_action id params ne = tab_action-IsAnswer id params state v inputs.new_id
  serve-IsAnswer workspace_report_pwd id params ne = report_pwd-IsAnswer id params state v
  serve-IsAnswer workspace_report_ports id params ne = report_ports-IsAnswer id params state v
  serve-IsAnswer workspace_clear_ports id params ne = clear_ports-IsAnswer id params state v
  serve-IsAnswer workspace_report_tty id params ne = report_tty-IsAnswer id params state v
  serve-IsAnswer notification_create id params ne =
      create-IsAnswer id params state v inputs.to_lowercase inputs.reorder inputs.new_id inputs.now
  serve-IsAnswer notification_clear id params ne = clear-IsAnswer id params state v
  serve-IsAnswer notification_mark_read id params ne = mark_read-IsAnswer id params state v
  serve-IsAnswer notification_dismiss id params ne = dismiss-IsAnswer id params state v
  serve-IsAnswer notification_open id params ne = open-IsAnswer id params state v
  serve-IsAnswer surface_move id params ne = absurd (ne refl)

  -- In a state with a valid list and a valid selected workspace, a request for a method of the model
  -- other than `surface.move` is answered under its own identifier: either it is refused, as invalid
  -- or because something is missing, and nothing has changed, or it succeeds and the list of
  -- workspaces is valid.
  pub dispatch_answers :
      (window_ids : List Uuid) (other : Str → V → V → Handler V F) (req : Request V) (m : Method)
      → route req.method ≡ some m
      → m ≢ surface_move
      → IsAnswer req.id state (dispatch inputs window_ids other req state)
  unfolding dispatch
  dispatch_answers window_ids other req m e ne =
      bind-IsAnswer req.id _ (check_window-IsParam window_ids req.id req.window_id)
        (λ checked. rw e (serve-IsAnswer m req.id req.params ne))
