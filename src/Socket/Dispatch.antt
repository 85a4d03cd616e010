-- ===== src/Socket/Dispatch.antt =====
-- cmux/src/socket/v2/mod.rs: a request is checked and given to the handler of its method.
pub mod Answered
pub mod Examples
use cmux_gtk.Prelude.{
  Uuid, ℕ, Str, codes, ◌++◌, list_eq, contains, Bool, true, false, Option, none, some, List, [],
  ◌∷◌, if◌then◌else◌, F64,
}
use cmux_gtk.Socket.{
  Json, JsonFloat, Response, Result, err, ok, ok_or, ◌>>=◌, Handler, SharedState, invalid_params,
  not_found,
}
use cmux_gtk.Socket.Params.{try}
use cmux_gtk.Socket.Action.{handle_workspace_action}
use cmux_gtk.Socket.Create.{handle_notification_create}
use cmux_gtk.Socket.Describe.{
  handle_workspace_rename, handle_workspace_report_pr, handle_workspace_report_pr_checks,
  handle_workspace_move_to_window, handle_workspace_set_imessage_mode, handle_workspace_report_pwd,
  handle_workspace_report_ports, handle_workspace_clear_ports, handle_workspace_report_tty,
}
use cmux_gtk.Socket.Metadata.{
  handle_workspace_report_meta, handle_workspace_clear_meta, handle_workspace_report_meta_block,
  handle_workspace_clear_meta_block,
}
use cmux_gtk.Socket.Notify.{
  handle_notification_clear, handle_notification_mark_read, handle_notification_dismiss,
  handle_notification_open,
}
use cmux_gtk.Socket.Pane.{
  handle_pane_focus, handle_pane_close, handle_pane_last, handle_pane_swap,
  handle_pane_focus_direction, handle_panel_toggle_zoom,
}
use cmux_gtk.Socket.PaneMove.{handle_pane_break, handle_pane_join, handle_panel_move_to_workspace}
use cmux_gtk.Socket.PaneSplit.{
  handle_pane_new, handle_pane_split_off, handle_pane_resize, handle_pane_equalize,
}
use cmux_gtk.Socket.Reorder.{handle_workspace_reorder, handle_workspace_reorder_workspaces}
use cmux_gtk.Socket.Report.{
  handle_workspace_set_status, handle_workspace_report_git, handle_workspace_set_progress,
  handle_workspace_append_log, handle_workspace_clear_status, handle_workspace_clear_progress,
  handle_workspace_clear_log,
}
use cmux_gtk.Socket.Select.{
  handle_workspace_select, handle_workspace_next, handle_workspace_previous, handle_workspace_last,
  handle_workspace_latest_unread, handle_workspace_close,
}
use cmux_gtk.Socket.Surface.{handle_surface_move}
use cmux_gtk.Socket.Tab.{handle_tab_action}

pub record Request (V : Type 0) : Type 0 where
  pub id : V
  pub method : Str
  pub params : V
  pub window_id : Option Str

-- What the handlers take from outside of the state: new identifiers, the clock's reading, the
-- variable HOME, a setting, and functions of the standard library on texts and numbers.
pub record Inputs (F : Type 0) : Type 0 where
  pub new_id : Uuid
  pub workspace_id : Uuid
  pub now : F
  pub home : Option Str
  pub reorder : Bool
  pub to_lowercase : Str → Str
  pub to_uppercase : Str → Str
  pub decimal : ℕ → Str

-- The methods whose handlers the model has.
pub data Method : Type 0 where
  workspace_select workspace_next workspace_previous workspace_last workspace_latest_unread
        workspace_close workspace_set_status workspace_report_git workspace_set_progress
        workspace_append_log workspace_reorder workspace_reorder_workspaces workspace_clear_status
        workspace_clear_progress workspace_clear_log workspace_report_meta workspace_clear_meta
        workspace_report_meta_block workspace_clear_meta_block workspace_rename workspace_action
        workspace_report_pr workspace_report_pr_checks workspace_move_to_window
        workspace_set_imessage_mode pane_new pane_split_off pane_focus pane_close pane_last
        pane_swap pane_resize pane_focus_direction pane_break pane_join panel_move_to_workspace
        panel_toggle_zoom pane_equalize tab_action workspace_report_pwd workspace_report_ports
        workspace_clear_ports workspace_report_tty notification_create notification_clear
        notification_mark_read notification_dismiss notification_open surface_move :
      Method

-- The names in the match of `dispatch`.
pub methods : List (Str × Method)
methods =
    (codes "workspace.select", workspace_select)
    ∷ (codes "workspace.next", workspace_next)
    ∷ (codes "workspace.previous", workspace_previous)
    ∷ (codes "workspace.last", workspace_last)
    ∷ (codes "workspace.latest_unread", workspace_latest_unread)
    ∷ (codes "workspace.close", workspace_close)
    ∷ (codes "workspace.set_status", workspace_set_status)
    ∷ (codes "workspace.report_git_branch", workspace_report_git)
    ∷ (codes "workspace.set_progress", workspace_set_progress)
    ∷ (codes "workspace.append_log", workspace_append_log)
    ∷ (codes "workspace.reorder", workspace_reorder)
    ∷ (codes "workspace.reorder_workspaces", workspace_reorder_workspaces)
    ∷ (codes "workspace.clear_status", workspace_clear_status)
    ∷ (codes "workspace.clear_progress", workspace_clear_progress)
    ∷ (codes "workspace.clear_log", workspace_clear_log)
    ∷ (codes "workspace.report_meta", workspace_report_meta)
    ∷ (codes "workspace.clear_meta", workspace_clear_meta)
    ∷ (codes "workspace.report_meta_block", workspace_report_meta_block)
    ∷ (codes "workspace.clear_meta_block", workspace_clear_meta_block)
    ∷ (codes "workspace.rename", workspace_rename)
    ∷ (codes "workspace.action", workspace_action)
    ∷ (codes "workspace.report_pr", workspace_report_pr)
    ∷ (codes "workspace.report_pr_checks", workspace_report_pr_checks)
    ∷ (codes "workspace.move_to_window", workspace_move_to_window)
    ∷ (codes "workspace.set_imessage_mode", workspace_set_imessage_mode)
    ∷ (codes "pane.new", pane_new)
    ∷ (codes "pane.create", pane_new)
    ∷ (codes "surface.split", pane_new)
    ∷ (codes "pane.split_off", pane_split_off)
    ∷ (codes "pane.focus", pane_focus)
    ∷ (codes "surface.focus", pane_focus)
    ∷ (codes "surface.move", surface_move)
    ∷ (codes "pane.close", pane_close)
    ∷ (codes "surface.close", pane_close)
    ∷ (codes "pane.last", pane_last)
    ∷ (codes "pane.swap", pane_swap)
    ∷ (codes "pane.resize", pane_resize)
    ∷ (codes "pane.focus_direction", pane_focus_direction)
    ∷ (codes "pane.break", pane_break)
    ∷ (codes "pane.join", pane_join)
    ∷ (codes "panel.move_to_workspace", panel_move_to_workspace)
    ∷ (codes "panel.toggle_zoom", panel_toggle_zoom)
    ∷ (codes "pane.equalize", pane_equalize)
    ∷ (codes "tab.action", tab_action)
    ∷ (codes "workspace.report_pwd", workspace_report_pwd)
    ∷ (codes "workspace.report_ports", workspace_report_ports)
    ∷ (codes "workspace.clear_ports", workspace_clear_ports)
    ∷ (codes "workspace.report_tty", workspace_report_tty)
    ∷ (codes "notification.create", notification_create)
    ∷ (codes "notification.create_for_surface", notification_create)
    ∷ (codes "notification.create_for_target", notification_create)
    ∷ (codes "notification.clear", notification_clear)
    ∷ (codes "notification.mark_read", notification_mark_read)
    ∷ (codes "notification.dismiss", notification_dismiss)
    ∷ (codes "notification.open", notification_open)
    ∷ []

pub find_method : List (Str × Method) → Str → Option Method
find_method [] name = none
find_method ((n, m) ∷ more) name = if list_eq n name then some m else find_method more name

-- No method is found for the names that the model leaves out.
pub route : Str → Option Method
unfolding methods find_method
route name = find_method methods name

module _ {V : Type 0} ⦃j : Json V⦄ where
  -- The window that a request names has to be there.
  pub check_window : List Uuid → V → Option Str → Result V Bool
  unfolding invalid_params not_found
  check_window window_ids id none = ok true
  check_window window_ids id (some text) =
      try (ok_or (j.parse_uuid text) (invalid_params id (codes "window_id must be a valid UUID")))
        (λ wid.
          if contains wid window_ids
          then ok true
          else err (not_found id (codes "Window '" ++ text ++ codes "' not found")))

module _ {V F : Type 0} ⦃j : Json V⦄ ⦃n : JsonFloat V F⦄ ⦃f : F64 F⦄ where
  unfoldable pub serve : Inputs F → Method → V → V → Handler V F
  serve inputs workspace_select id params = handle_workspace_select id params
  serve inputs workspace_next id params = handle_workspace_next id params
  serve inputs workspace_previous id params = handle_workspace_previous id params
  serve inputs workspace_last id params = handle_workspace_last id
  serve inputs workspace_latest_unread id params = handle_workspace_latest_unread id
  serve inputs workspace_close id params = handle_workspace_close id params
  serve inputs workspace_set_status id params = handle_workspace_set_status inputs.now id params
  serve inputs workspace_report_git id params = handle_workspace_report_git id params
  serve inputs workspace_set_progress id params = handle_workspace_set_progress id params
  serve inputs workspace_append_log id params = handle_workspace_append_log inputs.now id params
  serve inputs workspace_reorder id params = handle_workspace_reorder id params
  serve inputs workspace_reorder_workspaces id params =
      handle_workspace_reorder_workspaces inputs.decimal id params
  serve inputs workspace_clear_status id params = handle_workspace_clear_status id params
  serve inputs workspace_clear_progress id params = handle_workspace_clear_progress id params
  serve inputs workspace_clear_log id params = handle_workspace_clear_log id params
  serve inputs workspace_report_meta id params = handle_workspace_report_meta inputs.now id params
  serve inputs workspace_clear_meta id params = handle_workspace_clear_meta id params
  serve inputs workspace_report_meta_block id params =
      handle_workspace_report_meta_block inputs.now id params
  serve inputs workspace_clear_meta_block id params = handle_workspace_clear_meta_block id params
  serve inputs workspace_rename id params = handle_workspace_rename id params
  serve inputs workspace_action id params = handle_workspace_action id params
  serve inputs workspace_report_pr id params = handle_workspace_report_pr id params
  serve inputs workspace_report_pr_checks id params =
      handle_workspace_report_pr_checks inputs.to_uppercase id params
  serve inputs workspace_move_to_window id params = handle_workspace_move_to_window id params
  serve inputs workspace_set_imessage_mode id params = handle_workspace_set_imessage_mode id params
  serve inputs pane_new id params = handle_pane_new inputs.new_id id params
  serve inputs pane_split_off id params = handle_pane_split_off inputs.new_id id params
  serve inputs pane_focus id params = handle_pane_focus id params
  serve inputs pane_close id params = handle_pane_close id params
  serve inputs pane_last id params = handle_pane_last id params
  serve inputs pane_swap id params = handle_pane_swap id params
  serve inputs pane_resize id params = handle_pane_resize id params
  serve inputs pane_focus_direction id params = handle_pane_focus_direction id params
  serve inputs pane_break id params =
      handle_pane_break inputs.home inputs.workspace_id inputs.new_id id params
  serve inputs pane_join id params = handle_pane_join id params
  serve inputs panel_move_to_workspace id params = handle_panel_move_to_workspace id params
  serve inputs panel_toggle_zoom id params = handle_panel_toggle_zoom id params
  serve inputs pane_equalize id params = handle_pane_equalize id params
  serve inputs tab_action id params = handle_tab_action inputs.new_id id params
  serve inputs workspace_report_pwd id params = handle_workspace_report_pwd id params
  serve inputs workspace_report_ports id params = handle_workspace_report_ports id params
  serve inputs workspace_clear_ports id params = handle_workspace_clear_ports id params
  serve inputs workspace_report_tty id params = handle_workspace_report_tty id params
  serve inputs notification_create id params =
      handle_notification_create inputs.to_lowercase inputs.reorder inputs.new_id inputs.now id
        params
  serve inputs notification_clear id params = handle_notification_clear id
  serve inputs notification_mark_read id params = handle_notification_mark_read id params
  serve inputs notification_dismiss id params = handle_notification_dismiss id params
  serve inputs notification_open id params = handle_notification_open id params
  serve inputs surface_move id params = handle_surface_move id params

  -- `other` are the handlers that the model leaves out, and the answer to an unknown method.
  pub dispatch : Inputs F → List Uuid → (Str → V → V → Handler V F) → Request V → Handler V F
  unfolding check_window route serve
  dispatch inputs window_ids other req = do
    checked ← check_window window_ids req.id req.window_id
    elim (route req.method) [
      | none ↦ other req.method req.id req.params
      | some m ↦ serve inputs m req.id req.params
    ]
