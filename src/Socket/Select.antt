-- ===== src/Socket/Select.antt =====
-- cmux/src/socket/v2/workspace.rs: the requests that select a workspace or close one.
use cmux_gtk.Prelude.{Uuid, ℕ, codes, Bool, true, false, Option, none, some, [], ◌∷◌, F64}
use cmux_gtk.Workspace.{Workspace}
use cmux_gtk.Workspace.Notices.{mark_notifications_read}
use cmux_gtk.TabManager.{
  TabManager, select, select_by_id, select_next, select_previous, select_last, selected_id, remove,
  remove_by_id,
}
use cmux_gtk.TabManager.Panels.{select_latest_unread, update_workspace}
use cmux_gtk.Notifications.{mark_workspace_read}
use cmux_gtk.Socket.{
  Json, Response, ◌>>=◌, Handler, SharedState, notify_ui_refresh, success, invalid_params,
  not_found,
}
use cmux_gtk.Socket.Params.{flag, unwrap_or, get_bool, workspace_param, parse_usize_param}

module _ {F : Type 0} where
  -- The helper `mark_workspace_read`: in the store, and in the workspace.
  unfoldable pub read_workspace : Uuid → SharedState F → SharedState F
  read_workspace id state = record state {
    notifications = mark_workspace_read id state.notifications;
    tab_manager = update_workspace id mark_notifications_read state.tab_manager;
  }

  abbrev pub read_if : Option Uuid → SharedState F → SharedState F
  read_if none state = state
  read_if (some id) state = read_workspace id state

  -- What follows every selection: the selected workspace is read, and the window is told.
  unfoldable pub after_select : TabManager F → SharedState F → SharedState F
  unfolding read_workspace notify_ui_refresh
  after_select tm state =
      notify_ui_refresh (read_if (selected_id tm) (record state { tab_manager = tm }))

  -- An index is taken before an identifier; `none` where neither is given.
  unfoldable pub select_either :
      Option ℕ → Option Uuid → TabManager F → Option (TabManager F × Bool)
  select_either (some index) ws_id tm = some (select index tm)
  select_either none (some id) tm = some (select_by_id id tm)
  select_either none none tm = none

  unfoldable pub close_either :
      Option ℕ → Option Uuid → TabManager F → TabManager F × Option (Workspace F)
  close_either (some index) ws_id tm = remove index tm
  close_either none (some id) tm = remove_by_id id tm
  close_either none none tm = elim tm.selected_index [
    | none ↦ (tm, none)
    | some index ↦ remove index tm
  ]

module _ {V : Type 0} ⦃j : Json V⦄ where
  abbrev wrap : V → Bool
  wrap params = unwrap_or true (get_bool params (codes "wrap"))

module _ {V F : Type 0} ⦃j : Json V⦄ where
  unfoldable pub answer_select :
      V → SharedState F → Option (TabManager F × Bool) → SharedState F × Response V
  unfolding after_select success invalid_params not_found
  answer_select id state none =
      (state, invalid_params id (codes "Provide 'index' or 'workspace'/'workspace_id'"))
  answer_select id state (some (tm, true)) =
      (after_select tm state, success id (flag (codes "selected")))
  answer_select id state (some (tm, false)) =
      (record state { tab_manager = tm }, not_found id (codes "Workspace not found"))

  unfoldable pub handle_workspace_select : V → V → Handler V F
  unfolding answer_select select_either
  handle_workspace_select id params = do
    index ← parse_usize_param id params (codes "index")
    ws_id ← workspace_param id params
    λ state. answer_select id state (select_either index ws_id state.tab_manager)

  unfoldable pub handle_workspace_next : V → V → Handler V F
  unfolding after_select success
  handle_workspace_next id params state = (
    after_select (select_next (wrap params) state.tab_manager) state,
    success id (flag (codes "ok")),
  )

  unfoldable pub handle_workspace_previous : V → V → Handler V F
  unfolding after_select success
  handle_workspace_previous id params state = (
    after_select (select_previous (wrap params) state.tab_manager) state,
    success id (flag (codes "ok")),
  )

  unfoldable pub handle_workspace_last : V → Handler V F
  unfolding after_select success
  handle_workspace_last id state =
      (after_select (select_last state.tab_manager) state, success id (flag (codes "ok")))

  unfoldable pub answer_close :
      V → SharedState F → TabManager F × Option (Workspace F) → SharedState F × Response V
  unfolding notify_ui_refresh success not_found
  answer_close id state (tm, none) =
      (record state { tab_manager = tm }, not_found id (codes "Workspace not found"))
  answer_close id state (tm, some _) =
      (notify_ui_refresh (record state { tab_manager = tm }), success id (flag (codes "closed")))

  unfoldable pub handle_workspace_close : V → V → Handler V F
  unfolding close_either answer_close
  handle_workspace_close id params = do
    index ← parse_usize_param id params (codes "index")
    ws_id ← workspace_param id params
    λ state. answer_close id state (close_either index ws_id state.tab_manager)

module _ {V F : Type 0} ⦃j : Json V⦄ ⦃f : F64 F⦄ where
  unfoldable pub answer_latest :
      V → SharedState F → TabManager F × Option Uuid → SharedState F × Response V
  unfolding read_workspace notify_ui_refresh success not_found
  answer_latest id state (tm, none) =
      (record state { tab_manager = tm }, not_found id (codes "No unread workspace"))
  answer_latest id state (tm, some ws) = (
    notify_ui_refresh (read_workspace ws (record state { tab_manager = tm })),
    success id (
        j.object (
          (codes "workspace_id", j.string (j.to_string ws))
          ∷ (codes "workspace", j.string (j.to_string ws))
          ∷ (codes "selected", j.boolean true)
          ∷ [])),
  )

  unfoldable pub handle_workspace_latest_unread : V → Handler V F
  unfolding answer_latest
  handle_workspace_latest_unread id state =
      answer_latest id state (select_latest_unread state.tab_manager)
