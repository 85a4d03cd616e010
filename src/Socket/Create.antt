-- ===== src/Socket/Create.antt =====
-- cmux/src/socket/v2/notification.rs: `notification.create`. The new identifier, the clock's reading
-- and the setting `reorder_on_notification` are arguments, `to_lowercase` is `str::to_lowercase`,
-- and the sound is no part of the state.
use cmux_gtk.Prelude.{
  Uuid, ltb, Str, codes, list_eq, position, contains_key, get, Bool, true, false, not, Option, none,
  some, [], ◌∷◌, if◌then◌else◌,
}
use cmux_gtk.Truncate.{truncate_str}
use cmux_gtk.Workspace.{Workspace}
use cmux_gtk.Workspace.Notices.{record_notification}
use cmux_gtk.TabManager.{TabManager, selected_id, workspace, workspace_index, move_workspace}
use cmux_gtk.TabManager.Panels.{find_workspace_with_panel, update_workspace}
use cmux_gtk.Notifications.{add_with_retain}
use cmux_gtk.Session.Agent.{detect_agent_resume_command}
use cmux_gtk.Socket.{
  Json, Result, err, ok, ok_or, ◌>>=◌, Handler, notify_ui_refresh, success, not_found,
}
use cmux_gtk.Socket.Params.{unwrap_or, get_str, workspace_param}
use cmux_gtk.Socket.Notify.{source_param}

-- `Option::filter` on a panel that the workspace has
module _ {F : Type 0} where
  pub known_panel : Option Uuid → Workspace F → Option Uuid
  known_panel none ws = none
  known_panel (some pid) ws = if contains_key pid ws.panels then some pid else none

  -- The panel, if an agent started it from another panel.
  pub nested_panel : Option Uuid → Workspace F → Option Uuid
  nested_panel none ws = none
  nested_panel (some pid) ws = elim (get pid ws.panels) [
    | none ↦ none
    | some p ↦ elim p.parent_panel_id [ none ↦ none | some _ ↦ some pid ]
  ]

  pub runs_codex : (Str → Str) → Option Uuid → Workspace F → Bool
  runs_codex to_lowercase none ws = false
  runs_codex to_lowercase (some pid) ws = elim (get pid ws.panels) [
    | none ↦ false
    | some p ↦ elim (detect_agent_resume_command to_lowercase p.title p.command) [
      | none ↦ false
      | some agent ↦ list_eq agent (codes "codex")
    ]
  ]

  -- The notified workspace moves up to the first that is not pinned, if that is above it.
  unfoldable pub move_up : Uuid → TabManager F → TabManager F
  move_up target tm = elim (workspace_index target tm) [
    | none ↦ tm
    | some idx ↦
        let first_unpinned = unwrap_or 0 (position (λ ws. not ws.is_pinned) tm.workspaces) in
        if ltb first_unpinned idx then (move_workspace idx first_unpinned tm).0 else tm
  ]

module _ {V : Type 0} ⦃j : Json V⦄ where
  abbrev surface_json : Option Uuid → V
  surface_json none = j.null
  surface_json (some pid) = j.string (j.to_string pid)

  suppressed_json : Uuid → Uuid → V
  suppressed_json target pid = j.object (
      (codes "notified", j.boolean false)
      ∷ (codes "suppressed", j.boolean true)
      ∷ (codes "reason", j.string (codes "nested_agent_panel"))
      ∷ (codes "workspace", j.string (j.to_string target))
      ∷ (codes "workspace_id", j.string (j.to_string target))
      ∷ (codes "surface", j.string (j.to_string pid))
      ∷ [])

  notified_json : Uuid → Option Uuid → V
  notified_json target panel_id = j.object (
      (codes "notified", j.boolean true)
      ∷ (codes "workspace", j.string (j.to_string target))
      ∷ (codes "workspace_id", j.string (j.to_string target))
      ∷ (codes "surface", surface_json panel_id)
      ∷ [])

module _ {V F : Type 0} ⦃j : Json V⦄ where
  -- The workspace that is named, that of the panel that is named, or the selected one.
  unfoldable pub notified : V → Option Uuid → Option Uuid → TabManager F → Result V Uuid
  unfolding not_found
  notified id (some ws_id) panel_id tm = elim (workspace ws_id tm) [
    | none ↦ err (not_found id (codes "Workspace not found"))
    | some _ ↦ ok ws_id
  ]
  notified id none (some panel_id) tm = elim (find_workspace_with_panel panel_id tm) [
    | none ↦ err (not_found id (codes "No workspace selected"))
    | some ws ↦ ok ws.id
  ]
  notified id none none tm = ok_or (selected_id tm) (not_found id (codes "No workspace selected"))

module _ {V F : Type 0} ⦃j : Json V⦄ (to_lowercase : Str → Str) (reorder : Bool) (new_id : Uuid)
    (now : F) (id : V) where
  -- The notification is recorded in the workspace and added to the store.
  unfoldable pub notify : Str → Str → Uuid → Option Uuid → Workspace F → Handler V F
  unfolding runs_codex move_up notified_json notify_ui_refresh success
  notify title body target panel_id ws state =
      let recorded =
        update_workspace target (record_notification title body panel_id now) state.tab_manager in
      (
        notify_ui_refresh (record state {
          tab_manager = if reorder then move_up target recorded else recorded;
          notifications =
              (add_with_retain title body (some target) panel_id
                (runs_codex to_lowercase panel_id ws) new_id now state.notifications).0;
        }),
        success id (notified_json target panel_id),
      )

  unfoldable pub notify_workspace : Str → Str → Uuid → Option Uuid → Handler V F
  unfolding known_panel nested_panel notify suppressed_json success not_found
  notify_workspace title body target panel_id state = elim (workspace target state.tab_manager) [
    | none ↦ (state, not_found id (codes "No workspace selected"))
    | some ws ↦ elim (nested_panel (known_panel panel_id ws) ws) [
      | some pid ↦ (state, success id (suppressed_json target pid))
      | none ↦ notify title body target (known_panel panel_id ws) ws state
    ]
  ]

  unfoldable pub handle_notification_create : V → Handler V F
  unfolding notified notify_workspace
  handle_notification_create params =
      let title = truncate_str (unwrap_or (codes "cmux") (get_str params (codes "title"))) 1024 in
      let body = truncate_str (unwrap_or [] (get_str params (codes "body"))) 8192 in
      do
        ws_id ← workspace_param id params
        panel_id ← source_param id params
        λ state.
            (notified id ws_id panel_id state.tab_manager >>= λ target.
            notify_workspace title body target panel_id)
              state
