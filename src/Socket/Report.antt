-- ===== src/Socket/Report.antt =====
-- cmux/src/socket/v2/workspace.rs: the requests that report the status, the branch, the progress
-- and the log of a workspace. The clock's reading `now` is an argument.
use cmux_gtk.Prelude.{
  Uuid, Str, codes, is_empty_list, Bool, false, Option, none, some, [], if◌then◌else◌, F64,
}
use cmux_gtk.Truncate.{truncate_str}
use cmux_gtk.Panel.{GitBranch}
use cmux_gtk.Workspace.{Workspace, update_panel}
use cmux_gtk.Workspace.Sidebar.{set_status_with_url, append_log}
use cmux_gtk.Socket.{
  Json, JsonFloat, ok_or, ◌>>=◌, Handler, metadata_refresh, invalid_params, max_branch_len,
}
use cmux_gtk.Socket.Params.{and_then, unwrap_or, get_str, get_bool, get_uuid, flag, workspace_param}
use cmux_gtk.Socket.Targets.{by_id_or_current, edit}

-- An empty branch clears what is shown.
pub git_branch_of : Str → Bool → Option GitBranch
git_branch_of branch is_dirty =
    if is_empty_list branch
    then none
    else some (record { branch = truncate_str branch max_branch_len; is_dirty = is_dirty })

module _ {F : Type 0} where
  -- The branch goes to the workspace, and to the panel if there is one with the identifier.
  pub set_git_branch : Option GitBranch → Option Uuid → Workspace F → Workspace F
  set_git_branch branch none ws = record ws { git_branch = branch }
  set_git_branch branch (some panel_id) ws = record ws {
    git_branch = branch;
    panels = update_panel panel_id (λ p. record p { git_branch = branch }) ws.panels;
  }

module _ {V F : Type 0} ⦃j : Json V⦄ where
  -- The workspace that the request names, or the selected one, is changed.
  unfoldable pub edit_named : V → Option Uuid → (Workspace F → Workspace F) → Handler V F
  edit_named id ws_id g =
      edit id (codes "Workspace not found") (by_id_or_current ws_id) g metadata_refresh
        (flag (codes "ok"))

  unfoldable pub handle_workspace_clear_status : V → V → Handler V F
  unfolding edit_named
  handle_workspace_clear_status id params = do
    ws_id ← workspace_param id params
    edit_named id ws_id (λ ws. record ws { status_entries = [] })

  unfoldable pub handle_workspace_report_git : V → V → Handler V F
  unfolding invalid_params git_branch_of set_git_branch edit_named
  handle_workspace_report_git id params = do
    ws_id ← workspace_param id params
    branch ← ok_or (get_str params (codes "branch")) (invalid_params id (codes "Provide 'branch'"))
    edit_named id ws_id (
        set_git_branch (git_branch_of branch (unwrap_or false (get_bool params (codes "is_dirty"))))
          (get_uuid params (codes "surface")))

  unfoldable pub handle_workspace_clear_progress : V → V → Handler V F
  unfolding edit_named
  handle_workspace_clear_progress id params = do
    ws_id ← workspace_param id params
    edit_named id ws_id (λ ws. record ws { progress = none })

  unfoldable pub handle_workspace_append_log : F → V → V → Handler V F
  unfolding invalid_params edit_named
  handle_workspace_append_log now id params = do
    ws_id ← workspace_param id params
    message ←
        ok_or (get_str params (codes "message")) (invalid_params id (codes "Provide 'message'"))
    edit_named id ws_id (
        append_log message (unwrap_or (codes "info") (get_str params (codes "level")))
          (get_str params (codes "source")) now)

  unfoldable pub handle_workspace_clear_log : V → V → Handler V F
  unfolding edit_named
  handle_workspace_clear_log id params = do
    ws_id ← workspace_param id params
    edit_named id ws_id (λ ws. record ws { log_entries = [] })

module _ {V F : Type 0} ⦃j : Json V⦄ ⦃n : JsonFloat V F⦄ where
  unfoldable pub handle_workspace_set_progress : V → V → Handler V F
  unfolding edit_named
  handle_workspace_set_progress id params = do
    ws_id ← workspace_param id params
    edit_named id ws_id (λ ws. record ws {
      progress = elim (and_then (j.get params (codes "value")) n.as_f64) [
        | none ↦ none
        | some value ↦ some (record { value = value; label = get_str params (codes "label") })
      ];
    })

module _ {V F : Type 0} ⦃j : Json V⦄ ⦃f : F64 F⦄ where
  unfoldable pub handle_workspace_set_status : F → V → V → Handler V F
  unfolding invalid_params edit_named
  handle_workspace_set_status now id params = do
    ws_id ← workspace_param id params
    key ←
        ok_or (get_str params (codes "key")) (invalid_params id (codes "Provide 'key' and 'value'"))
    value ←
        ok_or (get_str params (codes "value"))
          (invalid_params id (codes "Provide 'key' and 'value'"))
    edit_named id ws_id (
        set_status_with_url key value (get_str params (codes "icon"))
          (get_str params (codes "color")) (get_str params (codes "url")) now)
