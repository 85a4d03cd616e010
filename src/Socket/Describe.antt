-- ===== src/Socket/Describe.antt =====
-- cmux/src/socket/v2/workspace.rs: the requests that name a workspace, and those that report its
-- pull request, its directories, its ports and its terminals. `to_uppercase` is `str::to_uppercase`.
use cmux_gtk.Prelude.{
  Uuid, ℕ, ltb, ◌^◌, Str, codes, take, is_some_eq, true, Option, none, some, or_else, List, [], ◌∷◌,
  if◌then◌else◌,
}
use cmux_gtk.Truncate.{truncate_str}
use cmux_gtk.Entries.{PrCheck}
use cmux_gtk.Panel.{Panel}
use cmux_gtk.Workspace.{Workspace, update_panel}
use cmux_gtk.Socket.{
  Json, ok_or, ◌>>=◌, Handler, refresh, metadata_refresh, success, invalid_params, not_found,
  max_title_len, max_status_len, max_url_len, max_name_len, max_directory_len,
}
use cmux_gtk.Socket.Params.{
  and_then, unwrap_or, get_str, get_bool, get_array, get_uuid, get_either, flag, workspace_param,
}
use cmux_gtk.Socket.Targets.{current, by_id_or_current, by_panel_or, find_target, edit_target, edit}
use cmux_gtk.Socket.Report.{edit_named}

-- `option.map(|s| truncate_str(s, n).to_string())`
pub cut : ℕ → Option Str → Option Str
cut n none = none
cut n (some s) = some (truncate_str s n)

-- `filter_map`
abbrev pub filter_map {ℓ κ} : {A : Type ℓ} {B : Type κ} → (A → Option B) → List A → List B
filter_map g [] = []
filter_map g (x ∷ xs) = elim (g x) [ none ↦ filter_map g xs | some y ↦ y ∷ filter_map g xs ]

module _ {F : Type 0} where
  -- A panel, or the focused one, is changed if the workspace has it.
  pub edit_panel : Option Uuid → (Panel F → Panel F) → Workspace F → Workspace F
  edit_panel panel_id g ws = elim (or_else panel_id ws.focused_panel_id) [
    | none ↦ ws
    | some pid ↦ record ws { panels = update_panel pid g ws.panels }
  ]

  -- A directory goes to the panel that is named, and to the workspace if that panel has the focus
  -- or none is named.
  pub set_directory : Str → Option Uuid → Workspace F → Workspace F
  set_directory directory none ws = record ws { current_directory = directory }
  set_directory directory (some pid) ws = record ws {
    panels = update_panel pid (λ p. record p { directory = some directory }) ws.panels;
    current_directory =
        if is_some_eq ws.focused_panel_id pid then directory else ws.current_directory;
  }

module _ {V : Type 0} ⦃j : Json V⦄ where
  -- The panel that a report is about; what is no identifier is ignored.
  abbrev pub reported_panel : V → Option Uuid
  reported_panel params =
      and_then (and_then (get_either params (codes "panel") (codes "surface")) j.as_str)
        j.parse_uuid

  pub to_port : V → Option ℕ
  to_port v = and_then (j.as_u64 v) (λ n. if ltb n (2 ^ 16) then some n else none)

  pub to_check : (Str → Str) → V → Option PrCheck
  to_check to_uppercase item = elim (get_str item (codes "name")) [
    | none ↦ none
    | some name ↦ some (record {
      name = truncate_str name max_name_len;
      conclusion = to_uppercase (unwrap_or (codes "PENDING") (get_str item (codes "conclusion")));
    })
  ]

module _ {V F : Type 0} ⦃j : Json V⦄ where
  unfoldable pub handle_workspace_rename : V → V → Handler V F
  unfolding invalid_params
  handle_workspace_rename id params = do
    ws_id ← workspace_param id params
    title ← ok_or (get_str params (codes "title")) (invalid_params id (codes "Provide 'title'"))
    edit_named id ws_id (λ ws. record ws { custom_title = some (truncate_str title max_title_len) })

  unfoldable pub handle_workspace_report_pr : V → V → Handler V F
  unfolding cut
  handle_workspace_report_pr id params = do
    ws_id ← workspace_param id params
    edit id (codes "No workspace") (by_id_or_current ws_id)
        (λ ws. record ws {
          pr_status = cut max_status_len (get_str params (codes "status"));
          pr_url = cut max_url_len (get_str params (codes "url"));
        })
        metadata_refresh (flag (codes "updated"))

  unfoldable pub handle_workspace_report_pr_checks : (Str → Str) → V → V → Handler V F
  unfolding invalid_params to_check
  handle_workspace_report_pr_checks to_uppercase id params = do
    ws_id ← workspace_param id params
    checks ←
        ok_or (get_array params (codes "checks"))
          (invalid_params id (codes "Provide 'checks' array"))
    edit id (codes "No workspace") (by_id_or_current ws_id)
        (λ ws. record ws { pr_checks = take 20 (filter_map (to_check to_uppercase) checks) })
        metadata_refresh (flag (codes "updated"))

  unfoldable pub handle_workspace_set_imessage_mode : V → V → Handler V F
  unfolding invalid_params
  handle_workspace_set_imessage_mode id params = do
    ws_id ← workspace_param id params
    enabled ←
        ok_or (get_bool params (codes "enabled"))
          (invalid_params id (codes "Provide 'enabled' (bool)"))
    edit id (codes "Workspace not found") (by_id_or_current ws_id)
        (λ ws. record ws { imessage_mode = enabled }) metadata_refresh
        (j.object ((codes "ok", j.boolean true) ∷ (codes "imessage_mode", j.boolean enabled) ∷ []))

  unfoldable pub handle_workspace_move_to_window : V → V → Handler V F
  unfolding invalid_params
  handle_workspace_move_to_window id params = do
    ws_id ← workspace_param id params
    target_window ←
        ok_or (get_uuid params (codes "window"))
          (invalid_params id (codes "Provide 'window' (UUID)"))
    edit id (codes "Workspace not found") (by_id_or_current ws_id)
        (λ ws. record ws { window_id = some target_window }) refresh (flag (codes "ok"))

  unfoldable pub handle_workspace_report_pwd : V → V → Handler V F
  unfolding invalid_params set_directory
  handle_workspace_report_pwd id params = do
    directory ←
        ok_or (get_str params (codes "directory")) (invalid_params id (codes "Provide 'directory'"))
    ws_id ← workspace_param id params
    edit id (codes "No workspace") (by_panel_or (reported_panel params) (by_id_or_current ws_id))
        (set_directory (truncate_str directory max_directory_len) (reported_panel params))
        metadata_refresh (flag (codes "ok"))

  unfoldable pub handle_workspace_report_ports : V → V → Handler V F
  unfolding invalid_params edit_panel to_port
  handle_workspace_report_ports id params = do
    ports ←
        ok_or (get_array params (codes "ports")) (invalid_params id (codes "Provide 'ports' array"))
    edit id (codes "No workspace") (by_panel_or (reported_panel params) current)
        (edit_panel (reported_panel params)
          (λ p. record p { listening_ports = take 256 (filter_map to_port ports) }))
        metadata_refresh (flag (codes "ok"))

  unfoldable pub handle_workspace_clear_ports : V → V → Handler V F
  unfolding edit_panel
  handle_workspace_clear_ports id params =
      edit id (codes "No workspace") (by_panel_or (reported_panel params) current)
        (edit_panel (reported_panel params) (λ p. record p { listening_ports = [] }))
        metadata_refresh (flag (codes "ok"))

  -- This one does not tell the window.
  unfoldable pub handle_workspace_report_tty : V → V → Handler V F
  unfolding invalid_params not_found success edit_panel
  handle_workspace_report_tty id params = do
    tty ← ok_or (get_str params (codes "tty")) (invalid_params id (codes "Provide 'tty'"))
    λ state.
        let target = by_panel_or (reported_panel params) current in
        elim (find_target target state.tab_manager) [
          | none ↦ (state, not_found id (codes "No workspace"))
          | some _ ↦ (
            record state {
              tab_manager =
                  edit_target target
                    (edit_panel (reported_panel params)
                      (λ p. record p { tty_name = some (truncate_str tty 256) }))
                    state.tab_manager;
            },
            success id (flag (codes "ok")),
          )
        ]
