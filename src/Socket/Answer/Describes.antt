-- ===== src/Socket/Answer/Describes.antt =====
-- cmux/src/socket/v2/workspace.rs: the answers to the requests that describe a workspace.
use cmux_gtk.Prelude.{Str, Option-cases, inl, inr}
use cmux_gtk.TabManager.{IsValid}
use cmux_gtk.Socket.{Json, SharedState}
use cmux_gtk.Socket.Targets.{current, by_panel_or, find_target}
use cmux_gtk.Socket.Report.{edit_named}
use cmux_gtk.Socket.Describe.{
  reported_panel, handle_workspace_rename, handle_workspace_report_pr,
  handle_workspace_report_pr_checks, handle_workspace_set_imessage_mode,
  handle_workspace_move_to_window, handle_workspace_report_pwd, handle_workspace_report_ports,
  handle_workspace_clear_ports, handle_workspace_report_tty,
}
use cmux_gtk.Socket.Answer.{IsAnswer, missing, done, ok_or-bad, bind-IsAnswer}
use cmux_gtk.Socket.Params.Readings.{workspace_param-IsParam}
use cmux_gtk.Socket.Answer.Edits.{edit-IsAnswer, edit_target-IsValid}

module _ {V F : Type 0} ⦃j : Json V⦄ (id params : V) (state : SharedState F)
    (v : IsValid state.tab_manager) where
  pub rename-IsAnswer : IsAnswer id state (handle_workspace_rename id params state)
  unfolding handle_workspace_rename edit_named
  rename-IsAnswer =
      bind-IsAnswer id _ (workspace_param-IsParam id params) (λ ws_id.
        bind-IsAnswer id _ (ok_or-bad id _ _) (λ title. edit-IsAnswer id state v _ _ _ _ _))

  pub report_pr-IsAnswer : IsAnswer id state (handle_workspace_report_pr id params state)
  unfolding handle_workspace_report_pr
  report_pr-IsAnswer =
      bind-IsAnswer id _ (workspace_param-IsParam id params)
        (λ ws_id. edit-IsAnswer id state v _ _ _ _ _)

  pub set_imessage_mode-IsAnswer :
      IsAnswer id state (handle_workspace_set_imessage_mode id params state)
  unfolding handle_workspace_set_imessage_mode
  set_imessage_mode-IsAnswer = bind-IsAnswer id _ (workspace_param-IsParam id params) (λ ws_id.
      bind-IsAnswer id _ (ok_or-bad id _ _) (λ enabled. edit-IsAnswer id state v _ _ _ _ _))

  pub move_to_window-IsAnswer : IsAnswer id state (handle_workspace_move_to_window id params state)
  unfolding handle_workspace_move_to_window
  move_to_window-IsAnswer = bind-IsAnswer id _ (workspace_param-IsParam id params) (λ ws_id.
      bind-IsAnswer id _ (ok_or-bad id _ _) (λ window. edit-IsAnswer id state v _ _ _ _ _))

  pub report_pwd-IsAnswer : IsAnswer id state (handle_workspace_report_pwd id params state)
  unfolding handle_workspace_report_pwd
  report_pwd-IsAnswer = bind-IsAnswer id _ (ok_or-bad id _ _) (λ directory.
      bind-IsAnswer id _ (workspace_param-IsParam id params)
        (λ ws_id. edit-IsAnswer id state v _ _ _ _ _))

  pub report_ports-IsAnswer : IsAnswer id state (handle_workspace_report_ports id params state)
  unfolding handle_workspace_report_ports
  report_ports-IsAnswer =
      bind-IsAnswer id _ (ok_or-bad id _ _) (λ ports. edit-IsAnswer id state v _ _ _ _ _)

  pub clear_ports-IsAnswer : IsAnswer id state (handle_workspace_clear_ports id params state)
  unfolding handle_workspace_clear_ports
  clear_ports-IsAnswer = edit-IsAnswer id state v _ _ _ _ _

  pub report_pr_checks-IsAnswer :
      (to_uppercase : Str → Str)
      → IsAnswer id state (handle_workspace_report_pr_checks to_uppercase id params state)
  unfolding handle_workspace_report_pr_checks
  report_pr_checks-IsAnswer to_uppercase =
      bind-IsAnswer id _ (workspace_param-IsParam id params) (λ ws_id.
        bind-IsAnswer id _ (ok_or-bad id _ _) (λ checks. edit-IsAnswer id state v _ _ _ _ _))

  pub report_tty-IsAnswer : IsAnswer id state (handle_workspace_report_tty id params state)
  unfolding handle_workspace_report_tty
  report_tty-IsAnswer = bind-IsAnswer id _ (ok_or-bad id _ _) (λ tty.
      elim (Option-cases
        (find_target (by_panel_or (reported_panel params) current) state.tab_manager)) [
          | inl e ↦ rw e (missing _)
          | inr (w, e) ↦ rw e (
              done _ _ (
                edit_target-IsValid (by_panel_or (reported_panel params) current) _
                  state.tab_manager v))
        ])
