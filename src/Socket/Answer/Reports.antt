-- ===== src/Socket/Answer/Reports.antt =====
-- cmux/src/socket/v2/workspace.rs: the answers to the requests that report on a workspace.
use cmux_gtk.Prelude.{F64}
use cmux_gtk.TabManager.{IsValid}
use cmux_gtk.Socket.{Json, JsonFloat, SharedState}
use cmux_gtk.Socket.Report.{
  edit_named, handle_workspace_clear_status, handle_workspace_report_git,
  handle_workspace_clear_progress, handle_workspace_append_log, handle_workspace_clear_log,
  handle_workspace_set_progress, handle_workspace_set_status,
}
use cmux_gtk.Socket.Metadata.{
  handle_workspace_clear_meta, handle_workspace_clear_meta_block, handle_workspace_report_meta,
  handle_workspace_report_meta_block,
}
use cmux_gtk.Socket.Answer.{IsAnswer, ok_or-bad, bind-IsAnswer}
use cmux_gtk.Socket.Params.Readings.{workspace_param-IsParam}
use cmux_gtk.Socket.Answer.Edits.{edit-IsAnswer}

module _ {V F : Type 0} ⦃j : Json V⦄ (id params : V) (state : SharedState F)
    (v : IsValid state.tab_manager) where
  pub clear_status-IsAnswer : IsAnswer id state (handle_workspace_clear_status id params state)
  unfolding handle_workspace_clear_status edit_named
  clear_status-IsAnswer =
      bind-IsAnswer id _ (workspace_param-IsParam id params)
        (λ ws_id. edit-IsAnswer id state v _ _ _ _ _)

  pub report_git-IsAnswer : IsAnswer id state (handle_workspace_report_git id params state)
  unfolding handle_workspace_report_git edit_named
  report_git-IsAnswer = bind-IsAnswer id _ (workspace_param-IsParam id params) (λ ws_id.
      bind-IsAnswer id _ (ok_or-bad id _ _) (λ branch. edit-IsAnswer id state v _ _ _ _ _))

  pub clear_progress-IsAnswer : IsAnswer id state (handle_workspace_clear_progress id params state)
  unfolding handle_workspace_clear_progress edit_named
  clear_progress-IsAnswer =
      bind-IsAnswer id _ (workspace_param-IsParam id params)
        (λ ws_id. edit-IsAnswer id state v _ _ _ _ _)

  pub clear_log-IsAnswer : IsAnswer id state (handle_workspace_clear_log id params state)
  unfolding handle_workspace_clear_log edit_named
  clear_log-IsAnswer =
      bind-IsAnswer id _ (workspace_param-IsParam id params)
        (λ ws_id. edit-IsAnswer id state v _ _ _ _ _)

  pub append_log-IsAnswer :
      (now : F) → IsAnswer id state (handle_workspace_append_log now id params state)
  unfolding handle_workspace_append_log edit_named
  append_log-IsAnswer now = bind-IsAnswer id _ (workspace_param-IsParam id params) (λ ws_id.
      bind-IsAnswer id _ (ok_or-bad id _ _) (λ message. edit-IsAnswer id state v _ _ _ _ _))

  pub clear_meta-IsAnswer : IsAnswer id state (handle_workspace_clear_meta id params state)
  unfolding handle_workspace_clear_meta edit_named
  clear_meta-IsAnswer =
      bind-IsAnswer id _ (workspace_param-IsParam id params)
        (λ ws_id. edit-IsAnswer id state v _ _ _ _ _)

  pub clear_meta_block-IsAnswer :
      IsAnswer id state (handle_workspace_clear_meta_block id params state)
  unfolding handle_workspace_clear_meta_block edit_named
  clear_meta_block-IsAnswer =
      bind-IsAnswer id _ (workspace_param-IsParam id params)
        (λ ws_id. edit-IsAnswer id state v _ _ _ _ _)

module _ {V F : Type 0} ⦃j : Json V⦄ ⦃n : JsonFloat V F⦄ (id params : V) (state : SharedState F)
    (v : IsValid state.tab_manager) where
  pub set_progress-IsAnswer : IsAnswer id state (handle_workspace_set_progress id params state)
  unfolding handle_workspace_set_progress edit_named
  set_progress-IsAnswer =
      bind-IsAnswer id _ (workspace_param-IsParam id params)
        (λ ws_id. edit-IsAnswer id state v _ _ _ _ _)

module _ {V F : Type 0} ⦃j : Json V⦄ ⦃f : F64 F⦄ (id params : V) (state : SharedState F)
    (v : IsValid state.tab_manager) where
  pub set_status-IsAnswer :
      (now : F) → IsAnswer id state (handle_workspace_set_status now id params state)
  unfolding handle_workspace_set_status edit_named
  set_status-IsAnswer now = bind-IsAnswer id _ (workspace_param-IsParam id params) (λ ws_id.
      bind-IsAnswer id _ (ok_or-bad id _ _) (λ key.
        bind-IsAnswer id _ (ok_or-bad id _ _) (λ value. edit-IsAnswer id state v _ _ _ _ _)))

  pub report_meta-IsAnswer :
      (now : F) → IsAnswer id state (handle_workspace_report_meta now id params state)
  unfolding handle_workspace_report_meta edit_named
  report_meta-IsAnswer now = bind-IsAnswer id _ (workspace_param-IsParam id params) (λ ws_id.
      bind-IsAnswer id _ (ok_or-bad id _ _) (λ key.
        bind-IsAnswer id _ (ok_or-bad id _ _) (λ value. edit-IsAnswer id state v _ _ _ _ _)))

  pub report_meta_block-IsAnswer :
      (now : F) → IsAnswer id state (handle_workspace_report_meta_block now id params state)
  unfolding handle_workspace_report_meta_block edit_named
  report_meta_block-IsAnswer now = bind-IsAnswer id _ (workspace_param-IsParam id params) (λ ws_id.
      bind-IsAnswer id _ (ok_or-bad id _ _) (λ key.
        bind-IsAnswer id _ (ok_or-bad id _ _) (λ value. edit-IsAnswer id state v _ _ _ _ _)))
