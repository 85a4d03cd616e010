-- ===== src/Socket/Answer/Tabs.antt =====
-- cmux/src/socket/v2/tab.rs: the answers to `tab.action`, arm by arm.
use cmux_gtk.Prelude.{Uuid, Str, List, Option-cases, inl, inr}
use cmux_gtk.Layout.{find_pane_with_panel_readonly}
use cmux_gtk.Panel.{Panel}
use cmux_gtk.Workspace.{Workspace, update_panel}
use cmux_gtk.TabManager.{IsValid}
use cmux_gtk.Socket.{Json, SharedState, notify_ui_refresh, send_ui_event}
use cmux_gtk.Socket.Params.Readings.{resolve_panel_id-IsParam}
use cmux_gtk.Socket.Targets.{by_panel, find_target, edit_target}
use cmux_gtk.Socket.Tab.{
  TabAction, rename, clear_name, close_left, close_right, close_others, pin, unpin, mark_read,
  mark_unread, duplicate, tabs_left, tabs_right, other_tabs, tab_action_of, close_tabs,
  duplicate_tab, edit_tab, close_some, run_tab_action, unknown_tab_action, answer_tab_action,
  handle_tab_action,
}
use cmux_gtk.Socket.Answer.{IsAnswer, refused, missing, done, ok_or-bad, bind-IsAnswer}
use cmux_gtk.Socket.Answer.Edits.{edit_target-IsValid}
use cmux_gtk.Socket.Answer.Panes.{prune-IsValid}

module _ {V F : Type 0} ⦃j : Json V⦄ (id params : V) (new p : Uuid) (state : SharedState F)
    (v : IsValid state.tab_manager) where
  edit_tab-IsAnswer : (g : Panel F → Panel F) → IsAnswer id state (edit_tab id params new p g state)
  unfolding edit_tab notify_ui_refresh send_ui_event
  edit_tab-IsAnswer g = done _ _ (
      edit_target-IsValid (by_panel p) (λ w. record w { panels = update_panel p g w.panels })
        state.tab_manager v)

  close_some-IsAnswer :
      (choose : List Uuid → List Uuid) (w : Workspace F)
      → IsAnswer id state (close_some id params new p choose w state)
  unfolding close_some notify_ui_refresh send_ui_event
  close_some-IsAnswer choose w = elim (Option-cases (find_pane_with_panel_readonly p w.layout)) [
    | inl e ↦ rw (close_some, e) (missing _)
    | inr (ids, e) ↦
        rw (close_some, e)
          (done _ _ (
            prune-IsValid (close_tabs p (choose ids) w)
              (edit_target (by_panel p) (close_tabs p (choose ids)) state.tab_manager)
              (edit_target-IsValid (by_panel p) (close_tabs p (choose ids)) state.tab_manager v)))
  ]

  run_tab_action-IsAnswer :
      (a : TabAction) (w : Workspace F)
      → IsAnswer id state (run_tab_action id params new p a w state)
  unfolding run_tab_action notify_ui_refresh send_ui_event
  run_tab_action-IsAnswer rename w =
      bind-IsAnswer id _ (ok_or-bad id _ _) (λ title. edit_tab-IsAnswer _)
  run_tab_action-IsAnswer clear_name w = edit_tab-IsAnswer _
  run_tab_action-IsAnswer close_left w = close_some-IsAnswer (tabs_left p) w
  run_tab_action-IsAnswer close_right w = close_some-IsAnswer (tabs_right p) w
  run_tab_action-IsAnswer close_others w = close_some-IsAnswer (other_tabs p) w
  run_tab_action-IsAnswer pin w = edit_tab-IsAnswer _
  run_tab_action-IsAnswer unpin w = edit_tab-IsAnswer _
  run_tab_action-IsAnswer mark_read w = edit_tab-IsAnswer _
  run_tab_action-IsAnswer mark_unread w = edit_tab-IsAnswer _
  run_tab_action-IsAnswer duplicate w =
      done _ _ (edit_target-IsValid (by_panel p) (duplicate_tab p new) state.tab_manager v)

  answer_tab_action-IsAnswer :
      (action : Str) → IsAnswer id state (answer_tab_action id params new p action state)
  unfolding answer_tab_action unknown_tab_action
  answer_tab_action-IsAnswer action =
      elim (Option-cases (find_target (by_panel p) state.tab_manager)) [
        | inl e ↦ rw (answer_tab_action, e) (missing _)
        | inr (w, e) ↦ elim (Option-cases (tab_action_of action)) [
          | inl n ↦ rw (answer_tab_action, e, n) (refused _)
          | inr (a, n) ↦ rw (answer_tab_action, e, n) (run_tab_action-IsAnswer a w)
        ]
      ]

module _ {V F : Type 0} ⦃j : Json V⦄ (id params : V) (state : SharedState F)
    (v : IsValid state.tab_manager) where
  pub tab_action-IsAnswer : (new : Uuid) → IsAnswer id state (handle_tab_action new id params state)
  unfolding handle_tab_action
  tab_action-IsAnswer new = bind-IsAnswer id _ (resolve_panel_id-IsParam id params state) (λ p.
      bind-IsAnswer id _ (ok_or-bad id _ _)
        (λ action. answer_tab_action-IsAnswer id params new p state v action))
