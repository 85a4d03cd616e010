-- ===== src/Socket/Answer/Selects.antt =====
-- cmux/src/socket/v2/workspace.rs: the answers to the requests that select a workspace or close one.
use cmux_gtk.Prelude.{
  ℕ, Uuid, codes, ◌≡◌, refl, Bool, true, false, Option, none, some, F64, inl, inr,
}
use cmux_gtk.Workspace.{Workspace}
use cmux_gtk.Workspace.Notices.{mark_notifications_read}
use cmux_gtk.TabManager.{
  TabManager, IsValid, selected_id, select, select_by_id, remove, remove_by_id,
}
use cmux_gtk.TabManager.Selection.{
  select-IsValid, select_by_id-IsValid, select_next-IsValid, select_previous-IsValid,
  select_last-IsValid, remove-IsValid,
}
use cmux_gtk.TabManager.Runs.{remove_by_id-IsValid}
use cmux_gtk.TabManager.Refused.{
  select_refused, select_by_id_refused, remove_refused, remove_by_id_refused,
}
use cmux_gtk.TabManager.Panels.Bound.{select_latest_cases}
use cmux_gtk.TabManager.Panels.Moved.{update_workspace-IsValid}
use cmux_gtk.Socket.{Json, SharedState, notify_ui_refresh, send_ui_event}
use cmux_gtk.Socket.Select.{
  read_workspace, read_if, after_select, select_either, answer_select, handle_workspace_select,
  handle_workspace_next, handle_workspace_previous, handle_workspace_last, close_either,
  answer_close, handle_workspace_close, answer_latest, handle_workspace_latest_unread,
}
use cmux_gtk.Socket.Answer.{IsAnswer, refused, missing, missing-same, done, bind-IsAnswer}
use cmux_gtk.Socket.Params.Readings.{workspace_param-IsParam, parse_usize_param-IsParam}

module _ {F : Type 0} (tm : TabManager F) (state : SharedState F) (v : IsValid tm) where
  pub read_if-IsValid :
      (o : Option Uuid) → IsValid (read_if o (record state { tab_manager = tm })).tab_manager
  unfolding read_workspace
  read_if-IsValid none = v
  read_if-IsValid (some id) = update_workspace-IsValid id mark_notifications_read tm v

  after_select-IsValid : IsValid (after_select tm state).tab_manager
  unfolding after_select notify_ui_refresh send_ui_event
  after_select-IsValid = read_if-IsValid (selected_id tm)

module _ {V F : Type 0} ⦃j : Json V⦄ (id : V) (state : SharedState F)
    (v : IsValid state.tab_manager) where
  -- An operation that says whether it did something.
  abbrev Tried : TabManager F × Bool → Type 0
  Tried (tm, b) = IsValid tm × (b ≡ false → tm ≡ state.tab_manager)

  answer_select-IsAnswer :
      (r : TabManager F × Bool) → Tried r → IsAnswer id state (answer_select id state (some r))
  unfolding answer_select
  answer_select-IsAnswer (tm, true) (w, _) = done _ _ (after_select-IsValid tm state w)
  answer_select-IsAnswer (tm, false) (_, same) = missing-same id state tm _ (same refl)

  select_either-IsAnswer :
      (index : Option ℕ) (ws_id : Option Uuid)
      → IsAnswer id state (answer_select id state (select_either index ws_id state.tab_manager))
  unfolding select_either answer_select
  select_either-IsAnswer (some i) ws_id =
      answer_select-IsAnswer (select i state.tab_manager)
        (select-IsValid i state.tab_manager v, select_refused state.tab_manager i)
  select_either-IsAnswer none (some a) =
      answer_select-IsAnswer (select_by_id a state.tab_manager)
        (select_by_id-IsValid a state.tab_manager v, select_by_id_refused state.tab_manager a)
  select_either-IsAnswer none none = refused _

  pub select-IsAnswer : (params : V) → IsAnswer id state (handle_workspace_select id params state)
  unfolding handle_workspace_select
  select-IsAnswer params =
      bind-IsAnswer id _ (parse_usize_param-IsParam id params (codes "index")) (λ index.
        bind-IsAnswer id _ (workspace_param-IsParam id params)
          (λ ws_id. select_either-IsAnswer index ws_id))

  pub next-IsAnswer : (params : V) → IsAnswer id state (handle_workspace_next id params state)
  unfolding handle_workspace_next
  next-IsAnswer params =
      done _ _ (after_select-IsValid _ state (select_next-IsValid _ state.tab_manager v))

  pub previous-IsAnswer :
      (params : V) → IsAnswer id state (handle_workspace_previous id params state)
  unfolding handle_workspace_previous
  previous-IsAnswer params =
      done _ _ (after_select-IsValid _ state (select_previous-IsValid _ state.tab_manager v))

  pub last-IsAnswer : IsAnswer id state (handle_workspace_last id state)
  unfolding handle_workspace_last
  last-IsAnswer = done _ _ (after_select-IsValid _ state (select_last-IsValid state.tab_manager v))

  answer_close-IsAnswer :
      (r : TabManager F × Option (Workspace F))
      → IsValid r.0
      → (r.1 ≡ none → r.0 ≡ state.tab_manager)
      → IsAnswer id state (answer_close id state r)
  unfolding answer_close notify_ui_refresh send_ui_event
  answer_close-IsAnswer (tm, none) w same = missing-same id state tm _ (same refl)
  answer_close-IsAnswer (tm, some _) w same = done _ _ w

  close_current :
      (i : Option ℕ)
      → IsAnswer id state (
          answer_close id state (elim i [
            | none ↦ (state.tab_manager, none)
            | some index ↦ remove index state.tab_manager
          ]))
  close_current none = answer_close-IsAnswer (state.tab_manager, none) v (λ _. refl)
  close_current (some i) =
      answer_close-IsAnswer (remove i state.tab_manager) (remove-IsValid i state.tab_manager v)
        (remove_refused state.tab_manager i)

  close_either-IsAnswer :
      (index : Option ℕ) (ws_id : Option Uuid)
      → IsAnswer id state (answer_close id state (close_either index ws_id state.tab_manager))
  unfolding close_either
  close_either-IsAnswer (some i) ws_id =
      answer_close-IsAnswer (remove i state.tab_manager) (remove-IsValid i state.tab_manager v)
        (remove_refused state.tab_manager i)
  close_either-IsAnswer none (some a) =
      answer_close-IsAnswer (remove_by_id a state.tab_manager)
        (remove_by_id-IsValid a state.tab_manager v) (remove_by_id_refused state.tab_manager a)
  close_either-IsAnswer none none = close_current state.tab_manager.selected_index

  pub close-IsAnswer : (params : V) → IsAnswer id state (handle_workspace_close id params state)
  unfolding handle_workspace_close
  close-IsAnswer params =
      bind-IsAnswer id _ (parse_usize_param-IsParam id params (codes "index")) (λ index.
        bind-IsAnswer id _ (workspace_param-IsParam id params)
          (λ ws_id. close_either-IsAnswer index ws_id))

module _ {V F : Type 0} ⦃j : Json V⦄ ⦃f : F64 F⦄ (id : V) (state : SharedState F)
    (v : IsValid state.tab_manager) where
  pub latest_unread-IsAnswer : IsAnswer id state (handle_workspace_latest_unread id state)
  unfolding handle_workspace_latest_unread answer_latest read_workspace notify_ui_refresh
      send_ui_event
  latest_unread-IsAnswer = elim (select_latest_cases state.tab_manager) [
    | inl e ↦ rw e (missing _)
    | inr (r, ws, b, e) ↦ rw e (
        done _ _ (
          update_workspace-IsValid ws mark_notifications_read
            (record state.tab_manager { selected_index = some r }) b))
  ]
