-- ===== src/Socket/Answer/Notices.antt =====
-- cmux/src/socket/v2/notification.rs: the answers to the requests on notifications.
use cmux_gtk.Prelude.{
  Uuid, ℕ, Str, codes, ltb, position, not, ◌≡◌, refl, Bool, true, false, Option, none, some,
  if◌then◌else◌, Bool-cases, Option-cases, inl, inr,
}
use cmux_gtk.Workspace.Notices.{record_notification}
use cmux_gtk.TabManager.{TabManager, IsValid, selected_id, workspace, workspace_index}
use cmux_gtk.TabManager.Selection.{select-IsValid, move_workspace-IsValid}
use cmux_gtk.TabManager.Panels.{find_workspace_with_panel, update_workspace}
use cmux_gtk.TabManager.Panels.Moved.{update_workspace-IsValid}
use cmux_gtk.Notifications.{NotificationStore, dismiss}
use cmux_gtk.Notifications.Marks.{dismiss_refused}
use cmux_gtk.Socket.{Json, ok, ok_or, SharedState, notify_ui_refresh, send_ui_event, invalid_params}
use cmux_gtk.Socket.Params.{try, get_bool, and_then, get_either, non_null, unwrap_or}
use cmux_gtk.Socket.Params.Readings.{workspace_param-IsParam}
use cmux_gtk.Socket.Notify.{
  parse_notification_id, source_param, open_notification, answer_dismiss, handle_notification_clear,
  handle_notification_mark_read, handle_notification_dismiss, handle_notification_open,
}
use cmux_gtk.Socket.Create.{
  known_panel, nested_panel, move_up, notified, notify, notify_workspace,
  handle_notification_create,
}
use cmux_gtk.Socket.Answer.{
  IsAnswer, missing, done, IsParam, absent, read, ok_or-bad, ok_or-absent, try-IsParam,
  bind-IsAnswer,
}

module _ {V : Type 0} ⦃j : Json V⦄ (id params : V) where
  notification_id-IsParam : IsParam id (parse_notification_id id params)
  unfolding parse_notification_id
  notification_id-IsParam = try-IsParam id (ok_or-bad id _ _) (λ s. ok_or-bad id (j.parse_uuid s) _)

  source_param-IsParam : IsParam id (source_param id params)
  unfolding source_param
  source_param-IsParam =
      go (and_then (get_either params (codes "surface") (codes "panel")) non_null)
    where
      go :
          (o : Option V)
          → IsParam id (elim o [
            | none ↦ ok none
            | some v ↦
                try
                  (ok_or (j.as_str v) (invalid_params id (codes "surface/panel must be a string")))
                  (λ s.
                    try
                      (ok_or
                        (j.parse_uuid s)
                        (invalid_params id (codes "Invalid surface/panel UUID format")))
                      (λ pid. ok (some pid)))
          ])
      go none = read none
      go (some v) =
          try-IsParam id (ok_or-bad id (j.as_str v) _)
            (λ s. try-IsParam id (ok_or-bad id (j.parse_uuid s) _) (λ pid. read (some pid)))

module _ {F : Type 0} where
  move_up-IsValid : (target : Uuid) (tm : TabManager F) → IsValid tm → IsValid (move_up target tm)
  unfolding move_up
  move_up-IsValid target tm v = elim (Option-cases (workspace_index target tm)) [
    | inl e ↦ rw (move_up, e) v
    | inr (i, e) ↦
        let first : ℕ = unwrap_or 0 (position (λ w. not w.is_pinned) tm.workspaces) in
        elim (Bool-cases (ltb first i)) [
          | inl y ↦ rw (move_up, e, y) (move_workspace-IsValid i first tm v)
          | inr n ↦ rw (move_up, e, n) v
        ]
  ]

  reordered-IsValid :
      (b : Bool) (target : Uuid) (tm : TabManager F)
      → IsValid tm
      → IsValid (if b then move_up target tm else tm)
  reordered-IsValid true target tm v = move_up-IsValid target tm v
  reordered-IsValid false target tm v = v

module _ {V F : Type 0} ⦃j : Json V⦄ (id params : V) (state : SharedState F)
    (v : IsValid state.tab_manager) where
  pub clear-IsAnswer : IsAnswer id state (handle_notification_clear id state)
  unfolding handle_notification_clear notify_ui_refresh send_ui_event
  clear-IsAnswer = done _ _ v

  pub mark_read-IsAnswer : IsAnswer id state (handle_notification_mark_read id params state)
  unfolding handle_notification_mark_read notify_ui_refresh send_ui_event
  mark_read-IsAnswer = bind-IsAnswer id _ (notification_id-IsParam id params) (λ n. done _ _ v)

  answer_dismiss-IsAnswer :
      (r : NotificationStore F × Bool)
      → (r.1 ≡ false → r.0 ≡ state.notifications)
      → IsAnswer id state (answer_dismiss id state r)
  unfolding answer_dismiss notify_ui_refresh send_ui_event
  answer_dismiss-IsAnswer (store, true) same = done _ _ v
  answer_dismiss-IsAnswer (store, false) same =
      let e : store ≡ state.notifications = same refl in rw e (missing _)

  pub dismiss-IsAnswer : IsAnswer id state (handle_notification_dismiss id params state)
  unfolding handle_notification_dismiss
  dismiss-IsAnswer = bind-IsAnswer id _ (notification_id-IsParam id params) (λ n.
      answer_dismiss-IsAnswer (dismiss n _ state.notifications)
        (dismiss_refused n (unwrap_or false (get_bool params (codes "force"))) state.notifications))

  open_notification-IsAnswer : (n : Uuid) → IsAnswer id state (open_notification id n state)
  unfolding open_notification notify_ui_refresh send_ui_event
  open_notification-IsAnswer n = bind-IsAnswer id _ (ok_or-absent id _ _) (λ ws_id.
      bind-IsAnswer id _ (ok_or-absent id _ _)
        (λ i. done _ _ (select-IsValid i state.tab_manager v)))

  pub open-IsAnswer : IsAnswer id state (handle_notification_open id params state)
  unfolding handle_notification_open
  open-IsAnswer =
      bind-IsAnswer id _ (notification_id-IsParam id params) (λ n. open_notification-IsAnswer n)

  notified-IsParam :
      (ws_id p : Option Uuid) (tm : TabManager F) → IsParam id (notified id ws_id p tm)
  unfolding notified
  notified-IsParam (some w) p tm = elim (Option-cases (workspace w tm)) [
    | inl e ↦ rw (notified, e) (absent _)
    | inr (x, e) ↦ rw (notified, e) (read w)
  ]
  notified-IsParam none (some p) tm = elim (Option-cases (find_workspace_with_panel p tm)) [
    | inl e ↦ rw (notified, e) (absent _)
    | inr (x, e) ↦ rw (notified, e) (read x.id)
  ]
  notified-IsParam none none tm = ok_or-absent id (selected_id tm) _

  module _ (to_lowercase : Str → Str) (reorder : Bool) (new : Uuid) (now : F) where
    notify_workspace-IsAnswer :
        (title body : Str) (target : Uuid) (p : Option Uuid)
        → IsAnswer id state
            (notify_workspace to_lowercase reorder new now id title body target p state)
    unfolding notify_workspace notify notify_ui_refresh send_ui_event
    notify_workspace-IsAnswer title body target p =
        elim (Option-cases (workspace target state.tab_manager)) [
          | inl e ↦ rw (notify_workspace, e) (missing _)
          | inr (w, e) ↦ elim (Option-cases (nested_panel (known_panel p w) w)) [
            | inr (q, n) ↦ rw (notify_workspace, e, n) (done _ _ v)
            | inl n ↦
                rw (notify_workspace, e, n)
                  (done _ _ (
                    reordered-IsValid reorder target
                      (update_workspace target
                        (record_notification title body (known_panel p w) now) state.tab_manager)
                      (update_workspace-IsValid target
                        (record_notification title body (known_panel p w) now) state.tab_manager
                        v)))
          ]
        ]

    pub create-IsAnswer :
        IsAnswer id state (handle_notification_create to_lowercase reorder new now id params state)
    unfolding handle_notification_create
    create-IsAnswer = bind-IsAnswer id _ (workspace_param-IsParam id params) (λ ws_id.
        bind-IsAnswer id _ (source_param-IsParam id params) (λ p.
          bind-IsAnswer id _ (notified-IsParam ws_id p state.tab_manager)
            (λ target. notify_workspace-IsAnswer _ _ target p)))
