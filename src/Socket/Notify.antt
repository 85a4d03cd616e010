-- ===== src/Socket/Notify.antt =====
-- cmux/src/socket/v2/notification.rs: the requests on notifications. The new identifier, the clock's
-- reading, whether a panel runs the agent codex, and the setting that moves a notified workspace up
-- are arguments; the sound is no part of the state.
use cmux_gtk.Prelude.{Uuid, ◌==◌, codes, find, Bool, true, false, Option, none, some, [], ◌∷◌}
use cmux_gtk.TabManager.{workspace_index, select}
use cmux_gtk.Notifications.{NotificationStore, mark_read, dismiss, clear}
use cmux_gtk.Socket.{
  Json, Response, Result, ok, ok_or, ◌>>=◌, Handler, SharedState, notify_ui_refresh, success,
  invalid_params, not_found,
}
use cmux_gtk.Socket.Params.{and_then, try, unwrap_or, get_str, get_bool, get_either, non_null, flag}

module _ {F : Type 0} where
  -- The workspace that a notification came from.
  pub source_of : Uuid → NotificationStore F → Option Uuid
  source_of notif_id store =
      and_then (find (λ n. n.id == notif_id) store.notifications) (λ n. n.source_workspace_id)

module _ {V : Type 0} ⦃j : Json V⦄ where
  -- Its errors have the identifier of the request, which the handlers put in.
  unfoldable pub parse_notification_id : V → V → Result V Uuid
  unfolding invalid_params
  parse_notification_id id params =
      try
        (ok_or (get_str params (codes "id")) (invalid_params id (codes "Missing notification id")))
        (λ s. ok_or (j.parse_uuid s) (invalid_params id (codes "Invalid notification UUID")))

  -- The panel that a notification is about, if one is given.
  unfoldable pub source_param : V → V → Result V (Option Uuid)
  unfolding invalid_params
  source_param id params =
      elim (and_then (get_either params (codes "surface") (codes "panel")) non_null) [
        | none ↦ ok none
        | some v ↦
            try (ok_or (j.as_str v) (invalid_params id (codes "surface/panel must be a string")))
              (λ s.
                try
                  (ok_or (j.parse_uuid s)
                    (invalid_params id (codes "Invalid surface/panel UUID format")))
                  (λ pid. ok (some pid)))
      ]

module _ {V F : Type 0} ⦃j : Json V⦄ where
  unfoldable pub handle_notification_clear : V → Handler V F
  unfolding notify_ui_refresh success
  handle_notification_clear id state = (
    notify_ui_refresh (record state { notifications = clear state.notifications }),
    success id (flag (codes "ok")),
  )

  unfoldable pub handle_notification_mark_read : V → V → Handler V F
  unfolding parse_notification_id notify_ui_refresh success
  handle_notification_mark_read id params = do
    notif_id ← parse_notification_id id params
    λ state. (
      notify_ui_refresh (record state { notifications = mark_read notif_id state.notifications }),
      success id (flag (codes "ok")),
    )

  unfoldable pub answer_dismiss :
      V → SharedState F → NotificationStore F × Bool → SharedState F × Response V
  unfolding notify_ui_refresh success not_found
  answer_dismiss id state (store, true) =
      (notify_ui_refresh (record state { notifications = store }), success id (flag (codes "ok")))
  answer_dismiss id state (store, false) = (
    record state { notifications = store },
    not_found id (codes "Notification not found or protected"),
  )

  unfoldable pub handle_notification_dismiss : V → V → Handler V F
  unfolding parse_notification_id answer_dismiss
  handle_notification_dismiss id params = do
    notif_id ← parse_notification_id id params
    λ state.
        answer_dismiss id state
          (dismiss notif_id (unwrap_or false (get_bool params (codes "force"))) state.notifications)

  unfoldable pub open_notification : V → Uuid → Handler V F
  unfolding source_of notify_ui_refresh success not_found
  open_notification id notif_id state =
      (ok_or (source_of notif_id state.notifications)
            (not_found id (codes "Notification not found or has no source workspace"))
          >>= λ workspace_id.
              ok_or (workspace_index workspace_id state.tab_manager)
                (not_found id (codes "Source workspace no longer exists"))
              >>= λ idx. λ s. (
                notify_ui_refresh (record s {
                  tab_manager = (select idx s.tab_manager).0;
                  notifications = mark_read notif_id s.notifications;
                }),
                success id (
                    j.object (
                      (codes "ok", j.boolean true)
                      ∷ (codes "workspace_id", j.string (j.to_string workspace_id))
                      ∷ [])),
              ))
        state

  unfoldable pub handle_notification_open : V → V → Handler V F
  unfolding parse_notification_id open_notification
  handle_notification_open id params = do
    notif_id ← parse_notification_id id params
    open_notification id notif_id
