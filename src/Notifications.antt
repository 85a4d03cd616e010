-- ===== src/Notifications.antt =====
-- cmux/src/notifications.rs: the store of notifications, oldest first. The new identifier and the
-- clock's reading are arguments; the desktop notification that `add` can send is no part of the
-- store.
pub mod Store
pub mod Marks
pub mod Examples
use cmux_gtk.Prelude.{
  ℕ, suc, ◌+◌, Uuid, Str, ◌==◌, Bool, true, false, not, ◌&&◌, Option, none, some, List, [], ◌∷◌,
  map, length, find, retain, update_first, is_some_eq, ltb, if◌then◌else◌,
}
use mathlib.Core.List.{reverse}
use cmux_gtk.Bounded.{push_bounded}
use cmux_gtk.Truncate.{truncate_str}

pub record Notification (F : Type 0) : Type 0 where
  pub id : Uuid
  pub title : Str
  pub body : Str
  pub source_workspace_id : Option Uuid
  pub source_panel_id : Option Uuid
  pub timestamp : F
  pub is_read : Bool
  pub retain_on_interrupt : Bool

abbrev pub max_notifications : ℕ
max_notifications = 500

pub record NotificationStore (F : Type 0) : Type 0 where
  pub notifications : List (Notification F)

module _ {F : Type 0} where
  pub new_store : NotificationStore F
  new_store = record { notifications = [] }

  -- The notification that `add_with_retain` makes, its texts cut to their bounds.
  pub notification : Str → Str → Option Uuid → Option Uuid → Bool → Uuid → F → Notification F
  unfolding truncate_str
  notification title body workspace_id panel_id retain_on_interrupt id now = record {
    id = id;
    title = truncate_str title 1024;
    body = truncate_str body 8192;
    source_workspace_id = workspace_id;
    source_panel_id = panel_id;
    timestamp = now;
    is_read = false;
    retain_on_interrupt = retain_on_interrupt;
  }

  pub add_with_retain :
      Str
      → Str
      → Option Uuid
      → Option Uuid
      → Bool
      → Uuid
      → F
      → NotificationStore F
      → NotificationStore F × Uuid
  unfolding notification push_bounded
  add_with_retain title body workspace_id panel_id retain_on_interrupt id now store =
      let n = notification title body workspace_id panel_id retain_on_interrupt id now in
      (record { notifications = push_bounded max_notifications n store.notifications }, n.id)

  pub add :
      Str
      → Str
      → Option Uuid
      → Option Uuid
      → Uuid
      → F
      → NotificationStore F
      → NotificationStore F × Uuid
  unfolding add_with_retain
  add title body workspace_id panel_id id now store =
      add_with_retain title body workspace_id panel_id false id now store

  pub unread_count : NotificationStore F → ℕ
  unread_count store = length (retain (λ n. not n.is_read) store.notifications)

  abbrev is_unread_of : Uuid → Notification F → Bool
  is_unread_of workspace_id n = not n.is_read && is_some_eq n.source_workspace_id workspace_id

  pub unread_for_workspace : Uuid → NotificationStore F → List (Notification F)
  unread_for_workspace workspace_id store = retain (is_unread_of workspace_id) store.notifications

  pub unread_count_for_workspace : Uuid → NotificationStore F → ℕ
  unread_count_for_workspace workspace_id store =
      length (retain (is_unread_of workspace_id) store.notifications)

  abbrev set_read : Bool → Notification F → Notification F
  set_read b n = record n { is_read = b }

  pub mark_read : Uuid → NotificationStore F → NotificationStore F
  mark_read id store = record {
    notifications = update_first (λ n. n.id == id) (set_read true) store.notifications;
  }

  pub mark_unread : Uuid → NotificationStore F → NotificationStore F
  mark_unread id store = record {
    notifications = update_first (λ n. n.id == id) (set_read false) store.notifications;
  }

  pub mark_workspace_read : Uuid → NotificationStore F → NotificationStore F
  mark_workspace_read workspace_id store = record {
    notifications =
        map (λ n. if is_some_eq n.source_workspace_id workspace_id then set_read true n else n)
          store.notifications;
  }

  pub mark_all_read : NotificationStore F → NotificationStore F
  mark_all_read store = record { notifications = map (set_read true) store.notifications }

  -- The closure of `dismiss`: what is kept.
  abbrev stays : Uuid → Bool → Notification F → Bool
  stays id force n = if not (n.id == id) then true else n.retain_on_interrupt && not force

  pub dismiss : Uuid → Bool → NotificationStore F → NotificationStore F × Bool
  dismiss id force store =
      let kept = retain (stays id force) store.notifications in
      (record { notifications = kept }, ltb (length kept) (length store.notifications))

  pub mark_latest_unread_for_workspace :
      Uuid → NotificationStore F → NotificationStore F × Option Uuid
  unfolding mark_unread
  mark_latest_unread_for_workspace workspace_id store =
      elim (find (λ n. is_some_eq n.source_workspace_id workspace_id)
        (reverse store.notifications)) [
          | none ↦ (store, none)
          | some n ↦ (mark_unread n.id store, some n.id)
        ]

  pub clear : NotificationStore F → NotificationStore F
  clear store = record { notifications = [] }
