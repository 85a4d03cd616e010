-- ===== src/Notifications/Examples.antt =====
-- cmux/src/notifications.rs: tests of the store.
use cmux_gtk.Prelude.{ℕ, ◌≡◌, ◌⊎◌, refl, codes, ◌==◌, true, false, none, some, find}
use cmux_gtk.Notifications.{
  NotificationStore, new_store, add_with_retain, dismiss, mark_workspace_read, mark_all_read,
  unread_count, unread_count_for_workspace, unread_for_workspace,
}
use cmux_gtk.Notifications.Store.{
  Reachable, start, next, adds, dismisses, IsStore, Reachable-IsStore,
}
use cmux_gtk.Notifications.Marks.{dismissable, dismiss_lem, mark_read_lem}

abbrev one : NotificationStore ℕ
one = (add_with_retain (codes "build") (codes "done") (some 7) none true 1 0 new_store).0

abbrev two : NotificationStore ℕ
two = (add_with_retain (codes "test") (codes "red") (some 8) none false 2 0 one).0

-- A retained notification goes only when the call is forced.
retained : ((dismiss 1 false two).1 ≡ false) × ((dismiss 1 true two).1 ≡ true)
unfolding dismiss add_with_retain new_store
retained = (refl, refl)

two-Reachable : Reachable two
unfolding add_with_retain new_store
two-Reachable =
    next one two
      (next new_store one start
        (adds new_store (codes "build") (codes "done") (some 7) none true 1 0 refl))
      (adds one (codes "test") (codes "red") (some 8) none false 2 0 refl)

Reachable-IsStore_example : IsStore (dismiss 1 true two).0
Reachable-IsStore_example =
    Reachable-IsStore (next two (dismiss 1 true two).0 two-Reachable (dismisses two 1 true))

dismiss_lem_example :
    ((dismiss 1 false two).1 ≡ dismissable 1 false two.notifications)
    × (((dismiss 1 false two).1 ≡ true) ⊎ ((dismiss 1 false two).0 ≡ two))
    × (find (λ n. n.id == 2) (dismiss 1 false two).0.notifications
        ≡ find (λ n. n.id == 2) two.notifications)
    × (find (λ n. n.id == 1) (dismiss 1 true two).0.notifications ≡ none)
dismiss_lem_example = dismiss_lem 1 2 false two refl

mark_read_lem_example :
    (unread_count_for_workspace 7 (mark_workspace_read 7 two) ≡ 0)
    × (unread_for_workspace 8 (mark_workspace_read 7 two) ≡ unread_for_workspace 8 two)
    × (unread_count (mark_all_read two) ≡ 0)
mark_read_lem_example = mark_read_lem 7 8 two refl
