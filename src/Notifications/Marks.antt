-- ===== src/Notifications/Marks.antt =====
-- cmux/src/notifications.rs: read marks and dismissal.
use cmux_gtk.Prelude.{
  ◌<◌, ◌≡◌, ◌⊎◌, refl, ap, ◌∙◌, Uuid, ◌==◌, Bool, true, false, not, ◌&&◌, ◌||◌, Option, none, some,
  List, [], ◌∷◌, map, length, retain, find, is_some_eq, arith, Bool-cases, inl, inr,
  length-retain-le, if◌then◌else◌,
}
use cmux_gtk.Notifications.{
  Notification, NotificationStore, mark_workspace_read, mark_all_read, dismiss, unread_count,
  unread_count_for_workspace, unread_for_workspace, set_read, stays, is_unread_of,
}

other_workspace :
    (o : Option Uuid) (id other : Uuid)
    → (other == id) ≡ false
    → is_some_eq o id ≡ true
    → is_some_eq o other ≡ false
other_workspace none id other h k = refl
other_workspace (some a) id other h k = ground arith

module _ {F : Type 0} where
  -- Whether the store has a notification that the call may remove.
  abbrev pub dismissable : Uuid → Bool → List (Notification F) → Bool
  dismissable id force [] = false
  dismissable id force (n ∷ ns) =
      (n.id == id && (force || not n.retain_on_interrupt)) || dismissable id force ns

  retain-stays :
      (id : Uuid) (force : Bool) (ns : List (Notification F))
      → dismissable id force ns ≡ false
      → retain (stays id force) ns ≡ ns
  retain-stays id force [] h = refl
  retain-stays id force (n ∷ ns) h = ground (arith, retain-stays id force ns)

  length-stays :
      (id : Uuid) (force : Bool) (ns : List (Notification F))
      → dismissable id force ns ≡ true
      → length (retain (stays id force) ns) < length ns
  length-stays id force [] h = ground arith
  length-stays id force (n ∷ ns) h =
      ground (arith, length-stays id force ns, length-retain-le (stays id force) ns)

  find-stays :
      (id other : Uuid) (force : Bool) (ns : List (Notification F))
      → (other == id) ≡ false
      → find (λ n. n.id == other) (retain (stays id force) ns) ≡ find (λ n. n.id == other) ns
  find-stays id other force [] h = refl
  find-stays id other force (n ∷ ns) h = ground (arith, find-stays id other force ns)

  find-forced :
      (id : Uuid) (ns : List (Notification F))
      → find (λ n. n.id == id) (retain (stays id true) ns) ≡ none
  find-forced id [] = refl
  find-forced id (n ∷ ns) = ground (arith, find-forced id ns)

  dismiss-flag :
      (id : Uuid) (force : Bool) (s : NotificationStore F)
      → (dismiss id force s).1 ≡ dismissable id force s.notifications
  unfolding dismiss
  dismiss-flag id force s =
      ground (arith, retain-stays id force s.notifications, length-stays id force s.notifications)

  dismiss_same :
      (id : Uuid) (force : Bool) (s : NotificationStore F)
      → ((dismiss id force s).1 ≡ true) ⊎ ((dismiss id force s).0 ≡ s)
  unfolding dismiss
  dismiss_same id force s = elim (Bool-cases (dismissable id force s.notifications)) [
    | inl e ↦ inl (dismiss-flag id force s ∙ e)
    | inr e ↦ inr (λ i. record { notifications = retain-stays id force s.notifications e i })
  ]

  pub dismiss_refused :
      (id : Uuid) (force : Bool) (s : NotificationStore F)
      → (dismiss id force s).1 ≡ false
      → (dismiss id force s).0 ≡ s
  dismiss_refused id force s h = elim (dismiss_same id force s) [
    | inl e ↦ absurd (ground (arith, e, h))
    | inr e ↦ e
  ]

  -- Dismissing: the flag says whether there is a notification with the identifier that is not
  -- retained, or that is and the call is forced; without one nothing changes; a notification with
  -- another identifier stays; and a forced call leaves none with the identifier.
  pub dismiss_lem :
      (id other : Uuid) (force : Bool) (s : NotificationStore F)
      → (other == id) ≡ false
      → ((dismiss id force s).1 ≡ dismissable id force s.notifications)
        × (((dismiss id force s).1 ≡ true) ⊎ ((dismiss id force s).0 ≡ s))
        × (find (λ n. n.id == other) (dismiss id force s).0.notifications
            ≡ find (λ n. n.id == other) s.notifications)
        × (find (λ n. n.id == id) (dismiss id true s).0.notifications ≡ none)
  unfolding dismiss
  dismiss_lem id other force s h = (
    dismiss-flag id force s,
    dismiss_same id force s,
    find-stays id other force s.notifications h,
    find-forced id s.notifications,
  )

  unread_marked :
      (id : Uuid) (ns : List (Notification F))
      → retain
          (is_unread_of id)
          (map (λ n. if is_some_eq n.source_workspace_id id then set_read true n else n) ns)
        ≡ []
  unread_marked id [] = refl
  unread_marked id (n ∷ ns) = ground (arith, unread_marked id ns)

  unread_elsewhere :
      (id other : Uuid) (ns : List (Notification F))
      → (other == id) ≡ false
      → retain
          (is_unread_of other)
          (map (λ n. if is_some_eq n.source_workspace_id id then set_read true n else n) ns)
        ≡ retain (is_unread_of other) ns
  unread_elsewhere id other [] h = refl
  unread_elsewhere id other (n ∷ ns) h = elim (Bool-cases (is_some_eq n.source_workspace_id id)) [
    | inr e ↦ rw e (ground (arith, unread_elsewhere id other ns h))
    | inl e ↦
        let apart = other_workspace n.source_workspace_id id other h e in
        rw e (ground (arith, unread_elsewhere id other ns h, apart))
  ]

  none_unread :
      (ns : List (Notification F)) → retain (λ n. not n.is_read) (map (set_read true) ns) ≡ []
  none_unread [] = refl
  none_unread (n ∷ ns) = none_unread ns

  -- After its notifications are marked as read a workspace has none unread, and what is unread for
  -- another workspace is the same; after all are marked none is unread.
  pub mark_read_lem :
      (id other : Uuid) (s : NotificationStore F)
      → (other == id) ≡ false
      → (unread_count_for_workspace id (mark_workspace_read id s) ≡ 0)
        × (unread_for_workspace other (mark_workspace_read id s) ≡ unread_for_workspace other s)
        × (unread_count (mark_all_read s) ≡ 0)
  unfolding mark_workspace_read mark_all_read unread_count_for_workspace unread_for_workspace
      unread_count
  mark_read_lem id other s h = (
    ap length (unread_marked id s.notifications),
    unread_elsewhere id other s.notifications h,
    ap length (none_unread s.notifications),
  )
