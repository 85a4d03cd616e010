-- ===== src/Notifications/Store.antt =====
-- cmux/src/notifications.rs: what every store that the program can reach has.
use cmux_gtk.Prelude.{
  ℕ, suc, zero, ◌/◌, ◌≤◌, ◌≡◌, refl, ap, Uuid, Str, leb, Bool, true, false, Option, List, [], ◌∷◌,
  ◌++◌, map, length, drop, retain, update_first, count, contains, is_some_eq, arith, Bool-cases,
  inl, inr, Option-cases, length-retain-le, length-update_first, count-append, not_contains→count,
  find,
}
use mathlib.Core.List.{reverse}
use cmux_gtk.Bounded.{push_bounded}
use cmux_gtk.Bounded.Logs.{push_bounded_lem}
use cmux_gtk.Notifications.{
  Notification, NotificationStore, new_store, notification, add_with_retain, mark_read, mark_unread,
  mark_workspace_read, mark_all_read, dismiss, mark_latest_unread_for_workspace, clear, set_read,
  stays,
}

module _ {F : Type 0} where
  abbrev pub ids : List (Notification F) → List Uuid
  ids [] = []
  ids (n ∷ ns) = n.id ∷ ids ns

  -- A call on a store. `add` is `add_with_retain` with a flag; its identifier is not in the store.
  pub data Step : NotificationStore F → NotificationStore F → Type 0 where
    adds :
        (s : NotificationStore F) (title body : Str) (workspace panel : Option Uuid) (keep : Bool)
        (id : Uuid) (now : F)
        → contains id (ids s.notifications) ≡ false
        → Step s (add_with_retain title body workspace panel keep id now s).0
    reads : (s : NotificationStore F) (id : Uuid) → Step s (mark_read id s)
    unreads : (s : NotificationStore F) (id : Uuid) → Step s (mark_unread id s)
    reads_workspace : (s : NotificationStore F) (id : Uuid) → Step s (mark_workspace_read id s)
    reads_all : (s : NotificationStore F) → Step s (mark_all_read s)
    dismisses : (s : NotificationStore F) (id : Uuid) (force : Bool) → Step s (dismiss id force s).0
    unreads_latest :
        (s : NotificationStore F) (id : Uuid) → Step s (mark_latest_unread_for_workspace id s).0
    clears : (s : NotificationStore F) → Step s (clear s)

  pub data Reachable : NotificationStore F → Type 0 where
    start : Reachable new_store
    next : (s t : NotificationStore F) → Reachable s → Step s t → Reachable t

  -- At most 500 notifications, with identifiers that differ.
  pub record IsStore (s : NotificationStore F) : Type 0 where
    pub within : length s.notifications ≤ 500
    pub distinct : (a : Uuid) → count a (ids s.notifications) ≤ 1

  ids-append : (xs ys : List (Notification F)) → ids (xs ++ ys) ≡ ids xs ++ ids ys
  ids-append [] ys = refl
  ids-append (x ∷ xs) ys = ap (λ l. x.id ∷ l) (ids-append xs ys)

  count-drop : (a n : ℕ) (xs : List (Notification F)) → count a (ids (drop n xs)) ≤ count a (ids xs)
  count-drop a zero xs = omega arith
  count-drop a (suc n) [] = omega arith
  count-drop a (suc n) (x ∷ xs) = ground (arith, count-drop a n xs)

  count-retain :
      (a : Uuid) (test : Notification F → Bool) (xs : List (Notification F))
      → count a (ids (retain test xs)) ≤ count a (ids xs)
  count-retain a test [] = omega arith
  count-retain a test (x ∷ xs) = ground (arith, count-retain a test xs)

  ids-update_first :
      (test : Notification F → Bool) (b : Bool) (xs : List (Notification F))
      → ids (update_first test (set_read b) xs) ≡ ids xs
  ids-update_first test b [] = refl
  ids-update_first test b (x ∷ xs) = ground (arith, ids-update_first test b xs)

  module _ (g : Notification F → Notification F)
      (keeps : (n : Notification F) → (g n).id ≡ n.id) where
    ids-map : (xs : List (Notification F)) → ids (map g xs) ≡ ids xs
    ids-map [] = refl
    ids-map (x ∷ xs) = rw (keeps x, ids-map xs) refl

    length-map : (xs : List (Notification F)) → length (map g xs) ≡ length xs
    length-map [] = refl
    length-map (x ∷ xs) = ap suc (length-map xs)

    map-IsStore :
        (s : NotificationStore F)
        → IsStore s
        → IsStore (record { notifications = map g s.notifications })
    map-IsStore s v = record {
      within = omega (arith, length-map s.notifications, v.within);
      distinct = λ a. rw (ids-map s.notifications) (v.distinct a);
    }

  pushed_distinct :
      (n : Notification F) (xs : List (Notification F))
      → contains n.id (ids xs) ≡ false
      → ((a : Uuid) → count a (ids xs) ≤ 1)
      → (a : Uuid) → count a (ids (push_bounded 500 n xs)) ≤ 1
  unfolding push_bounded
  pushed_distinct n xs h d a = elim (Bool-cases (leb 500 (length xs))) [
    | inl e ↦
        rw (e, ids-append (drop (length xs / 4) xs) (n ∷ []))
          (ground (
            arith,
            count-append a (ids (drop (length xs / 4) xs)) (n.id ∷ []),
            count-drop a (length xs / 4) xs,
            not_contains→count n.id (ids xs) h,
            d a,
          ))
    | inr e ↦
        rw (e, ids-append xs (n ∷ []))
          (ground
            (arith, count-append a (ids xs) (n.id ∷ []), not_contains→count n.id (ids xs) h, d a))
  ]

  adds-IsStore :
      (s : NotificationStore F) (title body : Str) (workspace panel : Option Uuid) (keep : Bool)
      (id : Uuid) (now : F)
      → contains id (ids s.notifications) ≡ false
      → IsStore s
      → IsStore (add_with_retain title body workspace panel keep id now s).0
  unfolding add_with_retain notification
  adds-IsStore s title body workspace panel keep id now h v =
      let n = notification title body workspace panel keep id now in
      record {
        within = (push_bounded_lem 500 n s.notifications (omega arith) v.within).0;
        distinct = pushed_distinct n s.notifications h v.distinct;
      }

  marks-IsStore :
      (s : NotificationStore F) (test : Notification F → Bool) (b : Bool)
      → IsStore s
      → IsStore (record { notifications = update_first test (set_read b) s.notifications })
  marks-IsStore s test b v = record {
    within = omega (arith, length-update_first test (set_read b) s.notifications, v.within);
    distinct = λ a. rw (ids-update_first test b s.notifications) (v.distinct a);
  }

  latest-IsStore :
      (s : NotificationStore F) (id : Uuid)
      → IsStore s
      → IsStore (mark_latest_unread_for_workspace id s).0
  unfolding mark_latest_unread_for_workspace mark_unread
  latest-IsStore s id v =
      elim (Option-cases
        (find (λ n. is_some_eq n.source_workspace_id id) (reverse s.notifications))) [
          | inl e ↦ rw (e, mark_latest_unread_for_workspace) v
          | inr (n, e) ↦ rw (e, mark_latest_unread_for_workspace) (marks-IsStore s _ false v)
        ]

  Step-IsStore : {s t : NotificationStore F} → Step s t → IsStore s → IsStore t
  unfolding mark_read mark_unread mark_workspace_read mark_all_read dismiss clear
  Step-IsStore (adds s title body workspace panel keep id now h) v =
      adds-IsStore s title body workspace panel keep id now h v
  Step-IsStore (reads s id) v = marks-IsStore s _ true v
  Step-IsStore (unreads s id) v = marks-IsStore s _ false v
  Step-IsStore (reads_workspace s id) v = map-IsStore _ (λ n. ground arith) s v
  Step-IsStore (reads_all s) v = map-IsStore _ (λ n. refl) s v
  Step-IsStore (dismisses s id force) v = record {
    within = omega (arith, length-retain-le (stays id force) s.notifications, v.within);
    distinct = λ a. omega (arith, count-retain a (stays id force) s.notifications, v.distinct a);
  }
  Step-IsStore (unreads_latest s id) v = latest-IsStore s id v
  Step-IsStore (clears s) v = record { within = omega arith; distinct = λ a. omega arith }

  -- Every store that calls reach from the empty one, each new identifier being unused, has at most
  -- 500 notifications, with identifiers that differ.
  pub Reachable-IsStore : {s : NotificationStore F} → Reachable s → IsStore s
  unfolding new_store
  Reachable-IsStore start = record { within = omega arith; distinct = λ a. omega arith }
  Reachable-IsStore (next s t r step) = Step-IsStore step (Reachable-IsStore r)
