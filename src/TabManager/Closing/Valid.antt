-- ===== src/TabManager/Closing/Valid.antt =====
-- cmux/src/model/tab_manager.rs: closing workspaces does not panic and keeps the selection in bounds.
use cmux_gtk.Prelude.{
  Uuid, ℕ, ◌+◌, ◌-◌, ◌<◌, leb, ◌≡◌, refl, Option, none, some, List, [], ◌∷◌, length, take, drop,
  position, is_empty_list, if◌then◌else◌, arith, length-append, length-take, inl, inr, Option-cases,
  position-get_elem?, position-append, position-drop,
}
use cmux_gtk.Workspace.{Workspace}
use cmux_gtk.TabManager.{TabManager, IsValid, Points, has_id, workspace_index}
use cmux_gtk.TabManager.Closing.{close_others, close_above, close_below, after_loop_lem}
use cmux_gtk.TabManager.Closing.Survivors.{
  survivors, remove_each_all, remove_each_front, remove_each_back,
}
use cmux_gtk.TabManager.Closing.Result.{is_unpinned, is_other}

Points-clamped :
    (m n : ℕ) (s : Option ℕ)
    → 0 < m
    → 0 < n
    → Points m s
    → Points n (elim s [ none ↦ none | some sel ↦ if leb n sel then some (n - 1) else some sel ])
Points-clamped m n none a b h = absurd (omega arith)
Points-clamped m n (some sel) a b h = ground arith

module _ {F : Type 0} where
  -- The selection of `close_others`, over any list that is left.
  Points-kept :
      (id : Uuid) (xs : List (Workspace F))
      → Points (length xs) (elim (position (has_id id) xs) [
        | some i ↦ some i
        | none ↦ if is_empty_list xs then none else some 0
      ])
  Points-kept id xs = elim (Option-cases (position (has_id id) xs)) [
    | inr (i, e) ↦ rw e ((position-get_elem? (has_id id) xs i e).3)
    | inl e ↦ rw e (front xs)
  ]
    where
      front :
          (ys : List (Workspace F)) → Points (length ys) (if is_empty_list ys then none else some 0)
      front [] = refl
      front (y ∷ ys) = omega arith

  Points-found :
      (id : Uuid) (xs : List (Workspace F)) (s : Option ℕ) (j : ℕ)
      → position (has_id id) xs ≡ some j
      → Points (length xs) (elim (position (has_id id) xs) [ some i ↦ some i | none ↦ s ])
  Points-found id xs s j e = rw e ((position-get_elem? (has_id id) xs j e).3)

  -- A closing that does not panic, and that keeps the selection in bounds.
  abbrev pub Closes : (TabManager F → Option (TabManager F × ℕ)) → Type 0
  Closes close =
      (tm : TabManager F)
      → (r : TabManager F × ℕ) × (close tm ≡ some r) × (IsValid tm → IsValid r.0)

  pub close_others-Closes : (id : Uuid) → Closes (close_others id)
  unfolding close_others
  close_others-Closes id tm =
      (_, after_loop_lem _ (remove_each_all (is_other id) tm.workspaces), λ _. Points-kept id _)

  pub close_above-Closes : (id : Uuid) → Closes (close_above id)
  unfolding close_above workspace_index
  close_above-Closes id tm = elim (Option-cases (position (has_id id) tm.workspaces)) [
    | inl e ↦ ((tm, 0), rw (e, close_above) refl, λ v. v)
    | inr (i, e) ↦
        let (j, there) =
          position-append (has_id id) (survivors is_unpinned (take i tm.workspaces))
            (drop i tm.workspaces) 0 (position-drop (has_id id) tm.workspaces i e) in
        rw (e, close_above)
          (
            _,
            after_loop_lem _ (remove_each_front is_unpinned i tm.workspaces),
            λ _. Points-found id _ tm.selected_index j there,
          )
  ]

  pub close_below-Closes : (id : Uuid) → Closes (close_below id)
  unfolding close_below workspace_index
  close_below-Closes id tm = elim (Option-cases (position (has_id id) tm.workspaces)) [
    | inl e ↦ ((tm, 0), rw (e, close_below) refl, λ v. v)
    | inr (i, e) ↦
        let bound = (position-get_elem? (has_id id) tm.workspaces i e).3 in
        let kept = survivors is_unpinned (drop (i + 1) tm.workspaces) in
        rw (e, close_below)
          (
            _,
            after_loop_lem _ (remove_each_back is_unpinned (i + 1) tm.workspaces (omega arith)),
            λ v.
                Points-clamped (length tm.workspaces) _ tm.selected_index (omega arith)
                  (omega (
                    arith,
                    length-append (take (i + 1) tm.workspaces) kept,
                    length-take (i + 1) tm.workspaces,
                  ))
                  v,
          )
  ]
