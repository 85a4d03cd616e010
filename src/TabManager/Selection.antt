-- ===== src/TabManager/Selection.antt =====
-- cmux/src/model/tab_manager.rs: a workspace is selected whenever there is one, and the index is in
-- bounds. Every operation keeps this, so none of them can index or insert out of range.
use cmux_gtk.Prelude.{
  Uuid, ℕ, zero, suc, ◌+◌, ◌<◌, leb, ◌==◌, ◌≡◌, Bool, false, ◌||◌, Option, none, some, List, [],
  ◌∷◌, length, get_elem?, remove_at, insert_at, position, is_empty_list, arith, length-append,
  length-remove_at, length-insert_at, Bool-cases, inl, inr, Option-cases, position-get_elem?,
}
use cmux_gtk.Workspace.{Workspace}
use cmux_gtk.TabManager.{
  TabManager, len, IsValid, Points, has_id, select, select_by_id, select_next, select_previous,
  select_last, next_index, previous_index, add_workspace, add_workspace_after_current, remove,
  removed_index, move_workspace, moved_index,
}

Points-next :
    (wrap : Bool) (n : ℕ) (s : Option ℕ) → 0 < n → Points n s → Points n (next_index wrap n s)
unfolding next_index
Points-next wrap n none h v = h
Points-next wrap n (some i) h v = ground arith

Points-previous :
    (wrap : Bool) (n : ℕ) (s : Option ℕ) → 0 < n → Points n s → Points n (previous_index wrap n s)
unfolding previous_index
Points-previous wrap n none h v = omega arith
Points-previous wrap n (some i) h v = ground arith

Points-removed :
    (index n : ℕ) (s : Option ℕ)
    → index < suc n
    → Points (suc n) s
    → Points n (removed_index index n s)
unfolding removed_index
Points-removed index n none h v = absurd (omega arith)
Points-removed index n (some i) h v = ground arith

pub moved_index-lt : (from to n s : ℕ) → from < n → to < n → s < n → moved_index from to s < n
unfolding moved_index
moved_index-lt from to n s a b c = ground arith

Points-moved :
    (from to n : ℕ) (s : Option ℕ)
    → from < n
    → to < n
    → Points n s
    → Points n (elim s [ none ↦ none | some i ↦ some (moved_index from to i) ])
Points-moved from to n none a b v = v
Points-moved from to n (some i) a b v = moved_index-lt from to n i a b v

module _ {F : Type 0} where
  pub get_elem?_bound :
      (xs : List (Workspace F)) (i : ℕ) (w : Workspace F) → get_elem? xs i ≡ some w → i < length xs
  get_elem?_bound [] i w h = absurd (ground arith)
  get_elem?_bound (x ∷ xs) zero w h = omega arith
  get_elem?_bound (x ∷ xs) (suc i) w h = omega (arith, get_elem?_bound xs i w h)

  not_empty : (xs : List (Workspace F)) → is_empty_list xs ≡ false → 0 < length xs
  not_empty [] h = absurd (ground arith)
  not_empty (x ∷ xs) h = omega arith

  pub select-IsValid : (i : ℕ) (tm : TabManager F) → IsValid tm → IsValid (select i tm).0
  unfolding select
  select-IsValid i tm v = ground arith

  pub select_by_id-IsValid :
      (id : Uuid) (tm : TabManager F) → IsValid tm → IsValid (select_by_id id tm).0
  unfolding select_by_id
  select_by_id-IsValid id tm v = elim (Option-cases (position (has_id id) tm.workspaces)) [
    | inl e ↦ rw (e, select_by_id) v
    | inr (i, e) ↦ rw (e, select_by_id) ((position-get_elem? (has_id id) tm.workspaces i e).3)
  ]

  pub select_next-IsValid :
      (wrap : Bool) (tm : TabManager F) → IsValid tm → IsValid (select_next wrap tm)
  unfolding select_next
  select_next-IsValid wrap tm v = elim (Bool-cases (is_empty_list tm.workspaces)) [
    | inl e ↦ rw e v
    | inr n ↦ rw n (Points-next wrap _ tm.selected_index (not_empty tm.workspaces n) v)
  ]

  pub select_previous-IsValid :
      (wrap : Bool) (tm : TabManager F) → IsValid tm → IsValid (select_previous wrap tm)
  unfolding select_previous
  select_previous-IsValid wrap tm v = elim (Bool-cases (is_empty_list tm.workspaces)) [
    | inl e ↦ rw e v
    | inr n ↦ rw n (Points-previous wrap _ tm.selected_index (not_empty tm.workspaces n) v)
  ]

  pub select_last-IsValid : (tm : TabManager F) → IsValid tm → IsValid (select_last tm)
  unfolding select_last
  select_last-IsValid tm v = ground (arith, not_empty tm.workspaces)

  pub add_workspace-IsValid : (w : Workspace F) (tm : TabManager F) → IsValid (add_workspace w tm).0
  unfolding add_workspace
  add_workspace-IsValid w tm = omega (arith, length-append tm.workspaces (w ∷ []))

  pub remove-IsValid : (i : ℕ) (tm : TabManager F) → IsValid tm → IsValid (remove i tm).0
  unfolding remove
  remove-IsValid i tm v = elim (Option-cases (get_elem? tm.workspaces i)) [
    | inl e ↦ rw (e, remove) v
    | inr (w, e) ↦
        let bound = get_elem?_bound tm.workspaces i w e in
        let n = length-remove_at i tm.workspaces bound in
        rw (e, remove)
          (Points-removed i (length (remove_at i tm.workspaces)) tm.selected_index (omega arith)
            (rw n v))
  ]

  pub move_workspace-IsValid :
      (from to : ℕ) (tm : TabManager F) → IsValid tm → IsValid (move_workspace from to tm).0
  unfolding move_workspace
  move_workspace-IsValid from to tm v =
      elim (Bool-cases (leb (len tm) from || (leb (len tm) to || from == to))) [
        | inl e ↦ rw e v
        | inr n ↦ elim (Option-cases (get_elem? tm.workspaces from)) [
          | inl e ↦ rw (n, e) v
          | inr (w, e) ↦
              let a = get_elem?_bound tm.workspaces from w e in
              let b : to < length tm.workspaces = ground arith in
              rw (n, e)
                (rw
                  (
                    length-insert_at to w (remove_at from tm.workspaces),
                    length-remove_at from tm.workspaces a,
                  )
                  (Points-moved from to (length tm.workspaces) tm.selected_index a b v))
        ]
      ]

  -- The insertion is in range, so it does not panic.
  pub after_current_total :
      (w : Workspace F) (tm : TabManager F)
      → IsValid tm
      → (r : TabManager F × Uuid) × (add_workspace_after_current w tm ≡ some r) × IsValid r.0
  unfolding add_workspace_after_current
  after_current_total w tm v = go tm.workspaces tm.selected_index v
    where
      go :
          (xs : List (Workspace F)) (s : Option ℕ)
          → Points (length xs) s
          → (r : TabManager F × Uuid) × (add_workspace_after_current w
                (record { workspaces = xs; selected_index = s })
              ≡ some r)
            × IsValid r.0
      go xs none h = (
        (record { workspaces = w ∷ xs; selected_index = some 0 }, w.id),
        ground arith,
        omega arith,
      )
      go xs (some i) h = (
        (record { workspaces = insert_at (i + 1) w xs; selected_index = some (i + 1) }, w.id),
        ground arith,
        omega (arith, length-insert_at (i + 1) w xs),
      )
