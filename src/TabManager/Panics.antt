-- ===== src/TabManager/Panics.antt =====
-- cmux/src/model/tab_manager.rs: `remove`, `remove_by_id` and `move_workspace` with the panics that
-- `Vec::remove` and `Vec::insert` have out of range.
use cmux_gtk.Prelude.{
  Uuid, ℕ, leb, ◌==◌, ltb, ◌≡◌, refl, Bool, true, false, ◌&&◌, ◌||◌, Option, none, some, List,
  length, get_elem?, remove_at, position, if◌then◌else◌, arith, length-remove_at, zero, suc, [],
  ◌∷◌, Bool-cases, Option-cases, inl, inr,
}
use cmux_gtk.Workspace.{Workspace}
use cmux_gtk.TabManager.{
  TabManager, len, has_id, vec_insert, removed_index, moved_index, remove, remove_by_id,
  workspace_index, move_workspace,
}
use cmux_gtk.TabManager.Selection.{get_elem?_bound}

module _ {F : Type 0} where
  -- `Vec::remove` panics out of range: `none`.
  abbrev pub vec_remove : ℕ → List (Workspace F) → Option (Workspace F × List (Workspace F))
  vec_remove i xs = elim (get_elem? xs i) [ none ↦ none | some ws ↦ some (ws, remove_at i xs) ]

  pub remove_or_panic : ℕ → TabManager F → Option (TabManager F × Option (Workspace F))
  unfolding removed_index
  remove_or_panic index tm =
      if leb (len tm) index then some (tm, none) else elim (vec_remove index tm.workspaces) [
        | none ↦ none
        | some (ws, rest) ↦ some (
          record {
            workspaces = rest;
            selected_index = removed_index index (length rest) tm.selected_index;
          },
          some ws,
        )
      ]

  pub remove_by_id_or_panic : Uuid → TabManager F → Option (TabManager F × Option (Workspace F))
  unfolding workspace_index remove_or_panic
  remove_by_id_or_panic id tm = elim (workspace_index id tm) [
    | none ↦ some (tm, none)
    | some index ↦ remove_or_panic index tm
  ]

  pub move_or_panic : ℕ → ℕ → TabManager F → Option (TabManager F × Bool)
  unfolding moved_index vec_insert
  move_or_panic from to tm =
      if leb (len tm) from || (leb (len tm) to || from == to)
      then some (tm, from == to && ltb from (len tm))
      else elim (vec_remove from tm.workspaces) [
        | none ↦ none
        | some (ws, rest) ↦ elim (vec_insert to ws rest) [
          | none ↦ none
          | some list ↦ some (
            record {
              workspaces = list;
              selected_index = elim tm.selected_index [
                | none ↦ none
                | some s ↦ some (moved_index from to s)
              ];
            },
            true,
          )
        ]
      ]

  get_elem?_past :
      (xs : List (Workspace F)) (i : ℕ) → get_elem? xs i ≡ none → leb (length xs) i ≡ true
  get_elem?_past [] i h = ground arith
  get_elem?_past (x ∷ xs) zero h = absurd (ground arith)
  get_elem?_past (x ∷ xs) (suc i) h = ground (arith, get_elem?_past xs i h)

  -- A removal does not panic and does what `remove` says.
  pub remove_or_panic-remove :
      (index : ℕ) (tm : TabManager F) → remove_or_panic index tm ≡ some (remove index tm)
  unfolding remove_or_panic remove
  remove_or_panic-remove index tm = elim (Option-cases (get_elem? tm.workspaces index)) [
    | inl e ↦ rw (get_elem?_past tm.workspaces index e, remove, e) refl
    | inr (w, e) ↦
        let outside : leb (len tm) index ≡ false =
          ground (arith, get_elem?_bound tm.workspaces index w e) in
        rw (outside, remove, e) refl
  ]

  pub remove_by_id_or_panic-remove_by_id :
      (id : Uuid) (tm : TabManager F) → remove_by_id_or_panic id tm ≡ some (remove_by_id id tm)
  unfolding remove_by_id_or_panic remove_by_id workspace_index
  remove_by_id_or_panic-remove_by_id id tm =
      elim (Option-cases (position (has_id id) tm.workspaces)) [
        | inl e ↦ rw (e, remove_by_id_or_panic, remove_by_id) refl
        | inr (i, e) ↦ rw (e, remove_by_id_or_panic, remove_by_id) (remove_or_panic-remove i tm)
      ]

  -- A move does not panic and does what `move_workspace` says.
  pub move_or_panic-move_workspace :
      (from to : ℕ) (tm : TabManager F)
      → move_or_panic from to tm ≡ some (move_workspace from to tm)
  unfolding move_or_panic move_workspace vec_insert
  move_or_panic-move_workspace from to tm =
      elim (Bool-cases (leb (len tm) from || (leb (len tm) to || from == to))) [
        | inl e ↦ rw e refl
        | inr n ↦ elim (Option-cases (get_elem? tm.workspaces from)) [
          | inl e ↦ absurd (ground (arith, get_elem?_past tm.workspaces from e))
          | inr (w, e) ↦
              let inside : leb to (length (remove_at from tm.workspaces)) ≡ true = ground (
                arith,
                length-remove_at from tm.workspaces (get_elem?_bound tm.workspaces from w e),
              ) in
              rw (n, e, inside) refl
        ]
      ]
