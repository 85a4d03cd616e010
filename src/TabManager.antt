-- ===== src/TabManager.antt =====
-- cmux/src/model/tab_manager.rs: the list of workspaces and the selected one. A method on
-- `&mut self` returns the new manager beside its result.
pub mod Closing
pub mod Panels
pub mod Selection
pub mod Panics
pub mod Runs
pub mod Follow
pub mod Ids
pub mod Tabs
pub mod Refused
pub mod Examples
use cmux_gtk.Prelude.{
  Uuid, ℕ, ◌<◌, ◌≡◌, ◌+◌, ◌-◌, ltb, leb, ◌==◌, Bool, true, false, ◌&&◌, ◌||◌, Option, none, some,
  List, [], ◌∷◌, ◌++◌, length, get_elem?, remove_at, insert_at, position, find, is_empty_list,
  if◌then◌else◌,
}
use cmux_gtk.Workspace.{Workspace}

pub data NewWorkspacePlacement : Type 0 where
  end after_current top : NewWorkspacePlacement

pub record TabManager (F : Type 0) : Type 0 where
  pub workspaces : List (Workspace F)
  pub selected_index : Option ℕ

-- The selection in a list of `n` workspaces.
abbrev pub Points : ℕ → Option ℕ → Type 0
Points n none = n ≡ 0
Points n (some i) = i < n

next_index : Bool → ℕ → Option ℕ → Option ℕ
next_index wrap n none = some 0
next_index wrap n (some i) = if ltb (i + 1) n then some (i + 1) else if wrap then some 0 else some i

previous_index : Bool → ℕ → Option ℕ → Option ℕ
previous_index wrap n none = some (n - 1)
previous_index wrap n (some i) =
    if i == 0 then (if wrap then some (n - 1) else some i) else some (i - 1)

-- The selection after the removal of `index`, with `n` workspaces left.
pub removed_index : ℕ → ℕ → Option ℕ → Option ℕ
removed_index index n none = none
removed_index index n (some sel) =
    if n == 0
    then none
    else if leb n sel
    then some (n - 1)
    else if ltb index sel
    then some (sel - 1)
    else some sel

-- The selection follows the workspace that it is on.
pub moved_index : ℕ → ℕ → ℕ → ℕ
moved_index from to sel =
    if sel == from
    then to
    else if ltb from to && (ltb from sel && leb sel to)
    then sel - 1
    else if ltb to from && (leb to sel && ltb sel from)
    then sel + 1
    else sel

module _ {F : Type 0} where
  -- The new manager has the workspace that `Workspace::new` makes.
  pub new_tab_manager : Workspace F → TabManager F
  new_tab_manager ws = record { workspaces = ws ∷ []; selected_index = some 0 }

  pub empty : TabManager F
  empty = record { workspaces = []; selected_index = none }

  abbrev pub len : TabManager F → ℕ
  len tm = length tm.workspaces

  unfoldable pub selected : TabManager F → Option (Workspace F)
  selected tm = elim tm.selected_index [ none ↦ none | some i ↦ get_elem? tm.workspaces i ]

  pub selected_id : TabManager F → Option Uuid
  unfolding selected
  selected_id tm = elim (selected tm) [ none ↦ none | some ws ↦ some ws.id ]

  abbrev pub has_id : Uuid → Workspace F → Bool
  has_id id ws = ws.id == id

  pub select : ℕ → TabManager F → TabManager F × Bool
  select index tm =
      if ltb index (len tm) then (record tm { selected_index = some index }, true) else (tm, false)

  pub workspace_index : Uuid → TabManager F → Option ℕ
  workspace_index id tm = position (has_id id) tm.workspaces

  pub select_by_id : Uuid → TabManager F → TabManager F × Bool
  unfolding workspace_index
  select_by_id id tm = elim (workspace_index id tm) [
    | none ↦ (tm, false)
    | some index ↦ (record tm { selected_index = some index }, true)
  ]

  pub select_next : Bool → TabManager F → TabManager F
  unfolding next_index
  select_next wrap tm =
      if is_empty_list tm.workspaces
      then tm
      else record tm { selected_index = next_index wrap (len tm) tm.selected_index }

  pub select_previous : Bool → TabManager F → TabManager F
  unfolding previous_index
  select_previous wrap tm =
      if is_empty_list tm.workspaces
      then tm
      else record tm { selected_index = previous_index wrap (len tm) tm.selected_index }

  pub select_last : TabManager F → TabManager F
  select_last tm =
      if is_empty_list tm.workspaces then tm else record tm { selected_index = some (len tm - 1) }

  unfoldable pub add_workspace : Workspace F → TabManager F → TabManager F × Uuid
  add_workspace ws tm = (
    record {
      workspaces = tm.workspaces ++ ws ∷ [];
      selected_index = some (length (tm.workspaces ++ ws ∷ []) - 1);
    },
    ws.id,
  )

  pub add_workspace_at_top : Workspace F → TabManager F → TabManager F × Uuid
  add_workspace_at_top ws tm =
      (record { workspaces = ws ∷ tm.workspaces; selected_index = some 0 }, ws.id)

  -- `Vec::insert` panics past the end: `none`.
  pub vec_insert : ℕ → Workspace F → List (Workspace F) → Option (List (Workspace F))
  vec_insert i ws xs = if leb i (length xs) then some (insert_at i ws xs) else none

  pub add_workspace_after_current : Workspace F → TabManager F → Option (TabManager F × Uuid)
  unfolding vec_insert
  add_workspace_after_current ws tm =
      let at : ℕ = elim tm.selected_index [ none ↦ 0 | some i ↦ i + 1 ] in
      elim (vec_insert at ws tm.workspaces) [
        | none ↦ none
        | some list ↦ some (record { workspaces = list; selected_index = some at }, ws.id)
      ]

  pub add_workspace_with_placement :
      Workspace F → NewWorkspacePlacement → TabManager F → Option (TabManager F × Uuid)
  unfolding add_workspace add_workspace_at_top add_workspace_after_current
  add_workspace_with_placement ws end tm = some (add_workspace ws tm)
  add_workspace_with_placement ws after_current tm = add_workspace_after_current ws tm
  add_workspace_with_placement ws top tm = some (add_workspace_at_top ws tm)

  pub remove : ℕ → TabManager F → TabManager F × Option (Workspace F)
  unfolding removed_index
  remove index tm =
      let rest = remove_at index tm.workspaces in
      elim (get_elem? tm.workspaces index) [
        | none ↦ (tm, none)
        | some ws ↦ (
          record {
            workspaces = rest;
            selected_index = removed_index index (length rest) tm.selected_index;
          },
          some ws,
        )
      ]

  pub remove_by_id : Uuid → TabManager F → TabManager F × Option (Workspace F)
  unfolding workspace_index remove
  remove_by_id id tm = elim (workspace_index id tm) [
    | none ↦ (tm, none)
    | some index ↦ remove index tm
  ]

  unfoldable pub workspace : Uuid → TabManager F → Option (Workspace F)
  workspace id tm = find (has_id id) tm.workspaces

  pub move_workspace : ℕ → ℕ → TabManager F → TabManager F × Bool
  unfolding moved_index
  move_workspace from to tm =
      if leb (len tm) from || (leb (len tm) to || from == to)
      then (tm, from == to && ltb from (len tm))
      else elim (get_elem? tm.workspaces from) [
        | none ↦ (tm, false)
        | some ws ↦ (
          record {
            workspaces = insert_at to ws (remove_at from tm.workspaces);
            selected_index = elim tm.selected_index [
              | none ↦ none
              | some s ↦ some (moved_index from to s)
            ];
          },
          true,
        )
      ]

  -- A workspace is selected whenever there is one, and the index is in bounds.
  abbrev pub IsValid : TabManager F → Type 0
  IsValid tm = Points (length tm.workspaces) tm.selected_index
