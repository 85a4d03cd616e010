-- ===== src/Layout.antt =====
-- cmux/src/model/panel.rs: the layout tree of a workspace, `LayoutNode`, and its editing methods.
-- A method on `&mut self` returns the new tree; a `&mut LayoutNode` that a method hands out is the
-- node found with the function that puts another one back in its place.
pub mod Divider
pub mod Navigate
pub mod Remove
pub mod Places
pub mod Insert
pub mod Splitting
pub mod Swap
pub mod Tidy
pub mod Select
pub mod Refused
pub mod Examples
use cmux_gtk.Prelude.{
  Uuid, ℕ, suc, ◌==◌, min, Bool, true, false, ◌||◌, Option, none, some, List, [], ◌∷◌, ◌++◌, map,
  contains, erase, head?, position, insert_at, is_some_eq, is_empty_list, or_else, if◌then◌else◌,
  F64, length,
}

pub data SplitOrientation : Type 0 where
  horizontal vertical : SplitOrientation

pub data Direction : Type 0 where
  left right up down : Direction

-- `F` is the type of divider positions.
pub data LayoutNode (F : Type 0) : Type 0 where
  pane : List Uuid → Option Uuid → LayoutNode F
  split : SplitOrientation → F → LayoutNode F → LayoutNode F → LayoutNode F

-- `&mut LayoutNode` inside a tree: the node, and the tree with another node in its place.
abbrev pub Place : Type 0 → Type 0
Place F = LayoutNode F × (LayoutNode F → LayoutNode F)

-- `*id == a` becomes `b`, else `*id == b` becomes `a`.
abbrev pub exchange : Uuid → Uuid → Uuid → Uuid
exchange a b id = if id == a then b else if id == b then a else id

abbrev exchange_selected : Uuid → Uuid → Option Uuid → Option Uuid
exchange_selected a b none = none
exchange_selected a b (some sel) = some (exchange a b sel)

-- The flag `changed` of the loop over the identifiers.
abbrev touches : Uuid → Uuid → List Uuid → Bool
touches a b [] = false
touches a b (id ∷ ids) = if id == a then true else if id == b then true else touches a b ids

-- Remove at the position found, then insert at the new index, clamped to what is left.
pub move_to : Uuid → ℕ → List Uuid → List Uuid
move_to panel_id new_index panel_ids =
    let rest = erase panel_id panel_ids in insert_at (min new_index (length rest)) panel_id rest

pub insert_after : Uuid → Uuid → List Uuid → List Uuid
insert_after target new_id ids = elim (position (λ id. id == target) ids) [
  | some pos ↦ insert_at (suc pos) new_id ids
  | none ↦ ids ++ new_id ∷ []
]

-- left and up put the new panel first
abbrev new_first : Direction → Bool
new_first left = true
new_first up = true
new_first _ = false

module _ {F : Type 0} where
  unfoldable pub single_pane : Uuid → LayoutNode F
  single_pane panel_id = pane (panel_id ∷ []) (some panel_id)

  abbrev pub all_panel_ids : LayoutNode F → List Uuid
  all_panel_ids (pane panel_ids _) = panel_ids
  all_panel_ids (split _ _ first second) = all_panel_ids first ++ all_panel_ids second

  pub is_empty : LayoutNode F → Bool
  is_empty (pane panel_ids _) = is_empty_list panel_ids
  is_empty (split _ _ first second) = if is_empty first then is_empty second else false

  abbrev below_first : SplitOrientation → F → LayoutNode F → Place F → Place F
  below_first o d second (node, put) = (node, λ n. split o d (put n) second)

  abbrev below_second : SplitOrientation → F → LayoutNode F → Place F → Place F
  below_second o d first (node, put) = (node, λ n. split o d first (put n))

  -- `a.or_else(|| b)` over the places in the two children
  abbrev either_child :
      SplitOrientation
      → F
      → LayoutNode F
      → LayoutNode F
      → Option (Place F)
      → Option (Place F)
      → Option (Place F)
  either_child o d first second (some p) q = some (below_first o d second p)
  either_child o d first second none (some p) = some (below_second o d first p)
  either_child o d first second none none = none

  unfoldable pub find_pane_with_panel : Uuid → LayoutNode F → Option (Place F)
  find_pane_with_panel panel_id (pane panel_ids selected) =
      if contains panel_id panel_ids then some (pane panel_ids selected, λ n. n) else none
  find_pane_with_panel panel_id (split o d first second) =
      either_child o d first second (find_pane_with_panel panel_id first)
        (find_pane_with_panel panel_id second)

  pub find_pane_with_panel_readonly : Uuid → LayoutNode F → Option (List Uuid)
  find_pane_with_panel_readonly panel_id (pane panel_ids _) =
      if contains panel_id panel_ids then some panel_ids else none
  find_pane_with_panel_readonly panel_id (split _ _ first second) =
      or_else (find_pane_with_panel_readonly panel_id first)
        (find_pane_with_panel_readonly panel_id second)

  -- The children of a split after `first.f() || second.f()`: the second call is made only if the
  -- first one returned false.
  abbrev try_children :
      SplitOrientation
      → F
      → LayoutNode F
      → LayoutNode F × Bool
      → LayoutNode F × Bool
      → LayoutNode F × Bool
  try_children o d second (first', true) r = (split o d first' second, true)
  try_children o d second (first', false) (second', found) = (split o d first' second', found)

  pub select_panel : Uuid → LayoutNode F → LayoutNode F × Bool
  select_panel panel_id (pane panel_ids selected) =
      if contains panel_id panel_ids
      then (pane panel_ids (some panel_id), true)
      else (pane panel_ids selected, false)
  select_panel panel_id (split o d first second) =
      try_children o d second (select_panel panel_id first) (select_panel panel_id second)

  collapse : LayoutNode F × Bool → LayoutNode F × Bool
  unfolding is_empty
  collapse (split o d first second, true) =
      if is_empty first
      then (second, true)
      else if is_empty second
      then (first, true)
      else (split o d first second, true)
  collapse r = r

  -- `iter().position(id)` then `remove(pos)` takes out the first occurrence, `erase`.
  unfoldable pub remove_panel : Uuid → LayoutNode F → LayoutNode F × Bool
  unfolding collapse
  remove_panel panel_id (pane panel_ids selected) =
      let rest = erase panel_id panel_ids in
      if contains panel_id panel_ids
      then (pane rest (if is_some_eq selected panel_id then head? rest else selected), true)
      else (pane panel_ids selected, false)
  remove_panel panel_id (split o d first second) =
      collapse
        (try_children o d second (remove_panel panel_id first) (remove_panel panel_id second))

  pub swap_panels_recursive : Uuid → Uuid → LayoutNode F → LayoutNode F × Bool
  swap_panels_recursive a b (pane panel_ids selected) =
      (pane (map (exchange a b) panel_ids) (exchange_selected a b selected), touches a b panel_ids)
  swap_panels_recursive a b (split o d first second) =
      let (first', c1) = swap_panels_recursive a b first in
      let (second', c2) = swap_panels_recursive a b second in (split o d first' second', c1 || c2)

  pub swap_panels : Uuid → Uuid → LayoutNode F → LayoutNode F × Bool
  unfolding swap_panels_recursive
  swap_panels a b node = swap_panels_recursive a b node

  reorder_place : Uuid → ℕ → LayoutNode F → Option (Place F) → LayoutNode F × Bool
  unfolding move_to
  reorder_place panel_id new_index whole (some (pane panel_ids selected, put)) =
      if contains panel_id panel_ids
      then (put (pane (move_to panel_id new_index panel_ids) selected), true)
      else (whole, false)
  reorder_place panel_id new_index whole _ = (whole, false)

  pub reorder_panel_in_pane : Uuid → ℕ → LayoutNode F → LayoutNode F × Bool
  unfolding reorder_place find_pane_with_panel
  reorder_panel_in_pane panel_id new_index node =
      reorder_place panel_id new_index node (find_pane_with_panel panel_id node)

  add_place : Uuid → Uuid → LayoutNode F → Option (Place F) → LayoutNode F × Bool
  unfolding insert_after
  add_place target new_id whole (some (pane panel_ids _, put)) =
      (put (pane (insert_after target new_id panel_ids) (some new_id)), true)
  add_place target new_id whole _ = (whole, false)

  -- The new panel becomes a tab after the target, and is selected.
  pub add_panel_to_pane : Uuid → Uuid → LayoutNode F → LayoutNode F × Bool
  unfolding add_place find_pane_with_panel
  add_panel_to_pane target_panel_id new_panel_id node =
      add_place target_panel_id new_panel_id node (find_pane_with_panel target_panel_id node)

module _ {F : Type 0} ⦃f : F64 F⦄ where
  -- The method `LayoutNode::split`.
  unfoldable pub split_node : LayoutNode F → SplitOrientation → Uuid → LayoutNode F
  unfolding single_pane
  split_node node orientation new_panel_id =
      split orientation f.half node (single_pane new_panel_id)

  unfoldable pub split_pane_with_panel :
      Uuid → Uuid → SplitOrientation → Direction → LayoutNode F → LayoutNode F × Bool
  unfolding single_pane
  split_pane_with_panel target panel_id orientation direction (pane panel_ids selected) =
      let new_pane = single_pane panel_id in
      let existing = pane panel_ids selected in
      if contains target panel_ids
      then (
        split orientation f.half (if new_first direction then new_pane else existing)
            (if new_first direction then existing else new_pane),
        true,
      )
      else (existing, false)
  split_pane_with_panel target panel_id orientation direction (split o d first second) =
      try_children o d second (split_pane_with_panel target panel_id orientation direction first)
        (split_pane_with_panel target panel_id orientation direction second)
