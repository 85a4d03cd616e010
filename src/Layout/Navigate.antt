-- ===== src/Layout/Navigate.antt =====
-- cmux/src/model/panel.rs: the panels next to a panel, in layout order, in its pane and by
-- direction. `ids[i]` is `get_elem?`, `none` where the source would panic.
pub mod Cycle
pub mod Steps
pub mod Tabs
pub mod Neighbor
mod Examples
use cmux_gtk.Prelude.{
  Uuid, ◌+◌, ◌-◌, ◌%◌, ◌==◌, Bool, true, false, ◌&&◌, not, Option, none, some, List, length,
  get_elem?, head?, last?, contains, position, or_else, if◌then◌else◌,
}
use cmux_gtk.Layout.{
  SplitOrientation, horizontal, vertical, Direction, left, right, up, down, LayoutNode, pane, split,
  all_panel_ids,
}

-- The step shared by `next_panel_id` and `next_panel_in_pane`.
pub next_in : List Uuid → Uuid → Option Uuid
next_in ids current = elim (position (λ id. id == current) ids) [
  | none ↦ none
  | some pos ↦ get_elem? ids ((pos + 1) % length ids)
]

-- The step shared by `prev_panel_id` and `prev_panel_in_pane`.
pub prev_in : List Uuid → Uuid → Option Uuid
prev_in ids current = elim (position (λ id. id == current) ids) [
  | none ↦ none
  | some pos ↦ get_elem? ids (if pos == 0 then length ids - 1 else pos - 1)
]

abbrev matches_axis : SplitOrientation → Direction → Bool
matches_axis horizontal left = true
matches_axis horizontal right = true
matches_axis vertical up = true
matches_axis vertical down = true
matches_axis _ _ = false

abbrev want_second : Direction → Bool
want_second right = true
want_second down = true
want_second _ = false

module _ {F : Type 0} where
  pub next_panel_id : LayoutNode F → Uuid → Option Uuid
  unfolding next_in
  next_panel_id node current = next_in (all_panel_ids node) current

  pub prev_panel_id : LayoutNode F → Uuid → Option Uuid
  unfolding prev_in
  prev_panel_id node current = prev_in (all_panel_ids node) current

  pub next_panel_in_pane : LayoutNode F → Uuid → Option Uuid
  next_panel_in_pane (pane panel_ids _) current = next_in panel_ids current
  next_panel_in_pane (split _ _ first second) current =
      or_else (next_panel_in_pane first current) (next_panel_in_pane second current)

  pub prev_panel_in_pane : LayoutNode F → Uuid → Option Uuid
  prev_panel_in_pane (pane panel_ids _) current = prev_in panel_ids current
  prev_panel_in_pane (split _ _ first second) current =
      or_else (prev_panel_in_pane first current) (prev_panel_in_pane second current)

  pub neighbor_recursive : Uuid → Direction → LayoutNode F → Option Uuid
  neighbor_recursive panel_id direction (pane _ _) = none
  neighbor_recursive panel_id direction (split orientation _ first second) =
      let in_first = contains panel_id (all_panel_ids first) in
      let in_second = contains panel_id (all_panel_ids second) in
      let below_first = neighbor_recursive panel_id direction first in
      let below_second = neighbor_recursive panel_id direction second in
      if matches_axis orientation direction
      then if in_first && want_second direction
        then or_else below_first (head? (all_panel_ids second))
        else if in_second && not (want_second direction)
        then or_else below_second (last? (all_panel_ids first))
        else if in_first
        then below_first
        else below_second
      else if in_first
      then below_first
      else if in_second
      then below_second
      else none

  pub neighbor : Uuid → Direction → LayoutNode F → Option Uuid
  unfolding neighbor_recursive
  neighbor panel_id direction node = neighbor_recursive panel_id direction node
