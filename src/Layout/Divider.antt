-- ===== src/Layout/Divider.antt =====
-- cmux/src/model/panel.rs: the divider positions of a layout tree.
pub mod Range
pub mod Sets
pub mod Target
pub mod Refused
mod Examples
use cmux_gtk.Prelude.{
  Uuid, ℕ, leb, Bool, true, false, ◌&&◌, ◌||◌, List, [], ◌∷◌, contains, list_eq, if◌then◌else◌, F64,
  clamp,
}
use cmux_gtk.Layout.{LayoutNode, pane, split, all_panel_ids, try_children}

insert_sorted : ℕ → List ℕ → List ℕ
insert_sorted a [] = a ∷ []
insert_sorted a (x ∷ xs) = if leb a x then a ∷ x ∷ xs else x ∷ insert_sorted a xs

-- `sort_unstable` on identifiers: equal ones cannot be told apart, so every sort has this result.
pub sort : List ℕ → List ℕ
unfolding insert_sorted
sort [] = []
sort (x ∷ xs) = insert_sorted x (sort xs)

module _ {F : Type 0} where
  pub same_panel_set : LayoutNode F → List Uuid → Bool
  unfolding sort
  same_panel_set node expected = list_eq (sort (all_panel_ids node)) (sort expected)

module _ {F : Type 0} ⦃f : F64 F⦄ where
  pub set_divider_position_for_split :
      List Uuid → List Uuid → F → LayoutNode F → LayoutNode F × Bool
  set_divider_position_for_split first_ids second_ids position (pane ids selected) =
      (pane ids selected, false)
  set_divider_position_for_split first_ids second_ids position (split o d first second) =
      let is_target = same_panel_set first first_ids && same_panel_set second second_ids in
      if is_target
      then (split o (clamp position f.zero f.one) first second, true)
      else try_children o d second
          (set_divider_position_for_split first_ids second_ids position first)
          (set_divider_position_for_split first_ids second_ids position second)

  -- The innermost split that holds the panel moves, away from the side the panel is on.
  pub resize_panel : Uuid → F → LayoutNode F → LayoutNode F × Bool
  resize_panel panel_id amount (pane ids selected) = (pane ids selected, false)
  resize_panel panel_id amount (split o d first second) =
      let in_first = contains panel_id (all_panel_ids first) in
      let in_second = contains panel_id (all_panel_ids second) in
      let (first', resized_first) = resize_panel panel_id amount first in
      let (second', resized_second) = resize_panel panel_id amount second in
      let delta = if in_first then amount else f.neg amount in
      if in_first || in_second
      then if in_first && resized_first
        then (split o d first' second, true)
        else if in_second && resized_second
        then (split o d first second', true)
        else (split o (clamp (f.add d delta) f.p05 f.p95) first second, true)
      else (split o d first second, false)

  unfoldable pub equalize : LayoutNode F → LayoutNode F × Bool
  equalize (pane ids selected) = (pane ids selected, false)
  equalize (split o d first second) =
      let changed = f.lt f.epsilon (f.abs (f.sub d f.half)) in
      let (first', c1) = equalize first in
      let (second', c2) = equalize second in (split o f.half first' second', changed || (c1 || c2))
