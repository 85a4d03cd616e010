-- ===== src/Layout/Examples.antt =====
-- cmux/src/model/panel.rs: tests of the layout tree, on identifiers 1 to 5 and dividers in
-- thousandths.
use cmux_gtk.Prelude.{
  false, ◌⊎◌, none, Uuid, ℕ, ◌≡◌, ◌≤◌, ◌+◌, refl, true, ◌||◌, some, [], ◌∷◌, arith, contains, count,
  single, erase, milli, if◌then◌else◌,
}
use cmux_gtk.Layout.{
  horizontal, vertical, left, up, LayoutNode, pane, split, all_panel_ids, is_empty,
  find_pane_with_panel, select_panel, remove_panel, swap_panels, reorder_panel_in_pane,
  add_panel_to_pane, split_pane_with_panel,
}
use cmux_gtk.Layout.Remove.{IsTidy, remove_panel_lem}
use cmux_gtk.Layout.Tidy.{edits-IsTidy}
use cmux_gtk.Layout.Insert.{IsAdded, add_panel_to_pane-ids, IsMoved, reorder_panel_in_pane-IsMoved}
use cmux_gtk.Layout.Splitting.{split_pane_with_panel-ids}
use cmux_gtk.Layout.Swap.{AllSwapped, swap_panels-ids}
use cmux_gtk.Layout.Select.{shown_at, select_panel_lem}

abbrev pub tree : LayoutNode ℕ
tree =
    split horizontal 1500 (pane (1 ∷ 2 ∷ []) (some 1))
      (split vertical 1200 (pane (3 ∷ []) (some 3)) (pane (4 ∷ 5 ∷ []) (some 5)))

pub tree-IsTidy : IsTidy tree
unfolding is_empty
tree-IsTidy = ground arith

pub tree-IsNodup : (a : Uuid) → count a (all_panel_ids tree) ≤ 1
tree-IsNodup a = ground arith

-- The split that loses its only panel collapses.
remove_collapses :
    remove_panel 3 tree
    ≡ (split horizontal 1500 (pane (1 ∷ 2 ∷ []) (some 1)) (pane (4 ∷ 5 ∷ []) (some 5)), true)
unfolding remove_panel
remove_collapses = refl

swap_across : all_panel_ids (swap_panels 2 4 tree).0 ≡ 1 ∷ 4 ∷ 3 ∷ 2 ∷ 5 ∷ []
unfolding swap_panels
swap_across = refl

remove_panel_lem_example :
    ((remove_panel 3 tree).1 ≡ contains 3 (all_panel_ids tree))
    × (all_panel_ids (remove_panel 3 tree).0 ≡ erase 3 (all_panel_ids tree))
    × (((remove_panel 3 tree).1 ≡ true) ⊎ ((remove_panel 3 tree).0 ≡ tree))
remove_panel_lem_example = remove_panel_lem 3 tree

edits-IsTidy_example :
    IsTidy (remove_panel 3 tree).0
    × IsTidy (select_panel 3 tree).0
    × IsTidy (add_panel_to_pane 3 9 tree).0
    × IsTidy (reorder_panel_in_pane 3 0 tree).0
    × IsTidy (swap_panels 3 9 tree).0
    × IsTidy (split_pane_with_panel 3 9 vertical up tree).0
edits-IsTidy_example = edits-IsTidy tree 3 9 0 vertical up tree-IsTidy

add_panel_to_pane-ids_example :
    ((add_panel_to_pane 4 9 tree).1 ≡ contains 4 (all_panel_ids tree))
    × ((((add_panel_to_pane 4 9 tree).1 ≡ false) × ((add_panel_to_pane 4 9 tree).0 ≡ tree))
        ⊎ (((add_panel_to_pane 4 9 tree).1 ≡ true)
            × IsAdded 4 9 (all_panel_ids tree) (all_panel_ids (add_panel_to_pane 4 9 tree).0)))
add_panel_to_pane-ids_example = add_panel_to_pane-ids 4 9 tree

reorder_panel_in_pane-IsMoved_example : IsMoved 5 0 tree (reorder_panel_in_pane 5 0 tree)
reorder_panel_in_pane-IsMoved_example = reorder_panel_in_pane-IsMoved 5 0 tree

split_pane_with_panel-ids_example :
    ((split_pane_with_panel 4 9 horizontal left tree).1 ≡ contains 4 (all_panel_ids tree))
    × ((a : Uuid)
        → count a (all_panel_ids (split_pane_with_panel 4 9 horizontal left tree).0)
          ≡ count a (all_panel_ids tree)
            + (if (split_pane_with_panel 4 9 horizontal left tree).1 then single 9 a else 0))
    × (((split_pane_with_panel 4 9 horizontal left tree).1 ≡ true)
        ⊎ ((split_pane_with_panel 4 9 horizontal left tree).0 ≡ tree))
split_pane_with_panel-ids_example = split_pane_with_panel-ids 4 9 horizontal left tree

swap_panels-ids_example :
    AllSwapped 2 4 (all_panel_ids tree) (all_panel_ids (swap_panels 2 4 tree).0)
    × ((swap_panels 2 4 tree).1
        ≡ contains 2 (all_panel_ids tree) || contains 4 (all_panel_ids tree))
swap_panels-ids_example = swap_panels-ids 2 4 tree

select_panel_lem_example :
    ((select_panel 4 tree).1 ≡ contains 4 (all_panel_ids tree))
    × (all_panel_ids (select_panel 4 tree).0 ≡ all_panel_ids tree)
    × (shown_at (find_pane_with_panel 4 (select_panel 4 tree).0)
        ≡ (if contains 4 (all_panel_ids tree) then some 4 else none))
select_panel_lem_example = select_panel_lem 4 tree
