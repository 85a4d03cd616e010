-- ===== src/TabManager/Examples.antt =====
-- cmux/src/model/tab_manager.rs: tests of the workspace list, on workspaces 100, 200 and 300.
use cmux_gtk.Prelude.{
  ◌⊎◌, ℕ, ◌≡◌, ◌+◌, refl, true, none, some, List, [], ◌∷◌, ◌++◌, arith, length, take, drop,
  get_elem?, ◌≤◌,
}
use cmux_gtk.Workspace.{Workspace, new_workspace}
use cmux_gtk.TabManager.{
  TabManager, IsValid, selected, selected_id, after_current, workspace_index, move_workspace,
}
use cmux_gtk.TabManager.Closing.{close_others, close_above, close_below}
use cmux_gtk.TabManager.Closing.Survivors.{survivors}
use cmux_gtk.TabManager.Closing.Result.{
  is_other, is_unpinned, close_others_lem, close_above_lem, close_below_lem,
}
use cmux_gtk.TabManager.Follow.{move_workspace-selected}
use cmux_gtk.TabManager.Runs.{adds, selects_next, moves, removes, closes_others, run, run_total}

abbrev pinned : Workspace ℕ
pinned = record (new_workspace none 300 3) { is_pinned = true }

abbrev list : List (Workspace ℕ)
list = new_workspace none 100 1 ∷ new_workspace none 200 2 ∷ pinned ∷ []

-- Three workspaces, the last one pinned and the second one selected.
abbrev three : TabManager ℕ
three = record { workspaces = list; selected_index = some 1 }

abbrev four : TabManager ℕ
four = record {
  workspaces = list ++ record (new_workspace none 500 5) { is_pinned = true } ∷ [];
  selected_index = some 2;
}

three-IsValid : IsValid three
three-IsValid = ground arith

-- The workspace selected moves to the end, and the selection with it.
moved_selection : (move_workspace 1 2 three).0.selected_index ≡ some 2
unfolding move_workspace
moved_selection = refl

-- With a pinned workspace selected behind the target, closing below the target can leave the
-- selection on another workspace.
below_pinned :
    (selected_id four ≡ some 300)
    × (elim (close_below 100 four) [ none ↦ none | some r ↦ selected_id r.0 ] ≡ some 500)
unfolding close_below new_workspace selected_id
below_pinned = (refl, refl)

close_others_lem_example :
    (r : TabManager ℕ × ℕ) × (close_others 200 three ≡ some r)
    × (r.0.workspaces ≡ survivors (is_other 200) list)
    × (r.1 + length r.0.workspaces ≡ length list)
    × ((workspace_index 200 three ≡ none) ⊎ (selected_id r.0 ≡ some 200))
close_others_lem_example = close_others_lem 200 three

close_above_lem_example :
    (r : TabManager ℕ × ℕ) × (close_above 200 three ≡ some r)
    × (r.0.workspaces ≡ survivors is_unpinned (take 1 list) ++ drop 1 list)
    × (selected_id r.0 ≡ some 200)
unfolding new_workspace workspace_index
close_above_lem_example = close_above_lem 200 three 1 refl

close_below_lem_example :
    (r : TabManager ℕ × ℕ) × (close_below 200 three ≡ some r)
    × (r.0.workspaces ≡ take 2 list ++ survivors is_unpinned (drop 2 list))
    × ((sel : ℕ) → three.selected_index ≡ some sel → sel ≤ 1 → selected r.0 ≡ selected three)
unfolding new_workspace workspace_index
close_below_lem_example = close_below_lem 200 three 1 refl

move_workspace-selected_example :
    ((move_workspace 0 2 three).1 ≡ true)
    × (selected (move_workspace 0 2 three).0 ≡ selected three)
    × (get_elem? (move_workspace 0 2 three).0.workspaces 2 ≡ get_elem? list 0)
move_workspace-selected_example = move_workspace-selected 0 2 three (omega arith) (omega arith)

run_total_example :
    (r : TabManager ℕ) × (run
        (adds (new_workspace none 400 4) after_current
          ∷ moves 2 0
          ∷ selects_next true
          ∷ closes_others 100
          ∷ removes 0
          ∷ [])
        three
      ≡ some r)
    × IsValid r
run_total_example =
    run_total
      (adds (new_workspace none 400 4) after_current
        ∷ moves 2 0
        ∷ selects_next true
        ∷ closes_others 100
        ∷ removes 0
        ∷ [])
      three three-IsValid
