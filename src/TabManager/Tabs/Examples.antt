-- ===== src/TabManager/Tabs/Examples.antt =====
-- cmux/src/model/tab_manager.rs: tests of the tabs, on workspaces 100, 200 and 300.
use cmux_gtk.Prelude.{Uuid, ℕ, ◌+◌, ◌≡◌, refl, none, some, [], ◌∷◌, arith}
use cmux_gtk.Workspace.{Workspace, new_workspace}
use cmux_gtk.TabManager.{TabManager}
use cmux_gtk.TabManager.Tabs.{take_out}
use cmux_gtk.TabManager.Tabs.Operations.{IsRefined, operations-IsRefined}

abbrev numbered : Uuid → Workspace ℕ
numbered id = new_workspace none id (id + 1)

abbrev three : TabManager ℕ
three = record {
  workspaces = numbered 100 ∷ numbered 200 ∷ numbered 300 ∷ [];
  selected_index = some 2;
}

-- The last is chosen after the removal of the chosen last.
take_last :
    take_out 2 (record { tabs = 100 ∷ 200 ∷ 300 ∷ []; chosen = some 300 })
    ≡ record { tabs = 100 ∷ 200 ∷ []; chosen = some 200 }
unfolding take_out
take_last = refl

operations-IsRefined_example : IsRefined three
unfolding new_workspace
operations-IsRefined_example = operations-IsRefined three (omega arith) (λ a. ground arith)
