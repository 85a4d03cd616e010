-- ===== src/TabManager/Tabs/Operations.antt =====
-- cmux/src/model/tab_manager.rs: the operations against those on the tabs.
use cmux_gtk.Prelude.{Uuid, ℕ, ◌≤◌, ◌≡◌, count}
use cmux_gtk.Workspace.{Workspace}
use cmux_gtk.TabManager.{
  TabManager, IsValid, select, select_by_id, add_workspace, add_workspace_at_top, move_workspace,
  remove,
}
use cmux_gtk.TabManager.Ids.{ids}
use cmux_gtk.TabManager.Tabs.{pick, pick_id, push_back, push_front, transfer, take_out}
use cmux_gtk.TabManager.Tabs.Refined.{
  view, select-view, select_by_id-view, add_workspace-view, add_workspace_at_top-view,
  move_workspace-view,
}
use cmux_gtk.TabManager.Tabs.Removed.{remove-view}

module _ {F : Type 0} where
  -- Each operation does to the tabs what the one on tabs says.
  pub record IsRefined (tm : TabManager F) : Type 0 where
    pub selects : (i : ℕ) → view (select i tm).0 ≡ pick i (view tm)
    pub selects_id : (id : Uuid) → view (select_by_id id tm).0 ≡ pick_id id (view tm)
    pub adds : (w : Workspace F) → view (add_workspace w tm).0 ≡ push_back w.id (view tm)
    pub adds_at_top :
        (w : Workspace F) → view (add_workspace_at_top w tm).0 ≡ push_front w.id (view tm)
    pub moves : (from to : ℕ) → view (move_workspace from to tm).0 ≡ transfer from to (view tm)
    pub removes : (i : ℕ) → view (remove i tm).0 ≡ take_out i (view tm)

  -- In a valid manager whose workspaces have different identifiers, selecting, adding, moving and
  -- removing do to the list of identifiers and to the chosen one what the specification says, which
  -- knows no selected index: a move leaves the choice as it is, and so does a removal, unless it takes
  -- the chosen one; then the one behind it is chosen, or the last.
  pub operations-IsRefined :
      (tm : TabManager F) → IsValid tm → ((a : Uuid) → count a (ids tm) ≤ 1) → IsRefined tm
  operations-IsRefined tm v one = record {
    selects = λ i. select-view i tm;
    selects_id = λ id. select_by_id-view id tm;
    adds = λ w. add_workspace-view w tm;
    adds_at_top = λ w. add_workspace_at_top-view w tm;
    moves = λ from to. move_workspace-view from to tm;
    removes = λ i. remove-view i tm v one;
  }
