-- ===== src/Socket/Targets.antt =====
-- cmux/src/socket/v2: the workspace that a request is about, and a change of it alone.
use cmux_gtk.Prelude.{
  ℕ, List, Uuid, Str, Bool, Option, none, some, if◌then◌else◌, contains_key, update_first,
  update_at,
}
use cmux_gtk.Workspace.{Workspace}
use cmux_gtk.TabManager.{TabManager, has_id, selected, workspace}
use cmux_gtk.TabManager.Panels.{find_workspace_with_panel}
use cmux_gtk.Socket.{Handler, UiEvent, refresh, send_ui_event, success, not_found}

-- The selected workspace, the one with an identifier, or the first that has a panel.
pub data Target : Type 0 where
  current : Target
  by_id by_panel : Uuid → Target

-- `if let Some(wid) = ws_id { tm.workspace_mut(wid) } else { tm.selected_mut() }`
abbrev pub by_id_or_current : Option Uuid → Target
by_id_or_current none = current
by_id_or_current (some id) = by_id id

-- `if let Some(pid) = panel_id { tm.find_workspace_with_panel_mut(pid) } else { .. }`
abbrev pub by_panel_or : Option Uuid → Target → Target
by_panel_or none other = other
by_panel_or (some id) other = by_panel id

module _ {F : Type 0} where
  unfoldable pub find_target : Target → TabManager F → Option (Workspace F)
  find_target current tm = selected tm
  find_target (by_id id) tm = workspace id tm
  find_target (by_panel id) tm = find_workspace_with_panel id tm

  abbrev pub update_selected :
      Option ℕ → (Workspace F → Workspace F) → List (Workspace F) → List (Workspace F)
  update_selected none g xs = xs
  update_selected (some i) g xs = update_at i g xs

  -- What is done to the workspace found through a reference to it.
  unfoldable pub edit_target : Target → (Workspace F → Workspace F) → TabManager F → TabManager F
  edit_target current g tm = record tm {
    workspaces = update_selected tm.selected_index g tm.workspaces;
  }
  edit_target (by_id id) g tm = record tm { workspaces = update_first (has_id id) g tm.workspaces }
  edit_target (by_panel id) g tm = record tm {
    workspaces = update_first (λ ws. contains_key id ws.panels) g tm.workspaces;
  }

module _ {V F : Type 0} where
  -- The workspace is looked up, changed, and the window is told; without one nothing is done.
  unfoldable pub edit : V → Str → Target → (Workspace F → Workspace F) → UiEvent → V → Handler V F
  unfolding find_target edit_target not_found success
  edit id missing target g event result state = elim (find_target target state.tab_manager) [
    | none ↦ (state, not_found id missing)
    | some _ ↦ (
      send_ui_event event (record state { tab_manager = edit_target target g state.tab_manager }),
      success id result,
    )
  ]

  -- The same for a change that can fail: what it returns decides the answer.
  unfoldable pub try_edit :
      V → Str → Str → Target → (Workspace F → Workspace F × Bool) → V → Handler V F
  unfolding find_target edit_target not_found success
  try_edit id missing failed target g result state = elim (find_target target state.tab_manager) [
    | none ↦ (state, not_found id missing)
    | some ws ↦
        let edited = record state {
          tab_manager = edit_target target (λ w. (g w).0) state.tab_manager;
        } in
        if (g ws).1
        then (send_ui_event refresh edited, success id result)
        else (edited, not_found id failed)
  ]
