-- ===== src/TabManager/Panels.antt =====
-- cmux/src/model/tab_manager.rs: panels across workspaces.
pub mod Latest
pub mod Bound
pub mod Moved
pub mod Examples
use cmux_gtk.Prelude.{
  Uuid, ℕ, suc, ltb, ◌==◌, Bool, false, get_elem?, Option, none, some, List, [], ◌∷◌, find,
  update_first, contains_key, if◌then◌else◌, F64,
}
use cmux_gtk.Layout.{horizontal}
use cmux_gtk.Panel.{Panel}
use cmux_gtk.Workspace.{Workspace, detach_panel, insert_panel, is_empty}
use cmux_gtk.TabManager.{TabManager, has_id, workspace, remove_by_id}

module _ {F : Type 0} where
  unfoldable pub find_workspace_with_panel : Uuid → TabManager F → Option (Workspace F)
  find_workspace_with_panel panel_id tm = find (λ ws. contains_key panel_id ws.panels) tm.workspaces

  -- `workspace_mut(id)` and a method on the workspace found
  abbrev pub update_workspace : Uuid → (Workspace F → Workspace F) → TabManager F → TabManager F
  update_workspace id g tm = record tm { workspaces = update_first (has_id id) g tm.workspaces }

  -- `is_some_and(|ws| ws.is_empty())`
  abbrev pub is_emptied : Option (Workspace F) → Bool
  is_emptied none = false
  is_emptied (some ws) = is_empty ws

module _ {F : Type 0} ⦃f : F64 F⦄ where
  -- The detached panel goes to the target, once the source is dropped if nothing is left of it.
  insert_into :
      Uuid
      → Uuid
      → Uuid
      → Workspace F × Option (Panel F)
      → TabManager F
      → TabManager F × Option Uuid
  insert_into panel_id source target (_, none) tm = (tm, none)
  insert_into panel_id source target (rest, some p) tm =
      let detached = update_workspace source (λ _. rest) tm in
      let pruned =
        if is_emptied (workspace source detached)
        then (remove_by_id source detached).0
        else detached in
      elim (workspace target pruned) [
        | none ↦ (pruned, none)
        | some _ ↦
            (update_workspace target (λ ws. (insert_panel p horizontal ws).0) pruned, some target)
      ]

  pub move_panel_to_workspace : Uuid → Uuid → TabManager F → TabManager F × Option Uuid
  unfolding find_workspace_with_panel insert_into
  move_panel_to_workspace panel_id target tm = elim (find_workspace_with_panel panel_id tm) [
    | none ↦ (tm, none)
    | some source ↦ if source.id == target then (tm, none) else elim (workspace target tm) [
      | none ↦ (tm, none)
      | some _ ↦ elim (workspace source.id tm) [
        | none ↦ (tm, none)
        | some ws ↦ insert_into panel_id source.id target (detach_panel panel_id ws) tm
      ]
    ]
  ]

  -- `latest_notification_at.unwrap_or(0.0)`
  abbrev pub notified_at : Workspace F → F
  notified_at ws = elim ws.latest_notification_at [ none ↦ f.zero | some t ↦ t ]

  -- `max_by` keeps the last of the greatest: a later one is taken unless it is smaller.
  newest : ℕ → Option (ℕ × F) → List (Workspace F) → Option ℕ
  newest i none [] = none
  newest i (some (j, t)) [] = some j
  newest i none (ws ∷ xs) =
      newest (suc i) (if ltb 0 ws.unread_count then some (i, notified_at ws) else none) xs
  newest i (some (j, t)) (ws ∷ xs) =
      newest (suc i)
        (if ltb 0 ws.unread_count
          then (if f.total_lt (notified_at ws) t then some (j, t) else some (i, notified_at ws))
          else some (j, t))
        xs

  pub latest_unread_index : TabManager F → Option ℕ
  unfolding newest
  latest_unread_index tm = newest 0 none tm.workspaces

  pub select_latest_unread : TabManager F → TabManager F × Option Uuid
  unfolding latest_unread_index
  select_latest_unread tm = elim (latest_unread_index tm) [
    | none ↦ (tm, none)
    | some i ↦ (
      record tm { selected_index = some i },
      elim (get_elem? tm.workspaces i) [ none ↦ none | some ws ↦ some ws.id ],
    )
  ]
