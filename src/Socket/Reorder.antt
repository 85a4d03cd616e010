-- ===== src/Socket/Reorder.antt =====
-- cmux/src/socket/v2/workspace.rs: the requests that move workspaces in the list. `decimal` prints
-- a number.
pub mod Moves
pub mod Order
pub mod Placed
pub mod Named
pub mod Examples
use cmux_gtk.Prelude.{
  Uuid, ℕ, suc, ◌^◌, Str, codes, list_eq, ◌==◌, Bool, true, false, not, Option, none, some, List,
  [], ◌∷◌, ◌++◌, map, contains, find, get_elem?, is_empty_list, if◌then◌else◌,
}
use cmux_gtk.ProcStatus.{parse_unsigned}
use cmux_gtk.Workspace.{Workspace, display_title}
use cmux_gtk.TabManager.{TabManager, move_workspace, workspace_index}
use cmux_gtk.TabManager.Ids.{ids}
use cmux_gtk.Socket.{
  Json, Response, Result, err, ok, ok_or, ◌>>=◌, Handler, SharedState, notify_ui_refresh, success,
  invalid_params, not_found,
}
use cmux_gtk.Socket.Params.{try, get_array, flag, parse_usize_param}
use cmux_gtk.Socket.Describe.{filter_map}

-- `retain(|id| seen.insert(*id))`
pub dedup : List Uuid → List Uuid → List Uuid
dedup seen [] = []
dedup seen (id ∷ ids) = if contains id seen then dedup seen ids else id ∷ dedup (id ∷ seen) ids

-- `for ws_id in &all_ids { if !new_order.contains(ws_id) { new_order.push(*ws_id) } }`
pub push_missing : List Uuid → List Uuid → List Uuid
push_missing order [] = order
push_missing order (id ∷ ids) =
    push_missing (if contains id order then order else order ++ id ∷ []) ids

module _ {F : Type 0} where
  -- The order asked for: the workspaces listed, then those that were not mentioned.
  pub order_of : List Uuid → TabManager F → List Uuid
  unfolding dedup push_missing
  order_of target_ids tm = push_missing (dedup [] target_ids) (ids tm)

  -- One turn of the loop that moves each workspace to its place.
  unfoldable pub place : ℕ → Uuid → TabManager F → TabManager F
  place desired id tm = elim (workspace_index id tm) [
    | none ↦ tm
    | some current ↦ if current == desired then tm else (move_workspace current desired tm).0
  ]

  -- `for (desired_idx, ws_id) in new_order.iter().enumerate()`, counted from `desired`
  unfoldable pub place_all : ℕ → List Uuid → TabManager F → TabManager F
  unfolding place
  place_all desired [] tm = tm
  place_all desired (id ∷ more) tm = place_all (suc desired) more (place desired id tm)

module _ {V F : Type 0} (decimal : ℕ → Str) (id : V) where
  abbrev pub id_or : Option (Workspace F) → Str → Result V Uuid
  id_or none message = err (not_found id message)
  id_or (some ws) message = ok ws.id

  -- A name is an index if it is a number, and a title otherwise.
  unfoldable pub resolve_name : TabManager F → Str → Result V Uuid
  resolve_name tm name = elim (parse_unsigned (2 ^ 64) name) [
    | some index ↦
        id_or (get_elem? tm.workspaces index) (codes "No workspace at index " ++ decimal index)
    | none ↦
        id_or (find (λ ws. list_eq (display_title ws) name) tm.workspaces)
          (codes "No workspace named '" ++ name ++ codes "'")
  ]

  unfoldable pub resolve_names : TabManager F → List Str → Result V (List Uuid)
  unfolding resolve_name
  resolve_names tm [] = ok []
  resolve_names tm (name ∷ names) =
      try (resolve_name tm name)
        (λ target. try (resolve_names tm names) (λ targets. ok (target ∷ targets)))

module _ {V F : Type 0} ⦃j : Json V⦄ where
  unfoldable pub answer_reorder_workspaces : V → List Uuid → Handler V F
  unfolding order_of place_all notify_ui_refresh success
  answer_reorder_workspaces id target_ids state =
      let new_order = order_of target_ids state.tab_manager in
      (
        notify_ui_refresh (record state { tab_manager = place_all 0 new_order state.tab_manager }),
        success id (
            j.object (
              (codes "reordered", j.array (map (λ ws. j.string (j.to_string ws)) new_order)) ∷ [])),
      )

  unfoldable pub handle_workspace_reorder_workspaces : (ℕ → Str) → V → V → Handler V F
  unfolding resolve_names answer_reorder_workspaces invalid_params
  handle_workspace_reorder_workspaces decimal id params = do
    values ←
        ok_or (get_array params (codes "workspaces"))
          (invalid_params id (codes "Provide 'workspaces' array of names"))
    let names = filter_map j.as_str values
    λ state.
        if is_empty_list names
        then (state, invalid_params id (codes "'workspaces' array must not be empty"))
        else (resolve_names decimal id state.tab_manager names >>= λ target_ids.
              answer_reorder_workspaces id target_ids)
            state

  unfoldable pub answer_reorder :
      V → SharedState F → TabManager F × Bool → SharedState F × Response V
  unfolding notify_ui_refresh success invalid_params
  answer_reorder id state (tm, true) =
      (notify_ui_refresh (record state { tab_manager = tm }), success id (flag (codes "ok")))
  answer_reorder id state (tm, false) =
      (record state { tab_manager = tm }, invalid_params id (codes "Invalid workspace indices"))

  unfoldable pub handle_workspace_reorder : V → V → Handler V F
  unfolding answer_reorder invalid_params
  handle_workspace_reorder id params = do
    from ← parse_usize_param id params (codes "from")
    to ← parse_usize_param id params (codes "to")
    from ← ok_or from (invalid_params id (codes "Provide 'from' and 'to'"))
    to ← ok_or to (invalid_params id (codes "Provide 'from' and 'to'"))
    λ state. answer_reorder id state (move_workspace from to state.tab_manager)
