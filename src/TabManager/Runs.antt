-- ===== src/TabManager/Runs.antt =====
-- cmux/src/model/tab_manager.rs: any sequence of operations on the workspace list.
use cmux_gtk.Prelude.{
  Uuid, ℕ, ◌≡◌, refl, ap, Bool, Option, none, some, List, [], ◌∷◌, position, Option-cases, inl, inr,
  arith,
}
use cmux_gtk.Workspace.{Workspace}
use cmux_gtk.TabManager.{
  TabManager, NewWorkspacePlacement, end, after_current, top, IsValid, has_id, select, select_by_id,
  select_next, select_previous, select_last, add_workspace_with_placement, remove_by_id,
}
use cmux_gtk.TabManager.Closing.{close_others, close_above, close_below}
use cmux_gtk.TabManager.Closing.Valid.{
  Closes, close_others-Closes, close_above-Closes, close_below-Closes,
}
use cmux_gtk.TabManager.Panics.{
  remove_or_panic, remove_by_id_or_panic, move_or_panic, remove_or_panic-remove,
  remove_by_id_or_panic-remove_by_id, move_or_panic-move_workspace,
}
use cmux_gtk.TabManager.Selection.{
  select-IsValid, select_by_id-IsValid, select_next-IsValid, select_previous-IsValid,
  select_last-IsValid, add_workspace-IsValid, remove-IsValid, move_workspace-IsValid,
  after_current_total,
}

-- A call of the manager.
pub data Call (F : Type 0) : Type 0 where
  selects : ℕ → Call F
  selects_id : Uuid → Call F
  selects_next : Bool → Call F
  selects_previous : Bool → Call F
  selects_last : Call F
  adds : Workspace F → NewWorkspacePlacement → Call F
  removes : ℕ → Call F
  removes_id : Uuid → Call F
  moves : ℕ → ℕ → Call F
  closes_others : Uuid → Call F
  closes_above : Uuid → Call F
  closes_below : Uuid → Call F

module _ {F : Type 0} where
  abbrev manager_of : {A : Type 0} → Option (TabManager F × A) → Option (TabManager F)
  manager_of none = none
  manager_of (some (tm, _)) = some tm

  -- The manager after a call. `none` is a panic: of `Vec::insert` or `Vec::remove`, out of range.
  pub step : Call F → TabManager F → Option (TabManager F)
  step (selects i) tm = some (select i tm).0
  step (selects_id id) tm = some (select_by_id id tm).0
  step (selects_next wrap) tm = some (select_next wrap tm)
  step (selects_previous wrap) tm = some (select_previous wrap tm)
  step selects_last tm = some (select_last tm)
  step (adds ws placement) tm = manager_of (add_workspace_with_placement ws placement tm)
  step (removes i) tm = manager_of (remove_or_panic i tm)
  step (removes_id id) tm = manager_of (remove_by_id_or_panic id tm)
  step (moves from to) tm = manager_of (move_or_panic from to tm)
  step (closes_others id) tm = manager_of (close_others id tm)
  step (closes_above id) tm = manager_of (close_above id tm)
  step (closes_below id) tm = manager_of (close_below id tm)

  pub run : List (Call F) → TabManager F → Option (TabManager F)
  unfolding step
  run [] tm = some tm
  run (c ∷ cs) tm = elim (step c tm) [ none ↦ none | some tm' ↦ run cs tm' ]

  pub remove_by_id-IsValid :
      (id : Uuid) (tm : TabManager F) → IsValid tm → IsValid (remove_by_id id tm).0
  unfolding remove_by_id
  remove_by_id-IsValid id tm v = elim (Option-cases (position (has_id id) tm.workspaces)) [
    | inl e ↦ rw (e, remove_by_id) v
    | inr (i, e) ↦ rw (e, remove_by_id) (remove-IsValid i tm v)
  ]

  abbrev Succeeds : Option (TabManager F) → Type 0
  Succeeds r = (tm : TabManager F) × (r ≡ some tm) × IsValid tm

  placement-Succeeds :
      (ws : Workspace F) (placement : NewWorkspacePlacement) (tm : TabManager F)
      → IsValid tm
      → Succeeds (manager_of (add_workspace_with_placement ws placement tm))
  unfolding add_workspace_with_placement
  placement-Succeeds ws end tm v = (_, refl, add_workspace-IsValid ws tm)
  placement-Succeeds ws after_current tm v =
      let (r, e, h) = after_current_total ws tm v in (r.0, rw e refl, h)
  placement-Succeeds ws top tm v = (_, refl, omega arith)

  closing-Succeeds :
      (close : TabManager F → Option (TabManager F × ℕ))
      → Closes close
      → (tm : TabManager F) → IsValid tm
      → Succeeds (manager_of (close tm))
  closing-Succeeds close c tm v = let (r, e, keeps) = c tm in (r.0, ap manager_of e, keeps v)

  result-Succeeds :
      {A : Type 0} {o : Option (TabManager F × A)} {r : TabManager F × A}
      → o ≡ some r
      → IsValid r.0
      → Succeeds (manager_of o)
  result-Succeeds e v = (_, ap manager_of e, v)

  step-Succeeds : (c : Call F) (tm : TabManager F) → IsValid tm → Succeeds (step c tm)
  unfolding step
  step-Succeeds (selects i) tm v = (_, refl, select-IsValid i tm v)
  step-Succeeds (selects_id id) tm v = (_, refl, select_by_id-IsValid id tm v)
  step-Succeeds (selects_next wrap) tm v = (_, refl, select_next-IsValid wrap tm v)
  step-Succeeds (selects_previous wrap) tm v = (_, refl, select_previous-IsValid wrap tm v)
  step-Succeeds selects_last tm v = (_, refl, select_last-IsValid tm v)
  step-Succeeds (adds ws placement) tm v = placement-Succeeds ws placement tm v
  step-Succeeds (removes i) tm v =
      result-Succeeds (remove_or_panic-remove i tm) (remove-IsValid i tm v)
  step-Succeeds (removes_id id) tm v =
      result-Succeeds (remove_by_id_or_panic-remove_by_id id tm) (remove_by_id-IsValid id tm v)
  step-Succeeds (moves from to) tm v =
      result-Succeeds (move_or_panic-move_workspace from to tm)
        (move_workspace-IsValid from to tm v)
  step-Succeeds (closes_others id) tm v = closing-Succeeds _ (close_others-Closes id) tm v
  step-Succeeds (closes_above id) tm v = closing-Succeeds _ (close_above-Closes id) tm v
  step-Succeeds (closes_below id) tm v = closing-Succeeds _ (close_below-Closes id) tm v

  -- From a valid manager no sequence of calls removes or inserts a workspace out of range, which
  -- panics, and at its end a workspace is selected, within the list, exactly when there is one.
  pub run_total :
      (cs : List (Call F)) (tm : TabManager F)
      → IsValid tm
      → (r : TabManager F) × (run cs tm ≡ some r) × IsValid r
  unfolding run
  run_total [] tm v = (tm, refl, v)
  run_total (c ∷ cs) tm v =
      let (u, e, h) = step-Succeeds c tm v in
      let (r, e', h') = run_total cs u h in (r, rw (e, run) e', h')
