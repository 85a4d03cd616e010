-- ===== src/Session/Restore/Windows.antt =====
-- cmux/src/app.rs: the list of workspaces that is restored against the one that was saved.
use cmux_gtk.Prelude.{
  Uuid, ℕ, suc, ◌≡◌, refl, sym, ◌∙◌, ap, Str, Bool, true, false, not, Option, List, [], ◌∷◌, ◌++◌,
  map, is_empty_list, retain, append_one, append_nil, Bool-cases, inl, inr, Map, F64, IsOrdered,
  if◌then◌else◌,
}
use cmux_gtk.Panel.{Panel}
use cmux_gtk.Workspace.{Workspace}
use cmux_gtk.TabManager.{TabManager, IsValid, add_workspace}
use cmux_gtk.TabManager.Selection.{add_workspace-IsValid}
use cmux_gtk.Session.Snapshot.{Collected, make_ws_snapshot, panel_snapshot}
use cmux_gtk.Session.Restore.{AgentRestoreSettings, restore_workspace, restore_window}
use cmux_gtk.Session.Restore.Workspaces.{IsSavable, IsRestored, again-IsRestored}

module _ {F : Type 0} ⦃f : F64 F⦄ where
  abbrev pub AllSavable : List (Workspace F) → Type 0
  AllSavable [] = Unit
  AllSavable (w ∷ ws) = IsSavable w × AllSavable ws

  abbrev pub has_panels : Workspace F → Bool
  has_panels w = not (is_empty_list w.panels)

module _ {F : Type 0} ⦃f : F64 F⦄ (to_lowercase : Str → Str) (settings : AgentRestoreSettings)
    (c : Collected F) (home : Option Str) (window : Uuid) (new_ids : ℕ → Uuid × Uuid) where
  -- Each workspace of a list is restored in the same place of the other.
  abbrev pub AllRestored : List (Workspace F) → List (Workspace F) → Type 0
  AllRestored [] [] = Unit
  AllRestored [] (r ∷ rs) = false ≡ true
  AllRestored (w ∷ ws) [] = false ≡ true
  AllRestored (w ∷ ws) (r ∷ rs) =
      IsRestored to_lowercase settings c home window w r × AllRestored ws rs

  abbrev pub restored : ℕ → List (Workspace F) → TabManager F → TabManager F
  restored n ws tm =
      restore_window true settings home window new_ids n (map (make_ws_snapshot to_lowercase c) ws)
        tm

  pub snapshot_panels :
      (w : Workspace F)
      → is_empty_list (make_ws_snapshot to_lowercase c w).panels ≡ is_empty_list w.panels
  unfolding make_ws_snapshot
  snapshot_panels w = go w.panels
    where
      go :
          (m : Map (Panel F))
          → is_empty_list (map (λ (id, p). panel_snapshot to_lowercase c p) m) ≡ is_empty_list m
      go [] = refl
      go (x ∷ m) = refl

  -- The workspaces that had panels are back, in their order, after those that were there.
  abbrev pub IsBack : List (Workspace F) → TabManager F → TabManager F → Type 0
  IsBack ws tm r =
      (rs : List (Workspace F)) × (r.workspaces ≡ tm.workspaces ++ rs)
      × AllRestored ws rs
      × IsValid r

  abbrev back_again : ℕ → Workspace F → Workspace F
  back_again n w =
      restore_workspace true settings home window (new_ids n) (make_ws_snapshot to_lowercase c w)

  abbrev added : Bool → ℕ → Workspace F → TabManager F → TabManager F
  added b n w tm = if b then tm else (add_workspace (back_again n w) tm).0

  restored_step :
      (n : ℕ) (w : Workspace F) (ws : List (Workspace F)) (tm : TabManager F)
      → restored n (w ∷ ws) tm ≡ restored (suc n) ws (added (is_empty_list w.panels) n w tm)
  unfolding restore_window
  restored_step n w ws tm = ap (λ b. restored (suc n) ws (added b n w tm)) (snapshot_panels w)

  -- The workspaces of one window that have panels are back, in their order, behind those that are
  -- there.
  pub restored-IsBack :
      (law : IsOrdered f) (n : ℕ) (ws : List (Workspace F)) (tm : TabManager F)
      → AllSavable ws
      → IsValid tm
      → IsBack (retain has_panels ws) tm (restored n ws tm)
  unfolding restore_window add_workspace
  restored-IsBack law n [] tm s v = ([], sym (append_nil tm.workspaces), tt, v)
  restored-IsBack law n (w ∷ ws) tm (sw, s) v = elim (Bool-cases (is_empty_list w.panels)) [
    | inl e ↦ rw (restored_step n w ws tm, e) (restored-IsBack law (suc n) ws tm s v)
    | inr e ↦
        let x = back_again n w in
        let (rs, same, all, ok) =
          restored-IsBack law (suc n) ws (add_workspace x tm).0 s (add_workspace-IsValid x tm) in
        rw (restored_step n w ws tm, e)
          (
            x ∷ rs,
            same ∙ append_one x tm.workspaces rs,
            (again-IsRestored to_lowercase settings c home window law (new_ids n) w sw, all),
            ok,
          )
  ]
