-- ===== src/Session/Grouping/Restored.antt =====
-- cmux/src/session/store.rs and cmux/src/app.rs: what the windows of a saved session bring back.
use cmux_gtk.Prelude.{
  Uuid, ℕ, suc, ◌≡◌, Str, Option, List, [], ◌∷◌, ◌++◌, is_empty_list, retain, F64, if◌then◌else◌,
}
use cmux_gtk.Workspace.{Workspace}
use cmux_gtk.TabManager.{TabManager, IsValid}
use cmux_gtk.Session.Snapshot.{Collected}
use cmux_gtk.Session.Restore.{AgentRestoreSettings}
use cmux_gtk.Session.Restore.Windows.{AllRestored, has_panels}
use cmux_gtk.Session.Grouping.Keys.{in_window}

module _ {F : Type 0} ⦃f : F64 F⦄ (to_lowercase : Str → Str) (settings : AgentRestoreSettings)
    (c : Collected F) (home : Option Str) (new_windows : ℕ → Uuid) (new_ids : ℕ → Uuid × Uuid) where
  -- The workspaces of a window that have panels.
  abbrev pub kept : ℕ → List (Workspace F) → List (Workspace F)
  kept k ws = retain has_panels (in_window k ws)

  -- The workspaces restored, window after window; one of which nothing is kept gets no identifier.
  abbrev pub InWindows : List (Workspace F) → List ℕ → ℕ → List (Workspace F) → Type 0
  InWindows ws [] i rs = rs ≡ []
  InWindows ws (k ∷ ks) i rs =
      (here : List (Workspace F)) × (rest : List (Workspace F)) × (rs ≡ here ++ rest)
      × AllRestored to_lowercase settings c home (new_windows i) new_ids (kept k ws) here
      × InWindows ws ks (if is_empty_list (kept k ws) then i else suc i) rest

  abbrev pub AreBack : List (Workspace F) → List ℕ → ℕ → TabManager F → TabManager F → Type 0
  AreBack ws ks i tm r =
      (rs : List (Workspace F)) × (r.workspaces ≡ tm.workspaces ++ rs)
      × InWindows ws ks i rs
      × IsValid r
