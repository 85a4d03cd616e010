-- ===== src/Session/Restore/Examples.antt =====
-- cmux/src/app.rs: tests of saving and restoring workspaces with the panels 1 and 2.
use cmux_gtk.Prelude.{ℕ, ◌+◌, ◌≡◌, refl, true, some, none, List, [], ◌∷◌, map, length, codes, milli}
use cmux_gtk.Layout
use cmux_gtk.Workspace.{Workspace, new_workspace, split_workspace}
use cmux_gtk.Workspace.Examples.{one_panel, two_panels}
use cmux_gtk.TabManager.{TabManager, add_workspace}
use cmux_gtk.Session.Snapshot.{Collected, make_ws_snapshot}
use cmux_gtk.Session.Restore.{AgentRestoreSettings, restore_window}
use cmux_gtk.Session.Restore.Windows.{restored}
use cmux_gtk.Session.Grouping.{create_windows}

abbrev all_agents : AgentRestoreSettings
all_agents = record {
  claude_code = true;
  codex = true;
  opencode = true;
  gemini = true;
  rovo_dev = true;
  cursor = true;
  grok = true;
  amp = true;
  pi = true;
  hermes = true;
  antigravity = true;
}

abbrev collected : Collected ℕ
collected = record {
  scrollback_map = (1, codes "ls") ∷ [];
  browser_zoom_map = (2, 1100) ∷ [];
  browser_url_map = [];
  browser_history_map = [];
  split_ratio_persist = true;
}

abbrev none_yet : TabManager ℕ
none_yet = record { workspaces = []; selected_index = none }

abbrev saved : List (Workspace ℕ)
saved = two_panels ∷ one_panel ∷ []

-- The second workspace is in the window 5, the first in none.
abbrev in_windows : List (Workspace ℕ)
in_windows = record one_panel { window_id = some 5 } ∷ two_panels ∷ []

-- Workspaces of no window come first.
grouped :
    map (λ group. map (λ s. length s.panels) group) (create_windows (λ s. s) collected in_windows)
    ≡ (2 ∷ []) ∷ (1 ∷ []) ∷ []
unfolding create_windows make_ws_snapshot new_workspace split_workspace
grouped = refl

-- The last workspace is selected, whichever was selected when the session was saved.
last_selected :
    (restored
      (λ s. s)
      all_agents
      collected
      none
      7
      (λ n. (n + 300, n + 400))
      0
      saved
      none_yet).selected_index
    ≡ some 1
unfolding restore_window make_ws_snapshot add_workspace split_workspace new_workspace
last_selected = refl
