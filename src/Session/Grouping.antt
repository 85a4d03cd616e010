-- ===== src/Session/Grouping.antt =====
-- cmux/src/session/store.rs and cmux/src/app.rs: the workspaces of a session by the window that they
-- are in, as `create_snapshot` groups them and `restore_session` goes through them.
pub mod Keys
pub mod Restored
use cmux_gtk.Prelude.{
  Uuid, ℕ, zero, suc, ◌+◌, ◌==◌, ltb, not, Str, Bool, false, ◌||◌, Option, none, some, List, [],
  ◌∷◌, ◌++◌, map, length, is_empty_list, F64, if◌then◌else◌,
}
use cmux_gtk.Workspace.{Workspace}
use cmux_gtk.TabManager.{TabManager}
use cmux_gtk.Session.Snapshot.{SessionWorkspaceSnapshot, Collected, make_ws_snapshot}
use cmux_gtk.Session.Restore.{AgentRestoreSettings, restore_window}

-- The place of a key in the order of `Option<Uuid>`: `None` comes first.
abbrev pub key_of : Option Uuid → ℕ
key_of none = 0
key_of (some id) = suc id

module _ {ℓ} {A : Type ℓ} where
  -- `entry(key).or_default().push(x)` on a `BTreeMap`, whose entries stand in the order of the keys.
  abbrev pub push_entry : ℕ → A → List (ℕ × List A) → List (ℕ × List A)
  push_entry k x [] = (k, x ∷ []) ∷ []
  push_entry k x ((k', xs) ∷ m) =
      if k == k'
      then (k', xs ++ x ∷ []) ∷ m
      else if ltb k k'
      then (k, x ∷ []) ∷ (k', xs) ∷ m
      else (k', xs) ∷ push_entry k x m

module _ {F : Type 0} ⦃f : F64 F⦄ where
  -- The loop that fills `window_map`.
  abbrev pub window_map :
      (Str → Str)
      → Collected F
      → List (Workspace F)
      → List (ℕ × List (SessionWorkspaceSnapshot F))
      → List (ℕ × List (SessionWorkspaceSnapshot F))
  window_map to_lowercase c [] m = m
  window_map to_lowercase c (ws ∷ more) m =
      window_map to_lowercase c more
        (push_entry (key_of ws.window_id) (make_ws_snapshot to_lowercase c ws) m)

  -- The workspaces of the windows of a snapshot; the rest of a window is its frame and its sidebar.
  unfoldable pub create_windows :
      (Str → Str) → Collected F → List (Workspace F) → List (List (SessionWorkspaceSnapshot F))
  create_windows to_lowercase c workspaces =
      map (λ (_, group). group) (window_map to_lowercase c workspaces [])

  -- The test of `live_windows`.
  abbrev pub is_live : List (SessionWorkspaceSnapshot F) → Bool
  is_live [] = false
  is_live (s ∷ more) = not (is_empty_list s.panels) || is_live more

  -- The loop over the live windows: the window with the number `i` of them gets `new_windows i`.
  pub restore_windows :
      Bool
      → AgentRestoreSettings
      → Option Str
      → (ℕ → Uuid)
      → (ℕ → Uuid × Uuid)
      → ℕ
      → ℕ
      → List (List (SessionWorkspaceSnapshot F))
      → TabManager F
      → TabManager F
  restore_windows webkit settings home new_windows new_ids i n [] tm = tm
  restore_windows webkit settings home new_windows new_ids i n (group ∷ more) tm =
      let live =
        restore_windows webkit settings home new_windows new_ids (suc i) (n + length group) more
          (restore_window webkit settings home (new_windows i) new_ids n group tm) in
      let dropped = restore_windows webkit settings home new_windows new_ids i n more tm in
      if is_live group then live else dropped
