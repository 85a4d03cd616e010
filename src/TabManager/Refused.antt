-- ===== src/TabManager/Refused.antt =====
-- cmux/src/model/tab_manager.rs: an operation that finds nothing to do changes nothing.
use cmux_gtk.Prelude.{Uuid, ℕ, ◌≡◌, false, none, arith}
use cmux_gtk.TabManager.{TabManager, select, select_by_id, remove, remove_by_id, move_workspace}

module _ {F : Type 0} (tm : TabManager F) where
  pub select_refused : (i : ℕ) → (select i tm).1 ≡ false → (select i tm).0 ≡ tm
  unfolding select
  select_refused i h = ground arith

  pub select_by_id_refused :
      (id : Uuid) → (select_by_id id tm).1 ≡ false → (select_by_id id tm).0 ≡ tm
  unfolding select_by_id
  select_by_id_refused id h = ground arith

  pub remove_refused : (i : ℕ) → (remove i tm).1 ≡ none → (remove i tm).0 ≡ tm
  unfolding remove
  remove_refused i h = ground arith

  pub remove_by_id_refused :
      (id : Uuid) → (remove_by_id id tm).1 ≡ none → (remove_by_id id tm).0 ≡ tm
  unfolding remove_by_id
  remove_by_id_refused id h = ground arith

  pub move_workspace_refused :
      (from to : ℕ) → (move_workspace from to tm).1 ≡ false → (move_workspace from to tm).0 ≡ tm
  unfolding move_workspace
  move_workspace_refused from to h = ground arith
