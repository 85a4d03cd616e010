-- ===== src/TabManager/Closing.antt =====
-- cmux/src/model/tab_manager.rs: closing all other workspaces, those above and those below.
pub mod Survivors
pub mod Result
pub mod Valid
use mathlib.Core.List.{reverse}
use cmux_gtk.Prelude.{
  Uuid, ℕ, suc, ◌+◌, ◌-◌, leb, ◌==◌, ◌≡◌, ap, Bool, not, ◌&&◌, Option, none, some, ltb, List, [],
  ◌∷◌, length, take, drop, remove_at, position, is_empty_list, if◌then◌else◌,
}
use cmux_gtk.Workspace.{Workspace}
use cmux_gtk.TabManager.{TabManager, has_id, workspace_index}

module _ {F : Type 0} where
  -- The indices, counted from `i`, of the workspaces that pass the test.
  abbrev pub indices : (Workspace F → Bool) → ℕ → List (Workspace F) → List ℕ
  indices test i [] = []
  indices test i (ws ∷ xs) =
      if test ws then i ∷ indices test (suc i) xs else indices test (suc i) xs

  -- `for &i in to_remove { workspaces.remove(i) }`; `Vec::remove` panics out of range: `none`.
  abbrev pub remove_each : List ℕ → List (Workspace F) → Option (List (Workspace F))
  remove_each [] xs = some xs
  remove_each (i ∷ is) xs = if ltb i (length xs) then remove_each is (remove_at i xs) else none

  -- What follows a loop that did not panic.
  abbrev pub after_loop :
      Option (List (Workspace F))
      → (List (Workspace F) → TabManager F × ℕ)
      → Option (TabManager F × ℕ)
  after_loop none k = none
  after_loop (some rest) k = some (k rest)

  pub after_loop_lem :
      {o : Option (List (Workspace F))} {ys : List (Workspace F)}
      → (k : List (Workspace F) → TabManager F × ℕ) → o ≡ some ys
      → after_loop o k ≡ some (k ys)
  after_loop_lem k h = ap (λ o. after_loop o k) h

  unfoldable pub close_others : Uuid → TabManager F → Option (TabManager F × ℕ)
  close_others keep_id tm =
      let doomed = indices (λ ws. not (ws.id == keep_id) && not ws.is_pinned) 0 tm.workspaces in
      after_loop (remove_each (reverse doomed) tm.workspaces) (λ rest. (
        record {
          workspaces = rest;
          selected_index = elim (position (has_id keep_id) rest) [
            | some i ↦ some i
            | none ↦ if is_empty_list rest then none else some 0
          ];
        },
        length doomed,
      ))

  unfoldable pub close_above : Uuid → TabManager F → Option (TabManager F × ℕ)
  unfolding workspace_index
  close_above id tm = elim (workspace_index id tm) [
    | none ↦ some (tm, 0)
    | some target ↦
        let doomed = indices (λ ws. not ws.is_pinned) 0 (take target tm.workspaces) in
        after_loop (remove_each (reverse doomed) tm.workspaces) (λ rest. (
          record {
            workspaces = rest;
            selected_index = elim (position (has_id id) rest) [
              | some i ↦ some i
              | none ↦ tm.selected_index
            ];
          },
          length doomed,
        ))
  ]

  unfoldable pub close_below : Uuid → TabManager F → Option (TabManager F × ℕ)
  unfolding workspace_index
  close_below id tm = elim (workspace_index id tm) [
    | none ↦ some (tm, 0)
    | some target ↦
        let doomed =
          indices (λ ws. not ws.is_pinned) (target + 1) (drop (target + 1) tm.workspaces) in
        after_loop (remove_each (reverse doomed) tm.workspaces) (λ rest. (
          record {
            workspaces = rest;
            selected_index = elim tm.selected_index [
              | none ↦ none
              | some sel ↦ if leb (length rest) sel then some (length rest - 1) else some sel
            ];
          },
          length doomed,
        ))
  ]
