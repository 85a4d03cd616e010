-- ===== src/Socket/Answer/Moves.antt =====
-- cmux/src/socket/v2/pane.rs: the answers to the requests that move a panel to another workspace.
use cmux_gtk.Prelude.{
  Uuid, Str, leb, ◌==◌, length, ◌≡◌, refl, get, Option, none, some, F64, Bool-cases, Option-cases,
  inl, inr, arith,
}
use cmux_gtk.Layout.{SplitOrientation}
use cmux_gtk.Panel.{Panel}
use cmux_gtk.Workspace.{Workspace, detach_panel, insert_panel}
use cmux_gtk.TabManager.{TabManager, IsValid, selected_id, workspace}
use cmux_gtk.TabManager.Selection.{add_workspace-IsValid}
use cmux_gtk.TabManager.Panels.{find_workspace_with_panel, update_workspace, is_emptied}
use cmux_gtk.TabManager.Panels.Moved.{update_workspace-IsValid, drop_if, move_panel_cases}
use cmux_gtk.Socket.{Json, SharedState, notify_ui_refresh, send_ui_event}
use cmux_gtk.Socket.Params.Readings.{resolve_panel_id-IsParam}
use cmux_gtk.Socket.Targets.{by_panel, find_target, edit_target}
use cmux_gtk.Socket.PaneMove.{
  workspace_of, drop_emptied, break_detached, break_panel, handle_pane_break, join_detached,
  join_panel, handle_pane_join, answer_move, move_panel, handle_panel_move_to_workspace,
}
use cmux_gtk.Socket.Answer.{
  IsAnswer, refused, missing, missing-same, done, ok_or-bad, bind-IsAnswer,
}
use cmux_gtk.Socket.Answer.Edits.{edit_target_same, update_workspace_same}

module _ {F : Type 0} where
  drop_emptied-IsValid :
      (source : Uuid) (tm : TabManager F) → IsValid tm → IsValid (drop_emptied source tm)
  unfolding drop_emptied
  drop_emptied-IsValid source tm v = drop_if (is_emptied (workspace source tm)) source tm v

  detach_panel_refused :
      (p : Uuid) (w : Workspace F) → (detach_panel p w).1 ≡ none → (detach_panel p w).0 ≡ w
  unfolding detach_panel
  detach_panel_refused p w h = elim (Option-cases (get p w.panels)) [
    | inl e ↦ rw (detach_panel, e) refl
    | inr (q, e) ↦ absurd (ground arith)
  ]

module _ {V F : Type 0} ⦃j : Json V⦄ (id params : V) (state : SharedState F)
    (v : IsValid state.tab_manager) where
  break_detached-IsAnswer :
      (home : Option Str) (ws_id default_id p : Uuid) (source : Workspace F)
      (r : Workspace F × Option (Panel F))
      → find_target (by_panel p) state.tab_manager ≡ some source
      → (r.1 ≡ none → r.0 ≡ source)
      → IsAnswer id state (break_detached id home ws_id default_id p source r state)
  unfolding break_detached notify_ui_refresh send_ui_event
  break_detached-IsAnswer home ws_id default_id p source (rest, none) e same =
      missing-same id state (edit_target (by_panel p) (λ _. rest) state.tab_manager) _
        (edit_target_same (λ _. rest) source (same refl) (by_panel p) state.tab_manager e)
  break_detached-IsAnswer home ws_id default_id p source (rest, some q) e same = done _ _ (
      add_workspace-IsValid (workspace_of home ws_id default_id source.current_directory p q)
        (drop_emptied source.id (edit_target (by_panel p) (λ _. rest) state.tab_manager)))

  break_panel-IsAnswer :
      (home : Option Str) (ws_id default_id p : Uuid)
      → IsAnswer id state (break_panel id home ws_id default_id p state)
  unfolding break_panel find_target
  break_panel-IsAnswer home ws_id default_id p =
      elim (Option-cases (find_workspace_with_panel p state.tab_manager)) [
        | inl e ↦ rw (break_panel, e) (missing _)
        | inr (source, e) ↦ elim (Bool-cases (leb (length source.panels) 1)) [
          | inl y ↦ rw (break_panel, e, y) (refused _)
          | inr n ↦
              rw (break_panel, e, n)
                (break_detached-IsAnswer home ws_id default_id p source (detach_panel p source) e
                  (detach_panel_refused p source))
        ]
      ]

  pub pane_break-IsAnswer :
      (home : Option Str) (ws_id default_id : Uuid)
      → IsAnswer id state (handle_pane_break home ws_id default_id id params state)
  unfolding handle_pane_break
  pane_break-IsAnswer home ws_id default_id =
      bind-IsAnswer id _ (resolve_panel_id-IsParam id params state)
        (λ p. break_panel-IsAnswer home ws_id default_id p)

module _ {V F : Type 0} ⦃j : Json V⦄ ⦃f : F64 F⦄ (id params : V) (state : SharedState F)
    (v : IsValid state.tab_manager) where
  join_detached-IsAnswer :
      (o : SplitOrientation) (p source target : Uuid) (w : Workspace F)
      (r : Workspace F × Option (Panel F))
      → workspace source state.tab_manager ≡ some w
      → (r.1 ≡ none → r.0 ≡ w)
      → IsAnswer id state (join_detached id o p source target r state)
  unfolding join_detached notify_ui_refresh send_ui_event
  join_detached-IsAnswer o p source target w (rest, none) e same =
      missing-same id state (update_workspace source (λ _. rest) state.tab_manager) _
        (update_workspace_same (λ _. rest) w (same refl) source state.tab_manager e)
  join_detached-IsAnswer o p source target w (rest, some q) e same = done _ _ (
      update_workspace-IsValid target (λ x. (insert_panel q o x).0)
        (drop_emptied source (update_workspace source (λ _. rest) state.tab_manager))
        (drop_emptied-IsValid source (update_workspace source (λ _. rest) state.tab_manager)
          (update_workspace-IsValid source (λ _. rest) state.tab_manager v)))

  join_panel-IsAnswer :
      (o : SplitOrientation) (p : Uuid) → IsAnswer id state (join_panel id o p state)
  unfolding join_panel
  join_panel-IsAnswer o p = elim (Option-cases (selected_id state.tab_manager)) [
    | inl e ↦ rw (join_panel, e) (missing _)
    | inr (target, e) ↦ elim (Option-cases (find_workspace_with_panel p state.tab_manager)) [
      | inl g ↦ rw (join_panel, e, g) (missing _)
      | inr (source, g) ↦ elim (Bool-cases (source.id == target)) [
        | inl y ↦ rw (join_panel, e, g, y) (refused _)
        | inr n ↦ elim (Option-cases (workspace source.id state.tab_manager)) [
          | inl k ↦ rw (join_panel, e, g, n, k) (missing _)
          | inr (w, k) ↦
              rw (join_panel, e, g, n, k)
                (join_detached-IsAnswer o p source.id target w (detach_panel p w) k
                  (detach_panel_refused p w))
        ]
      ]
    ]
  ]

  pub pane_join-IsAnswer : IsAnswer id state (handle_pane_join id params state)
  unfolding handle_pane_join
  pane_join-IsAnswer =
      bind-IsAnswer id _ (ok_or-bad id _ _)
        (λ text. bind-IsAnswer id _ (ok_or-bad id _ _) (λ p. join_panel-IsAnswer _ p))

  move_panel-IsAnswer : (p target : Uuid) → IsAnswer id state (move_panel id p target state)
  unfolding move_panel answer_move notify_ui_refresh send_ui_event
  move_panel-IsAnswer p target = elim (Option-cases (workspace target state.tab_manager)) [
    | inl e ↦ rw (move_panel, e) (missing _)
    | inr (w, e) ↦ elim (move_panel_cases p target state.tab_manager v) [
      | inl k ↦ rw (move_panel, e, k) (refused _)
      | inr (after, k, valid) ↦ rw (move_panel, e, k) (done _ _ valid)
    ]
  ]

  pub move_to_workspace-IsAnswer :
      IsAnswer id state (handle_panel_move_to_workspace id params state)
  unfolding handle_panel_move_to_workspace
  move_to_workspace-IsAnswer = bind-IsAnswer id _ (resolve_panel_id-IsParam id params state) (λ p.
      bind-IsAnswer id _ (ok_or-bad id _ _)
        (λ text. bind-IsAnswer id _ (ok_or-bad id _ _) (λ target. move_panel-IsAnswer p target)))
