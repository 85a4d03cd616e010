-- ===== src/Socket/Answer/Panes.antt =====
-- cmux/src/socket/v2/pane.rs: the answers to the requests that focus, close, swap, zoom, split and
-- resize panels.
use cmux_gtk.Prelude.{
  Uuid, codes, ◌≡◌, refl, ap, ◌∙◌, true, false, not, ◌||◌, Option, none, some, or_else, contains,
  contains_key, get, Bool-cases, Option-cases, inl, inr, arith,
}
use cmux_gtk.Layout.{Direction, all_panel_ids, select_panel}
use cmux_gtk.Layout.Refused.{select_panel_refused}
use cmux_gtk.Layout.Swap.{swap_panels-ids}
use cmux_gtk.Workspace.{Workspace, focus_panel, remove_panel, is_empty}
use cmux_gtk.Workspace.Validity.{contains_of_key}
use cmux_gtk.Workspace.Validity
use cmux_gtk.TabManager.{TabManager, IsValid, selected}
use cmux_gtk.TabManager.Runs.{remove_by_id-IsValid}
use cmux_gtk.Socket.{Json, SharedState, ok, ok_or, invalid_params, notify_ui_refresh, send_ui_event}
use cmux_gtk.Socket.Params.{try, and_then, non_null, get_either}
use cmux_gtk.Socket.Params.Readings.{workspace_param-IsParam, resolve_panel_id-IsParam}
use cmux_gtk.Socket.Targets.{Target, current, by_panel, by_id_or_current, find_target, edit_target}
use cmux_gtk.Socket.Pane.{
  prune, pane_param, panel_to_close, close_panel, focus_previous, swap_layout, swap_found,
  focus_neighbor, toggle_zoom, handle_pane_focus, handle_pane_close, handle_pane_last,
  handle_pane_swap, handle_pane_focus_direction, handle_panel_toggle_zoom,
}
use cmux_gtk.Socket.Answer.{
  IsAnswer, missing, missing-same, done, IsParam, read, ok_or-bad, ok_or-absent, try-IsParam,
  bind-IsAnswer,
}
use cmux_gtk.Socket.Answer.Edits.{try_edit-IsAnswer, edit_target-IsValid, edit_target_same}

module _ {F : Type 0} where
  pub focus_panel_refused :
      (p : Uuid) (w : Workspace F) → (focus_panel p w).1 ≡ false → (focus_panel p w).0 ≡ w
  unfolding focus_panel
  focus_panel_refused p w h = elim (Bool-cases (contains_key p w.panels)) [
    | inr n ↦ rw n refl
    | inl e ↦ elim (Bool-cases (select_panel p w.layout).1) [
      | inl y ↦ absurd (ground arith)
      | inr n ↦ rw (e, n) (ap (λ l. record w { layout = l }) (select_panel_refused p w.layout n))
    ]
  ]

  remove_panel_refused :
      (p : Uuid) (w : Workspace F) → (remove_panel p w).1 ≡ false → (remove_panel p w).0 ≡ w
  unfolding remove_panel
  remove_panel_refused p w h = elim (Option-cases (get p w.panels)) [
    | inl e ↦ rw (remove_panel, e) refl
    | inr (q, e) ↦ absurd (ground arith)
  ]

  pub prune-IsValid : (w : Workspace F) (tm : TabManager F) → IsValid tm → IsValid (prune w tm)
  unfolding prune
  prune-IsValid w tm v = elim (Bool-cases (is_empty w)) [
    | inl e ↦ rw (prune, e) (remove_by_id-IsValid w.id tm v)
    | inr n ↦ rw (prune, n) v
  ]

  -- Two panels of a valid workspace can be swapped.
  swap_layout_succeeds :
      (a b : Uuid) (w : Workspace F)
      → Validity.IsValid w
      → contains_key a w.panels ≡ true
      → (swap_layout a b w).1 ≡ true
  unfolding swap_layout
  swap_layout_succeeds a b w v h =
      (swap_panels-ids a b w.layout).1
      ∙ ap (λ c. c || contains b (all_panel_ids w.layout)) (contains_of_key v a h)

module _ {V : Type 0} ⦃j : Json V⦄ (id params : V) where
  pane_param-IsParam : IsParam id (pane_param id params)
  unfolding pane_param
  pane_param-IsParam = go (
      and_then
        (or_else (get_either params (codes "panel") (codes "surface")) (j.get params (codes "id")))
        non_null)
    where
      go :
          (o : Option V)
          → IsParam id (elim o [
            | none ↦ ok none
            | some v ↦
                try
                  (ok_or (j.as_str v) (invalid_params id (codes "panel/id must be a string")))
                  (λ s.
                    try
                      (ok_or
                        (j.parse_uuid s)
                        (invalid_params id (codes "Invalid panel UUID format")))
                      (λ pid. ok (some pid)))
          ])
      go none = read none
      go (some v) =
          try-IsParam id (ok_or-bad id (j.as_str v) _)
            (λ s. try-IsParam id (ok_or-bad id (j.parse_uuid s) _) (λ pid. read (some pid)))

module _ {V F : Type 0} ⦃j : Json V⦄ (id params : V) (state : SharedState F)
    (v : IsValid state.tab_manager) where
  pub pane_focus-IsAnswer : IsAnswer id state (handle_pane_focus id params state)
  unfolding handle_pane_focus
  pane_focus-IsAnswer = bind-IsAnswer id _ (pane_param-IsParam id params) (λ given.
      bind-IsAnswer id _ (ok_or-bad id given _) (λ pid.
        try_edit-IsAnswer id state v _ _ (by_panel pid) (focus_panel pid) _
          (λ w e n. focus_panel_refused pid w n)))

  close_panel-IsAnswer : (pid : Uuid) → IsAnswer id state (close_panel id pid state)
  unfolding close_panel notify_ui_refresh send_ui_event
  close_panel-IsAnswer pid = elim (Option-cases (find_target (by_panel pid) state.tab_manager)) [
    | inl e ↦ rw (close_panel, e) (missing _)
    | inr (w, e) ↦
        let edit : Workspace F → Workspace F = λ x. (remove_panel pid x).0 in
        elim (Bool-cases (remove_panel pid w).1) [
          | inl y ↦
              rw (close_panel, e, y)
                (done _ _ (
                  prune-IsValid (remove_panel pid w).0
                    (edit_target (by_panel pid) edit state.tab_manager)
                    (edit_target-IsValid (by_panel pid) edit state.tab_manager v)))
          | inr n ↦
              rw (close_panel, e, n)
                (missing-same id state (edit_target (by_panel pid) edit state.tab_manager) _ (
                  edit_target_same edit w (remove_panel_refused pid w n) (by_panel pid)
                    state.tab_manager e))
        ]
  ]

  panel_to_close-IsParam :
      (given : Option Uuid) (tm : TabManager F) → IsParam id (panel_to_close id given tm)
  unfolding panel_to_close
  panel_to_close-IsParam (some pid) tm = read pid
  panel_to_close-IsParam none tm =
      try-IsParam id (ok_or-absent id (selected tm) _) (λ w. ok_or-absent id w.focused_panel_id _)

  pub pane_close-IsAnswer : IsAnswer id state (handle_pane_close id params state)
  unfolding handle_pane_close
  pane_close-IsAnswer = bind-IsAnswer id _ (pane_param-IsParam id params) (λ given.
      bind-IsAnswer id _ (panel_to_close-IsParam given state.tab_manager)
        (λ pid. close_panel-IsAnswer pid))

  focus_previous-IsAnswer :
      (target : Target) (w : Workspace F) → IsAnswer id state (focus_previous id target w state)
  unfolding focus_previous notify_ui_refresh send_ui_event
  focus_previous-IsAnswer target w = bind-IsAnswer id _ (ok_or-absent id _ _) (λ pid.
      elim (Bool-cases (contains_key pid w.panels)) [
        | inl y ↦
            rw y (
              done _ _
                (edit_target-IsValid target (λ x. (focus_panel pid x).0) state.tab_manager v))
        | inr n ↦ rw n (missing _)
      ])

  pub pane_last-IsAnswer : IsAnswer id state (handle_pane_last id params state)
  unfolding handle_pane_last
  pane_last-IsAnswer = bind-IsAnswer id _ (workspace_param-IsParam id params) (λ ws_id.
      bind-IsAnswer id _ (ok_or-absent id _ _)
        (λ w. focus_previous-IsAnswer (by_id_or_current ws_id) w))

  focus_neighbor-IsAnswer :
      (direction : Direction) (w : Workspace F)
      → IsAnswer id state (focus_neighbor id direction w state)
  unfolding focus_neighbor notify_ui_refresh send_ui_event
  focus_neighbor-IsAnswer direction w = bind-IsAnswer id _ (ok_or-absent id _ _) (λ here.
      bind-IsAnswer id _ (ok_or-absent id _ _) (λ there.
        done _ _ (edit_target-IsValid current (λ x. (focus_panel there x).0) state.tab_manager v)))

  pub focus_direction-IsAnswer : IsAnswer id state (handle_pane_focus_direction id params state)
  unfolding handle_pane_focus_direction
  focus_direction-IsAnswer = bind-IsAnswer id _ (ok_or-bad id _ _) (λ text.
      bind-IsAnswer id _ (ok_or-bad id _ _) (λ direction.
        bind-IsAnswer id _ (ok_or-absent id _ _) (λ w. focus_neighbor-IsAnswer direction w)))

  pub toggle_zoom-IsAnswer : IsAnswer id state (handle_panel_toggle_zoom id params state)
  unfolding handle_panel_toggle_zoom notify_ui_refresh send_ui_event
  toggle_zoom-IsAnswer = bind-IsAnswer id _ (resolve_panel_id-IsParam id params state) (λ pid.
      elim (Option-cases (find_target (by_panel pid) state.tab_manager)) [
        | inl e ↦ rw e (missing _)
        | inr (w, e) ↦
            rw e
              (done _ _ (edit_target-IsValid (by_panel pid) (toggle_zoom pid) state.tab_manager v))
      ])

  module _
      (sound : (w : Workspace F) → selected state.tab_manager ≡ some w → Validity.IsValid w) where
    swap_found-IsAnswer : (a b : Uuid) → IsAnswer id state (swap_found id a b state)
    unfolding swap_found find_target
    swap_found-IsAnswer a b = elim (Option-cases (selected state.tab_manager)) [
      | inl e ↦ rw (swap_found, e) (missing _)
      | inr (w, e) ↦
          elim (Bool-cases (not (contains_key a w.panels) || not (contains_key b w.panels))) [
            | inl y ↦ rw (swap_found, e, y) (missing _)
            | inr n ↦
                rw (swap_found, e, n)
                  (try_edit-IsAnswer id state v _ _ current (swap_layout a b) _ (λ x g f.
                    let same : x ≡ w = ground (arith, g, e) in
                    absurd (
                      ground (
                        arith,
                        f,
                        swap_layout_succeeds a b x (sound x g) (rw same (ground (arith, n))),
                      ))))
          ]
    ]

    pub pane_swap-IsAnswer : IsAnswer id state (handle_pane_swap id params state)
    unfolding handle_pane_swap
    pane_swap-IsAnswer = bind-IsAnswer id _ (ok_or-bad id _ _) (λ a_str.
        bind-IsAnswer id _ (ok_or-bad id _ _) (λ b_str.
          bind-IsAnswer id _ (ok_or-bad id _ _)
            (λ a. bind-IsAnswer id _ (ok_or-bad id _ _) (λ b. swap_found-IsAnswer a b))))
