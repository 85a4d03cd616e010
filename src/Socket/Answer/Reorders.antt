-- ===== src/Socket/Answer/Reorders.antt =====
-- cmux/src/socket/v2/workspace.rs: the answers to the requests that move workspaces in the list.
use cmux_gtk.Prelude.{
  ℕ, suc, ◌==◌, ◌^◌, refl, Uuid, Str, codes, ◌≡◌, Bool, true, false, Option, none, some, List, [],
  ◌∷◌, is_empty_list, get_elem?, find, list_eq, Bool-cases, Option-cases, inl, inr,
}
use cmux_gtk.ProcStatus.{parse_unsigned}
use cmux_gtk.Workspace.{Workspace, display_title}
use cmux_gtk.TabManager.{TabManager, IsValid, move_workspace, workspace_index}
use cmux_gtk.TabManager.Selection.{move_workspace-IsValid}
use cmux_gtk.TabManager.Refused.{move_workspace_refused}
use cmux_gtk.Socket.{Json, SharedState, notify_ui_refresh, send_ui_event}
use cmux_gtk.Socket.Params.Readings.{parse_usize_param-IsParam}
use cmux_gtk.Socket.Describe.{filter_map}
use cmux_gtk.Socket.Reorder.{
  id_or, order_of, place, place_all, resolve_name, resolve_names, answer_reorder_workspaces,
  handle_workspace_reorder_workspaces, answer_reorder, handle_workspace_reorder,
}
use cmux_gtk.Socket.Answer.{
  IsAnswer, refused, refused-same, done, IsParam, absent, read, ok_or-bad, try-IsParam,
  bind-IsAnswer,
}

module _ {F : Type 0} where
  place-IsValid : (i : ℕ) (id : Uuid) (tm : TabManager F) → IsValid tm → IsValid (place i id tm)
  unfolding place
  place-IsValid i id tm v = elim (Option-cases (workspace_index id tm)) [
    | inl e ↦ rw (place, e) v
    | inr (at, e) ↦ elim (Bool-cases (at == i)) [
      | inl y ↦ rw (place, e, y) v
      | inr n ↦ rw (place, e, n) (move_workspace-IsValid at i tm v)
    ]
  ]

  place_all-IsValid :
      (ids : List Uuid) (i : ℕ) (tm : TabManager F) → IsValid tm → IsValid (place_all i ids tm)
  unfolding place_all
  place_all-IsValid [] i tm v = v
  place_all-IsValid (id ∷ ids) i tm v =
      place_all-IsValid ids (suc i) (place i id tm) (place-IsValid i id tm v)

module _ {V F : Type 0} (decimal : ℕ → Str) (id : V) (tm : TabManager F) where
  id_or-IsParam :
      (o : Option (Workspace F)) (message : Str) → IsParam id (id_or decimal id o message)
  id_or-IsParam none message = absent message
  id_or-IsParam (some ws) message = read ws.id

  resolve_name-IsParam : (name : Str) → IsParam id (resolve_name decimal id tm name)
  unfolding resolve_name
  resolve_name-IsParam name = elim (Option-cases (parse_unsigned (2 ^ 64) name)) [
    | inl e ↦
        rw (resolve_name, e)
          (id_or-IsParam (find (λ ws. list_eq (display_title ws) name) tm.workspaces) _)
    | inr (i, e) ↦ rw (resolve_name, e) (id_or-IsParam (get_elem? tm.workspaces i) _)
  ]

  resolve_names-IsParam : (names : List Str) → IsParam id (resolve_names decimal id tm names)
  unfolding resolve_names
  resolve_names-IsParam [] = read []
  resolve_names-IsParam (name ∷ names) =
      try-IsParam id (resolve_name-IsParam name) (λ target.
        try-IsParam id (resolve_names-IsParam names) (λ targets. read (target ∷ targets)))

module _ {V F : Type 0} ⦃j : Json V⦄ (id params : V) (state : SharedState F)
    (v : IsValid state.tab_manager) where
  pub reorder_workspaces-IsAnswer :
      (decimal : ℕ → Str)
      → IsAnswer id state (handle_workspace_reorder_workspaces decimal id params state)
  unfolding handle_workspace_reorder_workspaces answer_reorder_workspaces notify_ui_refresh
      send_ui_event
  reorder_workspaces-IsAnswer decimal = bind-IsAnswer id _ (ok_or-bad id _ _) (λ values.
      elim (Bool-cases (is_empty_list (filter_map j.as_str values))) [
        | inl e ↦ rw e (refused _)
        | inr n ↦ rw n (
            bind-IsAnswer id _
              (resolve_names-IsParam decimal id state.tab_manager (filter_map j.as_str values))
              (λ targets.
                done _ _
                  (place_all-IsValid (order_of targets state.tab_manager) 0 state.tab_manager v)))
      ])

  answer_reorder-IsAnswer :
      (r : TabManager F × Bool)
      → IsValid r.0
      → (r.1 ≡ false → r.0 ≡ state.tab_manager)
      → IsAnswer id state (answer_reorder id state r)
  unfolding answer_reorder notify_ui_refresh send_ui_event
  answer_reorder-IsAnswer (tm, true) w same = done _ _ w
  answer_reorder-IsAnswer (tm, false) w same = refused-same id state tm _ (same refl)

  pub reorder-IsAnswer : IsAnswer id state (handle_workspace_reorder id params state)
  unfolding handle_workspace_reorder
  reorder-IsAnswer =
      bind-IsAnswer id _ (parse_usize_param-IsParam id params (codes "from")) (λ from.
        bind-IsAnswer id _ (parse_usize_param-IsParam id params (codes "to")) (λ to.
          bind-IsAnswer id _ (ok_or-bad id from _) (λ from.
            bind-IsAnswer id _ (ok_or-bad id to _) (λ to.
              answer_reorder-IsAnswer (move_workspace from to state.tab_manager)
                (move_workspace-IsValid from to state.tab_manager v)
                (move_workspace_refused state.tab_manager from to)))))
