-- ===== src/Socket/Answer/Splits.antt =====
-- cmux/src/socket/v2/pane.rs: the answers to the requests that split panes and set their sizes.
use cmux_gtk.Prelude.{Uuid, Str, ◌≡◌, ap, false, Option, none, some, F64}
use cmux_gtk.Layout.Divider.Refused.{resize_panel_refused}
use cmux_gtk.Workspace.{Workspace}
use cmux_gtk.TabManager.{IsValid}
use cmux_gtk.Socket.{Json, JsonFloat, SharedState}
use cmux_gtk.Socket.Params.Readings.{workspace_param-IsParam}
use cmux_gtk.Socket.Targets.{current}
use cmux_gtk.Socket.PaneSplit.{
  handle_pane_new, handle_pane_split_off, handle_pane_equalize, resize_layout, panel_to_resize,
  handle_pane_resize,
}
use cmux_gtk.Socket.Answer.{IsAnswer, IsParam, ok_or-bad, ok_or-absent, bind-IsAnswer}
use cmux_gtk.Socket.Answer.Edits.{edit-IsAnswer, try_edit-IsAnswer}

module _ {F : Type 0} ⦃f : F64 F⦄ where
  resize_layout_refused :
      (p : Uuid) (amount : F) (w : Workspace F)
      → (resize_layout p amount w).1 ≡ false
      → (resize_layout p amount w).0 ≡ w
  unfolding resize_layout
  resize_layout_refused p amount w h =
      ap (λ l. record w { layout = l }) (resize_panel_refused p amount w.layout h)

module _ {V F : Type 0} ⦃j : Json V⦄ ⦃f : F64 F⦄ (id params : V) (state : SharedState F)
    (v : IsValid state.tab_manager) where
  pub pane_new-IsAnswer : (new : Uuid) → IsAnswer id state (handle_pane_new new id params state)
  unfolding handle_pane_new
  pane_new-IsAnswer new = edit-IsAnswer id state v _ _ _ _ _

  pub split_off-IsAnswer :
      (new : Uuid) → IsAnswer id state (handle_pane_split_off new id params state)
  unfolding handle_pane_split_off
  split_off-IsAnswer new = edit-IsAnswer id state v _ _ _ _ _

  pub equalize-IsAnswer : IsAnswer id state (handle_pane_equalize id params state)
  unfolding handle_pane_equalize
  equalize-IsAnswer =
      bind-IsAnswer id _ (workspace_param-IsParam id params)
        (λ ws_id. edit-IsAnswer id state v _ _ _ _ _)

  panel_to_resize-IsParam :
      (given : Option Str) (w : Workspace F) → IsParam id (panel_to_resize id given w)
  unfolding panel_to_resize
  panel_to_resize-IsParam none w = ok_or-absent id w.focused_panel_id _
  panel_to_resize-IsParam (some s) w = ok_or-bad id (j.parse_uuid s) _

  pub resize-IsAnswer : ⦃n : JsonFloat V F⦄ → IsAnswer id state (handle_pane_resize id params state)
  unfolding handle_pane_resize
  resize-IsAnswer ⦃n⦄ = bind-IsAnswer id _ (ok_or-bad id _ _) (λ amount.
      bind-IsAnswer id _ (ok_or-absent id _ _) (λ w.
        bind-IsAnswer id _ (panel_to_resize-IsParam _ w) (λ pid.
          try_edit-IsAnswer id state v _ _ current (resize_layout pid amount) _
            (λ x e h. resize_layout_refused pid amount x h))))
