-- ===== src/Socket/PaneSplit.antt =====
-- cmux/src/socket/v2/pane.rs: the requests that split panes and set their sizes. The identifier of a
-- new panel is an argument.
use cmux_gtk.Prelude.{Uuid, Str, codes, list_eq, Bool, Option, none, some, if◌then◌else◌, F64}
use cmux_gtk.Layout.{SplitOrientation, horizontal, vertical}
use cmux_gtk.Layout.Divider.{resize_panel, equalize}
use cmux_gtk.Panel.{terminal}
use cmux_gtk.Workspace.{Workspace, split_workspace, focus_panel}
use cmux_gtk.TabManager.{selected}
use cmux_gtk.Socket.{
  Json, JsonFloat, Result, ok_or, ◌>>=◌, Handler, refresh, invalid_params, not_found,
}
use cmux_gtk.Socket.Params.{and_then, get_str, flag, workspace_param}
use cmux_gtk.Socket.Pane.{panel_json}
use cmux_gtk.Socket.Targets.{current, by_id_or_current, edit, try_edit}

-- Anything but "vertical" is horizontal.
pub orientation_param : Option Str → SplitOrientation
orientation_param none = horizontal
orientation_param (some s) = if list_eq s (codes "vertical") then vertical else horizontal

module _ {F : Type 0} ⦃f : F64 F⦄ where
  -- A split that leaves the focus where it was.
  pub split_off : SplitOrientation → Uuid → Workspace F → Workspace F
  split_off orientation new_id ws =
      let split = split_workspace orientation terminal new_id ws in
      elim ws.focused_panel_id [ none ↦ split | some pid ↦ (focus_panel pid split).0 ]

  unfoldable pub resize_layout : Uuid → F → Workspace F → Workspace F × Bool
  resize_layout panel_id amount ws = (
    record ws { layout = (resize_panel panel_id amount ws.layout).0 },
    (resize_panel panel_id amount ws.layout).1,
  )

module _ {V F : Type 0} ⦃j : Json V⦄ ⦃f : F64 F⦄ where
  unfoldable pub handle_pane_new : Uuid → V → V → Handler V F
  unfolding orientation_param
  handle_pane_new new_id id params =
      edit id (codes "No workspace selected") current
        (split_workspace (orientation_param (get_str params (codes "orientation"))) terminal new_id)
        refresh (panel_json new_id)

  unfoldable pub handle_pane_split_off : Uuid → V → V → Handler V F
  unfolding orientation_param split_off
  handle_pane_split_off new_id id params =
      edit id (codes "No workspace selected") current
        (split_off (orientation_param (get_str params (codes "orientation"))) new_id) refresh
        (panel_json new_id)

  unfoldable pub handle_pane_equalize : V → V → Handler V F
  handle_pane_equalize id params = do
    ws_id ← workspace_param id params
    edit id (codes "No workspace") (by_id_or_current ws_id)
        (λ ws. record ws { layout = (equalize ws.layout).0 }) refresh (flag (codes "equalized"))

  -- The panel that is named, or the focused one.
  unfoldable pub panel_to_resize : V → Option Str → Workspace F → Result V Uuid
  unfolding invalid_params not_found
  panel_to_resize id (some s) ws =
      ok_or (j.parse_uuid s) (invalid_params id (codes "Invalid panel UUID"))
  panel_to_resize id none ws = ok_or ws.focused_panel_id (not_found id (codes "No focused panel"))

  unfoldable pub handle_pane_resize : ⦃n : JsonFloat V F⦄ → V → V → Handler V F
  unfolding panel_to_resize resize_layout invalid_params not_found
  handle_pane_resize ⦃n⦄ id params = do
    amount ←
        ok_or (and_then (j.get params (codes "amount")) n.as_f64)
          (invalid_params id (codes "Provide 'amount' (e.g. 0.05 or -0.05)"))
    λ state.
        (ok_or (selected state.tab_manager) (not_found id (codes "No workspace selected")) >>= λ ws.
        (panel_to_resize id (get_str params (codes "panel")) ws >>= λ panel_id.
        try_edit id (codes "No workspace selected") (codes "Panel not in any split") current
          (resize_layout panel_id amount) (flag (codes "resized"))))
          state
