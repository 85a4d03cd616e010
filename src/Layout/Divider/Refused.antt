-- ===== src/Layout/Divider/Refused.antt =====
-- cmux/src/model/panel.rs: a panel that is in no split is not resized.
use cmux_gtk.Prelude.{Uuid, ◌≡◌, refl, false, arith, F64}
use cmux_gtk.Layout.{LayoutNode, pane, split}
use cmux_gtk.Layout.Divider.{resize_panel}

module _ {F : Type 0} ⦃f : F64 F⦄ where
  pub resize_panel_refused :
      (p : Uuid) (amount : F) (t : LayoutNode F)
      → (resize_panel p amount t).1 ≡ false
      → (resize_panel p amount t).0 ≡ t
  unfolding resize_panel
  resize_panel_refused p amount (pane ids selected) h = refl
  resize_panel_refused p amount (split o d x y) h = ground arith
