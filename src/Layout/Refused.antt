-- ===== src/Layout/Refused.antt =====
-- cmux/src/model/panel.rs: an edit of the layout that returns false has changed nothing.
use cmux_gtk.Prelude.{
  Uuid, ◌≡◌, refl, ap₂, Bool, true, false, contains, arith, Bool-cases, inl, inr,
}
use cmux_gtk.Layout.{pane, split, SplitOrientation, LayoutNode, select_panel, try_children}

module _ {F : Type 0} where
  try_children_refused :
      (o : SplitOrientation) (d : F) (x y : LayoutNode F) (p q : LayoutNode F × Bool)
      → (p.1 ≡ false → p.0 ≡ x)
      → (q.1 ≡ false → q.0 ≡ y)
      → (try_children o d y p q).1 ≡ false
      → (try_children o d y p q).0 ≡ split o d x y
  try_children_refused o d x y (x', true) q f g h = absurd (ground arith)
  try_children_refused o d x y (x', false) (y', b) f g h = ap₂ (λ s t. split o d s t) (f refl) (g h)

  pub select_panel_refused :
      (p : Uuid) (t : LayoutNode F) → (select_panel p t).1 ≡ false → (select_panel p t).0 ≡ t
  unfolding select_panel
  select_panel_refused p (pane ids selected) h = elim (Bool-cases (contains p ids)) [
    | inl e ↦ absurd (ground arith)
    | inr n ↦ rw n refl
  ]
  select_panel_refused p (split o d x y) h =
      try_children_refused o d x y (select_panel p x) (select_panel p y) (select_panel_refused p x)
        (select_panel_refused p y) h
