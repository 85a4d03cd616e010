-- ===== src/Session/Restore/Layouts.antt =====
-- cmux/src/session/snapshot.rs: the layout that is restored against the one that was saved.
use cmux_gtk.Prelude.{◌≡◌, refl, ap₂, Bool, true, false, arith, F64, IsOrdered, if◌then◌else◌}
use cmux_gtk.Layout.{LayoutNode, pane, split, all_panel_ids}
use cmux_gtk.Layout.Remove.{IsTidy, is_empty-ids}
use cmux_gtk.Layout.Divider.{equalize}
use cmux_gtk.Layout.Divider.Range.{AllDividers, InRange, equalize-ids}
use cmux_gtk.Session.Snapshot.{from_layout, normalize_divider_positions}
use cmux_gtk.Session.Restore.{to_layout}

module _ {F : Type 0} ⦃f : F64 F⦄ where
  -- A divider that the restoration keeps: a finite number from 0 to 1.
  abbrev pub IsExact : F → Type 0
  IsExact d = (f.is_finite d ≡ true) × InRange f.zero f.one d

  to_layout-from_layout : (t : LayoutNode F) → AllDividers IsExact t → to_layout (from_layout t) ≡ t
  unfolding to_layout from_layout
  to_layout-from_layout (pane ids selected) h = refl
  to_layout-from_layout (split o d x y) ((fin, (lo, hi)), hx, hy) =
      rw (fin, lo, hi)
        (ap₂ (λ a b. split o d a b) (to_layout-from_layout x hx) (to_layout-from_layout y hy))

  to_layout-normalized :
      (law : IsOrdered f) (t : LayoutNode F)
      → to_layout (normalize_divider_positions (from_layout t)) ≡ (equalize t).0
  unfolding to_layout from_layout normalize_divider_positions equalize
  to_layout-normalized law (pane ids selected) = refl
  to_layout-normalized law (split o d x y) =
      rw (law.half_finite, law.half_low, law.half_high)
        (ap₂ (λ a b. split o f.half a b) (to_layout-normalized law x) (to_layout-normalized law y))

  -- The layout that is restored if the dividers are saved, or if not.
  pub saved_layout :
      (law : IsOrdered f) (persist : Bool) (t : LayoutNode F)
      → AllDividers IsExact t
      → to_layout (if persist then from_layout t else normalize_divider_positions (from_layout t))
        ≡ (if persist then t else (equalize t).0)
  saved_layout law true t h = to_layout-from_layout t h
  saved_layout law false t h = to_layout-normalized law t

  equalize-IsTidy : (t : LayoutNode F) → IsTidy t → IsTidy (equalize t).0
  unfolding equalize
  equalize-IsTidy (pane ids selected) h = h
  equalize-IsTidy (split o d x y) (hx, hy, ex, ey) = (
    equalize-IsTidy x hx,
    equalize-IsTidy y hy,
    ground (arith, is_empty-ids x, is_empty-ids (equalize x).0, equalize-ids x),
    ground (arith, is_empty-ids y, is_empty-ids (equalize y).0, equalize-ids y),
  )

  pub saved-IsTidy :
      (persist : Bool) (t : LayoutNode F)
      → IsTidy t
      → IsTidy (if persist then t else (equalize t).0)
  saved-IsTidy true t h = h
  saved-IsTidy false t h = equalize-IsTidy t h

  pub saved-ids :
      (persist : Bool) (t : LayoutNode F)
      → all_panel_ids (if persist then t else (equalize t).0) ≡ all_panel_ids t
  saved-ids true t = refl
  saved-ids false t = equalize-ids t
