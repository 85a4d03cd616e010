-- ===== src/Layout/Select.antt =====
-- cmux/src/model/panel.rs: `select_panel`.
use cmux_gtk.Prelude.{
  if◌then◌else◌, Uuid, ◌≡◌, refl, ap, ◌∙◌, Bool, true, false, inl, inr, Option, none, some, arith,
  contains, Bool-cases, is_empty_list, sym, contains-append,
}
use cmux_gtk.Layout.{
  SplitOrientation, LayoutNode, pane, split, all_panel_ids, is_empty, select_panel, try_children,
  Place, find_pane_with_panel, either_child,
}
use cmux_gtk.Layout.Remove.{IsTidy, is_empty-ids, IsTidy-try}

module _ {F : Type 0} where
  -- The panel that a pane found shows.
  abbrev pub shown_at : Option (Place F) → Option Uuid
  shown_at (some (pane _ sel, _)) = sel
  shown_at _ = none

  shown_at-first :
      (p : Uuid) (o : SplitOrientation) (d : F) (x y : LayoutNode F) (qa qb : Option (Place F))
      → shown_at qa ≡ some p
      → shown_at (either_child o d x y qa qb) ≡ some p
  shown_at-first p o d x y none qb h = ground arith
  shown_at-first p o d x y (some (pane _ sel, _)) qb h = h
  shown_at-first p o d x y (some (split _ _ _ _, _)) qb h = ground arith

  shown_at-second :
      (o : SplitOrientation) (d : F) (x y : LayoutNode F) (qb : Option (Place F))
      → shown_at (either_child o d x y none qb) ≡ shown_at qb
  shown_at-second o d x y none = refl
  shown_at-second o d x y (some (pane _ sel, _)) = refl
  shown_at-second o d x y (some (split _ _ _ _, _)) = refl

module _ {F : Type 0} (p : Uuid) where
  find_absent :
      (t : LayoutNode F) → contains p (all_panel_ids t) ≡ false → find_pane_with_panel p t ≡ none
  unfolding find_pane_with_panel
  find_absent (pane xs sel) h = ground arith
  find_absent (split o d x y) h =
      ground
        (arith, find_absent x, find_absent y, contains-append p (all_panel_ids x) (all_panel_ids y))

  pub select_panel-ids :
      (t : LayoutNode F)
      → ((select_panel p t).1 ≡ contains p (all_panel_ids t))
        × (all_panel_ids (select_panel p t).0 ≡ all_panel_ids t)
  unfolding select_panel
  select_panel-ids (pane xs sel) = (ground arith, ground arith)
  select_panel-ids (split o d x y) =
      let hx = select_panel-ids x in
      let hy = select_panel-ids y in
      (
        ground (arith, hx.0, hy.0, contains-append p (all_panel_ids x) (all_panel_ids y)),
        ground (arith, hx.0, hy.0, hx.1, hy.1),
      )

  shown_in_first :
      (o : SplitOrientation) (d : F) (y : LayoutNode F) (rx ry : LayoutNode F × Bool)
      → rx.1 ≡ true
      → shown_at (find_pane_with_panel p rx.0) ≡ some p
      → shown_at (find_pane_with_panel p (try_children o d y rx ry).0) ≡ some p
  unfolding find_pane_with_panel
  shown_in_first o d y (x', true) ry e h =
      shown_at-first p o d x' y (find_pane_with_panel p x') (find_pane_with_panel p y) h
  shown_in_first o d y (x', false) ry e h = cc

  shown_in_second :
      (o : SplitOrientation) (d : F) (y : LayoutNode F) (rx ry : LayoutNode F × Bool)
      → rx.1 ≡ false
      → find_pane_with_panel p rx.0 ≡ none
      → shown_at (find_pane_with_panel p ry.0) ≡ some p
      → shown_at (find_pane_with_panel p (try_children o d y rx ry).0) ≡ some p
  unfolding find_pane_with_panel
  shown_in_second o d y (x', false) (y', b) e n h =
      rw n (shown_at-second o d x' y' (find_pane_with_panel p y') ∙ h)
  shown_in_second o d y (x', true) ry e n h = cc

  select_shown :
      (t : LayoutNode F)
      → contains p (all_panel_ids t) ≡ true
      → shown_at (find_pane_with_panel p (select_panel p t).0) ≡ some p
  unfolding select_panel find_pane_with_panel
  select_shown (pane xs sel) h = rw (h, h) refl
  select_shown (split o d x y) h = elim (Bool-cases (contains p (all_panel_ids x))) [
    | inl e ↦
        shown_in_first o d y (select_panel p x) (select_panel p y) ((select_panel-ids x).0 ∙ e)
          (select_shown x e)
    | inr n ↦
        shown_in_second o d y (select_panel p x) (select_panel p y) ((select_panel-ids x).0 ∙ n)
          (find_absent (select_panel p x).0 (ap (contains p) (select_panel-ids x).1 ∙ n))
          (select_shown y (ground (arith, contains-append p (all_panel_ids x) (all_panel_ids y))))
  ]

  select_nonempty : (t : LayoutNode F) → is_empty t ≡ false → is_empty (select_panel p t).0 ≡ false
  select_nonempty t h =
      is_empty-ids (select_panel p t).0
      ∙ (ap is_empty_list (select_panel-ids t).1 ∙ (sym (is_empty-ids t) ∙ h))

  pub select_panel-IsTidy : (t : LayoutNode F) → IsTidy t → IsTidy (select_panel p t).0
  unfolding select_panel
  select_panel-IsTidy (pane xs sel) h = elim (Bool-cases (contains p xs)) [
    | inl e ↦ rw e e
    | inr n ↦ rw n h
  ]
  select_panel-IsTidy (split o d x y) (hx, hy, ex, ey) =
      IsTidy-try o d y _ _ (select_panel-IsTidy x hx) (select_panel-IsTidy y hy) hy
        (select_nonempty x ex) (select_nonempty y ey) ey

  select_shows :
      (t : LayoutNode F)
      → shown_at (find_pane_with_panel p (select_panel p t).0)
        ≡ (if contains p (all_panel_ids t) then some p else none)
  select_shows t = elim (Bool-cases (contains p (all_panel_ids t))) [
    | inl e ↦ rw e (select_shown t e)
    | inr e ↦
        rw (e, find_absent (select_panel p t).0 (ap (contains p) (select_panel-ids t).1 ∙ e)) refl
  ]

  -- Selecting a panel of the tree makes its pane show it and moves no panel; a panel that is not in
  -- the tree is refused.
  pub select_panel_lem :
      (t : LayoutNode F)
      → ((select_panel p t).1 ≡ contains p (all_panel_ids t))
        × (all_panel_ids (select_panel p t).0 ≡ all_panel_ids t)
        × (shown_at (find_pane_with_panel p (select_panel p t).0)
            ≡ (if contains p (all_panel_ids t) then some p else none))
  select_panel_lem t = ((select_panel-ids t).0, (select_panel-ids t).1, select_shows t)
