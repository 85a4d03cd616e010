-- ===== src/Layout/Splitting.antt =====
-- cmux/src/model/panel.rs: what splitting a pane adds to the tree.
use cmux_gtk.Prelude.{
  ◌⊎◌, sym, Uuid, ◌+◌, ◌≡◌, refl, ◌∙◌, Bool, true, false, inl, inr, Option, ==-refl,
  not_empty_of_contains, List, [], ◌∷◌, arith, contains, count, count-append, single, Bool-cases,
  if◌then◌else◌, contains-append, is_empty_list, F64,
}
use cmux_gtk.Layout.{
  SplitOrientation, Direction, LayoutNode, pane, split, all_panel_ids, is_empty,
  split_pane_with_panel, single_pane, new_first,
}
use cmux_gtk.Layout.Remove.{IsTidy, IsShown, IsTidy-try}

module _ {F : Type 0} ⦃f : F64 F⦄ (target new : Uuid) (o : SplitOrientation) (dir : Direction) where
  abbrev splits : LayoutNode F → LayoutNode F × Bool
  splits t = split_pane_with_panel target new o dir t

  splits-flag : (t : LayoutNode F) → (splits t).1 ≡ contains target (all_panel_ids t)
  unfolding split_pane_with_panel
  splits-flag (pane xs sel) = ground arith
  splits-flag (split o' d x y) = ground (
    arith,
    splits-flag x,
    splits-flag y,
    contains-append target (all_panel_ids x) (all_panel_ids y),
  )

  splits_absent : (t : LayoutNode F) → (splits t).1 ≡ false → (splits t).0 ≡ t
  unfolding split_pane_with_panel
  splits_absent (pane xs sel) h = ground arith
  splits_absent (split o' d x y) h = ground (arith, splits_absent x, splits_absent y)

  pub count-splits :
      (a : Uuid) (t : LayoutNode F)
      → contains target (all_panel_ids t) ≡ true
      → count a (all_panel_ids (splits t).0) ≡ count a (all_panel_ids t) + single new a
  unfolding split_pane_with_panel
  count-splits a (pane xs sel) h = rw h (elim (Bool-cases (new_first dir)) [
    | inl e ↦ rw e (omega arith)
    | inr e ↦ rw e (omega (arith, count-append a xs (new ∷ [])))
  ])
  count-splits a (split o' d x y) h = ground (
    arith,
    splits-flag x,
    splits-flag y,
    splits_absent x,
    count-splits a x,
    count-splits a y,
    contains-append target (all_panel_ids x) (all_panel_ids y),
    count-append a (all_panel_ids x) (all_panel_ids y),
    count-append a (all_panel_ids (splits x).0) (all_panel_ids y),
    count-append a (all_panel_ids x) (all_panel_ids (splits y).0),
  )

  -- The flag says whether the target is in the tree. If it is, the tree gains the new panel and
  -- nothing else; if not, it is unchanged.
  pub split_pane_with_panel-ids :
      (t : LayoutNode F)
      → ((splits t).1 ≡ contains target (all_panel_ids t))
        × ((a : Uuid)
            → count a (all_panel_ids (splits t).0)
              ≡ count a (all_panel_ids t) + (if (splits t).1 then single new a else 0))
        × (((splits t).1 ≡ true) ⊎ ((splits t).0 ≡ t))
  split_pane_with_panel-ids t = elim (Bool-cases (splits t).1) [
    | inl e ↦ (splits-flag t, λ a. rw e (count-splits a t (sym (splits-flag t) ∙ e)), inl e)
    | inr e ↦ (splits-flag t, λ a. rw (e, splits_absent t e) (omega arith), inr (splits_absent t e))
  ]

  splits_nonempty : (t : LayoutNode F) → is_empty t ≡ false → is_empty (splits t).0 ≡ false
  unfolding split_pane_with_panel is_empty
  splits_nonempty (pane xs sel) h = ground arith
  splits_nonempty (split o' d x y) h =
      ground (arith, splits_nonempty x, splits_nonempty y, splits_absent x)

  IsTidy-new_split :
      (d : F) (xs : List Uuid) (sel : Option Uuid)
      → IsShown xs sel
      → is_empty_list xs ≡ false
      → IsTidy (
          split o d
            (if new_first dir then single_pane new else pane xs sel)
            (if new_first dir then pane xs sel else single_pane new))
  unfolding single_pane is_empty
  IsTidy-new_split d xs sel h e =
      let shown : contains new (new ∷ []) ≡ true = rw (==-refl new) refl in
      elim (Bool-cases (new_first dir)) [
        | inl b ↦ rw b (shown, h, refl, e)
        | inr b ↦ rw b (h, shown, e, refl)
      ]

  -- Every pane of a tidy tree still shows one of its panels after the split, and none is empty.
  pub split_pane_with_panel-IsTidy : (t : LayoutNode F) → IsTidy t → IsTidy (splits t).0
  unfolding split_pane_with_panel
  split_pane_with_panel-IsTidy (pane xs sel) h = elim (Bool-cases (contains target xs)) [
    | inl e ↦ rw e (IsTidy-new_split f.half xs sel h (not_empty_of_contains target xs e))
    | inr n ↦ rw n h
  ]
  split_pane_with_panel-IsTidy (split o' d x y) (hx, hy, ex, ey) =
      IsTidy-try o' d y _ _ (split_pane_with_panel-IsTidy x hx) (split_pane_with_panel-IsTidy y hy)
        hy (splits_nonempty x ex) (splits_nonempty y ey) ey
