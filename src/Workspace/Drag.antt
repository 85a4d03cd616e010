-- ===== src/Workspace/Drag.antt =====
-- cmux/src/model/workspace.rs: `drag_to_split` moves a panel and loses none.
use cmux_gtk.Prelude.{
  ◌⊎◌, Uuid, ◌==◌, ◌≡◌, refl, ap, ◌∙◌, Bool, true, false, not, Option, none, some, List, [], ◌∷◌,
  arith, contains, count, find, contains_key, count-erase, not_contains→count, contains-erase_ne,
  not_empty_of_contains, F64, Bool-cases, inl, inr,
}
use cmux_gtk.Layout.{SplitOrientation, Direction, LayoutNode, all_panel_ids, split_pane_with_panel}
use cmux_gtk.Layout
use cmux_gtk.Layout.Remove.{IsTidy, IsShown, remove_panel_lem, remove_panel-IsTidy}
use cmux_gtk.Layout.Splitting.{
  split_pane_with_panel-ids, count-splits, split_pane_with_panel-IsTidy,
}
use cmux_gtk.Workspace.{
  Workspace, drag_to_split, drag_onto, drag_target, place_dragged, orientation_of,
}
use cmux_gtk.Workspace.Validity.{IsValid, contains_of_key}

find-other :
    (p t : Uuid) (ids : List Uuid)
    → find (λ id. not (id == p)) ids ≡ some t
    → (contains t ids ≡ true) × ((p == t) ≡ false)
find-other p t [] h = absurd (ground arith)
find-other p t (x ∷ ids) h =
    (ground (arith, find-other p t ids), ground (arith, find-other p t ids))

drag_target-other :
    (p t : Uuid) (focused : Option Uuid) (ids : List Uuid)
    → IsShown ids focused
    → drag_target p focused ids ≡ some t
    → (contains t ids ≡ true) × ((p == t) ≡ false)
drag_target-other p t none ids h e = absurd (ground arith)
drag_target-other p t (some s) ids h e = elim (Bool-cases (s == p)) [
  | inl b ↦ find-other p t ids (ground arith)
  | inr b ↦ (ground arith, ground arith)
]

find_other_found :
    (p q : Uuid) (ids : List Uuid)
    → contains q ids ≡ true
    → (p == q) ≡ false
    → (t : Uuid) × (find (λ id. not (id == p)) ids ≡ some t)
find_other_found p q [] h other = absurd (ground arith)
find_other_found p q (x ∷ ids) h other = elim (Bool-cases (x == p)) [
  | inl e ↦ let (t, k) = find_other_found p q ids (ground arith) other in (t, rw e k)
  | inr n ↦ (x, rw n refl)
]

drag_target_found :
    (p q : Uuid) (focused : Option Uuid) (ids : List Uuid)
    → IsShown ids focused
    → contains q ids ≡ true
    → (p == q) ≡ false
    → (t : Uuid) × (drag_target p focused ids ≡ some t)
drag_target_found p q none ids h here other =
    absurd (ground (arith, not_empty_of_contains q ids here))
drag_target_found p q (some s) ids h here other = elim (Bool-cases (s == p)) [
  | inl e ↦ rw e (find_other_found p q ids here other)
  | inr n ↦ rw n (s, refl)
]

module _ {F : Type 0} ⦃f : F64 F⦄ where
  placed : (t p : Uuid) (r : LayoutNode F × Bool) → r.1 ≡ true → place_dragged t p r ≡ r.0
  placed t p (layout, true) h = refl
  placed t p (layout, false) h = cc

module _ {F : Type 0} ⦃f : F64 F⦄ (p : Uuid) (dir : Direction) where
  abbrev dragged : Uuid → LayoutNode F → LayoutNode F
  dragged t layout =
      place_dragged t p
        (split_pane_with_panel t p (orientation_of dir) dir (Layout.remove_panel p layout).0)

  module _ (layout : LayoutNode F) (t : Uuid) (there : contains p (all_panel_ids layout) ≡ true)
      (target : contains t (all_panel_ids layout) ≡ true) (other : (p == t) ≡ false) where
    target_left : contains t (all_panel_ids (Layout.remove_panel p layout).0) ≡ true
    target_left =
        rw (remove_panel_lem p layout).1
          (contains-erase_ne t p (all_panel_ids layout) other ∙ target)

    -- The fallback, a new tab beside the target, is never needed.
    dragged_split :
        dragged t layout
        ≡ (split_pane_with_panel t p (orientation_of dir) dir (Layout.remove_panel p layout).0).0
    dragged_split = placed t p _ (
        (split_pane_with_panel-ids t p (orientation_of dir) dir (Layout.remove_panel p layout).0).0
        ∙ target_left)

    count-dragged :
        (a : Uuid) → count a (all_panel_ids (dragged t layout)) ≡ count a (all_panel_ids layout)
    count-dragged a = rw dragged_split (
        omega (
          arith,
          count-splits t p (orientation_of dir) dir a (Layout.remove_panel p layout).0 target_left,
          ap (count a) (remove_panel_lem p layout).1,
          count-erase a p (all_panel_ids layout) there,
        ))

    dragged-IsTidy : IsTidy layout → IsTidy (dragged t layout)
    dragged-IsTidy h = rw dragged_split (
        split_pane_with_panel-IsTidy t p (orientation_of dir) dir _
          (remove_panel-IsTidy p layout h))

  drag_onto-IsValid :
      (w : Workspace F) (r : Option Uuid)
      → IsValid w
      → contains_key p w.panels ≡ true
      → ((t : Uuid)
          → r ≡ some t
          → (contains t (all_panel_ids w.layout) ≡ true) × ((p == t) ≡ false))
      → IsValid (drag_onto p dir w r).0
  unfolding drag_onto
  drag_onto-IsValid w none v h target = v
  drag_onto-IsValid w (some t) v h target =
      let there = contains_of_key v p h in
      let (here, other) = target t refl in
      record {
        same = λ a. count-dragged w.layout t there here other a ∙ v.same a;
        focus = ground (
          arith,
          count-dragged w.layout t there here other p,
          v.same p,
          not_contains→count p (all_panel_ids (dragged t w.layout)),
        );
        tidy = dragged-IsTidy w.layout t there here other v.tidy;
      }

  pub drag_to_split-IsValid : (w : Workspace F) → IsValid w → IsValid (drag_to_split p dir w).0
  unfolding drag_to_split
  drag_to_split-IsValid w v = elim (Bool-cases (contains_key p w.panels)) [
    | inr n ↦ rw n v
    | inl e ↦ rw e (
        drag_onto-IsValid w _ v e
          (λ t. drag_target-other p t w.focused_panel_id (all_panel_ids w.layout) v.focus))
  ]

  -- In a valid workspace a panel of it can be dragged if there is another one.
  pub drag_to_split_total :
      (w : Workspace F) (q : Uuid)
      → IsValid w
      → contains_key p w.panels ≡ true
      → contains_key q w.panels ≡ true
      → (p == q) ≡ false
      → (drag_to_split p dir w).1 ≡ true
  unfolding drag_to_split
  drag_to_split_total w q v hp hq other =
      let (t, e) =
        drag_target_found p q w.focused_panel_id (all_panel_ids w.layout) v.focus
          (contains_of_key v q hq) other in
      rw (hp, e) refl

  onto_keeps :
      (w : Workspace F) (r : Option Uuid)
      → ((drag_onto p dir w r).0.panels ≡ w.panels)
        × ((((drag_onto p dir w r).1 ≡ true) × ((drag_onto p dir w r).0.focused_panel_id ≡ some p))
            ⊎ (((drag_onto p dir w r).1 ≡ false) × ((drag_onto p dir w r).0 ≡ w)))
  unfolding drag_onto
  onto_keeps w none = (refl, inr (refl, refl))
  onto_keeps w (some t) = (refl, inl (refl, refl))

  drag_keeps :
      (w : Workspace F)
      → ((drag_to_split p dir w).0.panels ≡ w.panels)
        × ((((drag_to_split p dir w).1 ≡ true)
              × ((drag_to_split p dir w).0.focused_panel_id ≡ some p))
            ⊎ (((drag_to_split p dir w).1 ≡ false) × ((drag_to_split p dir w).0 ≡ w)))
  unfolding drag_to_split
  drag_keeps w = elim (Bool-cases (contains_key p w.panels)) [
    | inl e ↦ rw e (onto_keeps w _)
    | inr n ↦ rw n (refl, inr (refl, refl))
  ]

  -- Dragging in a valid workspace: it stays valid, so no panel is lost or shown twice; the map of
  -- panels is the same; the panel dragged gets the focus if the call returns true, and nothing
  -- changes if it returns false.
  pub drag_to_split_lem :
      (w : Workspace F)
      → IsValid w
      → IsValid (drag_to_split p dir w).0
        × ((drag_to_split p dir w).0.panels ≡ w.panels)
        × ((((drag_to_split p dir w).1 ≡ true)
              × ((drag_to_split p dir w).0.focused_panel_id ≡ some p))
            ⊎ (((drag_to_split p dir w).1 ≡ false) × ((drag_to_split p dir w).0 ≡ w)))
  drag_to_split_lem w v = (drag_to_split-IsValid w v, (drag_keeps w).0, (drag_keeps w).1)
