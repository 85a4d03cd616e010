-- ===== src/Workspace/Placing.antt =====
-- cmux/src/model/workspace.rs: splitting the focused pane, shared by `split` and `insert_panel`.
use cmux_gtk.Prelude.{
  Uuid, ◌+◌, ◌≡◌, refl, ap, ◌∙◌, false, Option, none, some, [], ◌∷◌, ◌++◌, arith, count,
  count-append, single, ==-refl, not_empty_of_contains, F64, contains-append, is_empty_list,
}
use cmux_gtk.Layout.{SplitOrientation, LayoutNode, Place, all_panel_ids, is_empty, split_node}
use cmux_gtk.Layout.Remove.{IsTidy, is_empty-ids}
use cmux_gtk.Layout.Places.{IsFound, IsPlace-whole, find_pane_with_panel-IsFound}
use cmux_gtk.Workspace.{split_at, split_focused}

module _ {F : Type 0} ⦃f : F64 F⦄ (o : SplitOrientation) (new : Uuid) where
  ids_split_node :
      (n : LayoutNode F) → all_panel_ids (split_node n o new) ≡ all_panel_ids n ++ new ∷ []
  unfolding split_node
  ids_split_node n = refl

  count-split_node :
      (a : Uuid) (n : LayoutNode F)
      → count a (all_panel_ids (split_node n o new)) ≡ count a (all_panel_ids n) + single new a
  count-split_node a n =
      rw (ids_split_node n) (omega (arith, count-append a (all_panel_ids n) (new ∷ [])))

  split_node-IsTidy :
      (n : LayoutNode F) → IsTidy n → is_empty n ≡ false → IsTidy (split_node n o new)
  unfolding split_node
  split_node-IsTidy n h e = (h, rw (==-refl new) refl, e, is_empty-ids _)

  split_node-nonempty : (n : LayoutNode F) → is_empty (split_node n o new) ≡ false
  split_node-nonempty n =
      is_empty-ids (split_node n o new)
      ∙ (ap is_empty_list (ids_split_node n)
          ∙ not_empty_of_contains new (all_panel_ids n ++ new ∷ [])
              (ground (arith, contains-append new (all_panel_ids n) (new ∷ []))))

  -- Splitting adds the new panel and nothing else; a tidy tree that is not empty stays tidy.
  pub record IsSplit (t u : LayoutNode F) : Type 0 where
    pub adds : (a : Uuid) → count a (all_panel_ids u) ≡ count a (all_panel_ids t) + single new a
    pub tidy : IsTidy t → is_empty t ≡ false → IsTidy u

  split_at-IsSplit :
      (p : Uuid) (t : LayoutNode F) (r : Option (Place F))
      → IsFound p t r
      → IsSplit t (split_at o new t r)
  split_at-IsSplit p t none h = record {
    adds = λ a. count-split_node a t;
    tidy = λ x e. split_node-IsTidy t x e;
  }
  split_at-IsSplit p t (some (n, put)) h = record {
    adds = λ a.
        rw (h.ids (split_node n o new), IsPlace-whole h)
          (omega (
            arith,
            count-split_node a n,
            count-append a h.before (all_panel_ids (split_node n o new) ++ h.after),
            count-append a (all_panel_ids (split_node n o new)) h.after,
            count-append a h.before (all_panel_ids n ++ h.after),
            count-append a (all_panel_ids n) h.after,
          ));
    tidy = λ x e.
        h.tidy (split_node n o new) x
          (split_node-IsTidy n (h.tidy_here x)
            (is_empty-ids n ∙ not_empty_of_contains p (all_panel_ids n) h.here))
          (split_node-nonempty n);
  }

  pub split_focused-IsSplit :
      (focused : Option Uuid) (t : LayoutNode F) → IsSplit t (split_focused focused o new t)
  unfolding split_focused
  split_focused-IsSplit none t = record {
    adds = λ a. count-split_node a t;
    tidy = λ x e. split_node-IsTidy t x e;
  }
  split_focused-IsSplit (some p) t = split_at-IsSplit p t _ (find_pane_with_panel-IsFound p t)
