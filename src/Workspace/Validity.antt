-- ===== src/Workspace/Validity.antt =====
-- cmux/src/model/workspace.rs: the layout shows exactly the panels of the map, each once, the focus
-- is on one of them, and the layout is tidy. The panel operations keep it so.
use cmux_gtk.Prelude.{
  ℕ, Uuid, Str, ◌≡◌, refl, ap, ◌∙◌, true, false, Option, [], ◌∷◌, arith, contains, count, get,
  insert, without, contains_key, contains_key-without, contains_key-insert, get-contains_key,
  count-erase, not_contains→count, F64, if◌then◌else◌, is_empty_list, Bool-cases, Option-cases, inl,
  inr, Map,
}
use cmux_gtk.Layout.{
  SplitOrientation, Direction, LayoutNode, all_panel_ids, split_pane_with_panel, select_panel,
}
use cmux_gtk.Layout
use cmux_gtk.Layout.Remove.{
  IsShown-erase, IsTidy, IsShown, is_empty-ids, remove_panel_lem, remove_panel-IsTidy,
}
use cmux_gtk.Layout.Select.{select_panel_lem, select_panel-IsTidy}
use cmux_gtk.Panel.{PanelType, Panel}
use cmux_gtk.Workspace.{
  Workspace, new_workspace, update_panel, remove_panel, detach_panel, insert_panel, split_workspace,
  focus_panel, refocus, split_focused, new_panel,
}
use cmux_gtk.Workspace.Placing.{split_focused-IsSplit}

module _ {F : Type 0} where
  -- 1 for a panel of the map, 0 for any other identifier
  abbrev pub occurs : Uuid → Map (Panel F) → ℕ
  occurs a m = if contains_key a m then 1 else 0

  pub record IsValid (w : Workspace F) : Type 0 where
    pub same : (a : Uuid) → count a (all_panel_ids w.layout) ≡ occurs a w.panels
    pub focus : IsShown (all_panel_ids w.layout) w.focused_panel_id
    pub tidy : IsTidy w.layout

  pub contains_of_key :
      {w : Workspace F} (v : IsValid w) (p : Uuid)
      → contains_key p w.panels ≡ true
      → contains p (all_panel_ids w.layout) ≡ true
  contains_of_key {w} v p h =
      ground (arith, v.same p, not_contains→count p (all_panel_ids w.layout))

  pub new_workspace-IsValid : (home : Option Str) (id p : Uuid) → IsValid (new_workspace home id p)
  unfolding new_workspace
  new_workspace-IsValid home id p = record {
    same = λ a. ground arith;
    focus = ground arith;
    tidy = ground arith;
  }

  contains_key-update_panel :
      (a id : Uuid) (g : Panel F → Panel F) (m : Map (Panel F))
      → contains_key a (update_panel id g m) ≡ contains_key a m
  contains_key-update_panel a id g [] = refl
  contains_key-update_panel a id g ((j, p) ∷ m) = ground (arith, contains_key-update_panel a id g m)

  -- What removal leaves: the layout without the panel, refocused.
  IsShown-refocus :
      (p : Uuid) (focused : Option Uuid) (t : LayoutNode F)
      → IsShown (all_panel_ids t) focused
      → IsShown
          (all_panel_ids (Layout.remove_panel p t).0)
          (refocus p focused (Layout.remove_panel p t).0)
  IsShown-refocus p focused t h =
      rw (remove_panel_lem p t).1 (IsShown-erase p (all_panel_ids t) focused h)

  count_removed :
      {w : Workspace F} (v : IsValid w) (p a : Uuid)
      → contains_key p w.panels ≡ true
      → count a (all_panel_ids (Layout.remove_panel p w.layout).0) ≡ occurs a (without p w.panels)
  count_removed {w} v p a h = ground (
    arith,
    v.same a,
    (remove_panel_lem p w.layout).1,
    count-erase a p (all_panel_ids w.layout) (contains_of_key v p h),
    contains_key-without a p w.panels,
  )

  pub remove_panel-IsValid : (p : Uuid) (w : Workspace F) → IsValid w → IsValid (remove_panel p w).0
  unfolding remove_panel
  remove_panel-IsValid p w v = elim (Option-cases (get p w.panels)) [
    | inl e ↦ rw (e, remove_panel) v
    | inr (q, e) ↦
        rw (e, remove_panel)
          (record {
            same = λ a. count_removed v p a (get-contains_key p w.panels ∙ rw e refl);
            focus = IsShown-refocus p w.focused_panel_id w.layout v.focus;
            tidy = remove_panel-IsTidy p w.layout v.tidy;
          })
  ]

  pub detach_panel-IsValid : (p : Uuid) (w : Workspace F) → IsValid w → IsValid (detach_panel p w).0
  unfolding detach_panel
  detach_panel-IsValid p w v = elim (Option-cases (get p w.panels)) [
    | inl e ↦ rw (e, detach_panel) v
    | inr (q, e) ↦
        rw (e, detach_panel)
          (record {
            same = λ a. count_removed v p a (get-contains_key p w.panels ∙ rw e refl);
            focus = IsShown-refocus p w.focused_panel_id w.layout v.focus;
            tidy = remove_panel-IsTidy p w.layout v.tidy;
          })
  ]

  pub focus_panel-IsValid : (p : Uuid) (w : Workspace F) → IsValid w → IsValid (focus_panel p w).0
  unfolding focus_panel
  focus_panel-IsValid p w v = elim (Bool-cases (contains_key p w.panels)) [
    | inr n ↦ rw n v
    | inl e ↦
        let ids = (select_panel_lem p w.layout).1 in
        let selected = (select_panel_lem p w.layout).0 ∙ contains_of_key v p e in
        rw (e, selected)
          (record {
            same = λ a. ap (count a) ids ∙ v.same a;
            focus = ap (contains p) ids ∙ contains_of_key v p e;
            tidy = select_panel-IsTidy p w.layout v.tidy;
          })
  ]

module _ {F : Type 0} ⦃f : F64 F⦄ where
  count_split :
      (w : Workspace F) (v : IsValid w) (o : SplitOrientation) (q : Panel F) (a new : Uuid)
      → contains_key new w.panels ≡ false
      → count a (all_panel_ids (split_focused w.focused_panel_id o new w.layout))
        ≡ occurs a (insert new q w.panels)
  count_split w v o q a new h = ground (
    arith,
    v.same a,
    v.same new,
    (split_focused-IsSplit o new w.focused_panel_id w.layout).adds a,
    contains_key-insert a new q w.panels,
  )

  shown_split :
      (w : Workspace F) (o : SplitOrientation) (new : Uuid)
      → contains new (all_panel_ids (split_focused w.focused_panel_id o new w.layout)) ≡ true
  shown_split w o new = ground (
    arith,
    (split_focused-IsSplit o new w.focused_panel_id w.layout).adds new,
    not_contains→count new (all_panel_ids (split_focused w.focused_panel_id o new w.layout)),
  )

  pub insert_panel-IsValid :
      (w : Workspace F) (q : Panel F) (o : SplitOrientation)
      → IsValid w
      → contains_key q.id w.panels ≡ false
      → is_empty_list (all_panel_ids w.layout) ≡ false
      → IsValid (insert_panel q o w).0
  unfolding insert_panel
  insert_panel-IsValid w q o v h e = record {
    same = λ a. count_split w v o q a q.id h;
    focus = shown_split w o q.id;
    tidy =
        (split_focused-IsSplit o q.id w.focused_panel_id w.layout).tidy v.tidy
          (is_empty-ids w.layout ∙ e);
  }

  pub split_workspace-IsValid :
      (w : Workspace F) (o : SplitOrientation) (kind : PanelType) (new : Uuid)
      → IsValid w
      → contains_key new w.panels ≡ false
      → is_empty_list (all_panel_ids w.layout) ≡ false
      → IsValid (split_workspace o kind new w)
  unfolding split_workspace
  split_workspace-IsValid w o kind new v h e = record {
    same = λ a. count_split w v o (new_panel kind new) a new h;
    focus = shown_split w o new;
    tidy =
        (split_focused-IsSplit o new w.focused_panel_id w.layout).tidy v.tidy
          (is_empty-ids w.layout ∙ e);
  }

module _ {F : Type 0} (w : Workspace F) (p : Uuid) where
  -- Removing, detaching or focusing any panel, present or not, keeps a workspace valid: the layout
  -- shows exactly the panels of the map, each once, the focus is on one of them, and the layout is
  -- tidy.
  pub operations-IsValid :
      IsValid w
      → IsValid (remove_panel p w).0 × IsValid (detach_panel p w).0 × IsValid (focus_panel p w).0
  operations-IsValid v =
      (remove_panel-IsValid p w v, detach_panel-IsValid p w v, focus_panel-IsValid p w v)

module _ {F : Type 0} ⦃f : F64 F⦄ (w : Workspace F) (o : SplitOrientation) where
  -- Splitting with a new panel, and inserting a panel whose identifier is not in the workspace,
  -- keep a valid workspace valid if it has a panel.
  pub insertions-IsValid :
      (q : Panel F) (kind : PanelType) (new : Uuid)
      → IsValid w
      → is_empty_list (all_panel_ids w.layout) ≡ false
      → contains_key q.id w.panels ≡ false
      → contains_key new w.panels ≡ false
      → IsValid (insert_panel q o w).0 × IsValid (split_workspace o kind new w)
  insertions-IsValid q kind new v e h k =
      (insert_panel-IsValid w q o v h e, split_workspace-IsValid w o kind new v k e)
