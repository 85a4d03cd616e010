-- ===== src/Layout/Places.antt =====
-- cmux/src/model/panel.rs: the place that `find_pane_with_panel` hands out for writing.
use mathlib.Core.List.{append-nil, append_assoc}
use cmux_gtk.Prelude.{
  Uuid, ◌≡◌, refl, ap, sym, true, false, Option, none, some, List, [], ◌++◌, arith, contains,
  Bool-cases, inl, inr, is_empty_list, is_empty-append, contains-append,
}
use cmux_gtk.Layout.{
  SplitOrientation, LayoutNode, pane, split, Place, all_panel_ids, is_empty, find_pane_with_panel,
  find_pane_with_panel_readonly, either_child, below_first, below_second,
}
use cmux_gtk.Layout.Remove.{IsTidy, is_empty-ids}

module _ {F : Type 0} where
  abbrev pub IsPane : LayoutNode F → Type 0
  IsPane (pane _ _) = Unit
  IsPane (split _ _ _ _) = ⊥

  -- The place is the first pane that holds the panel, and a write there changes nothing else.
  pub record IsPlace (p : Uuid) (t : LayoutNode F) (place : Place F) : Type 0 where
    pub before : List Uuid
    pub after : List Uuid
    pub not_before : contains p before ≡ false
    pub here : contains p (all_panel_ids place.0) ≡ true
    pub leaf : IsPane place.0
    pub back : place.1 place.0 ≡ t
    pub ids : (m : LayoutNode F) → all_panel_ids (place.1 m) ≡ before ++ (all_panel_ids m ++ after)
    pub tidy : (m : LayoutNode F) → IsTidy t → IsTidy m → is_empty m ≡ false → IsTidy (place.1 m)
    pub found :
        (xs : List Uuid) (sel : Option Uuid)
        → contains p xs ≡ true
        → find_pane_with_panel_readonly p (place.1 (pane xs sel)) ≡ some xs
    pub tidy_here : IsTidy t → IsTidy place.0

  abbrev pub IsFound : Uuid → LayoutNode F → Option (Place F) → Type 0
  IsFound p t none = contains p (all_panel_ids t) ≡ false
  IsFound p t (some place) = IsPlace p t place

  pub readonly_absent :
      (p : Uuid) (t : LayoutNode F)
      → contains p (all_panel_ids t) ≡ false
      → find_pane_with_panel_readonly p t ≡ none
  unfolding find_pane_with_panel_readonly
  readonly_absent p (pane ids sel) h = ground arith
  readonly_absent p (split o d a b) h = ground (
    arith,
    readonly_absent p a,
    readonly_absent p b,
    contains-append p (all_panel_ids a) (all_panel_ids b),
  )

  nonempty_put :
      (u m : LayoutNode F) (xs ys : List Uuid)
      → all_panel_ids u ≡ xs ++ (all_panel_ids m ++ ys)
      → is_empty m ≡ false
      → is_empty u ≡ false
  nonempty_put u m xs ys e h = ground (
    arith,
    is_empty-ids u,
    is_empty-ids m,
    ap is_empty_list e,
    is_empty-append xs (all_panel_ids m ++ ys),
    is_empty-append (all_panel_ids m) ys,
  )

  module _ (p : Uuid) (o : SplitOrientation) (d : F) (a b : LayoutNode F) where
    IsPlace-first : (q : Place F) → IsPlace p a q → IsPlace p (split o d a b) (below_first o d b q)
    unfolding find_pane_with_panel_readonly
    IsPlace-first (n, put) h = record {
      before = h.before;
      after = h.after ++ all_panel_ids b;
      not_before = h.not_before;
      here = h.here;
      leaf = h.leaf;
      back = ap (λ x. split o d x b) h.back;
      ids = λ m. rw (h.ids m) (simp append_assoc);
      tidy = λ m (ha, hb, ea, eb) hm em.
          (h.tidy m ha hm em, hb, nonempty_put (put m) m h.before h.after (h.ids m) em, eb);
      found = λ xs sel e. rw (h.found xs sel e) refl;
      tidy_here = λ (ha, hb, ea, eb). h.tidy_here ha;
    }

    IsPlace-second :
        contains p (all_panel_ids a) ≡ false
        → (q : Place F) → IsPlace p b q
        → IsPlace p (split o d a b) (below_second o d a q)
    unfolding find_pane_with_panel_readonly
    IsPlace-second absent (n, put) h = record {
      before = all_panel_ids a ++ h.before;
      after = h.after;
      not_before = ground (arith, h.not_before, contains-append p (all_panel_ids a) h.before);
      here = h.here;
      leaf = h.leaf;
      back = ap (λ x. split o d a x) h.back;
      ids = λ m. rw (h.ids m) (simp append_assoc);
      tidy = λ m (ha, hb, ea, eb) hm em.
          (ha, h.tidy m hb hm em, ea, nonempty_put (put m) m h.before h.after (h.ids m) em);
      found = λ xs sel e. rw (readonly_absent p a absent, h.found xs sel e) refl;
      tidy_here = λ (ha, hb, ea, eb). h.tidy_here hb;
    }

    IsFound-children :
        (qa qb : Option (Place F))
        → IsFound p a qa
        → IsFound p b qb
        → IsFound p (split o d a b) (either_child o d a b qa qb)
    IsFound-children (some q) qb ha hb = IsPlace-first q ha
    IsFound-children none (some q) ha hb = IsPlace-second ha q hb
    IsFound-children none none ha hb =
        ground (arith, contains-append p (all_panel_ids a) (all_panel_ids b))

  pub find_pane_with_panel-IsFound :
      (p : Uuid) (t : LayoutNode F) → IsFound p t (find_pane_with_panel p t)
  unfolding find_pane_with_panel find_pane_with_panel_readonly
  find_pane_with_panel-IsFound p (pane ids sel) = elim (Bool-cases (contains p ids)) [
    | inl e ↦ rw e (record {
      before = [];
      after = [];
      not_before = refl;
      here = e;
      leaf = tt;
      back = refl;
      ids = λ m. sym (append-nil (all_panel_ids m));
      tidy = λ m _ hm _. hm;
      found = λ xs sel' h. rw h refl;
      tidy_here = λ h. h;
    })
    | inr n ↦ rw n n
  ]
  find_pane_with_panel-IsFound p (split o d a b) =
      IsFound-children p o d a b _ _ (find_pane_with_panel-IsFound p a)
        (find_pane_with_panel-IsFound p b)

module _ {F : Type 0} {p : Uuid} {t : LayoutNode F} {place : Place F} (h : IsPlace p t place) where
  pub IsPlace-whole : all_panel_ids t ≡ h.before ++ (all_panel_ids place.0 ++ h.after)
  IsPlace-whole = rw (← h.back) (h.ids place.0)

  pub IsPlace-holds : contains p (all_panel_ids t) ≡ true
  IsPlace-holds = ground (
    arith,
    IsPlace-whole,
    h.here,
    contains-append p h.before (all_panel_ids place.0 ++ h.after),
    contains-append p (all_panel_ids place.0) h.after,
  )

module _ {F : Type 0} {p : Uuid} {t : LayoutNode F} where
  -- Reading the pane of the panel gives the list of the place that writing gives.
  pub IsPlace-readonly :
      (xs : List Uuid) (sel : Option Uuid) (put : LayoutNode F → LayoutNode F)
      → IsPlace p t (pane xs sel, put)
      → find_pane_with_panel_readonly p t ≡ some xs
  IsPlace-readonly xs sel put h = rw (← h.back) (h.found xs sel h.here)
