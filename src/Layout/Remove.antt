-- ===== src/Layout/Remove.antt =====
-- cmux/src/model/panel.rs: what `remove_panel` does to the order of the panels and to the panes.
use cmux_gtk.Prelude.{
  ◌⊎◌, Uuid, ◌==◌, ◌≡◌, refl, ap, sym, ◌∙◌, Bool, true, false, inl, inr, Option, none, some, List,
  [], ◌∷◌, ◌++◌, arith, contains, erase, is_empty_list, is_some_eq, head?, Bool-cases,
  if◌then◌else◌, contains-append, erase-append_left, erase-append_right, is_empty-append,
  is_empty→nil, contains-erase_ne, erase_absent,
}
use mathlib.Core.List.{append-nil}
use cmux_gtk.Layout.{
  SplitOrientation, LayoutNode, pane, split, all_panel_ids, is_empty, remove_panel, collapse,
  try_children,
}

module _ {F : Type 0} where
  pub is_empty-ids : (t : LayoutNode F) → is_empty t ≡ is_empty_list (all_panel_ids t)
  unfolding is_empty
  is_empty-ids (pane ids sel) = refl
  is_empty-ids (split o d a b) =
      ground
        (arith, is_empty-ids a, is_empty-ids b, is_empty-append (all_panel_ids a) (all_panel_ids b))

  ids_of_empty : (t : LayoutNode F) → is_empty t ≡ true → all_panel_ids t ≡ []
  ids_of_empty t h = is_empty→nil (all_panel_ids t) (sym (is_empty-ids t) ∙ h)

  pub remove_panel-flag :
      (p : Uuid) (t : LayoutNode F) → (remove_panel p t).1 ≡ contains p (all_panel_ids t)
  unfolding remove_panel
  remove_panel-flag p (pane ids sel) = ground arith
  remove_panel-flag p (split o d a b) = ground (
    arith,
    remove_panel-flag p a,
    remove_panel-flag p b,
    contains-append p (all_panel_ids a) (all_panel_ids b),
  )

  -- Collapsing a split with an empty side keeps the panels and their order.
  all_panel_ids-collapse :
      (o : SplitOrientation) (d : F) (a b : LayoutNode F)
      → all_panel_ids (collapse (split o d a b, true)).0 ≡ all_panel_ids a ++ all_panel_ids b
  unfolding collapse
  all_panel_ids-collapse o d a b =
      ground (arith, ids_of_empty a, ids_of_empty b, append-nil (all_panel_ids a))

  pub remove_panel_absent :
      (p : Uuid) (t : LayoutNode F) → (remove_panel p t).1 ≡ false → (remove_panel p t).0 ≡ t
  unfolding remove_panel
  remove_panel_absent p (pane ids sel) h = ground arith
  remove_panel_absent p (split o d a b) h =
      ground (arith, remove_panel_absent p a, remove_panel_absent p b)

  pub all_panel_ids-remove_panel :
      (p : Uuid) (t : LayoutNode F) → all_panel_ids (remove_panel p t).0 ≡ erase p (all_panel_ids t)
  unfolding remove_panel
  all_panel_ids-remove_panel p (pane ids sel) = ground (arith, erase_absent p ids)
  all_panel_ids-remove_panel p (split o d a b) = ground (
    arith,
    remove_panel-flag p a,
    remove_panel-flag p b,
    all_panel_ids-remove_panel p a,
    all_panel_ids-remove_panel p b,
    all_panel_ids-collapse o d (remove_panel p a).0 b,
    all_panel_ids-collapse o d a (remove_panel p b).0,
    remove_panel_absent p a,
    remove_panel_absent p b,
    erase-append_left p (all_panel_ids a) (all_panel_ids b),
    erase-append_right p (all_panel_ids a) (all_panel_ids b),
    erase_absent p (all_panel_ids b),
  )

module _ {F : Type 0} (p : Uuid) where
  -- Removing a panel takes its first occurrence out of the order of all panels and keeps the rest
  -- in order; a panel that is not there is refused, and nothing changes.
  pub remove_panel_lem :
      (t : LayoutNode F)
      → ((remove_panel p t).1 ≡ contains p (all_panel_ids t))
        × (all_panel_ids (remove_panel p t).0 ≡ erase p (all_panel_ids t))
        × (((remove_panel p t).1 ≡ true) ⊎ ((remove_panel p t).0 ≡ t))
  remove_panel_lem t = (
    remove_panel-flag p t,
    all_panel_ids-remove_panel p t,
    elim (Bool-cases (remove_panel p t).1) [
      | inl e ↦ inl e
      | inr e ↦ inr (remove_panel_absent p t e)
    ],
  )

-- A pane shows one of its panels; only a pane without panels shows none.
abbrev pub IsShown : List Uuid → Option Uuid → Type 0
IsShown ids none = is_empty_list ids ≡ true
IsShown ids (some sel) = contains sel ids ≡ true

pub IsShown-head? : (ids : List Uuid) → IsShown ids (head? ids)
IsShown-head? [] = refl
IsShown-head? (x ∷ ids) = ground arith

pub IsShown-erase :
    (p : Uuid) (ids : List Uuid) (sel : Option Uuid)
    → IsShown ids sel
    → IsShown (erase p ids) (if is_some_eq sel p then head? (erase p ids) else sel)
IsShown-erase p ids none h = ground (arith, is_empty→nil ids)
IsShown-erase p ids (some sel) h = elim (Bool-cases (sel == p)) [
  | inl e ↦ rw e (IsShown-head? (erase p ids))
  | inr n ↦ rw n (ground (arith, contains-erase_ne sel p ids))
]

module _ {F : Type 0} where
  -- Every pane shows one of its panels, and no side of a split is empty.
  abbrev pub IsTidy : LayoutNode F → Type 0
  IsTidy (pane ids sel) = IsShown ids sel
  IsTidy (split _ _ a b) = IsTidy a × IsTidy b × (is_empty a ≡ false) × (is_empty b ≡ false)

  IsTidy-collapse :
      (o : SplitOrientation) (d : F) (a b : LayoutNode F)
      → IsTidy a
      → IsTidy b
      → IsTidy (collapse (split o d a b, true)).0
  unfolding collapse
  IsTidy-collapse o d a b ha hb = elim (Bool-cases (is_empty a)) [
    | inl e ↦ rw e hb
    | inr n ↦
        rw n (elim (Bool-cases (is_empty b)) [ inl e ↦ rw e ha | inr m ↦ rw m (ha, hb, n, m) ])
  ]

  IsTidy-children :
      (o : SplitOrientation) (d : F) (b : LayoutNode F) (ra rb : LayoutNode F × Bool)
      → IsTidy b
      → IsTidy ra.0
      → IsTidy rb.0
      → (ra.1 ≡ false → is_empty ra.0 ≡ false)
      → (rb.1 ≡ false → is_empty rb.0 ≡ false)
      → IsTidy (collapse (try_children o d b ra rb)).0
  unfolding collapse
  IsTidy-children o d b (a', true) rb hb ha' hb' ea eb = IsTidy-collapse o d a' b ha' hb
  IsTidy-children o d b (a', false) (b', true) hb ha' hb' ea eb = IsTidy-collapse o d a' b' ha' hb'
  IsTidy-children o d b (a', false) (b', false) hb ha' hb' ea eb = (ha', hb', ea refl, eb refl)

  -- Removing any panel, present or not, leaves a tidy tree tidy.
  pub remove_panel-IsTidy : (p : Uuid) (t : LayoutNode F) → IsTidy t → IsTidy (remove_panel p t).0
  unfolding remove_panel
  remove_panel-IsTidy p (pane ids sel) h = elim (Bool-cases (contains p ids)) [
    | inl e ↦ rw e (IsShown-erase p ids sel h)
    | inr n ↦ rw n h
  ]
  remove_panel-IsTidy p (split o d a b) (ha, hb, ea, eb) =
      IsTidy-children o d b _ _ hb (remove_panel-IsTidy p a ha) (remove_panel-IsTidy p b hb)
        (λ e. ap is_empty (remove_panel_absent p a e) ∙ ea)
        (λ e. ap is_empty (remove_panel_absent p b e) ∙ eb)

  -- Tidy children of a split, when at most one of them changed.
  pub IsTidy-try :
      (o : SplitOrientation) (d : F) (y : LayoutNode F) (rx ry : LayoutNode F × Bool)
      → IsTidy rx.0
      → IsTidy ry.0
      → IsTidy y
      → is_empty rx.0 ≡ false
      → is_empty ry.0 ≡ false
      → is_empty y ≡ false
      → IsTidy (try_children o d y rx ry).0
  IsTidy-try o d y (x', true) (y', b) hx hy h ex ey e = (hx, h, ex, e)
  IsTidy-try o d y (x', false) (y', b) hx hy h ex ey e = (hx, hy, ex, ey)
