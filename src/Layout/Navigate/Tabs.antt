-- ===== src/Layout/Navigate/Tabs.antt =====
-- cmux/src/model/panel.rs: cycling through the tabs of one pane.
use cmux_gtk.Prelude.{
  Uuid, ◌≡◌, refl, sym, true, false, Option, none, some, List, arith, contains, or_else,
}
use cmux_gtk.Layout.{LayoutNode, pane, split, find_pane_with_panel_readonly}
use cmux_gtk.Layout.Navigate.{next_in, prev_in, next_panel_in_pane, prev_panel_in_pane}
use cmux_gtk.Layout.Navigate.Steps.{IsNext, IsPrev, next_in-IsNext, prev_in-IsPrev}
use cmux_gtk.Layout.Navigate.Cycle.{next_in_total, prev_in_total, next_in_absent, prev_in_absent}

-- A step within the pane of the panel, if there is one.
abbrev within : (List Uuid → Uuid → Option Uuid) → Option (List Uuid) → Uuid → Option Uuid
within step none c = none
within step (some ids) c = step ids c

-- The item in the list of the pane has the relation to `c`; without a pane there is none.
abbrev pub IsTab :
    (Uuid → List Uuid → Uuid → Type 0) → Uuid → Option (List Uuid) → Option Uuid → Type 0
IsTab R c none none = Unit
IsTab R c none (some x) = false ≡ true
IsTab R c (some ids) none = false ≡ true
IsTab R c (some ids) (some x) = R c ids x

within-or_else :
    (step : List Uuid → Uuid → Option Uuid) (c : Uuid) (a b : Option (List Uuid))
    → ((ids : List Uuid) → a ≡ some ids → (x : Uuid) × (step ids c ≡ some x))
    → within step (or_else a b) c ≡ or_else (within step a c) (within step b c)
within-or_else step c none b h = refl
within-or_else step c (some ids) b h = let (x, e) = h ids refl in rw e

steps-IsTab :
    (c : Uuid) (o : Option (List Uuid))
    → ((ids : List Uuid) → o ≡ some ids → contains c ids ≡ true)
    → IsTab IsNext c o (within next_in o c) × IsTab IsPrev c o (within prev_in o c)
steps-IsTab c none h = (tt, tt)
steps-IsTab c (some ids) h =
    let (x, e) = next_in_total ids c (h ids refl) in
    let (b, k) = prev_in_total ids c (h ids refl) in
    rw (e, k) (next_in-IsNext ids c x e, prev_in-IsPrev ids c b k)

module _ {F : Type 0} where
  readonly-contains :
      (c : Uuid) (t : LayoutNode F) (ids : List Uuid)
      → find_pane_with_panel_readonly c t ≡ some ids
      → contains c ids ≡ true
  unfolding find_pane_with_panel_readonly
  readonly-contains c (pane xs sel) ids h = ground arith
  readonly-contains c (split o d x y) ids h =
      ground (arith, readonly-contains c x ids, readonly-contains c y ids)

  next-within :
      (t : LayoutNode F) (c : Uuid)
      → next_panel_in_pane t c ≡ within next_in (find_pane_with_panel_readonly c t) c
  unfolding next_panel_in_pane find_pane_with_panel_readonly
  next-within (pane xs sel) c = ground (arith, next_in_absent xs c)
  next-within (split o d x y) c =
      rw (next-within x c, next-within y c)
        (sym (
          within-or_else next_in c _ _
            (λ ids e. next_in_total ids c (readonly-contains c x ids e))))

  prev-within :
      (t : LayoutNode F) (c : Uuid)
      → prev_panel_in_pane t c ≡ within prev_in (find_pane_with_panel_readonly c t) c
  unfolding prev_panel_in_pane find_pane_with_panel_readonly
  prev-within (pane xs sel) c = ground (arith, prev_in_absent xs c)
  prev-within (split o d x y) c =
      rw (prev-within x c, prev-within y c)
        (sym (
          within-or_else prev_in c _ _
            (λ ids e. prev_in_total ids c (readonly-contains c x ids e))))

  -- If a pane holds the panel, the tab after it is the one that stands behind it in that pane, or the
  -- first where it is the last, and the tab before it is the one that stands before it, or the last
  -- where it is the first, also where a pane to the left has other tabs; a panel that no pane holds
  -- has neither.
  pub panel_in_pane-IsTab :
      (t : LayoutNode F) (c : Uuid)
      → IsTab IsNext c (find_pane_with_panel_readonly c t) (next_panel_in_pane t c)
        × IsTab IsPrev c (find_pane_with_panel_readonly c t) (prev_panel_in_pane t c)
  panel_in_pane-IsTab t c =
      rw (next-within t c, prev-within t c)
        (steps-IsTab c (find_pane_with_panel_readonly c t) (readonly-contains c t))
