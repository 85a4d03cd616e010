-- ===== src/Layout/Insert.antt =====
-- cmux/src/model/panel.rs: adding a panel as a tab or in a new split, and moving a tab in its pane.
use cmux_gtk.Prelude.{
  Uuid, ℕ, zero, suc, ◌+◌, ◌==◌, min, ◌≡◌, refl, sym, ◌∙◌, Bool, true, false, Option, none, some,
  List, [], ◌∷◌, ◌++◌, arith, contains, count, count-append, count-erase, single, erase, insert_at,
  length, get_elem?, remove_at, length-erase, ap, ◌-◌, ◌≤◌, ◌⊎◌, inl, inr, Bool-cases,
  if◌then◌else◌, contains-erase_ne, not_empty_of_contains,
}
use cmux_gtk.Layout.{
  LayoutNode, pane, split, Place, all_panel_ids, is_empty, find_pane_with_panel_readonly,
  add_panel_to_pane, add_place, insert_after, reorder_panel_in_pane, reorder_place, move_to,
}
use cmux_gtk.Layout.Remove.{IsTidy, IsShown}
use cmux_gtk.Layout.Places.{
  IsPlace-whole, IsPlace-holds, IsPlace-readonly, readonly_absent, IsFound,
  find_pane_with_panel-IsFound,
}

insert_after-cons :
    (p new x : Uuid) (xs : List Uuid)
    → insert_after p new (x ∷ xs) ≡ (if x == p then x ∷ new ∷ xs else x ∷ insert_after p new xs)
unfolding insert_after
insert_after-cons p new x xs = ground arith

insert_after-append_left :
    (p new : Uuid) (xs ys : List Uuid)
    → contains p xs ≡ true
    → insert_after p new (xs ++ ys) ≡ insert_after p new xs ++ ys
insert_after-append_left p new [] ys h = ground arith
insert_after-append_left p new (x ∷ xs) ys h = ground (
  arith,
  insert_after-cons p new x (xs ++ ys),
  insert_after-cons p new x xs,
  insert_after-append_left p new xs ys,
)

insert_after-append_right :
    (p new : Uuid) (xs ys : List Uuid)
    → contains p xs ≡ false
    → insert_after p new (xs ++ ys) ≡ xs ++ insert_after p new ys
insert_after-append_right p new [] ys h = refl
insert_after-append_right p new (x ∷ xs) ys h =
    ground (arith, insert_after-cons p new x (xs ++ ys), insert_after-append_right p new xs ys)

count-insert_after :
    (a p new : Uuid) (xs : List Uuid) → count a (insert_after p new xs) ≡ count a xs + single new a
count-insert_after a p new [] = unfold insert_after in omega arith
count-insert_after a p new (x ∷ xs) =
    ground (arith, insert_after-cons p new x xs, count-insert_after a p new xs)

count-insert_at :
    (a : Uuid) (i : ℕ) (new : Uuid) (xs : List Uuid)
    → count a (insert_at i new xs) ≡ count a xs + single new a
count-insert_at a zero new xs = omega arith
count-insert_at a (suc i) new [] = omega arith
count-insert_at a (suc i) new (x ∷ xs) = omega (arith, count-insert_at a i new xs)

count-move_to :
    (a p : Uuid) (i : ℕ) (xs : List Uuid)
    → contains p xs ≡ true
    → count a (move_to p i xs) ≡ count a xs
unfolding move_to
count-move_to a p i xs h =
    omega
      (arith, count-insert_at a (min i (length (erase p xs))) p (erase p xs), count-erase a p xs h)

contains-insert_at :
    (a : Uuid) (i : ℕ) (new : Uuid) (xs : List Uuid)
    → contains a (insert_at i new xs) ≡ (if new == a then true else contains a xs)
contains-insert_at a zero new xs = refl
contains-insert_at a (suc i) new [] = refl
contains-insert_at a (suc i) new (x ∷ xs) = ground (arith, contains-insert_at a i new xs)

contains-insert_after :
    (a p new : Uuid) (xs : List Uuid)
    → contains a (insert_after p new xs) ≡ (if new == a then true else contains a xs)
contains-insert_after a p new [] = unfold insert_after in refl
contains-insert_after a p new (x ∷ xs) =
    ground (arith, insert_after-cons p new x xs, contains-insert_after a p new xs)

added : (p new : Uuid) (xs : List Uuid) → contains new (insert_after p new xs) ≡ true
added p new xs = ground (arith, contains-insert_after new p new xs)

contains-move_to :
    (a p : Uuid) (i : ℕ) (xs : List Uuid)
    → contains p xs ≡ true
    → contains a (move_to p i xs) ≡ contains a xs
unfolding move_to
contains-move_to a p i xs h = ground (
  arith,
  contains-insert_at a (min i (length (erase p xs))) p (erase p xs),
  contains-erase_ne a p xs,
)

IsShown-move_to :
    (p : Uuid) (i : ℕ) (xs : List Uuid) (sel : Option Uuid)
    → contains p xs ≡ true
    → IsShown xs sel
    → IsShown (move_to p i xs) sel
IsShown-move_to p i xs (some s) h shown = contains-move_to s p i xs h ∙ shown
IsShown-move_to p i xs none h shown = ground (arith, not_empty_of_contains p xs h)

insert_at-get_elem? :
    (i a : ℕ) (xs : List ℕ) → i ≤ length xs → get_elem? (insert_at i a xs) i ≡ some a
insert_at-get_elem? zero a xs h = refl
insert_at-get_elem? (suc i) a [] h = elim h [ ]
insert_at-get_elem? (suc i) a (x ∷ xs) h = insert_at-get_elem? i a xs (omega arith)

remove_at-insert_at : (i a : ℕ) (xs : List ℕ) → i ≤ length xs → remove_at i (insert_at i a xs) ≡ xs
remove_at-insert_at zero a xs h = refl
remove_at-insert_at (suc i) a [] h = elim h [ ]
remove_at-insert_at (suc i) a (x ∷ xs) h =
    ap (λ l. x ∷ l) (remove_at-insert_at i a xs (omega arith))

-- Of the panels of a pane before and after: `p` stands at index `i`, or last if the pane is shorter,
-- and without it the others are those that were there, in their order.
abbrev pub IsPut : Uuid → ℕ → Option (List Uuid) → Option (List Uuid) → Type 0
IsPut p i none none = Unit
IsPut p i none (some ys) = false ≡ true
IsPut p i (some xs) none = false ≡ true
IsPut p i (some xs) (some ys) =
    (get_elem? ys (min i (length xs - 1)) ≡ some p)
    × (remove_at (min i (length xs - 1)) ys ≡ erase p xs)

move_to-IsPut :
    (p : Uuid) (i : ℕ) (xs : List Uuid)
    → contains p xs ≡ true
    → IsPut p i (some xs) (some (move_to p i xs))
unfolding move_to
move_to-IsPut p i xs h =
    let index : min i (length xs - 1) ≡ min i (length (erase p xs)) =
      ap (min i) (omega (arith, length-erase p xs h)) in
    rw index (
      insert_at-get_elem? (min i (length (erase p xs))) p (erase p xs) (omega arith),
      remove_at-insert_at (min i (length (erase p xs))) p (erase p xs) (omega arith),
    )

-- The order `ys` is `xs` with `new` right behind the first `p`.
abbrev pub IsAdded : Uuid → Uuid → List Uuid → List Uuid → Type 0
IsAdded p new xs ys =
    (front : List Uuid) × (back : List Uuid) × (contains p front ≡ false)
    × (xs ≡ front ++ p ∷ back)
    × (ys ≡ front ++ p ∷ new ∷ back)

insert_after-IsAdded :
    (p new : Uuid) (xs : List Uuid)
    → contains p xs ≡ true
    → IsAdded p new xs (insert_after p new xs)
insert_after-IsAdded p new [] h = absurd (ground arith)
insert_after-IsAdded p new (x ∷ xs) h = elim (Bool-cases (x == p)) [
  | inl e ↦
      let same : x ≡ p = ground arith in
      (
        [],
        xs,
        refl,
        ap (λ a. a ∷ xs) same,
        rw (insert_after-cons p new x xs, e) (ap (λ a. a ∷ new ∷ xs) same),
      )
  | inr n ↦
      let (front, back, away, before, after) = insert_after-IsAdded p new xs (ground arith) in
      (
        x ∷ front,
        back,
        ground arith,
        ap (λ l. x ∷ l) before,
        rw (insert_after-cons p new x xs, n) (ap (λ l. x ∷ l) after),
      )
]

module _ {F : Type 0} where
  -- The panel's pane has the panel at the index, the others in their order; the tree holds the same
  -- panels, and stays tidy.
  pub record IsMoved (p : Uuid) (i : ℕ) (t : LayoutNode F) (r : LayoutNode F × Bool) : Type 0 where
    pub flag : r.1 ≡ contains p (all_panel_ids t)
    pub pane_ids :
        IsPut p i (find_pane_with_panel_readonly p t) (find_pane_with_panel_readonly p r.0)
    pub same_ids : (a : Uuid) → count a (all_panel_ids r.0) ≡ count a (all_panel_ids t)
    pub tidy : IsTidy t → IsTidy r.0

  -- What `add_place` and `reorder_place` return, at a place that was found.
  add_place-ids :
      (p new : Uuid) (t : LayoutNode F) (r : Option (Place F))
      → IsFound p t r
      → ((add_place p new t r).1 ≡ contains p (all_panel_ids t))
        × (all_panel_ids (add_place p new t r).0 ≡ (
            if contains p (all_panel_ids t)
            then insert_after p new (all_panel_ids t)
            else all_panel_ids t))
  unfolding add_place
  add_place-ids p new t none h = rw h (refl, refl)
  add_place-ids p new t (some (pane xs sel, put)) h = rw (IsPlace-holds h) (
    refl,
    rw
        (
          h.ids (pane (insert_after p new xs) (some new)),
          IsPlace-whole h,
          insert_after-append_right p new h.before (xs ++ h.after) h.not_before,
          insert_after-append_left p new xs h.after h.here,
        )
        refl,
  )
  add_place-ids p new t (some (split o d a b, put)) h = absurd h.leaf

  add_place-refused :
      (p new : Uuid) (t : LayoutNode F) (r : Option (Place F))
      → (add_place p new t r).1 ≡ false
      → (add_place p new t r).0 ≡ t
  unfolding add_place
  add_place-refused p new t none h = refl
  add_place-refused p new t (some (pane xs sel, put)) h = absurd (ground arith)
  add_place-refused p new t (some (split o d a b, put)) h = refl

  -- The flag says whether the target is in the tree. If it is, the new panel stands right behind it
  -- in the order of all panels, where the others keep their places; if not, the tree is unchanged.
  pub add_panel_to_pane-ids :
      (target new : Uuid) (t : LayoutNode F)
      → ((add_panel_to_pane target new t).1 ≡ contains target (all_panel_ids t))
        × ((((add_panel_to_pane target new t).1 ≡ false) × ((add_panel_to_pane target new t).0 ≡ t))
            ⊎ (((add_panel_to_pane target new t).1 ≡ true)
                × IsAdded target new
                    (all_panel_ids t)
                    (all_panel_ids (add_panel_to_pane target new t).0)))
  unfolding add_panel_to_pane
  add_panel_to_pane-ids target new t =
      let (flag, same) = add_place-ids target new t _ (find_pane_with_panel-IsFound target t) in
      elim (Bool-cases (contains target (all_panel_ids t))) [
        | inl e ↦ (
          flag,
          inr (flag ∙ e, rw (same, e) (insert_after-IsAdded target new (all_panel_ids t) e)),
        )
        | inr n ↦ (flag, inl (flag ∙ n, add_place-refused target new t _ (flag ∙ n)))
      ]

  add_place-IsTidy :
      (p new : Uuid) (t : LayoutNode F) (r : Option (Place F))
      → IsFound p t r
      → IsTidy t
      → IsTidy (add_place p new t r).0
  unfolding add_place
  add_place-IsTidy p new t none h tidy = tidy
  add_place-IsTidy p new t (some (pane xs sel, put)) h tidy =
      h.tidy _ tidy (added p new xs)
        (unfold is_empty in not_empty_of_contains new (insert_after p new xs) (added p new xs))
  add_place-IsTidy p new t (some (split o d a b, put)) h tidy = absurd h.leaf

  -- A tab is added to a pane that is there, so the tree stays tidy.
  pub add_panel_to_pane-IsTidy :
      (target new : Uuid) (t : LayoutNode F) → IsTidy t → IsTidy (add_panel_to_pane target new t).0
  unfolding add_panel_to_pane
  add_panel_to_pane-IsTidy target new t =
      add_place-IsTidy target new t _ (find_pane_with_panel-IsFound target t)

  reorder_place-IsMoved :
      (p : Uuid) (i : ℕ) (t : LayoutNode F) (r : Option (Place F))
      → IsFound p t r
      → IsMoved p i t (reorder_place p i t r)
  unfolding reorder_place
  reorder_place-IsMoved p i t none h = record {
    flag = sym h;
    pane_ids = rw (readonly_absent p t h) tt;
    same_ids = λ a. refl;
    tidy = λ x. x;
  }
  reorder_place-IsMoved p i t (some (pane xs sel, put)) h = rw h.here (record {
    flag = sym (IsPlace-holds h);
    pane_ids =
        rw
          (
            IsPlace-readonly xs sel put h,
            h.found (move_to p i xs) sel (contains-move_to p p i xs h.here ∙ h.here),
          )
          (move_to-IsPut p i xs h.here);
    same_ids = λ a.
        rw (h.ids (pane (move_to p i xs) sel), IsPlace-whole h)
          (omega (
            arith,
            count-move_to a p i xs h.here,
            count-append a h.before (move_to p i xs ++ h.after),
            count-append a (move_to p i xs) h.after,
            count-append a h.before (xs ++ h.after),
            count-append a xs h.after,
          ));
    tidy = λ x. h.tidy _ x (IsShown-move_to p i xs sel h.here (h.tidy_here x)) (
        unfold is_empty in
        not_empty_of_contains p (move_to p i xs) (contains-move_to p p i xs h.here ∙ h.here));
  })
  reorder_place-IsMoved p i t (some (split o d a b, put)) h = absurd h.leaf

  -- Moving a tab: the flag says whether the panel is in the tree, its pane has it at the
  -- index asked for, or last if the pane is shorter, with the others in their order, no panel is
  -- lost or made up, and a tidy tree stays tidy.
  pub reorder_panel_in_pane-IsMoved :
      (p : Uuid) (i : ℕ) (t : LayoutNode F) → IsMoved p i t (reorder_panel_in_pane p i t)
  unfolding reorder_panel_in_pane
  reorder_panel_in_pane-IsMoved p i t =
      reorder_place-IsMoved p i t _ (find_pane_with_panel-IsFound p t)
