-- ===== src/TabManager/Follow.antt =====
-- cmux/src/model/tab_manager.rs: moving and removing workspaces does not change which one is
-- selected.
use cmux_gtk.Prelude.{
  ℕ, zero, suc, ◌-◌, ◌<◌, ◌≤◌, leb, ltb, ◌==◌, ◌≡◌, ◌≢◌, refl, ap, sym, true, ◌||◌, Option, none,
  some, List, [], ◌∷◌, length, get_elem?, remove_at, insert_at, if◌then◌else◌, arith,
  length-remove_at, Bool-cases, inl, inr,
}
use native.Mathlib.Decide.{dec_lt}
use cmux_gtk.Workspace.{Workspace}
use cmux_gtk.TabManager.{
  TabManager, len, selected, remove, removed_index, move_workspace, moved_index,
}

module _ {ℓ} {A : Type ℓ} where
  get_elem?-remove_at :
      (i j : ℕ) (xs : List A)
      → get_elem? (remove_at i xs) j ≡ (if ltb j i then get_elem? xs j else get_elem? xs (suc j))
  get_elem?-remove_at i j [] = ground arith
  get_elem?-remove_at zero j (x ∷ xs) = ground arith
  get_elem?-remove_at (suc i) zero (x ∷ xs) = ground arith
  get_elem?-remove_at (suc i) (suc j) (x ∷ xs) = ground (arith, get_elem?-remove_at i j xs)

  get_elem?-insert_before :
      (i j : ℕ) (v : A) (xs : List A)
      → i ≤ length xs
      → j < i
      → get_elem? (insert_at i v xs) j ≡ get_elem? xs j
  get_elem?-insert_before zero j v xs h lt = elim lt [ ]
  get_elem?-insert_before (suc i) j v [] h lt = elim h [ ]
  get_elem?-insert_before (suc i) zero v (x ∷ xs) h lt = refl
  get_elem?-insert_before (suc i) (suc j) v (x ∷ xs) h lt =
      get_elem?-insert_before i j v xs (omega arith) (omega arith)

  get_elem?-insert_here :
      (i : ℕ) (v : A) (xs : List A) → i ≤ length xs → get_elem? (insert_at i v xs) i ≡ some v
  get_elem?-insert_here zero v xs h = refl
  get_elem?-insert_here (suc i) v [] h = elim h [ ]
  get_elem?-insert_here (suc i) v (x ∷ xs) h = get_elem?-insert_here i v xs (omega arith)

  get_elem?-insert_after :
      (i j : ℕ) (v : A) (xs : List A)
      → i ≤ j
      → get_elem? (insert_at i v xs) (suc j) ≡ get_elem? xs j
  get_elem?-insert_after zero j v xs h = refl
  get_elem?-insert_after (suc i) zero v xs h = elim h [ ]
  get_elem?-insert_after (suc i) (suc j) v [] h = refl
  get_elem?-insert_after (suc i) (suc j) v (x ∷ xs) h =
      get_elem?-insert_after i j v xs (omega arith)

  module _ (from to s : ℕ) (v : A) (xs : List A) (a : from < length xs) (b : to < length xs)
      (e : get_elem? xs from ≡ some v) where
    moved : List A
    moved = insert_at to v (remove_at from xs)

    left : to ≤ length (remove_at from xs)
    left = omega (arith, length-remove_at from xs a)

    moved_self : s ≡ from → get_elem? moved (moved_index from to s) ≡ get_elem? xs s
    unfolding moved moved_index
    moved_self h =
        let m : moved_index from to s ≡ to = ground arith in
        rw (m, h, e) (get_elem?-insert_here to v (remove_at from xs) left)

    moved_before : s < from → s < to → get_elem? moved (moved_index from to s) ≡ get_elem? xs s
    unfolding moved moved_index
    moved_before h k =
        let m : moved_index from to s ≡ s = ground arith in
        rw (m, get_elem?-insert_before to s v (remove_at from xs) left k)
          (ground (arith, get_elem?-remove_at from s xs))

    moved_up : s < from → to ≤ s → get_elem? moved (moved_index from to s) ≡ get_elem? xs s
    unfolding moved moved_index
    moved_up h k =
        let m : moved_index from to s ≡ suc s = ground arith in
        rw (m, get_elem?-insert_after to s v (remove_at from xs) k)
          (ground (arith, get_elem?-remove_at from s xs))

  moved_down :
      (from to s : ℕ) (v : A) (xs : List A)
      → to ≤ length (remove_at from xs)
      → from < suc s
      → suc s ≤ to
      → get_elem? (insert_at to v (remove_at from xs)) (moved_index from to (suc s))
        ≡ get_elem? xs (suc s)
  unfolding moved_index
  moved_down from to s v xs left h k =
      let m : moved_index from to (suc s) ≡ s = ground arith in
      rw (m, get_elem?-insert_before to s v (remove_at from xs) left (omega arith))
        (ground (arith, get_elem?-remove_at from s xs))

  moved_after :
      (from to s : ℕ) (v : A) (xs : List A)
      → from < suc s
      → to < suc s
      → get_elem? (insert_at to v (remove_at from xs)) (moved_index from to (suc s))
        ≡ get_elem? xs (suc s)
  unfolding moved_index
  moved_after from to s v xs h k =
      let m : moved_index from to (suc s) ≡ suc s = ground arith in
      rw (m, get_elem?-insert_after to s v (remove_at from xs) (omega arith))
        (ground (arith, get_elem?-remove_at from s xs))

  -- The item that stood at `s` stands at the index that `moved_index` gives.
  get_elem?-moved :
      (from to s : ℕ) (v : A) (xs : List A)
      → from < length xs
      → to < length xs
      → get_elem? xs from ≡ some v
      → get_elem? (insert_at to v (remove_at from xs)) (moved_index from to s) ≡ get_elem? xs s
  unfolding moved
  get_elem?-moved from to zero v xs a b e = elim (dec_lt 0 from) [
    | no n ↦ moved_self from to 0 v xs a b e (omega arith)
    | yes h ↦ elim (dec_lt 0 to) [
      | yes k ↦ moved_before from to 0 v xs a b e h k
      | no k ↦ moved_up from to 0 v xs a b e h (omega arith)
    ]
  ]
  get_elem?-moved from to (suc s) v xs a b e = elim (dec_lt (suc s) from) [
    | yes h ↦ elim (dec_lt (suc s) to) [
      | yes k ↦ moved_before from to (suc s) v xs a b e h k
      | no k ↦ moved_up from to (suc s) v xs a b e h (omega arith)
    ]
    | no n ↦ elim (dec_lt from (suc s)) [
      | no k ↦ moved_self from to (suc s) v xs a b e (omega arith)
      | yes h ↦ elim (dec_lt to (suc s)) [
        | yes k ↦ moved_after from to s v xs h k
        | no k ↦
            moved_down from to s v xs (omega (arith, length-remove_at from xs a)) h (omega arith)
      ]
    ]
  ]

module _ {ℓ} {A : Type ℓ} where
  get_elem?_total : (xs : List A) (i : ℕ) → i < length xs → (x : A) × (get_elem? xs i ≡ some x)
  get_elem?_total [] i h = elim h [ ]
  get_elem?_total (x ∷ xs) zero h = (x, refl)
  get_elem?_total (x ∷ xs) (suc i) h = get_elem?_total xs i (omega arith)

  get_elem?-kept :
      (i s : ℕ) (xs : List A)
      → s ≢ i
      → get_elem? (remove_at i xs) (if ltb i s then s - 1 else s) ≡ get_elem? xs s
  get_elem?-kept i zero xs ne = ground (arith, get_elem?-remove_at i 0 xs)
  get_elem?-kept i (suc s) xs ne =
      ground (arith, get_elem?-remove_at i s xs, get_elem?-remove_at i (suc s) xs)

removed_index_kept :
    (i s n : ℕ)
    → i < suc n
    → s < suc n
    → s ≢ i
    → removed_index i n (some s) ≡ some (if ltb i s then s - 1 else s)
unfolding removed_index
removed_index_kept i s n a b ne = ground arith

module _ {F : Type 0} where
  selection_moved :
      (from to : ℕ) (s : Option ℕ) (v : Workspace F) (xs : List (Workspace F))
      → from < length xs
      → to < length xs
      → get_elem? xs from ≡ some v
      → selected (record {
        workspaces = insert_at to v (remove_at from xs);
        selected_index = elim s [ none ↦ none | some i ↦ some (moved_index from to i) ];
      })
        ≡ selected (record { workspaces = xs; selected_index = s })
  unfolding selected
  selection_moved from to none v xs a b e = refl
  selection_moved from to (some s) v xs a b e = get_elem?-moved from to s v xs a b e

  -- Moving a workspace between indices in bounds succeeds and keeps the selected workspace
  -- selected, whichever it is, and the moved workspace stands at its new index.
  pub move_workspace-selected :
      (from to : ℕ) (tm : TabManager F)
      → from < len tm
      → to < len tm
      → ((move_workspace from to tm).1 ≡ true)
        × (selected (move_workspace from to tm).0 ≡ selected tm)
        × (get_elem? (move_workspace from to tm).0.workspaces to ≡ get_elem? tm.workspaces from)
  unfolding move_workspace
  move_workspace-selected from to tm a b =
      elim (Bool-cases (leb (len tm) from || (leb (len tm) to || from == to))) [
        | inl e ↦
            let same : from ≡ to = ground arith in
            rw e (ground arith, refl, ap (λ i. get_elem? tm.workspaces i) (sym same))
        | inr n ↦
            let (v, e) = get_elem?_total tm.workspaces from a in
            let left : to ≤ length (remove_at from tm.workspaces) =
              omega (arith, length-remove_at from tm.workspaces a) in
            rw (n, e)
              (
                refl,
                selection_moved from to tm.selected_index v tm.workspaces a b e,
                get_elem?-insert_here to v (remove_at from tm.workspaces) left,
              )
      ]

  selection_removed :
      (i sel : ℕ) (s : Option ℕ) (xs : List (Workspace F))
      → i < length xs
      → s ≡ some sel
      → sel < length xs
      → sel ≢ i
      → selected (record {
        workspaces = remove_at i xs;
        selected_index = removed_index i (length (remove_at i xs)) s;
      })
        ≡ selected (record { workspaces = xs; selected_index = s })
  unfolding selected
  selection_removed i sel s xs a e b ne =
      let n = length-remove_at i xs a in
      rw (e, removed_index_kept i sel (length (remove_at i xs)) (omega arith) (omega arith) ne)
        (get_elem?-kept i sel xs ne)

  -- Removing a workspace that is not the selected one keeps the selected one selected.
  pub remove-selected :
      (i sel : ℕ) (tm : TabManager F)
      → i < len tm
      → tm.selected_index ≡ some sel
      → sel < len tm
      → sel ≢ i
      → selected (remove i tm).0 ≡ selected tm
  unfolding remove
  remove-selected i sel tm a e b ne =
      let (v, at) = get_elem?_total tm.workspaces i a in
      rw (at, remove) (selection_removed i sel tm.selected_index tm.workspaces a e b ne)
