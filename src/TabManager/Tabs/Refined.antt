-- ===== src/TabManager/Tabs/Refined.antt =====
-- cmux/src/model/tab_manager.rs: the operations with an index do what those on the tabs say.
use cmux_gtk.Prelude.{
  Uuid, ℕ, zero, suc, ◌-◌, ◌==◌, ◌<◌, ltb, leb, ◌≡◌, refl, ap, ap₂, sym, ◌∙◌, true, false, ◌||◌,
  Option, none, some, List, [], ◌∷◌, ◌++◌, map, length, get_elem?, remove_at, insert_at, position,
  contains, arith, Bool-cases, Option-cases, inl, inr, length-append,
}
use cmux_gtk.Workspace.{Workspace}
use cmux_gtk.TabManager.{
  TabManager, has_id, len, selected, selected_id, select, select_by_id, workspace_index,
  add_workspace, add_workspace_at_top, move_workspace,
}
use cmux_gtk.TabManager.Ids.{ids, length-ids, move_workspace-ids, workspace_index-found}
use cmux_gtk.TabManager.Follow.{move_workspace-selected}
use cmux_gtk.TabManager.Tabs.{
  Tabs, pick, pick_id, push_back, push_front, transfer, get_elem?_total, get_elem?_past,
  get_elem?-last?, last?-append, insert_at-remove_at,
}

contains_at : (i a : ℕ) (xs : List ℕ) → get_elem? xs i ≡ some a → contains a xs ≡ true
contains_at i a [] e = absurd (ground arith)
contains_at zero a (x ∷ xs) e = ground arith
contains_at (suc i) a (x ∷ xs) e = ground (arith, contains_at i a xs e)

module _ {F : Type 0} where
  -- What is left of the manager without its indices.
  abbrev pub view : TabManager F → Tabs
  view tm = record { tabs = ids tm; chosen = selected_id tm }

  abbrev pub id_of : Option (Workspace F) → Option Uuid
  id_of o = elim o [ none ↦ none | some ws ↦ some ws.id ]

  pub get_elem?-ids :
      (i : ℕ) (xs : List (Workspace F))
      → get_elem? (map (λ ws. ws.id) xs) i ≡ id_of (get_elem? xs i)
  get_elem?-ids i [] = refl
  get_elem?-ids zero (x ∷ xs) = refl
  get_elem?-ids (suc i) (x ∷ xs) = get_elem?-ids i xs

  pub ids_at :
      (i : ℕ) (w : Workspace F) (tm : TabManager F)
      → get_elem? tm.workspaces i ≡ some w
      → get_elem? (ids tm) i ≡ some w.id
  ids_at i w tm e = rw (get_elem?-ids i tm.workspaces, e) refl

  pub chosen_at :
      (i : ℕ) (tm : TabManager F)
      → tm.selected_index ≡ some i
      → selected_id tm ≡ get_elem? (ids tm) i
  unfolding selected_id selected
  chosen_at i tm e = rw e (sym (get_elem?-ids i tm.workspaces))

  pub select-view : (i : ℕ) (tm : TabManager F) → view (select i tm).0 ≡ pick i (view tm)
  unfolding pick select
  select-view i tm = elim (Bool-cases (ltb i (len tm))) [
    | inl e ↦
        let (w, at) = get_elem?_total tm.workspaces i (ground arith) in
        let here = chosen_at i (record tm { selected_index = some i }) refl in
        rw (e, here, ids_at i w tm at) refl
    | inr n ↦
        let past = get_elem?_past (ids tm) i (ground (arith, length-ids tm.workspaces)) in
        rw (n, past) refl
  ]

  position-none :
      (id : Uuid) (xs : List (Workspace F))
      → position (has_id id) xs ≡ none
      → contains id (map (λ ws. ws.id) xs) ≡ false
  position-none id [] e = refl
  position-none id (x ∷ xs) e = elim (Bool-cases (x.id == id)) [
    | inl h ↦ absurd (ground arith)
    | inr h ↦ rw h (
        position-none id xs (elim (Option-cases (position (has_id id) xs)) [
          | inl n ↦ n
          | inr (i, s) ↦ absurd (ground arith)
        ]))
  ]

  pub select_by_id-view :
      (id : Uuid) (tm : TabManager F) → view (select_by_id id tm).0 ≡ pick_id id (view tm)
  unfolding pick_id select_by_id workspace_index
  select_by_id-view id tm = elim (Option-cases (position (has_id id) tm.workspaces)) [
    | inl n ↦ rw (select_by_id, n, position-none id tm.workspaces n) refl
    | inr (i, e) ↦
        let (w, at, same, b) = workspace_index-found id tm i e in
        let here = chosen_at i (record tm { selected_index = some i }) refl in
        let found : get_elem? (ids tm) i ≡ some id = ids_at i w tm at ∙ ap some same in
        rw (select_by_id, e, here, found, contains_at i id (ids tm) found) refl
  ]

  append-ids :
      (w : Workspace F) (xs : List (Workspace F))
      → map (λ ws. ws.id) (xs ++ w ∷ []) ≡ map (λ ws. ws.id) xs ++ w.id ∷ []
  append-ids w [] = refl
  append-ids w (x ∷ xs) = ap (λ l. x.id ∷ l) (append-ids w xs)

  pub add_workspace-view :
      (w : Workspace F) (tm : TabManager F) → view (add_workspace w tm).0 ≡ push_back w.id (view tm)
  unfolding push_back add_workspace
  add_workspace-view w tm =
      let n = length (tm.workspaces ++ w ∷ []) - 1 in
      let at : get_elem? (tm.workspaces ++ w ∷ []) n ≡ some w =
        get_elem?-last? (tm.workspaces ++ w ∷ []) n
          (omega (arith, length-append tm.workspaces (w ∷ [])))
        ∙ last?-append w tm.workspaces in
      let here = chosen_at n (add_workspace w tm).0 refl in
      rw (here, ids_at n w (add_workspace w tm).0 at, append-ids w tm.workspaces) refl

  pub add_workspace_at_top-view :
      (w : Workspace F) (tm : TabManager F)
      → view (add_workspace_at_top w tm).0 ≡ push_front w.id (view tm)
  unfolding push_front add_workspace_at_top selected_id selected
  add_workspace_at_top-view w tm = refl

  transferred :
      (from to : ℕ) (w : Workspace F) (tm : TabManager F)
      → from < len tm
      → to < len tm
      → get_elem? tm.workspaces from ≡ some w
      → ids (move_workspace from to tm).0 ≡ insert_at to w.id (remove_at from (ids tm))
  unfolding move_workspace
  transferred from to w tm a b at = elim (Bool-cases (from == to)) [
    | inl e ↦
        let same : from ≡ to = ground arith in
        let stay : (leb (len tm) from || (leb (len tm) to || from == to)) ≡ true = ground arith in
        rw (move_workspace, stay, sym same)
          (sym (insert_at-remove_at from w.id (ids tm) (ids_at from w tm at)))
    | inr n ↦ move_workspace-ids from to w tm a b n at
  ]

  chosen_moved :
      (from to : ℕ) (tm : TabManager F)
      → from < len tm
      → to < len tm
      → selected_id (move_workspace from to tm).0 ≡ selected_id tm
  unfolding selected_id
  chosen_moved from to tm a b = ap id_of (move_workspace-selected from to tm a b).1

  refused :
      (from to : ℕ) (tm : TabManager F)
      → (leb (len tm) from || (leb (len tm) to || from == to)) ≡ true
      → (move_workspace from to tm).0 ≡ tm
  unfolding move_workspace
  refused from to tm e = rw e refl

  pub move_workspace-view :
      (from to : ℕ) (tm : TabManager F)
      → view (move_workspace from to tm).0 ≡ transfer from to (view tm)
  unfolding transfer
  move_workspace-view from to tm = elim (Bool-cases (ltb from (len tm))) [
    | inl a ↦ elim (Bool-cases (ltb to (len tm))) [
      | inl b ↦
          let (w, at) = get_elem?_total tm.workspaces from (ground arith) in
          let inside : ltb to (length (ids tm)) ≡ true = ground (arith, length-ids tm.workspaces) in
          rw (transfer, ids_at from w tm at, inside)
            (ap₂ (λ l c. record { tabs = l; chosen = c })
              (transferred from to w tm (ground arith) (ground arith) at)
              (chosen_moved from to tm (ground arith) (ground arith)))
      | inr b ↦
          let (w, at) = get_elem?_total tm.workspaces from (ground arith) in
          let outside : ltb to (length (ids tm)) ≡ false =
            ground (arith, length-ids tm.workspaces) in
          rw (transfer, ids_at from w tm at, outside, refused from to tm (ground arith)) refl
    ]
    | inr a ↦
        let past = get_elem?_past (ids tm) from (ground (arith, length-ids tm.workspaces)) in
        rw (transfer, past, refused from to tm (ground arith)) refl
  ]
