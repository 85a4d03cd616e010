-- ===== src/TabManager/Panels/Moved.antt =====
-- cmux/src/model/tab_manager.rs: a panel that moves to another workspace finds it.
use cmux_gtk.Prelude.{
  Uuid, ℕ, zero, suc, ◌==◌, ◌≡◌, ◌⊎◌, inl, inr, refl, ap, sym, ◌∙◌, Bool, true, false, Option, none,
  some, List, [], ◌∷◌, get_elem?, remove_at, find, update_first, arith, if◌then◌else◌, Bool-cases,
  Option-cases, length-update_first, F64, get,
}
use cmux_gtk.Layout.{horizontal}
use cmux_gtk.Panel.{Panel}
use cmux_gtk.Workspace.{Workspace, detach_panel, insert_panel}
use cmux_gtk.TabManager.{
  TabManager, IsValid, has_id, workspace, workspace_index, remove, remove_by_id,
}
use cmux_gtk.TabManager.Ids.{workspace_index-found}
use cmux_gtk.TabManager.Runs.{remove_by_id-IsValid}
use cmux_gtk.TabManager.Panels.{
  find_workspace_with_panel, update_workspace, is_emptied, insert_into, move_panel_to_workspace,
}

module _ {F : Type 0} where
  detach_panel-id : (p : Uuid) (ws : Workspace F) → (detach_panel p ws).0.id ≡ ws.id
  unfolding detach_panel
  detach_panel-id p ws = elim (Option-cases (get p ws.panels)) [
    | inl e ↦ rw (detach_panel, e) refl
    | inr (q, e) ↦ rw (detach_panel, e) refl
  ]

  find-replaced :
      (source target : Uuid) (rest : Workspace F) (xs : List (Workspace F))
      → rest.id ≡ source
      → (source == target) ≡ false
      → find (has_id target) (update_first (has_id source) (λ _. rest) xs) ≡ find (has_id target) xs
  find-replaced source target rest [] e n = refl
  find-replaced source target rest (x ∷ xs) e n =
      ground (arith, find-replaced source target rest xs e n)

  find-removed :
      (target : Uuid) (i : ℕ) (w : Workspace F) (xs : List (Workspace F))
      → get_elem? xs i ≡ some w
      → (w.id == target) ≡ false
      → find (has_id target) (remove_at i xs) ≡ find (has_id target) xs
  find-removed target i w [] g n = refl
  find-removed target zero w (x ∷ xs) g n = let same : x ≡ w = ground arith in rw same (rw n refl)
  find-removed target (suc i) w (x ∷ xs) g n = ground (arith, find-removed target i w xs g n)

  remove_at_index :
      (i : ℕ) (w : Workspace F) (tm : TabManager F)
      → get_elem? tm.workspaces i ≡ some w
      → (remove i tm).0.workspaces ≡ remove_at i tm.workspaces
  unfolding remove
  remove_at_index i w tm g = rw (remove, g) refl

  pub workspace-remove_by_id :
      (source target : Uuid) (tm : TabManager F)
      → (source == target) ≡ false
      → workspace target (remove_by_id source tm).0 ≡ workspace target tm
  unfolding remove_by_id workspace
  workspace-remove_by_id source target tm n = elim (Option-cases (workspace_index source tm)) [
    | inl e ↦ rw (remove_by_id, e) refl
    | inr (i, e) ↦
        let (w, g, same, b) = workspace_index-found source tm i e in
        let other : (w.id == target) ≡ false = ap (λ a. a == target) same ∙ n in
        rw (remove_by_id, e)
          (ap (find (has_id target)) (remove_at_index i w tm g)
            ∙ find-removed target i w tm.workspaces g other)
  ]

  workspace-replaced :
      (source target : Uuid) (rest : Workspace F) (tm : TabManager F)
      → rest.id ≡ source
      → (source == target) ≡ false
      → workspace target (update_workspace source (λ _. rest) tm) ≡ workspace target tm
  unfolding workspace
  workspace-replaced source target rest tm e n = find-replaced source target rest tm.workspaces e n

  pub drop_if :
      (b : Bool) (source : Uuid) (tm : TabManager F)
      → IsValid tm
      → IsValid (if b then (remove_by_id source tm).0 else tm)
  drop_if true source tm v = remove_by_id-IsValid source tm v
  drop_if false source tm v = v

  workspace-drop_if :
      (b : Bool) (source target : Uuid) (tm : TabManager F)
      → (source == target) ≡ false
      → workspace target (if b then (remove_by_id source tm).0 else tm) ≡ workspace target tm
  workspace-drop_if true source target tm n = workspace-remove_by_id source target tm n
  workspace-drop_if false source target tm n = refl

  pub update_workspace-IsValid :
      (id : Uuid) (g : Workspace F → Workspace F) (tm : TabManager F)
      → IsValid tm
      → IsValid (update_workspace id g tm)
  update_workspace-IsValid id g tm v = rw (length-update_first (has_id id) g tm.workspaces) v

  -- The workspace found has the identifier.
  workspace_found :
      (id : Uuid) (tm : TabManager F) (w : Workspace F) → workspace id tm ≡ some w → w.id ≡ id
  unfolding workspace
  workspace_found id tm w h = go tm.workspaces h
    where
      go : (xs : List (Workspace F)) → find (has_id id) xs ≡ some w → w.id ≡ id
      go [] e = absurd (ground arith)
      go (x ∷ xs) e = elim (Bool-cases (x.id == id)) [
        | inl y ↦ let same : x ≡ w = ground arith in rw (sym same) (ground arith)
        | inr n ↦ go xs (rw n at e)
      ]

module _ {F : Type 0} ⦃f : F64 F⦄ where
  -- Either nothing changes, or the panel is in the target and the list is valid.
  abbrev pub MoveAnswer : Uuid → TabManager F → TabManager F × Option Uuid → Type 0
  MoveAnswer target tm r =
      (r ≡ (tm, none)) ⊎ ((after : TabManager F) × (r ≡ (after, some target)) × IsValid after)

  insert_into_cases :
      (p source target : Uuid) (r : Workspace F × Option (Panel F)) (tm : TabManager F)
      (w : Workspace F)
      → IsValid tm
      → r.0.id ≡ source
      → (source == target) ≡ false
      → workspace target tm ≡ some w
      → MoveAnswer target tm (insert_into p source target r tm)
  unfolding insert_into
  insert_into_cases p source target (rest, none) tm w v e n h = inl refl
  insert_into_cases p source target (rest, some q) tm w v e n h =
      let detached = update_workspace source (λ _. rest) tm in
      let b = is_emptied (workspace source detached) in
      let pruned = if b then (remove_by_id source detached).0 else detached in
      let there : workspace target pruned ≡ some w =
        workspace-drop_if b source target detached n
        ∙ workspace-replaced source target rest tm e n
        ∙ h in
      inr (
        update_workspace target (λ ws. (insert_panel q horizontal ws).0) pruned,
        rw (insert_into, there) refl,
        update_workspace-IsValid target (λ ws. (insert_panel q horizontal ws).0) pruned
            (drop_if b source detached (update_workspace-IsValid source (λ _. rest) tm v)),
      )

  pub move_panel_cases :
      (p target : Uuid) (tm : TabManager F)
      → IsValid tm
      → MoveAnswer target tm (move_panel_to_workspace p target tm)
  unfolding move_panel_to_workspace
  move_panel_cases p target tm v = elim (Option-cases (find_workspace_with_panel p tm)) [
    | inl e ↦ inl (rw (move_panel_to_workspace, e) refl)
    | inr (source, e) ↦ elim (Bool-cases (source.id == target)) [
      | inl y ↦ inl (rw (move_panel_to_workspace, e, y) refl)
      | inr n ↦ elim (Option-cases (workspace target tm)) [
        | inl h ↦ inl (rw (move_panel_to_workspace, e, n, h) refl)
        | inr (w, h) ↦ elim (Option-cases (workspace source.id tm)) [
          | inl k ↦ inl (rw (move_panel_to_workspace, e, n, h, k) refl)
          | inr (ws, k) ↦
              rw (move_panel_to_workspace, e, n, h, k)
                (insert_into_cases p source.id target (detach_panel p ws) tm w v
                  (detach_panel-id p ws ∙ workspace_found source.id tm ws k) n h)
        ]
      ]
    ]
  ]
