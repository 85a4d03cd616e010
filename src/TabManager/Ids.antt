-- ===== src/TabManager/Ids.antt =====
-- cmux/src/model/tab_manager.rs: the identifiers of the workspaces.
use cmux_gtk.Prelude.{
  Uuid, ℕ, zero, suc, ◌<◌, ◌==◌, leb, ◌≡◌, refl, ap, ◌∙◌, false, ◌||◌, some, List, [], ◌∷◌, map,
  length, get_elem?, remove_at, insert_at, position, arith, position-get_elem?, Bool-cases,
  Option-cases, inl, inr, length-insert_at, length-remove_at,
}
use cmux_gtk.Workspace.{Workspace}
use cmux_gtk.TabManager.{TabManager, has_id, len, move_workspace, workspace_index}

module _ {F : Type 0} where
  -- The identifiers of the workspaces, in order.
  abbrev pub ids : TabManager F → List Uuid
  ids tm = map (λ ws. ws.id) tm.workspaces

  abbrev ids_of : List (Workspace F) → List Uuid
  ids_of xs = map (λ ws. ws.id) xs

  pub length-ids : (xs : List (Workspace F)) → length (ids_of xs) ≡ length xs
  length-ids [] = refl
  length-ids (x ∷ xs) = ap suc (length-ids xs)

  position-ids :
      (id : Uuid) (xs : List (Workspace F))
      → position (has_id id) xs ≡ position (λ a. a == id) (ids_of xs)
  position-ids id [] = refl
  position-ids id (x ∷ xs) = rw (position-ids id xs) refl

  pub remove_at-ids :
      (i : ℕ) (xs : List (Workspace F)) → ids_of (remove_at i xs) ≡ remove_at i (ids_of xs)
  remove_at-ids i [] = refl
  remove_at-ids zero (x ∷ xs) = refl
  remove_at-ids (suc i) (x ∷ xs) = ap (λ l. x.id ∷ l) (remove_at-ids i xs)

  insert_at-ids :
      (i : ℕ) (w : Workspace F) (xs : List (Workspace F))
      → ids_of (insert_at i w xs) ≡ insert_at i w.id (ids_of xs)
  insert_at-ids zero w xs = refl
  insert_at-ids (suc i) w [] = refl
  insert_at-ids (suc i) w (x ∷ xs) = ap (λ l. x.id ∷ l) (insert_at-ids i w xs)

  -- A workspace that is found and moved.
  pub move_workspace-ids :
      (i desired : ℕ) (w : Workspace F) (tm : TabManager F)
      → i < len tm
      → desired < len tm
      → (i == desired) ≡ false
      → get_elem? tm.workspaces i ≡ some w
      → ids_of (move_workspace i desired tm).0.workspaces
        ≡ insert_at desired w.id (remove_at i (ids_of tm.workspaces))
  unfolding move_workspace
  move_workspace-ids i desired w tm a b n e =
      let outside : (leb (len tm) i || (leb (len tm) desired || i == desired)) ≡ false =
        ground arith in
      rw (outside, e)
        (insert_at-ids desired w (remove_at i tm.workspaces)
          ∙ ap (insert_at desired w.id) (remove_at-ids i tm.workspaces))

  pub workspace_index-ids :
      (id : Uuid) (tm : TabManager F) → workspace_index id tm ≡ position (λ a. a == id) (ids tm)
  unfolding workspace_index
  workspace_index-ids id tm = position-ids id tm.workspaces

  -- The index found is that of a workspace with the identifier.
  pub workspace_index-found :
      (id : Uuid) (tm : TabManager F) (i : ℕ)
      → workspace_index id tm ≡ some i
      → (w : Workspace F) × (get_elem? tm.workspaces i ≡ some w) × (w.id ≡ id) × (i < len tm)
  unfolding workspace_index
  workspace_index-found id tm i e =
      let (w, g, t, b) = position-get_elem? (has_id id) tm.workspaces i e in (w, g, ground arith, b)

  pub move_workspace-len :
      (i desired : ℕ) (tm : TabManager F) → len (move_workspace i desired tm).0 ≡ len tm
  unfolding move_workspace
  move_workspace-len i desired tm =
      elim (Bool-cases (leb (len tm) i || (leb (len tm) desired || i == desired))) [
        | inl e ↦ rw e refl
        | inr n ↦ elim (Option-cases (get_elem? tm.workspaces i)) [
          | inl e ↦ rw (n, e) refl
          | inr (w, e) ↦
              rw (n, e)
                (length-insert_at desired w (remove_at i tm.workspaces)
                  ∙ length-remove_at i tm.workspaces (ground arith))
        ]
      ]
