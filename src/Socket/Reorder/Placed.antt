-- ===== src/Socket/Reorder/Placed.antt =====
-- cmux/src/socket/v2/workspace.rs: what `workspace.reorder_workspaces` leaves of the list.
use cmux_gtk.Prelude.{
  Uuid, ℕ, zero, suc, ◌+◌, ◌≤◌, ◌<◌, ◌==◌, ◌≡◌, refl, ap, sym, ◌∙◌, Bool, true, Option, none, some,
  List, [], ◌∷◌, map, length, get_elem?, remove_at, insert_at, position, find, contains, arith,
  if◌then◌else◌, Bool-cases, Option-cases, inl, inr,
}
use cmux_gtk.Workspace.{Workspace}
use cmux_gtk.TabManager.{TabManager, len, selected, move_workspace, workspace_index}
use cmux_gtk.TabManager.Ids.{
  ids, move_workspace-ids, move_workspace-len, workspace_index-ids, workspace_index-found,
}
use cmux_gtk.TabManager.Follow.{move_workspace-selected}
use cmux_gtk.Socket.Reorder.{place, place_all}
use cmux_gtk.Socket.Reorder.Moves.{place_id, place_ids}

place_id_at :
    (desired : ℕ) (id : Uuid) (l : List Uuid) (o : Option ℕ)
    → position (λ a. a == id) l ≡ o
    → place_id desired id l ≡ (elim o [
      | none ↦ l
      | some i ↦ if i == desired then l else insert_at desired id (remove_at i l)
    ])
place_id_at desired id l o e = rw (place_id, e) refl

module _ {F : Type 0} where
  place_absent :
      (desired : ℕ) (id : Uuid) (tm : TabManager F)
      → workspace_index id tm ≡ none
      → place desired id tm ≡ tm
  unfolding place
  place_absent desired id tm e = rw (place, e) refl

  place_found :
      (desired : ℕ) (id : Uuid) (tm : TabManager F) (i : ℕ)
      → workspace_index id tm ≡ some i
      → place desired id tm ≡ (if i == desired then tm else (move_workspace i desired tm).0)
  unfolding place
  place_found desired id tm i e = rw (place, e) refl

  place-ids :
      (desired : ℕ) (id : Uuid) (tm : TabManager F)
      → desired < len tm
      → (ids (place desired id tm) ≡ place_id desired id (ids tm))
        × (selected (place desired id tm) ≡ selected tm)
  place-ids desired id tm b = elim (Option-cases (workspace_index id tm)) [
    | inl e ↦
        let p = place_id_at desired id (ids tm) none (sym (workspace_index-ids id tm) ∙ e) in
        rw (place_absent desired id tm e, p) (refl, refl)
    | inr (i, e) ↦
        let p = place_id_at desired id (ids tm) (some i) (sym (workspace_index-ids id tm) ∙ e) in
        let (w, g, same, a) = workspace_index-found id tm i e in
        rw (place_found desired id tm i e, p)
          (elim (Bool-cases (i == desired)) [
            | inl h ↦ rw h (refl, refl)
            | inr n ↦ rw n (
              move_workspace-ids i desired w tm a b n g
                  ∙ ap (λ x. insert_at desired x (remove_at i (ids tm))) same,
              (move_workspace-selected i desired tm a b).1,
            )
          ])
  ]

  place-len :
      (desired : ℕ) (id : Uuid) (tm : TabManager F)
      → desired < len tm
      → len (place desired id tm) ≡ len tm
  place-len desired id tm b = elim (Option-cases (workspace_index id tm)) [
    | inl e ↦ ap len (place_absent desired id tm e)
    | inr (i, e) ↦
        let (w, g, same, a) = workspace_index-found id tm i e in
        ap len (place_found desired id tm i e) ∙ (elim (Bool-cases (i == desired)) [
          | inl h ↦ rw h refl
          | inr n ↦ rw n (move_workspace-len i desired tm)
        ])
  ]

  pub place_all-ids :
      (order : List Uuid) (desired : ℕ) (tm : TabManager F)
      → desired + length order ≤ len tm
      → (ids (place_all desired order tm) ≡ place_ids desired order (ids tm))
        × (selected (place_all desired order tm) ≡ selected tm)
  unfolding place_all
  place_all-ids [] desired tm b = (refl, refl)
  place_all-ids (id ∷ order) desired tm b =
      let h : desired < len tm = omega arith in
      let (p, s) = place-ids desired id tm h in
      let (q, t) =
        place_all-ids order (suc desired) (place desired id tm)
          (omega (arith, place-len desired id tm h)) in
      (rw (sym p) q, t ∙ s)

  -- A name that is resolved is that of a workspace of the list.
  pub get_elem?-ids :
      (xs : List (Workspace F)) (i : ℕ) (w : Workspace F)
      → get_elem? xs i ≡ some w
      → contains w.id (map (λ ws. ws.id) xs) ≡ true
  get_elem?-ids [] i w h = absurd (ground arith)
  get_elem?-ids (x ∷ xs) zero w h = let same : x ≡ w = ground arith in rw same (ground arith)
  get_elem?-ids (x ∷ xs) (suc i) w h = ground (arith, get_elem?-ids xs i w h)

  pub find-ids :
      (test : Workspace F → Bool) (xs : List (Workspace F)) (w : Workspace F)
      → find test xs ≡ some w
      → contains w.id (map (λ ws. ws.id) xs) ≡ true
  find-ids test [] w h = absurd (ground arith)
  find-ids test (x ∷ xs) w h = elim (Bool-cases (test x)) [
    | inl e ↦ let same : x ≡ w = ground arith in rw same (ground arith)
    | inr n ↦ ground (arith, find-ids test xs w)
  ]
