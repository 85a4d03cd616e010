-- ===== src/Socket/Answer/Edits.antt =====
-- cmux/src/socket/v2: what is read in the parameters, and the requests that edit one workspace.
use cmux_gtk.Prelude.{
  arith, ℕ, zero, suc, length, contains_key, Uuid, Str, ◌≡◌, refl, ap, ◌∙◌, sym, Bool, false,
  Option, none, some, List, [], ◌∷◌, Option-cases, Bool-cases, inl, inr, length-update_at,
  length-update_first, get_elem?, update_at, update_first, find,
}
use cmux_gtk.Workspace.{Workspace}
use cmux_gtk.TabManager.{TabManager, IsValid, has_id, selected, workspace}
use cmux_gtk.TabManager.Panels.{find_workspace_with_panel, update_workspace}
use cmux_gtk.Socket.{SharedState, UiEvent, send_ui_event}
use cmux_gtk.Socket.Targets.{
  Target, current, by_id, by_panel, find_target, update_selected, edit_target, try_edit, edit,
}
use cmux_gtk.Socket.Answer.{IsAnswer, missing, missing-same, done}

module _ {F : Type 0} where
  length-update_selected :
      (i : Option ℕ) (g : Workspace F → Workspace F) (xs : List (Workspace F))
      → length (update_selected i g xs) ≡ length xs
  length-update_selected none g xs = refl
  length-update_selected (some i) g xs = length-update_at i g xs

  pub edit_target-IsValid :
      (target : Target) (g : Workspace F → Workspace F) (tm : TabManager F)
      → IsValid tm
      → IsValid (edit_target target g tm)
  unfolding edit_target
  edit_target-IsValid (by_id id) g tm v = rw (length-update_first (has_id id) g tm.workspaces) v
  edit_target-IsValid (by_panel id) g tm v =
      rw (length-update_first (λ ws. contains_key id ws.panels) g tm.workspaces) v
  edit_target-IsValid current g tm v =
      rw (length-update_selected tm.selected_index g tm.workspaces) v

module _ {ℓ} {A : Type ℓ} (h : A → A) where
  update_at_same :
      (i : ℕ) (xs : List A) (w : A) → get_elem? xs i ≡ some w → h w ≡ w → update_at i h xs ≡ xs
  update_at_same i [] w g e = refl
  update_at_same zero (x ∷ xs) w g e =
      let same : x ≡ w = ground arith in ap (λ y. y ∷ xs) (ap h same ∙ e ∙ sym same)
  update_at_same (suc i) (x ∷ xs) w g e = ap (λ l. x ∷ l) (update_at_same i xs w g e)

  update_first_same :
      (test : A → Bool) (xs : List A) (w : A)
      → find test xs ≡ some w
      → h w ≡ w
      → update_first test h xs ≡ xs
  update_first_same test [] w g e = refl
  update_first_same test (x ∷ xs) w g e = elim (Bool-cases (test x)) [
    | inl y ↦ let same : x ≡ w = ground arith in rw y (ap (λ z. z ∷ xs) (ap h same ∙ e ∙ sym same))
    | inr n ↦ rw n (ap (λ l. x ∷ l) (update_first_same test xs w (rw n at g) e))
  ]

module _ {F : Type 0} (h : Workspace F → Workspace F) (w : Workspace F) (same : h w ≡ w) where
  update_selected_same :
      (i : Option ℕ) (xs : List (Workspace F))
      → selected (record { workspaces = xs; selected_index = i }) ≡ some w
      → update_selected i h xs ≡ xs
  unfolding selected
  update_selected_same none xs e = refl
  update_selected_same (some i) xs e = update_at_same h i xs w e same

  -- A change that leaves the workspace found as it is changes nothing.
  pub edit_target_same :
      (target : Target) (tm : TabManager F)
      → find_target target tm ≡ some w
      → edit_target target h tm ≡ tm
  unfolding find_target edit_target workspace find_workspace_with_panel
  edit_target_same current tm e =
      ap (λ xs. record tm { workspaces = xs })
        (update_selected_same tm.selected_index tm.workspaces e)
  edit_target_same (by_id id) tm e =
      ap (λ xs. record tm { workspaces = xs })
        (update_first_same h (has_id id) tm.workspaces w e same)
  edit_target_same (by_panel id) tm e =
      ap (λ xs. record tm { workspaces = xs })
        (update_first_same h (λ ws. contains_key id ws.panels) tm.workspaces w e same)

  pub update_workspace_same :
      (id : Uuid) (tm : TabManager F) → workspace id tm ≡ some w → update_workspace id h tm ≡ tm
  unfolding workspace
  update_workspace_same id tm e =
      ap (λ xs. record tm { workspaces = xs })
        (update_first_same h (has_id id) tm.workspaces w e same)

module _ {V F : Type 0} (id : V) (state : SharedState F) (v : IsValid state.tab_manager) where
  pub edit-IsAnswer :
      (message : Str) (target : Target) (g : Workspace F → Workspace F) (event : UiEvent)
      (result : V)
      → IsAnswer id state (edit id message target g event result state)
  unfolding edit send_ui_event
  edit-IsAnswer message target g event result =
      elim (Option-cases (find_target target state.tab_manager)) [
        | inl e ↦ rw (edit, e) (missing message)
        | inr (w, e) ↦
            rw (edit, e) (done _ result (edit_target-IsValid target g state.tab_manager v))
      ]

  -- A change that can fail, and then leaves the workspace as it is.
  pub try_edit-IsAnswer :
      (gone failed : Str) (target : Target) (g : Workspace F → Workspace F × Bool) (result : V)
      → ((w : Workspace F)
          → find_target target state.tab_manager ≡ some w
          → (g w).1 ≡ false
          → (g w).0 ≡ w)
      → IsAnswer id state (try_edit id gone failed target g result state)
  unfolding try_edit send_ui_event
  try_edit-IsAnswer gone failed target g result same =
      elim (Option-cases (find_target target state.tab_manager)) [
        | inl e ↦ rw (try_edit, e) (missing gone)
        | inr (w, e) ↦ elim (Bool-cases (g w).1) [
          | inl y ↦
              rw (try_edit, e, y)
                (done _ result (edit_target-IsValid target (λ x. (g x).0) state.tab_manager v))
          | inr n ↦
              rw (try_edit, e, n)
                (missing-same id state (edit_target target (λ x. (g x).0) state.tab_manager) failed
                  (edit_target_same (λ x. (g x).0) w (same w e n) target state.tab_manager e))
        ]
      ]
