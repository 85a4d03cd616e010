-- ===== src/TabManager/Closing/Result.antt =====
-- cmux/src/model/tab_manager.rs: what `close_others`, `close_above` and `close_below` leave.
use cmux_gtk.Prelude.{
  ◌⊎◌, Option-cases, inl, inr, none, Uuid, ℕ, ◌+◌, ◌<◌, ◌≤◌, leb, ◌==◌, ◌≡◌, refl, ◌∙◌, Bool, false,
  not, ◌&&◌, some, List, ◌++◌, length, take, drop, get_elem?, position, arith, length-append,
  ==_iff, position-get_elem?, position-append, position-drop, position-retain,
  get_elem?-append_left, get_elem?-take, length-take,
}
use cmux_gtk.Workspace.{Workspace}
use cmux_gtk.TabManager.{TabManager, has_id, workspace_index, selected, selected_id}
use cmux_gtk.TabManager.Closing.{close_others, close_above, close_below, after_loop_lem}
use cmux_gtk.TabManager.Closing.Survivors.{
  survivors, remove_each_all, remove_each_front, remove_each_back, length-indices,
}

module _ {F : Type 0} where
  -- The workspaces that the three operations close.
  abbrev pub is_unpinned : Workspace F → Bool
  is_unpinned ws = not ws.is_pinned

  abbrev pub is_other : Uuid → Workspace F → Bool
  is_other keep ws = not (ws.id == keep) && not ws.is_pinned

  -- A manager that selects the first workspace with an identifier has that one selected.
  selected_at :
      (id : Uuid) (xs : List (Workspace F)) (i : ℕ)
      → position (has_id id) xs ≡ some i
      → selected_id (record { workspaces = xs; selected_index = some i }) ≡ some id
  unfolding selected_id
  selected_at id xs i h =
      let (ws, e, t, _) = position-get_elem? (has_id id) xs i h in
      ground (arith, e, (==_iff ws.id id).0 t)

  -- Closing the others does not panic; it leaves the workspace to keep and the pinned ones, in their
  -- order, says how many it closed, and selects the one to keep where there is one.
  pub close_others_lem :
      (keep : Uuid) (tm : TabManager F)
      → (r : TabManager F × ℕ) × (close_others keep tm ≡ some r)
        × (r.0.workspaces ≡ survivors (is_other keep) tm.workspaces)
        × (r.1 + length r.0.workspaces ≡ length tm.workspaces)
        × ((workspace_index keep tm ≡ none) ⊎ (selected_id r.0 ≡ some keep))
  unfolding close_others workspace_index
  close_others_lem keep tm = (
    _,
    after_loop_lem _ (remove_each_all (is_other keep) tm.workspaces),
    refl,
    length-indices (is_other keep) 0 tm.workspaces,
    elim (Option-cases (position (has_id keep) tm.workspaces)) [
      | inl e ↦ inl e
      | inr (i, h) ↦
          let (j, e) =
            position-retain (has_id keep) (λ ws. not (is_other keep ws)) tm.workspaces i
              (λ ws t. ground arith) h in
          inr (rw e (selected_at keep (survivors (is_other keep) tm.workspaces) j e))
    ],
  )

  -- Closing above a workspace does not panic; it drops the unpinned ones before it and nothing
  -- behind it, and selects the workspace.
  pub close_above_lem :
      (id : Uuid) (tm : TabManager F) (i : ℕ)
      → workspace_index id tm ≡ some i
      → (r : TabManager F × ℕ) × (close_above id tm ≡ some r)
        × (r.0.workspaces ≡ survivors is_unpinned (take i tm.workspaces) ++ drop i tm.workspaces)
        × (selected_id r.0 ≡ some id)
  unfolding close_above workspace_index
  close_above_lem id tm i h =
      let left = survivors is_unpinned (take i tm.workspaces) ++ drop i tm.workspaces in
      let (j, e) =
        position-append (has_id id) (survivors is_unpinned (take i tm.workspaces))
          (drop i tm.workspaces) 0 (position-drop (has_id id) tm.workspaces i h) in
      rw (h, close_above)
        (
          _,
          after_loop_lem _ (remove_each_front is_unpinned i tm.workspaces),
          refl,
          rw e (selected_at id left j e),
        )

  -- A selection at or above the index is not past the end, and stays on its workspace.
  not_past_end :
      (i sel : ℕ) (xs ys : List (Workspace F))
      → sel ≤ i
      → i < length xs
      → leb (length (take (i + 1) xs ++ ys)) sel ≡ false
  not_past_end i sel xs ys le bound =
      let front : i + 1 ≤ length (take (i + 1) xs) = omega (arith, length-take (i + 1) xs) in
      ground (arith, length-append (take (i + 1) xs) ys)

  kept_selection :
      (i sel : ℕ) (xs ys : List (Workspace F))
      → sel ≤ i
      → i < length xs
      → get_elem? (take (i + 1) xs ++ ys) sel ≡ get_elem? xs sel
  kept_selection i sel xs ys le bound =
      get_elem?-append_left (take (i + 1) xs) ys sel (omega (arith, length-take (i + 1) xs))
      ∙ get_elem?-take (i + 1) sel xs (omega arith)

  -- Closing below a workspace does not panic; it drops the unpinned ones behind it and nothing before
  -- it; a selection at or above the workspace stays on the workspace that it was on.
  pub close_below_lem :
      (id : Uuid) (tm : TabManager F) (i : ℕ)
      → workspace_index id tm ≡ some i
      → (r : TabManager F × ℕ) × (close_below id tm ≡ some r)
        × (r.0.workspaces
            ≡ take (i + 1) tm.workspaces ++ survivors is_unpinned (drop (i + 1) tm.workspaces))
        × ((sel : ℕ) → tm.selected_index ≡ some sel → sel ≤ i → selected r.0 ≡ selected tm)
  unfolding close_below workspace_index selected
  close_below_lem id tm i h =
      let bound = (position-get_elem? (has_id id) tm.workspaces i h).3 in
      let kept = survivors is_unpinned (drop (i + 1) tm.workspaces) in
      rw (h, close_below)
        (
          _,
          after_loop_lem _ (remove_each_back is_unpinned (i + 1) tm.workspaces (omega arith)),
          refl,
          λ sel e le.
              rw (e, selected)
                (rw (not_past_end i sel tm.workspaces kept le bound)
                  (kept_selection i sel tm.workspaces kept le bound)),
        )
