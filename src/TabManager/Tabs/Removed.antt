-- ===== src/TabManager/Tabs/Removed.antt =====
-- cmux/src/model/tab_manager.rs: removal by index does what removal of a tab says.
use cmux_gtk.Prelude.{
  Uuid, ℕ, ◌-◌, ◌==◌, ◌<◌, ◌≤◌, ltb, ◌≡◌, ◌≢◌, refl, ap, ap₂, sym, ◌∙◌, true, false, Option, none,
  some, or_else, is_some_eq, List, [], ◌∷◌, length, get_elem?, last?, remove_at, count,
  if◌then◌else◌, arith, Bool-cases, Option-cases, inl, inr,
}
use cmux_gtk.Workspace.{Workspace}
use cmux_gtk.TabManager.{
  TabManager, IsValid, Points, len, selected, selected_id, remove, removed_index,
}
use cmux_gtk.TabManager.Ids.{ids, length-ids, remove_at-ids}
use cmux_gtk.TabManager.Follow.{remove-selected}
use cmux_gtk.TabManager.Tabs.{
  take_out, get_elem?_total, get_elem?_past, get_elem?-last?, get_elem?_unique,
}
use cmux_gtk.TabManager.Tabs.Refined.{view, ids_at, chosen_at, get_elem?-ids, id_of}

-- The selection on the item that goes.
removed_index_here :
    (i n : ℕ)
    → removed_index i n (some i)
      ≡ (if ltb i n then some i else if n == 0 then none else some (n - 1))
unfolding removed_index
removed_index_here i n = ground arith

module _ {F : Type 0} (i : ℕ) (w : Workspace F) (tm : TabManager F)
    (at : get_elem? tm.workspaces i ≡ some w) where
  removed-ids : ids (remove i tm).0 ≡ remove_at i (ids tm)
  unfolding remove
  removed-ids = rw (remove, at) (remove_at-ids i tm.workspaces)

  removed-index :
      (remove i tm).0.selected_index
      ≡ removed_index i (length (remove_at i (ids tm))) tm.selected_index
  unfolding remove
  removed-index =
      rw (remove, at)
        (ap (λ n. removed_index i n tm.selected_index)
          (sym (length-ids (remove_at i tm.workspaces))
            ∙ ap length (remove_at-ids i tm.workspaces)))

  rest : List Uuid
  rest = remove_at i (ids tm)

  chosen_rest :
      (k : ℕ)
      → (remove i tm).0.selected_index ≡ some k
      → selected_id (remove i tm).0 ≡ get_elem? rest k
  unfolding rest
  chosen_rest k e = chosen_at k (remove i tm).0 e ∙ ap (λ l. get_elem? l k) removed-ids

  chosen_none : (remove i tm).0.selected_index ≡ none → selected_id (remove i tm).0 ≡ none
  unfolding selected_id selected
  chosen_none e = rw (selected_id, selected, e) refl

  chosen_next :
      tm.selected_index ≡ some i
      → selected_id (remove i tm).0 ≡ or_else (get_elem? rest i) (last? rest)
  unfolding rest
  chosen_next s =
      let index : (remove i tm).0.selected_index ≡ (
          if ltb i (length rest)
          then some i
          else if length rest == 0
          then none
          else some (length rest - 1)) =
        removed-index ∙ ap (removed_index i (length rest)) s ∙ removed_index_here i (length rest) in
      elim (Bool-cases (ltb i (length rest))) [
        | inl b ↦
            let (x, here) = get_elem?_total rest i (ground arith) in
            rw (chosen_rest i (ground arith), here) refl
        | inr b ↦
            let past = get_elem?_past rest i (ground arith) in
            elim (Bool-cases (length rest == 0)) [
              | inl z ↦ rw (chosen_none (ground arith), past) (last_none rest (ground arith))
              | inr nz ↦
                  rw (chosen_rest (length rest - 1) (ground arith), past)
                    (get_elem?-last? rest (length rest - 1) (ground arith))
            ]
      ]
    where
      last_none : (xs : List Uuid) → length xs ≡ 0 → none ≡ last? xs
      last_none [] h = refl
      last_none (x ∷ xs) h = absurd (omega arith)

  -- Where another tab is chosen, its identifier is not the one that goes.
  chosen_other :
      (sel : ℕ)
      → count w.id (ids tm) ≤ 1
      → sel < len tm
      → tm.selected_index ≡ some sel
      → sel ≢ i
      → is_some_eq (selected_id tm) w.id ≡ false
  chosen_other sel one b s ne =
      let (u, here) = get_elem?_total tm.workspaces sel b in
      let chosen : selected_id tm ≡ some u.id = chosen_at sel tm s ∙ ids_at sel u tm here in
      rw chosen (elim (Bool-cases (u.id == w.id)) [
        | inr n ↦ n
        | inl e ↦
            let same : u.id ≡ w.id = ground arith in
            absurd (
              ne (
                get_elem?_unique sel i w.id (ids tm) one (ids_at sel u tm here ∙ ap some same)
                  (ids_at i w tm at)))
      ])

  chosen_kept :
      (sel : ℕ)
      → sel < len tm
      → tm.selected_index ≡ some sel
      → sel ≢ i
      → i < len tm
      → selected_id (remove i tm).0 ≡ selected_id tm
  unfolding selected_id
  chosen_kept sel b s ne inside = ap id_of (remove-selected i sel tm inside s b ne)

  chosen_here : tm.selected_index ≡ some i → is_some_eq (selected_id tm) w.id ≡ true
  chosen_here s = rw (chosen_at i tm s, ids_at i w tm at) (ground arith)

  removed-chosen :
      (sel : ℕ)
      → count w.id (ids tm) ≤ 1
      → sel < len tm
      → i < len tm
      → tm.selected_index ≡ some sel
      → selected_id (remove i tm).0 ≡ (
          if is_some_eq (selected_id tm) w.id
          then or_else (get_elem? rest i) (last? rest)
          else selected_id tm)
  removed-chosen sel one b inside s = elim (Bool-cases (sel == i)) [
    | inl e ↦
        let here : tm.selected_index ≡ some i = s ∙ ap some (ground arith) in
        rw (chosen_here here) (chosen_next here)
    | inr n ↦
        let ne : sel ≢ i = λ e. absurd (ground arith) in
        rw (chosen_other sel one b s ne) (chosen_kept sel b s ne inside)
  ]

module _ {F : Type 0} where
  pub remove-view :
      (i : ℕ) (tm : TabManager F)
      → IsValid tm
      → ((a : Uuid) → count a (ids tm) ≤ 1)
      → view (remove i tm).0 ≡ take_out i (view tm)
  unfolding take_out remove rest
  remove-view i tm v one = elim (Option-cases (get_elem? tm.workspaces i)) [
    | inl n ↦
        let absent : get_elem? (ids tm) i ≡ none = rw (get_elem?-ids i tm.workspaces, n) refl in
        rw (take_out, absent, remove, n) refl
    | inr (w, at) ↦
        let inside : i < len tm = bound tm.workspaces i w at in
        let (sel, s, b) = pointed tm.selected_index (len tm) inside v in
        rw (take_out, ids_at i w tm at)
          (ap₂ (λ l c. record { tabs = l; chosen = c }) (removed-ids i w tm at)
            (removed-chosen i w tm at sel (one w.id) b inside s))
  ]
    where
      bound :
          (xs : List (Workspace F)) (i : ℕ) (w : Workspace F)
          → get_elem? xs i ≡ some w
          → i < length xs
      bound xs i w e = elim (Bool-cases (ltb i (length xs))) [
        | inl h ↦ ground arith
        | inr h ↦ absurd (ground (arith, get_elem?_past xs i (ground arith)))
      ]

      pointed : (s : Option ℕ) (n : ℕ) → i < n → Points n s → (sel : ℕ) × (s ≡ some sel) × (sel < n)
      pointed none n h p = absurd (omega arith)
      pointed (some sel) n h p = (sel, refl, p)
