-- ===== src/TabManager/Panels/Latest.antt =====
-- cmux/src/model/tab_manager.rs: the workspace with the newest unread notification.
use cmux_gtk.Prelude.{
  ℕ, suc, ◌+◌, ltb, ◌≡◌, ◌⊎◌, refl, ap, sym, ◌∙◌, Bool, true, false, Option, none, some, List, [],
  ◌∷◌, get_elem?, F64, IsTotal, arith, Bool-cases, Option-cases, inl, inr, if◌then◌else◌,
}
use mathlib.Core.Path.{subst}
use cmux_gtk.Workspace.{Workspace}
use cmux_gtk.TabManager.{TabManager, selected}
use cmux_gtk.TabManager.Panels.{notified_at, newest, latest_unread_index, select_latest_unread}

module _ {F : Type 0} where
  abbrev pub is_unread : Workspace F → Bool
  is_unread w = ltb 0 w.unread_count

  abbrev pub AllRead : List (Workspace F) → Type 0
  AllRead [] = Unit
  AllRead (w ∷ xs) = (is_unread w ≡ false) × AllRead xs

module _ {F : Type 0} ⦃f : F64 F⦄ where
  -- No unread workspace was notified after `t`.
  abbrev pub NoNewer : F → List (Workspace F) → Type 0
  NoNewer t [] = Unit
  NoNewer t (w ∷ xs) = (is_unread w ≡ true → f.total_lt t (notified_at w) ≡ false) × NoNewer t xs

  -- The workspace at an index is unread, and no unread one was notified later.
  pub record IsLatest (xs : List (Workspace F)) (r : ℕ) : Type 0 where
    pub here : Workspace F
    pub there : get_elem? xs r ≡ some here
    pub unread : is_unread here ≡ true
    pub no_newer : NoNewer (notified_at here) xs

  module _ (law : IsTotal f) where
    -- Where a pass that has found `t`, at `j`, ends.
    abbrev IsBest : ℕ → ℕ → F → List (Workspace F) → ℕ → Type 0
    IsBest i j t xs r =
        ((r ≡ j) × NoNewer t xs)
        ⊎ ((k : ℕ) × (w : Workspace F) × (r ≡ i + k)
            × (get_elem? xs k ≡ some w)
            × (is_unread w ≡ true)
            × NoNewer (notified_at w) xs
            × (f.total_lt (notified_at w) t ≡ false))

    module _ (i j : ℕ) (t : F) (w : Workspace F) (xs : List (Workspace F)) (r : ℕ) where
      IsBest-replaced :
          is_unread w ≡ true
          → f.total_lt (notified_at w) t ≡ false
          → IsBest (suc i) i (notified_at w) xs r
          → IsBest i j t (w ∷ xs) r
      IsBest-replaced u h (inl (at, no_newer)) =
          inr (0, w, omega arith, refl, u, ((λ _. law.irrefl (notified_at w)), no_newer), h)
      IsBest-replaced u h (inr (k, v, at, here, unread, no_newer, ge)) = inr (
        suc k,
        v,
        omega arith,
        here,
        unread,
        ((λ _. ge), no_newer),
        law.trans (notified_at v) (notified_at w) t ge h,
      )

      IsBest-kept :
          (is_unread w ≡ true → f.total_lt t (notified_at w) ≡ false)
          → IsBest (suc i) j t xs r
          → IsBest i j t (w ∷ xs) r
      IsBest-kept h (inl (at, no_newer)) = inl (at, (h, no_newer))
      IsBest-kept h (inr (k, v, at, here, unread, no_newer, ge)) = inr (
        suc k,
        v,
        omega arith,
        here,
        unread,
        ((λ u. law.trans (notified_at v) t (notified_at w) ge (h u)), no_newer),
        ge,
      )

    -- The best of `t`, at `j`, and the next workspace.
    abbrev pick : ℕ → ℕ → F → Workspace F → Option (ℕ × F)
    pick i j t w =
        if is_unread w
        then (if f.total_lt (notified_at w) t then some (j, t) else some (i, notified_at w))
        else some (j, t)

    newest-some :
        (i j : ℕ) (t : F) (xs : List (Workspace F))
        → (r : ℕ) × (newest i (some (j, t)) xs ≡ some r) × IsBest i j t xs r
    unfolding newest
    newest-some i j t [] = (j, refl, inl (refl, tt))
    newest-some i j t (w ∷ xs) = elim (Bool-cases (is_unread w)) [
      | inr read ↦
          let (r, e, best) = newest-some (suc i) j t xs in
          let kept : pick i j t w ≡ some (j, t) = rw read refl in
          (
            r,
            ap (λ p. newest (suc i) p xs) kept ∙ e,
            IsBest-kept i j t w xs r (λ u. absurd (ground arith)) best,
          )
      | inl unread ↦ elim (Bool-cases (f.total_lt (notified_at w) t)) [
        | inl older ↦
            let (r, e, best) = newest-some (suc i) j t xs in
            let kept : pick i j t w ≡ some (j, t) = rw (unread, older) refl in
            (
              r,
              ap (λ p. newest (suc i) p xs) kept ∙ e,
              IsBest-kept i j t w xs r (λ _. law.asym (notified_at w) t older) best,
            )
        | inr later ↦
            let (r, e, best) = newest-some (suc i) i (notified_at w) xs in
            let taken : pick i j t w ≡ some (i, notified_at w) = rw (unread, later) refl in
            (
              r,
              ap (λ p. newest (suc i) p xs) taken ∙ e,
              IsBest-replaced i j t w xs r unread later best,
            )
      ]
    ]

    -- What a pass over the workspaces returns: nothing if all are read, else the latest, counted
    -- from `i`.
    abbrev Answers : ℕ → List (Workspace F) → Option ℕ → Type 0
    Answers i xs none = AllRead xs
    Answers i xs (some r) = (k : ℕ) × (r ≡ i + k) × IsLatest xs k

    IsLatest-later :
        (w : Workspace F) (xs : List (Workspace F)) (k : ℕ)
        → is_unread w ≡ false
        → IsLatest xs k
        → IsLatest (w ∷ xs) (suc k)
    IsLatest-later w xs k read h = record {
      here = h.here;
      there = h.there;
      unread = h.unread;
      no_newer = ((λ u. absurd (ground arith)), h.no_newer);
    }

    Answers-read :
        (i : ℕ) (w : Workspace F) (xs : List (Workspace F)) (o : Option ℕ)
        → is_unread w ≡ false
        → Answers (suc i) xs o
        → Answers i (w ∷ xs) o
    Answers-read i w xs none read h = (read, h)
    Answers-read i w xs (some r) read (k, at, h) =
        (suc k, omega arith, IsLatest-later w xs k read h)

    IsLatest-best :
        (i : ℕ) (w : Workspace F) (xs : List (Workspace F)) (r : ℕ)
        → is_unread w ≡ true
        → IsBest (suc i) i (notified_at w) xs r
        → Answers i (w ∷ xs) (some r)
    IsLatest-best i w xs r unread (inl (at, no_newer)) = (
      0,
      omega arith,
      record {
        here = w;
        there = refl;
        unread = unread;
        no_newer = ((λ _. law.irrefl (notified_at w)), no_newer);
      },
    )
    IsLatest-best i w xs r unread (inr (k, v, at, here, u, no_newer, ge)) = (
      suc k,
      omega arith,
      record { here = v; there = here; unread = u; no_newer = ((λ _. ge), no_newer) },
    )

    abbrev first : ℕ → Workspace F → Option (ℕ × F)
    first i w = if is_unread w then some (i, notified_at w) else none

    newest-Answers : (i : ℕ) (xs : List (Workspace F)) → Answers i xs (newest i none xs)
    unfolding newest
    newest-Answers i [] = tt
    newest-Answers i (w ∷ xs) = elim (Bool-cases (is_unread w)) [
      | inr read ↦
          let skipped : first i w ≡ none = rw read refl in
          subst (Answers i (w ∷ xs)) (sym (ap (λ p. newest (suc i) p xs) skipped))
            (Answers-read i w xs (newest (suc i) none xs) read (newest-Answers (suc i) xs))
      | inl unread ↦
          let (r, e, best) = newest-some (suc i) i (notified_at w) xs in
          let taken : first i w ≡ some (i, notified_at w) = rw unread refl in
          subst (Answers i (w ∷ xs)) (sym (ap (λ p. newest (suc i) p xs) taken ∙ e))
            (IsLatest-best i w xs r unread best)
    ]

    found : (tm : TabManager F) → Answers 0 tm.workspaces (latest_unread_index tm)
    unfolding latest_unread_index
    found tm = newest-Answers 0 tm.workspaces

    selects_none :
        (tm : TabManager F) → latest_unread_index tm ≡ none → select_latest_unread tm ≡ (tm, none)
    unfolding select_latest_unread
    selects_none tm e = rw (e, select_latest_unread) refl

    selects_some :
        (tm : TabManager F) (r : ℕ) (w : Workspace F)
        → latest_unread_index tm ≡ some r
        → get_elem? tm.workspaces r ≡ some w
        → (selected (select_latest_unread tm).0 ≡ some w)
          × ((select_latest_unread tm).1 ≡ some w.id)
    unfolding select_latest_unread selected
    selects_some tm r w e there =
        let pair : select_latest_unread tm ≡ (record tm { selected_index = some r }, some w.id) =
          rw (e, select_latest_unread) (rw there refl) in
        rw pair (there, refl)

    -- Either all workspaces are read, no index is found and selecting the latest changes nothing; or
    -- the index found is that of an unread workspace than which no unread one was notified later, and
    -- selecting the latest selects that workspace and returns its identifier.
    pub latest_unread_index_lem :
        (tm : TabManager F)
        → (AllRead tm.workspaces
            × (latest_unread_index tm ≡ none)
            × (select_latest_unread tm ≡ (tm, none)))
          ⊎ ((r : ℕ) × (latest : IsLatest tm.workspaces r) × (latest_unread_index tm ≡ some r)
              × (selected (select_latest_unread tm).0 ≡ some latest.here)
              × ((select_latest_unread tm).1 ≡ some latest.here.id))
    latest_unread_index_lem tm = elim (Option-cases (latest_unread_index tm)) [
      | inl e ↦ inl (subst (Answers 0 tm.workspaces) e (found tm), e, selects_none tm e)
      | inr (r, e) ↦
          let (k, at, latest) = subst (Answers 0 tm.workspaces) e (found tm) in
          let index : latest_unread_index tm ≡ some k = e ∙ ap some (at ∙ omega arith) in
          let (chosen, answer) = selects_some tm k latest.here index latest.there in
          inr (k, latest, index, chosen, answer)
    ]
