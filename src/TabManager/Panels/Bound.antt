-- ===== src/TabManager/Panels/Bound.antt =====
-- cmux/src/model/tab_manager.rs: the latest unread workspace is one of the list.
use cmux_gtk.Prelude.{
  Uuid, ℕ, zero, suc, ltb, ◌+◌, ◌<◌, ◌≡◌, ◌⊎◌, inl, inr, refl, Bool, true, false, Option, none,
  some, List, [], ◌∷◌, length, get_elem?, arith, if◌then◌else◌, Option-cases, F64,
}
use cmux_gtk.Workspace.{Workspace}
use cmux_gtk.TabManager.{TabManager}
use cmux_gtk.TabManager.Panels.{newest, notified_at, latest_unread_index, select_latest_unread}

-- What is found so far stands before an index.
abbrev Before : {F : Type 0} → ℕ → Option (ℕ × F) → Type 0
Before i none = i ≡ i
Before i (some (j, t)) = j < i

Before-new :
    {F : Type 0} (b : Bool) (i : ℕ) (t : F) → Before (suc i) (if b then some (i, t) else none)
Before-new true i t = omega arith
Before-new false i t = refl

Before-either :
    {F : Type 0} (b c : Bool) (i j : ℕ) (t u : F)
    → j < i
    → Before (suc i) (if b then (if c then some (j, t) else some (i, u)) else some (j, t))
Before-either true true i j t u h = omega arith
Before-either true false i j t u h = omega arith
Before-either false c i j t u h = omega arith

module _ {F : Type 0} ⦃f : F64 F⦄ where
  newest_bound :
      (xs : List (Workspace F)) (i r : ℕ) (b : Option (ℕ × F))
      → Before i b
      → newest i b xs ≡ some r
      → r < i + length xs
  unfolding newest
  newest_bound [] i r none h e = absurd (ground arith)
  newest_bound [] i r (some (j, t)) h e = ground arith
  newest_bound (ws ∷ xs) i r none h e = omega (
    arith,
    newest_bound xs (suc i) r (if ltb 0 ws.unread_count then some (i, notified_at ws) else none)
        (Before-new (ltb 0 ws.unread_count) i (notified_at ws)) e,
  )
  newest_bound (ws ∷ xs) i r (some (j, t)) h e = omega (
    arith,
    newest_bound xs (suc i) r
        (if ltb 0 ws.unread_count
          then (if f.total_lt (notified_at ws) t then some (j, t) else some (i, notified_at ws))
          else some (j, t))
        (Before-either (ltb 0 ws.unread_count) (f.total_lt (notified_at ws) t) i j t
          (notified_at ws) h)
        e,
  )

  pub latest_bound :
      (tm : TabManager F) (r : ℕ) → latest_unread_index tm ≡ some r → r < length tm.workspaces
  unfolding latest_unread_index
  latest_bound tm r e = omega (arith, newest_bound tm.workspaces 0 r none refl e)

  get_elem?_inside :
      (xs : List (Workspace F)) (i : ℕ)
      → i < length xs
      → (w : Workspace F) × (get_elem? xs i ≡ some w)
  get_elem?_inside [] i h = elim h [ ]
  get_elem?_inside (x ∷ xs) zero h = (x, refl)
  get_elem?_inside (x ∷ xs) (suc i) h = get_elem?_inside xs i (omega arith)

  -- Either nothing is unread and nothing changes, or a workspace of the list is selected.
  pub select_latest_cases :
      (tm : TabManager F)
      → (select_latest_unread tm ≡ (tm, none))
        ⊎ ((r : ℕ) × (id : Uuid) × (r < length tm.workspaces)
            × (select_latest_unread tm ≡ (record tm { selected_index = some r }, some id)))
  unfolding select_latest_unread
  select_latest_cases tm = elim (Option-cases (latest_unread_index tm)) [
    | inl e ↦ inl (rw (select_latest_unread, e) refl)
    | inr (r, e) ↦
        let b = latest_bound tm r e in
        let (w, g) = get_elem?_inside tm.workspaces r b in
        inr (r, w.id, b, rw (select_latest_unread, e, g) refl)
  ]
