-- ===== src/Session/Grouping/Keys.antt =====
-- cmux/src/session/store.rs: the groups of `create_snapshot` are the workspaces of each window, in
-- the order of the windows' identifiers.
use mathlib.Core.Path.{subst}
use cmux_gtk.Prelude.{
  ℕ, ◌==◌, ltb, ◌≡◌, refl, ap, sym, ◌∙◌, Str, Bool, true, false, ◌||◌, List, [], ◌∷◌, ◌++◌, map,
  retain, arith, append_one, append_nil, F64, Bool-cases, inl, inr, if◌then◌else◌,
}
use cmux_gtk.Workspace.{Workspace}
use cmux_gtk.Session.Snapshot.{SessionWorkspaceSnapshot, Collected, make_ws_snapshot}
use cmux_gtk.Session.Grouping.{key_of, push_entry, window_map, create_windows}

-- All are above `k`.
abbrev pub AllAbove : ℕ → List ℕ → Type 0
AllAbove k [] = Unit
AllAbove k (x ∷ xs) = (ltb k x ≡ true) × AllAbove k xs

abbrev pub IsAscending : List ℕ → Type 0
IsAscending [] = Unit
IsAscending (k ∷ ks) = AllAbove k ks × IsAscending ks

abbrev pub has_key : ℕ → List ℕ → Bool
has_key k [] = false
has_key k (x ∷ xs) = k == x || has_key k xs

abbrev add_key : ℕ → List ℕ → List ℕ
add_key k [] = k ∷ []
add_key k (x ∷ xs) = if k == x then x ∷ xs else if ltb k x then k ∷ x ∷ xs else x ∷ add_key k xs

AllAbove-add_key :
    (l k : ℕ) (ks : List ℕ) → ltb l k ≡ true → AllAbove l ks → AllAbove l (add_key k ks)
AllAbove-add_key l k [] a b = ground arith
AllAbove-add_key l k (x ∷ xs) a b = ground (arith, AllAbove-add_key l k xs)

AllAbove-below : (k l : ℕ) (ks : List ℕ) → ltb k l ≡ true → AllAbove l ks → AllAbove k ks
AllAbove-below k l [] a b = tt
AllAbove-below k l (x ∷ xs) a (b, bs) = (ground arith, AllAbove-below k l xs a bs)

IsAscending-add_key : (k : ℕ) (ks : List ℕ) → IsAscending ks → IsAscending (add_key k ks)
IsAscending-add_key k [] s = (tt, tt)
IsAscending-add_key k (x ∷ xs) (a, s) =
    ground (arith, AllAbove-add_key x k xs, IsAscending-add_key k xs s, AllAbove-below k x xs)

has_key-above : (k : ℕ) (ks : List ℕ) → AllAbove k ks → has_key k ks ≡ false
has_key-above k [] a = refl
has_key-above k (x ∷ xs) a = ground (arith, has_key-above k xs)

has_key-add_key : (j k : ℕ) (ks : List ℕ) → has_key j (add_key k ks) ≡ j == k || has_key j ks
has_key-add_key j k [] = ground arith
has_key-add_key j k (x ∷ xs) = ground (arith, has_key-add_key j k xs)

module _ {F : Type 0} where
  -- The workspaces in the window with the key, in their order.
  abbrev pub in_window : ℕ → List (Workspace F) → List (Workspace F)
  in_window k ws = retain (λ w. key_of w.window_id == k) ws

  in_window-append :
      (k : ℕ) (ws : List (Workspace F)) (w : Workspace F)
      → in_window k (ws ++ w ∷ [])
        ≡ (if key_of w.window_id == k then in_window k ws ++ w ∷ [] else in_window k ws)
  in_window-append k [] w = refl
  in_window-append k (x ∷ ws) w = ground (arith, in_window-append k ws w)

  in_window-other :
      (k : ℕ) (ws : List (Workspace F)) (w : Workspace F)
      → (key_of w.window_id == k) ≡ false
      → in_window k (ws ++ w ∷ []) ≡ in_window k ws
  in_window-other k ws w n = in_window-append k ws w ∙ rw n refl

  in_window-same :
      (k : ℕ) (ws : List (Workspace F)) (w : Workspace F)
      → (key_of w.window_id == k) ≡ true
      → in_window k (ws ++ w ∷ []) ≡ in_window k ws ++ w ∷ []
  in_window-same k ws w n = in_window-append k ws w ∙ rw n refl

  -- The keys are in ascending order, and no workspace of the list is in another window.
  abbrev pub AreKeys : List ℕ → List (Workspace F) → Type 0
  AreKeys ks ws = IsAscending ks × ((k : ℕ) → has_key k ks ≡ false → in_window k ws ≡ [])

  AreKeys-add_key :
      (ks : List ℕ) (ws : List (Workspace F)) (w : Workspace F)
      → AreKeys ks ws
      → AreKeys (add_key (key_of w.window_id) ks) (ws ++ w ∷ [])
  AreKeys-add_key ks ws w (s, h) = (
    IsAscending-add_key (key_of w.window_id) ks s,
    λ k out.
        let split : (k == key_of w.window_id || has_key k ks) ≡ false =
          sym (has_key-add_key k (key_of w.window_id) ks) ∙ out in
        in_window-other k ws w (ground arith) ∙ h k (ground arith),
  )

module _ {F : Type 0} {S : Type 0} (g : Workspace F → S) where
  abbrev groups_of : List ℕ → List (Workspace F) → List (ℕ × List S)
  groups_of ks ws = map (λ k. (k, map g (in_window k ws))) ks

  map-append_one :
      (ws : List (Workspace F)) (w : Workspace F) → map g (ws ++ w ∷ []) ≡ map g ws ++ g w ∷ []
  map-append_one [] w = refl
  map-append_one (x ∷ ws) w = ap (λ l. g x ∷ l) (map-append_one ws w)

  groups_of-above :
      (ks : List ℕ) (ws : List (Workspace F)) (w : Workspace F)
      → AllAbove (key_of w.window_id) ks
      → groups_of ks ws ≡ groups_of ks (ws ++ w ∷ [])
  groups_of-above [] ws w a = refl
  groups_of-above (x ∷ xs) ws w (a, more) =
      rw (in_window-other x ws w (ground arith), groups_of-above xs ws w more) refl

  new_group :
      (ws : List (Workspace F)) (w : Workspace F)
      → in_window (key_of w.window_id) ws ≡ []
      → map g (in_window (key_of w.window_id) (ws ++ w ∷ [])) ≡ g w ∷ []
  new_group ws w e =
      ap (map g) (in_window-same (key_of w.window_id) ws w (ground arith)) ∙ rw e refl

  push_entry-groups :
      (ks : List ℕ) (ws : List (Workspace F)) (w : Workspace F)
      → IsAscending ks
      → (has_key (key_of w.window_id) ks ≡ false → in_window (key_of w.window_id) ws ≡ [])
      → push_entry (key_of w.window_id) (g w) (groups_of ks ws)
        ≡ groups_of (add_key (key_of w.window_id) ks) (ws ++ w ∷ [])
  push_entry-groups [] ws w s h =
      ap (λ l. (key_of w.window_id, l) ∷ []) (sym (new_group ws w (h refl)))
  push_entry-groups (x ∷ xs) ws w (a, s) h = elim (Bool-cases (key_of w.window_id == x)) [
    | inl e ↦
        let same : key_of w.window_id ≡ x = ground arith in
        rw (e, in_window-same x ws w e, map-append_one (in_window x ws) w)
          (ap (λ m. (x, map g (in_window x ws) ++ g w ∷ []) ∷ m)
            (groups_of-above xs ws w (subst (λ k. AllAbove k xs) (sym same) a)))
    | inr n ↦ elim (Bool-cases (ltb (key_of w.window_id) x)) [
      | inl lt ↦
          let above : AllAbove (key_of w.window_id) (x ∷ xs) =
            (lt, AllAbove-below (key_of w.window_id) x xs lt a) in
          rw (n, lt, new_group ws w (h (has_key-above (key_of w.window_id) (x ∷ xs) above)))
            (ap (λ m. (key_of w.window_id, g w ∷ []) ∷ m) (groups_of-above (x ∷ xs) ws w above))
      | inr ge ↦
          rw (n, ge, in_window-other x ws w n)
            (ap (λ m. (x, map g (in_window x ws)) ∷ m)
              (push_entry-groups xs ws w s (λ out. h (rw (n, out) refl))))
    ]
  ]

module _ {F : Type 0} ⦃f : F64 F⦄ (to_lowercase : Str → Str) (c : Collected F) where
  window_map-groups :
      (ks : List ℕ) (done ws : List (Workspace F))
      → AreKeys ks done
      → (all : List ℕ) × AreKeys all (done ++ ws)
        × (window_map to_lowercase c ws (groups_of (make_ws_snapshot to_lowercase c) ks done)
            ≡ groups_of (make_ws_snapshot to_lowercase c) all (done ++ ws))
  window_map-groups ks done [] h = (
    ks,
    subst (AreKeys ks) (sym (append_nil done)) h,
    ap (groups_of (make_ws_snapshot to_lowercase c) ks) (sym (append_nil done)),
  )
  window_map-groups ks done (w ∷ ws) h =
      let g = make_ws_snapshot to_lowercase c in
      let (all, keys, e) =
        window_map-groups (add_key (key_of w.window_id) ks) (done ++ w ∷ []) ws
          (AreKeys-add_key ks done w h) in
      let same : (done ++ w ∷ []) ++ ws ≡ done ++ w ∷ ws = append_one w done ws in
      (
        all,
        subst (AreKeys all) same keys,
        ap (window_map to_lowercase c ws)
              (push_entry-groups g ks done w h.0 (h.1 (key_of w.window_id)))
            ∙ (e ∙ ap (groups_of g all) same),
      )

  abbrev pub parts : List ℕ → List (Workspace F) → List (List (SessionWorkspaceSnapshot F))
  parts ks ws = map (λ k. map (make_ws_snapshot to_lowercase c) (in_window k ws)) ks

  parts-groups :
      (ks : List ℕ) (ws : List (Workspace F))
      → map (λ (_, group). group) (groups_of (make_ws_snapshot to_lowercase c) ks ws) ≡ parts ks ws
  parts-groups [] ws = refl
  parts-groups (k ∷ ks) ws =
      ap (λ l. map (make_ws_snapshot to_lowercase c) (in_window k ws) ∷ l) (parts-groups ks ws)

  pub create_windows-parts :
      (ws : List (Workspace F))
      → (ks : List ℕ) × AreKeys ks ws × (create_windows to_lowercase c ws ≡ parts ks ws)
  unfolding create_windows
  create_windows-parts ws =
      let (ks, keys, e) = window_map-groups [] [] ws (tt, λ k out. refl) in
      (ks, keys, ap (map (λ (_, group). group)) e ∙ parts-groups ks ws)
