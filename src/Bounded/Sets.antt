-- ===== src/Bounded/Sets.antt =====
-- Setting an entry of a bounded list.
use cmux_gtk.Prelude.{
  ℕ, zero, suc, ◌≤◌, ◌<◌, ◌≡◌, refl, ap, ◌∙◌, Bool, true, false, none, some, List, [], ◌∷◌, ◌++◌,
  leb, length, get_elem?, find, remove_at, list_eq, list_eq_refl, Str, arith, Bool-cases, inl, inr,
  Option-cases, length-append, length-remove_at, length-update_first, ◌⊎◌,
}
use cmux_gtk.Bounded.{evict, set_entry}
use cmux_gtk.Bounded.Least.{IsComparison, NoLess, least_lem}
use cmux_gtk.Bounded.Entries.{
  has_key, IsDistinct, find-update_other, find-append_other, IsDistinct-append, IsDistinct-evict,
  IsDistinct-update_first, find-evict, find-update_first, find-append_absent, key-found,
}

module _ {A : Type 0} where
  get_elem?_bound : (xs : List A) (i : ℕ) (x : A) → get_elem? xs i ≡ some x → i < length xs
  get_elem?_bound [] i x h = absurd (ground arith)
  get_elem?_bound (y ∷ xs) zero x h = omega arith
  get_elem?_bound (y ∷ xs) (suc i) x h = omega (arith, get_elem?_bound xs i x h)

  -- What a full list without the key becomes: it loses an entry than which none is less.
  pub record IsEvicted (less : A → A → Bool) (new : A) (xs ys : List A) : Type 0 where
    pub index : ℕ
    pub lost : A
    pub there : get_elem? xs index ≡ some lost
    pub no_less : NoLess less lost xs
    pub rest : ys ≡ remove_at index xs ++ new ∷ []

module _ {A : Type 0} (max : ℕ) (key : A → Str) where
  -- A list within its bound, with at most one entry for a key.
  pub record IsEntries (xs : List A) : Type 0 where
    pub within : length xs ≤ max
    pub distinct : IsDistinct key xs

  module _ (less : A → A → Bool) (law : IsComparison less) (positive : 0 < max) where
    evict-full :
        (xs : List A) (new : A)
        → max ≤ length xs
        → IsEvicted less new xs (evict max less xs ++ new ∷ [])
    unfolding evict
    evict-full xs new h =
        let (i, m, found, at, no_less) = least_lem less law xs (omega arith) in
        let full : leb max (length xs) ≡ true = ground arith in
        record { index = i; lost = m; there = at; no_less = no_less; rest = rw (full, found) refl }

    length-evict : (xs : List A) → length xs ≤ max → length (evict max less xs) < max
    unfolding evict
    length-evict xs h = elim (Bool-cases (leb max (length xs))) [
      | inr n ↦ rw n (ground arith)
      | inl e ↦
          let (i, m, found, at, no_less) = least_lem less law xs (ground arith) in
          rw (e, found) (omega (arith, length-remove_at i xs (get_elem?_bound xs i m at)))
    ]

    module _ (k : Str) (g : A → A) (new : A) (keeps : (x : A) → key (g x) ≡ key x)
        (same : (x : A) → key x ≡ k → g x ≡ new) (key_new : key new ≡ k) where
      abbrev set : List A → List A
      set xs = set_entry max less (has_key key k) g new xs

      has_key_new : has_key key k new ≡ true
      has_key_new = rw key_new (list_eq_refl k)

      set_present :
          (xs : List A) (y : A)
          → IsEntries xs
          → find (has_key key k) xs ≡ some y
          → IsEntries (set xs) × (find (has_key key k) (set xs) ≡ some new)
      unfolding set_entry
      set_present xs y v e =
          rw (e, set_entry)
            (
              record {
                within = omega (arith, length-update_first (has_key key k) g xs, v.within);
                distinct = IsDistinct-update_first key (has_key key k) g keeps xs v.distinct;
              },
              find-update_first key k g y xs keeps e ∙ ap some (same y (key-found key k y xs e)),
            )

      set_absent :
          (xs : List A)
          → IsEntries xs
          → find (has_key key k) xs ≡ none
          → IsEntries (set xs) × (find (has_key key k) (set xs) ≡ some new)
      unfolding set_entry
      set_absent xs v e =
          let absent = find-evict key k max less xs e in
          rw (e, set_entry)
            (
              record {
                within =
                    ground (
                      arith,
                      length-append (evict max less xs) (new ∷ []),
                      length-evict xs v.within,
                    );
                distinct =
                    IsDistinct-append key new (evict max less xs) (rw key_new absent)
                      (IsDistinct-evict key max less xs v.distinct);
              },
              rw (find-append_absent key k new (evict max less xs) absent, has_key_new) refl,
            )

      -- Setting an entry keeps the list within its bound and its keys apart, and the entry is found.
      pub set_entry_lem :
          (xs : List A)
          → IsEntries xs
          → IsEntries (set xs) × (find (has_key key k) (set xs) ≡ some new)
      set_entry_lem xs v = elim (Option-cases (find (has_key key k) xs)) [
        | inl e ↦ set_absent xs v e
        | inr (y, e) ↦ set_present xs y v e
      ]

      -- A new key on a full list evicts an entry than which none is less.
      pub set_entry_full :
          (xs : List A)
          → max ≤ length xs
          → find (has_key key k) xs ≡ none
          → IsEvicted less new xs (set xs)
      unfolding set_entry
      set_entry_full xs h e = rw (e, set_entry) (evict-full xs new h)

      -- A new key on a list that is not full, and a key that is there, leave the other keys alone.
      pub set_entry_others :
          (j : Str) (xs : List A)
          → list_eq k j ≡ false
          → (length xs < max) ⊎ ((y : A) × (find (has_key key k) xs ≡ some y))
          → find (has_key key j) (set xs) ≡ find (has_key key j) xs
      unfolding set_entry evict
      set_entry_others j xs apart (inr (y, e)) =
          rw (e, set_entry) (find-update_other key k j g xs keeps apart)
      set_entry_others j xs apart (inl short) = elim (Option-cases (find (has_key key k) xs)) [
        | inr (y, e) ↦ rw (e, set_entry) (find-update_other key k j g xs keeps apart)
        | inl e ↦
            let other : has_key key j new ≡ false = rw key_new apart in
            let room : leb max (length xs) ≡ false = ground arith in
            rw (e, set_entry) (rw (room, evict) (find-append_other key j new xs other))
      ]
