-- ===== src/Bounded/Entries.antt =====
-- A bounded list of entries under keys: at most one entry for a key, the entry just set is found
-- again, and a full list gives up an entry than which none is less.
use cmux_gtk.Prelude.{
  ℕ, zero, suc, ◌≡◌, refl, ap, sym, ◌∙◌, Bool, false, none, some, List, [], ◌∷◌, ◌++◌, leb, length,
  find, remove_at, update_first, list_eq, list_eq_sound, list_eq_comm, Str, arith, Bool-cases, inl,
  inr, Option-cases, if◌then◌else◌,
}
use cmux_gtk.Bounded.{evict, least}

module _ {A : Type 0} (key : A → Str) where
  abbrev pub has_key : Str → A → Bool
  has_key k x = list_eq (key x) k

  -- No two entries have the same key.
  abbrev pub IsDistinct : List A → Type 0
  IsDistinct [] = Unit
  IsDistinct (x ∷ xs) = (find (has_key (key x)) xs ≡ none) × IsDistinct xs

  pub find-append_absent :
      (k : Str) (x : A) (xs : List A)
      → find (has_key k) xs ≡ none
      → find (has_key k) (xs ++ x ∷ []) ≡ (if has_key k x then some x else none)
  find-append_absent k x [] h = refl
  find-append_absent k x (y ∷ xs) h = ground (arith, find-append_absent k x xs)

  pub find-append :
      (k : Str) (x y : A) (xs : List A)
      → find (has_key k) xs ≡ some y
      → find (has_key k) (xs ++ x ∷ []) ≡ some y
  find-append k x y [] h = ground arith
  find-append k x y (z ∷ xs) h = ground (arith, find-append k x y xs)

  find-remove_at :
      (k : Str) (i : ℕ) (xs : List A)
      → find (has_key k) xs ≡ none
      → find (has_key k) (remove_at i xs) ≡ none
  find-remove_at k i [] h = refl
  find-remove_at k zero (x ∷ xs) h = ground arith
  find-remove_at k (suc i) (x ∷ xs) h = ground (arith, find-remove_at k i xs)

  IsDistinct-remove_at : (i : ℕ) (xs : List A) → IsDistinct xs → IsDistinct (remove_at i xs)
  IsDistinct-remove_at i [] h = tt
  IsDistinct-remove_at zero (x ∷ xs) (h, hs) = hs
  IsDistinct-remove_at (suc i) (x ∷ xs) (h, hs) =
      (find-remove_at (key x) i xs h, IsDistinct-remove_at i xs hs)

  pub IsDistinct-append :
      (x : A) (xs : List A)
      → find (has_key (key x)) xs ≡ none
      → IsDistinct xs
      → IsDistinct (xs ++ x ∷ [])
  IsDistinct-append x [] h d = (refl, tt)
  IsDistinct-append x (y ∷ xs) h (n, d) = elim (Bool-cases (list_eq (key y) (key x))) [
    | inl e ↦ absurd (ground arith)
    | inr e ↦
        let e' : list_eq (key x) (key y) ≡ false = list_eq_comm (key x) (key y) ∙ e in
        (rw (find-append_absent (key y) x xs n, e') refl, IsDistinct-append x xs (rw e at h) d)
  ]

  pub IsDistinct-evict :
      (max : ℕ) (less : A → A → Bool) (xs : List A) → IsDistinct xs → IsDistinct (evict max less xs)
  unfolding evict
  IsDistinct-evict max less xs d = elim (Bool-cases (leb max (length xs))) [
    | inr n ↦ rw n d
    | inl e ↦ elim (Option-cases (least less xs)) [
      | inl none_least ↦ rw (e, none_least) d
      | inr (i, at) ↦ rw (e, at) (IsDistinct-remove_at i xs d)
    ]
  ]

  pub find-evict :
      (k : Str) (max : ℕ) (less : A → A → Bool) (xs : List A)
      → find (has_key k) xs ≡ none
      → find (has_key k) (evict max less xs) ≡ none
  unfolding evict
  find-evict k max less xs d = elim (Bool-cases (leb max (length xs))) [
    | inr n ↦ rw n d
    | inl e ↦ elim (Option-cases (least less xs)) [
      | inl none_least ↦ rw (e, none_least) d
      | inr (i, at) ↦ rw (e, at) (find-remove_at k i xs d)
    ]
  ]

  module _ (test : A → Bool) (g : A → A) (keeps : (x : A) → key (g x) ≡ key x) where
    find-update_first_absent :
        (k : Str) (xs : List A)
        → find (has_key k) xs ≡ none
        → find (has_key k) (update_first test g xs) ≡ none
    find-update_first_absent k [] h = refl
    find-update_first_absent k (x ∷ xs) h = ground (arith, find-update_first_absent k xs, keeps x)

    pub IsDistinct-update_first :
        (xs : List A) → IsDistinct xs → IsDistinct (update_first test g xs)
    IsDistinct-update_first [] d = tt
    IsDistinct-update_first (x ∷ xs) (n, d) = elim (Bool-cases (test x)) [
      | inl e ↦ rw (e, keeps x) (n, d)
      | inr e ↦ rw e (find-update_first_absent (key x) xs n, IsDistinct-update_first xs d)
    ]

  pub find-update_first :
      (k : Str) (g : A → A) (y : A) (xs : List A)
      → ((x : A) → key (g x) ≡ key x)
      → find (has_key k) xs ≡ some y
      → find (has_key k) (update_first (has_key k) g xs) ≡ some (g y)
  find-update_first k g y [] keeps h = ground arith
  find-update_first k g y (x ∷ xs) keeps h =
      ground (arith, find-update_first k g y xs keeps, keeps x)

  pub key-found : (k : Str) (y : A) (xs : List A) → find (has_key k) xs ≡ some y → key y ≡ k
  key-found k y [] h = absurd (ground arith)
  key-found k y (x ∷ xs) h = elim (Bool-cases (list_eq (key x) k)) [
    | inl e ↦ let same : x ≡ y = ground arith in ap key (sym same) ∙ list_eq_sound (key x) k e
    | inr n ↦ key-found k y xs (rw n at h)
  ]

  pub find-update_other :
      (k j : Str) (g : A → A) (xs : List A)
      → ((x : A) → key (g x) ≡ key x)
      → list_eq k j ≡ false
      → find (has_key j) (update_first (has_key k) g xs) ≡ find (has_key j) xs
  find-update_other k j g [] keeps h = refl
  find-update_other k j g (x ∷ xs) keeps h = elim (Bool-cases (list_eq (key x) k)) [
    | inl e ↦
        let other : list_eq (key x) j ≡ false = rw (list_eq_sound (key x) k e) h in
        rw (e, keeps x, other) refl
    | inr n ↦ ground (arith, find-update_other k j g xs keeps h)
  ]

  pub find-append_other :
      (j : Str) (x : A) (xs : List A)
      → has_key j x ≡ false
      → find (has_key j) (xs ++ x ∷ []) ≡ find (has_key j) xs
  find-append_other j x [] h = ground arith
  find-append_other j x (y ∷ xs) h = ground (arith, find-append_other j x xs h)
