-- ===== src/Prelude/Lists.antt =====
-- Vectors as lists, measured and indexed by native numbers: the methods of `Vec` that the program
-- calls, under the library's names.
use Prim.Native.Nat.{ℕ, zero, suc, ◌+◌, ◌-◌, ◌≤◌, ◌<◌, min}
use mathlib.Core.Path.{◌≡◌, refl, ap}
use mathlib.Core.Bool.{Bool, true, false, ◌&&◌}
use mathlib.Core.List.{List, [], ◌∷◌, ◌++◌}
use mathlib.Core.Option.{Option, none, some}
use native.Mathlib.Omega.{arith}
use cmux_gtk.Prelude.Tests.{◌==◌, if◌then◌else◌}

module _ {ℓ} {A : Type ℓ} where
  abbrev pub length : List A → ℕ
  length [] = 0
  length (x ∷ xs) = suc (length xs)

  abbrev pub get_elem? : List A → ℕ → Option A
  get_elem? [] i = none
  get_elem? (x ∷ xs) zero = some x
  get_elem? (x ∷ xs) (suc i) = get_elem? xs i

  abbrev pub head? : List A → Option A
  head? [] = none
  head? (x ∷ xs) = some x

  abbrev pub last? : List A → Option A
  last? [] = none
  last? (x ∷ []) = some x
  last? (x ∷ y ∷ ys) = last? (y ∷ ys)

  abbrev pub take : ℕ → List A → List A
  take zero xs = []
  take (suc n) [] = []
  take (suc n) (x ∷ xs) = x ∷ take n xs

  abbrev pub drop : ℕ → List A → List A
  drop zero xs = xs
  drop (suc n) [] = []
  drop (suc n) (x ∷ xs) = drop n xs

  -- `Vec::remove` within bounds; past the end it changes nothing.
  abbrev pub remove_at : ℕ → List A → List A
  remove_at i [] = []
  remove_at zero (x ∷ xs) = xs
  remove_at (suc i) (x ∷ xs) = x ∷ remove_at i xs

  -- `Vec::insert` up to the end; past the end it appends.
  abbrev pub insert_at : ℕ → A → List A → List A
  insert_at zero v xs = v ∷ xs
  insert_at (suc i) v [] = v ∷ []
  insert_at (suc i) v (x ∷ xs) = x ∷ insert_at i v xs

  -- `iter().position(test)`
  abbrev pub position : (A → Bool) → List A → Option ℕ
  position test [] = none
  position test (x ∷ xs) =
      if test x then some 0 else (elim (position test xs) [ none ↦ none | some i ↦ some (suc i) ])

  -- `iter().find(test)`
  abbrev pub find : (A → Bool) → List A → Option A
  find test [] = none
  find test (x ∷ xs) = if test x then some x else find test xs

  -- `retain(test)`
  abbrev pub retain : (A → Bool) → List A → List A
  retain test [] = []
  retain test (x ∷ xs) = if test x then x ∷ retain test xs else retain test xs

  abbrev pub is_empty_list : List A → Bool
  is_empty_list [] = true
  is_empty_list (x ∷ xs) = false

  -- Change the first item that passes the test.
  abbrev pub update_first : (A → Bool) → (A → A) → List A → List A
  update_first test g [] = []
  update_first test g (x ∷ xs) = if test x then g x ∷ xs else x ∷ update_first test g xs

  -- Change the item at an index, if it is there.
  abbrev pub update_at : ℕ → (A → A) → List A → List A
  update_at i g [] = []
  update_at zero g (x ∷ xs) = g x ∷ xs
  update_at (suc i) g (x ∷ xs) = x ∷ update_at i g xs

  pub append_nil : (xs : List A) → xs ++ [] ≡ xs
  append_nil [] = refl
  append_nil (x ∷ xs) = ap (λ l. x ∷ l) (append_nil xs)

  pub append_one : (v : A) (xs ys : List A) → (xs ++ v ∷ []) ++ ys ≡ xs ++ v ∷ ys
  append_one v [] ys = refl
  append_one v (x ∷ xs) ys = ap (λ l. x ∷ l) (append_one v xs ys)

  pub length-append : (xs ys : List A) → length (xs ++ ys) ≡ length xs + length ys
  length-append [] ys = omega arith
  length-append (x ∷ xs) ys = omega (arith, length-append xs ys)

  pub is_empty-append :
      (xs ys : List A)
      → is_empty_list (xs ++ ys) ≡ (if is_empty_list xs then is_empty_list ys else false)
  is_empty-append [] ys = refl
  is_empty-append (x ∷ xs) ys = refl

  pub is_empty→nil : (xs : List A) → is_empty_list xs ≡ true → xs ≡ []
  is_empty→nil [] h = refl
  is_empty→nil (x ∷ xs) h = ground arith

  pub take-append-drop : (n : ℕ) (xs : List A) → take n xs ++ drop n xs ≡ xs
  take-append-drop zero xs = refl
  take-append-drop (suc n) [] = refl
  take-append-drop (suc n) (x ∷ xs) = rw (take-append-drop n xs)

  pub length-take : (n : ℕ) (xs : List A) → length (take n xs) ≡ min n (length xs)
  length-take zero xs = omega arith
  length-take (suc n) [] = omega arith
  length-take (suc n) (x ∷ xs) = omega (arith, length-take n xs)

  pub length-drop : (n : ℕ) (xs : List A) → length (drop n xs) ≡ length xs - n
  length-drop zero xs = omega arith
  length-drop (suc n) [] = omega arith
  length-drop (suc n) (x ∷ xs) = omega (arith, length-drop n xs)

  pub length-retain-le : (test : A → Bool) (xs : List A) → length (retain test xs) ≤ length xs
  length-retain-le test [] = omega arith
  length-retain-le test (x ∷ xs) = ground (arith, length-retain-le test xs)

  pub length-update_first :
      (test : A → Bool) (g : A → A) (xs : List A) → length (update_first test g xs) ≡ length xs
  length-update_first test g [] = refl
  length-update_first test g (x ∷ xs) = ground (arith, length-update_first test g xs)

  pub length-update_at : (i : ℕ) (g : A → A) (xs : List A) → length (update_at i g xs) ≡ length xs
  length-update_at i g [] = refl
  length-update_at zero g (x ∷ xs) = refl
  length-update_at (suc i) g (x ∷ xs) = ap suc (length-update_at i g xs)

  pub length-insert_at : (i : ℕ) (v : A) (xs : List A) → length (insert_at i v xs) ≡ suc (length xs)
  length-insert_at zero v xs = refl
  length-insert_at (suc i) v [] = refl
  length-insert_at (suc i) v (x ∷ xs) = ap suc (length-insert_at i v xs)

  pub length-remove_at :
      (i : ℕ) (xs : List A) → i < length xs → suc (length (remove_at i xs)) ≡ length xs
  length-remove_at i [] h = elim h [ ]
  length-remove_at zero (x ∷ xs) h = refl
  length-remove_at (suc i) (x ∷ xs) h = ap suc (length-remove_at i xs (omega arith))

module _ {ℓ} {A : Type ℓ} (test : A → Bool) where
  -- The index found holds an item that passes the test.
  pub position-get_elem? :
      (xs : List A) (i : ℕ)
      → position test xs ≡ some i
      → (x : A) × (get_elem? xs i ≡ some x) × (test x ≡ true) × (i < length xs)
  position-get_elem? [] i h = absurd (ground arith)
  position-get_elem? (x ∷ xs) zero h = (x, refl, ground arith, omega arith)
  position-get_elem? (x ∷ xs) (suc i) h =
      let (y, e, t, b) = position-get_elem? xs i (ground arith) in (y, e, t, omega arith)

  pub position-append :
      (xs ys : List A) (i : ℕ)
      → position test ys ≡ some i
      → (j : ℕ) × (position test (xs ++ ys) ≡ some j)
  position-append [] ys i h = (i, h)
  position-append (x ∷ xs) ys i h =
      let (j, e) = position-append xs ys i h in (if test x then 0 else suc j, ground arith)

  pub position-append_left :
      (xs ys : List A) (i : ℕ) → position test xs ≡ some i → position test (xs ++ ys) ≡ some i
  position-append_left [] ys i h = ground arith
  position-append_left (x ∷ xs) ys zero h = ground arith
  position-append_left (x ∷ xs) ys (suc i) h = ground (arith, position-append_left xs ys i)

  pub position-drop :
      (xs : List A) (i : ℕ) → position test xs ≡ some i → position test (drop i xs) ≡ some 0
  position-drop [] i h = ground arith
  position-drop (x ∷ xs) zero h = ground arith
  position-drop (x ∷ xs) (suc i) h = position-drop xs i (ground arith)

  -- Filtering by a weaker test keeps an item that passes.
  pub position-retain :
      (weaker : A → Bool) (xs : List A) (i : ℕ)
      → ((x : A) → test x ≡ true → weaker x ≡ true)
      → position test xs ≡ some i
      → (j : ℕ) × (position test (retain weaker xs) ≡ some j)
  position-retain weaker [] i w h = absurd (ground arith)
  position-retain weaker (x ∷ xs) zero w h =
      let t : test x ≡ true = ground arith in (0, rw (w x t) (rw t refl))
  position-retain weaker (x ∷ xs) (suc i) w h =
      let (j, e) = position-retain weaker xs i w (ground arith) in
      (if weaker x then suc j else j, ground arith)

module _ {ℓ} {A : Type ℓ} where
  pub get_elem?-append_left :
      (xs ys : List A) (i : ℕ) → i < length xs → get_elem? (xs ++ ys) i ≡ get_elem? xs i
  get_elem?-append_left [] ys i h = elim h [ ]
  get_elem?-append_left (x ∷ xs) ys zero h = refl
  get_elem?-append_left (x ∷ xs) ys (suc i) h = get_elem?-append_left xs ys i (omega arith)

  pub get_elem?-take : (n i : ℕ) (xs : List A) → i < n → get_elem? (take n xs) i ≡ get_elem? xs i
  get_elem?-take zero i xs h = elim h [ ]
  get_elem?-take (suc n) i [] h = refl
  get_elem?-take (suc n) zero (x ∷ xs) h = refl
  get_elem?-take (suc n) (suc i) (x ∷ xs) h = get_elem?-take n i xs (omega arith)

-- `==` on vectors of numbers
abbrev pub list_eq : List ℕ → List ℕ → Bool
list_eq [] [] = true
list_eq (a ∷ s) (b ∷ t) = a == b && list_eq s t
list_eq _ _ = false

pub list_eq_sound : (s t : List ℕ) → list_eq s t ≡ true → s ≡ t
list_eq_sound [] [] h = refl
list_eq_sound [] (b ∷ t) h = ground arith
list_eq_sound (a ∷ s) [] h = ground arith
list_eq_sound (a ∷ s) (b ∷ t) h = ground (arith, list_eq_sound s t)

pub list_eq_refl : (s : List ℕ) → list_eq s s ≡ true
list_eq_refl [] = refl
list_eq_refl (a ∷ s) = ground (arith, list_eq_refl s)

pub list_eq_comm : (s t : List ℕ) → list_eq s t ≡ list_eq t s
list_eq_comm [] [] = refl
list_eq_comm [] (b ∷ t) = refl
list_eq_comm (a ∷ s) [] = refl
list_eq_comm (a ∷ s) (b ∷ t) = ground (arith, list_eq_comm s t)
