-- ===== src/Prelude/Ids.antt =====
-- Lists of identifiers, with `Vec::contains` and the removal of the first occurrence. `count` views
-- a list as a multiset.
use Prim.Native.Nat.{ℕ, suc, ◌+◌, ◌<◌}
use mathlib.Core.Path.{◌≡◌, refl, sym, ap}
use mathlib.Core.Bool.{Bool, true, false, ◌||◌}
use mathlib.Core.List.{List, [], ◌∷◌, ◌++◌}
use native.Mathlib.Omega.{arith}
use cmux_gtk.Prelude.Tests.{◌==◌, if◌then◌else◌}
use cmux_gtk.Prelude.Lists.{is_empty_list, length}

abbrev pub contains : ℕ → List ℕ → Bool
contains a [] = false
contains a (x ∷ xs) = if x == a then true else contains a xs

abbrev pub count : ℕ → List ℕ → ℕ
count id [] = 0
count id (head ∷ rest) = (if head == id then 1 else 0) + count id rest

-- Without the first occurrence.
abbrev pub erase : ℕ → List ℕ → List ℕ
erase a [] = []
erase a (x ∷ xs) = if x == a then xs else x ∷ erase a xs

-- 1 at `a`, and 0 elsewhere
abbrev pub single : ℕ → ℕ → ℕ
single a b = if a == b then 1 else 0

pub count-append :
    (id : ℕ) (front back : List ℕ) → count id (front ++ back) ≡ count id front + count id back
count-append id [] back = ground arith
count-append id (head ∷ rest) back = ground (arith, count-append id rest back)

pub contains-append :
    (a : ℕ) (xs ys : List ℕ) → contains a (xs ++ ys) ≡ contains a xs || contains a ys
contains-append a [] ys = refl
contains-append a (x ∷ xs) ys = ground (arith, contains-append a xs ys)

pub not_empty_of_contains : (a : ℕ) (xs : List ℕ) → contains a xs ≡ true → is_empty_list xs ≡ false
not_empty_of_contains a [] h = ground arith
not_empty_of_contains a (x ∷ xs) h = refl

pub contains→count : (a : ℕ) (xs : List ℕ) → contains a xs ≡ true → 0 < count a xs
contains→count a (x ∷ xs) h = ground (arith, contains→count a xs)
contains→count a [] h = ground arith

pub not_contains→count : (a : ℕ) (xs : List ℕ) → contains a xs ≡ false → count a xs ≡ 0
not_contains→count a [] h = refl
not_contains→count a (x ∷ xs) h = ground (arith, not_contains→count a xs)

pub erase-append_left :
    (a : ℕ) (xs ys : List ℕ) → contains a xs ≡ true → erase a (xs ++ ys) ≡ erase a xs ++ ys
erase-append_left a [] ys h = ground arith
erase-append_left a (x ∷ xs) ys h = ground (arith, erase-append_left a xs ys)

pub erase-append_right :
    (a : ℕ) (xs ys : List ℕ) → contains a xs ≡ false → erase a (xs ++ ys) ≡ xs ++ erase a ys
erase-append_right a [] ys h = refl
erase-append_right a (x ∷ xs) ys h = ground (arith, erase-append_right a xs ys)

pub erase_absent : (a : ℕ) (xs : List ℕ) → contains a xs ≡ false → erase a xs ≡ xs
erase_absent a [] h = refl
erase_absent a (x ∷ xs) h = ground (arith, erase_absent a xs)

pub contains-erase_ne :
    (a b : ℕ) (xs : List ℕ) → (b == a) ≡ false → contains a (erase b xs) ≡ contains a xs
contains-erase_ne a b [] h = refl
contains-erase_ne a b (x ∷ xs) h = ground (arith, contains-erase_ne a b xs)

pub count-erase :
    (b a : ℕ) (xs : List ℕ) → contains a xs ≡ true → count b (erase a xs) + single a b ≡ count b xs
count-erase b a [] h = ground arith
count-erase b a (x ∷ xs) h = ground (arith, count-erase b a xs)

pub nil_of_count : (back : List ℕ) → ((a : ℕ) → count a back ≡ 0) → back ≡ []
nil_of_count [] h = refl
nil_of_count (b ∷ back) h = absurd (ground (arith, h b))

pub contains_of_count : (a : ℕ) (xs : List ℕ) → 0 < count a xs → contains a xs ≡ true
contains_of_count a xs h = ground (arith, not_contains→count a xs)

pub not_contains_of_count : (a : ℕ) (xs : List ℕ) → count a xs ≡ 0 → contains a xs ≡ false
not_contains_of_count a xs h = ground (arith, contains→count a xs)

pub length-erase :
    (a : ℕ) (xs : List ℕ) → contains a xs ≡ true → suc (length (erase a xs)) ≡ length xs
length-erase a [] h = ground arith
length-erase a (x ∷ xs) h = ground (arith, length-erase a xs)

-- Lists with the same items have the same length.
pub count-length : (xs ys : List ℕ) → ((a : ℕ) → count a xs ≡ count a ys) → length xs ≡ length ys
count-length [] ys h = sym (ap length (nil_of_count ys (λ a. sym (h a))))
count-length (x ∷ xs) ys h =
    let present = contains_of_count x ys (ground (arith, h x)) in
    let rest =
      count-length xs (erase x ys) (λ a. ground (arith, h a, count-erase a x ys present)) in
    omega (arith, rest, length-erase x ys present)
