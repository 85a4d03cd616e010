-- ===== src/Prelude/Maps.antt =====
-- `HashMap<Uuid, V>` as an association list. The program never relies on the order of its entries.
use Prim.Native.Nat.{ℕ}
use mathlib.Core.Path.{◌≡◌, refl}
use mathlib.Core.Bool.{Bool, true, false}
use mathlib.Core.List.{List, [], ◌∷◌}
use mathlib.Core.Option.{Option, none, some}
use native.Mathlib.Omega.{arith}
use cmux_gtk.Prelude.Tests.{◌==◌, if◌then◌else◌}

abbrev pub Map {ℓ} : Type ℓ → Type ℓ
Map V = List (ℕ × V)

module _ {ℓ} {V : Type ℓ} where
  abbrev pub get : ℕ → Map V → Option V
  get k [] = none
  get k ((j, v) ∷ m) = if j == k then some v else get k m

  abbrev pub contains_key : ℕ → Map V → Bool
  contains_key k [] = false
  contains_key k ((j, v) ∷ m) = if j == k then true else contains_key k m

  abbrev pub without : ℕ → Map V → Map V
  without k [] = []
  without k ((j, v) ∷ m) = if j == k then without k m else (j, v) ∷ without k m

  -- The entry of a key that is there is replaced.
  abbrev pub insert : ℕ → V → Map V → Map V
  insert k v m = (k, v) ∷ without k m

  pub get-without : (j k : ℕ) (m : Map V) → get j (without k m) ≡ (if k == j then none else get j m)
  get-without j k [] = ground arith
  get-without j k ((i, v) ∷ m) = ground (arith, get-without j k m)

  pub contains_key-without :
      (j k : ℕ) (m : Map V)
      → contains_key j (without k m) ≡ (if k == j then false else contains_key j m)
  contains_key-without j k [] = ground arith
  contains_key-without j k ((i, v) ∷ m) = ground (arith, contains_key-without j k m)

  pub contains_key-insert :
      (j k : ℕ) (v : V) (m : Map V)
      → contains_key j (insert k v m) ≡ (if k == j then true else contains_key j m)
  contains_key-insert j k v m = ground (arith, contains_key-without j k m)

  pub get-contains_key :
      (k : ℕ) (m : Map V) → contains_key k m ≡ (elim (get k m) [ none ↦ false | some _ ↦ true ])
  get-contains_key k [] = refl
  get-contains_key k ((j, v) ∷ m) = ground (arith, get-contains_key k m)
