-- ===== src/Bounded.antt =====
-- The bounded lists of cmux/src/model/workspace.rs and cmux/src/notifications.rs: entries under a
-- key, of which the least is evicted, and logs, of which the oldest quarter is dropped.
pub mod Entries
pub mod Least
pub mod Logs
pub mod Sets
use cmux_gtk.Prelude.{
  ℕ, zero, suc, ◌+◌, ◌/◌, leb, Bool, true, false, Option, none, some, List, [], ◌∷◌, ◌++◌, length,
  drop, find, remove_at, update_first, if◌then◌else◌,
}

module _ {ℓ} {A : Type ℓ} where
  -- `enumerate().min_by(..)`: the first of the least items; `less y x` is a comparison of `x` with
  -- `y` that is `Greater`.
  least_from : (A → A → Bool) → ℕ → A → ℕ → List A → ℕ
  least_from less i best j [] = i
  least_from less i best j (y ∷ ys) =
      let smaller = less y best in
      least_from less (if smaller then j else i) (if smaller then y else best) (suc j) ys

  pub least : (A → A → Bool) → List A → Option ℕ
  unfolding least_from
  least less [] = none
  least less (x ∷ xs) = some (least_from less 0 x 1 xs)

  pub evict : ℕ → (A → A → Bool) → List A → List A
  unfolding least
  evict max less xs =
      if leb max (length xs)
      then (elim (least less xs) [ none ↦ xs | some i ↦ remove_at i xs ])
      else xs

  -- The entry that passes the test is updated; without one, the new entry goes to the end.
  unfoldable pub set_entry : ℕ → (A → A → Bool) → (A → Bool) → (A → A) → A → List A → List A
  unfolding evict
  set_entry max less test update new xs = elim (find test xs) [
    | some _ ↦ update_first test update xs
    | none ↦ evict max less xs ++ new ∷ []
  ]

  -- `drain(..len / 4)` when the list is full, then `push`
  unfoldable pub push_bounded : ℕ → A → List A → List A
  push_bounded max x xs = (if leb max (length xs) then drop (length xs / 4) xs else xs) ++ x ∷ []
