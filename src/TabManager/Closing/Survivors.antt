-- ===== src/TabManager/Closing/Survivors.antt =====
-- cmux/src/model/tab_manager.rs: which workspaces the closing operations leave, and in which order.
-- The source collects indices and removes them from the last; the result is a filter.
use mathlib.Core.List.{reverse, reverse-cons, append_assoc, append-nil}
use cmux_gtk.Prelude.{
  ℕ, suc, zero, ◌+◌, ◌≤◌, ◌≡◌, refl, ap, sym, ◌∙◌, Bool, true, not, some, ltb, List, [], ◌∷◌, ◌++◌,
  length, take, drop, retain, remove_at, arith, length-append, length-take, take-append-drop,
  Bool-cases, inl, inr,
}
use cmux_gtk.Workspace.{Workspace}
use cmux_gtk.TabManager.Closing.{indices, remove_each}

module _ {F : Type 0} where
  -- A loop after another one that did not panic.
  remove_each-append :
      (is js : List ℕ) (xs ys : List (Workspace F))
      → remove_each is xs ≡ some ys
      → remove_each (is ++ js) xs ≡ remove_each js ys
  remove_each-append [] js xs ys h = ap (remove_each js) (ground arith)
  remove_each-append (i ∷ is) js xs ys h = elim (Bool-cases (ltb i (length xs))) [
    | inl e ↦ rw e (remove_each-append is js (remove_at i xs) ys (ground arith))
    | inr n ↦ absurd (ground arith)
  ]

  remove_at-middle :
      (k : ℕ) (xs ys : List (Workspace F)) (w : Workspace F)
      → length xs ≡ k
      → remove_at k (xs ++ w ∷ ys) ≡ xs ++ ys
  remove_at-middle zero [] ys w h = refl
  remove_at-middle (suc k) [] ys w h = absurd (omega arith)
  remove_at-middle zero (x ∷ xs) ys w h = absurd (omega arith)
  remove_at-middle (suc k) (x ∷ xs) ys w h = ap (◌∷◌ x) (remove_at-middle k xs ys w (omega arith))

  -- The workspaces that fail the test.
  abbrev pub survivors : (Workspace F → Bool) → List (Workspace F) → List (Workspace F)
  survivors test xs = retain (λ ws. not (test ws)) xs

  remove_each-one :
      (k : ℕ) (xs ys : List (Workspace F)) (w : Workspace F)
      → length xs ≡ k
      → remove_each (k ∷ []) (xs ++ w ∷ ys) ≡ some (xs ++ ys)
  remove_each-one k xs ys w h =
      let inside : ltb k (length (xs ++ w ∷ ys)) ≡ true =
        ground (arith, length-append xs (w ∷ ys)) in
      rw inside (ap some (remove_at-middle k xs ys w h))

  -- Removing the indices of `ys` from the last leaves what stands before and behind `ys` alone.
  remove_each-indices :
      (test : Workspace F → Bool) (k : ℕ) (xs ys zs : List (Workspace F))
      → length xs ≡ k
      → remove_each (reverse (indices test k ys)) (xs ++ (ys ++ zs))
        ≡ some (xs ++ (survivors test ys ++ zs))
  remove_each-indices test k xs [] zs h = refl
  remove_each-indices test k xs (w ∷ ys) zs h =
      let rest = survivors test ys ++ zs in
      let next : remove_each (reverse (indices test (suc k) ys)) (xs ++ w ∷ (ys ++ zs))
          ≡ some (xs ++ w ∷ rest) =
        ap (remove_each (reverse (indices test (suc k) ys)))
          (sym (append_assoc xs (w ∷ []) (ys ++ zs)))
        ∙ (remove_each-indices test (suc k) (xs ++ w ∷ []) ys zs
              (omega (arith, length-append xs (w ∷ [])))
            ∙ ap some (append_assoc xs (w ∷ []) rest)) in
      elim (Bool-cases (test w)) [
        | inl e ↦
            rw (e, reverse-cons k (indices test (suc k) ys))
              (remove_each-append (reverse (indices test (suc k) ys)) (k ∷ [])
                  (xs ++ (w ∷ ys ++ zs)) (xs ++ w ∷ rest) next
                ∙ remove_each-one k xs rest w h)
        | inr e ↦ rw e next
      ]

  pub remove_each_all :
      (test : Workspace F → Bool) (xs : List (Workspace F))
      → remove_each (reverse (indices test 0 xs)) xs ≡ some (survivors test xs)
  remove_each_all test xs =
      ap (remove_each (reverse (indices test 0 xs))) (sym (append-nil xs))
      ∙ (remove_each-indices test 0 [] xs [] refl ∙ ap some (append-nil (survivors test xs)))

  pub remove_each_front :
      (test : Workspace F → Bool) (n : ℕ) (xs : List (Workspace F))
      → remove_each (reverse (indices test 0 (take n xs))) xs
        ≡ some (survivors test (take n xs) ++ drop n xs)
  remove_each_front test n xs =
      ap (remove_each (reverse (indices test 0 (take n xs)))) (sym (take-append-drop n xs))
      ∙ remove_each-indices test 0 [] (take n xs) (drop n xs) refl

  pub remove_each_back :
      (test : Workspace F → Bool) (n : ℕ) (xs : List (Workspace F))
      → n ≤ length xs
      → remove_each (reverse (indices test n (drop n xs))) xs
        ≡ some (take n xs ++ survivors test (drop n xs))
  remove_each_back test n xs h =
      let whole : xs ≡ take n xs ++ (drop n xs ++ []) =
        sym (ap (λ ys. take n xs ++ ys) (append-nil (drop n xs)) ∙ take-append-drop n xs) in
      ap (remove_each (reverse (indices test n (drop n xs)))) whole
      ∙ (remove_each-indices test n (take n xs) (drop n xs) [] (omega (arith, length-take n xs))
          ∙ ap (λ ys. some (take n xs ++ ys)) (append-nil (survivors test (drop n xs))))

  pub length-indices :
      (test : Workspace F → Bool) (k : ℕ) (xs : List (Workspace F))
      → length (indices test k xs) + length (survivors test xs) ≡ length xs
  length-indices test k [] = refl
  length-indices test k (x ∷ xs) = ground (arith, length-indices test (suc k) xs)
