-- ===== src/Socket/Reorder/Order.antt =====
-- cmux/src/socket/v2/workspace.rs: the order that `workspace.reorder_workspaces` asks for.
use cmux_gtk.Prelude.{
  Uuid, ◌≤◌, ◌==◌, ◌≡◌, refl, ap, sym, Bool, true, false, not, List, [], ◌∷◌, ◌++◌, append_one,
  append_nil, contains, count, retain, arith, if◌then◌else◌, not_contains→count, contains→count,
  Bool-cases, inl, inr, contains-append, count-append,
}
use cmux_gtk.Socket.Reorder.{dedup, push_missing}

count-dedup :
    (a : Uuid) (seen xs : List Uuid)
    → count a (dedup seen xs) ≡ (if contains a seen then 0 else if contains a xs then 1 else 0)
unfolding dedup
count-dedup a seen [] = ground arith
count-dedup a seen (x ∷ xs) = ground (arith, count-dedup a seen xs, count-dedup a (x ∷ seen) xs)

contains-dedup : (a : Uuid) (xs : List Uuid) → contains a (dedup [] xs) ≡ contains a xs
contains-dedup a xs =
    ground (
      arith,
      count-dedup a [] xs,
      contains→count a (dedup [] xs),
      not_contains→count a (dedup [] xs),
    )

-- What is in neither list stays when one of the lists grows.
retain-absent :
    (order : List Uuid) (x : Uuid) (xs : List Uuid)
    → contains x xs ≡ false
    → retain (λ a. not (contains a (order ++ x ∷ []))) xs ≡ retain (λ a. not (contains a order)) xs
retain-absent order x [] h = refl
retain-absent order x (y ∷ xs) h =
    ground (arith, retain-absent order x xs, contains-append y order (x ∷ []))

push_missing_lem :
    (order xs : List Uuid)
    → ((a : Uuid) → count a xs ≤ 1)
    → push_missing order xs ≡ order ++ retain (λ a. not (contains a order)) xs
unfolding push_missing
push_missing_lem order [] one = sym (append_nil order)
push_missing_lem order (x ∷ xs) one =
    let one' : (a : Uuid) → count a xs ≤ 1 = λ a. ground (arith, one a) in
    elim (Bool-cases (contains x order)) [
      | inl e ↦ rw e (push_missing_lem order xs one')
      | inr n ↦
          let absent : contains x xs ≡ false = ground (arith, one x, contains→count x xs) in
          rw (n, push_missing_lem (order ++ x ∷ []) xs one', retain-absent order x xs absent)
            (append_one x order (retain (λ a. not (contains a order)) xs))
    ]

retain_ext :
    (p q : Uuid → Bool) (xs : List Uuid) → ((a : Uuid) → p a ≡ q a) → retain p xs ≡ retain q xs
retain_ext p q [] h = refl
retain_ext p q (x ∷ xs) h = ground (arith, h x, retain_ext p q xs h)

count-retain_absent :
    (a : Uuid) (listed xs : List Uuid)
    → count a (retain (λ b. not (contains b listed)) xs)
      ≡ (if contains a listed then 0 else count a xs)
count-retain_absent a listed [] = ground arith
count-retain_absent a listed (x ∷ xs) = elim (Bool-cases (x == a)) [
  | inl e ↦
      let same : x ≡ a = ground arith in rw same (ground (arith, count-retain_absent a listed xs))
  | inr n ↦ ground (arith, count-retain_absent a listed xs)
]

-- The listed identifiers once each, and then the others in their order.
abbrev pub requested : List Uuid → List Uuid → List Uuid
requested listed all = dedup [] listed ++ retain (λ a. not (contains a listed)) all

pub push_missing-requested :
    (listed all : List Uuid)
    → ((a : Uuid) → count a all ≤ 1)
    → push_missing (dedup [] listed) all ≡ requested listed all
push_missing-requested listed all one = rw (push_missing_lem (dedup [] listed) all one) (
    ap (λ l. dedup [] listed ++ l)
      (retain_ext (λ a. not (contains a (dedup [] listed))) (λ a. not (contains a listed)) all
        (λ a. ap not (contains-dedup a listed))))

-- They are the identifiers of the list if the listed ones are among them.
pub count-requested :
    (listed all : List Uuid)
    → ((a : Uuid) → count a all ≤ 1)
    → ((a : Uuid) → contains a listed ≡ true → contains a all ≡ true)
    → (a : Uuid) → count a (requested listed all) ≡ count a all
count-requested listed all one among a = elim (Bool-cases (contains a listed)) [
  | inl e ↦
      let h = contains→count a all (among a e) in
      ground (
        arith,
        count-append a (dedup [] listed) (retain (λ b. not (contains b listed)) all),
        count-dedup a [] listed,
        count-retain_absent a listed all,
        one a,
      )
  | inr n ↦ ground (
    arith,
    count-append a (dedup [] listed) (retain (λ b. not (contains b listed)) all),
    count-dedup a [] listed,
    count-retain_absent a listed all,
    one a,
  )
]
