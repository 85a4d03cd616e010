-- ===== src/Socket/Reorder/Moves.antt =====
-- cmux/src/socket/v2/workspace.rs: identifiers in a list are moved to their places one at a time.
use cmux_gtk.Prelude.{
  append_one, nil_of_count, contains_of_count, not_contains_of_count, Uuid, ℕ, suc, ◌+◌, ◌≤◌, ◌==◌,
  ◌≡◌, refl, ap, sym, true, false, none, some, List, [], ◌∷◌, ◌++◌, length, remove_at, insert_at,
  position, contains, count, erase, arith, if◌then◌else◌, count-append, length-append, count-erase,
  Bool-cases, inl, inr,
}

-- Where an identifier stands that the front does not have: taken out, it leaves the front as it is,
-- and if it stands right behind the front it is where it was.
abbrev StandsAt : Uuid → List Uuid → List Uuid → ℕ → Type 0
StandsAt x front back i =
    (position (λ y. y == x) (front ++ back) ≡ some i)
    × (remove_at i (front ++ back) ≡ front ++ erase x back)
    × ((i == length front) ≡ true → front ++ x ∷ erase x back ≡ front ++ back)

position-after :
    (x : Uuid) (front back : List Uuid)
    → contains x front ≡ false
    → contains x back ≡ true
    → (i : ℕ) × StandsAt x front back i
position-after x [] [] a h = absurd (ground arith)
position-after x [] (b ∷ back) a h = elim (Bool-cases (b == x)) [
  | inl e ↦ (0, (rw e refl, rw e refl, λ _. ground arith))
  | inr n ↦
      let (i, (p, r, _)) = position-after x [] back refl (ground arith) in
      (suc i, (rw (n, p) refl, rw (n, r) refl, λ z. absurd (ground arith)))
]
position-after x (y ∷ front) back a h =
    let n : (y == x) ≡ false = ground arith in
    let (i, (p, r, z)) = position-after x front back (ground arith) h in
    (suc i, (rw (n, p) refl, ap (λ l. y ∷ l) r, λ e. ap (λ l. y ∷ l) (z (ground arith))))

insert_at-front :
    (x : Uuid) (front back : List Uuid)
    → insert_at (length front) x (front ++ back) ≡ front ++ x ∷ back
insert_at-front x [] back = refl
insert_at-front x (y ∷ front) back = ap (λ l. y ∷ l) (insert_at-front x front back)

-- The turn of the loop, on the identifiers.
abbrev pub place_id : ℕ → Uuid → List Uuid → List Uuid
place_id desired id l = elim (position (λ y. y == id) l) [
  | none ↦ l
  | some i ↦ if i == desired then l else insert_at desired id (remove_at i l)
]

abbrev pub place_ids : ℕ → List Uuid → List Uuid → List Uuid
place_ids desired [] l = l
place_ids desired (id ∷ more) l = place_ids (suc desired) more (place_id desired id l)

place_id-front :
    (x : Uuid) (front back : List Uuid)
    → contains x front ≡ false
    → contains x back ≡ true
    → place_id (length front) x (front ++ back) ≡ front ++ x ∷ erase x back
place_id-front x front back a h =
    let (i, (p, r, z)) = position-after x front back a h in
    elim (Bool-cases (i == length front)) [
      | inl e ↦ rw (p, place_id, e) (sym (z e))
      | inr n ↦ rw (p, place_id, n, r) (insert_at-front x front (erase x back))
    ]

-- Placing a whole order, from the index behind a front that has none of it, makes it the back.
pub place_ids_lem :
    (order front back : List Uuid)
    → ((a : Uuid) → count a order ≡ count a back)
    → ((a : Uuid) → count a front + count a order ≤ 1)
    → place_ids (length front) order (front ++ back) ≡ front ++ order
place_ids_lem [] front back same one = rw (nil_of_count back (λ a. sym (same a))) refl
place_ids_lem (x ∷ order) front back same one =
    let absent = not_contains_of_count x front (ground (arith, one x)) in
    let present = contains_of_count x back (ground (arith, same x)) in
    let n : suc (length front) ≡ length (front ++ x ∷ []) =
      omega (arith, length-append front (x ∷ [])) in
    rw (place_id-front x front back absent present, n)
      (rw (sym (append_one x front (erase x back)), sym (append_one x front order))
        (place_ids_lem order (front ++ x ∷ []) (erase x back)
          (λ a. ground (arith, same a, count-erase a x back present))
          (λ a. ground (arith, one a, count-append a front (x ∷ [])))))
