-- ===== src/Layout/Navigate/Steps.antt =====
-- cmux/src/model/panel.rs: the item after another and the one before it, in a cycle.
use native.Mathlib.Nat.{mod-eq_of_lt, mod_self}
use mathlib.Core.Path.{subst}
use cmux_gtk.Prelude.{
  Uuid, ℕ, zero, suc, ◌+◌, ◌%◌, ◌<◌, ◌==◌, ◌≡◌, refl, ap, sym, ◌∙◌, false, ◌⊎◌, inl, inr, some,
  List, [], ◌∷◌, ◌++◌, arith, contains, Bool-cases, Option-cases, length, length-append, get_elem?,
  head?, last?, position,
}
use cmux_gtk.Layout.Navigate.{next_in, prev_in}
use cmux_gtk.Layout.Navigate.Cycle.{next_in-cases, prev_in-cases, after_index, before_index}

-- `x` stands right behind the first `c`, or is the first item where `c` is the last one.
abbrev pub IsNext : Uuid → List Uuid → Uuid → Type 0
IsNext c ids x =
    ((front : List Uuid) × (back : List Uuid) × (contains c front ≡ false)
      × (ids ≡ front ++ c ∷ x ∷ back))
    ⊎ ((front : List Uuid) × (contains c front ≡ false)
        × (ids ≡ front ++ c ∷ [])
        × (head? ids ≡ some x))

-- `x` stands right before the first `c`, or is the last item where `c` is the first one.
abbrev pub IsPrev : Uuid → List Uuid → Uuid → Type 0
IsPrev c ids x =
    ((front : List Uuid) × (back : List Uuid) × (contains c (front ++ x ∷ []) ≡ false)
      × (ids ≡ (front ++ x ∷ []) ++ c ∷ back))
    ⊎ ((back : List Uuid) × (ids ≡ c ∷ back) × (last? ids ≡ some x))

-- The list around the first item found.
split_at :
    (c i : Uuid) (ids : List Uuid)
    → position (λ id. id == c) ids ≡ some i
    → (front : List Uuid) × (back : List Uuid) × (contains c front ≡ false)
      × (ids ≡ front ++ c ∷ back)
      × (length front ≡ i)
split_at c i [] h = absurd (ground arith)
split_at c i (y ∷ ys) h = elim (Bool-cases (y == c)) [
  | inl e ↦ ([], ys, refl, ap (λ a. a ∷ ys) (ground arith), ground arith)
  | inr n ↦ elim (Option-cases (position (λ id. id == c) ys)) [
    | inl p ↦ absurd (ground arith)
    | inr (k, p) ↦
        let (front, back, away, e, l) = split_at c k ys p in
        (y ∷ front, back, ground arith, ap (λ t. y ∷ t) e, ground arith)
  ]
]

get_elem?-behind :
    (c : Uuid) (front back : List Uuid)
    → get_elem? (front ++ c ∷ back) (suc (length front)) ≡ head? back
get_elem?-behind c [] [] = refl
get_elem?-behind c [] (y ∷ ys) = refl
get_elem?-behind c (x ∷ front) back = get_elem?-behind c front back

get_elem?-first : (ids : List Uuid) → get_elem? ids 0 ≡ head? ids
get_elem?-first [] = refl
get_elem?-first (x ∷ ids) = refl

get_elem?-end : (ids : List Uuid) (n : ℕ) → length ids ≡ suc n → get_elem? ids n ≡ last? ids
get_elem?-end [] n h = absurd (omega arith)
get_elem?-end (x ∷ []) zero h = refl
get_elem?-end (x ∷ []) (suc n) h = absurd (omega arith)
get_elem?-end (x ∷ y ∷ xs) zero h = absurd (omega arith)
get_elem?-end (x ∷ y ∷ xs) (suc n) h = get_elem?-end (y ∷ xs) n (omega arith)

-- The item before what follows a list is its last one.
before_end :
    (front rest : List Uuid) (n : ℕ) (x : Uuid)
    → length front ≡ suc n
    → get_elem? (front ++ rest) n ≡ some x
    → (f : List Uuid) × (front ≡ f ++ x ∷ [])
before_end [] rest n x h e = absurd (omega arith)
before_end (y ∷ []) rest zero x h e = ([], ap (λ a. a ∷ []) (ground arith))
before_end (y ∷ []) rest (suc n) x h e = absurd (omega arith)
before_end (y ∷ z ∷ ys) rest zero x h e = absurd (omega arith)
before_end (y ∷ z ∷ ys) rest (suc n) x h e =
    let (f, same) = before_end (z ∷ ys) rest n x (omega arith) e in (y ∷ f, ap (λ l. y ∷ l) same)

IsNext-at :
    (c x : Uuid) (front back : List Uuid)
    → contains c front ≡ false
    → get_elem? (front ++ c ∷ back) (after_index (length front) (length (front ++ c ∷ back)))
      ≡ some x
    → IsNext c (front ++ c ∷ back) x
IsNext-at c x front [] away g =
    let n : length (front ++ c ∷ []) ≡ length front + 1 = length-append front (c ∷ []) in
    let around : after_index (length front) (length (front ++ c ∷ [])) ≡ 0 =
      ap (λ k. (length front + 1) % k) n ∙ mod_self (length front + 1) in
    inr (
      front,
      away,
      refl,
      sym (get_elem?-first (front ++ c ∷ [])) ∙ (sym (ap (get_elem? (front ++ c ∷ [])) around) ∙ g),
    )
IsNext-at c x front (y ∷ back) away g =
    let inside : length front + 1 < length (front ++ c ∷ y ∷ back) =
      omega (arith, length-append front (c ∷ y ∷ back)) in
    let behind : after_index (length front) (length (front ++ c ∷ y ∷ back)) ≡ suc (length front) =
      mod-eq_of_lt inside ∙ omega arith in
    let found : some y ≡ some x =
      sym (get_elem?-behind c front (y ∷ back))
      ∙ (sym (ap (get_elem? (front ++ c ∷ y ∷ back)) behind) ∙ g) in
    let same : y ≡ x = ground arith in inl (front, back, away, ap (λ a. front ++ c ∷ a ∷ back) same)

pub next_in-IsNext : (ids : List Uuid) (c x : Uuid) → next_in ids c ≡ some x → IsNext c ids x
next_in-IsNext ids c x h =
    let (i, p, g) = next_in-cases ids c x h in
    let (front, back, away, e, l) = split_at c i ids p in
    subst (λ l. IsNext c l x) (sym e)
      (IsNext-at c x front back away (
        subst
          (λ k. get_elem? (front ++ c ∷ back) (after_index k (length (front ++ c ∷ back))) ≡ some x)
          (sym l) (subst (λ l. get_elem? l (after_index i (length l)) ≡ some x) e g)))

IsPrev-at :
    (c x : Uuid) (front back : List Uuid)
    → contains c front ≡ false
    → get_elem? (front ++ c ∷ back) (before_index (length front) (length (front ++ c ∷ back)))
      ≡ some x
    → IsPrev c (front ++ c ∷ back) x
IsPrev-at c x [] back away g = inr (
  back,
  refl,
  sym (get_elem?-end (c ∷ back) (length back) refl) ∙ (ap (get_elem? (c ∷ back)) (omega arith) ∙ g),
)
IsPrev-at c x (y ∷ front) back away g =
    let before : before_index (suc (length front)) (length (y ∷ front ++ c ∷ back)) ≡ length front =
      ground arith in
    let (f, same) =
      before_end (y ∷ front) (c ∷ back) (length front) x refl
        (sym (ap (get_elem? (y ∷ front ++ c ∷ back)) before) ∙ g) in
    inl (f, back, ap (contains c) (sym same) ∙ away, ap (λ l. l ++ c ∷ back) same)

pub prev_in-IsPrev : (ids : List Uuid) (c x : Uuid) → prev_in ids c ≡ some x → IsPrev c ids x
prev_in-IsPrev ids c x h =
    let (i, p, g) = prev_in-cases ids c x h in
    let (front, back, away, e, l) = split_at c i ids p in
    subst (λ l. IsPrev c l x) (sym e)
      (IsPrev-at c x front back away (
        subst
          (λ k.
            get_elem? (front ++ c ∷ back) (before_index k (length (front ++ c ∷ back))) ≡ some x)
          (sym l) (subst (λ l. get_elem? l (before_index i (length l)) ≡ some x) e g)))
