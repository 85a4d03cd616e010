-- ===== src/Layout/Navigate/Cycle.antt =====
-- cmux/src/model/panel.rs: `next_panel_id` and `prev_panel_id`, and the tabs of a pane, as cycles.
use cmux_gtk.Prelude.{
  Uuid, ℕ, zero, suc, ◌+◌, ◌-◌, ◌%◌, ◌≤◌, ◌<◌, ◌==◌, ◌≡◌, refl, ap, ◌∙◌, true, false, inl, inr,
  Option, none, some, List, [], ◌∷◌, arith, contains, count, Bool-cases, Option-cases, ltb,
  if◌then◌else◌, length, get_elem?, position,
}
use native.Mathlib.Nat.{mod-eq_of_lt, mod_self}
use cmux_gtk.Layout.{LayoutNode, all_panel_ids}
use cmux_gtk.Layout.Navigate.{next_in, prev_in, next_panel_id, prev_panel_id}

-- No identifier occurs twice.
abbrev pub IsNodup : List Uuid → Type 0
IsNodup xs = (a : Uuid) → count a xs ≤ 1

abbrev pub index_of : Uuid → List Uuid → Option ℕ
index_of c ids = position (λ id. id == c) ids

IsNodup-tail : (x : Uuid) (xs : List Uuid) → IsNodup (x ∷ xs) → IsNodup xs
IsNodup-tail x xs h a = omega (arith, h a)

count_of_get : (x : Uuid) (i : ℕ) (xs : List Uuid) → get_elem? xs i ≡ some x → 0 < count x xs
count_of_get x i [] h = ground arith
count_of_get x zero (y ∷ ys) h = ground arith
count_of_get x (suc i) (y ∷ ys) h = omega (arith, count_of_get x i ys h)

index_of-get_elem? :
    (x : Uuid) (i : ℕ) (xs : List Uuid)
    → IsNodup xs
    → get_elem? xs i ≡ some x
    → index_of x xs ≡ some i
index_of-get_elem? x i [] n h = ground arith
index_of-get_elem? x zero (y ∷ ys) n h = ground arith
index_of-get_elem? x (suc i) (y ∷ ys) n h =
    ground (arith, index_of-get_elem? x i ys (IsNodup-tail y ys n), count_of_get x i ys, n x)

get_elem?-index_of :
    (x : Uuid) (i : ℕ) (xs : List Uuid) → index_of x xs ≡ some i → get_elem? xs i ≡ some x
get_elem?-index_of x i [] h = ground arith
get_elem?-index_of x zero (y ∷ ys) h = ground arith
get_elem?-index_of x (suc i) (y ∷ ys) h = ground (arith, get_elem?-index_of x i ys)

index_of_bound : (x : Uuid) (i : ℕ) (xs : List Uuid) → index_of x xs ≡ some i → i < length xs
index_of_bound x i [] h = ground arith
index_of_bound x zero (y ∷ ys) h = omega arith
index_of_bound x (suc i) (y ∷ ys) h = ground (arith, index_of_bound x i ys)

index_of_present :
    (x : Uuid) (xs : List Uuid) → contains x xs ≡ true → (i : ℕ) × (index_of x xs ≡ some i)
index_of_present x [] h = absurd (ground arith)
index_of_present x (y ∷ ys) h = elim (Bool-cases (y == x)) [
  | inl e ↦ (0, rw e refl)
  | inr n ↦ let (i, p) = index_of_present x ys (ground arith) in (suc i, rw (n, p) refl)
]

get_elem?_bound : (i : ℕ) (xs : List Uuid) → i < length xs → (x : Uuid) × (get_elem? xs i ≡ some x)
get_elem?_bound i [] h = elim h [ ]
get_elem?_bound zero (x ∷ xs) h = (x, refl)
get_elem?_bound (suc i) (x ∷ xs) h = get_elem?_bound i xs (omega arith)

-- The index after `i`, and the one before, in a cycle of `n`.
abbrev pub after_index : ℕ → ℕ → ℕ
after_index i n = (i + 1) % n

abbrev pub before_index : ℕ → ℕ → ℕ
before_index i n = if i == 0 then n - 1 else i - 1

after_bound : (i n : ℕ) → i < n → after_index i n < n
after_bound i n h = grind arith

before_bound : (i n : ℕ) → i < n → before_index i n < n
before_bound i n h = ground arith

after_before : (i n : ℕ) → i < n → after_index (before_index i n) n ≡ i
after_before i n h = elim (Bool-cases (i == 0)) [
  | inl e ↦ rw e (grind arith)
  | inr e ↦ rw e (grind arith)
]

before_after : (i n : ℕ) → i < n → before_index (after_index i n) n ≡ i
before_after i n h = elim (Bool-cases (ltb (i + 1) n)) [
  | inl e ↦ let m : (i + 1) % n ≡ i + 1 = mod-eq_of_lt (ground arith) in rw m (ground arith)
  | inr e ↦ let m : i + 1 ≡ n = ground arith in rw (m, mod_self n) (ground arith)
]

pub next_in-cases :
    (ids : List Uuid) (c x : Uuid)
    → next_in ids c ≡ some x
    → (i : ℕ) × (index_of c ids ≡ some i) × (get_elem? ids (after_index i (length ids)) ≡ some x)
unfolding next_in
next_in-cases ids c x h = elim (Option-cases (index_of c ids)) [
  | inl e ↦ absurd (ground arith)
  | inr (i, e) ↦ (i, e, ground arith)
]

pub prev_in-cases :
    (ids : List Uuid) (c x : Uuid)
    → prev_in ids c ≡ some x
    → (i : ℕ) × (index_of c ids ≡ some i) × (get_elem? ids (before_index i (length ids)) ≡ some x)
unfolding prev_in
prev_in-cases ids c x h = elim (Option-cases (index_of c ids)) [
  | inl e ↦ absurd (ground arith)
  | inr (i, e) ↦ (i, e, ground arith)
]

prev-next :
    (ids : List Uuid) (c x : Uuid) → IsNodup ids → next_in ids c ≡ some x → prev_in ids x ≡ some c
unfolding prev_in
prev-next ids c x n h =
    let (i, e, g) = next_in-cases ids c x h in
    rw (index_of-get_elem? x (after_index i (length ids)) ids n g, prev_in)
      (ap (get_elem? ids) (before_after i (length ids) (index_of_bound c i ids e))
        ∙ get_elem?-index_of c i ids e)

next-prev :
    (ids : List Uuid) (c x : Uuid) → IsNodup ids → prev_in ids x ≡ some c → next_in ids c ≡ some x
unfolding next_in
next-prev ids c x n h =
    let (i, e, g) = prev_in-cases ids x c h in
    rw (index_of-get_elem? c (before_index i (length ids)) ids n g, next_in)
      (ap (get_elem? ids) (after_before i (length ids) (index_of_bound x i ids e))
        ∙ get_elem?-index_of x i ids e)

pub next_in_total :
    (ids : List Uuid) (c : Uuid) → contains c ids ≡ true → (x : Uuid) × (next_in ids c ≡ some x)
unfolding next_in
next_in_total ids c h =
    let (i, e) = index_of_present c ids h in
    let (x, g) =
      get_elem?_bound (after_index i (length ids)) ids
        (after_bound i (length ids) (index_of_bound c i ids e)) in
    (x, rw (e, next_in) g)

pub prev_in_total :
    (ids : List Uuid) (c : Uuid) → contains c ids ≡ true → (x : Uuid) × (prev_in ids c ≡ some x)
unfolding prev_in
prev_in_total ids c h =
    let (i, e) = index_of_present c ids h in
    let (x, g) =
      get_elem?_bound (before_index i (length ids)) ids
        (before_bound i (length ids) (index_of_bound c i ids e)) in
    (x, rw (e, prev_in) g)

index_of_absent : (x : Uuid) (xs : List Uuid) → contains x xs ≡ false → index_of x xs ≡ none
index_of_absent x [] h = refl
index_of_absent x (y ∷ ys) h = ground (arith, index_of_absent x ys)

pub next_in_absent : (ids : List Uuid) (c : Uuid) → contains c ids ≡ false → next_in ids c ≡ none
unfolding next_in
next_in_absent ids c h = rw (index_of_absent c ids h, next_in)

pub prev_in_absent : (ids : List Uuid) (c : Uuid) → contains c ids ≡ false → prev_in ids c ≡ none
unfolding prev_in
prev_in_absent ids c h = rw (index_of_absent c ids h, prev_in)

module _ {F : Type 0} where
  -- In a tree without repeated panels the next and the previous panel of a panel of the tree exist,
  -- and each returns: the two are inverse to each other, the wrap at the ends included.
  pub next_panel_id-prev_panel_id :
      (t : LayoutNode F) (c : Uuid)
      → IsNodup (all_panel_ids t)
      → contains c (all_panel_ids t) ≡ true
      → (x : Uuid) × (next_panel_id t c ≡ some x)
        × (prev_panel_id t x ≡ some c)
        × (b : Uuid) × (prev_panel_id t c ≡ some b)
        × (next_panel_id t b ≡ some c)
  unfolding next_panel_id prev_panel_id
  next_panel_id-prev_panel_id t c n h =
      let (x, e) = next_in_total (all_panel_ids t) c h in
      let (b, k) = prev_in_total (all_panel_ids t) c h in
      (x, e, prev-next (all_panel_ids t) c x n e, b, k, next-prev (all_panel_ids t) b c n k)
