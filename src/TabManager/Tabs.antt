-- ===== src/TabManager/Tabs.antt =====
-- cmux/src/model/tab_manager.rs: the list of workspaces as its user sees it, the identifiers in their
-- order and the one that is selected, with no index.
pub mod Refined
pub mod Removed
pub mod Operations
pub mod Examples
use cmux_gtk.Prelude.{
  Uuid, ℕ, zero, suc, ◌-◌, ◌+◌, ◌==◌, ◌<◌, ◌≤◌, ltb, leb, ◌≡◌, refl, ap, sym, ◌∙◌, Bool, true,
  false, not, ◌||◌, Option, none, some, or_else, is_some_eq, List, [], ◌∷◌, ◌++◌, map, length,
  get_elem?, last?, remove_at, insert_at, position, contains, count, if◌then◌else◌, arith,
  Bool-cases, Option-cases, inl, inr, length-remove_at, length-append, contains→count,
}
use cmux_gtk.Workspace.{Workspace}
use cmux_gtk.TabManager.{
  TabManager, IsValid, Points, has_id, len, selected, selected_id, select, select_by_id,
  workspace_index, add_workspace, add_workspace_at_top, move_workspace, remove, removed_index,
}
use cmux_gtk.TabManager.Ids.{ids, length-ids, move_workspace-ids, workspace_index-found}
use cmux_gtk.TabManager.Follow.{move_workspace-selected, remove-selected}

pub record Tabs : Type 0 where
  pub tabs : List Uuid
  pub chosen : Option Uuid

-- Nothing is chosen where there is no tab.
pub pick : ℕ → Tabs → Tabs
pick index v = record v { chosen = or_else (get_elem? v.tabs index) v.chosen }

pub pick_id : Uuid → Tabs → Tabs
pick_id id v = record v { chosen = if contains id v.tabs then some id else v.chosen }

pub push_back : Uuid → Tabs → Tabs
push_back id v = record { tabs = v.tabs ++ id ∷ []; chosen = some id }

pub push_front : Uuid → Tabs → Tabs
push_front id v = record { tabs = id ∷ v.tabs; chosen = some id }

pub transfer : ℕ → ℕ → Tabs → Tabs
transfer from to v = elim (get_elem? v.tabs from) [
  | none ↦ v
  | some id ↦
      if ltb to (length v.tabs)
      then record v { tabs = insert_at to id (remove_at from v.tabs) }
      else v
]

-- The one behind the chosen tab is chosen when that goes, or the last.
pub take_out : ℕ → Tabs → Tabs
take_out index v = elim (get_elem? v.tabs index) [
  | none ↦ v
  | some id ↦
      let rest = remove_at index v.tabs in
      record {
        tabs = rest;
        chosen =
            if is_some_eq v.chosen id
            then or_else (get_elem? rest index) (last? rest)
            else v.chosen;
      }
]

module _ {ℓ} {A : Type ℓ} where
  get_elem?_total : (xs : List A) (i : ℕ) → i < length xs → (x : A) × (get_elem? xs i ≡ some x)
  get_elem?_total [] i h = elim h [ ]
  get_elem?_total (x ∷ xs) zero h = (x, refl)
  get_elem?_total (x ∷ xs) (suc i) h = get_elem?_total xs i (omega arith)

  get_elem?_past : (xs : List A) (i : ℕ) → length xs ≤ i → get_elem? xs i ≡ none
  get_elem?_past [] i h = refl
  get_elem?_past (x ∷ xs) zero h = elim h [ ]
  get_elem?_past (x ∷ xs) (suc i) h = get_elem?_past xs i (omega arith)

  get_elem?-last? : (xs : List A) (n : ℕ) → length xs ≡ suc n → get_elem? xs n ≡ last? xs
  get_elem?-last? [] n h = absurd (omega arith)
  get_elem?-last? (x ∷ []) zero h = refl
  get_elem?-last? (x ∷ []) (suc n) h = absurd (omega arith)
  get_elem?-last? (x ∷ y ∷ xs) zero h = absurd (omega arith)
  get_elem?-last? (x ∷ y ∷ xs) (suc n) h = get_elem?-last? (y ∷ xs) n (omega arith)

  last?-append : (v : A) (xs : List A) → last? (xs ++ v ∷ []) ≡ some v
  last?-append v [] = refl
  last?-append v (x ∷ []) = refl
  last?-append v (x ∷ y ∷ xs) = last?-append v (y ∷ xs)

  insert_at-remove_at :
      (i : ℕ) (v : A) (xs : List A) → get_elem? xs i ≡ some v → insert_at i v (remove_at i xs) ≡ xs
  insert_at-remove_at i v [] e = absurd (ground arith)
  insert_at-remove_at zero v (x ∷ xs) e = ap (λ a. a ∷ xs) (ground arith)
  insert_at-remove_at (suc i) v (x ∷ xs) e = ap (λ l. x ∷ l) (insert_at-remove_at i v xs e)

get_elem?-count : (i a : ℕ) (xs : List ℕ) → get_elem? xs i ≡ some a → 0 < count a xs
get_elem?-count i a [] e = absurd (ground arith)
get_elem?-count zero a (x ∷ xs) e = ground arith
get_elem?-count (suc i) a (x ∷ xs) e = ground (arith, get_elem?-count i a xs e)

-- An identifier that occurs at most once stands at one index.
get_elem?_unique :
    (i j a : ℕ) (xs : List ℕ)
    → count a xs ≤ 1
    → get_elem? xs i ≡ some a
    → get_elem? xs j ≡ some a
    → i ≡ j
get_elem?_unique i j a [] h e e' = absurd (ground arith)
get_elem?_unique zero zero a (x ∷ xs) h e e' = refl
get_elem?_unique zero (suc j) a (x ∷ xs) h e e' = absurd (ground (arith, get_elem?-count j a xs e'))
get_elem?_unique (suc i) zero a (x ∷ xs) h e e' = absurd (ground (arith, get_elem?-count i a xs e))
get_elem?_unique (suc i) (suc j) a (x ∷ xs) h e e' =
    ap suc (get_elem?_unique i j a xs (ground arith) e e')
