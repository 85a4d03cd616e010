-- ===== src/Socket/Params.antt =====
-- cmux/src/socket/v2/helpers.rs: what the handlers read in the parameters of a request.
pub mod Readings
use cmux_gtk.Prelude.{
  Uuid, ℕ, Str, codes, ltb, ◌^◌, ◌++◌, Bool, true, false, Option, none, some, List, or_else, [],
  ◌∷◌, if◌then◌else◌,
}
use cmux_gtk.Workspace.{Workspace}
use cmux_gtk.TabManager.{TabManager, selected}
use cmux_gtk.Socket.{Json, Response, Result, err, ok, ok_or, SharedState, invalid_params, not_found}

-- `Option::and_then`
abbrev pub and_then : {A B : Type 0} → Option A → (A → Option B) → Option B
and_then none k = none
and_then (some a) k = k a

-- `Option::unwrap_or`
abbrev pub unwrap_or {ℓ} : {A : Type ℓ} → A → Option A → A
unwrap_or d none = d
unwrap_or d (some a) = a

-- `Result` and `?` on parameters
unfoldable pub try : {V A B : Type 0} → Result V A → (A → Result V B) → Result V B
try (err r) k = err r
try (ok a) k = k a

-- A parameter that may be absent is read only if it is there.
abbrev optional : {V A : Type 0} → Option V → (V → Result V A) → Result V (Option A)
optional none k = ok none
optional (some v) k = try (k v) (λ a. ok (some a))

module _ {V : Type 0} ⦃j : Json V⦄ where
  -- `params.get(key).and_then(|v| v.as_str())`
  abbrev pub get_str : V → Str → Option Str
  get_str params key = and_then (j.get params key) j.as_str

  -- `params.get(key).and_then(|v| v.as_bool())`
  abbrev pub get_bool : V → Str → Option Bool
  get_bool params key = and_then (j.get params key) j.as_bool

  -- `params.get(key).and_then(|v| v.as_array())`
  abbrev pub get_array : V → Str → Option (List V)
  get_array params key = and_then (j.get params key) j.as_array

  -- `params.get(key).and_then(|v| v.as_str()).and_then(|s| Uuid::parse_str(s).ok())`
  abbrev pub get_uuid : V → Str → Option Uuid
  get_uuid params key = and_then (get_str params key) j.parse_uuid

  -- The object with one key, which is true.
  abbrev pub flag : Str → V
  flag key = j.object ((key, j.boolean true) ∷ [])

  -- `if v.is_null() { None } else { Some(v) }`
  abbrev pub non_null : V → Option V
  non_null v = if j.is_null v then none else some v

  -- The first of two keys that is there.
  abbrev pub get_either : V → Str → Str → Option V
  get_either params key other = or_else (j.get params key) (j.get params other)

  unfoldable pub resolve_panel_id : {F : Type 0} → V → V → SharedState F → Result V Uuid
  unfolding invalid_params not_found
  resolve_panel_id id params state =
      elim (and_then (get_either params (codes "panel") (codes "surface")) j.as_str) [
        | some s ↦ ok_or (j.parse_uuid s) (invalid_params id (codes "Invalid panel UUID"))
        | none ↦
            try (ok_or (selected state.tab_manager) (not_found id (codes "No workspace selected")))
              (λ ws. ok_or ws.focused_panel_id (not_found id (codes "No focused panel")))
      ]

  -- `Err(())` is `none`.
  pub parse_workspace_param : V → Option (Option Uuid)
  parse_workspace_param params =
      elim (get_either params (codes "workspace") (codes "workspace_id")) [
        | none ↦ some none
        | some v ↦ if j.is_null v then some none else elim (and_then (j.as_str v) j.parse_uuid) [
          | none ↦ none
          | some id ↦ some (some id)
        ]
      ]

  -- The match of the handlers on the result.
  pub workspace_param : V → V → Result V (Option Uuid)
  unfolding parse_workspace_param invalid_params
  workspace_param id params =
      ok_or (parse_workspace_param params) (invalid_params id (codes "Invalid workspace UUID"))

  -- `usize::try_from` on a target of 64 bits
  in_usize : V → Str → ℕ → Result V ℕ
  unfolding invalid_params
  in_usize id key value =
      if ltb value (2 ^ 64)
      then ok value
      else err (invalid_params id (codes "'" ++ key ++ codes "' is out of range"))

  usize_of : V → Str → V → Result V ℕ
  unfolding in_usize invalid_params
  usize_of id key v =
      try
        (ok_or (j.as_u64 v)
          (invalid_params id (codes "'" ++ key ++ codes "' must be a non-negative integer")))
        (in_usize id key)

  pub parse_usize_param : V → V → Str → Result V (Option ℕ)
  unfolding usize_of
  parse_usize_param id params key = optional (j.get params key) (usize_of id key)

  pub require_panel_id : V → V → Result V Uuid
  unfolding invalid_params
  require_panel_id id params =
      try
        (ok_or
          (and_then
            (or_else (get_either params (codes "panel") (codes "surface"))
              (j.get params (codes "panel_id")))
            non_null)
          (invalid_params id (codes "Provide 'panel' UUID")))
        (λ v.
          try (ok_or (j.as_str v) (invalid_params id (codes "panel must be a string UUID")))
            (λ s. ok_or (j.parse_uuid s) (invalid_params id (codes "Invalid panel UUID format"))))

  pub optional_uuid : V → V → Str → Result V (Option Uuid)
  unfolding invalid_params
  optional_uuid id params key = optional (and_then (j.get params key) non_null) (λ v.
      try
        (ok_or (j.as_str v)
          (invalid_params id (codes "'" ++ key ++ codes "' must be a string UUID")))
        (λ s.
          ok_or (j.parse_uuid s)
            (invalid_params id (codes "Invalid UUID for '" ++ key ++ codes "'"))))
