-- ===== src/Socket/Params/Readings.antt =====
-- cmux/src/socket/v2/helpers.rs: what is read in the parameters is a value or an error of the request.
use cmux_gtk.Prelude.{ℕ, ltb, ◌^◌, Str, codes, Option, none, some, Bool-cases, inl, inr}
use cmux_gtk.TabManager.{selected}
use cmux_gtk.Socket.{Json, Result, SharedState, invalid_params, not_found, ok_or}
use cmux_gtk.Socket.Params.{
  try, optional, and_then, get_either, parse_workspace_param, workspace_param, in_usize, usize_of,
  parse_usize_param, resolve_panel_id,
}
use cmux_gtk.Socket.Answer.{IsParam, bad, read, ok_or-bad, ok_or-absent, try-IsParam}

module _ {V : Type 0} (id : V) where
  optional-IsParam :
      {A : Type 0} (o : Option V) (k : V → Result V A)
      → ((v : V) → IsParam id (k v))
      → IsParam id (optional o k)
  optional-IsParam none k f = read none
  optional-IsParam (some v) k f = try-IsParam id (f v) (λ a. read (some a))

module _ {V : Type 0} ⦃j : Json V⦄ (id params : V) where
  pub workspace_param-IsParam : IsParam id (workspace_param id params)
  unfolding workspace_param
  workspace_param-IsParam = ok_or-bad id (parse_workspace_param params) _

  in_usize-IsParam : (key : Str) (n : ℕ) → IsParam id (in_usize id key n)
  unfolding in_usize
  in_usize-IsParam key n = elim (Bool-cases (ltb n (2 ^ 64))) [
    | inl e ↦ rw e (read n)
    | inr e ↦ rw e (bad _)
  ]

  pub parse_usize_param-IsParam : (key : Str) → IsParam id (parse_usize_param id params key)
  unfolding parse_usize_param usize_of
  parse_usize_param-IsParam key =
      optional-IsParam id (j.get params key) (usize_of id key)
        (λ v. try-IsParam id (ok_or-bad id (j.as_u64 v) _) (in_usize-IsParam key))

  pub resolve_panel_id-IsParam :
      {F : Type 0} (state : SharedState F) → IsParam id (resolve_panel_id id params state)
  unfolding resolve_panel_id
  resolve_panel_id-IsParam state =
      go (and_then (get_either params (codes "panel") (codes "surface")) j.as_str)
    where
      go :
          (o : Option Str)
          → IsParam id (elim o [
            | some s ↦ ok_or (j.parse_uuid s) (invalid_params id (codes "Invalid panel UUID"))
            | none ↦
                try
                  (ok_or
                    (selected state.tab_manager)
                    (not_found id (codes "No workspace selected")))
                  (λ ws. ok_or ws.focused_panel_id (not_found id (codes "No focused panel")))
          ])
      go none =
          try-IsParam id (ok_or-absent id (selected state.tab_manager) _)
            (λ ws. ok_or-absent id ws.focused_panel_id _)
      go (some s) = ok_or-bad id (j.parse_uuid s) _
