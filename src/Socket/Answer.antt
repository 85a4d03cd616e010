-- ===== src/Socket/Answer.antt =====
-- cmux/src/socket/v2: what a handler promises of its answer.
pub mod Edits
pub mod Reports
pub mod Describes
pub mod Selects
pub mod Actions
pub mod Reorders
pub mod Panes
pub mod Splits
pub mod Moves
pub mod Tabs
pub mod Notices
use cmux_gtk.Prelude.{ℕ, Uuid, Str, ◌≡◌, refl, Option, none, some}
use cmux_gtk.TabManager.{TabManager, IsValid}
use cmux_gtk.Socket.{
  Json, Response, Result, err, ok, ok_or, ◌>>=◌, Handler, SharedState, success, invalid_params,
  not_found,
}
use cmux_gtk.Socket.Params.{try}

module _ {V F : Type 0} (id : V) (state : SharedState F) where
  -- The request is refused with an error and nothing has changed, or it succeeds and a workspace is
  -- selected whenever there is one. The response has the identifier of the request.
  pub data IsAnswer : SharedState F × Response V → Type 0 where
    refused : (message : Str) → IsAnswer (state, invalid_params id message)
    missing : (message : Str) → IsAnswer (state, not_found id message)
    done :
        (after : SharedState F) (result : V)
        → IsValid after.tab_manager
        → IsAnswer (after, success id result)

module _ {V : Type 0} (id : V) where
  -- What is read in the parameters, or an error of the two kinds.
  pub data IsParam {A : Type 0} : Result V A → Type 0 where
    bad : (message : Str) → IsParam (err (invalid_params id message))
    absent : (message : Str) → IsParam (err (not_found id message))
    read : (a : A) → IsParam (ok a)

  module _ {A : Type 0} where
    pub ok_or-bad : (o : Option A) (message : Str) → IsParam (ok_or o (invalid_params id message))
    unfolding ok_or
    ok_or-bad none message = bad message
    ok_or-bad (some a) message = read a

    pub ok_or-absent : (o : Option A) (message : Str) → IsParam (ok_or o (not_found id message))
    unfolding ok_or
    ok_or-absent none message = absent message
    ok_or-absent (some a) message = read a

    pub try-IsParam :
        {B : Type 0} {r : Result V A} {k : A → Result V B}
        → IsParam r
        → ((a : A) → IsParam (k a))
        → IsParam (try r k)
    unfolding try
    try-IsParam (bad message) f = bad message
    try-IsParam (absent message) f = absent message
    try-IsParam (read a) f = f a

    pub bind-IsAnswer :
        {F : Type 0} {state : SharedState F} {r : Result V A} (k : A → Handler V F)
        → IsParam r
        → ((a : A) → IsAnswer id state (k a state))
        → IsAnswer id state ((r >>= k) state)
    unfolding ◌>>=◌
    bind-IsAnswer k (bad message) f = refused message
    bind-IsAnswer k (absent message) f = missing message
    bind-IsAnswer k (read a) f = f a

module _ {V F : Type 0} (id : V) (state : SharedState F) where
  -- A refusal that leaves the list as it was.
  pub refused-same :
      (tm : TabManager F) (message : Str)
      → tm ≡ state.tab_manager
      → IsAnswer id state (record state { tab_manager = tm }, invalid_params id message)
  refused-same tm message e = rw e (refused message)

  pub missing-same :
      (tm : TabManager F) (message : Str)
      → tm ≡ state.tab_manager
      → IsAnswer id state (record state { tab_manager = tm }, not_found id message)
  missing-same tm message e = rw e (missing message)
