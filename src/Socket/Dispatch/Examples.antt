-- ===== src/Socket/Dispatch/Examples.antt =====
-- cmux/src/socket/v2/mod.rs: a test of a request to swap panels 1 and 2.
use cmux_gtk.Prelude.{
  ℕ, ◌≡◌, ◌≢◌, refl, sym, true, false, none, some, [], ◌∷◌, Str, codes, milli, arith,
}
use cmux_gtk.Workspace.{Workspace}
use cmux_gtk.Workspace.Examples.{two_panels, two_panels-IsValid}
use cmux_gtk.Workspace.Validity.{IsValid}
use cmux_gtk.TabManager.{selected}
use cmux_gtk.Notifications.{new_store}
use cmux_gtk.Socket.{SharedState, Handler}
use cmux_gtk.Socket.Samples.{Sample, leaf, fields, text, nat, sample_json, sample_float}
use cmux_gtk.Socket.Answer.{IsAnswer}
use cmux_gtk.Socket.Dispatch.{Inputs, Request, pane_swap, surface_move, route, dispatch}
use cmux_gtk.Socket.Dispatch.Answered.{dispatch_answers}

abbrev state : SharedState ℕ
state = record {
  tab_manager = record { workspaces = two_panels ∷ []; selected_index = some 0 };
  notifications = new_store;
  events = [];
}

abbrev inputs : Inputs ℕ
inputs = record {
  new_id = 9;
  workspace_id = 900;
  now = 5;
  home = none;
  reorder = true;
  to_lowercase = λ s. s;
  to_uppercase = λ s. s;
  decimal = λ n. n ∷ [];
}

abbrev request : Request Sample
request = record {
  id = leaf (nat 1);
  method = codes "pane.swap";
  params = fields ((codes "a", text (1 ∷ [])) ∷ (codes "b", text (2 ∷ [])) ∷ []);
  window_id = some (7 ∷ []);
}

abbrev others : Str → Sample → Sample → Handler Sample ℕ
others name id params state = (state, record { id = id; ok = false; result = none; error = none })

sound : (w : Workspace ℕ) → selected state.tab_manager ≡ some w → IsValid w
unfolding selected
sound w e = let same : two_panels ≡ w = ground arith in rw (sym same) two_panels-IsValid

routed : route (codes "pane.swap") ≡ some pane_swap
unfolding route
routed = refl

not_surface_move : pane_swap ≢ surface_move
not_surface_move e = ground (arith, e)

dispatch_answers_example : IsAnswer request.id state (dispatch inputs (7 ∷ []) others request state)
dispatch_answers_example =
    dispatch_answers inputs state (omega arith) sound (7 ∷ []) others request pane_swap routed
      not_surface_move
