-- ===== src/Socket/Reorder/Examples.antt =====
-- cmux/src/socket/v2/workspace.rs: a test of the new order, on workspaces 100, 200 and 300.
use cmux_gtk.Prelude.{◌+◌, Uuid, ℕ, ◌≡◌, refl, none, some, List, [], ◌∷◌, Str, codes}
use cmux_gtk.Workspace.{Workspace, new_workspace}
use cmux_gtk.TabManager.Ids.{ids}
use cmux_gtk.Notifications.{new_store}
use cmux_gtk.Socket.{SharedState}
use cmux_gtk.Socket.Samples.{Sample, leaf, fields, text, nat, texts, sample_json}
use cmux_gtk.Socket.Reorder.{dedup}
use cmux_gtk.Socket.Reorder.Order.{requested}

abbrev titled : Str → Uuid → Workspace ℕ
titled title id = record (new_workspace none id (id + 1)) { custom_title = some title }

abbrev state : SharedState ℕ
state = record {
  tab_manager = record {
    workspaces = titled (codes "a") 100 ∷ titled (codes "b") 200 ∷ titled (codes "c") 300 ∷ [];
    selected_index = some 0;
  };
  notifications = new_store;
  events = [];
}

abbrev names : List Str
names = codes "c" ∷ codes "1" ∷ codes "c" ∷ []

abbrev values : List Sample
values = leaf (text (codes "c")) ∷ leaf (text (codes "1")) ∷ leaf (text (codes "c")) ∷ []

abbrev params : Sample
params = fields ((codes "workspaces", texts names) ∷ [])

abbrev id : Sample
id = leaf (nat 1)

-- The title `c` and the index 1 come first, and the rest follows.
order : requested (300 ∷ 200 ∷ 300 ∷ []) (ids state.tab_manager) ≡ 300 ∷ 200 ∷ 100 ∷ []
unfolding dedup new_workspace
order = refl
