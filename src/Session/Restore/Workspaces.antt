-- ===== src/Session/Restore/Workspaces.antt =====
-- cmux/src/app.rs: the workspaces that are restored against those that were saved.
use mathlib.Core.Path.{subst}
use cmux_gtk.Prelude.{
  Uuid, ◌≡◌, refl, sym, ◌∙◌, ap, Str, Bool, true, false, Option, none, some, arith, Map, get,
  contains_key, get-contains_key, F64, IsOrdered, count, if◌then◌else◌,
}
use cmux_gtk.Layout.{all_panel_ids}
use cmux_gtk.Layout.Divider.{equalize}
use cmux_gtk.Layout.Divider.Range.{AllDividers}
use cmux_gtk.Layout.Remove.{IsTidy, IsShown}
use cmux_gtk.Panel.{Panel}
use cmux_gtk.Workspace.{Workspace, with_directory}
use cmux_gtk.Workspace.Validity.{IsValid}
use cmux_gtk.Session.Snapshot.{Collected, make_ws_snapshot}
use cmux_gtk.Session.Restore.{AgentRestoreSettings, restore_workspace}
use cmux_gtk.Session.Restore.Layouts.{IsExact, saved_layout, saved-IsTidy, saved-ids}
use cmux_gtk.Session.Restore.Panels.{IsKeyed, IsKeptAt, restore_panels-IsKeptAt}

module _ {F : Type 0} ⦃f : F64 F⦄ where
  -- A workspace as the program has it: valid, with each panel under its identifier and the dividers
  -- between 0 and 1.
  pub record IsSavable (w : Workspace F) : Type 0 where
    pub valid : IsValid w
    pub keyed : IsKeyed w.panels
    pub exact : AllDividers IsExact w.layout

module _ {F : Type 0} ⦃f : F64 F⦄ (to_lowercase : Str → Str) (settings : AgentRestoreSettings)
    (c : Collected F) (home : Option Str) (window : Uuid) where
  abbrev again : Uuid × Uuid → Workspace F → Workspace F
  again new w = restore_workspace true settings home window new (make_ws_snapshot to_lowercase c w)

  -- The workspace `r`, in the window, is `w` after the program was started again.
  pub record IsRestored (w r : Workspace F) : Type 0 where
    pub valid : IsValid r
    pub window_id : r.window_id ≡ some window
    pub process_title : r.process_title ≡ w.process_title
    pub custom_title : r.custom_title ≡ w.custom_title
    pub custom_color : r.custom_color ≡ w.custom_color
    pub is_pinned : r.is_pinned ≡ w.is_pinned
    pub current_directory : r.current_directory ≡ w.current_directory
    pub focused_panel_id : r.focused_panel_id ≡ w.focused_panel_id
    pub layout : r.layout ≡ (if c.split_ratio_persist then w.layout else (equalize w.layout).0)
    pub panels : (k : Uuid) → IsKeptAt to_lowercase settings c (get k w.panels) (get k r.panels)
    pub status_entries : r.status_entries ≡ w.status_entries
    pub log_entries : r.log_entries ≡ w.log_entries
    pub progress : r.progress ≡ w.progress
    pub git_branch : r.git_branch ≡ w.git_branch
    pub remote_config : r.remote_config ≡ w.remote_config

  again-panels :
      (new : Uuid × Uuid) (w : Workspace F)
      → IsSavable w
      → (k : Uuid) → IsKeptAt to_lowercase settings c (get k w.panels) (get k (again new w).panels)
  unfolding restore_workspace make_ws_snapshot
  again-panels new w s k = restore_panels-IsKeptAt to_lowercase settings c w.panels k s.keyed

  is_there : Option (Panel F) → Bool
  is_there none = false
  is_there (some _) = true

  IsKeptAt-is_there :
      (o r : Option (Panel F)) → IsKeptAt to_lowercase settings c o r → is_there r ≡ is_there o
  unfolding is_there
  IsKeptAt-is_there none none h = refl
  IsKeptAt-is_there (some p) (some q) h = refl
  IsKeptAt-is_there none (some q) h = absurd (ground arith)
  IsKeptAt-is_there (some p) none h = absurd (ground arith)

  again-layout :
      (law : IsOrdered f) (new : Uuid × Uuid) (w : Workspace F)
      → IsSavable w
      → (again new w).layout ≡ (if c.split_ratio_persist then w.layout else (equalize w.layout).0)
  unfolding restore_workspace make_ws_snapshot
  again-layout law new w s = saved_layout law c.split_ratio_persist w.layout s.exact

  occurs-there : (a : Uuid) (m : Map (Panel F)) → contains_key a m ≡ is_there (get a m)
  unfolding is_there
  occurs-there a m = ground (arith, get-contains_key a m)

  again-occurs :
      (new : Uuid × Uuid) (w : Workspace F)
      → IsSavable w
      → (a : Uuid) → contains_key a (again new w).panels ≡ contains_key a w.panels
  again-occurs new w s a =
      occurs-there a (again new w).panels
      ∙ IsKeptAt-is_there (get a w.panels) (get a (again new w).panels) (again-panels new w s a)
      ∙ sym (occurs-there a w.panels)

  shown :
      (new : Uuid × Uuid) (w : Workspace F)
      → all_panel_ids (again new w).layout ≡ all_panel_ids w.layout
      → IsShown (all_panel_ids w.layout) w.focused_panel_id
      → IsShown (all_panel_ids (again new w).layout) (again new w).focused_panel_id
  unfolding restore_workspace make_ws_snapshot
  shown new w e h = subst (λ l. IsShown l w.focused_panel_id) (sym e) h

  again-IsValid :
      (law : IsOrdered f) (new : Uuid × Uuid) (w : Workspace F)
      → IsSavable w
      → IsValid (again new w)
  again-IsValid law new w s =
      let e = again-layout law new w s in
      let same_ids : all_panel_ids (again new w).layout ≡ all_panel_ids w.layout =
        ap all_panel_ids e ∙ saved-ids c.split_ratio_persist w.layout in
      record {
        same = λ a. ground (arith, ap (count a) same_ids, s.valid.same a, again-occurs new w s a);
        focus = shown new w same_ids s.valid.focus;
        tidy = subst IsTidy (sym e) (saved-IsTidy c.split_ratio_persist w.layout s.valid.tidy);
      }

  pub again-IsRestored :
      (law : IsOrdered f) (new : Uuid × Uuid) (w : Workspace F)
      → IsSavable w
      → IsRestored w (again new w)
  unfolding restore_workspace make_ws_snapshot with_directory
  again-IsRestored law new w s = record {
    valid = again-IsValid law new w s;
    window_id = refl;
    process_title = refl;
    custom_title = refl;
    custom_color = refl;
    is_pinned = refl;
    current_directory = refl;
    focused_panel_id = refl;
    layout = again-layout law new w s;
    panels = again-panels new w s;
    status_entries = refl;
    log_entries = refl;
    progress = refl;
    git_branch = refl;
    remote_config = refl;
  }
