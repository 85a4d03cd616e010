-- ===== src/Workspace.antt =====
-- cmux/src/model/workspace.rs: `Workspace`, its panels and its layout. Timestamps and zoom factors
-- have the type `F` of floats; new identifiers and the clock's readings are arguments.
pub mod Placing
pub mod Validity
pub mod Drag
pub mod Sidebar
pub mod Notices
pub mod Examples
use cmux_gtk.Prelude.{
  Uuid, ℕ, Str, codes, ◌==◌, Bool, true, false, not, Option, none, some, List, [], ◌∷◌, Map, get,
  insert, without, contains_key, head?, find, is_some_eq, is_empty_list, if◌then◌else◌, F64,
}
use cmux_gtk.Layout.{
  SplitOrientation, horizontal, vertical, Direction, left, right, up, down, LayoutNode, Place,
  single_pane, all_panel_ids, find_pane_with_panel, select_panel, add_panel_to_pane, split_node,
  split_pane_with_panel,
}
use cmux_gtk.Layout
use cmux_gtk.Panel.{
  PanelType, terminal, browser, markdown, GitBranch, Panel, new_terminal, new_browser, new_markdown,
}
use cmux_gtk.Entries.{PrCheck, StatusEntry, MetadataEntry, MetadataBlock, LogEntry, Progress}
use cmux_gtk.Remote.{RemoteConfig, RemoteState}

pub record Workspace (F : Type 0) : Type 0 where
  pub id : Uuid
  pub process_title : Str
  pub custom_title : Option Str
  pub custom_color : Option Str
  pub is_pinned : Bool
  pub current_directory : Str
  pub focused_panel_id : Option Uuid
  pub previous_focused_panel_id : Option Uuid
  pub zoomed_panel_id : Option Uuid
  pub layout : LayoutNode F
  pub panels : Map (Panel F)
  pub status_entries : List (StatusEntry F)
  pub metadata_entries : List (MetadataEntry F)
  pub metadata_blocks : List (MetadataBlock F)
  pub log_entries : List (LogEntry F)
  pub progress : Option (Progress F)
  pub git_branch : Option GitBranch
  pub unread_count : ℕ
  pub latest_notification : Option Str
  pub latest_notification_at : Option F
  pub attention_panel_id : Option Uuid
  pub pr_status : Option Str
  pub pr_url : Option Str
  pub pr_checks : List PrCheck
  pub window_id : Option Uuid
  pub remote_config : Option RemoteConfig
  pub remote_state : Option RemoteState
  pub imessage_mode : Bool

-- `if x == Some(panel_id) { x = None }`
abbrev clear_if : Uuid → Option Uuid → Option Uuid
clear_if panel_id x = if is_some_eq x panel_id then none else x

abbrev orientation_of : Direction → SplitOrientation
orientation_of left = horizontal
orientation_of right = horizontal
orientation_of up = vertical
orientation_of down = vertical

-- The focused panel, or the first other panel if the one dragged has the focus.
abbrev drag_target : Uuid → Option Uuid → List Uuid → Option Uuid
drag_target panel_id focused ids =
    if is_some_eq focused panel_id then find (λ id. not (id == panel_id)) ids else focused

module _ {F : Type 0} where
  -- `home` is the variable HOME, if it is set.
  unfoldable pub new_workspace : Option Str → Uuid → Uuid → Workspace F
  unfolding single_pane new_terminal
  new_workspace home workspace_id panel_id = record {
    id = workspace_id;
    process_title = codes "Terminal";
    custom_title = none;
    custom_color = none;
    is_pinned = false;
    current_directory = elim home [ none ↦ codes "/" | some dir ↦ dir ];
    focused_panel_id = some panel_id;
    previous_focused_panel_id = none;
    zoomed_panel_id = none;
    layout = single_pane panel_id;
    panels = insert panel_id (new_terminal panel_id) [];
    status_entries = [];
    metadata_entries = [];
    metadata_blocks = [];
    log_entries = [];
    progress = none;
    git_branch = none;
    unread_count = 0;
    latest_notification = none;
    latest_notification_at = none;
    attention_panel_id = none;
    pr_status = none;
    pr_url = none;
    pr_checks = [];
    window_id = none;
    remote_config = none;
    remote_state = none;
    imessage_mode = false;
  }

  -- `panels.get_mut(&id)` with an assignment to the panel found
  abbrev pub update_panel : Uuid → (Panel F → Panel F) → Map (Panel F) → Map (Panel F)
  update_panel id g [] = []
  update_panel id g ((j, p) ∷ m) = if j == id then (j, g p) ∷ m else (j, p) ∷ update_panel id g m

  unfoldable pub with_directory : Option Str → Uuid → Uuid → Str → Workspace F
  unfolding new_workspace
  with_directory home workspace_id panel_id directory =
      let ws = new_workspace home workspace_id panel_id in
      record ws {
        current_directory = directory;
        panels = elim ws.focused_panel_id [
          | none ↦ ws.panels
          | some id ↦ update_panel id (λ p. record p { directory = some directory }) ws.panels
        ];
      }

  unfoldable pub display_title : Workspace F → Str
  display_title ws = elim ws.custom_title [ none ↦ ws.process_title | some t ↦ t ]

  pub new_panel : PanelType → Uuid → Panel F
  unfolding new_terminal new_browser new_markdown
  new_panel terminal id = new_terminal id
  new_panel browser id = new_browser id
  new_panel markdown id = new_markdown id []

  -- The panel that has the focus after the panel was taken out of the layout.
  abbrev refocus : Uuid → Option Uuid → LayoutNode F → Option Uuid
  refocus panel_id focused layout =
      if is_some_eq focused panel_id then head? (all_panel_ids layout) else focused

  unfoldable pub remove_panel : Uuid → Workspace F → Workspace F × Bool
  remove_panel panel_id ws = elim (get panel_id ws.panels) [
    | none ↦ (ws, false)
    | some _ ↦ (
      let layout = (Layout.remove_panel panel_id ws.layout).0 in
          record ws {
            panels = without panel_id ws.panels;
            layout = layout;
            focused_panel_id = refocus panel_id ws.focused_panel_id layout;
          },
      true,
    )
  ]

  unfoldable pub detach_panel : Uuid → Workspace F → Workspace F × Option (Panel F)
  detach_panel panel_id ws = elim (get panel_id ws.panels) [
    | none ↦ (ws, none)
    | some panel ↦ (
      let layout = (Layout.remove_panel panel_id ws.layout).0 in
          record ws {
            panels = without panel_id ws.panels;
            layout = layout;
            focused_panel_id = refocus panel_id ws.focused_panel_id layout;
            previous_focused_panel_id = clear_if panel_id ws.previous_focused_panel_id;
            zoomed_panel_id = clear_if panel_id ws.zoomed_panel_id;
          },
      some panel,
    )
  ]

  unfoldable pub focus_panel : Uuid → Workspace F → Workspace F × Bool
  focus_panel panel_id ws =
      let (layout, selected) = select_panel panel_id ws.layout in
      if contains_key panel_id ws.panels
      then if selected
        then (
          record ws {
            layout = layout;
            previous_focused_panel_id =
                if is_some_eq ws.focused_panel_id panel_id
                then ws.previous_focused_panel_id
                else ws.focused_panel_id;
            focused_panel_id = some panel_id;
          },
          true,
        )
        else (record ws { layout = layout }, false)
      else (ws, false)

  pub panel : Uuid → Workspace F → Option (Panel F)
  panel id ws = get id ws.panels

  pub panel_ids : Workspace F → List Uuid
  panel_ids ws = all_panel_ids ws.layout

  unfoldable pub is_empty : Workspace F → Bool
  is_empty ws = is_empty_list ws.panels

module _ {F : Type 0} ⦃f : F64 F⦄ where
  abbrev split_at : SplitOrientation → Uuid → LayoutNode F → Option (Place F) → LayoutNode F
  split_at orientation new_id whole none = split_node whole orientation new_id
  split_at orientation new_id whole (some (node, put)) = put (split_node node orientation new_id)

  -- The pane with the focus is split; with no focus, or none found, the root is.
  pub split_focused : Option Uuid → SplitOrientation → Uuid → LayoutNode F → LayoutNode F
  split_focused none orientation new_id layout = split_at orientation new_id layout none
  split_focused (some focused_id) orientation new_id layout =
      split_at orientation new_id layout (find_pane_with_panel focused_id layout)

  pub insert_panel : Panel F → SplitOrientation → Workspace F → Workspace F × Bool
  unfolding split_focused
  insert_panel p orientation ws = (
    record ws {
      panels = insert p.id p ws.panels;
      layout = split_focused ws.focused_panel_id orientation p.id ws.layout;
      previous_focused_panel_id = ws.focused_panel_id;
      focused_panel_id = some p.id;
    },
    true,
  )

  -- The method `Workspace::split`, with the identifier of the new panel.
  unfoldable pub split_workspace : SplitOrientation → PanelType → Uuid → Workspace F → Workspace F
  unfolding split_focused new_panel
  split_workspace orientation panel_type new_id ws = record ws {
    panels = insert new_id (new_panel panel_type new_id) ws.panels;
    layout = split_focused ws.focused_panel_id orientation new_id ws.layout;
    previous_focused_panel_id = ws.focused_panel_id;
    focused_panel_id = some new_id;
  }

  -- The layout after the split, or with the panel as a tab if the target was not found.
  abbrev place_dragged : Uuid → Uuid → LayoutNode F × Bool → LayoutNode F
  place_dragged target panel_id (layout, true) = layout
  place_dragged target panel_id (layout, false) = (add_panel_to_pane target panel_id layout).0

  drag_onto : Uuid → Direction → Workspace F → Option Uuid → Workspace F × Bool
  drag_onto panel_id direction ws none = (ws, false)
  drag_onto panel_id direction ws (some target) = (
    record ws {
      layout = place_dragged target panel_id (
          split_pane_with_panel target panel_id (orientation_of direction) direction
            (Layout.remove_panel panel_id ws.layout).0);
      previous_focused_panel_id = ws.focused_panel_id;
      focused_panel_id = some panel_id;
    },
    true,
  )

  pub drag_to_split : Uuid → Direction → Workspace F → Workspace F × Bool
  unfolding drag_onto
  drag_to_split panel_id direction ws =
      if contains_key panel_id ws.panels
      then drag_onto panel_id direction ws
          (drag_target panel_id ws.focused_panel_id (all_panel_ids ws.layout))
      else (ws, false)
