-- ===== src/Session/Snapshot.antt =====
-- cmux/src/session/snapshot.rs and store.rs: what is saved of a workspace. The struct of each variant
-- of the layout is the arguments of its constructor. What the terminals and the browsers have now is
-- read by panel from maps; a text in lower case is an argument.
use cmux_gtk.Prelude.{
  Uuid, ℕ, Str, codes, Bool, true, false, Option, none, some, List, [], map, Map, get, F64,
  if◌then◌else◌,
}
use cmux_gtk.Layout.{SplitOrientation, LayoutNode}
use cmux_gtk.Layout
use cmux_gtk.Panel.{PanelType, terminal, browser, markdown, GitBranch, Panel}
use cmux_gtk.Entries.{StatusEntry, LogEntry, Progress}
use cmux_gtk.Remote.{RemoteConfig}
use cmux_gtk.Workspace.{Workspace}
use cmux_gtk.Session.Agent.{detect_agent_resume_command}

pub data SessionWorkspaceLayoutSnapshot (F : Type 0) : Type 0 where
  pane_snapshot : List Uuid → Option Uuid → SessionWorkspaceLayoutSnapshot F
  split_snapshot :
      SplitOrientation
      → F
      → SessionWorkspaceLayoutSnapshot F
      → SessionWorkspaceLayoutSnapshot F
      → SessionWorkspaceLayoutSnapshot F

pub record SessionTerminalPanelSnapshot : Type 0 where
  pub working_directory : Option Str
  pub scrollback : Option Str

pub record SessionBrowserPanelSnapshot (F : Type 0) : Type 0 where
  pub url_string : Option Str
  pub should_render_web_view : Bool
  pub page_zoom : F
  pub developer_tools_visible : Bool
  pub back_history : List Str
  pub forward_history : List Str

pub record SessionMarkdownPanelSnapshot : Type 0 where
  pub file_path : Str

pub record SessionPanelSnapshot (F : Type 0) : Type 0 where
  pub id : Uuid
  pub panel_type : Str
  pub title : Option Str
  pub custom_title : Option Str
  pub directory : Option Str
  pub is_pinned : Bool
  pub is_manually_unread : Bool
  pub git_branch : Option GitBranch
  pub listening_ports : List ℕ
  pub tty_name : Option Str
  pub command : Option Str
  pub agent_resume_command : Option Str
  pub terminal : Option SessionTerminalPanelSnapshot
  pub browser : Option (SessionBrowserPanelSnapshot F)
  pub markdown : Option SessionMarkdownPanelSnapshot

pub record SessionWorkspaceSnapshot (F : Type 0) : Type 0 where
  pub process_title : Str
  pub custom_title : Option Str
  pub custom_color : Option Str
  pub is_pinned : Bool
  pub current_directory : Str
  pub focused_panel_id : Option Uuid
  pub layout : SessionWorkspaceLayoutSnapshot F
  pub panels : List (SessionPanelSnapshot F)
  pub status_entries : List (StatusEntry F)
  pub log_entries : List (LogEntry F)
  pub progress : Option (Progress F)
  pub git_branch : Option GitBranch
  pub remote_config : Option RemoteConfig

-- What `create_snapshot` has collected before it visits the workspaces, by panel.
pub record Collected (F : Type 0) : Type 0 where
  pub scrollback_map : Map Str
  pub browser_zoom_map : Map F
  pub browser_url_map : Map Str
  pub browser_history_map : Map (List Str × List Str)
  pub split_ratio_persist : Bool

-- The name that a type has in a session file.
unfoldable pub type_name : PanelType → Str
type_name terminal = codes "terminal"
type_name browser = codes "browser"
type_name markdown = codes "markdown"

module _ {F : Type 0} where
  unfoldable pub from_layout : LayoutNode F → SessionWorkspaceLayoutSnapshot F
  from_layout (Layout.pane panel_ids selected) = pane_snapshot panel_ids selected
  from_layout (Layout.split o d first second) =
      split_snapshot o d (from_layout first) (from_layout second)

module _ {F : Type 0} ⦃f : F64 F⦄ where
  unfoldable pub normalize_divider_positions :
      SessionWorkspaceLayoutSnapshot F → SessionWorkspaceLayoutSnapshot F
  normalize_divider_positions (pane_snapshot ids selected) = pane_snapshot ids selected
  normalize_divider_positions (split_snapshot o d first second) =
      split_snapshot o f.half (normalize_divider_positions first)
        (normalize_divider_positions second)

  -- The parts of a panel that depend on its type; `page_zoom` is 1.0 before it is filled in.
  unfoldable pub agent_of : (Str → Str) → PanelType → Panel F → Option Str
  agent_of to_lowercase terminal p = detect_agent_resume_command to_lowercase p.title p.command
  agent_of to_lowercase browser p = none
  agent_of to_lowercase markdown p = none

  unfoldable pub terminal_of : PanelType → Panel F → Option SessionTerminalPanelSnapshot
  terminal_of terminal p = some (record { working_directory = p.directory; scrollback = none })
  terminal_of browser p = none
  terminal_of markdown p = none

  unfoldable pub browser_of : PanelType → Panel F → Option (SessionBrowserPanelSnapshot F)
  browser_of terminal p = none
  browser_of browser p = some (record {
    url_string = p.browser_url;
    should_render_web_view = true;
    page_zoom = f.one;
    developer_tools_visible = false;
    back_history = [];
    forward_history = [];
  })
  browser_of markdown p = none

  unfoldable pub markdown_of : PanelType → Panel F → Option SessionMarkdownPanelSnapshot
  markdown_of terminal p = none
  markdown_of browser p = none
  markdown_of markdown p = elim p.markdown_file [
    | none ↦ none
    | some file ↦ some (record { file_path = file })
  ]

  unfoldable pub from_panel : (Str → Str) → Panel F → SessionPanelSnapshot F
  unfolding type_name agent_of terminal_of browser_of markdown_of
  from_panel to_lowercase p = record {
    id = p.id;
    panel_type = type_name p.panel_type;
    title = p.title;
    custom_title = p.custom_title;
    directory = p.directory;
    is_pinned = p.is_pinned;
    is_manually_unread = p.is_manually_unread;
    git_branch = p.git_branch;
    listening_ports = p.listening_ports;
    tty_name = p.tty_name;
    command = p.command;
    agent_resume_command = agent_of to_lowercase p.panel_type p;
    terminal = terminal_of p.panel_type p;
    browser = browser_of p.panel_type p;
    markdown = markdown_of p.panel_type p;
  }

  -- A browser with what its web view has now.
  unfoldable pub fill_browser :
      Collected F → Uuid → SessionBrowserPanelSnapshot F → SessionBrowserPanelSnapshot F
  fill_browser c id b = record b {
    page_zoom = elim (get id c.browser_zoom_map) [ none ↦ b.page_zoom | some zoom ↦ zoom ];
    url_string = elim (get id c.browser_url_map) [ none ↦ b.url_string | some url ↦ some url ];
    back_history = elim (get id c.browser_history_map) [
      | none ↦ b.back_history
      | some (back, forward) ↦ back
    ];
    forward_history = elim (get id c.browser_history_map) [
      | none ↦ b.forward_history
      | some (back, forward) ↦ forward
    ];
  }

  unfoldable pub panel_snapshot : (Str → Str) → Collected F → Panel F → SessionPanelSnapshot F
  unfolding fill_browser from_panel
  panel_snapshot to_lowercase c p =
      let snapshot = from_panel to_lowercase p in
      record snapshot {
        terminal = elim snapshot.terminal [
          | none ↦ none
          | some t ↦ some (record t { scrollback = get p.id c.scrollback_map })
        ];
        browser = elim snapshot.browser [ none ↦ none | some b ↦ some (fill_browser c p.id b) ];
      }

  unfoldable pub make_ws_snapshot :
      (Str → Str) → Collected F → Workspace F → SessionWorkspaceSnapshot F
  unfolding from_layout normalize_divider_positions panel_snapshot
  make_ws_snapshot to_lowercase c ws = record {
    process_title = ws.process_title;
    custom_title = ws.custom_title;
    custom_color = ws.custom_color;
    is_pinned = ws.is_pinned;
    current_directory = ws.current_directory;
    focused_panel_id = ws.focused_panel_id;
    layout =
        if c.split_ratio_persist
        then from_layout ws.layout
        else normalize_divider_positions (from_layout ws.layout);
    panels = map (λ (id, p). panel_snapshot to_lowercase c p) ws.panels;
    status_entries = ws.status_entries;
    log_entries = ws.log_entries;
    progress = ws.progress;
    git_branch = ws.git_branch;
    remote_config = ws.remote_config;
  }
