-- ===== src/Session/Restore.antt =====
-- cmux/src/app.rs, `restore_session`: the workspaces that a session file brings back. Whether the
-- program was built with a web view is the argument `webkit`; new identifiers are arguments, those of
-- the workspace with the number `n` of the session being `new_ids n`.
pub mod Layouts
pub mod Panels
pub mod Workspaces
pub mod Windows
pub mod Examples
use cmux_gtk.Prelude.{
  Uuid, ℕ, suc, Str, codes, list_eq, is_empty_list, Bool, true, false, not, ◌&&◌, Option, none,
  some, List, [], ◌∷◌, Map, insert, F64, clamp, if◌then◌else◌,
}
use cmux_gtk.Layout.{LayoutNode, pane, split}
use cmux_gtk.Panel.{PanelType, terminal, browser, markdown, Panel}
use cmux_gtk.Workspace.{Workspace, with_directory}
use cmux_gtk.TabManager.{TabManager, add_workspace}
use cmux_gtk.Session.Agent.{starts_with}
use cmux_gtk.Session.Snapshot.{
  SessionWorkspaceLayoutSnapshot, pane_snapshot, split_snapshot, SessionPanelSnapshot,
  SessionWorkspaceSnapshot,
}

pub record AgentRestoreSettings : Type 0 where
  pub claude_code : Bool
  pub codex : Bool
  pub opencode : Bool
  pub gemini : Bool
  pub rovo_dev : Bool
  pub cursor : Bool
  pub grok : Bool
  pub amp : Bool
  pub pi : Bool
  pub hermes : Bool
  pub antigravity : Bool

pub is_enabled_for : AgentRestoreSettings → Str → Bool
is_enabled_for settings resume_cmd =
    if starts_with (codes "claude") resume_cmd
    then settings.claude_code
    else if starts_with (codes "opencode") resume_cmd
    then settings.opencode
    else if starts_with (codes "codex") resume_cmd
    then settings.codex
    else if starts_with (codes "gemini") resume_cmd
    then settings.gemini
    else if starts_with (codes "rovo") resume_cmd
    then settings.rovo_dev
    else if starts_with (codes "cursor") resume_cmd
    then settings.cursor
    else if starts_with (codes "grok") resume_cmd
    then settings.grok
    else if starts_with (codes "amp") resume_cmd
    then settings.amp
    else if starts_with (codes "pi") resume_cmd
    then settings.pi
    else if starts_with (codes "hermes") resume_cmd
    then settings.hermes
    else if starts_with (codes "antigravity") resume_cmd
    then settings.antigravity
    else false

-- The type with a name, or a terminal; a browser or a markdown viewer is left out without a web view.
pub type_of : Bool → Str → Option PanelType
type_of webkit name =
    if list_eq name (codes "browser")
    then if webkit then some browser else none
    else if list_eq name (codes "markdown")
    then if webkit then some markdown else none
    else some terminal

-- The agent's command, if one was detected and its toggle is on, or the panel's own.
command_of : AgentRestoreSettings → Option Str → Option Str → Option Str
unfolding is_enabled_for
command_of settings none command = command
command_of settings (some agent) command =
    if is_enabled_for settings agent then some agent else command

module _ {F : Type 0} ⦃f : F64 F⦄ where
  pub to_layout : SessionWorkspaceLayoutSnapshot F → LayoutNode F
  to_layout (pane_snapshot ids selected) = pane ids selected
  to_layout (split_snapshot o d first second) =
      split o (if f.is_finite d then clamp d f.zero f.one else f.half) (to_layout first)
        (to_layout second)

  pub restored_panel : AgentRestoreSettings → PanelType → SessionPanelSnapshot F → Panel F
  unfolding command_of
  restored_panel settings panel_type s = record {
    id = s.id;
    panel_type = panel_type;
    title = s.title;
    custom_title = s.custom_title;
    directory = s.directory;
    is_pinned = s.is_pinned;
    is_manually_unread = s.is_manually_unread;
    git_branch = s.git_branch;
    listening_ports = s.listening_ports;
    tty_name = s.tty_name;
    browser_url = elim s.browser [ none ↦ none | some b ↦ b.url_string ];
    markdown_file = elim s.markdown [ none ↦ none | some m ↦ some m.file_path ];
    command = command_of settings s.agent_resume_command s.command;
    pending_scrollback = elim s.terminal [ none ↦ none | some t ↦ t.scrollback ];
    pending_zoom = elim s.browser [
      | none ↦ none
      | some b ↦ if not (f.eq b.page_zoom f.one) then some b.page_zoom else none
    ];
    parent_panel_id = none;
  }

  -- The loop over the panels, which inserts each into the map.
  pub restore_panels :
      Bool → AgentRestoreSettings → List (SessionPanelSnapshot F) → Map (Panel F) → Map (Panel F)
  unfolding type_of restored_panel
  restore_panels webkit settings [] panels = panels
  restore_panels webkit settings (s ∷ more) panels = elim (type_of webkit s.panel_type) [
    | none ↦ restore_panels webkit settings more panels
    | some panel_type ↦
        restore_panels webkit settings more
          (insert s.id (restored_panel settings panel_type s) panels)
  ]

  pub restore_workspace :
      Bool
      → AgentRestoreSettings
      → Option Str
      → Uuid
      → Uuid × Uuid
      → SessionWorkspaceSnapshot F
      → Workspace F
  unfolding with_directory to_layout restore_panels
  restore_workspace webkit settings home window_id (workspace_id, panel_id) s =
      let ws = with_directory home workspace_id panel_id s.current_directory in
      record ws {
        window_id = some window_id;
        custom_title = s.custom_title;
        custom_color = s.custom_color;
        is_pinned = s.is_pinned;
        process_title = s.process_title;
        status_entries = s.status_entries;
        log_entries = s.log_entries;
        progress = s.progress;
        git_branch = s.git_branch;
        remote_config = s.remote_config;
        layout = to_layout s.layout;
        panels = restore_panels webkit settings s.panels [];
        focused_panel_id = s.focused_panel_id;
      }

  -- The workspaces of a window, those without panels left out; each is added at the end.
  pub restore_window :
      Bool
      → AgentRestoreSettings
      → Option Str
      → Uuid
      → (ℕ → Uuid × Uuid)
      → ℕ
      → List (SessionWorkspaceSnapshot F)
      → TabManager F
      → TabManager F
  unfolding restore_workspace add_workspace
  restore_window webkit settings home window_id new_ids n [] tm = tm
  restore_window webkit settings home window_id new_ids n (s ∷ more) tm =
      restore_window webkit settings home window_id new_ids (suc n) more (
        if is_empty_list s.panels
        then tm
        else (add_workspace (restore_workspace webkit settings home window_id (new_ids n) s) tm).0)
