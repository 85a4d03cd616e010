-- ===== src/Panel.antt =====
-- cmux/src/model/panel.rs: `Panel`, a terminal, a browser or a markdown viewer. Identifiers come
-- from `Uuid::new_v4`, so a constructor takes the new one as an argument.
use cmux_gtk.Prelude.{
  ℕ, Uuid, Str, codes, ◌==◌, Bool, false, not, ◌&&◌, Option, none, some, List, [], ◌∷◌, last?,
  retain, list_eq, if◌then◌else◌,
}

pub data PanelType : Type 0 where
  terminal browser markdown : PanelType

pub record GitBranch : Type 0 where
  pub branch : Str
  pub is_dirty : Bool

pub record Panel (F : Type 0) : Type 0 where
  pub id : Uuid
  pub panel_type : PanelType
  pub title : Option Str
  pub custom_title : Option Str
  pub directory : Option Str
  pub is_pinned : Bool
  pub is_manually_unread : Bool
  pub git_branch : Option GitBranch
  pub listening_ports : List ℕ
  pub tty_name : Option Str
  pub browser_url : Option Str
  pub markdown_file : Option Str
  pub command : Option Str
  pub pending_scrollback : Option Str
  pub pending_zoom : Option F
  pub parent_panel_id : Option Uuid

-- `Path::components` splits at slashes; empty and `.` parts are no components.
split_slash : Str → List Str
split_slash [] = [] ∷ []
split_slash (c ∷ s) = elim (split_slash s) [
  | [] ↦ []
  | part ∷ parts ↦ if c == b'/' then [] ∷ part ∷ parts else (c ∷ part) ∷ parts
]

is_component : Str → Bool
is_component part = not (list_eq part []) && not (list_eq part (codes "."))

-- `Path::file_name`: the last component, if it is no `..`.
pub file_name : Str → Option Str
unfolding split_slash is_component
file_name path = elim (last? (retain is_component (split_slash path))) [
  | none ↦ none
  | some part ↦ if list_eq part (codes "..") then none else some part
]

fallback_title : PanelType → Option Str → Str
unfolding file_name
fallback_title terminal file = codes "Terminal"
fallback_title browser file = codes "Browser"
fallback_title markdown none = codes "Markdown"
fallback_title markdown (some file) = elim (file_name file) [
  | none ↦ codes "Markdown"
  | some name ↦ name
]

module _ {F : Type 0} where
  blank : Uuid → PanelType → Option Str → Option Str → Panel F
  blank id panel_type title markdown_file = record {
    id = id;
    panel_type = panel_type;
    title = title;
    custom_title = none;
    directory = none;
    is_pinned = false;
    is_manually_unread = false;
    git_branch = none;
    listening_ports = [];
    tty_name = none;
    browser_url = none;
    markdown_file = markdown_file;
    command = none;
    pending_scrollback = none;
    pending_zoom = none;
    parent_panel_id = none;
  }

  unfoldable pub new_terminal : Uuid → Panel F
  unfolding blank
  new_terminal id = blank id terminal none none

  unfoldable pub new_browser : Uuid → Panel F
  unfolding blank
  new_browser id = blank id browser none none

  unfoldable pub new_markdown : Uuid → Str → Panel F
  unfolding blank file_name
  new_markdown id file_path = blank id markdown (file_name file_path) (some file_path)

  pub display_title : Panel F → Str
  unfolding fallback_title
  display_title p = elim p.custom_title [
    | some t ↦ t
    | none ↦ elim p.title [ some t ↦ t | none ↦ fallback_title p.panel_type p.markdown_file ]
  ]
