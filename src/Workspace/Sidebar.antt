-- ===== src/Workspace/Sidebar.antt =====
-- cmux/src/model/workspace.rs: what the sidebar shows for a workspace. The clock's reading `now` is
-- an argument, and `min_by` compares with `partial_cmp`, equal where a side is NaN.
pub mod Valid
pub mod Order
pub mod Evicts
pub mod Examples
use cmux_gtk.Prelude.{
  ℕ, suc, min, ◌^◌, ◌-◌, Uuid, ℤ, lt_int, Str, codes, list_eq, Bool, true, false, not, Option, none,
  some, List, [], ◌∷◌, retain, find, last?, contains_key, or_else, if◌then◌else◌, F64,
}
use mathlib.Core.List.{reverse}
use cmux_gtk.Entries.{StatusEntry, MetadataFormat, MetadataEntry, MetadataBlock, LogEntry}
use cmux_gtk.Bounded.{set_entry, push_bounded}
use cmux_gtk.Bounded.Entries.{has_key}
use cmux_gtk.Truncate.{truncate_str}
use cmux_gtk.Workspace.{Workspace}

abbrev pub max_status_entries : ℕ
max_status_entries = 100

abbrev pub max_status_key_len : ℕ
max_status_key_len = 256

abbrev pub max_status_value_len : ℕ
max_status_value_len = 4096

abbrev pub max_metadata_entries : ℕ
max_metadata_entries = 100

abbrev pub max_metadata_blocks : ℕ
max_metadata_blocks = 50

abbrev pub max_block_content_len : ℕ
max_block_content_len = 32768

abbrev pub max_log_entries : ℕ
max_log_entries = 1000

abbrev pub max_log_message_len : ℕ
max_log_message_len = 8192

-- `option.map(|s| truncate_str(s, n))`
truncate_option : ℕ → Option Str → Option Str
unfolding truncate_str
truncate_option n none = none
truncate_option n (some s) = some (truncate_str s n)

module _ {F : Type 0} where
  -- The entry that a call sets: its texts, cut to their bounds.
  pub status_entry : Str → Str → Option Str → Option Str → Option Str → F → StatusEntry F
  unfolding truncate_option truncate_str
  status_entry key value icon color url now = record {
    key = truncate_str key max_status_key_len;
    value = truncate_str value max_status_value_len;
    icon = truncate_option 256 icon;
    color = truncate_option 64 color;
    url = truncate_option 2048 url;
    timestamp = now;
  }

  pub metadata_entry :
      Str → Str → Option Str → Option Str → Option Str → ℤ → MetadataFormat → F → MetadataEntry F
  unfolding truncate_str
  metadata_entry key value icon color url priority format now = record {
    key = truncate_str key max_status_key_len;
    value = truncate_str value max_status_value_len;
    icon = icon;
    color = color;
    url = url;
    priority = priority;
    format = format;
    timestamp = now;
  }

  pub metadata_block : Str → Str → ℤ → F → MetadataBlock F
  unfolding truncate_str
  metadata_block key content priority now = record {
    key = truncate_str key max_status_key_len;
    content = truncate_str content max_block_content_len;
    priority = priority;
    timestamp = now;
  }

  pub clear_metadata : Str → Workspace F → Workspace F
  clear_metadata key ws = record ws {
    metadata_entries = retain (λ e. not (list_eq e.key key)) ws.metadata_entries;
  }

  pub clear_metadata_block : Str → Workspace F → Workspace F
  clear_metadata_block key ws = record ws {
    metadata_blocks = retain (λ b. not (list_eq b.key key)) ws.metadata_blocks;
  }

  pub log_entry : Str → Str → Option Str → F → LogEntry F
  unfolding truncate_option truncate_str
  log_entry message level source now = record {
    message = truncate_str message max_log_message_len;
    level = truncate_str level 64;
    source = truncate_option 256 source;
    timestamp = now;
  }

  pub append_log : Str → Str → Option Str → F → Workspace F → Workspace F
  unfolding log_entry push_bounded
  append_log message level source now ws = record ws {
    log_entries = push_bounded max_log_entries (log_entry message level source now) ws.log_entries;
  }

  pub sidebar_status_label : Workspace F → Option Str
  sidebar_status_label ws =
      elim (or_else (find (λ entry. list_eq entry.key (codes "agent")) (reverse ws.status_entries))
        (last? ws.status_entries)) [ none ↦ none | some entry ↦ some entry.value ]

module _ {F : Type 0} ⦃f : F64 F⦄ where
  -- The comparisons of the three calls of `min_by`.
  abbrev pub older : StatusEntry F → StatusEntry F → Bool
  older y x = f.lt y.timestamp x.timestamp

  -- `a.priority.cmp(&b.priority).then(a.timestamp.partial_cmp(..))`
  abbrev pub before : ℤ → F → ℤ → F → Bool
  before p t q u = if lt_int p q then true else if lt_int q p then false else f.lt t u

  abbrev pub lower : MetadataEntry F → MetadataEntry F → Bool
  lower y x = before y.priority y.timestamp x.priority x.timestamp

  abbrev pub lower_block : MetadataBlock F → MetadataBlock F → Bool
  lower_block y x = before y.priority y.timestamp x.priority x.timestamp

  pub set_status_with_url :
      Str → Str → Option Str → Option Str → Option Str → F → Workspace F → Workspace F
  unfolding set_entry status_entry
  set_status_with_url key value icon color url now ws =
      let new = status_entry key value icon color url now in
      record ws {
        status_entries =
            set_entry max_status_entries older (has_key (λ e. e.key) new.key)
              (λ e. record new { key = e.key }) new ws.status_entries;
      }

  pub set_status : Str → Str → Option Str → Option Str → F → Workspace F → Workspace F
  unfolding set_status_with_url
  set_status key value icon color now ws = set_status_with_url key value icon color none now ws

  pub set_metadata :
      Str
      → Str
      → Option Str
      → Option Str
      → Option Str
      → ℤ
      → MetadataFormat
      → F
      → Workspace F
      → Workspace F
  unfolding set_entry metadata_entry
  set_metadata key value icon color url priority format now ws =
      let new = metadata_entry key value icon color url priority format now in
      record ws {
        metadata_entries =
            set_entry max_metadata_entries lower (has_key (λ e. e.key) new.key)
              (λ e. record new { key = e.key }) new ws.metadata_entries;
      }

  pub set_metadata_block : Str → Str → ℤ → F → Workspace F → Workspace F
  unfolding set_entry metadata_block
  set_metadata_block key content priority now ws =
      let new = metadata_block key content priority now in
      record ws {
        metadata_blocks =
            set_entry max_metadata_blocks lower_block (has_key (λ b. b.key) new.key)
              (λ b. record new { key = b.key }) new ws.metadata_blocks;
      }
