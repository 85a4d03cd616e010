-- ===== src/Workspace/Sidebar/Examples.antt =====
-- cmux/src/model/workspace.rs: tests of the sidebar's lists.
use cmux_gtk.Prelude.{
  ℕ, zero, suc, ◌≡◌, refl, codes, list_eq, pos, none, some, List, [], ◌∷◌, find, arith, milli,
  milli-IsOrdered, ◌+◌,
}
use cmux_gtk.Entries.{StatusEntry, plain, MetadataEntry, MetadataBlock}
use cmux_gtk.Truncate.{truncate_str}
use cmux_gtk.Workspace.{Workspace, new_workspace}
use cmux_gtk.Workspace.Sidebar.{
  set_status_with_url, set_metadata, set_metadata_block, sidebar_status_label, status_entry,
  metadata_entry, metadata_block,
}
use cmux_gtk.Workspace.Sidebar.Valid.{IsSidebar, set_status_with_url_lem, set_metadata_lem}

abbrev bare : Workspace ℕ
bare = new_workspace none 100 1

bare-IsSidebar : IsSidebar bare
unfolding new_workspace
bare-IsSidebar = record {
  status = record { within = omega arith; distinct = tt };
  metadata = record { within = omega arith; distinct = tt };
  blocks = record { within = omega arith; distinct = tt };
  logs = omega arith;
}

-- `n` entries with keys of one character, each older than the one before.
abbrev statuses : ℕ → List (StatusEntry ℕ)
statuses zero = []
statuses (suc n) =
    record { key = n ∷ []; value = []; icon = none; color = none; url = none; timestamp = n + 1000 }
    ∷ statuses n

abbrev metadata : ℕ → List (MetadataEntry ℕ)
metadata zero = []
metadata (suc n) =
    record {
      key = n ∷ [];
      value = [];
      icon = none;
      color = none;
      url = none;
      priority = pos n;
      format = plain;
      timestamp = 1000;
    }
    ∷ metadata n

abbrev full : Workspace ℕ
full = record bare { status_entries = statuses 100; metadata_entries = metadata 100 }

abbrev busy : StatusEntry ℕ
busy = status_entry (codes "agent") (codes "busy") none none none 5

abbrev pull_request : MetadataEntry ℕ
pull_request = metadata_entry (codes "pr") (codes "open") none none none (pos 2) plain 5

abbrev block : MetadataBlock ℕ
block = metadata_block (codes "pr") (codes "open") (pos 2) 5

agent_label :
    sidebar_status_label (set_status_with_url (codes "agent") (codes "busy") none none none 5 bare)
    ≡ some (codes "busy")
unfolding sidebar_status_label set_status_with_url new_workspace truncate_str
agent_label = refl

set_status_with_url_lem_example :
    IsSidebar (set_status_with_url (codes "agent") (codes "busy") none none none 5 bare)
    × (find
          (λ e. list_eq e.key busy.key)
          (set_status_with_url (codes "agent") (codes "busy") none none none 5 bare).status_entries
        ≡ some busy)
set_status_with_url_lem_example =
    set_status_with_url_lem milli-IsOrdered bare bare-IsSidebar (codes "agent") (codes "busy") none
      none none 5

set_metadata_lem_example :
    IsSidebar (set_metadata (codes "pr") (codes "open") none none none (pos 2) plain 5 bare)
    × (find
          (λ e. list_eq e.key pull_request.key)
          (set_metadata
            (codes "pr")
            (codes "open")
            none
            none
            none
            (pos 2)
            plain
            5
            bare).metadata_entries
        ≡ some pull_request)
    × IsSidebar (set_metadata_block (codes "pr") (codes "open") (pos 2) 5 bare)
    × (find
          (λ b. list_eq b.key block.key)
          (set_metadata_block (codes "pr") (codes "open") (pos 2) 5 bare).metadata_blocks
        ≡ some block)
set_metadata_lem_example =
    set_metadata_lem milli-IsOrdered bare bare-IsSidebar (codes "pr") (codes "open") none none none
      (pos 2) plain 5
