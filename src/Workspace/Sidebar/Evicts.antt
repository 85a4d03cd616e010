-- ===== src/Workspace/Sidebar/Evicts.antt =====
-- cmux/src/model/workspace.rs: what a new entry does to the other entries of the sidebar.
use cmux_gtk.Prelude.{
  Str, ◌≡◌, ◌≤◌, ◌<◌, ◌⊎◌, refl, false, Option, none, some, length, find, list_eq, arith, F64,
  IsOrdered,
}
use cmux_gtk.Entries.{StatusEntry}
use cmux_gtk.Bounded.Sets.{IsEvicted, set_entry_full, set_entry_others}
use cmux_gtk.Workspace.{Workspace}
use cmux_gtk.Workspace.Sidebar.{set_status_with_url, status_entry, older}
use cmux_gtk.Workspace.Sidebar.Order.{older-IsComparison}

module _ {F : Type 0} ⦃f : F64 F⦄ (law : IsOrdered f) (w : Workspace F) where
  -- A status entry under a new key, with 100 entries or more, replaces an entry than which none is
  -- older, and comes last; all the others stay in their order.
  pub set_status_with_url_full :
      (key value : Str) (icon color url : Option Str) (now : F)
      → 100 ≤ length w.status_entries
      → find (λ e. list_eq e.key (status_entry key value icon color url now).key) w.status_entries
        ≡ none
      → IsEvicted older
          (status_entry key value icon color url now)
          w.status_entries
          (set_status_with_url key value icon color url now w).status_entries
  unfolding set_status_with_url
  set_status_with_url_full key value icon color url now h absent =
      let new = status_entry key value icon color url now in
      set_entry_full 100 (λ e. e.key) older (older-IsComparison law) (omega arith) new.key
        (λ e. record new { key = e.key }) new (λ e. refl) (λ e h i. record new { key = h i }) refl
        w.status_entries h absent

  -- A status entry whose key is there, or that finds fewer than 100 entries, leaves what is under
  -- another key as it is.
  pub set_status_with_url_others :
      (key value : Str) (icon color url : Option Str) (now : F) (other : Str)
      → list_eq (status_entry key value icon color url now).key other ≡ false
      → (length w.status_entries < 100)
        ⊎ ((e : StatusEntry F) × (find
                (λ e. list_eq e.key (status_entry key value icon color url now).key)
                w.status_entries
              ≡ some e))
      → find
          (λ e. list_eq e.key other)
          (set_status_with_url key value icon color url now w).status_entries
        ≡ find (λ e. list_eq e.key other) w.status_entries
  unfolding set_status_with_url
  set_status_with_url_others key value icon color url now other apart room =
      let new = status_entry key value icon color url now in
      set_entry_others 100 (λ e. e.key) older (older-IsComparison law) (omega arith) new.key
        (λ e. record new { key = e.key }) new (λ e. refl) (λ e h i. record new { key = h i }) refl
        other w.status_entries apart room
