-- ===== src/Workspace/Sidebar/Valid.antt =====
-- cmux/src/model/workspace.rs: the lists of the sidebar stay within their bounds, with one entry for
-- a key, and what was set is found again.
use cmux_gtk.Prelude.{
  ℕ, ℤ, Str, ◌≡◌, ◌≤◌, refl, Bool, not, Option, none, some, List, [], ◌∷◌, length, find, last?,
  retain, list_eq, arith, F64, IsOrdered, Bool-cases, inl, inr, length-retain-le,
}
use cmux_gtk.Entries.{MetadataFormat}
use cmux_gtk.Bounded.Entries.{has_key, IsDistinct}
use cmux_gtk.Bounded.Sets.{IsEntries, set_entry_lem}
use cmux_gtk.Bounded.Logs.{push_bounded_lem}
use cmux_gtk.Workspace.{Workspace}
use cmux_gtk.Workspace.Sidebar.{
  set_status_with_url, set_metadata, set_metadata_block, clear_metadata, clear_metadata_block,
  append_log, status_entry, metadata_entry, metadata_block, log_entry, older, lower, lower_block,
}
use cmux_gtk.Workspace.Sidebar.Order.{
  older-IsComparison, lower-IsComparison, lower_block-IsComparison,
}

module _ {F : Type 0} where
  -- The lists of the sidebar are within their bounds, with one entry for a key.
  pub record IsSidebar (w : Workspace F) : Type 0 where
    pub status : IsEntries 100 (λ e. e.key) w.status_entries
    pub metadata : IsEntries 100 (λ e. e.key) w.metadata_entries
    pub blocks : IsEntries 50 (λ b. b.key) w.metadata_blocks
    pub logs : length w.log_entries ≤ 1000

module _ {A : Type 0} (max : ℕ) (key : A → Str) (test : A → Bool) where
  find-retain_absent :
      (k : Str) (xs : List A)
      → find (has_key key k) xs ≡ none
      → find (has_key key k) (retain test xs) ≡ none
  find-retain_absent k [] h = refl
  find-retain_absent k (x ∷ xs) h = ground (arith, find-retain_absent k xs)

  IsDistinct-retain : (xs : List A) → IsDistinct key xs → IsDistinct key (retain test xs)
  IsDistinct-retain [] d = tt
  IsDistinct-retain (x ∷ xs) (n, d) = elim (Bool-cases (test x)) [
    | inl e ↦ rw e (find-retain_absent (key x) xs n, IsDistinct-retain xs d)
    | inr e ↦ rw e (IsDistinct-retain xs d)
  ]

  IsEntries-retain : (xs : List A) → IsEntries max key xs → IsEntries max key (retain test xs)
  IsEntries-retain xs v = record {
    within = omega (arith, length-retain-le test xs, v.within);
    distinct = IsDistinct-retain xs v.distinct;
  }

module _ {F : Type 0} ⦃f : F64 F⦄ (law : IsOrdered f) (w : Workspace F) (v : IsSidebar w) where
  -- Setting a status entry keeps the sidebar's lists valid, and the entry under the key, cut to its
  -- bound, is the one that was set.
  pub set_status_with_url_lem :
      (key value : Str) (icon color url : Option Str) (now : F)
      → IsSidebar (set_status_with_url key value icon color url now w)
        × (find
              (λ e. list_eq e.key (status_entry key value icon color url now).key)
              (set_status_with_url key value icon color url now w).status_entries
            ≡ some (status_entry key value icon color url now))
  unfolding set_status_with_url
  set_status_with_url_lem key value icon color url now =
      let new = status_entry key value icon color url now in
      let (entries, found) =
        set_entry_lem 100 (λ e. e.key) older (older-IsComparison law) (omega arith) new.key
          (λ e. record new { key = e.key }) new (λ e. refl) (λ e h i. record new { key = h i }) refl
          w.status_entries v.status in
      (record { status = entries; metadata = v.metadata; blocks = v.blocks; logs = v.logs }, found)

  -- Setting a metadata entry or block keeps the sidebar's lists valid, and what is found under the
  -- key, cut to its bound, is what was set.
  pub set_metadata_lem :
      (key value : Str) (icon color url : Option Str) (priority : ℤ) (format : MetadataFormat)
      (now : F)
      → IsSidebar (set_metadata key value icon color url priority format now w)
        × (find
              (λ e. list_eq e.key (metadata_entry key value icon color url priority format now).key)
              (set_metadata key value icon color url priority format now w).metadata_entries
            ≡ some (metadata_entry key value icon color url priority format now))
        × IsSidebar (set_metadata_block key value priority now w)
        × (find
              (λ b. list_eq b.key (metadata_block key value priority now).key)
              (set_metadata_block key value priority now w).metadata_blocks
            ≡ some (metadata_block key value priority now))
  unfolding set_metadata set_metadata_block
  set_metadata_lem key value icon color url priority format now =
      let new = metadata_entry key value icon color url priority format now in
      let block = metadata_block key value priority now in
      let (entries, found) =
        set_entry_lem 100 (λ e. e.key) lower (lower-IsComparison law) (omega arith) new.key
          (λ e. record new { key = e.key }) new (λ e. refl) (λ e h i. record new { key = h i }) refl
          w.metadata_entries v.metadata in
      let (blocks, found_block) =
        set_entry_lem 50 (λ b. b.key) lower_block (lower_block-IsComparison law) (omega arith)
          block.key (λ b. record block { key = b.key }) block (λ b. refl)
          (λ b h i. record block { key = h i }) refl w.metadata_blocks v.blocks in
      (
        record { status = v.status; metadata = entries; blocks = v.blocks; logs = v.logs },
        found,
        record { status = v.status; metadata = v.metadata; blocks = blocks; logs = v.logs },
        found_block,
      )

module _ {A : Type 0} (key : A → Str) (k : Str) where
  find_cleared :
      (xs : List A) → find (has_key key k) (retain (λ e. not (list_eq (key e) k)) xs) ≡ none
  find_cleared [] = refl
  find_cleared (x ∷ xs) = ground (arith, find_cleared xs)

module _ {F : Type 0} (w : Workspace F) (v : IsSidebar w) where
  -- Clearing a key keeps the sidebar's lists valid and leaves nothing under the key.
  pub clear_metadata_lem :
      (key : Str)
      → IsSidebar (clear_metadata key w)
        × (find (λ e. list_eq e.key key) (clear_metadata key w).metadata_entries ≡ none)
        × IsSidebar (clear_metadata_block key w)
        × (find (λ b. list_eq b.key key) (clear_metadata_block key w).metadata_blocks ≡ none)
  unfolding clear_metadata clear_metadata_block
  clear_metadata_lem key = (
    record {
      status = v.status;
      metadata = IsEntries-retain 100 (λ e. e.key) _ w.metadata_entries v.metadata;
      blocks = v.blocks;
      logs = v.logs;
    },
    find_cleared (λ e. e.key) key w.metadata_entries,
    record {
      status = v.status;
      metadata = v.metadata;
      blocks = IsEntries-retain 50 (λ b. b.key) _ w.metadata_blocks v.blocks;
      logs = v.logs;
    },
    find_cleared (λ b. b.key) key w.metadata_blocks,
  )

  -- Adding to the log keeps the sidebar's lists valid, and the entry added, its message cut to its
  -- bound, is the last.
  pub append_log_lem :
      (message level : Str) (source : Option Str) (now : F)
      → IsSidebar (append_log message level source now w)
        × (last? (append_log message level source now w).log_entries
            ≡ some (log_entry message level source now))
  unfolding append_log
  append_log_lem message level source now =
      let (within, last) =
        push_bounded_lem 1000 (log_entry message level source now) w.log_entries (omega arith)
          v.logs in
      (record { status = v.status; metadata = v.metadata; blocks = v.blocks; logs = within }, last)
