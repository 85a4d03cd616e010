-- ===== src/Socket/Metadata.antt =====
-- cmux/src/socket/v2/workspace.rs: the requests that set and clear metadata entries and blocks. The
-- clock's reading `now` is an argument.
use cmux_gtk.Prelude.{
  ltb, ◌^◌, ℤ, pos, negsuc, Str, codes, list_eq, Option, none, some, [], if◌then◌else◌, F64,
}
use cmux_gtk.Entries.{MetadataFormat, plain, markdown}
use cmux_gtk.Workspace.{Workspace}
use cmux_gtk.Workspace.Sidebar.{
  set_metadata, set_metadata_block, clear_metadata, clear_metadata_block,
}
use cmux_gtk.Socket.{Json, ok_or, ◌>>=◌, Handler, invalid_params}
use cmux_gtk.Socket.Params.{and_then, unwrap_or, get_str, workspace_param}
use cmux_gtk.Socket.Report.{edit_named}

-- `i32::try_from(n).ok()`
pub to_i32 : ℤ → Option ℤ
to_i32 (pos n) = if ltb n (2 ^ 31) then some (pos n) else none
to_i32 (negsuc n) = if ltb n (2 ^ 31) then some (negsuc n) else none

pub format_of : Option Str → MetadataFormat
format_of none = plain
format_of (some s) = if list_eq s (codes "markdown") then markdown else plain

module _ {F : Type 0} where
  pub clear_entries : Option Str → Workspace F → Workspace F
  clear_entries none ws = record ws { metadata_entries = [] }
  clear_entries (some key) ws = clear_metadata key ws

  pub clear_blocks : Option Str → Workspace F → Workspace F
  clear_blocks none ws = record ws { metadata_blocks = [] }
  clear_blocks (some key) ws = clear_metadata_block key ws

module _ {V : Type 0} ⦃j : Json V⦄ where
  pub priority_of : V → ℤ
  unfolding to_i32
  priority_of params =
      unwrap_or (pos 0) (and_then (and_then (j.get params (codes "priority")) j.as_i64) to_i32)

module _ {V F : Type 0} ⦃j : Json V⦄ where
  unfoldable pub handle_workspace_clear_meta : V → V → Handler V F
  unfolding clear_entries
  handle_workspace_clear_meta id params = do
    ws_id ← workspace_param id params
    edit_named id ws_id (clear_entries (get_str params (codes "key")))

  unfoldable pub handle_workspace_clear_meta_block : V → V → Handler V F
  unfolding clear_blocks
  handle_workspace_clear_meta_block id params = do
    ws_id ← workspace_param id params
    edit_named id ws_id (clear_blocks (get_str params (codes "key")))

module _ {V F : Type 0} ⦃j : Json V⦄ ⦃f : F64 F⦄ where
  unfoldable pub handle_workspace_report_meta : F → V → V → Handler V F
  unfolding invalid_params priority_of format_of
  handle_workspace_report_meta now id params = do
    ws_id ← workspace_param id params
    key ←
        ok_or (get_str params (codes "key")) (invalid_params id (codes "Provide 'key' and 'value'"))
    value ←
        ok_or (get_str params (codes "value"))
          (invalid_params id (codes "Provide 'key' and 'value'"))
    edit_named id ws_id (
        set_metadata key value (get_str params (codes "icon")) (get_str params (codes "color"))
          (get_str params (codes "url")) (priority_of params)
          (format_of (get_str params (codes "format"))) now)

  unfoldable pub handle_workspace_report_meta_block : F → V → V → Handler V F
  unfolding invalid_params priority_of
  handle_workspace_report_meta_block now id params = do
    ws_id ← workspace_param id params
    key ←
        ok_or (get_str params (codes "key"))
          (invalid_params id (codes "Provide 'key' and 'content'"))
    content ←
        ok_or (get_str params (codes "content"))
          (invalid_params id (codes "Provide 'key' and 'content'"))
    edit_named id ws_id (set_metadata_block key content (priority_of params) now)
