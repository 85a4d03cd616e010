-- ===== src/Socket/Reorder/Named.antt =====
-- cmux/src/socket/v2/workspace.rs: `workspace.reorder_workspaces` with names that are all resolved.
use cmux_gtk.Workspace.{Workspace}
use cmux_gtk.TabManager.{TabManager}
