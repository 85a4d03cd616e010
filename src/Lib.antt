-- ===== src/Lib.antt =====
-- Verification library for cmux, a terminal multiplexer for GTK (the crate cmux of this
-- repository).
--
-- The program shows workspaces, one at a time. A workspace holds panels (terminals, browsers and
-- markdown viewers) in a map and arranges them in a layout tree, whose leaves are panes with tabs
-- and whose inner nodes are splits with a divider. The tab manager holds the list of workspaces
-- and the index of the one that is selected. The user interface and the socket handlers call the
-- methods of these three types, beside those of the store of notifications, and then redraw. The
-- model is of those methods and of the socket handlers that change what they hold.
--
-- - Prelude.antt and Prelude/: tests on numbers, lists, identifiers, maps, texts, floats.
-- - Panel.antt: `Panel`, `PanelType` and `GitBranch` of cmux/src/model/panel.rs.
-- - Layout.antt and Layout/: `LayoutNode` of cmux/src/model/panel.rs, one function per method
--   with the method's name (`split` is `split_node`); Layout/Divider.antt has the dividers,
--   Layout/Navigate.antt the next, previous and neighbouring panels. The files below them have
--   the proofs, and the files Examples.antt the tests.
-- - Entries.antt and Remote.antt: the data types that a workspace carries, of
--   cmux/src/model/workspace.rs and cmux/src/remote/session.rs.
-- - Workspace.antt and Workspace/: `Workspace` of cmux/src/model/workspace.rs (`new` is
--   `new_workspace` and `split` is `split_workspace`); Workspace/Sidebar.antt has the status and
--   metadata entries and the log, Workspace/Notices.antt what a notification leaves.
-- - Truncate.antt: `truncate_str` of cmux/src/model/workspace.rs.
-- - Notifications.antt and Notifications/: `NotificationStore` of cmux/src/notifications.rs, with
--   the calls as a step relation.
-- - Auth.antt and Auth/: cmux/src/socket/auth.rs, with ProcStatus.antt for `read_ppid`; the
--   number of the user, the text of /proc and the keyed hash are arguments.
-- - Bounded.antt and Bounded/: the lists with a bound that Workspace/Sidebar.antt and
--   Notifications.antt share, for entries under a key and for logs.
-- - TabManager.antt and TabManager/: `TabManager` of cmux/src/model/tab_manager.rs;
--   TabManager/Closing.antt has the bulk closing, TabManager/Panics.antt the removal and the move
--   with the panics of the vector, TabManager/Panels.antt what works on panels of several
--   workspaces and the newest unread one, TabManager/Ids.antt the identifiers in order, and
--   TabManager/Tabs.antt the list as its user sees it, which the operations are held against.
-- - Socket.antt and Socket/: the protocol of cmux/src/socket/v2. Socket.antt has the shared state
--   of cmux/src/app.rs, with the events sent to the window as a list, and the responses;
--   Socket/Params.antt and Socket/Targets.antt the parameters and the lookup of a workspace
--   (helpers.rs); Socket/Select.antt, Report.antt, Metadata.antt, Describe.antt, Action.antt and
--   Reorder.antt the handlers of workspace.rs, Socket/Pane.antt, PaneSplit.antt and PaneMove.antt
--   those of pane.rs, Socket/Tab.antt tab.rs, Socket/Surface.antt the move of surface.rs,
--   Socket/Notify.antt and Create.antt notification.rs, one function per handler with its name;
--   Socket/Dispatch.antt the choice of the handler (mod.rs). Socket/Answer/ and
--   Socket/Dispatch/Answered.antt have the proofs on answers, Socket/Reorder/ those on the new
--   order.
-- - Session.antt and Session/: Session/Agent.antt has the detection of an agent and
--   Session/Snapshot.antt what is saved of a workspace, of cmux/src/session/snapshot.rs and
--   store.rs; Session/Restore.antt has what `restore_session` of cmux/src/app.rs brings back of
--   the workspaces of one window, and Session/Grouping.antt the grouping of the workspaces by
--   window, in `create_snapshot` and in `restore_session`.
--
-- A method on `&mut self` becomes a function that returns the new state beside the method's
-- result. A `&mut LayoutNode` that a method hands out becomes a pair of the node and a function
-- that puts another node in its place. An identifier is a number, and a new one, made by
-- `Uuid::new_v4`, is an argument, with the hypothesis that it is not in use where a theorem needs
-- this. A `HashMap` is an association list. The float operations are an interface, `F64`, of
-- which the theorems ask at most the order of the constants, that 0.5 is finite and within
-- epsilon of itself, that 0 and 1 are no NaN, that `<` is a strict order and that `total_cmp` is
-- a total one; the tests take thousandths. A removal or an insertion out of range, a panic in the
-- program, is `none` in TabManager/Panics.antt and TabManager/Closing.antt. All loops are
-- structural recursion, so there is no fuel. A reading of the clock is an argument. A text is a
-- list of code points, of which the model computes the length in UTF-8.
--
-- A handler is a function from the shared state to the new state and the response. The values of
-- serde_json, with the parser of identifiers, are an interface, Json, and its floats another,
-- JsonFloat; the theorems on answers ask nothing of either, and Socket/Samples.antt has an
-- instance for the tests. A handler takes the locks of the parts of the state one after another,
-- and the model is of a request that no other one interleaves with. That the window receives an
-- event is not part of it. What a handler reads elsewhere, such as new identifiers, the clock and
-- a setting, is the record Inputs. The methods that the model leaves out are an argument of
-- `dispatch`.
--
-- Not modelled: the user interface, the socket server and processes, the protocol of the first
-- version, the handlers that only list, those that create workspaces, those of surfaces (but the
-- move), windows, the sidebar, agents and files, the JSON rendering of a layout tree, and the
-- session files, in which a snapshot is taken to be read as it was written, with at least one
-- workspace. Field reads such as `selected_index` and the mutable forms of a lookup have no
-- function of their own.
pub mod Prelude
pub mod Auth
pub mod Bounded
pub mod Layout
pub mod Notifications
pub mod Panel
pub mod ProcStatus
pub mod Remote
pub mod Entries
pub mod Truncate
pub mod Workspace
pub mod TabManager
pub mod Socket
pub mod Session
