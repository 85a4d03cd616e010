-- ===== src/Workspace/Notices/Examples.antt =====
-- cmux/src/model/workspace.rs: tests of the summary of a notification.
use cmux_gtk.Prelude.{◌≡◌, ◌≤◌, refl, codes, true, false, length, is_empty_list}
use cmux_gtk.Workspace.Notices.{notification_summary}
use cmux_gtk.Workspace.Notices.Summary.{is_single_line, notification_summary_lem}

-- Outer space and line breaks are gone.
summary_line : notification_summary (codes " build ") (codes "done\nnow") ≡ codes "build: done now"
unfolding notification_summary
summary_line = refl

notification_summary_lem_example :
    (length (notification_summary (codes "build") (codes "done\nnow")) ≤ 123)
    × (is_single_line (notification_summary (codes "build") (codes "done\nnow")) ≡ true)
    × (is_empty_list (notification_summary (codes "build") (codes "done\nnow")) ≡ false)
notification_summary_lem_example = notification_summary_lem (codes "build") (codes "done\nnow")
