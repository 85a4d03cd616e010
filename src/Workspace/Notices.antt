-- ===== src/Workspace/Notices.antt =====
-- cmux/src/model/workspace.rs: what a notification leaves on its workspace. `unread_count` is a
-- `u32`, and its addition saturates.
pub mod Summary
pub mod Examples
use cmux_gtk.Prelude.{
  ℕ, suc, ◌+◌, ◌-◌, ◌^◌, ◌==◌, leb, ltb, min, Uuid, Str, codes, list_eq, Bool, true, false, not,
  ◌&&◌, ◌||◌, Option, none, some, List, [], ◌∷◌, ◌++◌, take, length, is_empty_list, contains_key,
  if◌then◌else◌,
}
use mathlib.Core.List.{reverse}
use cmux_gtk.Workspace.{Workspace}

-- `char::is_whitespace`, the property White_Space of Unicode
pub is_whitespace : ℕ → Bool
is_whitespace c =
    (leb 0x09 c && leb c 0x0d)
    || (c == 0x20
        || (c == 0x85
            || (c == 0xa0
                || (c == 0x1680
                    || ((leb 0x2000 c && leb c 0x200a)
                        || (c == 0x2028
                            || (c == 0x2029 || (c == 0x202f || (c == 0x205f || c == 0x3000)))))))))

pub trim_start : Str → Str
unfolding is_whitespace
trim_start [] = []
trim_start (c ∷ s) = let rest = trim_start s in if is_whitespace c then rest else c ∷ s

-- `str::trim`
unfoldable pub trim : Str → Str
unfolding trim_start
trim s = reverse (trim_start (reverse (trim_start s)))

-- The words after a character, with the word that is open.
abbrev extend : ℕ → Str × List Str → Str × List Str
extend c (word, words) = (c ∷ word, words)

abbrev close : Str × List Str → List Str
close ([], words) = words
close (c ∷ word, words) = (c ∷ word) ∷ words

words_from : Str → Str × List Str
unfolding is_whitespace
words_from [] = ([], [])
words_from (c ∷ s) =
    let rest = words_from s in if is_whitespace c then ([], close rest) else extend c rest

-- `str::split_whitespace`
pub split_whitespace : Str → List Str
unfolding words_from
split_whitespace s = close (words_from s)

-- `join(" ")`
pub join_space : List Str → Str
join_space [] = []
join_space (w ∷ []) = w
join_space (w ∷ v ∷ ws) = w ++ 0x20 ∷ join_space (v ∷ ws)

pub truncate_for_sidebar : Str → ℕ → Str
truncate_for_sidebar text max_chars =
    if ltb max_chars (length text) then take max_chars text ++ codes "..." else take max_chars text

-- The text before it is made a single line, of a title and a body without outer space.
pub summary_text : Str → Str → Str
summary_text title body =
    if is_empty_list title
    then (if is_empty_list body then codes "Notification" else body)
    else if is_empty_list body
    then title
    else if list_eq body title
    then title
    else title ++ (codes ": " ++ body)

pub notification_summary : Str → Str → Str
unfolding summary_text trim split_whitespace join_space truncate_for_sidebar
notification_summary title body =
    truncate_for_sidebar (join_space (split_whitespace (summary_text (trim title) (trim body)))) 120

module _ {F : Type 0} where
  pub record_notification : Str → Str → Option Uuid → F → Workspace F → Workspace F
  unfolding notification_summary
  record_notification title body panel_id now ws = record ws {
    unread_count = min (ws.unread_count + 1) (2 ^ 32 - 1);
    latest_notification = some (notification_summary title body);
    latest_notification_at = some now;
    attention_panel_id = elim panel_id [
      | none ↦ none
      | some id ↦ if contains_key id ws.panels then some id else none
    ];
  }

  pub mark_notifications_read : Workspace F → Workspace F
  mark_notifications_read ws = record ws { unread_count = 0 }

  pub clear_attention : Workspace F → Workspace F
  clear_attention ws = record ws { attention_panel_id = none }
