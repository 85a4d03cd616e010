-- ===== src/Session/Agent/Examples.antt =====
-- cmux/src/session/snapshot.rs: tests of the detection of an agent.
use cmux_gtk.Prelude.{◌≡◌, refl, true, false, some, codes}
use cmux_gtk.Session.Agent.{amp, is_word_match, haystack_of, detect_agent_resume_command}

-- The word is found at the end, after an occurrence inside another word.
amp_at_end : is_word_match (codes "lamp amp") amp ≡ true
unfolding is_word_match
amp_at_end = refl

amp_inside : is_word_match (codes "lamp_amps") amp ≡ false
unfolding is_word_match
amp_inside = refl

-- An agent that runs in a panel with a title is found in its command.
codex_in_command :
    detect_agent_resume_command (λ s. s) (some (codes "shell")) (some (codes "codex"))
    ≡ some (codes "codex")
unfolding detect_agent_resume_command haystack_of
codex_in_command = refl
