-- ===== src/Session/Agent.antt =====
-- cmux/src/session/snapshot.rs: which agent a panel runs, from its title and its command.
-- `to_lowercase` is `str::to_lowercase`.
pub mod Words
pub mod Examples
use cmux_gtk.Prelude.{
  ℕ, ◌==◌, ◌≡◌, refl, leb, ltb, Str, codes, list_eq, is_empty_list, Bool, true, false, not, ◌&&◌,
  ◌||◌, Option, none, some, List, [], ◌∷◌, ◌++◌, if◌then◌else◌,
}

-- `str::contains` of a text
abbrev pub starts_with : Str → Str → Bool
starts_with [] s = true
starts_with (p ∷ ps) [] = false
starts_with (p ∷ ps) (c ∷ s) = p == c && starts_with ps s

abbrev pub contains_str : Str → Str → Bool
contains_str word [] = is_empty_list word
contains_str word (c ∷ s) = starts_with word (c ∷ s) || contains_str word s

-- `u8::is_ascii_alphanumeric`, or the underscore. The bytes of other characters are neither.
abbrev pub is_word_char : ℕ → Bool
is_word_char c =
    (leb 48 c && leb c 57) || ((leb 65 c && leb c 90) || ((leb 97 c && leb c 122) || c == 95))

-- No word character comes before, or after.
abbrev pub boundary_left : Option ℕ → Bool
boundary_left none = true
boundary_left (some c) = not (is_word_char c)

abbrev pub boundary_right : Str → Bool
boundary_right [] = true
boundary_right (c ∷ s) = not (is_word_char c)

-- What comes after a prefix.
abbrev pub skip : Str → Str → Str
skip [] s = s
skip (p ∷ ps) [] = []
skip (p ∷ ps) (c ∷ s) = skip ps s

-- Each occurrence of the word is tried, with the character `before` it.
abbrev pub word_from : Str → Option ℕ → Str → Bool
word_from word before [] = false
word_from word before (c ∷ s) =
    (starts_with word (c ∷ s) && (boundary_left before && boundary_right (skip word (c ∷ s))))
    || word_from word (some c) s

-- A word that starts with a character of one byte, as the one that the program looks for. The search
-- goes on at `abs + 1`, one byte behind the start of an occurrence: for a word that starts with a
-- longer character that is inside of it, and slicing there panics.
pub record Word : Type 0 where
  pub first : ℕ
  pub rest : Str
  pub is_ascii : ltb first 128 ≡ true

pub is_word_match : Str → Word → Bool
is_word_match haystack word = word_from (word.first ∷ word.rest) none haystack

abbrev pub amp : Word
amp = record { first = 97; rest = codes "mp"; is_ascii = refl }

module _ (to_lowercase : Str → Str) where
  lower_or_empty : Option Str → Str
  lower_or_empty none = []
  lower_or_empty (some s) = to_lowercase s

  -- The title and the command in lower case, with a space between them.
  pub haystack_of : Option Str → Option Str → Str
  unfolding lower_or_empty
  haystack_of title none = lower_or_empty title
  haystack_of title (some c) =
      let t = lower_or_empty title in
      if is_empty_list t then to_lowercase c else t ++ codes " " ++ to_lowercase c

  is_text : Str → Option Str → Bool
  is_text word none = false
  is_text word (some s) = list_eq (to_lowercase s) word

  pub detect_agent_resume_command : Option Str → Option Str → Option Str
  unfolding haystack_of is_text is_word_match
  detect_agent_resume_command title command =
      let haystack = haystack_of title command in
      if is_empty_list haystack
      then none
      else if contains_str (codes "claude") haystack
      then some (codes "claude --resume")
      else if contains_str (codes "opencode") haystack
      then some (codes "opencode --resume")
      else if contains_str (codes "codex") haystack
      then some (codes "codex")
      else if contains_str (codes "gemini") haystack
      then some (codes "gemini")
      else if contains_str (codes "rovo") haystack
      then some (codes "rovo dev")
      else if contains_str (codes "cursor") haystack
      then some (codes "cursor")
      else if contains_str (codes "grok") haystack
      then some (codes "grok")
      else if contains_str (codes "antigravity") haystack
      then some (codes "antigravity")
      else if contains_str (codes "hermes") haystack
      then some (codes "hermes")
      else if contains_str (codes "pi vault") haystack
          || (contains_str (codes "pi ai") haystack
              || (is_text (codes "pi") title || is_text (codes "pi") command))
      then some (codes "pi")
      else if is_word_match haystack amp
      then some (codes "amp")
      else none
