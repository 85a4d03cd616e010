-- ===== src/Session/Agent/Words.antt =====
-- cmux/src/session/snapshot.rs: a whole word in a text.
use cmux_gtk.Prelude.{ℕ, ◌≡◌, Str, true, Option, some, [], ◌∷◌, ◌++◌}
use cmux_gtk.Session.Agent.{boundary_left, boundary_right}

-- The last character of a text that comes after another.
abbrev last_or : Option ℕ → Str → Option ℕ
last_or before [] = before
last_or before (c ∷ s) = last_or (some c) s

-- The word stands in the text between two texts, neither of which goes on with a word character.
abbrev pub Stands : Str → Option ℕ → Str → Type 0
Stands word before s =
    (front : Str) × (back : Str) × (front ++ word ++ back ≡ s)
    × (boundary_left (last_or before front) ≡ true)
    × (boundary_right back ≡ true)
